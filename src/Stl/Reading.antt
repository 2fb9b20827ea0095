-- ===== src/Stl/Reading.antt =====
-- fileformats/stl.go: reading the triangles of a binary file, and of one that is cut.
use model3d.Base.{
  ℕ, suc, ◌+◌, ◌%◌, ◌^◌, ◌≤◌, ◌<◌, ◌≡◌, refl, sym, ap, ◌∙◌, inl, inr, true, false, List, [], ◌∷◌,
  ◌++◌, map, arith, ltb, nat_beq, if◌then◌else◌, nat_eq, Bool-cases, ==_refl, length, replicate,
  take, drop,
}
use model3d.Stl.{
  StlTriangle, eof, unexpected_eof, ok, err, StlReader, new_stl_reader, new_stl_reader_binary,
  read_binary, read_triangles, read_full, put_uint32, is_stl_chunk_ascii, list_beq,
}
use model3d.Stl.Bytes.{
  Entry, Fits, FitsTriangle, append-take-drop, entry_bytes, get_triangle-put, get_uint32-put,
  read_entry_bytes, read_full-append, read_uint32, take-eq_of_le, triangle_bytes, zero_end,
}

abbrev pub FitsAll : List StlTriangle → Type 0
FitsAll [] = Unit
FitsAll (t ∷ ts) = FitsTriangle t × FitsAll ts

abbrev pub all_entries : List Entry → List ℕ
all_entries [] = []
all_entries (e ∷ es) = entry_bytes e ++ all_entries es

abbrev pub all_bytes : List StlTriangle → List ℕ
all_bytes [] = []
all_bytes (t ∷ ts) = triangle_bytes t ++ all_bytes ts

all_entries-zero_end : (ts : List StlTriangle) → all_entries (map zero_end ts) ≡ all_bytes ts
all_entries-zero_end [] = refl
all_entries-zero_end (t ∷ ts) = ap (λ bs. triangle_bytes t ++ bs) (all_entries-zero_end ts)

-- the triangles of entries
abbrev pub triangles_of : List Entry → List StlTriangle
triangles_of [] = []
triangles_of (e ∷ es) = e.0 ∷ triangles_of es

triangles_of-zero_end : (ts : List StlTriangle) → triangles_of (map zero_end ts) ≡ ts
triangles_of-zero_end [] = refl
triangles_of-zero_end (t ∷ ts) = ap (λ us. t ∷ us) (triangles_of-zero_end ts)

length-triangles_of : (es : List Entry) → length (triangles_of es) ≡ length es
length-triangles_of [] = refl
length-triangles_of (e ∷ es) = ap suc (length-triangles_of es)

abbrev pub file_bytes : List StlTriangle → List ℕ
file_bytes ts = replicate 80 0 ++ put_uint32 (length ts) ++ all_bytes ts

pub append_assoc : (xs ys zs : List ℕ) → (xs ++ ys) ++ zs ≡ xs ++ (ys ++ zs)
append_assoc [] ys zs = refl
append_assoc (x ∷ xs) ys zs = ap (λ ws. x ∷ ws) (append_assoc xs ys zs)

pub append_nil : (xs : List ℕ) → xs ++ [] ≡ xs
append_nil [] = refl
append_nil (x ∷ xs) = ap (λ ys. x ∷ ys) (append_nil xs)

-- a reader of the binary form that has come to the byte behind some triangles
abbrev pub reader_at : List ℕ → ℕ → ℕ → StlReader
reader_at rest n k = record { r = rest; is_binary = true; num_tris = n; read_tris = k }

read_one :
    (t : StlTriangle) (a b : ℕ) (rest : List ℕ) (n k : ℕ)
    → FitsTriangle t
    → k < n
    → n < 2 ^ 32
    → read_binary (reader_at (entry_bytes (t, (a, b)) ++ rest) n k)
      ≡ ok (t, reader_at rest n (k + 1))
unfolding read_binary
read_one t a b rest n k h lt small =
    let more : nat_beq k n ≡ false = ground arith in
    let count_up : (k + 1) % 2 ^ 32 ≡ k + 1 = omega arith in
    rw (more, read_entry_bytes t a b rest, get_triangle-put t a b h, count_up) refl

read_entries :
    (es : List Entry) (rest : List ℕ) (n k : ℕ)
    → FitsAll (triangles_of es)
    → k + length es ≤ n
    → n < 2 ^ 32
    → read_triangles (length es) (reader_at (all_entries es ++ rest) n k)
      ≡ ok (triangles_of es, reader_at rest n (k + length es))
unfolding read_triangles
read_entries [] rest n k h le small = ap (λ i. ok ([], reader_at rest n i)) (omega arith)
read_entries ((t, (a, b)) ∷ es) rest n k h le small =
    let next : k + 1 + length es ≡ k + suc (length es) = omega arith in
    rw
      (
        append_assoc (entry_bytes (t, (a, b))) (all_entries es) rest,
        read_triangles,
        read_one t a b (all_entries es ++ rest) n k h.0 (omega arith) small,
        read_entries es rest n (k + 1) h.1 (omega arith) small,
        next,
      )
      refl

read_all :
    (ts : List StlTriangle) (rest : List ℕ) (n : ℕ)
    → FitsAll ts
    → length ts ≤ n
    → n < 2 ^ 32
    → read_triangles (length ts) (reader_at (all_bytes ts ++ rest) n 0)
      ≡ ok (ts, reader_at rest n (length ts))
read_all ts rest n h le small =
    let same = triangles_of-zero_end ts in
    let size : length (map zero_end ts) ≡ length ts =
      sym (length-triangles_of (map zero_end ts)) ∙ ap length same in
    let done =
      read_entries (map zero_end ts) rest n 0 (rw same h) (omega (arith, size, le)) small in
    let more : 0 + length ts ≡ length ts = omega arith in
    rw (all_entries-zero_end ts, size, same, more) at done

-- a file that starts with the byte 0 is no text
not_ascii : (bs : List ℕ) → is_stl_chunk_ascii (0 ∷ bs) ≡ false
unfolding is_stl_chunk_ascii list_beq
not_ascii bs = ground arith

nonzero_length : (n : ℕ) → nat_beq (suc n) 0 ≡ false
nonzero_length n = ground arith

short_length : (n : ℕ) → ltb (suc n) 512 ≡ true → n ≤ 511
short_length n h = ground arith

-- a file whose first 512 bytes are no text is opened as a binary one
open_no_text :
    (b : ℕ) (bs : List ℕ)
    → is_stl_chunk_ascii (take 512 (b ∷ bs)) ≡ false
    → new_stl_reader (b ∷ bs) ≡ new_stl_reader_binary (b ∷ bs)
unfolding new_stl_reader
open_no_text b bs no_text =
    let whole : take 511 bs ++ drop 511 bs ≡ bs = append-take-drop 511 bs in
    elim (Bool-cases (ltb (length (b ∷ bs)) 512)) [
      | inl short ↦
          let all : take 511 bs ≡ bs = take-eq_of_le 511 bs (short_length (length bs) short) in
          let plain : is_stl_chunk_ascii (b ∷ bs) ≡ false = rw all at no_text in
          rw (short, all, nonzero_length (length bs), plain) refl
      | inr long ↦ rw (long, nonzero_length (length (take 511 bs)), no_text, whole) refl
    ]

read_count :
    (header : List ℕ) (n : ℕ) (rest : List ℕ)
    → length header ≡ 80
    → Fits n
    → new_stl_reader_binary (header ++ (put_uint32 n ++ rest)) ≡ ok (reader_at rest n 0)
unfolding new_stl_reader_binary
read_count header n rest size small =
    let first : read_full 80 (header ++ (put_uint32 n ++ rest))
        ≡ ok (header, put_uint32 n ++ rest) =
      ap (λ k. read_full k (header ++ (put_uint32 n ++ rest))) (sym size)
      ∙ read_full-append header (put_uint32 n ++ rest) (omega arith) in
    rw (new_stl_reader_binary, first, read_uint32 n rest, get_uint32-put n small) refl

open_file :
    (header : List ℕ) (n : ℕ) (rest : List ℕ)
    → length header ≡ 80
    → is_stl_chunk_ascii (take 512 (header ++ (put_uint32 n ++ rest))) ≡ false
    → Fits n
    → new_stl_reader (header ++ (put_uint32 n ++ rest)) ≡ ok (reader_at rest n 0)
open_file [] n rest size no_text small = absurd (omega arith)
open_file (b ∷ header) n rest size no_text small =
    open_no_text b (header ++ (put_uint32 n ++ rest)) no_text
    ∙ read_count (b ∷ header) n rest size small

open_binary :
    (ts : List StlTriangle)
    → length ts < 2 ^ 32
    → new_stl_reader (file_bytes ts) ≡ ok (reader_at (all_bytes ts) (length ts) 0)
open_binary ts small =
    open_file (replicate 80 0) (length ts) (all_bytes ts) (omega arith)
      (not_ascii (take 511 (replicate 79 0 ++ put_uint32 (length ts) ++ all_bytes ts))) small

-- what a reader makes of a file: the number of triangles, the triangles, and then the end
pub record Reads (bs : List ℕ) (ts : List StlTriangle) : Type 0 where
  pub reader : StlReader
  pub last : StlReader
  pub opened : new_stl_reader bs ≡ ok reader
  pub binary : reader.is_binary ≡ true
  pub counted : reader.num_tris ≡ length ts
  pub delivered : read_triangles (length ts) reader ≡ ok (ts, last)
  pub ended : read_binary last ≡ err eof

read_binary-end : (n : ℕ) → read_binary (reader_at [] n n) ≡ err eof
unfolding read_binary
read_binary-end n = rw (==_refl n) refl

pub read_file : (ts : List StlTriangle) → length ts < 2 ^ 32 → FitsAll ts → Reads (file_bytes ts) ts
read_file ts small fits = record {
  reader = reader_at (all_bytes ts) (length ts) 0;
  last = reader_at [] (length ts) (length ts);
  opened = open_binary ts small;
  binary = refl;
  counted = refl;
  delivered =
      sym (
        ap (λ bs. read_triangles (length ts) (reader_at bs (length ts) 0))
          (append_nil (all_bytes ts)))
      ∙ read_all ts [] (length ts) fits (omega arith) small;
  ended = read_binary-end (length ts);
}

read_binary-short :
    (part : List ℕ) (n k : ℕ)
    → k < n
    → length part < 50
    → read_binary (reader_at part n k)
      ≡ err (if nat_beq (length part) 0 then eof else unexpected_eof)
unfolding read_binary read_full
read_binary-short [] n k lt short = let more : nat_beq k n ≡ false = ground arith in rw more refl
read_binary-short (b ∷ part) n k lt short =
    let more : nat_beq k n ≡ false = ground arith in
    let few : ltb (suc (length part)) 50 ≡ true = ground arith in
    let some_left : nat_beq (suc (length part)) 0 ≡ false = ground arith in
    rw (more, few, some_left) refl

-- A file of 80 bytes of header, a number of triangles and triangles with any two bytes behind the
-- floats of each, whose first 512 bytes do not pass as text and which is cut behind the number,
-- gives the triangles that are whole in it; behind them the reader reports an unexpected end if
-- the cut is within a triangle, and the plain end of a file if it is between two, although the
-- header promises more; the number of triangles and each float are below 2 ^ 32.
pub read-cut :
    (header : List ℕ) (es : List Entry) (part : List ℕ) (n : ℕ)
    → length header ≡ 80
    → is_stl_chunk_ascii (take 512 (header ++ (put_uint32 n ++ (all_entries es ++ part)))) ≡ false
    → length es < n
    → n < 2 ^ 32
    → FitsAll (triangles_of es)
    → length part < 50
    → (new_stl_reader (header ++ (put_uint32 n ++ (all_entries es ++ part)))
        ≡ ok (reader_at (all_entries es ++ part) n 0))
      × (read_triangles (length es) (reader_at (all_entries es ++ part) n 0)
          ≡ ok (triangles_of es, reader_at part n (length es)))
      × (read_binary (reader_at part n (length es))
          ≡ err (if nat_beq (length part) 0 then eof else unexpected_eof))
read-cut header es part n size no_text fewer small fits short = (
  open_file header n (all_entries es ++ part) size no_text small,
  read_entries es part n 0 fits (omega arith) small
      ∙ ap (λ k. ok (triangles_of es, reader_at part n k)) (omega arith),
  read_binary-short part n (length es) fewer short,
)
