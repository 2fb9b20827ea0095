-- ===== src/Stl.antt =====
-- fileformats/stl.go: the writer of binary STL files and the reader that tells binary files from text.
-- A byte is a number below 256 and a float32 its 32 bits. `io.Writer` is a parameter, `io.Reader` reads a
-- list of bytes to its end, and the bytes of a number are those of `binary.LittleEndian`. The reader of
-- triangles in a text file is left out.
pub mod Bytes
pub mod Reading
pub mod RoundTrip
mod Tests
use model3d.Base.{
  ℕ, zero, suc, ◌+◌, ◌-◌, ◌*◌, ◌/◌, ◌%◌, ◌^◌, ◌≤◌, ◌<◌, ◌≡◌, refl, sym, ap, ◌∙◌, ◌≢◌, ◌↔◌, ◌⊎◌, inl,
  inr, Bool, true, false, not, ◌&&◌, ◌||◌, Option, none, some, List, [], ◌∷◌, ◌++◌, map, arith, ltb,
  leb, nat_beq, if◌then◌else◌, Eq, ◌==◌, Zero, nat_beq_iff, nat_eq, Bool-cases, Option-cases,
  ==_refl, is_some, length, get_elem?, get_or, get_elem?-append_left, get_elem?-append_right, set,
  replicate, take, drop, length-append, length-set, length-replicate, to_nat, count, count-append,
  or_else, or_else-none, all_below, all_of, all_below_sound, all_of_sound,
}

pub record Vector : Type 0 where
  pub x : ℕ
  pub y : ℕ
  pub z : ℕ

-- the arguments of WriteTriangle and the results of ReadTriangle
pub record StlTriangle : Type 0 where
  pub normal : Vector
  pub v0 : Vector
  pub v1 : Vector
  pub v2 : Vector

pub data Error : Type 0 where
  write_failed : Error
  too_many : Error
  no_newline : Error
  eof : Error
  unexpected_eof : Error

pub data Result (A : Type 0) : Type 0 where
  ok : A → Result A
  err : Error → Result A

-- an `io.Writer` on a state: `true` for a nil error, after which all bytes are behind those before
pub record Writer (S : Type 0) : Type 0 where
  pub write : S → List ℕ → Bool × S
  pub written : S → List ℕ
  pub written-write : (s t : S) (bs : List ℕ) → write s bs ≡ (true, t) → written t ≡ written s ++ bs

pub record StlWriter (S : Type 0) : Type 0 where
  pub w : S
  pub tris_left : ℕ

unfoldable pub put_uint32 : ℕ → List ℕ
put_uint32 v = v % 256 ∷ v / 256 % 256 ∷ v / 65536 % 256 ∷ v / 16777216 % 256 ∷ []

-- the bytes of the buffer of 12 floats
unfoldable pub put_vector : Vector → List ℕ
put_vector v = put_uint32 v.x ++ put_uint32 v.y ++ put_uint32 v.z

unfoldable pub put_buffer : StlTriangle → List ℕ
put_buffer t = put_vector t.normal ++ put_vector t.v0 ++ put_vector t.v1 ++ put_vector t.v2

module _ {S : Type 0} (o : Writer S) where
  unfoldable pub new_stl_writer : S → ℕ → Result (StlWriter S)
  new_stl_writer w num_tris =
      let (header_ok, w1) = o.write w (replicate 80 0) in
      let (count_ok, w2) = o.write w1 (put_uint32 num_tris) in
      if header_ok
      then if count_ok then ok (record { w = w2; tris_left = num_tris }) else err write_failed
      else err write_failed

  -- the error, if there is one, and the writer after the call
  unfoldable pub write_triangle : StlWriter S → StlTriangle → Option Error × StlWriter S
  write_triangle s t =
      let (floats_ok, w1) = o.write s.w (put_buffer t) in
      let (end_ok, w2) = o.write w1 (0 ∷ 0 ∷ []) in
      if nat_beq s.tris_left 0
      then (some too_many, s)
      else if floats_ok
      then (
        if end_ok then none else some write_failed,
        record { w = w2; tris_left = s.tris_left - 1 },
      )
      else (some write_failed, record { w = w1; tris_left = s.tris_left - 1 })

  -- a loop of WriteTriangle that stops at the first error
  unfoldable pub write_triangles : List StlTriangle → StlWriter S → Option Error × StlWriter S
  write_triangles [] s = (none, s)
  write_triangles (t ∷ ts) s =
      let (e, s') = write_triangle s t in
      let rest = write_triangles ts s' in elim e [ none ↦ rest | some e' ↦ (some e', s') ]

-- `r` has the bytes that are still to be read
pub record StlReader : Type 0 where
  pub r : List ℕ
  pub is_binary : Bool
  pub num_tris : ℕ
  pub read_tris : ℕ

-- `io.ReadFull` into `n` bytes, for `n` above 0
unfoldable pub read_full : ℕ → List ℕ → Result (List ℕ × List ℕ)
read_full n [] = err eof
read_full n (b ∷ bs) =
    if ltb (length (b ∷ bs)) n then err unexpected_eof else ok (take n (b ∷ bs), drop n (b ∷ bs))

unfoldable pub get_uint32 : List ℕ → ℕ → ℕ
get_uint32 bs i =
    get_or bs i 0
    + get_or bs (i + 1) 0 * 256
    + get_or bs (i + 2) 0 * 65536
    + get_or bs (i + 3) 0 * 16777216

unfoldable pub list_beq : List ℕ → List ℕ → Bool
list_beq [] [] = true
list_beq (x ∷ xs) (y ∷ ys) = nat_beq x y && list_beq xs ys
list_beq xs ys = false

-- no byte is 0 or above `unicode.MaxASCII`
unfoldable pub all_ascii : List ℕ → Bool
all_ascii [] = true
all_ascii (x ∷ xs) = not (nat_beq x 0 || ltb 127 x) && all_ascii xs

-- "solid"
abbrev pub solid_word : List ℕ
solid_word = 115 ∷ 111 ∷ 108 ∷ 105 ∷ 100 ∷ []

unfoldable pub is_stl_chunk_ascii : List ℕ → Bool
unfolding list_beq all_ascii
is_stl_chunk_ascii chunk =
    if ltb (length chunk) 5
    then false
    else if list_beq (take 5 chunk) solid_word
    then all_ascii chunk
    else false

-- what is behind the first newline
unfoldable pub after_newline : List ℕ → Option (List ℕ)
after_newline [] = none
after_newline (b ∷ bs) = let rest = after_newline bs in if nat_beq b 10 then some bs else rest

unfoldable pub new_stl_reader_ascii : List ℕ → Result StlReader
unfolding after_newline
new_stl_reader_ascii bs = elim (after_newline bs) [
  | none ↦ err no_newline
  | some rest ↦ ok (record { r = rest; is_binary = false; num_tris = 0; read_tris = 0 })
]

unfoldable pub new_stl_reader_binary : List ℕ → Result StlReader
unfolding read_full
new_stl_reader_binary bs = elim (read_full 80 bs) [
  | err e ↦ err e
  | ok (header, bs1) ↦ elim (read_full 4 bs1) [
    | err e ↦ err e
    | ok (bytes, bs2) ↦
        ok (record { r = bs2; is_binary = true; num_tris = get_uint32 bytes 0; read_tris = 0 })
  ]
]

-- the first 512 bytes, or fewer of a short file, decide; they are put in front of the others again
unfoldable pub new_stl_reader : List ℕ → Result StlReader
new_stl_reader bs =
    let chunk = take 512 bs in
    let reset = if ltb (length bs) 512 then chunk else chunk ++ drop 512 bs in
    if nat_beq (length chunk) 0
    then err unexpected_eof
    else if is_stl_chunk_ascii chunk
    then new_stl_reader_ascii reset
    else new_stl_reader_binary reset

unfoldable pub get_vector : List ℕ → ℕ → Vector
get_vector bytes i = record {
  x = get_uint32 bytes i;
  y = get_uint32 bytes (i + 4);
  z = get_uint32 bytes (i + 8);
}

unfoldable pub get_triangle : List ℕ → StlTriangle
unfolding get_vector
get_triangle bytes = record {
  normal = get_vector bytes 0;
  v0 = get_vector bytes 12;
  v1 = get_vector bytes 24;
  v2 = get_vector bytes 36;
}

unfoldable pub read_binary : StlReader → Result (StlTriangle × StlReader)
unfolding read_full
read_binary s = if nat_beq s.read_tris s.num_tris then err eof else elim (read_full 50 s.r) [
  | err e ↦ err e
  | ok (bytes, rest) ↦
      ok (get_triangle bytes, record s { r = rest; read_tris = (s.read_tris + 1) % 2 ^ 32 })
]

-- a loop of `n` reads that stops at the first error
unfoldable pub read_triangles : ℕ → StlReader → Result (List StlTriangle × StlReader)
read_triangles zero s = ok ([], s)
read_triangles (suc n) s = elim (read_binary s) [
  | err e ↦ err e
  | ok (t, s') ↦ elim (read_triangles n s') [ err e ↦ err e | ok (ts, s'') ↦ ok (t ∷ ts, s'') ]
]
