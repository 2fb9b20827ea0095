-- ===== src/Stl/Bytes.antt =====
-- fileformats/stl.go: the bytes of numbers and triangles, read back from the front of a file.
use model3d.Base.{
  ℕ, zero, suc, ◌+◌, ◌*◌, ◌/◌, ◌%◌, ◌^◌, ◌≤◌, ◌<◌, ◌≡◌, refl, ap, List, [], ◌∷◌, ◌++◌, arith,
  nat_eq, length, take, drop, length-append,
}
use model3d.Stl.{
  Vector, StlTriangle, ok, put_uint32, put_vector, put_buffer, get_uint32, get_vector, get_triangle,
  read_full,
}

-- a number that 32 bits hold
abbrev pub Fits : ℕ → Type 0
Fits v = v < 2 ^ 32

abbrev FitsVector : Vector → Type 0
FitsVector v = Fits v.x × Fits v.y × Fits v.z

abbrev pub FitsTriangle : StlTriangle → Type 0
FitsTriangle t = FitsVector t.normal × FitsVector t.v0 × FitsVector t.v1 × FitsVector t.v2

four_bytes :
    (v : ℕ)
    → Fits v
    → v % 256 + v / 256 % 256 * 256 + v / 65536 % 256 * 65536 + v / 16777216 % 256 * 16777216 ≡ v
four_bytes v h = omega arith

pub get_uint32-put : (v : ℕ) → Fits v → get_uint32 (put_uint32 v) 0 ≡ v
unfolding get_uint32 put_uint32
get_uint32-put v h = four_bytes v h

vector_eq :
    (x y z : ℕ) (v : Vector) → x ≡ v.x → y ≡ v.y → z ≡ v.z → record { x = x; y = y; z = z } ≡ v
vector_eq x y z v p q r = rw (p, q, r) refl

-- a triangle in a file, with the two bytes behind its floats
abbrev pub Entry : Type 0
Entry = StlTriangle × (ℕ × ℕ)

abbrev pub entry_bytes : Entry → List ℕ
entry_bytes (t, (a, b)) = put_buffer t ++ a ∷ b ∷ []

-- the entry that WriteTriangle makes
abbrev pub zero_end : StlTriangle → Entry
zero_end t = (t, (0, 0))

abbrev pub triangle_bytes : StlTriangle → List ℕ
triangle_bytes t = put_buffer t ++ 0 ∷ 0 ∷ []

pub get_triangle-put :
    (t : StlTriangle) (a b : ℕ) → FitsTriangle t → get_triangle (put_buffer t ++ a ∷ b ∷ []) ≡ t
unfolding get_triangle get_vector get_uint32 put_buffer put_vector put_uint32
get_triangle-put t a b h =
    rw
      (
        four_bytes t.normal.x h.0.0,
        four_bytes t.normal.y h.0.1,
        four_bytes t.normal.z h.0.2,
        four_bytes t.v0.x h.1.0,
        four_bytes t.v0.y h.1.1,
        four_bytes t.v0.z h.1.2,
        four_bytes t.v1.x h.2.0,
        four_bytes t.v1.y h.2.1,
        four_bytes t.v1.z h.2.2,
        four_bytes t.v2.x h.3.0,
        four_bytes t.v2.y h.3.1,
        four_bytes t.v2.z h.3.2,
      )
      refl

pub append-take-drop : (n : ℕ) (bs : List ℕ) → take n bs ++ drop n bs ≡ bs
append-take-drop zero bs = refl
append-take-drop (suc n) [] = refl
append-take-drop (suc n) (b ∷ bs) = ap (λ cs. b ∷ cs) (append-take-drop n bs)

take-append : (bs rest : List ℕ) → take (length bs) (bs ++ rest) ≡ bs
take-append [] rest = refl
take-append (b ∷ bs) rest = ap (λ cs. b ∷ cs) (take-append bs rest)

drop-append : (bs rest : List ℕ) → drop (length bs) (bs ++ rest) ≡ rest
drop-append [] rest = refl
drop-append (b ∷ bs) rest = drop-append bs rest

pub read_full-append :
    (bs rest : List ℕ) → 0 < length bs → read_full (length bs) (bs ++ rest) ≡ ok (bs, rest)
unfolding read_full
read_full-append [] rest h = absurd (omega arith)
read_full-append (b ∷ bs) rest h =
    rw (take-append bs rest, drop-append bs rest) (ground (arith, length-append bs rest))

pub read_uint32 :
    (v : ℕ) (rest : List ℕ) → read_full 4 (put_uint32 v ++ rest) ≡ ok (put_uint32 v, rest)
unfolding put_uint32
read_uint32 v rest = read_full-append (put_uint32 v) rest (omega arith)

pub take-eq_of_le : (n : ℕ) (bs : List ℕ) → length bs ≤ n → take n bs ≡ bs
take-eq_of_le zero [] h = refl
take-eq_of_le zero (b ∷ bs) h = absurd (omega arith)
take-eq_of_le (suc n) [] h = refl
take-eq_of_le (suc n) (b ∷ bs) h = ap (λ cs. b ∷ cs) (take-eq_of_le n bs (omega arith))

pub read_entry_bytes :
    (t : StlTriangle) (a b : ℕ) (rest : List ℕ)
    → read_full 50 ((put_buffer t ++ a ∷ b ∷ []) ++ rest) ≡ ok (put_buffer t ++ a ∷ b ∷ [], rest)
unfolding put_buffer put_vector put_uint32
read_entry_bytes t a b rest = read_full-append (put_buffer t ++ a ∷ b ∷ []) rest (omega arith)
