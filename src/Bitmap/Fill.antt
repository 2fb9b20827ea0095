-- ===== src/Bitmap/Fill.antt =====
-- model2d/bitmap.go: bits by their index, and the loops that fill a bitmap.
use native.Mathlib.Nat.{mul-le-mul_right, mul_comm}
use model3d.Base.{
  ℕ, zero, suc, ◌+◌, ◌*◌, ◌<◌, ◌≡◌, refl, ap, ◌∙◌, inl, inr, Bool, true, false, ◌&&◌, ◌||◌, Option,
  some, List, [], ◌∷◌, arith, ltb, leb, nat_beq, if◌then◌else◌, nat_beq_iff, nat_eq, Bool-cases,
  length, get_elem?, get_or, set, length-set, length-replicate,
}
use model3d.Bitmap.{pos, Bitmap, new_bitmap, get, set_bit, fill_row, fill_rows}

-- the bits are as many as the size says
abbrev pub IsValid : Bitmap → Type 0
IsValid b = length b.bits ≡ b.width * b.height

-- the bit at a point within the bounds
abbrev pub at : Bitmap → ℕ → ℕ → Bool
at b x y = get_or b.bits (x + y * b.width) false

suc_times : (y w : ℕ) → suc y * w ≡ y * w + w
suc_times y w = ground arith

index-before : (w x y x1 y1 : ℕ) → x < w → y < y1 → x + y * w < x1 + y1 * w
index-before w x y x1 y1 h k =
    omega (arith, suc_times y w, mul-le-mul_right {m = suc y} {n = y1} w k)

pub index-less : (w h x y : ℕ) → x < w → y < h → x + y * w < w * h
index-less w h x y k l =
    omega (arith, suc_times y w, mul-le-mul_right {m = suc y} {n = h} w l, mul_comm w h)

-- an index belongs to one point
index-apart :
    (w x y x1 y1 : ℕ)
    → x < w
    → x1 < w
    → nat_beq (x + y * w) (x1 + y1 * w) ≡ (nat_beq x x1 && nat_beq y y1)
index-apart w x y x1 y1 h k = elim (Bool-cases (nat_beq y y1)) [
  | inl same ↦ let e : y ≡ y1 = (nat_beq_iff y y1).0 same in rw e (ground arith)
  | inr apart ↦ elim (Bool-cases (ltb y y1)) [
    | inl less ↦ ground (arith, apart, index-before w x y x1 y1 h (ground (arith, less)))
    | inr more ↦ ground (arith, apart, index-before w x1 y1 x y k (ground (arith, more, apart)))
  ]
]

get_elem?-get_or :
    (xs : List Bool) (i : ℕ) → i < length xs → get_elem? xs i ≡ some (get_or xs i false)
get_elem?-get_or [] i h = absurd (omega arith)
get_elem?-get_or (x ∷ xs) zero h = refl
get_elem?-get_or (x ∷ xs) (suc i) h = get_elem?-get_or xs i (omega arith)

pub get_or-set :
    (xs : List Bool) (k i : ℕ) (v : Bool)
    → k < length xs
    → get_or (set xs k v) i false ≡ (if nat_beq k i then v else get_or xs i false)
get_or-set [] k i v h = absurd (omega arith)
get_or-set (x ∷ xs) zero zero v h = ground arith
get_or-set (x ∷ xs) zero (suc i) v h = ground arith
get_or-set (x ∷ xs) (suc k) zero v h = ground arith
get_or-set (x ∷ xs) (suc k) (suc i) v h = get_or-set xs k i v (omega arith) ∙ ground arith

pub get-at :
    (b : Bitmap) (x y : ℕ)
    → IsValid b
    → x < b.width
    → y < b.height
    → get b (pos x) (pos y) ≡ some (at b x y)
unfolding get
get-at b x y valid h k =
    let inside : (leb b.width x || leb b.height y) ≡ false = ground arith in
    rw inside (
      get_elem?-get_or b.bits (x + y * b.width)
        (omega (arith, valid, index-less b.width b.height x y h k)))

-- a bitmap of the given size
abbrev pub HasSize : ℕ → ℕ → Bitmap → Type 0
HasSize w h b = (b.width ≡ w) × (b.height ≡ h) × (length b.bits ≡ w * h)

set_bit-at :
    (w h : ℕ) (b : Bitmap) (x y : ℕ) (v : Bool)
    → HasSize w h b
    → x < w
    → y < h
    → (r : Bitmap) × (set_bit b (pos x) (pos y) v ≡ some r)
      × HasSize w h r
      × ((x1 y1 : ℕ)
          → x1 < w
          → at r x1 y1 ≡ (if nat_beq x x1 && nat_beq y y1 then v else at b x1 y1))
unfolding set_bit
set_bit-at w h b x y v (ew, eh, valid) k l =
    let inside : (leb b.width x || leb b.height y) ≡ false = ground arith in
    let in_bits : x + y * b.width < length b.bits =
      rw ew (omega (arith, valid, index-less w h x y k l)) in
    let small : ltb (x + y * b.width) (length b.bits) ≡ true = ground arith in
    rw (inside, small)
      (
        record b { bits = set b.bits (x + y * b.width) v },
        refl,
        (ew, eh, length-set b.bits (x + y * b.width) v ∙ valid),
        λ x1 y1 m.
            get_or-set b.bits (x + y * b.width) (x1 + y1 * b.width) v in_bits
            ∙ ap (λ t. if t then v else at b x1 y1)
                (index-apart b.width x y x1 y1 (omega (arith, ew)) (omega (arith, ew))),
      )

module _ (read : ℕ → ℕ → Option Bool) (value : ℕ → ℕ → Bool) (w h : ℕ) where
  abbrev Reads : Type 0
  Reads = (x y : ℕ) → x < w → y < h → read x y ≡ some (value x y)

  one_more :
      (x y x1 y1 : ℕ) (old : Bool)
      → (if leb (suc x) x1 && nat_beq y y1
          then value x1 y1
          else if nat_beq x x1 && nat_beq y y1
          then value x y
          else old)
        ≡ (if leb x x1 && nat_beq y y1 then value x1 y1 else old)
  one_more x y x1 y1 old = elim (Bool-cases (nat_beq x x1 && nat_beq y y1)) [
    | inl same ↦
        let ex : x ≡ x1 = ground (arith, same) in
        let ey : y ≡ y1 = ground (arith, same) in
        ground (arith, same, ap (λ t. value t y) ex ∙ ap (value x1) ey)
    | inr apart ↦ ground (arith, apart)
  ]

  fill_row-at :
      (y x n : ℕ) (res : Bitmap)
      → Reads
      → x + n ≡ w
      → y < h
      → HasSize w h res
      → (r : Bitmap) × (fill_row read y x n res ≡ some r)
        × HasSize w h r
        × ((x1 y1 : ℕ)
            → x1 < w
            → at r x1 y1 ≡ (if leb x x1 && nat_beq y y1 then value x1 y1 else at res x1 y1))
  unfolding fill_row
  fill_row-at y x zero res reads e k size = (res, refl, size, λ x1 y1 m. ground arith)
  fill_row-at y x (suc n) res reads e k size =
      let (res1, eq1, size1, at1) = set_bit-at w h res x y (value x y) size (omega arith) k in
      let (r, eq, size2, at2) = fill_row-at y (suc x) n res1 reads (omega arith) k size1 in
      (
        r,
        rw (reads x y (omega arith) k, eq1) eq,
        size2,
        λ x1 y1 m.
            at2 x1 y1 m
            ∙ ap (λ t. if leb (suc x) x1 && nat_beq y y1 then value x1 y1 else t) (at1 x1 y1 m)
            ∙ one_more x y x1 y1 (at res x1 y1),
      )

  pub fill_rows-at :
      (y n : ℕ) (res : Bitmap)
      → Reads
      → y + n ≡ h
      → HasSize w h res
      → (r : Bitmap) × (fill_rows read w y n res ≡ some r)
        × HasSize w h r
        × ((x1 y1 : ℕ)
            → x1 < w
            → at r x1 y1 ≡ (if leb y y1 && ltb y1 h then value x1 y1 else at res x1 y1))
  unfolding fill_rows
  fill_rows-at y zero res reads e size = (res, refl, size, λ x1 y1 m. ground arith)
  fill_rows-at y (suc n) res reads e size =
      let (res1, eq1, size1, at1) = fill_row-at y 0 w res reads (omega arith) (omega arith) size in
      let (r, eq, size2, at2) = fill_rows-at (suc y) n res1 reads (omega arith) size1 in
      (r, rw eq1 eq, size2, λ x1 y1 m. ground (arith, at2 x1 y1 m, at1 x1 y1 m))

-- a bitmap that is made from another one, point by point
pub fill_rows-new :
    (read : ℕ → ℕ → Option Bool) (value : ℕ → ℕ → Bool) (w h : ℕ)
    → ((x y : ℕ) → x < w → y < h → read x y ≡ some (value x y))
    → (r : Bitmap) × (fill_rows read w 0 h (new_bitmap w h) ≡ some r)
      × HasSize w h r
      × ((x y : ℕ) → x < w → y < h → at r x y ≡ value x y)
unfolding new_bitmap
fill_rows-new read value w h reads =
    let (r, eq, size, filled) =
      fill_rows-at read value w h 0 h (new_bitmap w h) reads (omega arith)
        (refl, refl, length-replicate (w * h) false) in
    (r, eq, size, λ x y k l. filled x y k ∙ ground (arith, l))
