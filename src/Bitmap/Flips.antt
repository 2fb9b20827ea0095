-- ===== src/Bitmap/Flips.antt =====
-- model2d/bitmap.go: FlipX, FlipY and Invert.
use model3d.Base.{
  ℕ, ◌+◌, ◌-◌, ◌<◌, ◌≡◌, refl, sym, ap, ◌∙◌, inl, inr, Bool, true, false, ◌||◌, some, arith, ltb,
  leb, if◌then◌else◌, nat_eq, Bool-cases,
}
use model3d.Bitmap.{ℤ, pos, negsuc, Bitmap, get, flip_x, flip_y}
use model3d.Bitmap.Fill.{IsValid, at, HasSize, get-at, fill_rows-new}

-- the point that a flip takes to the given one: `n - (x + 1)`
abbrev pub mirror : ℕ → ℤ → ℤ
mirror n (pos x) = if ltb x n then pos (n - (x + 1)) else negsuc (x - n)
mirror n (negsuc x) = pos (n + x)

-- the bit at a point, which is false outside
abbrev bit_at : Bitmap → ℕ → ℕ → Bool
bit_at b x y = if leb b.width x || leb b.height y then false else at b x y

get-bit_at : (b : Bitmap) (x y : ℕ) → IsValid b → get b (pos x) (pos y) ≡ some (bit_at b x y)
unfolding get
get-bit_at b x y valid = elim (Bool-cases (leb b.width x || leb b.height y)) [
  | inl outside ↦ rw outside refl
  | inr inside ↦
      get-at b x y valid (ground (arith, inside)) (ground (arith, inside)) ∙ rw inside refl
]

-- a bitmap that has the bits of another one at the mirrored points
get-mirror_x :
    (b r : Bitmap)
    → IsValid b
    → IsValid r
    → HasSize b.width b.height r
    → ((x y : ℕ) → x < b.width → y < b.height → at r x y ≡ at b (b.width - (x + 1)) y)
    → (x y : ℤ) → get r x y ≡ get b (mirror b.width x) y
unfolding get
get-mirror_x b r valid r_valid (ew, eh, size) same (pos x) (pos y) =
    elim (Bool-cases (ltb x b.width)) [
      | inl less ↦ rw less (
          get-bit_at r x y r_valid
          ∙ ap some (ground (arith, less, ew, eh, same x y))
          ∙ sym (get-bit_at b (b.width - (x + 1)) y valid))
      | inr more ↦ rw more (get-bit_at r x y r_valid ∙ ground (arith, more, ew))
    ]
get-mirror_x b r valid r_valid size same (pos x) (negsuc y) = elim (Bool-cases (ltb x b.width)) [
  | inl less ↦ rw less refl
  | inr more ↦ rw more refl
]
get-mirror_x b r valid r_valid size same (negsuc x) (pos y) =
    sym (get-bit_at b (b.width + x) y valid ∙ ground arith)
get-mirror_x b r valid r_valid size same (negsuc x) (negsuc y) = refl

get-mirror_y :
    (b r : Bitmap)
    → IsValid b
    → IsValid r
    → HasSize b.width b.height r
    → ((x y : ℕ) → x < b.width → y < b.height → at r x y ≡ at b x (b.height - (y + 1)))
    → (x y : ℤ) → get r x y ≡ get b x (mirror b.height y)
unfolding get
get-mirror_y b r valid r_valid (ew, eh, size) same (pos x) (pos y) =
    elim (Bool-cases (ltb y b.height)) [
      | inl less ↦ rw less (
          get-bit_at r x y r_valid
          ∙ ap some (ground (arith, less, ew, eh, same x y))
          ∙ sym (get-bit_at b x (b.height - (y + 1)) valid))
      | inr more ↦ rw more (get-bit_at r x y r_valid ∙ ground (arith, more, eh))
    ]
get-mirror_y b r valid r_valid size same (pos x) (negsuc y) =
    sym (get-bit_at b x (b.height + y) valid ∙ ground arith)
get-mirror_y b r valid r_valid size same (negsuc x) y = refl

HasSize-IsValid : (w h : ℕ) (r : Bitmap) → HasSize w h r → IsValid r
HasSize-IsValid w h r (ew, eh, size) = rw (ew, eh) size

flip_x-get :
    (b : Bitmap)
    → IsValid b
    → (r : Bitmap) × (flip_x b ≡ some r)
      × HasSize b.width b.height r
      × ((x y : ℤ) → get r x y ≡ get b (mirror b.width x) y)
unfolding flip_x
flip_x-get b valid =
    let (r, eq, size, same) =
      fill_rows-new (λ x y. get b (pos (b.width - (x + 1))) (pos y))
        (λ x y. at b (b.width - (x + 1)) y) b.width b.height
        (λ x y h k. get-at b (b.width - (x + 1)) y valid (omega arith) k) in
    (r, eq, size, get-mirror_x b r valid (HasSize-IsValid b.width b.height r size) size same)

flip_y-get :
    (b : Bitmap)
    → IsValid b
    → (r : Bitmap) × (flip_y b ≡ some r)
      × HasSize b.width b.height r
      × ((x y : ℤ) → get r x y ≡ get b x (mirror b.height y))
unfolding flip_y
flip_y-get b valid =
    let (r, eq, size, same) =
      fill_rows-new (λ x y. get b (pos x) (pos (b.height - (y + 1))))
        (λ x y. at b x (b.height - (y + 1))) b.width b.height
        (λ x y h k. get-at b x (b.height - (y + 1)) valid h (omega arith)) in
    (r, eq, size, get-mirror_y b r valid (HasSize-IsValid b.width b.height r size) size same)

mirror-mirror : (n : ℕ) (x : ℤ) → mirror n (mirror n x) ≡ x
mirror-mirror n (pos x) = elim (Bool-cases (ltb x n)) [
  | inl less ↦
      let again : ltb (n - (x + 1)) n ≡ true = ground (arith, less) in
      let back : n - ((n - (x + 1)) + 1) ≡ x = ground (arith, less) in
      rw (less, again) (ap pos back)
  | inr more ↦ let back : n + (x - n) ≡ x = ground (arith, more) in rw more (ap pos back)
]
mirror-mirror n (negsuc x) =
    let past : ltb (n + x) n ≡ false = ground arith in
    let back : (n + x) - n ≡ x = omega arith in rw past (ap negsuc back)

-- For a bitmap with as many bits as its size says, FlipX and FlipY end without a panic in such a
-- bitmap whose Get, at any point in or out of bounds, is that of the given one at the mirrored
-- point, and a second flip gives the bits of the given one back.
pub flips_lem :
    (b : Bitmap)
    → IsValid b
    → (r s t u : Bitmap) × (flip_x b ≡ some r)
      × IsValid r
      × ((x y : ℤ) → get r x y ≡ get b (mirror b.width x) y)
      × (flip_x r ≡ some s)
      × ((x y : ℤ) → get s x y ≡ get b x y)
      × (flip_y b ≡ some t)
      × IsValid t
      × ((x y : ℤ) → get t x y ≡ get b x (mirror b.height y))
      × (flip_y t ≡ some u)
      × ((x y : ℤ) → get u x y ≡ get b x y)
flips_lem b valid =
    let (r, r_eq, r_size, r_same) = flip_x-get b valid in
    let r_valid = HasSize-IsValid b.width b.height r r_size in
    let (s, s_eq, s_size, s_same) = flip_x-get r r_valid in
    let (t, t_eq, t_size, t_same) = flip_y-get b valid in
    let t_valid = HasSize-IsValid b.width b.height t t_size in
    let (u, u_eq, u_size, u_same) = flip_y-get t t_valid in
    (
      r,
      s,
      t,
      u,
      r_eq,
      r_valid,
      r_same,
      s_eq,
      λ x y.
          s_same x y
          ∙ r_same (mirror r.width x) y
          ∙ ap (λ n. get b (mirror b.width (mirror n x)) y) (r_size.0)
          ∙ ap (λ v. get b v y) (mirror-mirror b.width x),
      t_eq,
      t_valid,
      t_same,
      u_eq,
      λ x y.
          u_same x y
          ∙ t_same x (mirror t.height y)
          ∙ ap (λ n. get b x (mirror b.height (mirror n y))) (t_size.1)
          ∙ ap (get b x) (mirror-mirror b.height y),
    )
