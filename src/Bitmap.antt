-- ===== src/Bitmap.antt =====
-- model2d/bitmap.go: Bitmap, its bits, and the bitmaps made from it. A panic is `none`.
pub mod Fill
pub mod Flips
pub mod Invert
mod Tests
use model3d.Base.{
  ℕ, zero, suc, ◌+◌, ◌-◌, ◌*◌, ◌/◌, ◌%◌, ◌^◌, ◌≤◌, ◌<◌, ◌≡◌, refl, sym, ap, ◌∙◌, ◌≢◌, ◌↔◌, ◌⊎◌, inl,
  inr, Bool, true, false, not, ◌&&◌, ◌||◌, Option, none, some, List, [], ◌∷◌, ◌++◌, map, arith, ltb,
  leb, nat_beq, if◌then◌else◌, Eq, ◌==◌, Zero, nat_beq_iff, nat_eq, Bool-cases, Option-cases,
  ==_refl, is_some, length, get_elem?, get_or, get_elem?-append_left, get_elem?-append_right, set,
  replicate, take, drop, length-append, length-set, length-replicate, to_nat, count, count-append,
  or_else, or_else-none, ◌>>=◌, all_below, all_of, all_below_sound, all_of_sound,
}

-- an int
pub data ℤ : Type 0 where
  pos : ℕ → ℤ
  negsuc : ℕ → ℤ

pub record Bitmap : Type 0 where
  pub bits : List Bool
  pub width : ℕ
  pub height : ℕ

unfoldable pub new_bitmap : ℕ → ℕ → Bitmap
new_bitmap width height = record {
  bits = replicate (width * height) false;
  width = width;
  height = height;
}

unfoldable pub get : Bitmap → ℤ → ℤ → Option Bool
get b (pos x) (pos y) =
    if leb b.width x || leb b.height y then some false else get_elem? b.bits (x + y * b.width)
get b (pos x) (negsuc y) = some false
get b (negsuc x) y = some false

unfoldable pub set_bit : Bitmap → ℤ → ℤ → Bool → Option Bitmap
set_bit b (pos x) (pos y) v =
    if leb b.width x || leb b.height y
    then none
    else if ltb (x + y * b.width) (length b.bits)
    then some (record b { bits = set b.bits (x + y * b.width) v })
    else none
set_bit b (pos x) (negsuc y) v = none
set_bit b (negsuc x) y v = none

-- the inner loop of FlipX and of FlipY, from a value of x on, with the bit that it reads
unfoldable pub fill_row : (ℕ → ℕ → Option Bool) → ℕ → ℕ → ℕ → Bitmap → Option Bitmap
fill_row read y x zero res = some res
fill_row read y x (suc n) res = do
  v ← read x y
  res1 ← set_bit res (pos x) (pos y) v
  fill_row read y (suc x) n res1

-- and the outer loop
unfoldable pub fill_rows : (ℕ → ℕ → Option Bool) → ℕ → ℕ → ℕ → Bitmap → Option Bitmap
fill_rows read width y zero res = some res
fill_rows read width y (suc n) res = do
  res1 ← fill_row read y 0 width res
  fill_rows read width (suc y) n res1

unfoldable pub flip_x : Bitmap → Option Bitmap
flip_x b =
    fill_rows (λ x y. get b (pos (b.width - (x + 1))) (pos y)) b.width 0 b.height
      (new_bitmap b.width b.height)

unfoldable pub flip_y : Bitmap → Option Bitmap
flip_y b =
    fill_rows (λ x y. get b (pos x) (pos (b.height - (y + 1)))) b.width 0 b.height
      (new_bitmap b.width b.height)

-- the loop of Invert, from an index on
unfoldable pub invert_loop : ℕ → List Bool → List Bool → Option (List Bool)
invert_loop i [] res = some res
invert_loop i (x ∷ xs) res =
    let rest = invert_loop (suc i) xs (set res i (not x)) in
    if ltb i (length res) then rest else none

unfoldable pub invert : Bitmap → Option Bitmap
invert b = do
  bits ← invert_loop 0 b.bits (new_bitmap b.width b.height).bits
  some (record { bits = bits; width = b.width; height = b.height })
