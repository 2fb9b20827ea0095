-- ===== src/Bitmap/Tests.antt =====
-- Tests of the flips on a small bitmap.
use model3d.Base.{◌≡◌, refl, true, false, some, [], ◌∷◌, nat_eq}
use model3d.Bitmap.{
  ℤ, Bitmap, new_bitmap, get, set_bit, fill_row, fill_rows, flip_x, flip_y, invert_loop, invert,
}
use model3d.Bitmap.Fill.{IsValid}
use model3d.Bitmap.Flips.{mirror, flips_lem}

abbrev corner : Bitmap
corner = record { bits = true ∷ false ∷ false ∷ true ∷ true ∷ false ∷ []; width = 3; height = 2 }

flip_x-corner :
    flip_x corner
    ≡ some
        (record { bits = false ∷ false ∷ true ∷ false ∷ true ∷ true ∷ []; width = 3; height = 2 })
unfolding flip_x fill_rows fill_row get set_bit new_bitmap
flip_x-corner = refl

invert-corner :
    invert corner
    ≡ some
        (record { bits = false ∷ true ∷ true ∷ false ∷ false ∷ true ∷ []; width = 3; height = 2 })
unfolding invert invert_loop new_bitmap
invert-corner = refl

flips_lem_example :
    (r s t u : Bitmap) × (flip_x corner ≡ some r)
    × IsValid r
    × ((x y : ℤ) → get r x y ≡ get corner (mirror 3 x) y)
    × (flip_x r ≡ some s)
    × ((x y : ℤ) → get s x y ≡ get corner x y)
    × (flip_y corner ≡ some t)
    × IsValid t
    × ((x y : ℤ) → get t x y ≡ get corner x (mirror 2 y))
    × (flip_y t ≡ some u)
    × ((x y : ℤ) → get u x y ≡ get corner x y)
flips_lem_example = flips_lem corner refl
