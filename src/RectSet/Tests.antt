-- ===== src/RectSet/Tests.antt =====
-- A set of two overlapping boxes, step by step, and the theorems at such sets.
use model3d.Base.{eq_beq, ℕ, ◌≡◌, refl, true, ◌||◌, [], ◌∷◌, nat_eq}
use model3d.GoMap
use model3d.GoMap.{IsDistinct, keys}
use model3d.Coords.{Coord3D, Rect, rect_eq, rect_contains}
use model3d.RectSet.{
  RectSet, new_rect_set, add, remove, add_rect_set, add_split, split_rect_grid, split_rect,
  put_rects, add_rect_splits, split_all_axis, split_rect_axis, search_floats, insert_at, cut_rects,
  rect_slice, cut_rect, rebuild_splits, drop_rects, axis_values, add_value,
}
use model3d.RectSet.Cover.{covers, any_contains, split_rect_grid-contains}
use model3d.RectSet.Changes.{Covers, add-Covers, add_rect_set-Covers}

abbrev at : ℕ → ℕ → ℕ → Coord3D
at x y z = record { x = x; y = y; z = z }

abbrev big_box : Rect
big_box = record { min_val = at 1 1 1; max_val = at 5 5 5 }

abbrev small_box : Rect
small_box = record { min_val = at 3 1 1; max_val = at 5 5 5 }

abbrev other_half : Rect
other_half = record { min_val = at 1 1 1; max_val = at 3 5 5 }

abbrev one_box : RectSet
one_box = record {
  rects = (big_box, true) ∷ [];
  splits = record { x = 1 ∷ 5 ∷ []; y = 1 ∷ 5 ∷ []; z = 1 ∷ 5 ∷ [] };
}

one_box-IsDistinct : IsDistinct one_box.rects
unfolding GoMap.lookup
one_box-IsDistinct = (refl, tt)

-- the first box of an empty set
first_box : add new_rect_set big_box ≡ one_box
unfolding add new_rect_set GoMap.insert put_rects add_rect_splits split_rect_grid add_split
    split_all_axis split_rect_axis search_floats split_rect
first_box = refl

-- a box inside another one cuts it, and its removal leaves the other half
cut_and_removed :
    ((add one_box small_box).rects ≡ (other_half, true) ∷ (small_box, true) ∷ [])
    × ((remove one_box small_box).rects ≡ (other_half, true) ∷ [])
    × ((remove one_box small_box).splits.x ≡ 1 ∷ 3 ∷ [])
unfolding add remove GoMap.insert GoMap.delete put_rects split_rect_grid split_all_axis
    split_rect_axis add_rect_splits add_split search_floats insert_at split_rect cut_rects
    rect_slice cut_rect rebuild_splits drop_rects axis_values add_value
cut_and_removed = (refl, refl, refl)

split_rect_grid-contains_example :
    any_contains (split_rect_grid one_box.splits small_box) (at 4 4 4)
    ≡ rect_contains small_box (at 4 4 4)
split_rect_grid-contains_example = split_rect_grid-contains one_box.splits small_box (at 4 4 4)

add-Covers_example :
    Covers
      (add one_box small_box)
      (at 4 4 4)
      (rect_contains small_box (at 4 4 4) || covers one_box.rects (at 4 4 4))
add-Covers_example = add-Covers one_box small_box (at 4 4 4) one_box-IsDistinct

add_rect_set-Covers_example :
    Covers
      (add_rect_set one_box one_box)
      (at 4 4 4)
      (covers one_box.rects (at 4 4 4) || covers one_box.rects (at 4 4 4))
add_rect_set-Covers_example = add_rect_set-Covers one_box one_box (at 4 4 4) one_box-IsDistinct
