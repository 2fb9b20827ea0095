-- ===== src/RectSet/GridTests.antt =====
-- Sets that are built with the operations, their solids, and the theorems at such sets.
use model3d.Base.{
  eq_beq, ℕ, is_some, ◌&&◌, ltb, ◌<◌, ◌≡◌, refl, true, false, some, [], ◌∷◌, arith, nat_beq,
  if◌then◌else◌, ◌==◌, nat_eq, length,
}
use model3d.GoMap
use model3d.GoMap.{IsDistinct}
use model3d.Coords.{Coord3D, Rect, coord_eq, coord_at, coord_zero, rect_eq, in_bounds}
use model3d.RectSet.{
  RectSet, new_rect_set, add, remove, remove_rect_set, add_split, split_rect_grid, split_rect,
  put_rects, add_rect_splits, split_all_axis, split_rect_axis, search_floats, insert_at, cut_rects,
  rect_slice, cut_rect, rebuild_splits, axis_values, add_value, drop_rects,
}
use model3d.RectSet.Cover.{covers}
use model3d.RectSet.Grid.{IsGrid}
use model3d.RectSet.GridSteps.{add_split_lem}
use model3d.RectSet.Exact.{IsProper}
use model3d.RectSet.Ends.{IsTight}
use model3d.RectSet.Kept.{IsKey}
use model3d.RectSet.Inside.{IsInside, remove-inside, remove_rect_set-inside}
use model3d.RectSet.Built.{Built, built_new, built_add, Built_lem, Built-IsGrid, Built-bounds}
use model3d.RectSet.Solid.{
  RectSetSolid, single_rect, divided, new_rect_set_solid, solid_to_depth, divide_solid,
  split_rect_set, split_axis, longer_axis, halves, last_rect, rect_set_min, rect_set_max, point_of,
  last_split, solid_contains, solid_min, solid_max,
}
use model3d.RectSet.SolidContains.{new_rect_set_solid-contains}

abbrev at : ℕ → ℕ → ℕ → Coord3D
at x y z = record { x = x; y = y; z = z }

abbrev big_box : Rect
big_box = record { min_val = at 1 1 1; max_val = at 5 5 5 }

abbrev small_box : Rect
small_box = record { min_val = at 3 1 1; max_val = at 5 5 5 }

abbrev other_half : Rect
other_half = record { min_val = at 1 1 1; max_val = at 3 5 5 }

abbrev two_boxes : RectSet
two_boxes = add (add new_rect_set big_box) small_box

two_boxes-Built : Built two_boxes
two_boxes-Built =
    built_add small_box
      (built_add big_box built_new (proper big_box (omega arith) (omega arith) (omega arith)))
      (proper small_box (omega arith) (omega arith) (omega arith))
  where
    proper :
        (r : Rect)
        → r.min_val.x < r.max_val.x
        → r.min_val.y < r.max_val.y
        → r.min_val.z < r.max_val.z
        → IsProper r
    proper r x y z = record { on_x = x; on_y = y; on_z = z }

two_rects : two_boxes.rects ≡ (other_half, true) ∷ (small_box, true) ∷ []
unfolding add new_rect_set GoMap.insert GoMap.delete put_rects add_rect_splits split_rect_grid
    add_split split_all_axis split_rect_axis search_floats split_rect insert_at cut_rects rect_slice
    cut_rect
two_rects = refl

-- the two boxes are parted at the plane x = 3
its_solid :
    new_rect_set_solid two_boxes
    ≡ some (divided 0 3 (single_rect other_half) (single_rect small_box) (at 1 1 1) (at 5 5 5))
unfolding add new_rect_set GoMap.insert GoMap.delete put_rects add_rect_splits split_rect_grid
    add_split split_all_axis split_rect_axis search_floats split_rect insert_at cut_rects rect_slice
    cut_rect new_rect_set_solid solid_to_depth divide_solid split_rect_set split_axis longer_axis
    halves last_rect rect_set_min rect_set_max point_of last_split rebuild_splits axis_values
    add_value
its_solid = refl

abbrev flat_box : Rect
flat_box = record { min_val = at 3 1 1; max_val = at 3 5 5 }

-- a box without an extent is no piece of a box around it, so Remove leaves it
flat_stays : (remove (add new_rect_set flat_box) big_box).rects ≡ (flat_box, true) ∷ []
unfolding add new_rect_set GoMap.insert GoMap.delete put_rects add_rect_splits split_rect_grid
    add_split split_all_axis split_rect_axis search_floats split_rect insert_at cut_rects rect_slice
    cut_rect rebuild_splits axis_values add_value remove drop_rects
flat_stays = refl

-- the solid of an empty set
empty_solid :
    new_rect_set_solid new_rect_set
    ≡ some
        (single_rect (record { min_val = coord_zero.zero_value; max_val = coord_zero.zero_value }))
unfolding new_rect_set_solid solid_to_depth new_rect_set
empty_solid = refl

Built_lem_example : IsGrid two_boxes × IsTight two_boxes
Built_lem_example = Built_lem two_boxes two_boxes-Built

other_half-IsKey : IsKey other_half two_boxes.rects
unfolding GoMap.lookup
other_half-IsKey = rw two_rects refl

other_half-IsInside : IsInside other_half (at 2 2 2)
other_half-IsInside =
    ((omega arith, omega arith), (omega arith, omega arith), (omega arith, omega arith))

Built-bounds_example :
    (lo hi : Coord3D) × (rect_set_min two_boxes ≡ some lo)
    × (rect_set_max two_boxes ≡ some hi)
    × ((p : Coord3D) → covers two_boxes.rects p ≡ true → in_bounds lo hi p ≡ true)
    × ((axis : ℕ)
        → ((q : Rect) × IsKey q two_boxes.rects × (coord_at q.min_val axis ≡ coord_at lo axis))
          × ((q : Rect) × IsKey q two_boxes.rects × (coord_at q.max_val axis ≡ coord_at hi axis)))
Built-bounds_example = Built-bounds two_boxes two_boxes-Built (rw two_rects (omega arith))

remove-inside_example : covers (remove two_boxes other_half).rects (at 2 2 2) ≡ false
remove-inside_example =
    remove-inside two_boxes other_half (at 2 2 2) (Built-IsGrid two_boxes two_boxes-Built)
      other_half-IsInside

remove_rect_set-inside_example :
    covers (remove_rect_set two_boxes two_boxes).rects (at 2 2 2) ≡ false
remove_rect_set-inside_example =
    remove_rect_set-inside two_boxes two_boxes other_half (at 2 2 2)
      (Built-IsGrid two_boxes two_boxes-Built) (Built-IsGrid two_boxes two_boxes-Built)
      other_half-IsKey other_half-IsInside

new_rect_set_solid-contains_example :
    (s : RectSetSolid) × (new_rect_set_solid two_boxes ≡ some s)
    × (rect_set_min two_boxes ≡ some (solid_min s))
    × (rect_set_max two_boxes ≡ some (solid_max s))
    × ((p : Coord3D)
        → (solid_contains s p ≡ (
            if nat_beq (length two_boxes.rects) 0
            then p == coord_zero.zero_value
            else covers two_boxes.rects p))
          × (solid_contains s p ≡ true → in_bounds (solid_min s) (solid_max s) p ≡ true))
new_rect_set_solid-contains_example = new_rect_set_solid-contains two_boxes two_boxes-Built

-- the plane x = 2 goes through the first of the two boxes
add_split_lem_example :
    IsGrid (add_split two_boxes 0 2)
    × ((q : Rect)
        → (is_some (GoMap.lookup q (add_split two_boxes 0 2).rects)
            && (ltb (coord_at q.min_val 0) 2 && ltb 2 (coord_at q.max_val 0)))
          ≡ false)
    × ((p : Coord3D) → covers (add_split two_boxes 0 2).rects p ≡ covers two_boxes.rects p)
add_split_lem_example = add_split_lem two_boxes 0 2 (Built-IsGrid two_boxes two_boxes-Built)
