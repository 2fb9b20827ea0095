-- ===== src/RectSet.antt =====
-- toolbox3d/rect_set.go: RectSet, a union of boxes kept as a set of boxes that are cut at the planes of
-- one grid. A map from boxes to `true` is a Go map; `sort.SearchFloat64s` finds the first entry that is
-- not below the value, and `sort.Float64s` is an insertion sort.
pub mod Cover
pub mod Cuts
pub mod Changes
pub mod Removal
pub mod Values
pub mod Intervals
pub mod Grid
pub mod GridSteps
pub mod Pieces
pub mod Exact
pub mod Planes
pub mod Kept
pub mod Inside
pub mod Ends
pub mod Tight
pub mod Solid
pub mod Halves
pub mod Extents
pub mod Splitting
pub mod SolidContains
pub mod Built
mod Tests
mod GridTests
use model3d.Base.{
  eq_beq, ℕ, zero, suc, ◌+◌, ◌-◌, ◌*◌, ◌/◌, ◌%◌, ◌^◌, ◌≤◌, ◌<◌, ◌≡◌, refl, sym, ap, ◌∙◌, ◌≢◌, ◌↔◌,
  ◌⊎◌, inl, inr, Bool, true, false, not, ◌&&◌, ◌||◌, Option, none, some, List, [], ◌∷◌, ◌++◌, map,
  arith, ltb, leb, nat_beq, if◌then◌else◌, Eq, ◌==◌, Zero, nat_beq_iff, nat_eq, Bool-cases,
  Option-cases, ==_refl, is_some, length, get_elem?, get_or, get_elem?-append_left,
  get_elem?-append_right, set, replicate, take, drop, length-append, length-set, length-replicate,
  to_nat, count, count-append, or_else, or_else-none, all_below, all_of, all_below_sound,
  all_of_sound,
}
use model3d.GoMap
use model3d.GoMap.{GoMap}
use model3d.Coords.{
  Coord3D, Float, coord_eq, coord_beq, coord_beq_iff, coord_zero, coord_at, with_coord, Rect,
  rect_eq, rect_contains,
}

-- `[3][]float64`
pub record Splits : Type 0 where
  pub x : List Float
  pub y : List Float
  pub z : List Float

pub record RectSet : Type 0 where
  pub rects : GoMap Rect Bool
  pub splits : Splits

abbrev pub splits_at : Splits → ℕ → List Float
splits_at s zero = s.x
splits_at s (suc zero) = s.y
splits_at s _ = s.z

abbrev pub with_splits : Splits → ℕ → List Float → Splits
with_splits s zero l = record s { x = l }
with_splits s (suc zero) l = record s { y = l }
with_splits s _ l = record s { z = l }

unfoldable pub new_rect_set : RectSet
new_rect_set = record { rects = []; splits = record { x = []; y = []; z = [] } }

-- the function `splitRect`: the two halves, or the box twice and `false`
unfoldable pub split_rect : Rect → ℕ → Float → Rect × Rect × Bool
split_rect r axis value =
    if leb value (coord_at r.min_val axis) || leb (coord_at r.max_val axis) value
    then (r, r, false)
    else (
      record r { max_val = with_coord r.max_val axis value },
      record r { min_val = with_coord r.min_val axis value },
      true,
    )

-- one axis: the box that is left is cut again at the later values
unfoldable pub split_rect_axis : List Float → ℕ → Rect → List Rect
split_rect_axis [] axis rect = rect ∷ []
split_rect_axis (value ∷ values) axis rect =
    let (r1, r2, cut) = split_rect rect axis value in
    let rest = split_rect_axis values axis (if cut then r2 else rect) in
    if cut then r1 ∷ rest else rest

unfoldable pub split_all_axis : List Float → ℕ → List Rect → List Rect
split_all_axis values axis [] = []
split_all_axis values axis (rect ∷ rects) =
    split_rect_axis values axis rect ++ split_all_axis values axis rects

-- the method `splitRect`
unfoldable pub split_rect_grid : Splits → Rect → List Rect
split_rect_grid s rect =
    split_all_axis s.z 2 (split_all_axis s.y 1 (split_all_axis s.x 0 (rect ∷ [])))

-- `make([]model3d.Rect, len(r.rects))` already has that many zero boxes in front of those appended
unfoldable pub rect_slice : GoMap Rect Bool → List Rect
rect_slice rects =
    replicate (length rects)
      (record { min_val = coord_zero.zero_value; max_val = coord_zero.zero_value })
    ++ map (λ entry. entry.0) rects

-- one box of the loop in addSplit
unfoldable pub cut_rect : ℕ → Float → Rect → GoMap Rect Bool → GoMap Rect Bool
cut_rect axis value rect rects =
    let (r1, r2, cut) = split_rect rect axis value in
    if cut then GoMap.insert r2 true (GoMap.insert r1 true (GoMap.delete rect rects)) else rects

unfoldable pub cut_rects : ℕ → Float → List Rect → GoMap Rect Bool → GoMap Rect Bool
cut_rects axis value [] rects = rects
cut_rects axis value (rect ∷ rest) rects =
    cut_rects axis value rest (cut_rect axis value rect rects)

unfoldable pub search_floats : List Float → Float → ℕ
search_floats [] value = 0
search_floats (v ∷ vs) value =
    let rest = search_floats vs value in if leb value v then 0 else suc rest

unfoldable pub insert_at : List Float → ℕ → Float → List Float
insert_at vs zero value = value ∷ vs
insert_at [] (suc i) value = value ∷ []
insert_at (v ∷ vs) (suc i) value = v ∷ insert_at vs i value

unfoldable pub add_split : RectSet → ℕ → Float → RectSet
add_split r axis value =
    let values = splits_at r.splits axis in
    let idx = search_floats values value in
    if nat_beq idx (length values)
    then record r { splits = with_splits r.splits axis (values ++ value ∷ []) }
    else if nat_beq (get_or values idx 0) value
    then r
    else record {
      rects = if ltb 0 idx then cut_rects axis value (rect_slice r.rects) r.rects else r.rects;
      splits = with_splits r.splits axis (insert_at values idx value);
    }

unfoldable pub add_rect_splits : RectSet → Rect → RectSet
add_rect_splits r rect =
    let both = λ (s : RectSet) (axis : ℕ).
      add_split (add_split s axis (coord_at rect.min_val axis)) axis (coord_at rect.max_val axis) in
    both (both (both r 0) 1) 2

unfoldable pub put_rects : List Rect → GoMap Rect Bool → GoMap Rect Bool
put_rects [] rects = rects
put_rects (r ∷ rs) rects = put_rects rs (GoMap.insert r true rects)

unfoldable pub add : RectSet → Rect → RectSet
add r rect =
    let s = add_rect_splits r rect in
    record s { rects = put_rects (split_rect_grid s.splits rect) s.rects }

unfoldable pub add_splits : RectSet → ℕ → List Float → RectSet
add_splits r axis [] = r
add_splits r axis (v ∷ vs) = add_splits (add_split r axis v) axis vs

-- the first loop of AddRectSet and RemoveRectSet
unfoldable pub add_all_splits : RectSet → Splits → RectSet
add_all_splits r s = add_splits (add_splits (add_splits r 0 s.x) 1 s.y) 2 s.z

unfoldable pub put_pieces : Splits → List Rect → GoMap Rect Bool → GoMap Rect Bool
put_pieces s [] rects = rects
put_pieces s (rect ∷ rest) rects = put_pieces s rest (put_rects (split_rect_grid s rect) rects)

unfoldable pub add_rect_set : RectSet → RectSet → RectSet
add_rect_set r r1 =
    let s = add_all_splits r r1.splits in
    record s { rects = put_pieces s.splits (map (λ entry. entry.0) r1.rects) s.rects }

unfoldable pub drop_rects : List Rect → GoMap Rect Bool → GoMap Rect Bool
drop_rects [] rects = rects
drop_rects (r ∷ rs) rects = drop_rects rs (GoMap.delete r rects)

-- the sorted values of a set of floats
unfoldable pub add_value : Float → List Float → List Float
add_value v [] = v ∷ []
add_value v (w ∷ ws) =
    let rest = add_value v ws in
    if nat_beq v w then w ∷ ws else if ltb v w then v ∷ w ∷ ws else w ∷ rest

unfoldable pub axis_values : ℕ → GoMap Rect Bool → List Float
axis_values axis [] = []
axis_values axis ((r, _) ∷ rects) =
    add_value (coord_at r.min_val axis)
      (add_value (coord_at r.max_val axis) (axis_values axis rects))

unfoldable pub rebuild_splits : RectSet → RectSet
rebuild_splits r = record r {
  splits = record {
    x = axis_values 0 r.rects;
    y = axis_values 1 r.rects;
    z = axis_values 2 r.rects;
  };
}

unfoldable pub remove : RectSet → Rect → RectSet
remove r rect =
    let s = add_rect_splits r rect in
    rebuild_splits (record s { rects = drop_rects (split_rect_grid s.splits rect) s.rects })

unfoldable pub drop_pieces : Splits → List Rect → GoMap Rect Bool → GoMap Rect Bool
drop_pieces s [] rects = rects
drop_pieces s (rect ∷ rest) rects = drop_pieces s rest (drop_rects (split_rect_grid s rect) rects)

unfoldable pub remove_rect_set : RectSet → RectSet → RectSet
remove_rect_set r r1 =
    let s = add_all_splits r r1.splits in
    rebuild_splits
      (record s { rects = drop_pieces s.splits (map (λ entry. entry.0) r1.rects) s.rects })
