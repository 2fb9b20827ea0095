-- ===== src/RectSet/Solid.antt =====
-- toolbox3d/rect_set.go: Min and Max of a RectSet, and rectSetSolid, the tree of boxes made by halving a
-- set at a plane. `none` is a run that panics.
use model3d.Base.{
  eq_beq, ℕ, zero, suc, ◌-◌, ◌/◌, Bool, true, false, not, ◌||◌, Option, none, some, List, [], ◌∷◌,
  ltb, leb, nat_beq, if◌then◌else◌, nat_eq, length, get_elem?, ◌>>=◌,
}
use model3d.GoMap
use model3d.GoMap.{GoMap}
use model3d.Coords.{
  Coord3D, Float, coord_eq, coord_at, coord_zero, Rect, rect_eq, rect_contains, in_bounds,
}
use model3d.RectSet.{RectSet, Splits, splits_at, rebuild_splits, new_rect_set}

-- the function on three axes
unfoldable pub point_of : (List Float → Option Float) → Splits → Option Coord3D
point_of f s = do x ← f s.x; y ← f s.y; z ← f s.z; some (record { x = x; y = y; z = z })

-- `Min`
unfoldable pub rect_set_min : RectSet → Option Coord3D
rect_set_min r =
    if nat_beq (length r.rects) 0
    then some coord_zero.zero_value
    else point_of (λ splits. get_elem? splits 0) r.splits

-- `splits[len(splits)-1]`
unfoldable pub last_split : List Float → Option Float
last_split splits = if nat_beq (length splits) 0 then none else get_elem? splits (length splits - 1)

-- `Max`
unfoldable pub rect_set_max : RectSet → Option Coord3D
rect_set_max r =
    if nat_beq (length r.rects) 0 then some coord_zero.zero_value else point_of last_split r.splits

-- one step of the loop over the axes in splitRectSet
unfoldable pub longer_axis : Splits → ℕ → ℕ × ℕ → ℕ × ℕ
longer_axis s i (axis, len) =
    let here = length (splits_at s i) in if leb len here then (i, here) else (axis, len)

-- the axis with the most planes, and their number
unfoldable pub split_axis : Splits → ℕ × ℕ
split_axis s = longer_axis s 2 (longer_axis s 1 (longer_axis s 0 (0, 0)))

-- the loop over the boxes in splitRectSet, with the two maps that it fills
unfoldable pub halves :
    ℕ
    → Float
    → GoMap Rect Bool
    → GoMap Rect Bool × GoMap Rect Bool
    → GoMap Rect Bool × GoMap Rect Bool
halves axis cutoff [] (rs1, rs2) = (rs1, rs2)
halves axis cutoff ((rect, b) ∷ rects) (rs1, rs2) = halves axis cutoff rects (
    if ltb (coord_at rect.min_val axis) cutoff
    then (GoMap.insert rect true rs1, rs2)
    else (rs1, GoMap.insert rect true rs2))

unfoldable pub split_rect_set : RectSet → Option (RectSet × RectSet × ℕ × Float)
split_rect_set rs =
    let (axis, len) = split_axis rs.splits in
    if ltb (length rs.rects) 2 then none else do
      cutoff ← get_elem? (splits_at rs.splits axis) (len / 2)
      let (rs1, rs2) = halves axis cutoff rs.rects ([], [])
      some (
        rebuild_splits (record new_rect_set { rects = rs1 }),
        rebuild_splits (record new_rect_set { rects = rs2 }),
        axis,
        cutoff,
      )

-- a node with a `singleRect`, or one with the other fields
pub data RectSetSolid : Type 0 where
  single_rect : Rect → RectSetSolid
  divided :
      (axis : ℕ) (cutoff : Float) (below above : RectSetSolid) (min max : Coord3D) → RectSetSolid

-- the end of newRectSetSolid, with its calls of itself
unfoldable pub divide_solid : (RectSet → Option RectSetSolid) → RectSet → Option RectSetSolid
divide_solid build rs = do
  (rs1, rs2, axis, cutoff) ← split_rect_set rs
  below ← build rs1
  above ← build rs2
  lo ← rect_set_min rs
  hi ← rect_set_max rs
  some (divided axis cutoff below above lo hi)

-- the box that the loop over the boxes ends with
unfoldable pub last_rect : Rect → GoMap Rect Bool → Rect
last_rect rect [] = rect
last_rect rect ((r, b) ∷ rects) = last_rect r rects

abbrev pub empty_rect : Rect
empty_rect = record { min_val = coord_zero.zero_value; max_val = coord_zero.zero_value }

-- newRectSetSolid, to a depth
unfoldable pub solid_to_depth : ℕ → RectSet → Option RectSetSolid
solid_to_depth zero rs = none
solid_to_depth (suc depth) rs =
    if nat_beq (length rs.rects) 0
    then some (single_rect empty_rect)
    else if nat_beq (length rs.rects) 1
    then some (single_rect (last_rect empty_rect rs.rects))
    else divide_solid (λ t. solid_to_depth depth t) rs

-- each half has a box less, so the number of boxes is deep enough
unfoldable pub new_rect_set_solid : RectSet → Option RectSetSolid
new_rect_set_solid rs = solid_to_depth (suc (length rs.rects)) rs

unfoldable pub solid_min : RectSetSolid → Coord3D
solid_min (single_rect r) = r.min_val
solid_min (divided axis cutoff below above min max) = min

unfoldable pub solid_max : RectSetSolid → Coord3D
solid_max (single_rect r) = r.max_val
solid_max (divided axis cutoff below above min max) = max

unfoldable pub solid_contains : RectSetSolid → Coord3D → Bool
solid_contains (single_rect r) c = rect_contains r c
solid_contains (divided axis cutoff below above min max) c =
    let in_below = solid_contains below c in
    let in_above = solid_contains above c in
    let v = coord_at c axis in
    if not (in_bounds min max c)
    then false
    else if ltb v cutoff
    then in_below
    else if ltb cutoff v
    then in_above
    else in_below || in_above
