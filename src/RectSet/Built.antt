-- ===== src/RectSet/Built.antt =====
-- toolbox3d/rect_set.go: the sets that a program can build with the operations of a RectSet.
use model3d.Base.{eq_beq, ℕ, zero, suc, ◌<◌, ◌≡◌, true, some, List, arith, nat_eq, length}
use model3d.GoMap
use model3d.GoMap.{GoMap, IsDistinct, keys}
use model3d.Coords.{Coord3D, Float, coord_eq, coord_at, Rect, rect_eq, in_bounds}
use model3d.RectSet.{RectSet, new_rect_set, add, add_rect_set, remove, remove_rect_set}
use model3d.RectSet.Grid.{IsGrid}
use model3d.RectSet.Exact.{IsProper}
use model3d.RectSet.Kept.{IsKey, add-IsGrid, add_rect_set-IsGrid}
use model3d.RectSet.Values.{IsGap}
use model3d.RectSet.Ends.{IsTight, rebuild-IsTight}
use model3d.RectSet.Cover.{covers}
use model3d.RectSet.Extents.{
  point, first_of, last_of, first_end, last_end, min-point, covers-in_bounds,
}
use model3d.RectSet.Solid.{rect_set_min, rect_set_max}
use model3d.RectSet.Tight.{add-IsTight, add_rect_set-IsTight}
use model3d.RectSet.Inside.{remove-IsGrid, remove_rect_set-IsGrid, IsInside}

-- NewRectSet and any calls of the operations, with a positive extent of each box that is added
pub data Built : RectSet → Type 0 where
  built_new : Built new_rect_set
  built_add : {r : RectSet} (rect : Rect) → Built r → IsProper rect → Built (add r rect)
  built_add_set : {r r1 : RectSet} → Built r → Built r1 → Built (add_rect_set r r1)
  built_remove : {r : RectSet} (rect : Rect) → Built r → Built (remove r rect)
  built_remove_set : {r : RectSet} (r1 : RectSet) → Built r → Built (remove_rect_set r r1)

new_rect_set-IsGrid : IsGrid new_rect_set
unfolding new_rect_set GoMap.lookup
new_rect_set-IsGrid = record {
  sorted = (tt, tt, tt);
  distinct = tt;
  cells = λ q h. absurd (ground (arith, h));
}

pub Built-IsGrid : (r : RectSet) → Built r → IsGrid r
Built-IsGrid _ built_new = new_rect_set-IsGrid
Built-IsGrid _ (built_add {r} rect b proper) = add-IsGrid r rect (Built-IsGrid r b) proper
Built-IsGrid _ (built_add_set {r} {r1} b b1) =
    add_rect_set-IsGrid r r1 (Built-IsGrid r b) (Built-IsGrid r1 b1)
Built-IsGrid _ (built_remove {r} rect b) = remove-IsGrid r rect (Built-IsGrid r b)
Built-IsGrid _ (built_remove_set {r} r1 b) = remove_rect_set-IsGrid r r1 (Built-IsGrid r b)

new_rect_set-IsTight : IsTight new_rect_set
unfolding new_rect_set
new_rect_set-IsTight zero w h = absurd h
new_rect_set-IsTight (suc zero) w h = absurd h
new_rect_set-IsTight (suc (suc axis)) w h = absurd h

pub Built-IsTight : (r : RectSet) → Built r → IsTight r
Built-IsTight _ built_new = new_rect_set-IsTight
Built-IsTight _ (built_add {r} rect b proper) = add-IsTight r rect (Built-IsTight r b)
Built-IsTight _ (built_add_set {r} {r1} b b1) =
    add_rect_set-IsTight r r1 (Built-IsTight r b) (Built-IsTight r1 b1)
Built-IsTight _ (built_remove {r} rect b) = unfold remove in rebuild-IsTight _
Built-IsTight _ (built_remove_set {r} r1 b) = unfold remove_rect_set in rebuild-IsTight _

gap_unique :
    (vs : List Float) (a b c d v : Float)
    → IsGap vs a b
    → IsGap vs c d
    → (a < v) × (v < b)
    → (c < v) × (v < d)
    → (a ≡ c) × (b ≡ d)
gap_unique vs a b c d v g h inside also =
    ground (arith, g.free c h.low, g.free d h.high, h.free a g.low, h.free b g.high)

-- Two boxes of a set built with the operations, where each box that is added has a positive extent
-- on each axis, that have a point strictly inside in common are the same box.
pub Built-disjoint :
    (r : RectSet) (q t : Rect) (p : Coord3D)
    → Built r
    → IsKey q r.rects
    → IsKey t r.rects
    → IsInside q p
    → IsInside t p
    → q ≡ t
Built-disjoint r q t p b in_q in_t on_q on_t =
    let g = Built-IsGrid r b in
    let c = g.cells q in_q in
    let d = g.cells t in_t in
    let x = gap_unique r.splits.x _ _ _ _ p.x c.on_x d.on_x on_q.0 on_t.0 in
    let y = gap_unique r.splits.y _ _ _ _ p.y c.on_y d.on_y on_q.1 on_t.1 in
    let z = gap_unique r.splits.z _ _ _ _ p.z c.on_z d.on_z on_q.2 on_t.2 in
    (rect_eq.beq_iff q t).0 (ground (arith, x, y, z))

-- In every set built with the operations, where each box that is added has a positive extent on
-- each axis, the planes of an axis are sorted without repetition, the map holds each box once,
-- each box lies between neighbouring planes on each axis, and each plane is one of some box.
pub Built_lem : (r : RectSet) → Built r → IsGrid r × IsTight r
Built_lem r b = (Built-IsGrid r b, Built-IsTight r b)

-- For a set built with the operations that holds a box, each added box having a positive extent on
-- each axis, Min and Max give bounds without a panic; each covered point lies within them, and on
-- each axis some box reaches the lower and some box the upper bound.
pub Built-bounds :
    (r : RectSet)
    → Built r
    → 0 < length r.rects
    → (lo hi : Coord3D) × (rect_set_min r ≡ some lo)
      × (rect_set_max r ≡ some hi)
      × ((p : Coord3D) → covers r.rects p ≡ true → in_bounds lo hi p ≡ true)
      × ((axis : ℕ)
          → ((q : Rect) × IsKey q r.rects × (coord_at q.min_val axis ≡ coord_at lo axis))
            × ((q : Rect) × IsKey q r.rects × (coord_at q.max_val axis ≡ coord_at hi axis)))
Built-bounds r b some_box =
    let g = Built-IsGrid r b in
    let t = Built-IsTight r b in
    let ends = min-point r g some_box in
    (
      point first_of r.splits,
      point last_of r.splits,
      ends.0,
      ends.1,
      λ p. covers-in_bounds r p g,
      reached g t,
    )
  where
    reached :
        IsGrid r
        → IsTight r
        → (axis : ℕ)
        → ((q : Rect) × IsKey q r.rects
            × (coord_at q.min_val axis ≡ coord_at (point first_of r.splits) axis))
          × ((q : Rect) × IsKey q r.rects
              × (coord_at q.max_val axis ≡ coord_at (point last_of r.splits) axis))
    reached g t zero = (first_end r 0 g t some_box, last_end r 0 g t some_box)
    reached g t (suc zero) = (first_end r 1 g t some_box, last_end r 1 g t some_box)
    reached g t (suc (suc axis)) = (first_end r 2 g t some_box, last_end r 2 g t some_box)
