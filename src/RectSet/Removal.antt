-- ===== src/RectSet/Removal.antt =====
-- toolbox3d/rect_set.go: the points and the boxes of a RectSet after Remove and RemoveRectSet.
use model3d.Base.{
  eq_beq, ◌≡◌, refl, Bool, ◌||◌, none, List, [], ◌∷◌, ◌++◌, arith, ltb, if◌then◌else◌, nat_eq,
  count, count-append,
}
use model3d.GoMap
use model3d.GoMap.{GoMap, IsDistinct, keys}
use model3d.Coords.{Coord3D, Rect, rect_eq, rect_contains}
use model3d.RectSet.{
  RectSet, Splits, split_rect_grid, drop_rects, drop_pieces, add_rect_splits, add_all_splits,
  remove, remove_rect_set, rebuild_splits,
}
use model3d.RectSet.Cover.{covers, any_contains, covers-drop_rects, split_rect_grid-contains}
use model3d.RectSet.Changes.{add_rect_splits-Covers, add_all_splits-Covers, any-entries}

drop_rects-IsDistinct :
    (rs : List Rect) (m : GoMap Rect Bool) → IsDistinct m → IsDistinct (drop_rects rs m)
unfolding drop_rects
drop_rects-IsDistinct [] m d = d
drop_rects-IsDistinct (r ∷ rs) m d =
    drop_rects-IsDistinct rs (GoMap.delete r m) (GoMap.delete-IsDistinct r m d)

pub lookup-drop_rects :
    (rs : List Rect) (m : GoMap Rect Bool) (q : Rect)
    → GoMap.lookup q (drop_rects rs m) ≡ (if ltb 0 (count q rs) then none else GoMap.lookup q m)
unfolding drop_rects
lookup-drop_rects [] m q = ground arith
lookup-drop_rects (r ∷ rs) m q =
    ground (arith, lookup-drop_rects rs (GoMap.delete r m) q, GoMap.lookup-delete q r m)

-- On a set whose map holds each box once, Remove takes away no point outside of the box and adds
-- none, keeps each box in the map once, and, after the cuts at the planes of the box, deletes from
-- the map exactly the pieces of the box on the grid of the set.
pub remove-Covers :
    (r : RectSet) (rect : Rect) (p : Coord3D) (q : Rect)
    → IsDistinct r.rects
    → let s = add_rect_splits r rect in
      ((covers (remove r rect).rects p || rect_contains rect p)
        ≡ (covers r.rects p || rect_contains rect p))
      × IsDistinct (remove r rect).rects
      × (GoMap.lookup q (remove r rect).rects ≡ (
          if ltb 0 (count q (split_rect_grid s.splits rect)) then none else GoMap.lookup q s.rects))
unfolding remove rebuild_splits
remove-Covers r rect p q d =
    let s = add_rect_splits r rect in
    let same = add_rect_splits-Covers r rect p (covers r.rects p) (refl, d) in
    let pieces = split_rect_grid s.splits rect in
    (
      ground (
        arith,
        covers-drop_rects pieces s.rects p,
        split_rect_grid-contains s.splits rect p,
        same.0,
      ),
      drop_rects-IsDistinct pieces s.rects same.1,
      lookup-drop_rects pieces s.rects q,
    )

-- the pieces of some boxes on a grid
unfoldable pub grid_pieces : Splits → List Rect → List Rect
grid_pieces s [] = []
grid_pieces s (r ∷ rs) = split_rect_grid s r ++ grid_pieces s rs

drop_pieces-IsDistinct :
    (s : Splits) (rs : List Rect) (m : GoMap Rect Bool)
    → IsDistinct m
    → IsDistinct (drop_pieces s rs m)
unfolding drop_pieces
drop_pieces-IsDistinct s [] m d = d
drop_pieces-IsDistinct s (r ∷ rs) m d =
    drop_pieces-IsDistinct s rs _ (drop_rects-IsDistinct (split_rect_grid s r) m d)

covers-drop_pieces :
    (s : Splits) (rs : List Rect) (m : GoMap Rect Bool) (p : Coord3D)
    → (covers (drop_pieces s rs m) p || any_contains rs p) ≡ (covers m p || any_contains rs p)
unfolding drop_pieces any_contains
covers-drop_pieces s [] m p = refl
covers-drop_pieces s (r ∷ rs) m p =
    let pieces = split_rect_grid s r in
    ground (
      arith,
      covers-drop_pieces s rs (drop_rects pieces m) p,
      covers-drop_rects pieces m p,
      split_rect_grid-contains s r p,
    )

pub lookup-drop_pieces :
    (s : Splits) (rs : List Rect) (m : GoMap Rect Bool) (q : Rect)
    → GoMap.lookup q (drop_pieces s rs m)
      ≡ (if ltb 0 (count q (grid_pieces s rs)) then none else GoMap.lookup q m)
unfolding drop_pieces grid_pieces
lookup-drop_pieces s [] m q = ground arith
lookup-drop_pieces s (r ∷ rs) m q =
    let pieces = split_rect_grid s r in
    ground (
      arith,
      lookup-drop_pieces s rs (drop_rects pieces m) q,
      lookup-drop_rects pieces m q,
      count-append q pieces (grid_pieces s rs),
    )

-- On a set whose map holds each box once, RemoveRectSet takes away no point outside of the other
-- set and adds none, keeps each box in the map once, and, after the cuts at the planes of the
-- other set, deletes from the map exactly the pieces of the other set on the grid of both.
pub remove_rect_set-Covers :
    (r r1 : RectSet) (p : Coord3D) (q : Rect)
    → IsDistinct r.rects
    → let s = add_all_splits r r1.splits in
      ((covers (remove_rect_set r r1).rects p || covers r1.rects p)
        ≡ (covers r.rects p || covers r1.rects p))
      × IsDistinct (remove_rect_set r r1).rects
      × (GoMap.lookup q (remove_rect_set r r1).rects ≡ (
          if ltb 0 (count q (grid_pieces s.splits (keys r1.rects)))
          then none
          else GoMap.lookup q s.rects))
unfolding remove_rect_set rebuild_splits
remove_rect_set-Covers r r1 p q d =
    let s = add_all_splits r r1.splits in
    let same = add_all_splits-Covers r r1.splits p (covers r.rects p) (refl, d) in
    let rs = keys r1.rects in
    (
      ground (arith, covers-drop_pieces s.splits rs s.rects p, any-entries r1.rects p, same.0),
      drop_pieces-IsDistinct s.splits rs s.rects same.1,
      lookup-drop_pieces s.splits rs s.rects q,
    )
