-- ===== src/RectSet/Changes.antt =====
-- toolbox3d/rect_set.go: the points of a RectSet before and after its operations.
use model3d.Base.{eq_beq, ℕ, ◌≡◌, refl, ◌∙◌, Bool, true, ◌||◌, List, [], ◌∷◌, arith, nat_eq}
use model3d.GoMap
use model3d.GoMap.{GoMap, IsDistinct, keys, count-keys}
use model3d.Coords.{Coord3D, Float, coord_eq, coord_zero, coord_at, Rect, rect_eq, rect_contains}
use model3d.RectSet.{
  RectSet, Splits, split_rect_grid, put_rects, add_split, add_rect_splits, add_splits,
  add_all_splits, add, add_rect_set, put_pieces,
}
use model3d.RectSet.Cover.{covers, any_contains, covers-put_rects, split_rect_grid-contains}
use model3d.RectSet.Cuts.{covers-add_split}

-- a set of boxes whose map holds a box once, and what it covers at a point
abbrev pub Covers : RectSet → Coord3D → Bool → Type 0
Covers r p b = (covers r.rects p ≡ b) × IsDistinct r.rects

add_split-Covers :
    (r : RectSet) (axis : ℕ) (value : Float) (p : Coord3D) (b : Bool)
    → Covers r p b
    → Covers (add_split r axis value) p b
add_split-Covers r axis value p b d =
    let step = covers-add_split r axis value p d.1 in (step.0 ∙ d.0, step.1)

pub add_rect_splits-Covers :
    (r : RectSet) (rect : Rect) (p : Coord3D) (b : Bool)
    → Covers r p b
    → Covers (add_rect_splits r rect) p b
unfolding add_rect_splits
add_rect_splits-Covers r rect p b d =
    let both : (s : RectSet) (axis : ℕ)
        → Covers s p b
        → Covers
            (add_split (add_split s axis (coord_at rect.min_val axis)) axis
              (coord_at rect.max_val axis))
            p b =
      λ s axis c. add_split-Covers _ axis _ p b (add_split-Covers s axis _ p b c) in
    both _ 2 (both _ 1 (both r 0 d))

add_splits-Covers :
    (vs : List Float) (r : RectSet) (axis : ℕ) (p : Coord3D) (b : Bool)
    → Covers r p b
    → Covers (add_splits r axis vs) p b
unfolding add_splits
add_splits-Covers [] r axis p b d = d
add_splits-Covers (v ∷ vs) r axis p b d =
    add_splits-Covers vs (add_split r axis v) axis p b (add_split-Covers r axis v p b d)

pub add_all_splits-Covers :
    (r : RectSet) (s : Splits) (p : Coord3D) (b : Bool)
    → Covers r p b
    → Covers (add_all_splits r s) p b
unfolding add_all_splits
add_all_splits-Covers r s p b d =
    add_splits-Covers s.z _ 2 p b (add_splits-Covers s.y _ 1 p b (add_splits-Covers s.x r 0 p b d))

put_rects-IsDistinct :
    (rs : List Rect) (m : GoMap Rect Bool) → IsDistinct m → IsDistinct (put_rects rs m)
unfolding put_rects
put_rects-IsDistinct [] m d = d
put_rects-IsDistinct (r ∷ rs) m d =
    put_rects-IsDistinct rs (GoMap.insert r true m) (GoMap.insert-IsDistinct r true m d)

-- Add makes a set whose map holds each box once cover exactly the points that it covered and those
-- of the box, and keeps each box in the map once.
pub add-Covers :
    (r : RectSet) (rect : Rect) (p : Coord3D)
    → IsDistinct r.rects
    → Covers (add r rect) p (rect_contains rect p || covers r.rects p)
unfolding add
add-Covers r rect p d =
    let s = add_rect_splits r rect in
    let same = add_rect_splits-Covers r rect p (covers r.rects p) (refl, d) in
    let pieces = split_rect_grid s.splits rect in
    (
      ground (
        arith,
        covers-put_rects pieces s.rects p,
        split_rect_grid-contains s.splits rect p,
        same.0,
      ),
      put_rects-IsDistinct pieces s.rects same.1,
    )

pub any-entries : (m : GoMap Rect Bool) (p : Coord3D) → any_contains (keys m) p ≡ covers m p
unfolding any_contains covers
any-entries [] p = refl
any-entries ((r, b) ∷ m) p = ground (arith, any-entries m p)

put_pieces-Covers :
    (s : Splits) (rs : List Rect) (m : GoMap Rect Bool) (p : Coord3D)
    → IsDistinct m
    → (covers (put_pieces s rs m) p ≡ (any_contains rs p || covers m p))
      × IsDistinct (put_pieces s rs m)
unfolding put_pieces any_contains
put_pieces-Covers s [] m p d = (refl, d)
put_pieces-Covers s (r ∷ rs) m p d =
    let pieces = split_rect_grid s r in
    let rest = put_pieces-Covers s rs (put_rects pieces m) p (put_rects-IsDistinct pieces m d) in
    (ground (arith, rest.0, covers-put_rects pieces m p, split_rect_grid-contains s r p), rest.1)

-- AddRectSet makes a set whose map holds each box once cover exactly the points that either set
-- covers, and keeps each box in the map once.
pub add_rect_set-Covers :
    (r r1 : RectSet) (p : Coord3D)
    → IsDistinct r.rects
    → Covers (add_rect_set r r1) p (covers r1.rects p || covers r.rects p)
unfolding add_rect_set
add_rect_set-Covers r r1 p d =
    let s = add_all_splits r r1.splits in
    let same = add_all_splits-Covers r r1.splits p (covers r.rects p) (refl, d) in
    let put = put_pieces-Covers s.splits (keys r1.rects) s.rects p same.1 in
    (ground (arith, put.0, any-entries r1.rects p, same.0), put.1)
