-- ===== src/RectSet/Inside.antt =====
-- toolbox3d/rect_set.go: Remove and RemoveRectSet on a set whose boxes are cells of its grid.
use mathlib.Core.Path.{subst}
use model3d.Base.{
  eq_beq, ◌≤◌, ◌<◌, ◌≡◌, sym, inl, inr, Bool, true, false, List, [], ◌∷◌, arith, ◌==◌, nat_eq,
  Bool-cases, ==_refl, count, count-append,
}
use model3d.GoMap
use model3d.GoMap.{GoMap, IsDistinct, keys}
use model3d.Coords.{Coord3D, Float, coord_eq, coord_zero, Rect, rect_eq, rect_contains}
use model3d.RectSet.{
  RectSet, Splits, add_rect_splits, add_all_splits, split_rect_grid, drop_rects, drop_pieces,
  rebuild_splits, remove, remove_rect_set,
}
use model3d.RectSet.Cover.{covers, between, rect_contains_axes}
use model3d.RectSet.Removal.{
  remove-Covers, remove_rect_set-Covers, lookup-drop_rects, lookup-drop_pieces, grid_pieces,
}
use model3d.RectSet.Values.{In, IsGap}
use model3d.RectSet.Grid.{IsCell, IsGrid}
use model3d.RectSet.Exact.{HasPlanes, cell-In_grid}
use model3d.RectSet.Planes.{add_rect_splits-IsGrid, add_all_splits-IsGrid}
use model3d.RectSet.Kept.{IsKey, head-IsKey, tail-IsKey, cell-HasPlanes, rebuild-IsGrid}

-- strictly between the planes of a box
abbrev pub IsInside : Rect → Coord3D → Type 0
IsInside r p =
    ((r.min_val.x < p.x) × (p.x < r.max_val.x))
    × ((r.min_val.y < p.y) × (p.y < r.max_val.y))
    × ((r.min_val.z < p.z) × (p.z < r.max_val.z))

-- between the planes of a box or on them
abbrev pub IsOn : Rect → Coord3D → Type 0
IsOn r p =
    ((r.min_val.x ≤ p.x) × (p.x ≤ r.max_val.x))
    × ((r.min_val.y ≤ p.y) × (p.y ≤ r.max_val.y))
    × ((r.min_val.z ≤ p.z) × (p.z ≤ r.max_val.z))

-- one box lies within another
abbrev pub IsWithin : Rect → Rect → Type 0
IsWithin q r =
    ((r.min_val.x ≤ q.min_val.x) × (q.max_val.x ≤ r.max_val.x))
    × ((r.min_val.y ≤ q.min_val.y) × (q.max_val.y ≤ r.max_val.y))
    × ((r.min_val.z ≤ q.min_val.z) × (q.max_val.z ≤ r.max_val.z))

pub contains-IsOn : (r : Rect) (p : Coord3D) → rect_contains r p ≡ true → IsOn r p
unfolding between
contains-IsOn r p h = ground (arith, rect_contains_axes r p)

pub covers-key :
    (m : GoMap Rect Bool) (p : Coord3D)
    → covers m p ≡ true
    → (q : Rect) × IsKey q m × (rect_contains q p ≡ true)
unfolding covers
covers-key [] p h = absurd (ground arith)
covers-key ((r, b) ∷ m) p h = elim (Bool-cases (rect_contains r p)) [
  | inl here ↦ (r, head-IsKey r b m, here)
  | inr other ↦
      let (q, key, inside) = covers-key m p (rw other at h) in (q, tail-IsKey q r b m key, inside)
]

-- a cell that reaches inside of two planes lies between them
gap-within :
    (vs : List Float) (lo hi a b v : Float)
    → IsGap vs a b
    → In lo vs
    → In hi vs
    → (lo < v) × (v < hi)
    → (a ≤ v) × (v ≤ b)
    → (lo ≤ a) × (b ≤ hi)
gap-within vs lo hi a b v g low high inside on = ground (arith, g.free lo low, g.free hi high)

cell-IsWithin :
    (s : Splits) (r q : Rect) (p : Coord3D)
    → IsCell s q
    → HasPlanes s r
    → IsInside r p
    → IsOn q p
    → IsWithin q r
cell-IsWithin s r q p c h inside on = (
  gap-within s.x _ _ _ _ p.x c.on_x h.min_x h.max_x inside.0 on.0,
  gap-within s.y _ _ _ _ p.y c.on_y h.min_y h.max_y inside.1 on.1,
  gap-within s.z _ _ _ _ p.z c.on_z h.min_z h.max_z inside.2 on.2,
)

pub In-count : (q : Rect) (rs : List Rect) → In q rs → 0 < count q rs
In-count q [] h = absurd h
In-count q (r ∷ rs) (inl e) =
    subst (λ (t : Rect). 0 < count q (t ∷ rs)) (sym e) (rw (==_refl q) (omega arith))
In-count q (r ∷ rs) (inr h) = ground (arith, In-count q rs h)

-- Remove keeps the boxes of a set on its grid
pub remove-IsGrid : (r : RectSet) (rect : Rect) → IsGrid r → IsGrid (remove r rect)
unfolding remove
remove-IsGrid r rect g =
    let s = add_rect_splits r rect in
    let (grid, planes, more) = add_rect_splits-IsGrid r rect g in
    let pieces = split_rect_grid s.splits rect in
    rebuild-IsGrid s.splits (drop_rects pieces s.rects)
      (unfold rebuild_splits in (remove-Covers r rect coord_zero.zero_value rect g.distinct).1)
      (λ q here. grid.cells q (ground (arith, lookup-drop_rects pieces s.rects q)))

-- After Remove of a box from a set whose boxes are cells of its grid, no point strictly inside of
-- the box is covered.
pub remove-inside :
    (r : RectSet) (rect : Rect) (p : Coord3D)
    → IsGrid r
    → IsInside rect p
    → covers (remove r rect).rects p ≡ false
unfolding remove rebuild_splits
remove-inside r rect p g inside =
    let s = add_rect_splits r rect in
    let (grid, planes, more) = add_rect_splits-IsGrid r rect g in
    let pieces = split_rect_grid s.splits rect in
    elim (Bool-cases (covers (drop_rects pieces s.rects) p)) [
      | inr none_left ↦ none_left
      | inl covered ↦
          let (q, key, on) = covers-key (drop_rects pieces s.rects) p covered in
          let found = lookup-drop_rects pieces s.rects q in
          let c = grid.cells q (ground arith) in
          let (x, y, z) = cell-IsWithin s.splits rect q p c planes inside (contains-IsOn q p on) in
          let piece = In-count q pieces (cell-In_grid s.splits rect q grid.sorted c x y z) in
          absurd (ground (arith, found, key, piece))
    ]

pub keys-In : (m : GoMap Rect Bool) (r : Rect) → IsKey r m → In r (keys m)
unfolding GoMap.lookup
keys-In [] r h = absurd (ground (arith, h))
keys-In ((t, b) ∷ m) r h = elim (Bool-cases (t == r)) [
  | inl same ↦ inl ((rect_eq.beq_iff t r).0 same)
  | inr other ↦ inr (keys-In m r (rw other at h))
]

count-grid_pieces :
    (s : Splits) (rs : List Rect) (r q : Rect)
    → In r rs
    → In q (split_rect_grid s r)
    → 0 < count q (grid_pieces s rs)
unfolding grid_pieces
count-grid_pieces s [] r q h piece = absurd h
count-grid_pieces s (t ∷ rs) r q (inl e) piece =
    let here =
      In-count q (split_rect_grid s t)
        (subst (λ (u : Rect). In q (split_rect_grid s u)) (sym e) piece) in
    omega (arith, count-append q (split_rect_grid s t) (grid_pieces s rs), here)
count-grid_pieces s (t ∷ rs) r q (inr h) piece = omega (
  arith,
  count-append q (split_rect_grid s t) (grid_pieces s rs),
  count-grid_pieces s rs r q h piece,
)

-- RemoveRectSet keeps the boxes of a set on its grid
pub remove_rect_set-IsGrid : (r r1 : RectSet) → IsGrid r → IsGrid (remove_rect_set r r1)
unfolding remove_rect_set
remove_rect_set-IsGrid r r1 g =
    let s = add_all_splits r r1.splits in
    let (grid, planes, more) = add_all_splits-IsGrid r r1.splits g in
    rebuild-IsGrid s.splits (drop_pieces s.splits (keys r1.rects) s.rects)
      (unfold rebuild_splits in
        (remove_rect_set-Covers r r1 coord_zero.zero_value coord_box g.distinct).1)
      (λ q here.
        grid.cells q (ground (arith, lookup-drop_pieces s.splits (keys r1.rects) s.rects q)))
  where
    coord_box : Rect
    coord_box = record { min_val = coord_zero.zero_value; max_val = coord_zero.zero_value }

-- After RemoveRectSet of a set from another, the boxes of both being cells of their grids, no
-- point strictly inside of a box of the removed set is covered.
pub remove_rect_set-inside :
    (r r1 : RectSet) (rect : Rect) (p : Coord3D)
    → IsGrid r
    → IsGrid r1
    → IsKey rect r1.rects
    → IsInside rect p
    → covers (remove_rect_set r r1).rects p ≡ false
unfolding remove_rect_set rebuild_splits
remove_rect_set-inside r r1 rect p g g1 box inside =
    let s = add_all_splits r r1.splits in
    let (grid, planes, more) = add_all_splits-IsGrid r r1.splits g in
    let m = drop_pieces s.splits (keys r1.rects) s.rects in
    elim (Bool-cases (covers m p)) [
      | inr none_left ↦ none_left
      | inl covered ↦
          let (q, key, on) = covers-key m p covered in
          let found = lookup-drop_pieces s.splits (keys r1.rects) s.rects q in
          let c = grid.cells q (ground arith) in
          let (ends, proper) = cell-HasPlanes r1.splits s.splits rect planes (g1.cells rect box) in
          let (x, y, z) = cell-IsWithin s.splits rect q p c ends inside (contains-IsOn q p on) in
          let piece =
            count-grid_pieces s.splits (keys r1.rects) rect q (keys-In r1.rects rect box)
              (cell-In_grid s.splits rect q grid.sorted c x y z) in
          absurd (ground (arith, found, key, piece))
    ]
