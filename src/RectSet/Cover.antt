-- ===== src/RectSet/Cover.antt =====
-- toolbox3d/rect_set.go: the points that a set of boxes covers, and how cutting, storing and deleting a
-- box change them.
use model3d.Base.{
  eq_beq, ℕ, zero, suc, ◌<◌, ◌≡◌, refl, ◌∙◌, inl, inr, Bool, true, false, ◌&&◌, ◌||◌, List, [], ◌∷◌,
  ◌++◌, arith, leb, nat_beq, ◌==◌, nat_eq, Bool-cases, is_some,
}
use Prim.Native.Nat.{min, max}
use model3d.GoMap
use model3d.GoMap.{GoMap, IsDistinct, count-keys}
use model3d.Coords.{Coord3D, Float, coord_eq, coord_zero, with_coord, Rect, rect_eq, rect_contains}
use model3d.RectSet.{
  split_rect, split_rect_axis, split_all_axis, split_rect_grid, put_rects, drop_rects, Splits,
}

-- some box of the set contains the point
unfoldable pub covers : GoMap Rect Bool → Coord3D → Bool
covers [] p = false
covers ((r, b) ∷ m) p = rect_contains r p || covers m p

-- some box of the list contains the point
unfoldable pub any_contains : List Rect → Coord3D → Bool
any_contains [] p = false
any_contains (r ∷ rs) p = rect_contains r p || any_contains rs p

unfoldable pub between : Float → Float → Float → Bool
between lo v hi = leb lo v && leb v hi

min-above : (v lo : Float) → nat_beq (min v lo) lo ≡ leb lo v
min-above v lo = ground arith

max-below : (v hi : Float) → nat_beq (max v hi) hi ≡ leb v hi
max-below v hi = ground arith

by_axes :
    (a b c d e f : Bool) → ((a && (b && c)) && (d && (e && f))) ≡ ((a && d) && (b && e) && (c && f))
by_axes a b c d e f = ground arith

pub rect_contains_axes :
    (r : Rect) (p : Coord3D)
    → rect_contains r p ≡ (
        between r.min_val.x p.x r.max_val.x
        && between r.min_val.y p.y r.max_val.y
        && between r.min_val.z p.z r.max_val.z)
unfolding rect_contains between
rect_contains_axes r p =
    simp (min-above, max-below)
      (by_axes (leb r.min_val.x p.x) (leb r.min_val.y p.y) (leb r.min_val.z p.z)
        (leb p.x r.max_val.x) (leb p.y r.max_val.y) (leb p.z r.max_val.z))

-- a value inside of an interval cuts it in two that share the value
between-split :
    (lo v mid hi : Float)
    → lo < mid
    → mid < hi
    → between lo v hi ≡ (between lo v mid || between mid v hi)
unfolding between
between-split lo v mid hi below above = ground arith

-- whether a plane cuts a box
abbrev pub is_cut : Rect → ℕ → Float → Bool
is_cut r axis value = (split_rect r axis value).2

-- The two halves of a box that is cut contain together the points of the box.
pub split_rect-contains :
    (r : Rect) (axis : ℕ) (value : Float) (p : Coord3D)
    → is_cut r axis value ≡ true
    → rect_contains r p
      ≡ (rect_contains (split_rect r axis value).0 p || rect_contains (split_rect r axis value).1 p)
unfolding split_rect
split_rect-contains r zero value p cut = ground (
  arith,
  rect_contains_axes r p,
  rect_contains_axes (record r { max_val = with_coord r.max_val 0 value }) p,
  rect_contains_axes (record r { min_val = with_coord r.min_val 0 value }) p,
  between-split r.min_val.x p.x value r.max_val.x,
)
split_rect-contains r (suc zero) value p cut = ground (
  arith,
  rect_contains_axes r p,
  rect_contains_axes (record r { max_val = with_coord r.max_val 1 value }) p,
  rect_contains_axes (record r { min_val = with_coord r.min_val 1 value }) p,
  between-split r.min_val.y p.y value r.max_val.y,
)
split_rect-contains r (suc (suc axis)) value p cut = ground (
  arith,
  rect_contains_axes r p,
  rect_contains_axes (record r { max_val = with_coord r.max_val 2 value }) p,
  rect_contains_axes (record r { min_val = with_coord r.min_val 2 value }) p,
  between-split r.min_val.z p.z value r.max_val.z,
)

any_contains-append :
    (rs ss : List Rect) (p : Coord3D)
    → any_contains (rs ++ ss) p ≡ (any_contains rs p || any_contains ss p)
unfolding any_contains
any_contains-append [] ss p = refl
any_contains-append (r ∷ rs) ss p = ground (arith, any_contains-append rs ss p)

split_rect_axis-contains :
    (values : List Float) (axis : ℕ) (r : Rect) (p : Coord3D)
    → any_contains (split_rect_axis values axis r) p ≡ rect_contains r p
unfolding split_rect_axis any_contains
split_rect_axis-contains [] axis r p = ground arith
split_rect_axis-contains (v ∷ values) axis r p = elim (Bool-cases (is_cut r axis v)) [
  | inl cut ↦ ground (
    arith,
    split_rect_axis-contains values axis (split_rect r axis v).1 p,
    split_rect-contains r axis v p cut,
  )
  | inr whole ↦ ground (arith, split_rect_axis-contains values axis r p)
]

split_all-contains :
    (values : List Float) (axis : ℕ) (rs : List Rect) (p : Coord3D)
    → any_contains (split_all_axis values axis rs) p ≡ any_contains rs p
unfolding split_all_axis any_contains
split_all-contains values axis [] p = refl
split_all-contains values axis (r ∷ rs) p = ground (
  arith,
  any_contains-append (split_rect_axis values axis r) (split_all_axis values axis rs) p,
  split_rect_axis-contains values axis r p,
  split_all-contains values axis rs p,
)

-- The pieces that the planes cut a box into contain together the points of the box.
pub split_rect_grid-contains :
    (s : Splits) (r : Rect) (p : Coord3D) → any_contains (split_rect_grid s r) p ≡ rect_contains r p
unfolding split_rect_grid
split_rect_grid-contains s r p =
    let xs = split_all_axis s.x 0 (r ∷ []) in
    split_all-contains s.z 2 (split_all_axis s.y 1 xs) p
    ∙ split_all-contains s.y 1 xs p
    ∙ split_all-contains s.x 0 (r ∷ []) p
    ∙ one
  where
    one : any_contains (r ∷ []) p ≡ rect_contains r p
    one = unfold any_contains in ground arith

pub covers-insert :
    (r : Rect) (m : GoMap Rect Bool) (p : Coord3D)
    → covers (GoMap.insert r true m) p ≡ (rect_contains r p || covers m p)
unfolding covers GoMap.insert
covers-insert r [] p = refl
covers-insert r ((s, b) ∷ m) p = elim (Bool-cases (s == r)) [
  | inl same ↦ rw (same, (rect_eq.beq_iff s r).0 same) (ground arith)
  | inr other ↦ rw other (ground (arith, covers-insert r m p))
]

pub covers-delete :
    (r : Rect) (m : GoMap Rect Bool) (p : Coord3D)
    → (covers (GoMap.delete r m) p || rect_contains r p) ≡ (covers m p || rect_contains r p)
unfolding covers GoMap.delete
covers-delete r [] p = refl
covers-delete r ((s, b) ∷ m) p = elim (Bool-cases (s == r)) [
  | inl same ↦ rw (same, (rect_eq.beq_iff s r).0 same) (ground (arith, covers-delete r m p))
  | inr other ↦ rw other (ground (arith, covers-delete r m p))
]

-- a box of the set covers its points
pub covers-lookup :
    (r : Rect) (m : GoMap Rect Bool) (p : Coord3D)
    → is_some (GoMap.lookup r m) ≡ true
    → (covers m p || rect_contains r p) ≡ covers m p
unfolding covers GoMap.lookup
covers-lookup r [] p h = cc
covers-lookup r ((s, b) ∷ m) p h = elim (Bool-cases (s == r)) [
  | inl same ↦ rw ((rect_eq.beq_iff s r).0 same) (ground arith)
  | inr other ↦ ground (arith, covers-lookup r m p (rw other at h))
]

pub covers-put_rects :
    (rs : List Rect) (m : GoMap Rect Bool) (p : Coord3D)
    → covers (put_rects rs m) p ≡ (any_contains rs p || covers m p)
unfolding put_rects any_contains
covers-put_rects [] m p = refl
covers-put_rects (r ∷ rs) m p =
    ground (arith, covers-put_rects rs (GoMap.insert r true m) p, covers-insert r m p)

-- Deleting boxes takes away no point that none of them contains, and adds none.
pub covers-drop_rects :
    (rs : List Rect) (m : GoMap Rect Bool) (p : Coord3D)
    → (covers (drop_rects rs m) p || any_contains rs p) ≡ (covers m p || any_contains rs p)
unfolding drop_rects any_contains
covers-drop_rects [] m p = refl
covers-drop_rects (r ∷ rs) m p =
    ground (arith, covers-drop_rects rs (GoMap.delete r m) p, covers-delete r m p)
