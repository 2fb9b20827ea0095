-- ===== src/RectSet/Exact.antt =====
-- toolbox3d/rect_set.go: the pieces of a box as cells of the grid, and the cells inside of a box.
use mathlib.Core.Path.{subst}
use model3d.Base.{ℕ, zero, suc, ◌≤◌, ◌<◌, inl, nat_eq}
use model3d.Coords.{Float, coord_eq, coord_zero, Rect, rect_eq}
use model3d.RectSet.{Splits, split_rect_grid}
use model3d.RectSet.Values.{In, IsSorted, add_value-old}
use model3d.RectSet.Intervals.{intervals-IsGap, gap-intervals}
use model3d.RectSet.Pieces.{box_of, grid-IsPiece, piece-In_grid}
use model3d.RectSet.Grid.{IsCell, more_splits}

-- no plane is lost
pub record Extends (s t : Splits) : Type 0 where
  pub on_x : (w : Float) → In w s.x → In w t.x
  pub on_y : (w : Float) → In w s.y → In w t.y
  pub on_z : (w : Float) → In w s.z → In w t.z

pub Extends-trans : (s t u : Splits) → Extends s t → Extends t u → Extends s u
Extends-trans s t u e f = record {
  on_x = λ w h. f.on_x w (e.on_x w h);
  on_y = λ w h. f.on_y w (e.on_y w h);
  on_z = λ w h. f.on_z w (e.on_z w h);
}

pub more_splits-Extends :
    (s : Splits) (axis : ℕ) (value : Float) → Extends s (more_splits s axis value)
more_splits-Extends s zero value = record {
  on_x = λ w h. add_value-old value w s.x h;
  on_y = λ w h. h;
  on_z = λ w h. h;
}
more_splits-Extends s (suc zero) value = record {
  on_x = λ w h. h;
  on_y = λ w h. add_value-old value w s.y h;
  on_z = λ w h. h;
}
more_splits-Extends s (suc (suc axis)) value = record {
  on_x = λ w h. h;
  on_y = λ w h. h;
  on_z = λ w h. add_value-old value w s.z h;
}

-- the planes of a box are among those of the grid
pub record HasPlanes (s : Splits) (r : Rect) : Type 0 where
  pub min_x : In r.min_val.x s.x
  pub max_x : In r.max_val.x s.x
  pub min_y : In r.min_val.y s.y
  pub max_y : In r.max_val.y s.y
  pub min_z : In r.min_val.z s.z
  pub max_z : In r.max_val.z s.z

-- a box with a positive extent on each axis
pub record IsProper (r : Rect) : Type 0 where
  pub on_x : r.min_val.x < r.max_val.x
  pub on_y : r.min_val.y < r.max_val.y
  pub on_z : r.min_val.z < r.max_val.z

pub piece-IsCell :
    (s : Splits) (r q : Rect)
    → IsSorted s.x × IsSorted s.y × IsSorted s.z
    → HasPlanes s r
    → IsProper r
    → In q (split_rect_grid s r)
    → IsCell s q
piece-IsCell s r q d p proper h =
    let piece = grid-IsPiece s r q h in
    let i = piece.on_x in
    let j = piece.on_y in
    let k = piece.on_z in
    let cell : IsCell s (box_of i j k) = record {
      on_x =
          (intervals-IsGap s.x s.x _ _ i (λ w h. h) d.0 proper.on_x p.min_x p.max_x (λ w h. inl h)
            piece.in_x).0;
      on_y =
          (intervals-IsGap s.y s.y _ _ j (λ w h. h) d.1 proper.on_y p.min_y p.max_y (λ w h. inl h)
            piece.in_y).0;
      on_z =
          (intervals-IsGap s.z s.z _ _ k (λ w h. h) d.2 proper.on_z p.min_z p.max_z (λ w h. inl h)
            piece.in_z).0;
    } in
    subst (IsCell s) piece.product cell

-- a cell inside of a box is one of the pieces of the box
pub cell-In_grid :
    (s : Splits) (r q : Rect)
    → IsSorted s.x × IsSorted s.y × IsSorted s.z
    → IsCell s q
    → (r.min_val.x ≤ q.min_val.x) × (q.max_val.x ≤ r.max_val.x)
    → (r.min_val.y ≤ q.min_val.y) × (q.max_val.y ≤ r.max_val.y)
    → (r.min_val.z ≤ q.min_val.z) × (q.max_val.z ≤ r.max_val.z)
    → In q (split_rect_grid s r)
cell-In_grid s r q d c x y z =
    piece-In_grid s r _ _ _
      (gap-intervals s.x s.x _ _ _ _ (λ w h. h) d.0 (λ w h. inl h) c.on_x x.0 x.1)
      (gap-intervals s.y s.y _ _ _ _ (λ w h. h) d.1 (λ w h. inl h) c.on_y y.0 y.1)
      (gap-intervals s.z s.z _ _ _ _ (λ w h. h) d.2 (λ w h. inl h) c.on_z z.0 z.1)
