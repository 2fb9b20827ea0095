-- ===== src/RectSet/Planes.antt =====
-- toolbox3d/rect_set.go: the planes after addRectSplits and after adding those of another set.
use mathlib.Core.Path.{subst}
use model3d.Base.{ℕ, zero, suc, sym, inl, inr, List, [], ◌∷◌, nat_eq}
use model3d.Coords.{Float, Rect}
use model3d.RectSet.{
  RectSet, Splits, splits_at, add_split, add_rect_splits, add_splits, add_all_splits,
}
use model3d.RectSet.Values.{In, add_value-new}
use model3d.RectSet.Grid.{IsGrid, more_splits, splits-add_split}
use model3d.RectSet.GridSteps.{add_split-IsGrid}
use model3d.RectSet.Exact.{Extends, Extends-trans, more_splits-Extends, HasPlanes}

add_split-Extends :
    (r : RectSet) (axis : ℕ) (value : Float) → Extends r.splits (add_split r axis value).splits
add_split-Extends r axis value =
    subst (Extends r.splits) (sym (splits-add_split r axis value))
      (more_splits-Extends r.splits axis value)

more_splits-new :
    (s : Splits) (axis : ℕ) (value : Float) → In value (splits_at (more_splits s axis value) axis)
more_splits-new s zero value = add_value-new value s.x
more_splits-new s (suc zero) value = add_value-new value s.y
more_splits-new s (suc (suc axis)) value = add_value-new value s.z

add_split-new :
    (r : RectSet) (axis : ℕ) (value : Float)
    → In value (splits_at (add_split r axis value).splits axis)
add_split-new r axis value =
    subst (λ (s : Splits). In value (splits_at s axis)) (sym (splits-add_split r axis value))
      (more_splits-new r.splits axis value)

-- after addRectSplits the set is on its grid, which has all planes it had and those of the box
pub add_rect_splits-IsGrid :
    (r : RectSet) (rect : Rect)
    → IsGrid r
    → IsGrid (add_rect_splits r rect)
      × HasPlanes (add_rect_splits r rect).splits rect
      × Extends r.splits (add_rect_splits r rect).splits
unfolding add_rect_splits
add_rect_splits-IsGrid r rect g =
    let s1 = add_split r 0 rect.min_val.x in
    let s2 = add_split s1 0 rect.max_val.x in
    let s3 = add_split s2 1 rect.min_val.y in
    let s4 = add_split s3 1 rect.max_val.y in
    let s5 = add_split s4 2 rect.min_val.z in
    let e6 = add_split-Extends s5 2 rect.max_val.z in
    let e5 = Extends-trans _ _ _ (add_split-Extends s4 2 rect.min_val.z) e6 in
    let e4 = Extends-trans _ _ _ (add_split-Extends s3 1 rect.max_val.y) e5 in
    let e3 = Extends-trans _ _ _ (add_split-Extends s2 1 rect.min_val.y) e4 in
    let e2 = Extends-trans _ _ _ (add_split-Extends s1 0 rect.max_val.x) e3 in
    let e1 = Extends-trans _ _ _ (add_split-Extends r 0 rect.min_val.x) e2 in
    let g2 = add_split-IsGrid s1 0 rect.max_val.x (add_split-IsGrid r 0 rect.min_val.x g) in
    let g4 = add_split-IsGrid s3 1 rect.max_val.y (add_split-IsGrid s2 1 rect.min_val.y g2) in
    (
      add_split-IsGrid s5 2 rect.max_val.z (add_split-IsGrid s4 2 rect.min_val.z g4),
      record {
        min_x = e2.on_x _ (add_split-new r 0 rect.min_val.x);
        max_x = e3.on_x _ (add_split-new s1 0 rect.max_val.x);
        min_y = e4.on_y _ (add_split-new s2 1 rect.min_val.y);
        max_y = e5.on_y _ (add_split-new s3 1 rect.max_val.y);
        min_z = e6.on_z _ (add_split-new s4 2 rect.min_val.z);
        max_z = add_split-new s5 2 rect.max_val.z;
      },
      e1,
    )

Extends-refl : (s : Splits) → Extends s s
Extends-refl s = record { on_x = λ w h. h; on_y = λ w h. h; on_z = λ w h. h }

Extends-at :
    (s t : Splits) (axis : ℕ) (w : Float)
    → Extends s t
    → In w (splits_at s axis)
    → In w (splits_at t axis)
Extends-at s t zero w e h = e.on_x w h
Extends-at s t (suc zero) w e h = e.on_y w h
Extends-at s t (suc (suc axis)) w e h = e.on_z w h

add_splits-IsGrid :
    (vs : List Float) (r : RectSet) (axis : ℕ)
    → IsGrid r
    → IsGrid (add_splits r axis vs)
      × Extends r.splits (add_splits r axis vs).splits
      × ((w : Float) → In w vs → In w (splits_at (add_splits r axis vs).splits axis))
unfolding add_splits
add_splits-IsGrid [] r axis g = (g, Extends-refl r.splits, λ w h. absurd h)
add_splits-IsGrid (v ∷ vs) r axis g =
    let (g', e, new) =
      add_splits-IsGrid vs (add_split r axis v) axis (add_split-IsGrid r axis v g) in
    let last = (add_splits (add_split r axis v) axis vs).splits in
    (
      g',
      Extends-trans _ _ _ (add_split-Extends r axis v) e,
      λ w h. elim h [
        | inl same ↦
            subst (λ (u : Float). In u (splits_at last axis)) same
              (Extends-at _ last axis v e (add_split-new r axis v))
        | inr later ↦ new w later
      ],
    )

-- after the planes of another set are added, the set is on its grid, which has all of them
pub add_all_splits-IsGrid :
    (r : RectSet) (s : Splits)
    → IsGrid r
    → IsGrid (add_all_splits r s)
      × Extends s (add_all_splits r s).splits
      × Extends r.splits (add_all_splits r s).splits
unfolding add_all_splits
add_all_splits-IsGrid r s g =
    let (g1, e1, n1) = add_splits-IsGrid s.x r 0 g in
    let (g2, e2, n2) = add_splits-IsGrid s.y (add_splits r 0 s.x) 1 g1 in
    let (g3, e3, n3) = add_splits-IsGrid s.z (add_splits (add_splits r 0 s.x) 1 s.y) 2 g2 in
    (
      g3,
      record {
        on_x = λ w h. e3.on_x w (e2.on_x w (n1 w h));
        on_y = λ w h. e3.on_y w (n2 w h);
        on_z = n3;
      },
      Extends-trans _ _ _ e1 (Extends-trans _ _ _ e2 e3),
    )
