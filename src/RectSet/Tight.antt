-- ===== src/RectSet/Tight.antt =====
-- toolbox3d/rect_set.go: the planes after Add and AddRectSet as ends of boxes.
use mathlib.Core.Path.{subst}
use model3d.Base.{
  eq_beq, ℕ, zero, suc, ◌≡◌, refl, sym, ◌∙◌, ◌⊎◌, inl, inr, Bool, true, ◌||◌, List, [], ◌∷◌, arith,
  leb, nat_eq, Bool-cases,
}
use model3d.GoMap
use model3d.GoMap.{GoMap, IsDistinct, keys}
use model3d.Coords.{Float, coord_eq, coord_at, Rect, rect_eq}
use model3d.RectSet.{
  RectSet, Splits, splits_at, add_split, add_value, split_rect_grid, put_rects, put_pieces,
  add_rect_splits, add_splits, add_all_splits, add, add_rect_set,
}
use model3d.RectSet.Values.{In, In-add_value}
use model3d.RectSet.Intervals.{Interval, intervals}
use model3d.RectSet.Pieces.{box_of, piece-In_grid}
use model3d.RectSet.Grid.{more_splits, splits-add_split}
use model3d.RectSet.Kept.{head-IsKey}
use model3d.RectSet.Inside.{keys-In}
use model3d.RectSet.Ends.{IsEnd, HasEnd, IsTight, add_split-HasEnd, put_rects-HasEnd, put_rects-new}

module _ (m m1 : GoMap Rect Bool) where
  -- every plane is one of a box of the first map or of the second
  abbrev pub Planned : Splits → Type 0
  Planned s = (axis : ℕ) (w : Float) → In w (splits_at s axis) → HasEnd axis w m ⊎ HasEnd axis w m1

  one_more :
      (axis : ℕ) (value w : Float) (vs : List Float)
      → ((v : Float) → In v vs → HasEnd axis v m ⊎ HasEnd axis v m1)
      → HasEnd axis value m1
      → In w (add_value value vs)
      → HasEnd axis w m ⊎ HasEnd axis w m1
  one_more axis value w vs old new h = elim (In-add_value value w vs h) [
    | inl e ↦ inr (subst (λ (u : Float). HasEnd axis u m1) e new)
    | inr before ↦ old w before
  ]

  more_splits-Planned :
      (s : Splits) (axis : ℕ) (value : Float)
      → Planned s
      → HasEnd axis value m1
      → Planned (more_splits s axis value)
  more_splits-Planned s zero value p new zero w h = one_more 0 value w s.x (p 0) new h
  more_splits-Planned s zero value p new (suc zero) w h = p 1 w h
  more_splits-Planned s zero value p new (suc (suc b)) w h = p 2 w h
  more_splits-Planned s (suc zero) value p new zero w h = p 0 w h
  more_splits-Planned s (suc zero) value p new (suc zero) w h = one_more 1 value w s.y (p 1) new h
  more_splits-Planned s (suc zero) value p new (suc (suc b)) w h = p 2 w h
  more_splits-Planned s (suc (suc a)) value p new zero w h = p 0 w h
  more_splits-Planned s (suc (suc a)) value p new (suc zero) w h = p 1 w h
  more_splits-Planned s (suc (suc a)) value p new (suc (suc b)) w h =
      one_more 2 value w s.z (p 2) new h

  add_split-Planned :
      (r : RectSet) (axis : ℕ) (value : Float)
      → Planned r.splits
      → HasEnd axis value m1
      → Planned (add_split r axis value).splits
  add_split-Planned r axis value p new =
      subst Planned (sym (splits-add_split r axis value))
        (more_splits-Planned r.splits axis value p new)

  add_splits-Planned :
      (vs : List Float) (r : RectSet) (axis : ℕ)
      → Planned r.splits
      → ((v : Float) → In v vs → HasEnd axis v m1)
      → Planned (add_splits r axis vs).splits
  unfolding add_splits
  add_splits-Planned [] r axis p new = p
  add_splits-Planned (v ∷ vs) r axis p new =
      add_splits-Planned vs (add_split r axis v) axis
        (add_split-Planned r axis v p (new v (inl refl))) (λ w h. new w (inr h))

  add_all_splits-Planned :
      (r r1 : RectSet)
      → Planned r.splits
      → ((axis : ℕ) (w : Float) → In w (splits_at r1.splits axis) → HasEnd axis w m1)
      → Planned (add_all_splits r r1.splits).splits
  unfolding add_all_splits
  add_all_splits-Planned r r1 p new =
      add_splits-Planned r1.splits.z _ 2
        (add_splits-Planned r1.splits.y _ 1 (add_splits-Planned r1.splits.x r 0 p (new 0)) (new 1))
        (new 2)

add_splits-HasEnd :
    (vs : List Float) (r : RectSet) (axis other : ℕ) (w : Float)
    → HasEnd other w r.rects
    → HasEnd other w (add_splits r axis vs).rects
unfolding add_splits
add_splits-HasEnd [] r axis other w h = h
add_splits-HasEnd (v ∷ vs) r axis other w h =
    add_splits-HasEnd vs (add_split r axis v) axis other w (add_split-HasEnd axis other w v r h)

-- a list of intervals starts and ends where the interval that is cut does
first_interval :
    (vs : List Float) (lo hi : Float) → (i : Interval) × In i (intervals vs lo hi) × (i.0 ≡ lo)
unfolding intervals
first_interval [] lo hi = ((lo, hi), inl refl, refl)
first_interval (v ∷ vs) lo hi = elim (Bool-cases (leb v lo || leb hi v)) [
  | inl out ↦ rw out (first_interval vs lo hi)
  | inr inside ↦ rw inside ((lo, v), inl refl, refl)
]

last_interval :
    (vs : List Float) (lo hi : Float) → (i : Interval) × In i (intervals vs lo hi) × (i.1 ≡ hi)
unfolding intervals
last_interval [] lo hi = ((lo, hi), inl refl, refl)
last_interval (v ∷ vs) lo hi = elim (Bool-cases (leb v lo || leb hi v)) [
  | inl out ↦ rw out (last_interval vs lo hi)
  | inr inside ↦ let (i, h, e) = last_interval vs v hi in rw inside (i, inr h, e)
]

-- an end of a box is one of a piece of it
grid-IsEnd :
    (s : Splits) (r : Rect) (axis : ℕ) (w : Float)
    → IsEnd axis w r
    → (q : Rect) × In q (split_rect_grid s r) × IsEnd axis w q
grid-IsEnd s r zero w end =
    let (j, in_j, ej) = first_interval s.y r.min_val.y r.max_val.y in
    let (k, in_k, ek) = first_interval s.z r.min_val.z r.max_val.z in
    elim end [
      | inl e ↦
          let (i, in_i, ei) = first_interval s.x r.min_val.x r.max_val.x in
          (box_of i j k, piece-In_grid s r i j k in_i in_j in_k, inl (ei ∙ e))
      | inr e ↦
          let (i, in_i, ei) = last_interval s.x r.min_val.x r.max_val.x in
          (box_of i j k, piece-In_grid s r i j k in_i in_j in_k, inr (ei ∙ e))
    ]
grid-IsEnd s r (suc zero) w end =
    let (i, in_i, ei) = first_interval s.x r.min_val.x r.max_val.x in
    let (k, in_k, ek) = first_interval s.z r.min_val.z r.max_val.z in
    elim end [
      | inl e ↦
          let (j, in_j, ej) = first_interval s.y r.min_val.y r.max_val.y in
          (box_of i j k, piece-In_grid s r i j k in_i in_j in_k, inl (ej ∙ e))
      | inr e ↦
          let (j, in_j, ej) = last_interval s.y r.min_val.y r.max_val.y in
          (box_of i j k, piece-In_grid s r i j k in_i in_j in_k, inr (ej ∙ e))
    ]
grid-IsEnd s r (suc (suc a)) w end =
    let (i, in_i, ei) = first_interval s.x r.min_val.x r.max_val.x in
    let (j, in_j, ej) = first_interval s.y r.min_val.y r.max_val.y in
    elim end [
      | inl e ↦
          let (k, in_k, ek) = first_interval s.z r.min_val.z r.max_val.z in
          (box_of i j k, piece-In_grid s r i j k in_i in_j in_k, inl (ek ∙ e))
      | inr e ↦
          let (k, in_k, ek) = last_interval s.z r.min_val.z r.max_val.z in
          (box_of i j k, piece-In_grid s r i j k in_i in_j in_k, inr (ek ∙ e))
    ]

-- Add keeps a set on the planes of its boxes
pub add-IsTight : (r : RectSet) (rect : Rect) → IsTight r → IsTight (add r rect)
unfolding add add_rect_splits GoMap.lookup
add-IsTight r rect t axis w h =
    let s = add_rect_splits r rect in
    let m1 : GoMap Rect Bool = (rect, true) ∷ [] in
    let lo : (b : ℕ) → HasEnd b (coord_at rect.min_val b) m1 =
      λ b. (rect, head-IsKey rect true [], inl refl) in
    let hi : (b : ℕ) → HasEnd b (coord_at rect.max_val b) m1 =
      λ b. (rect, head-IsKey rect true [], inr refl) in
    let both : (u : RectSet) (b : ℕ)
        → Planned r.rects m1 u.splits
        → Planned r.rects m1
            (add_split (add_split u b (coord_at rect.min_val b)) b
              (coord_at rect.max_val b)).splits =
      λ u b p.
        add_split-Planned r.rects m1 _ b _ (add_split-Planned r.rects m1 u b _ p (lo b)) (hi b) in
    let kept : (u : RectSet) (b : ℕ)
        → HasEnd axis w u.rects
        → HasEnd axis w
            (add_split (add_split u b (coord_at rect.min_val b)) b
              (coord_at rect.max_val b)).rects =
      λ u b p. add_split-HasEnd b axis w _ _ (add_split-HasEnd b axis w _ u p) in
    elim (both _ 2 (both _ 1 (both r 0 (λ b v k. inl (t b v k)))) axis w h) [
      | inl old ↦
          put_rects-HasEnd axis w (split_rect_grid s.splits rect) s.rects
            (kept _ 2 (kept _ 1 (kept r 0 old)))
      | inr (q, key, end) ↦
          let same : rect ≡ q = ground arith in
          let (piece, here, its_end) =
            grid-IsEnd s.splits rect axis w (subst (IsEnd axis w) (sym same) end) in
          put_rects-new axis w (split_rect_grid s.splits rect) s.rects piece here its_end
    ]

put_pieces-HasEnd :
    (axis : ℕ) (w : Float) (s : Splits) (rs : List Rect) (m : GoMap Rect Bool)
    → HasEnd axis w m
    → HasEnd axis w (put_pieces s rs m)
unfolding put_pieces
put_pieces-HasEnd axis w s [] m h = h
put_pieces-HasEnd axis w s (r ∷ rs) m h =
    put_pieces-HasEnd axis w s rs _ (put_rects-HasEnd axis w (split_rect_grid s r) m h)

put_pieces-new :
    (axis : ℕ) (w : Float) (s : Splits) (rs : List Rect) (m : GoMap Rect Bool) (r : Rect)
    → In r rs
    → IsEnd axis w r
    → HasEnd axis w (put_pieces s rs m)
unfolding put_pieces
put_pieces-new axis w s [] m r h end = absurd h
put_pieces-new axis w s (t ∷ rs) m r (inl e) end =
    let (q, here, its_end) = grid-IsEnd s t axis w (subst (IsEnd axis w) (sym e) end) in
    put_pieces-HasEnd axis w s rs _ (put_rects-new axis w (split_rect_grid s t) m q here its_end)
put_pieces-new axis w s (t ∷ rs) m r (inr h) end =
    put_pieces-new axis w s rs (put_rects (split_rect_grid s t) m) r h end

-- AddRectSet keeps a set on the planes of its boxes
pub add_rect_set-IsTight : (r r1 : RectSet) → IsTight r → IsTight r1 → IsTight (add_rect_set r r1)
unfolding add_rect_set
add_rect_set-IsTight r r1 t t1 axis w h =
    let s = add_all_splits r r1.splits in
    let planned = add_all_splits-Planned r.rects r1.rects r r1 (λ b v k. inl (t b v k)) t1 in
    elim (planned axis w h) [
      | inl old ↦ put_pieces-HasEnd axis w s.splits (keys r1.rects) s.rects (
          unfold add_all_splits in
          add_splits-HasEnd r1.splits.z _ 2 axis w (
            add_splits-HasEnd r1.splits.y _ 1 axis w
              (add_splits-HasEnd r1.splits.x r 0 axis w old)))
      | inr (q, key, end) ↦
          put_pieces-new axis w s.splits (keys r1.rects) s.rects q (keys-In r1.rects q key) end
    ]
