-- ===== src/RectSet/Ends.antt =====
-- toolbox3d/rect_set.go: the planes of a set as ends of its boxes.
use mathlib.Core.Path.{subst}
use model3d.Base.{
  eq_beq, ℕ, zero, suc, ◌≡◌, sym, ◌⊎◌, inl, inr, Bool, true, List, [], ◌∷◌, arith, ltb, nat_beq,
  ◌==◌, nat_eq, Bool-cases, ==_refl, length, get_or,
}
use model3d.GoMap
use model3d.GoMap.{GoMap, IsDistinct, keys}
use model3d.Coords.{Float, coord_eq, coord_at, Rect, rect_eq}
use model3d.RectSet.{
  RectSet, splits_at, split_rect, cut_rect, cut_rects, rect_slice, search_floats, add_split,
  axis_values, put_rects, rebuild_splits,
}
use model3d.RectSet.Cover.{is_cut}
use model3d.RectSet.Values.{In, In-add_value}
use model3d.RectSet.Kept.{IsKey, head-IsKey, tail-IsKey}

-- the value is an end of a box on the axis
abbrev pub IsEnd : ℕ → Float → Rect → Type 0
IsEnd axis w q = (coord_at q.min_val axis ≡ w) ⊎ (coord_at q.max_val axis ≡ w)

-- some box of the map ends at the value
abbrev pub HasEnd : ℕ → Float → GoMap Rect Bool → Type 0
HasEnd axis w m = (q : Rect) × IsKey q m × IsEnd axis w q

-- every plane is one of a box
abbrev pub IsTight : RectSet → Type 0
IsTight r = (axis : ℕ) (w : Float) → In w (splits_at r.splits axis) → HasEnd axis w r.rects

insert-HasEnd :
    (axis : ℕ) (w : Float) (r : Rect) (m : GoMap Rect Bool)
    → HasEnd axis w m
    → HasEnd axis w (GoMap.insert r true m)
insert-HasEnd axis w r m (q, key, end) = (q, ground (arith, GoMap.lookup-insert q r true m), end)

insert-new :
    (axis : ℕ) (w : Float) (r : Rect) (m : GoMap Rect Bool)
    → IsEnd axis w r
    → HasEnd axis w (GoMap.insert r true m)
insert-new axis w r m end = (r, ground (arith, GoMap.lookup-insert r r true m, ==_refl r), end)

-- each end of a box is one of a half of it
split_rect-ends :
    (axis other : ℕ) (w value : Float) (r : Rect)
    → is_cut r axis value ≡ true
    → IsEnd other w r
    → IsEnd other w (split_rect r axis value).0 ⊎ IsEnd other w (split_rect r axis value).1
unfolding split_rect
split_rect-ends zero zero w value r cut end = ground (arith, cut, end)
split_rect-ends zero (suc zero) w value r cut end = ground (arith, cut, end)
split_rect-ends zero (suc (suc o)) w value r cut end = ground (arith, cut, end)
split_rect-ends (suc zero) zero w value r cut end = ground (arith, cut, end)
split_rect-ends (suc zero) (suc zero) w value r cut end = ground (arith, cut, end)
split_rect-ends (suc zero) (suc (suc o)) w value r cut end = ground (arith, cut, end)
split_rect-ends (suc (suc a)) zero w value r cut end = ground (arith, cut, end)
split_rect-ends (suc (suc a)) (suc zero) w value r cut end = ground (arith, cut, end)
split_rect-ends (suc (suc a)) (suc (suc o)) w value r cut end = ground (arith, cut, end)

cut_rect-HasEnd :
    (axis other : ℕ) (w value : Float) (r : Rect) (m : GoMap Rect Bool)
    → HasEnd other w m
    → HasEnd other w (cut_rect axis value r m)
unfolding cut_rect
cut_rect-HasEnd axis other w value r m (q, key, end) = elim (Bool-cases (is_cut r axis value)) [
  | inr whole ↦ rw whole (q, key, end)
  | inl cut ↦ rw cut (elim (Bool-cases (r == q)) [
    | inr differs ↦
        insert-HasEnd other w _ _
          (insert-HasEnd other w _ _ (q, ground (arith, GoMap.lookup-delete q r m, differs), end))
    | inl same ↦
        let e = (rect_eq.beq_iff r q).0 same in
        elim (split_rect-ends axis other w value r cut (subst (IsEnd other w) (sym e) end)) [
          | inl first ↦ insert-HasEnd other w _ _ (insert-new other w _ _ first)
          | inr second ↦ insert-new other w _ _ second
        ]
  ])
]

cut_rects-HasEnd :
    (axis other : ℕ) (w value : Float) (rs : List Rect) (m : GoMap Rect Bool)
    → HasEnd other w m
    → HasEnd other w (cut_rects axis value rs m)
unfolding cut_rects
cut_rects-HasEnd axis other w value [] m h = h
cut_rects-HasEnd axis other w value (r ∷ rs) m h =
    cut_rects-HasEnd axis other w value rs _ (cut_rect-HasEnd axis other w value r m h)

pub add_split-HasEnd :
    (axis other : ℕ) (w value : Float) (r : RectSet)
    → HasEnd other w r.rects
    → HasEnd other w (add_split r axis value).rects
unfolding add_split
add_split-HasEnd axis other w value r h =
    let vs = splits_at r.splits axis in
    let idx = search_floats vs value in
    elim (Bool-cases (nat_beq idx (length vs))) [
      | inl last ↦ rw last h
      | inr not_last ↦ elim (Bool-cases (nat_beq (get_or vs idx 0) value)) [
        | inl found ↦ rw (not_last, found) h
        | inr not_found ↦ elim (Bool-cases (ltb 0 idx)) [
          | inl inside ↦
              rw (not_last, not_found, inside)
                (cut_rects-HasEnd axis other w value (rect_slice r.rects) r.rects h)
          | inr first ↦ rw (not_last, not_found, first) h
        ]
      ]
    ]

pub put_rects-HasEnd :
    (axis : ℕ) (w : Float) (rs : List Rect) (m : GoMap Rect Bool)
    → HasEnd axis w m
    → HasEnd axis w (put_rects rs m)
unfolding put_rects
put_rects-HasEnd axis w [] m h = h
put_rects-HasEnd axis w (r ∷ rs) m h =
    put_rects-HasEnd axis w rs (GoMap.insert r true m) (insert-HasEnd axis w r m h)

-- the boxes that are put into the map are there
pub put_rects-new :
    (axis : ℕ) (w : Float) (rs : List Rect) (m : GoMap Rect Bool) (q : Rect)
    → In q rs
    → IsEnd axis w q
    → HasEnd axis w (put_rects rs m)
unfolding put_rects
put_rects-new axis w [] m q h end = absurd h
put_rects-new axis w (r ∷ rs) m q (inl e) end =
    put_rects-HasEnd axis w rs _ (insert-new axis w r m (subst (IsEnd axis w) (sym e) end))
put_rects-new axis w (r ∷ rs) m q (inr h) end =
    put_rects-new axis w rs (GoMap.insert r true m) q h end

axis_values-HasEnd :
    (axis : ℕ) (m : GoMap Rect Bool) (w : Float) → In w (axis_values axis m) → HasEnd axis w m
unfolding axis_values
axis_values-HasEnd axis [] w h = absurd h
axis_values-HasEnd axis ((r, b) ∷ m) w h = elim (In-add_value (coord_at r.min_val axis) w _ h) [
  | inl e ↦ (r, head-IsKey r b m, inl e)
  | inr h' ↦ elim (In-add_value (coord_at r.max_val axis) w _ h') [
    | inl e ↦ (r, head-IsKey r b m, inr e)
    | inr later ↦
        let (q, key, end) = axis_values-HasEnd axis m w later in (q, tail-IsKey q r b m key, end)
  ]
]

-- after rebuildSplits
pub rebuild-IsTight : (r : RectSet) → IsTight (rebuild_splits r)
unfolding rebuild_splits
rebuild-IsTight r zero w h = axis_values-HasEnd 0 r.rects w h
rebuild-IsTight r (suc zero) w h = axis_values-HasEnd 1 r.rects w h
rebuild-IsTight r (suc (suc axis)) w h = axis_values-HasEnd 2 r.rects w h
