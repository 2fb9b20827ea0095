-- ===== src/RectSet/Intervals.antt =====
-- toolbox3d/rect_set.go: splitRectAxis, seen on its axis alone: an interval that is cut at values.
use model3d.Base.{
  ℕ, zero, suc, ◌≤◌, ◌<◌, ◌≡◌, refl, ap, ◌⊎◌, inl, inr, ◌||◌, List, [], ◌∷◌, map, arith, leb,
  if◌then◌else◌, nat_eq, Bool-cases,
}
use model3d.Coords.{Float, coord_at, with_coord, Rect}
use mathlib.Core.Path.{subst}
use model3d.RectSet.{split_rect, split_rect_axis}
use model3d.RectSet.Values.{In, IsSorted, IsGap}

abbrev pub Interval : Type 0
Interval = Float × Float

unfoldable pub intervals : List Float → Float → Float → List Interval
intervals [] lo hi = (lo, hi) ∷ []
intervals (v ∷ vs) lo hi =
    let whole = intervals vs lo hi in
    let rest = intervals vs v hi in if leb v lo || leb hi v then whole else (lo, v) ∷ rest

-- a box with another extent on one axis
abbrev pub with_range : Rect → ℕ → Interval → Rect
with_range r axis i = record {
  min_val = with_coord r.min_val axis i.0;
  max_val = with_coord r.max_val axis i.1;
}

abbrev pub range_of : Rect → ℕ → Interval
range_of r axis = (coord_at r.min_val axis, coord_at r.max_val axis)

pub split_rect_axis-intervals :
    (vs : List Float) (axis : ℕ) (r : Rect)
    → split_rect_axis vs axis r
      ≡ map (with_range r axis) (intervals vs (range_of r axis).0 (range_of r axis).1)
unfolding split_rect_axis split_rect intervals
split_rect_axis-intervals [] zero r = refl
split_rect_axis-intervals [] (suc zero) r = refl
split_rect_axis-intervals [] (suc (suc axis)) r = refl
split_rect_axis-intervals (v ∷ vs) zero r =
    elim (Bool-cases (leb v (range_of r zero).0 || leb (range_of r zero).1 v)) [
      | inl out ↦ rw out (split_rect_axis-intervals vs zero r)
      | inr inside ↦ rw inside (
          ap (λ rs. record r { max_val = with_coord r.max_val zero v } ∷ rs)
            (split_rect_axis-intervals vs zero
              (record r { min_val = with_coord r.min_val zero v })))
    ]
split_rect_axis-intervals (v ∷ vs) (suc zero) r =
    elim (Bool-cases (leb v (range_of r (suc zero)).0 || leb (range_of r (suc zero)).1 v)) [
      | inl out ↦ rw out (split_rect_axis-intervals vs (suc zero) r)
      | inr inside ↦ rw inside (
          ap (λ rs. record r { max_val = with_coord r.max_val (suc zero) v } ∷ rs)
            (split_rect_axis-intervals vs (suc zero)
              (record r { min_val = with_coord r.min_val (suc zero) v })))
    ]
split_rect_axis-intervals (v ∷ vs) (suc (suc axis)) r =
    elim (Bool-cases
      (leb v (range_of r (suc (suc axis))).0 || leb (range_of r (suc (suc axis))).1 v)) [
        | inl out ↦ rw out (split_rect_axis-intervals vs (suc (suc axis)) r)
        | inr inside ↦ rw inside (
            ap (λ rs. record r { max_val = with_coord r.max_val (suc (suc axis)) v } ∷ rs)
              (split_rect_axis-intervals vs (suc (suc axis))
                (record r { min_val = with_coord r.min_val (suc (suc axis)) v })))
      ]

-- the values that are not in the list that is left lie outside of the interval
abbrev pub Passed : List Float → List Float → Float → Float → Type 0
Passed all vs lo hi = (w : Float) → In w all → In w vs ⊎ ((w ≤ lo) ⊎ (hi ≤ w))

pub intervals-IsGap :
    (all vs : List Float) (lo hi : Float) (i : Interval)
    → ((w : Float) → In w vs → In w all)
    → IsSorted vs
    → lo < hi
    → In lo all
    → In hi all
    → Passed all vs lo hi
    → In i (intervals vs lo hi)
    → IsGap all i.0 i.1 × (lo ≤ i.0) × (i.1 ≤ hi)
unfolding intervals
intervals-IsGap all [] lo hi i part sorted proper low high passed here = elim here [
  | inr none_left ↦ absurd none_left
  | inl e ↦
      subst (λ (j : Interval). IsGap all j.0 j.1 × (lo ≤ j.0) × (j.1 ≤ hi)) e
        (
          record {
            proper = proper;
            low = low;
            high = high;
            free = λ w h. ground (arith, passed w h);
          },
          omega arith,
          omega arith,
        )
]
intervals-IsGap all (v ∷ vs) lo hi i part sorted proper low high passed here =
    elim (Bool-cases (leb v lo || leb hi v)) [
      | inl out ↦
          intervals-IsGap all vs lo hi i (λ w h. part w (inr h)) sorted.1 proper low high
            (λ w h. ground (arith, passed w h)) (rw out at here)
      | inr inside ↦
          let above : lo < v = ground arith in
          let below : v < hi = ground arith in
          elim (rw inside at here) [
            | inl e ↦
                subst (λ (j : Interval). IsGap all j.0 j.1 × (lo ≤ j.0) × (j.1 ≤ hi)) e
                  (
                    record {
                      proper = above;
                      low = low;
                      high = part v (inl refl);
                      free = λ w h. ground (arith, passed w h, sorted.0 w);
                    },
                    omega arith,
                    omega arith,
                  )
            | inr later ↦
                let rest =
                  intervals-IsGap all vs v hi i (λ w h. part w (inr h)) sorted.1 below
                    (part v (inl refl)) high (λ w h. ground (arith, passed w h)) later in
                (rest.0, omega (arith, rest.1), rest.2)
          ]
    ]

pub gap-intervals :
    (all vs : List Float) (lo hi a b : Float)
    → ((w : Float) → In w vs → In w all)
    → IsSorted vs
    → Passed all vs lo hi
    → IsGap all a b
    → lo ≤ a
    → b ≤ hi
    → In (a, b) (intervals vs lo hi)
unfolding intervals
gap-intervals all [] lo hi a b part sorted passed gap le ge =
    inl (ground (arith, passed a gap.low, passed b gap.high, gap.proper))
gap-intervals all (v ∷ vs) lo hi a b part sorted passed gap le ge =
    let on_v = gap.free v (part v (inl refl)) in
    elim (Bool-cases (leb v lo || leb hi v)) [
      | inl out ↦ rw out (
          gap-intervals all vs lo hi a b (λ w h. part w (inr h)) sorted.1
            (λ w h. ground (arith, passed w h)) gap le ge)
      | inr inside ↦ rw inside (elim on_v [
        | inl before ↦ inr (
            gap-intervals all vs v hi a b (λ w h. part w (inr h)) sorted.1
              (λ w h. ground (arith, passed w h)) gap before ge)
        | inr behind ↦ inl (
            ground (arith, passed a gap.low, passed b gap.high, gap.proper, sorted.0 a, sorted.0 b))
      ])
    ]
