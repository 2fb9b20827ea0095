-- ===== src/RectSet/Pieces.antt =====
-- toolbox3d/rect_set.go: the pieces that splitRect cuts a box into, as products of intervals.
use mathlib.Core.Path.{subst}
use model3d.Base.{ℕ, ◌≡◌, refl, sym, ap, ◌⊎◌, inl, inr, List, [], ◌∷◌, ◌++◌, map, nat_eq}
use model3d.Coords.{Float, Rect}
use model3d.RectSet.{Splits, split_rect_axis, split_all_axis, split_rect_grid}
use model3d.RectSet.Values.{In}
use model3d.RectSet.Intervals.{Interval, intervals, with_range, range_of, split_rect_axis-intervals}

In-append : {A : Type 0} (xs ys : List A) (a : A) → In a (xs ++ ys) → In a xs ⊎ In a ys
In-append [] ys a h = inr h
In-append (x ∷ xs) ys a (inl e) = inl (inl e)
In-append (x ∷ xs) ys a (inr h) = elim (In-append xs ys a h) [ inl g ↦ inl (inr g) | inr g ↦ inr g ]

append-In_left : {A : Type 0} (xs ys : List A) (a : A) → In a xs → In a (xs ++ ys)
append-In_left [] ys a h = absurd h
append-In_left (x ∷ xs) ys a (inl e) = inl e
append-In_left (x ∷ xs) ys a (inr h) = inr (append-In_left xs ys a h)

append-In_right : {A : Type 0} (xs ys : List A) (a : A) → In a ys → In a (xs ++ ys)
append-In_right [] ys a h = h
append-In_right (x ∷ xs) ys a h = inr (append-In_right xs ys a h)

In-map :
    {A B : Type 0} (f : A → B) (xs : List A) (b : B)
    → In b (map f xs)
    → (a : A) × In a xs × (f a ≡ b)
In-map f [] b h = absurd h
In-map f (x ∷ xs) b (inl e) = (x, inl refl, e)
In-map f (x ∷ xs) b (inr h) = let (a, g, e) = In-map f xs b h in (a, inr g, e)

map-In : {A B : Type 0} (f : A → B) (xs : List A) (a : A) → In a xs → In (f a) (map f xs)
map-In f [] a h = absurd h
map-In f (x ∷ xs) a (inl e) = inl (ap f e)
map-In f (x ∷ xs) a (inr h) = inr (map-In f xs a h)

In-split_axis :
    (vs : List Float) (axis : ℕ) (r q : Rect)
    → In q (split_rect_axis vs axis r)
    → (i : Interval) × In i (intervals vs (range_of r axis).0 (range_of r axis).1)
      × (with_range r axis i ≡ q)
In-split_axis vs axis r q h =
    In-map (with_range r axis) _ q (subst (In q) (split_rect_axis-intervals vs axis r) h)

split_axis-In :
    (vs : List Float) (axis : ℕ) (r : Rect) (i : Interval)
    → In i (intervals vs (range_of r axis).0 (range_of r axis).1)
    → In (with_range r axis i) (split_rect_axis vs axis r)
split_axis-In vs axis r i h =
    subst (In (with_range r axis i)) (sym (split_rect_axis-intervals vs axis r))
      (map-In (with_range r axis) _ i h)

In-split_all :
    (vs : List Float) (axis : ℕ) (rs : List Rect) (q : Rect)
    → In q (split_all_axis vs axis rs)
    → (r : Rect) × In r rs × In q (split_rect_axis vs axis r)
unfolding split_all_axis
In-split_all vs axis [] q h = absurd h
In-split_all vs axis (r ∷ rs) q h = elim (In-append (split_rect_axis vs axis r) _ q h) [
  | inl g ↦ (r, inl refl, g)
  | inr g ↦ let (r', k, l) = In-split_all vs axis rs q g in (r', inr k, l)
]

split_all-In :
    (vs : List Float) (axis : ℕ) (rs : List Rect) (r q : Rect)
    → In r rs
    → In q (split_rect_axis vs axis r)
    → In q (split_all_axis vs axis rs)
unfolding split_all_axis
split_all-In vs axis [] r q h g = absurd h
split_all-In vs axis (r' ∷ rs) r q (inl e) g =
    append-In_left _ _ q (subst (λ (t : Rect). In q (split_rect_axis vs axis t)) (sym e) g)
split_all-In vs axis (r' ∷ rs) r q (inr h) g =
    append-In_right (split_rect_axis vs axis r') _ q (split_all-In vs axis rs r q h g)

abbrev pub box_of : Interval → Interval → Interval → Rect
box_of i j k = record {
  min_val = record { x = i.0; y = j.0; z = k.0 };
  max_val = record { x = i.1; y = j.1; z = k.1 };
}

-- three intervals of the axes of a box whose product is the given box
pub record IsPiece (s : Splits) (r q : Rect) : Type 0 where
  pub on_x : Interval
  pub on_y : Interval
  pub on_z : Interval
  pub in_x : In on_x (intervals s.x r.min_val.x r.max_val.x)
  pub in_y : In on_y (intervals s.y r.min_val.y r.max_val.y)
  pub in_z : In on_z (intervals s.z r.min_val.z r.max_val.z)
  pub product : box_of on_x on_y on_z ≡ q

first_axis :
    (vs : List Float) (r q : Rect)
    → In q (split_all_axis vs 0 (r ∷ []))
    → (i : Interval) × In i (intervals vs r.min_val.x r.max_val.x) × (with_range r 0 i ≡ q)
first_axis vs r q h =
    let (r', h', g) = In-split_all vs 0 (r ∷ []) q h in
    elim h' [
      | inl e ↦
          In-split_axis vs 0 r q (subst (λ (t : Rect). In q (split_rect_axis vs 0 t)) (sym e) g)
      | inr none_left ↦ absurd none_left
    ]

pub grid-IsPiece : (s : Splits) (r q : Rect) → In q (split_rect_grid s r) → IsPiece s r q
unfolding split_rect_grid
grid-IsPiece s r q h =
    let (r2, h2, g2) =
      In-split_all s.z 2 (split_all_axis s.y 1 (split_all_axis s.x 0 (r ∷ []))) q h in
    let (r1, h1, g1) = In-split_all s.y 1 (split_all_axis s.x 0 (r ∷ [])) r2 h2 in
    let (i, in_i, e1) = first_axis s.x r r1 h1 in
    let (j, in_j, e2) =
      In-split_axis s.y 1 (with_range r 0 i) r2
        (subst (λ (t : Rect). In r2 (split_rect_axis s.y 1 t)) (sym e1) g1) in
    let (k, in_k, e3) =
      In-split_axis s.z 2 (with_range (with_range r 0 i) 1 j) q
        (subst (λ (t : Rect). In q (split_rect_axis s.z 2 t)) (sym e2) g2) in
    record { on_x = i; on_y = j; on_z = k; in_x = in_i; in_y = in_j; in_z = in_k; product = e3 }

pub piece-In_grid :
    (s : Splits) (r : Rect) (i j k : Interval)
    → In i (intervals s.x r.min_val.x r.max_val.x)
    → In j (intervals s.y r.min_val.y r.max_val.y)
    → In k (intervals s.z r.min_val.z r.max_val.z)
    → In (box_of i j k) (split_rect_grid s r)
unfolding split_rect_grid
piece-In_grid s r i j k hi hj hk =
    let r1 = with_range r 0 i in
    let r2 = with_range r1 1 j in
    split_all-In s.z 2 _ r2 (box_of i j k)
      (split_all-In s.y 1 _ r1 r2
        (split_all-In s.x 0 (r ∷ []) r r1 (inl refl) (split_axis-In s.x 0 r i hi))
        (split_axis-In s.y 1 r1 j hj))
      (split_axis-In s.z 2 r2 k hk)
