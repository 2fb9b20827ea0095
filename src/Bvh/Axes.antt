-- ===== src/Bvh/Axes.antt =====
-- model3d/bvh.go: the areas that bestSplitAxis compares.
use model3d.Base.{
  ℕ, zero, suc, ◌+◌, ◌/◌, ◌≤◌, ◌<◌, ◌≡◌, refl, sym, ap, ◌∙◌, ◌⊎◌, inl, inr, some, List, [], ◌∷◌,
  arith, ltb, if◌then◌else◌, nat_eq, Bool-cases, length, get_elem?, take, drop,
}
use model3d.Coords.{Float}
use model3d.Bvh.{
  BoxSpace, FlaggedBounder, multiple_bounds_area, area_for_axis, best_axis_loop, best_split_axis,
}
use model3d.Bvh.Members.{length-same, length-take, length-drop}
use model3d.Bvh.Split.{Aligned}

module _ {C B : Type 0} (space : BoxSpace C) where
  multiple_bounds_area-some :
      (bs : List (FlaggedBounder C B))
      → 0 < length bs
      → (a : Float) × (multiple_bounds_area space bs ≡ some a)
  unfolding multiple_bounds_area
  multiple_bounds_area-some [] h = absurd (omega arith)
  multiple_bounds_area-some (b ∷ bs) h = (_, refl)

  pub area_for_axis-some :
      (mid_idx : ℕ) (bs : List (FlaggedBounder C B))
      → 0 < mid_idx
      → mid_idx < length bs
      → (a : Float) × (area_for_axis space mid_idx bs ≡ some a)
  unfolding area_for_axis
  area_for_axis-some mid_idx bs h k =
      let (a, ea) =
        multiple_bounds_area-some (take mid_idx bs) (omega (arith, length-take mid_idx bs)) in
      let (b, eb) =
        multiple_bounds_area-some (drop mid_idx bs) (omega (arith, length-drop mid_idx bs)) in
      (space.plus a b, rw (ea, eb) refl)

  abbrev pub HasAreas : ℕ → List (List (FlaggedBounder C B)) → Type 0
  HasAreas mid_idx sorted =
      (i : ℕ) (bs : List (FlaggedBounder C B))
      → get_elem? sorted i ≡ some bs
      → (a : Float) × (area_for_axis space mid_idx bs ≡ some a)

  -- no axis has a smaller area than the given one
  abbrev pub IsLeast : ℕ → Float → List (List (FlaggedBounder C B)) → Type 0
  IsLeast mid_idx least sorted =
      (i : ℕ) (bs : List (FlaggedBounder C B)) (a : Float)
      → get_elem? sorted i ≡ some bs
      → area_for_axis space mid_idx bs ≡ some a
      → least ≤ a

  -- an axis has the area
  abbrev pub AreaAt : ℕ → ℕ → Float → List (List (FlaggedBounder C B)) → Type 0
  AreaAt mid_idx i a sorted =
      (bs : List (FlaggedBounder C B)) × (get_elem? sorted i ≡ some bs)
      × (area_for_axis space mid_idx bs ≡ some a)

  IsLeast-cons :
      (mid_idx : ℕ) (least : Float) (bs : List (FlaggedBounder C B))
      (sorted : List (List (FlaggedBounder C B))) (a : Float)
      → area_for_axis space mid_idx bs ≡ some a
      → least ≤ a
      → IsLeast mid_idx least sorted
      → IsLeast mid_idx least (bs ∷ sorted)
  IsLeast-cons mid_idx least bs sorted a e h rest zero cs b found eb =
      let same : bs ≡ cs = ground (arith, found) in
      let both : some a ≡ some b = sym e ∙ ap (area_for_axis space mid_idx) same ∙ eb in
      ground (arith, both)
  IsLeast-cons mid_idx least bs sorted a e h rest (suc i) cs b found eb = rest i cs b found eb

  best_axis_loop-IsLeast :
      (mid_idx i axis : ℕ) (min_area : Float) (sorted : List (List (FlaggedBounder C B)))
      → HasAreas mid_idx sorted
      → (best : ℕ) × (least : Float) × (best_axis_loop space mid_idx i axis min_area sorted
          ≡ some best)
        × (least ≤ min_area)
        × IsLeast mid_idx least sorted
        × (((best ≡ axis) × (least ≡ min_area))
            ⊎ (j : ℕ) × (best ≡ i + j) × AreaAt mid_idx j least sorted)
  unfolding best_axis_loop
  best_axis_loop-IsLeast mid_idx i axis min_area [] areas =
      (axis, min_area, refl, omega arith, λ j bs a e. absurd (ground (arith, e)), inl (refl, refl))
  best_axis_loop-IsLeast mid_idx i axis min_area (bs ∷ sorted) areas =
      let (a, ea) = areas 0 bs refl in
      let (best, least, e, below, all, where_it_is) =
        best_axis_loop-IsLeast mid_idx (i + 1) (if ltb a min_area then i else axis)
          (if ltb a min_area then a else min_area) sorted (λ j. areas (suc j)) in
      (
        best,
        least,
        rw ea e,
        ground (arith, below),
        IsLeast-cons mid_idx least bs sorted a ea (ground (arith, below)) all,
        elim where_it_is [
          | inl (same, same_area) ↦ elim (Bool-cases (ltb a min_area)) [
            | inl less ↦
                let here : (if ltb a min_area then i else axis) ≡ i + 0 = rw less (omega arith) in
                let area : a ≡ (if ltb a min_area then a else min_area) = rw less refl in
                inr (0, same ∙ here, (bs, refl, ea ∙ ap some (area ∙ sym same_area)))
            | inr more ↦
                let before : (if ltb a min_area then i else axis) ≡ axis = rw more refl in
                let area : (if ltb a min_area then a else min_area) ≡ min_area = rw more refl in
                inl (same ∙ before, same_area ∙ area)
          ]
          | inr (j, at_j, found) ↦ inr (suc j, omega (arith, at_j), found)
        ],
      )

  -- the lists of the axes have areas when both halves have an object
  HasAreas-Aligned :
      (mid_idx : ℕ) (base : List (FlaggedBounder C B)) (sorted : List (List (FlaggedBounder C B)))
      → Aligned base sorted
      → 0 < mid_idx
      → mid_idx < length base
      → HasAreas mid_idx sorted
  HasAreas-Aligned mid_idx base sorted all h k i bs e =
      area_for_axis-some mid_idx bs h (omega (arith, length-same bs base (all i bs e)))

  -- bestSplitAxis returns an axis along which the areas around the two halves have the least sum.
  pub best_split_axis-IsLeast :
      (bs : List (FlaggedBounder C B)) (sorted : List (List (FlaggedBounder C B)))
      → Aligned bs (bs ∷ sorted)
      → 1 < length bs
      → (best : ℕ) × (least : Float) × (best_split_axis space (bs ∷ sorted) ≡ some best)
        × AreaAt (length bs / 2) best least (bs ∷ sorted)
        × IsLeast (length bs / 2) least (bs ∷ sorted)
  unfolding best_split_axis
  best_split_axis-IsLeast bs sorted all h =
      let mid_idx = length bs / 2 in
      let areas = HasAreas-Aligned mid_idx bs (bs ∷ sorted) all (omega arith) (omega arith) in
      let (a, ea) = areas 0 bs refl in
      let (best, least, e, below, rest, where_it_is) =
        best_axis_loop-IsLeast mid_idx 1 0 a sorted (λ j. areas (suc j)) in
      (
        best,
        least,
        rw ea e,
        elim where_it_is [
          | inl (first, first_area) ↦ rw (first, first_area) (bs, refl, ea)
          | inr (j, at_j, found) ↦ let next : best ≡ suc j = omega (arith, at_j) in rw next found
        ],
        IsLeast-cons mid_idx least bs sorted a ea below rest,
      )
