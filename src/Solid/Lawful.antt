-- ===== src/Solid/Lawful.antt =====
-- model3d/solid.go: the contract of a Solid, and the combinators.
use model3d.Base.{
  ◌≤◌, ◌<◌, ◌≡◌, refl, ◌∙◌, inl, inr, Bool, true, not, ◌&&◌, some, List, [], ◌∷◌, arith, ltb,
  nat_beq, Eq, nat_eq, Bool-cases, length,
}
use model3d.Bvh.Members.{tally}
use model3d.Solid.{
  SolidSpace, Solid, in_bounds, func_solid, checked_func_solid, force_solid_bounds,
  cache_solid_bounds, joined_min_loop, joined_max_loop, joined_min, joined_max, joined_contains,
  joined_solid, subtracted_solid, intersected_min_loop, intersected_max_loop, intersected_contains,
  intersected_solid,
}
use model3d.Solid.Boxes.{
  LatticeLaws, IsAbove, IsBelow, in_bounds-corners, corners-in_bounds, IsAbove-right, IsBelow-left,
  IsBelow-right, IsAbove-both, IsBelow-both, IsAbove-joined, IsBelow-joined,
}

module _ {C : Type 0} ⦃e : Eq C⦄ (space : SolidSpace C) where
  -- `Contains` is false outside the boundaries of the solid
  abbrev pub IsLawful : Solid C → Type 0
  IsLawful s = (c : C) → s.contains c ≡ true → in_bounds space s.min s.max c ≡ true

  -- a solid that contains a point outside its boundaries
  abbrev pub breaks : C → Solid C → Bool
  breaks c s = s.contains c && not (in_bounds space s.min s.max c)

  -- none of the solids does
  abbrev pub AllLawful : List (Solid C) → Type 0
  AllLawful ss = (c : C) → tally (breaks c) ss ≡ 0

  pub AllLawful-here : (s : Solid C) (ss : List (Solid C)) → AllLawful (s ∷ ss) → IsLawful s
  AllLawful-here s ss all c h = ground (arith, all c, h)

  pub AllLawful-later : (s : Solid C) (ss : List (Solid C)) → AllLawful (s ∷ ss) → AllLawful ss
  AllLawful-later s ss all c = ground (arith, all c)

  pub joined_contains-tally :
      (ss : List (Solid C)) (c : C)
      → joined_contains space ss c ≡ ltb 0 (tally (λ s. s.contains c) ss)
  unfolding joined_contains
  joined_contains-tally [] c = refl
  joined_contains-tally (s ∷ ss) c = ground (arith, joined_contains-tally ss c)

  tally-length : (p : Solid C → Bool) (ss : List (Solid C)) → tally p ss ≤ length ss
  tally-length p [] = omega arith
  tally-length p (s ∷ ss) = ground (arith, tally-length p ss)

  pub intersected_contains-tally :
      (ss : List (Solid C)) (c : C)
      → intersected_contains space ss c ≡ nat_beq (tally (λ s. s.contains c) ss) (length ss)
  unfolding intersected_contains
  intersected_contains-tally [] c = refl
  intersected_contains-tally (s ∷ ss) c =
      ground (arith, intersected_contains-tally ss c, tally-length (λ t. t.contains c) ss)

  pub checked_func_solid-IsLawful :
      (min max : C) (f : C → Bool)
      → space.bounds_valid min max ≡ true
      → (s : Solid C) × (checked_func_solid space min max f ≡ some s)
        × (s.min ≡ min)
        × (s.max ≡ max)
        × ((c : C) → s.contains c ≡ (in_bounds space min max c && f c))
        × IsLawful s
  unfolding checked_func_solid func_solid
  checked_func_solid-IsLawful min max f valid = (
    record { min = min; max = max; contains = λ c. in_bounds space min max c && f c },
    rw valid refl,
    refl,
    refl,
    λ c. refl,
    λ c h. ground (arith, h),
  )

  -- the check of a lawful solid changes nothing
  pub cache_solid_bounds-eq :
      (s : Solid C)
      → IsLawful s
      → space.bounds_valid s.min s.max ≡ true
      → (t : Solid C) × (cache_solid_bounds space s ≡ some t)
        × (t.min ≡ s.min)
        × (t.max ≡ s.max)
        × ((c : C) → t.contains c ≡ s.contains c)
        × IsLawful t
  unfolding cache_solid_bounds force_solid_bounds
  cache_solid_bounds-eq s lawful valid =
      let (t, eq, low, high, same, t_lawful) =
        checked_func_solid-IsLawful s.min s.max (λ c. s.contains c) valid in
      (t, eq, low, high, λ c. same c ∙ ground (arith, lawful c), t_lawful)

  module _ (laws : LatticeLaws space) where
    joined_inside :
        (a b c : C) (ss : List (Solid C))
        → AllLawful ss
        → joined_contains space ss c ≡ true
        → IsAbove space laws c (joined_min_loop space a ss)
          × IsBelow space laws c (joined_max_loop space b ss)
    unfolding joined_contains joined_min_loop joined_max_loop
    joined_inside a b c [] all h = absurd (ground (arith, h))
    joined_inside a b c (s ∷ ss) all h = elim (Bool-cases (s.contains c)) [
      | inl inside ↦
          let (low, high) =
            in_bounds-corners space laws s.min s.max c (AllLawful-here s ss all c inside) in
          (
            IsAbove-joined space laws c (space.boxes.lower a s.min) ss
                (IsAbove-right space laws c a s.min low),
            IsBelow-joined space laws c (space.boxes.upper b s.max) ss
                (IsBelow-right space laws c b s.max high),
          )
      | inr outside ↦
          joined_inside (space.boxes.lower a s.min) (space.boxes.upper b s.max) c ss
            (AllLawful-later s ss all) (rw outside at h)
    ]

    joined_bounds-inside :
        (s : Solid C) (ss : List (Solid C))
        → AllLawful (s ∷ ss)
        → (c : C) → joined_contains space (s ∷ ss) c ≡ true
        → in_bounds space (joined_min_loop space s.min ss) (joined_max_loop space s.max ss) c ≡ true
    unfolding joined_contains
    joined_bounds-inside s ss all c h = elim (Bool-cases (s.contains c)) [
      | inl inside ↦
          let (low, high) =
            in_bounds-corners space laws s.min s.max c (AllLawful-here s ss all c inside) in
          corners-in_bounds space laws (joined_min_loop space s.min ss)
            (joined_max_loop space s.max ss) c (IsAbove-joined space laws c s.min ss low)
            (IsBelow-joined space laws c s.max ss high)
      | inr outside ↦
          let (low, high) =
            joined_inside s.min s.max c ss (AllLawful-later s ss all) (rw outside at h) in
          corners-in_bounds space laws (joined_min_loop space s.min ss)
            (joined_max_loop space s.max ss) c low high
    ]

    pub joined_solid-IsLawful :
        (ss : List (Solid C))
        → 0 < length ss
        → AllLawful ss
        → (j : Solid C) × (joined_solid space ss ≡ some j)
          × (joined_min space ss ≡ some j.min)
          × (joined_max space ss ≡ some j.max)
          × ((c : C) → j.contains c ≡ joined_contains space ss c)
          × IsLawful j
    unfolding joined_solid joined_min joined_max
    joined_solid-IsLawful [] h all = absurd (omega arith)
    joined_solid-IsLawful (s ∷ ss) h all = (
      record {
        min = joined_min_loop space s.min ss;
        max = joined_max_loop space s.max ss;
        contains = λ c. joined_contains space (s ∷ ss) c;
      },
      refl,
      refl,
      refl,
      λ c. refl,
      joined_bounds-inside s ss all,
    )

    intersected_inside :
        (a b c : C) (ss : List (Solid C))
        → AllLawful ss
        → intersected_contains space ss c ≡ true
        → IsAbove space laws c a
        → IsBelow space laws c b
        → IsAbove space laws c (intersected_min_loop space a ss)
          × IsBelow space laws c (intersected_max_loop space b ss)
    unfolding intersected_contains intersected_min_loop intersected_max_loop
    intersected_inside a b c [] all h low high = (low, high)
    intersected_inside a b c (s ∷ ss) all h low high =
        let inside : s.contains c ≡ true = ground (arith, h) in
        let rest : intersected_contains space ss c ≡ true = ground (arith, h) in
        let (s_low, s_high) =
          in_bounds-corners space laws s.min s.max c (AllLawful-here s ss all c inside) in
        intersected_inside (space.boxes.upper a s.min) (space.boxes.lower b s.max) c ss
          (AllLawful-later s ss all) rest (IsAbove-both space laws c a s.min low s_low)
          (IsBelow-both space laws c b s.max high s_high)

    intersected_bounds-inside :
        (s : Solid C) (ss : List (Solid C))
        → AllLawful (s ∷ ss)
        → (c : C) → intersected_contains space (s ∷ ss) c ≡ true
        → in_bounds space
            (intersected_min_loop space s.min ss)
            (space.boxes.upper
              (intersected_max_loop space s.max ss)
              (intersected_min_loop space s.min ss))
            c
          ≡ true
    unfolding intersected_contains
    intersected_bounds-inside s ss all c h =
        let inside : s.contains c ≡ true = ground (arith, h) in
        let rest : intersected_contains space ss c ≡ true = ground (arith, h) in
        let (s_low, s_high) =
          in_bounds-corners space laws s.min s.max c (AllLawful-here s ss all c inside) in
        let (low, high) =
          intersected_inside s.min s.max c ss (AllLawful-later s ss all) rest s_low s_high in
        corners-in_bounds space laws _ _ c low (
          IsBelow-left space laws c (intersected_max_loop space s.max ss)
            (intersected_min_loop space s.min ss) high)

    pub intersected_solid-IsLawful :
        (s : Solid C) (ss : List (Solid C))
        → AllLawful (s ∷ ss)
        → (j : Solid C) × (intersected_solid space (s ∷ ss) ≡ some j)
          × ((c : C) → j.contains c ≡ intersected_contains space (s ∷ ss) c)
          × IsLawful j
    unfolding intersected_solid
    intersected_solid-IsLawful s ss all = (
      record {
        min = intersected_min_loop space s.min ss;
        max =
            space.boxes.upper (intersected_max_loop space s.max ss)
              (intersected_min_loop space s.min ss);
        contains = λ c. intersected_contains space (s ∷ ss) c;
      },
      refl,
      λ c. refl,
      λ c h. intersected_bounds-inside s ss all c h,
    )

    -- Solids made from solids that contain no point outside their bounds keep that contract: a
    -- difference with any solid, the union and the intersection of one or more; the union contains
    -- the points of at least one of them and the intersection the points of all of them. Min and
    -- Max are distributive.
    pub combinators-IsLawful :
        (s : Solid C) (ss : List (Solid C)) (negative : Solid C)
        → AllLawful (s ∷ ss)
        → IsLawful (subtracted_solid space s negative)
          × ((j : Solid C) × (joined_solid space (s ∷ ss) ≡ some j)
              × IsLawful j
              × ((c : C) → j.contains c ≡ ltb 0 (tally (λ t. t.contains c) (s ∷ ss))))
          × ((i : Solid C) × (intersected_solid space (s ∷ ss) ≡ some i)
              × IsLawful i
              × ((c : C)
                  → i.contains c ≡ nat_beq (tally (λ t. t.contains c) (s ∷ ss)) (length (s ∷ ss))))
    unfolding subtracted_solid
    combinators-IsLawful s ss negative all =
        let (j, j_eq, low, high, j_same, j_lawful) =
          joined_solid-IsLawful (s ∷ ss) (omega arith) all in
        let (i, i_eq, i_same, i_lawful) = intersected_solid-IsLawful s ss all in
        (
          λ c h. AllLawful-here s ss all c (ground (arith, h)),
          (j, j_eq, j_lawful, λ c. j_same c ∙ joined_contains-tally (s ∷ ss) c),
          (i, i_eq, i_lawful, λ c. i_same c ∙ intersected_contains-tally (s ∷ ss) c),
        )
