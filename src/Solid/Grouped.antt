-- ===== src/Solid/Grouped.antt =====
-- model3d/solid.go: groupedSolidsToSolid, and Optimize of a JoinedSolid.
use mathlib.Core.Path.{subst}
use model3d.Base.{
  ℕ, zero, suc, ◌/◌, ◌≤◌, ◌<◌, ◌≡◌, refl, sym, ap, ◌∙◌, Bool, true, false, ◌||◌, Option, some, List,
  [], ◌∷◌, ◌++◌, arith, ltb, nat_beq, if◌then◌else◌, Eq, nat_eq, length, take, drop,
}
use model3d.Bvh.{Sorter}
use model3d.Bvh.Members.{tally, tally-take-drop, length-same, length-take, length-drop}
use model3d.Bvh.Group.{KeepsMembers, group-members}
use model3d.Solid.{
  SolidSpace, Solid, cache_solid_bounds, joined_min_loop, joined_max_loop, joined_min, joined_max,
  joined_contains, joined_solid, grouped_halves, grouped_solids_to_solid, optimize,
}
use model3d.Solid.Boxes.{LatticeLaws, joined_min-append, joined_max-append}
use model3d.Solid.Lawful.{
  IsLawful, breaks, AllLawful, AllLawful-here, joined_contains-tally, cache_solid_bounds-eq,
  joined_solid-IsLawful,
}

module _ {ℓ} {A : Type ℓ} where
  pub take-drop : (n : ℕ) (xs : List A) → take n xs ++ drop n xs ≡ xs
  take-drop zero xs = refl
  take-drop (suc n) [] = refl
  take-drop (suc n) (x ∷ xs) = ap (λ t. x ∷ t) (take-drop n xs)

either : (a b : Bool) → (if a then true else if b then true else false) ≡ (a || b)
either a b = ground arith

either_false : (a : Bool) → a ≡ (if a then true else false)
either_false a = ground arith

module _ {C : Type 0} ⦃e : Eq C⦄ (space : SolidSpace C) where
  -- the box around any of the solids passes BoundsValid
  abbrev pub ValidUnions : List (Solid C) → Type 0
  ValidUnions solids =
      (part : List (Solid C)) (lo hi : C)
      → ((p : Solid C → Bool) → tally p part ≤ tally p solids)
      → joined_min space part ≡ some lo
      → joined_max space part ≡ some hi
      → space.bounds_valid lo hi ≡ true

  ValidUnions-part :
      (part solids : List (Solid C))
      → ((p : Solid C → Bool) → tally p part ≤ tally p solids)
      → ValidUnions solids
      → ValidUnions part
  ValidUnions-part part solids sub valid some_of lo hi h =
      valid some_of lo hi (λ p. omega (arith, h p, sub p))

  -- a solid that is the join of some solids
  abbrev pub IsJoin : List (Solid C) → Solid C → Type 0
  IsJoin part o =
      (joined_min space part ≡ some o.min)
      × (joined_max space part ≡ some o.max)
      × ((c : C) → o.contains c ≡ joined_contains space part c)
      × IsLawful space o

  module _ (laws : LatticeLaws space) where
    pub joined_contains-append :
        (ss ts : List (Solid C)) (c : C)
        → joined_contains space (ss ++ ts) c
          ≡ (joined_contains space ss c || joined_contains space ts c)
    unfolding joined_contains
    joined_contains-append [] ts c = refl
    joined_contains-append (s ∷ ss) ts c = ground (arith, joined_contains-append ss ts c)

    two_lawful :
        (a b : Solid C) → IsLawful space a → IsLawful space b → AllLawful space (a ∷ b ∷ [])
    two_lawful a b h k c = ground (arith, h c, k c)

    -- two halves that are joined
    joined_halves :
        (ss ts : List (Solid C)) (a b : Solid C)
        → ValidUnions (ss ++ ts)
        → IsJoin ss a
        → IsJoin ts b
        → (j t : Solid C) × (joined_solid space (a ∷ b ∷ []) ≡ some j)
          × (cache_solid_bounds space j ≡ some t)
          × IsJoin (ss ++ ts) t
    unfolding joined_min joined_max joined_min_loop joined_max_loop joined_contains
    joined_halves ss ts a b valid (lo_a, hi_a, same_a, lawful_a) (lo_b, hi_b, same_b, lawful_b) =
        let (j, j_eq, lo_j, hi_j, same_j, lawful_j) =
          joined_solid-IsLawful space laws (a ∷ b ∷ []) (omega arith)
            (two_lawful a b lawful_a lawful_b) in
        let lo = joined_min-append space laws ss ts a.min b.min lo_a lo_b ∙ lo_j in
        let hi = joined_max-append space laws ss ts a.max b.max hi_a hi_b ∙ hi_j in
        let (t, t_eq, lo_t, hi_t, same_t, lawful_t) =
          cache_solid_bounds-eq space j lawful_j
            (valid (ss ++ ts) j.min j.max (λ p. omega arith) lo hi) in
        (
          j,
          t,
          j_eq,
          t_eq,
          (
            lo ∙ ap some (sym lo_t),
            hi ∙ ap some (sym hi_t),
            λ c.
                same_t c
                ∙ same_j c
                ∙ either (a.contains c) (b.contains c)
                ∙ rw (same_a c, same_b c) (sym (joined_contains-append ss ts c)),
            lawful_t,
          ),
        )

    one_joined :
        (s : Solid C)
        → ValidUnions (s ∷ [])
        → AllLawful space (s ∷ [])
        → (t : Solid C) × (cache_solid_bounds space s ≡ some t) × IsJoin (s ∷ []) t
    unfolding joined_min joined_max joined_min_loop joined_max_loop joined_contains
    one_joined s valid all =
        let lawful = AllLawful-here space s [] all in
        let (t, t_eq, lo_t, hi_t, same_t, lawful_t) =
          cache_solid_bounds-eq space s lawful
            (valid (s ∷ []) s.min s.max (λ p. omega arith) refl refl) in
        (
          t,
          t_eq,
          (
            ap some (sym lo_t),
            ap some (sym hi_t),
            λ c. same_t c ∙ either_false (s.contains c),
            lawful_t,
          ),
        )

    pub AllLawful-part :
        (part solids : List (Solid C))
        → ((p : Solid C → Bool) → tally p part ≤ tally p solids)
        → AllLawful space solids
        → AllLawful space part
    AllLawful-part part solids sub all c = omega (arith, sub (breaks space c), all c)

    grouped_halves-eq :
        (build : List (Solid C) → Option (Solid C)) (solids : List (Solid C)) (a b j t : Solid C)
        → build (take (length solids / 2) solids) ≡ some a
        → build (drop (length solids / 2) solids) ≡ some b
        → joined_solid space (a ∷ b ∷ []) ≡ some j
        → cache_solid_bounds space j ≡ some t
        → grouped_halves space build solids ≡ some t
    unfolding grouped_halves
    grouped_halves-eq build solids a b j t h k l m = rw (h, k, l) m

    grouped_solids_to_solid-many :
        (depth : ℕ) (s u : Solid C) (ss : List (Solid C)) (r : Option (Solid C))
        → grouped_halves space (λ half. grouped_solids_to_solid space depth half) (s ∷ u ∷ ss) ≡ r
        → grouped_solids_to_solid space (suc depth) (s ∷ u ∷ ss) ≡ r
    unfolding grouped_solids_to_solid
    grouped_solids_to_solid-many depth s u ss r h =
        let many : nat_beq (length (s ∷ u ∷ ss)) 1 ≡ false = ground arith in rw many h

    grouped_solids_to_solid-joins :
        (depth : ℕ) (solids : List (Solid C))
        → length solids < depth
        → 0 < length solids
        → ValidUnions solids
        → AllLawful space solids
        → (o : Solid C) × (grouped_solids_to_solid space depth solids ≡ some o) × IsJoin solids o
    unfolding grouped_solids_to_solid
    grouped_solids_to_solid-joins zero solids d h valid all = absurd (omega arith)
    grouped_solids_to_solid-joins (suc depth) [] d h valid all = absurd (omega arith)
    grouped_solids_to_solid-joins (suc depth) (s ∷ []) d h valid all = one_joined s valid all
    grouped_solids_to_solid-joins (suc depth) (s ∷ u ∷ ss) d h valid all =
        let solids = s ∷ u ∷ ss in
        let n = length solids / 2 in
        let half : n ≤ length solids = omega arith in
        let below : (p : Solid C → Bool) → tally p (take n solids) ≤ tally p solids =
          λ p. omega (arith, tally-take-drop p n solids) in
        let above : (p : Solid C → Bool) → tally p (drop n solids) ≤ tally p solids =
          λ p. omega (arith, tally-take-drop p n solids) in
        let (a, a_eq, a_join) =
          grouped_solids_to_solid-joins depth (take n solids)
            (omega (arith, length-take n solids half)) (omega (arith, length-take n solids half))
            (ValidUnions-part (take n solids) solids below valid)
            (AllLawful-part (take n solids) solids below all) in
        let (b, b_eq, b_join) =
          grouped_solids_to_solid-joins depth (drop n solids) (omega (arith, length-drop n solids))
            (omega (arith, length-drop n solids))
            (ValidUnions-part (drop n solids) solids above valid)
            (AllLawful-part (drop n solids) solids above all) in
        let (j, t, j_eq, t_eq, joins) =
          joined_halves (take n solids) (drop n solids) a b (rw (take-drop n solids) valid) a_join
            b_join in
        (
          t,
          grouped_solids_to_solid-many depth s u ss (some t) (
              grouped_halves-eq (λ half. grouped_solids_to_solid space depth half) solids a b j t
                a_eq b_eq j_eq t_eq),
          subst (λ ts. IsJoin ts t) (take-drop n solids) joins,
        )

    -- For one or more solids that contain no point outside their bounds, where the box around any
    -- of them passes BoundsValid, Optimize ends without a panic in a solid that contains the same
    -- points as the joined solid and none outside its bounds; Min and Max are distributive, and
    -- the sort keeps the elements of a slice.
    pub optimize-eq :
        (sort : Sorter C (Solid C)) (solids : List (Solid C))
        → KeepsMembers space.boxes sort
        → 0 < space.boxes.axes
        → 0 < length solids
        → ValidUnions solids
        → AllLawful space solids
        → (o : Solid C) × (optimize space sort solids ≡ some o)
          × ((c : C) → o.contains c ≡ joined_contains space solids c)
          × IsLawful space o
    unfolding optimize
    optimize-eq sort solids keeps some_axis h valid all =
        let (grouped, group_eq, same) =
          group-members space.boxes (λ s. s.min) (λ s. s.max) sort keeps solids some_axis in
        let same_length = length-same grouped solids same in
        let sub : (p : Solid C → Bool) → tally p grouped ≤ tally p solids =
          λ p. omega (arith, same p) in
        let (o, o_eq, (low, high, o_same, lawful)) =
          grouped_solids_to_solid-joins (suc (length solids)) grouped (omega (arith, same_length))
            (omega (arith, same_length)) (ValidUnions-part grouped solids sub valid)
            (AllLawful-part grouped solids sub all) in
        (
          o,
          rw group_eq o_eq,
          λ c.
              o_same c
              ∙ joined_contains-tally space grouped c
              ∙ ap (ltb 0) (same (λ s. s.contains c))
              ∙ sym (joined_contains-tally space solids c),
          lawful,
        )
