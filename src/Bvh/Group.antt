-- ===== src/Bvh/Group.antt =====
-- model3d/bvh.go: the calls of groupBounders, and GroupBounders as a whole.
use model3d.Base.{
  ℕ, zero, suc, ◌+◌, ◌/◌, ◌≤◌, ◌<◌, ◌≡◌, refl, sym, ap, ◌∙◌, inl, inr, Bool, false, Option, some,
  List, [], ◌∷◌, ◌++◌, map, arith, ltb, nat_beq, nat_eq, Bool-cases, length, get_elem?, take, drop,
}
use model3d.Bvh.{
  BoxSpace, FlaggedBounder, Flags, Sorter, best_split_axis, split_bounders, group_halves,
  group_bounders, sort_axes, flagged_from, sort_bounders, group,
}
use model3d.Bvh.Members.{
  tally, SameMembers, tally-append, tally-take-drop, length-same, length-take, length-drop,
}
use model3d.Bvh.Separate.{at_address, IsUnique}
use model3d.Bvh.Split.{Aligned, Aligned-cons, IsUnique-same, split_bounders-parts}
use model3d.Bvh.Axes.{best_split_axis-IsLeast}

module _ {C B : Type 0} where
  -- the test on the object of a bounder
  abbrev pub on_object : (B → Bool) → FlaggedBounder C B → Bool
  on_object p b = p b.object

  pub tally-objects :
      (p : B → Bool) (bs : List (FlaggedBounder C B))
      → tally p (map (λ b. b.object) bs) ≡ tally (on_object p) bs
  tally-objects p [] = refl
  tally-objects p (b ∷ bs) = ground (arith, tally-objects p bs)

  pub IsUnique-take : (n : ℕ) (bs : List (FlaggedBounder C B)) → IsUnique bs → IsUnique (take n bs)
  IsUnique-take n bs u k = omega (arith, tally-take-drop (λ b. nat_beq b.address k) n bs, u k)

  pub IsUnique-drop : (n : ℕ) (bs : List (FlaggedBounder C B)) → IsUnique bs → IsUnique (drop n bs)
  IsUnique-drop n bs u k = omega (arith, tally-take-drop (λ b. nat_beq b.address k) n bs, u k)

  -- a list with an axis and its parts
  pub along_axis :
      (base : List (FlaggedBounder C B)) (sorted : List (List (FlaggedBounder C B))) (axis : ℕ)
      → axis < length sorted
      → Aligned base sorted
      → (along : List (FlaggedBounder C B)) × (get_elem? sorted axis ≡ some along)
        × SameMembers along base
  along_axis base [] axis h all = absurd (omega arith)
  along_axis base (bs ∷ sorted) zero h all = (bs, refl, all 0 bs refl)
  along_axis base (bs ∷ sorted) (suc axis) h all =
      along_axis base sorted axis (omega arith) (λ i. all (suc i))

  pub Aligned-along :
      (base along : List (FlaggedBounder C B)) (sorted : List (List (FlaggedBounder C B)))
      → SameMembers along base
      → Aligned base sorted
      → Aligned along sorted
  Aligned-along base along sorted same all i bs e p = all i bs e p ∙ sym (same p)

module _ {C B : Type 0} (space : BoxSpace C) where
  -- what a call of groupBounders does with aligned lists of some objects
  abbrev Groups : List (FlaggedBounder C B) → List (List (FlaggedBounder C B)) → ℕ → Flags → Type 0
  Groups base sorted depth flags =
      (out : List B) × (flags1 : Flags) × (group_bounders space depth sorted flags
        ≡ some (out, flags1))
      × ((p : B → Bool) → tally p out ≡ tally (on_object p) base)

  group_halves-eq :
      (rest : List (List (FlaggedBounder C B)) → Flags → Option (List B × Flags)) (mid_idx : ℕ)
      (sorted : List (List (FlaggedBounder C B))) (flags : Flags) (axis : ℕ)
      (first second : List (List (FlaggedBounder C B))) (flags1 : Flags) (out1 out2 : List B)
      (flags2 flags3 : Flags)
      → best_split_axis space sorted ≡ some axis
      → split_bounders sorted axis mid_idx flags ≡ some (first, second, flags1)
      → rest first flags1 ≡ some (out1, flags2)
      → rest second flags2 ≡ some (out2, flags3)
      → group_halves space rest mid_idx sorted flags ≡ some (out1 ++ out2, flags3)
  unfolding group_halves
  group_halves-eq rest mid_idx sorted flags axis first second flags1 out1 out2 flags2 flags3 e s r1
        r2 =
      rw (e, s, r1, r2) refl

  group_bounders-large :
      (r : Option (List B × Flags)) (depth : ℕ) (bs : List (FlaggedBounder C B))
      (sorted : List (List (FlaggedBounder C B))) (flags : Flags)
      → ltb (length bs) 3 ≡ false
      → group_halves space
          (λ s fs. group_bounders space depth s fs)
          (length bs / 2)
          (bs ∷ sorted)
          flags
        ≡ r
      → group_bounders space (suc depth) (bs ∷ sorted) flags ≡ r
  unfolding group_bounders
  group_bounders-large r depth bs sorted flags large e = rw large e

  group_bounders-members :
      (depth : ℕ) (base : List (FlaggedBounder C B)) (sorted : List (List (FlaggedBounder C B)))
      (flags : Flags)
      → length base < depth
      → 0 < length sorted
      → Aligned base sorted
      → IsUnique base
      → Groups base sorted depth flags
  unfolding group_bounders
  group_bounders-members zero base sorted flags d n all u = absurd (omega arith)
  group_bounders-members (suc depth) base [] flags d n all u = absurd (omega arith)
  group_bounders-members (suc depth) base (bs ∷ sorted) flags d n all u =
      elim (Bool-cases (ltb (length bs) 3)) [
        | inl small ↦ (
          map (λ b. b.object) bs,
          flags,
          rw small refl,
          λ p. tally-objects p bs ∙ all 0 bs refl (on_object p),
        )
        | inr large ↦
            let mid_idx = length bs / 2 in
            let same : length bs ≡ length base = length-same bs base (all 0 bs refl) in
            let (best, least, best_eq, (along, found, area), rest) =
              best_split_axis-IsLeast space bs sorted
                (Aligned-along base bs (bs ∷ sorted) (all 0 bs refl) all) (ground (arith, large)) in
            let along_same = all best along found in
            let along_length = length-same along base along_same in
            let half : mid_idx ≤ length along = omega (arith, same, along_length) in
            let along_u = IsUnique-same along base along_same u in
            let (first, second, flags1, split_eq, n1, n2, below, above) =
              split_bounders-parts (bs ∷ sorted) best mid_idx flags along found along_u half
                (Aligned-along base along (bs ∷ sorted) along_same all) in
            let three : 2 < length bs = ground (arith, large) in
            let (out1, flags2, eq1, members1) =
              group_bounders-members depth (take mid_idx along) first flags1
                (omega (arith, length-take mid_idx along half, same, three)) (omega (arith, n1))
                below (IsUnique-take mid_idx along along_u) in
            let (out2, flags3, eq2, members2) =
              group_bounders-members depth (drop mid_idx along) second flags2
                (omega (arith, length-drop mid_idx along, same, along_length, three))
                (omega (arith, n2)) above (IsUnique-drop mid_idx along along_u) in
            (
              out1 ++ out2,
              flags3,
              group_bounders-large (some (out1 ++ out2, flags3)) depth bs sorted flags large (
                  group_halves-eq (λ s fs. group_bounders space depth s fs) mid_idx (bs ∷ sorted)
                    flags best first second flags1 out1 out2 flags2 flags3 best_eq split_eq eq1
                    eq2),
              λ p. omega (
                arith,
                tally-append p out1 out2,
                members1 p,
                members2 p,
                tally-take-drop (on_object p) mid_idx along,
                along_same (on_object p),
              ),
            )
      ]

  -- sort.Slice keeps the elements of a slice
  abbrev pub KeepsMembers : Sorter C B → Type 0
  KeepsMembers sort =
      (less : FlaggedBounder C B → FlaggedBounder C B → Bool) (bs : List (FlaggedBounder C B))
      → SameMembers (sort less bs) bs

  module _ (min_of max_of : B → C) (sort : Sorter C B) (keeps : KeepsMembers sort) where
    flagged_from-below :
        (k address : ℕ) (objects : List B)
        → k < address
        → at_address k (flagged_from space min_of max_of address objects) ≡ 0
    unfolding flagged_from
    flagged_from-below k address [] h = refl
    flagged_from-below k address (b ∷ objects) h =
        ground (arith, flagged_from-below k (suc address) objects)

    pub flagged_from-IsUnique :
        (address : ℕ) (objects : List B)
        → IsUnique (flagged_from space min_of max_of address objects)
    unfolding flagged_from
    flagged_from-IsUnique address [] k = omega arith
    flagged_from-IsUnique address (b ∷ objects) k = ground (
      arith,
      flagged_from-IsUnique (suc address) objects k,
      flagged_from-below k (suc address) objects,
    )

    pub length-flagged_from :
        (address : ℕ) (objects : List B)
        → length (flagged_from space min_of max_of address objects) ≡ length objects
    unfolding flagged_from
    length-flagged_from address [] = refl
    length-flagged_from address (b ∷ objects) = ap suc (length-flagged_from (suc address) objects)

    pub tally-flagged_from :
        (p : B → Bool) (address : ℕ) (objects : List B)
        → tally (on_object p) (flagged_from space min_of max_of address objects) ≡ tally p objects
    unfolding flagged_from
    tally-flagged_from p address [] = refl
    tally-flagged_from p address (b ∷ objects) =
        ground (arith, tally-flagged_from p (suc address) objects)

    sort_axes-Aligned :
        (flagged : List (FlaggedBounder C B)) (axis n : ℕ)
        → Aligned flagged (sort_axes space sort flagged axis n)
    unfolding sort_axes
    sort_axes-Aligned flagged axis zero i bs e = absurd (ground (arith, e))
    sort_axes-Aligned flagged axis (suc n) i bs e =
        Aligned-cons flagged _ _ (keeps _ flagged) (sort_axes-Aligned flagged (axis + 1) n) i bs e

    length-sort_axes :
        (flagged : List (FlaggedBounder C B)) (axis n : ℕ)
        → length (sort_axes space sort flagged axis n) ≡ n
    unfolding sort_axes
    length-sort_axes flagged axis zero = refl
    length-sort_axes flagged axis (suc n) = ap suc (length-sort_axes flagged (axis + 1) n)

    pub sort_bounders-Aligned :
        (objects : List B)
        → Aligned
            (flagged_from space min_of max_of 0 objects)
            (sort_bounders space min_of max_of sort objects)
    unfolding sort_bounders
    sort_bounders-Aligned objects =
        sort_axes-Aligned (flagged_from space min_of max_of 0 objects) 0 space.axes

    pub length-sort_bounders :
        (objects : List B) → length (sort_bounders space min_of max_of sort objects) ≡ space.axes
    unfolding sort_bounders
    length-sort_bounders objects =
        length-sort_axes (flagged_from space min_of max_of 0 objects) 0 space.axes

    -- GroupBounders ends without a panic and leaves the objects of the slice, each as often as it
    -- was there, if there is an axis and the sort keeps the elements of a slice.
    pub group-members :
        (objects : List B)
        → 0 < space.axes
        → (out : List B) × (group space min_of max_of sort objects ≡ some out)
          × SameMembers out objects
    unfolding group
    group-members objects h =
        let flagged = flagged_from space min_of max_of 0 objects in
        let (out, flags, e, members) =
          group_bounders-members (suc (length objects)) flagged
            (sort_bounders space min_of max_of sort objects) (λ k. false)
            (omega (arith, length-flagged_from 0 objects))
            (omega (arith, h, length-sort_bounders objects)) (sort_bounders-Aligned objects)
            (flagged_from-IsUnique 0 objects) in
        (out, rw e refl, λ p. members p ∙ tally-flagged_from p 0 objects)
