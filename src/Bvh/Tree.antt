-- ===== src/Bvh/Tree.antt =====
-- model3d/bvh.go: the calls of newBVH, and NewBVHAreaDensity as a whole.
use model3d.Base.{
  ℕ, zero, suc, ◌<◌, ◌≡◌, refl, ap, ◌∙◌, inl, inr, Bool, true, false, Option, some, List, [], ◌∷◌,
  ◌++◌, map, arith, ltb, nat_eq, Bool-cases, length, get_elem?, take, drop,
}
use model3d.Coords.{Float}
use model3d.Bvh.{
  BoxSpace, FlaggedBounder, Flags, Bvh, leaf, branch, Sorter, split_bounders, scores_of, new_branch,
  small_bvh, new_bvh, sort_bounders, flagged_from,
}
use model3d.Bvh.Members.{
  tally, SameMembers, length-map, tally-append, tally-take-drop, length-same, length-take,
  length-drop,
}
use model3d.Bvh.Separate.{IsUnique}
use model3d.Bvh.Split.{Aligned, IsUnique-same, split_bounders-parts}
use model3d.Bvh.Group.{
  on_object, IsUnique-take, IsUnique-drop, along_axis, Aligned-along, KeepsMembers,
  flagged_from-IsUnique, length-flagged_from, tally-flagged_from, sort_bounders-Aligned,
  length-sort_bounders,
}

-- the objects of a hierarchy, from left to right
abbrev pub leaves : {B : Type 0} → Bvh B → List B
leaves (leaf b) = b ∷ []
leaves (branch left right) = leaves left ++ leaves right

-- the axis chosen is one of the axes
abbrev pub ChoosesAxis : {C : Type 0} → BoxSpace C → Type 0
ChoosesAxis space =
    (scores : List Float) → length scores ≡ space.axes → space.choose_axis scores < space.axes

module _ {C B : Type 0} (space : BoxSpace C) where
  -- a splitter that leaves objects on both sides
  abbrev pub Splits : (List (FlaggedBounder C B) → Option (ℕ × Float)) → Type 0
  Splits splitter =
      (bs : List (FlaggedBounder C B))
      → 2 < length bs
      → (k : ℕ) × (score : Float) × (splitter bs ≡ some (k, score)) × (0 < k) × (k < length bs)

  module _ (splitter : List (FlaggedBounder C B) → Option (ℕ × Float)) (splits : Splits splitter)
      (chooses : ChoosesAxis space) (some_axis : 0 < space.axes) where
    -- the splitter's result on every axis
    scores_of-some :
        (base : List (FlaggedBounder C B)) (sorted : List (List (FlaggedBounder C B)))
        → 2 < length base
        → Aligned base sorted
        → (scores : List (ℕ × Float)) × (scores_of space splitter sorted ≡ some scores)
          × (length scores ≡ length sorted)
          × ((i : ℕ)
              → i < length sorted
              → (k : ℕ) × (score : Float) × (get_elem? scores i ≡ some (k, score))
                × (0 < k)
                × (k < length base))
    unfolding scores_of
    scores_of-some base [] h all = ([], refl, refl, λ i less. absurd (omega arith))
    scores_of-some base (bs ∷ sorted) h all =
        let same = length-same bs base (all 0 bs refl) in
        let (k, score, e, low, high) = splits bs (omega (arith, same)) in
        let (rest, rest_eq, rest_length, at) = scores_of-some base sorted h (λ i. all (suc i)) in
        (
          (k, score) ∷ rest,
          rw (e, rest_eq) refl,
          ap suc rest_length,
          pick rest k score low (omega (arith, same)) at,
        )
      where
        pick :
            (rest : List (ℕ × Float)) (k : ℕ) (score : Float)
            → 0 < k
            → k < length base
            → ((i : ℕ)
                → i < length sorted
                → (k : ℕ) × (score : Float) × (get_elem? rest i ≡ some (k, score))
                  × (0 < k)
                  × (k < length base))
            → (i : ℕ) → i < length (bs ∷ sorted)
            → (n : ℕ) × (s : Float) × (get_elem? ((k, score) ∷ rest) i ≡ some (n, s))
              × (0 < n)
              × (n < length base)
        pick rest k score low high at zero less = (k, score, refl, low, high)
        pick rest k score low high at (suc i) less = at i (omega arith)

    abbrev Builds :
        List (FlaggedBounder C B) → List (List (FlaggedBounder C B)) → ℕ → Flags → Type 0
    Builds base sorted depth flags =
        (t : Bvh B) × (flags1 : Flags) × (new_bvh space depth splitter sorted flags
          ≡ some (t, flags1))
        × ((p : B → Bool) → tally p (leaves t) ≡ tally (on_object p) base)

    new_branch-eq :
        (build : List (List (FlaggedBounder C B)) → Flags → Option (Bvh B × Flags))
        (sorted : List (List (FlaggedBounder C B))) (flags : Flags) (scores : List (ℕ × Float))
        (k : ℕ) (score : Float) (first second : List (List (FlaggedBounder C B))) (flags1 : Flags)
        (left right : Bvh B) (flags2 flags3 : Flags)
        → scores_of space splitter sorted ≡ some scores
        → get_elem? scores (space.choose_axis (map (λ s. s.1) scores)) ≡ some (k, score)
        → split_bounders sorted (space.choose_axis (map (λ s. s.1) scores)) k flags
          ≡ some (first, second, flags1)
        → build first flags1 ≡ some (left, flags2)
        → build second flags2 ≡ some (right, flags3)
        → new_branch space build splitter sorted flags ≡ some (branch left right, flags3)
    unfolding new_branch
    new_branch-eq build sorted flags scores k score first second flags1 left right flags2 flags3 a b
          c d e =
        rw (a, b, c, d, e) refl

    new_bvh-large :
        (r : Option (Bvh B × Flags)) (depth : ℕ) (bs : List (FlaggedBounder C B))
        (sorted : List (List (FlaggedBounder C B))) (flags : Flags)
        → ltb (length bs) 3 ≡ false
        → new_branch space (λ s fs. new_bvh space depth splitter s fs) splitter (bs ∷ sorted) flags
          ≡ r
        → new_bvh space (suc depth) splitter (bs ∷ sorted) flags ≡ r
    unfolding new_bvh
    new_bvh-large r depth bs sorted flags large e = rw large e

    small_bvh-leaves :
        (bs : List (FlaggedBounder C B)) (flags : Flags)
        → 0 < length bs
        → ltb (length bs) 3 ≡ true
        → (t : Bvh B) × (small_bvh space bs flags ≡ some (t, flags))
          × ((p : B → Bool) → tally p (leaves t) ≡ tally (on_object p) bs)
    unfolding small_bvh
    small_bvh-leaves [] flags h small = absurd (omega arith)
    small_bvh-leaves (b ∷ []) flags h small = (leaf b.object, refl, λ p. refl)
    small_bvh-leaves (b ∷ c ∷ []) flags h small =
        (branch (leaf b.object) (leaf c.object), refl, λ p. ground arith)
    small_bvh-leaves (b ∷ c ∷ d ∷ bs) flags h small = absurd (ground (arith, small))

    -- the two parts of the objects, with the lists of their axes
    split_along :
        (base : List (FlaggedBounder C B)) (sorted : List (List (FlaggedBounder C B)))
        (flags : Flags)
        → 2 < length base
        → length sorted ≡ space.axes
        → Aligned base sorted
        → IsUnique base
        → (scores : List (ℕ × Float)) × (k : ℕ) × (score : Float) × (first second : List
            (List (FlaggedBounder C B)))
          × (flags1 : Flags) × (along : List (FlaggedBounder C B)) × (scores_of space splitter
                sorted
              ≡ some scores)
          × (get_elem? scores (space.choose_axis (map (λ s. s.1) scores)) ≡ some (k, score))
          × (split_bounders sorted (space.choose_axis (map (λ s. s.1) scores)) k flags
              ≡ some (first, second, flags1))
          × (length first ≡ length sorted)
          × (length second ≡ length sorted)
          × Aligned (take k along) first
          × Aligned (drop k along) second
          × (0 < k)
          × (k < length along)
          × SameMembers along base
          × IsUnique along
    split_along base sorted flags three axes all u =
        let (scores, scores_eq, scores_length, at) = scores_of-some base sorted three all in
        let inside : space.choose_axis (map (λ s. s.1) scores) < length sorted = omega (
          arith,
          axes,
          chooses (map (λ s. s.1) scores) (length-map (λ s. s.1) scores ∙ scores_length ∙ axes),
        ) in
        let (k, score, best, low, high) = at (space.choose_axis (map (λ s. s.1) scores)) inside in
        let (along, found, same) =
          along_axis base sorted (space.choose_axis (map (λ s. s.1) scores)) inside all in
        let along_length = length-same along base same in
        let along_u = IsUnique-same along base same u in
        let (first, second, flags1, split_eq, n1, n2, below, above) =
          split_bounders-parts sorted (space.choose_axis (map (λ s. s.1) scores)) k flags along
            found along_u (omega (arith, along_length))
            (Aligned-along base along sorted same all) in
        (
          scores,
          k,
          score,
          first,
          second,
          flags1,
          along,
          scores_eq,
          best,
          split_eq,
          n1,
          n2,
          below,
          above,
          low,
          omega (arith, along_length),
          same,
          along_u,
        )

    -- the branch, from what the calls of newBVH do with shorter lists
    new_branch-leaves :
        (depth : ℕ) (base : List (FlaggedBounder C B)) (sorted : List (List (FlaggedBounder C B)))
        (flags : Flags)
        → length base < suc depth
        → 2 < length base
        → length sorted ≡ space.axes
        → Aligned base sorted
        → IsUnique base
        → ((part : List (FlaggedBounder C B)) (lists : List (List (FlaggedBounder C B)))
              (fs : Flags)
            → length part < depth
            → 0 < length part
            → length lists ≡ space.axes
            → Aligned part lists
            → IsUnique part
            → Builds part lists depth fs)
        → (t : Bvh B) × (flags1 : Flags) × (new_branch space
              (λ s fs. new_bvh space depth splitter s fs)
              splitter
              sorted
              flags
            ≡ some (t, flags1))
          × ((p : B → Bool) → tally p (leaves t) ≡ tally (on_object p) base)
    new_branch-leaves depth base sorted flags d three axes all u build =
        let (
          scores, k, score, first, second, flags1, along, scores_eq, best, split_eq, n1, n2, below,
          above, low, high, same, along_u,
        ) =
          split_along base sorted flags three axes all u in
        let along_length = length-same along base same in
        let (left, flags2, eq1, members1) =
          build (take k along) first flags1 (omega (arith, length-take k along, along_length))
            (omega (arith, length-take k along)) (n1 ∙ axes) below
            (IsUnique-take k along along_u) in
        let (right, flags3, eq2, members2) =
          build (drop k along) second flags2 (omega (arith, length-drop k along, along_length))
            (omega (arith, length-drop k along)) (n2 ∙ axes) above
            (IsUnique-drop k along along_u) in
        (
          branch left right,
          flags3,
          new_branch-eq (λ s fs. new_bvh space depth splitter s fs) sorted flags scores k score
              first second flags1 left right flags2 flags3 scores_eq best split_eq eq1 eq2,
          λ p. omega (
            arith,
            tally-append p (leaves left) (leaves right),
            members1 p,
            members2 p,
            tally-take-drop (on_object p) k along,
            same (on_object p),
          ),
        )

    new_bvh-leaves :
        (depth : ℕ) (base : List (FlaggedBounder C B)) (sorted : List (List (FlaggedBounder C B)))
        (flags : Flags)
        → length base < depth
        → 0 < length base
        → length sorted ≡ space.axes
        → Aligned base sorted
        → IsUnique base
        → Builds base sorted depth flags
    unfolding new_bvh
    new_bvh-leaves zero base sorted flags d m axes all u = absurd (omega arith)
    new_bvh-leaves (suc depth) base [] flags d m axes all u =
        absurd (omega (arith, some_axis, axes))
    new_bvh-leaves (suc depth) base (bs ∷ sorted) flags d m axes all u =
        let same : length bs ≡ length base = length-same bs base (all 0 bs refl) in
        elim (Bool-cases (ltb (length bs) 3)) [
          | inl small ↦
              let (t, e, members) = small_bvh-leaves bs flags (omega (arith, same)) small in
              (t, flags, rw small e, λ p. members p ∙ all 0 bs refl (on_object p))
          | inr large ↦
              let (t, flags1, e, members) =
                new_branch-leaves depth base (bs ∷ sorted) flags d (ground (arith, large, same))
                  axes all u (λ part lists fs. new_bvh-leaves depth part lists fs) in
              (t, flags1, new_bvh-large (some (t, flags1)) depth bs sorted flags large e, members)
        ]

    -- NewBVHAreaDensity, for any splitter
    pub new_bvh-objects :
        (min_of max_of : B → C) (sort : Sorter C B)
        → KeepsMembers space sort
        → (objects : List B) → 0 < length objects
        → (t : Bvh B) × (flags : Flags) × (new_bvh space
              (suc (length objects))
              splitter
              (sort_bounders space min_of max_of sort objects)
              (λ k. false)
            ≡ some (t, flags))
          × SameMembers (leaves t) objects
    new_bvh-objects min_of max_of sort keeps objects h =
        let flagged = flagged_from space min_of max_of 0 objects in
        let sorted = sort_bounders space min_of max_of sort objects in
        let same = length-flagged_from space min_of max_of sort keeps 0 objects in
        let axes = length-sort_bounders space min_of max_of sort keeps objects in
        let (t, flags, e, members) =
          new_bvh-leaves (suc (length objects)) flagged sorted (λ k. false) (omega (arith, same))
            (omega (arith, same)) axes
            (sort_bounders-Aligned space min_of max_of sort keeps objects)
            (flagged_from-IsUnique space min_of max_of sort keeps 0 objects) in
        (
          t,
          flags,
          e,
          λ p. members p ∙ tally-flagged_from space min_of max_of sort keeps p 0 objects,
        )
