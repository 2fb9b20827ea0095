-- ===== src/Bvh/Split.antt =====
-- model3d/bvh.go: splitBounders, over all of the axes.
use mathlib.Core.Path.{subst}
use model3d.Base.{
  ℕ, zero, suc, ◌+◌, ◌-◌, ◌≤◌, ◌≡◌, refl, ap, ◌∙◌, inl, inr, not, ◌&&◌, some, List, [], ◌∷◌, ◌++◌,
  map, arith, nat_beq, if◌then◌else◌, nat_beq_iff, nat_eq, Bool-cases, length, get_elem?, take,
  drop,
}
use model3d.Bvh.{FlaggedBounder, Flags, mark_first, separate, separate_axes, split_bounders}
use model3d.Bvh.Members.{
  tally, SameMembers, length-map, length-same, length-take, tally-keep, take-append, drop-append,
}
use model3d.Bvh.Separate.{IsUnique, tally-mark_first, tally-mark_rest, flagged, others, separate-eq}

module _ {C B : Type 0} where
  -- the lists of the axes have the same objects
  abbrev pub Aligned : List (FlaggedBounder C B) → List (List (FlaggedBounder C B)) → Type 0
  Aligned base sorted =
      (i : ℕ) (bs : List (FlaggedBounder C B)) → get_elem? sorted i ≡ some bs → SameMembers bs base

  pub Aligned-cons :
      (base bs : List (FlaggedBounder C B)) (sorted : List (List (FlaggedBounder C B)))
      → SameMembers bs base
      → Aligned base sorted
      → Aligned base (bs ∷ sorted)
  Aligned-cons base bs sorted same rest zero cs h =
      let e : bs ≡ cs = ground (arith, h) in subst (λ t. SameMembers t base) e same
  Aligned-cons base bs sorted same rest (suc i) cs h = rest i cs h

  pub IsUnique-same :
      (bs cs : List (FlaggedBounder C B)) → SameMembers bs cs → IsUnique cs → IsUnique bs
  IsUnique-same bs cs same u k = omega (arith, same (λ b. nat_beq b.address k), u k)

  -- the parts of one list, by the flags that the list along the axis gives
  separated_parts :
      (along : List (FlaggedBounder C B)) (mid_idx : ℕ) (flags : Flags)
      (bs : List (FlaggedBounder C B))
      → IsUnique along
      → mid_idx ≤ length along
      → SameMembers bs along
      → (sep : List (FlaggedBounder C B)) × (separate (mark_first mid_idx 0 along flags) mid_idx bs
          ≡ some sep)
        × SameMembers (take mid_idx sep) (take mid_idx along)
        × SameMembers (drop mid_idx sep) (drop mid_idx along)
  separated_parts along mid_idx flags bs u h same =
      let marked = mark_first mid_idx 0 along flags in
      let first = flagged marked bs in
      let second = others marked bs in
      let from_start : mid_idx - 0 ≡ mid_idx = omega arith in
      let below : SameMembers first (take mid_idx along) = λ p. omega (
        arith,
        tally-keep p (λ b. marked b.address) bs,
        same (λ b. marked b.address && p b),
        ap (λ n. tally p (take n along)) from_start,
        tally-mark_first p mid_idx 0 along flags u,
      ) in
      let above : SameMembers second (drop mid_idx along) = λ p. omega (
        arith,
        tally-keep p (λ b. not (marked b.address)) bs,
        same (λ b. not (marked b.address) && p b),
        ap (λ n. tally p (drop n along)) from_start,
        tally-mark_rest p mid_idx 0 along flags u,
      ) in
      let e : mid_idx ≡ length first =
        omega (arith, length-same first (take mid_idx along) below, length-take mid_idx along h) in
      (
        first ++ second,
        separate-eq marked mid_idx bs e,
        λ p. ap (tally p) (take-append mid_idx first second e) ∙ below p,
        λ p. ap (tally p) (drop-append mid_idx first second e) ∙ above p,
      )

  -- the list along the axis stays
  axis_parts :
      (along bs : List (FlaggedBounder C B)) (mid_idx axis new_axis : ℕ) (flags : Flags)
      → IsUnique along
      → mid_idx ≤ length along
      → SameMembers bs along
      → (new_axis ≡ axis → bs ≡ along)
      → (sep : List (FlaggedBounder C B)) × ((if nat_beq new_axis axis
            then some bs
            else separate (mark_first mid_idx 0 along flags) mid_idx bs)
          ≡ some sep)
        × SameMembers (take mid_idx sep) (take mid_idx along)
        × SameMembers (drop mid_idx sep) (drop mid_idx along)
  axis_parts along bs mid_idx axis new_axis flags u h same found =
      elim (Bool-cases (nat_beq new_axis axis)) [
        | inl e ↦
            let eq = found ((nat_beq_iff new_axis axis).0 e) in
            rw e (bs, refl, rw eq (λ p. refl), rw eq (λ p. refl))
        | inr ne ↦ rw ne (separated_parts along mid_idx flags bs u h same)
      ]

  separated_axes :
      (along : List (FlaggedBounder C B)) (mid_idx axis new_axis : ℕ) (flags : Flags)
      (sorted : List (List (FlaggedBounder C B)))
      → IsUnique along
      → mid_idx ≤ length along
      → Aligned along sorted
      → (new_axis ≤ axis → get_elem? sorted (axis - new_axis) ≡ some along)
      → (separated : List (List (FlaggedBounder C B))) × (separate_axes
            (mark_first mid_idx 0 along flags)
            axis
            mid_idx
            new_axis
            sorted
          ≡ some separated)
        × (length separated ≡ length sorted)
        × Aligned (take mid_idx along) (map (take mid_idx) separated)
        × Aligned (drop mid_idx along) (map (drop mid_idx) separated)
  unfolding separate_axes
  separated_axes along mid_idx axis new_axis flags [] u h all found =
      ([], refl, refl, λ i bs e. absurd (ground (arith, e)), λ i bs e. absurd (ground (arith, e)))
  separated_axes along mid_idx axis new_axis flags (bs ∷ sorted) u h all found =
      let (rest, rest_eq, rest_length, below, above) =
        separated_axes along mid_idx axis (new_axis + 1) flags sorted u h (λ i. all (suc i))
          (λ le.
            let e : axis - new_axis ≡ suc (axis - (new_axis + 1)) = omega arith in
            rw e at (found (omega arith))) in
      let (sep, sep_eq, first, second) =
        axis_parts along bs mid_idx axis new_axis flags u h (all 0 bs refl) (λ e.
          let first : axis - new_axis ≡ 0 = omega arith in
          ground (arith, rw first at (found (omega arith)))) in
      (
        sep ∷ rest,
        rw (sep_eq, rest_eq) refl,
        ap suc rest_length,
        Aligned-cons (take mid_idx along) (take mid_idx sep) (map (take mid_idx) rest) first below,
        Aligned-cons (drop mid_idx along) (drop mid_idx sep) (map (drop mid_idx) rest) second above,
      )

  -- splitBounders gives two parts along every axis: the objects before the middle of the given axis, and
  -- those from it on
  pub split_bounders-parts :
      (sorted : List (List (FlaggedBounder C B))) (axis mid_idx : ℕ) (flags : Flags)
      (along : List (FlaggedBounder C B))
      → get_elem? sorted axis ≡ some along
      → IsUnique along
      → mid_idx ≤ length along
      → Aligned along sorted
      → (first second : List (List (FlaggedBounder C B))) × (flags1 : Flags) × (split_bounders
            sorted axis mid_idx flags
          ≡ some (first, second, flags1))
        × (length first ≡ length sorted)
        × (length second ≡ length sorted)
        × Aligned (take mid_idx along) first
        × Aligned (drop mid_idx along) second
  unfolding split_bounders
  split_bounders-parts sorted axis mid_idx flags along found u h all =
      let from_start : axis - 0 ≡ axis = omega arith in
      let (sep, e, same_length, below, above) =
        separated_axes along mid_idx axis 0 flags sorted u h all (λ le. rw from_start found) in
      (
        map (take mid_idx) sep,
        map (drop mid_idx) sep,
        mark_first mid_idx 0 along flags,
        rw (found, e) refl,
        length-map (take mid_idx) sep ∙ same_length,
        length-map (drop mid_idx) sep ∙ same_length,
        below,
        above,
      )
