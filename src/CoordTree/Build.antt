-- ===== src/CoordTree/Build.antt =====
-- model3d/coord_tree.go: the flags and the two branches of newCoordTreeSorted.
use mathlib.Core.Path.{subst}
use model3d.Base.{
  ℕ, zero, suc, ◌+◌, ◌≤◌, ◌<◌, ◌≡◌, refl, ap, ◌∙◌, inl, inr, Bool, true, false, not, ◌&&◌, some,
  List, [], ◌∷◌, map, arith, ltb, nat_beq, if◌then◌else◌, Eq, ◌==◌, nat_eq, Bool-cases, ==_refl,
  length, get_elem?, to_nat, count,
}
use model3d.Coords.{Float}
use model3d.CoordTree.{Space, FlaggedCoord, Flags, flagged_eq, put_flag, set_flags, branch}

module _ {A : Type 0} ⦃e : Eq A⦄ where
  -- a value that stands in a list
  abbrev pub IsIn : A → List A → Type 0
  IsIn a xs = 0 < count a xs

  pub IsIn-get :
      (xs : List A) (i : ℕ) → i < length xs → (a : A) × (get_elem? xs i ≡ some a) × IsIn a xs
  IsIn-get [] i h = absurd (omega arith)
  IsIn-get (x ∷ xs) zero h = (x, refl, ground (arith, ==_refl x))
  IsIn-get (x ∷ xs) (suc i) h =
      let (a, found, there) = IsIn-get xs i (omega arith) in (a, found, omega (arith, there))

  pub length-IsIn : (a : A) (xs : List A) → IsIn a xs → 0 < length xs
  length-IsIn a [] h = absurd (omega (arith, h))
  length-IsIn a (x ∷ xs) h = omega arith

module _ {C : Type 0} ⦃e : Eq C⦄ (space : Space C) where
  -- how often an address stands in a list
  abbrev pub at_address : ℕ → List (FlaggedCoord C) → ℕ
  at_address k [] = 0
  at_address k (c ∷ cs) = to_nat (nat_beq c.address k) + at_address k cs

  -- every address stands for one point
  abbrev pub IsUnique : List (FlaggedCoord C) → Type 0
  IsUnique cs = (k : ℕ) → at_address k cs ≤ 1

  pub at_address-pos :
      (c : FlaggedCoord C) (cs : List (FlaggedCoord C)) → IsIn c cs → 0 < at_address c.address cs
  at_address-pos c [] h = absurd (omega (arith, h))
  at_address-pos c (d ∷ cs) h = ground (arith, at_address-pos c cs, e.beq_iff d.coord c.coord)

  -- the flag that the loop gives
  abbrev pub mark : ℕ → Float → FlaggedCoord C → Bool
  mark axis v c = not (ltb (space.array c.coord axis) v)

  set_flags-other :
      (axis : ℕ) (v : Float) (cs : List (FlaggedCoord C)) (flags : Flags) (k : ℕ)
      → at_address k cs ≡ 0
      → set_flags space axis v cs flags k ≡ flags k
  unfolding set_flags put_flag
  set_flags-other axis v [] flags k h = refl
  set_flags-other axis v (c ∷ cs) flags k h =
      let other : nat_beq c.address k ≡ false = ground (arith, h) in
      set_flags-other axis v cs _ k (omega (arith, h)) ∙ rw other refl

  pub set_flags-eq :
      (axis : ℕ) (v : Float) (cs : List (FlaggedCoord C)) (flags : Flags) (c : FlaggedCoord C)
      → IsUnique cs
      → IsIn c cs
      → set_flags space axis v cs flags c.address ≡ mark axis v c
  unfolding set_flags put_flag
  set_flags-eq axis v [] flags c u h = absurd (omega (arith, h))
  set_flags-eq axis v (d ∷ cs) flags c u h = elim (Bool-cases (d == c)) [
    | inl same ↦
        let eq = (flagged_eq.beq_iff d c).0 same in
        subst
          (λ (t : FlaggedCoord C). set_flags space axis v (d ∷ cs) flags t.address ≡ mark axis v t)
          eq
          (set_flags-other axis v cs _ d.address (here d (u d.address))
            ∙ rw (same_address d.address) refl)
    | inr other ↦
        set_flags-eq axis v cs _ c (λ k. omega (arith, u k)) (omega (arith, rw other at h))
  ]
    where
      same_address : (k : ℕ) → nat_beq k k ≡ true
      same_address k = ground arith

      here : (d : FlaggedCoord C) → at_address d.address (d ∷ cs) ≤ 1 → at_address d.address cs ≡ 0
      here d h = ground (arith, h)

  pub at_address-branch :
      (flags : Flags) (split k : ℕ) (side : Bool) (cs : List (FlaggedCoord C))
      → at_address k (branch space flags split side cs) ≤ at_address k cs
  unfolding branch
  at_address-branch flags split k side [] = omega arith
  at_address-branch flags split k side (c ∷ cs) =
      ground (arith, at_address-branch flags split k side cs)

  -- a coordinate of a branch is one of the list, on the side of its flag, and not the one at the split
  pub count-branch :
      (flags : Flags) (split : ℕ) (side : Bool) (cs : List (FlaggedCoord C)) (c : FlaggedCoord C)
      → count c (branch space flags split side cs) ≡ (
          if nat_beq c.address split
          then 0
          else if flags c.address
          then if side then count c cs else 0
          else if side
          then 0
          else count c cs)
  unfolding branch
  count-branch flags split side [] c = ground arith
  count-branch flags split side (d ∷ cs) c = elim (Bool-cases (d == c)) [
    | inl same ↦
        let eq = (flagged_eq.beq_iff d c).0 same in
        ground (
          arith,
          count-branch flags split side cs c,
          ap (λ t. t.address) eq,
          ap (λ t. flags t.address) eq,
        )
    | inr other ↦ ground (arith, count-branch flags split side cs c, other)
  ]

  pub length-branches :
      (flags : Flags) (split : ℕ) (cs : List (FlaggedCoord C))
      → (length (branch space flags split false cs) + length (branch space flags split true cs))
          + at_address split cs
        ≡ length cs
  unfolding branch
  length-branches flags split [] = omega arith
  length-branches flags split (c ∷ cs) = ground (arith, length-branches flags split cs)

  abbrev pub points_of : List (FlaggedCoord C) → List C
  points_of = map (λ c. c.coord)

  -- the points at an address
  abbrev pub points_at : ℕ → C → List (FlaggedCoord C) → ℕ
  points_at k p [] = 0
  points_at k p (c ∷ cs) = to_nat (nat_beq c.address k && (c.coord == p)) + points_at k p cs

  count-branches :
      (flags : Flags) (split : ℕ) (p : C) (cs : List (FlaggedCoord C))
      → (count p (points_of (branch space flags split false cs))
            + count p (points_of (branch space flags split true cs)))
          + points_at split p cs
        ≡ count p (points_of cs)
  unfolding branch
  count-branches flags split p [] = omega arith
  count-branches flags split p (c ∷ cs) = ground (arith, count-branches flags split p cs)

  points_at-none :
      (k : ℕ) (p : C) (cs : List (FlaggedCoord C)) → at_address k cs ≡ 0 → points_at k p cs ≡ 0
  points_at-none k p [] h = refl
  points_at-none k p (c ∷ cs) h = ground (arith, points_at-none k p cs, h)

  points_at-eq :
      (c : FlaggedCoord C) (p : C) (cs : List (FlaggedCoord C))
      → IsUnique cs
      → IsIn c cs
      → points_at c.address p cs ≡ to_nat (c.coord == p)
  points_at-eq c p [] u h = absurd (omega (arith, h))
  points_at-eq c p (d ∷ cs) u h = elim (Bool-cases (d == c)) [
    | inl same ↦
        let eq = (flagged_eq.beq_iff d c).0 same in
        ground (
          arith,
          ap (λ t. t.address) eq,
          ap (λ t. t.coord == p) eq,
          points_at-none c.address p cs,
          u c.address,
        )
    | inr other ↦
        let later : IsIn c cs = omega (arith, rw other at h) in
        ground (
          arith,
          points_at-eq c p cs (λ k. omega (arith, u k)) later,
          at_address-pos c cs later,
          u c.address,
        )
  ]

  -- the two branches and the split point are all of the points
  pub branches-count :
      (flags : Flags) (split : FlaggedCoord C) (p : C) (cs : List (FlaggedCoord C))
      → IsUnique cs
      → IsIn split cs
      → (count p (points_of (branch space flags split.address false cs))
            + count p (points_of (branch space flags split.address true cs)))
          + to_nat (split.coord == p)
        ≡ count p (points_of cs)
  branches-count flags split p cs u h =
      omega (arith, count-branches flags split.address p cs, points_at-eq split p cs u h)

  -- a point of a list belongs to a coordinate of it
  pub points-IsIn :
      (p : C) (cs : List (FlaggedCoord C))
      → IsIn p (points_of cs)
      → (c : FlaggedCoord C) × IsIn c cs × (c.coord ≡ p)
  points-IsIn p [] h = absurd (omega (arith, h))
  points-IsIn p (c ∷ cs) h = elim (Bool-cases (c.coord == p)) [
    | inl same ↦ (c, ground (arith, ==_refl c), (e.beq_iff c.coord p).0 same)
    | inr other ↦
        let (d, there, eq) = points-IsIn p cs (omega (arith, rw other at h)) in
        (d, omega (arith, there), eq)
  ]
