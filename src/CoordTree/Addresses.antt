-- ===== src/CoordTree/Addresses.antt =====
-- model3d/coord_tree.go: the addresses of the coordinates, and the points that NewCoordTree is given.
use model3d.Base.{
  ℕ, suc, ◌≤◌, ◌<◌, ◌≡◌, refl, sym, ap, ◌∙◌, inl, inr, true, List, [], ◌∷◌, arith, ltb, nat_beq, Eq,
  ◌==◌, nat_eq, Bool-cases, ==_refl, count,
}
use model3d.CoordTree.{Space, FlaggedCoord, flagged_beq, flagged_eq, flagged_from}
use model3d.CoordTree.Build.{IsIn, at_address, IsUnique, at_address-pos, points_of}

module _ {C : Type 0} ⦃e : Eq C⦄ (space : Space C) where
  count-at_address :
      (c : FlaggedCoord C) (cs : List (FlaggedCoord C)) → count c cs ≤ at_address space c.address cs
  count-at_address c [] = omega arith
  count-at_address c (d ∷ cs) = ground (arith, count-at_address c cs)

  -- one address stands for one coordinate
  one_coord :
      (c d : FlaggedCoord C) (cs : List (FlaggedCoord C))
      → IsUnique space cs
      → IsIn c cs
      → IsIn d cs
      → c.address ≡ d.address
      → c ≡ d
  one_coord c d [] u h g same = absurd (omega (arith, h))
  one_coord c d (f ∷ cs) u h g same = elim (Bool-cases (f == c)) [
    | inl first ↦ elim (Bool-cases (f == d)) [
      | inl also ↦ sym ((flagged_eq.beq_iff f c).0 first) ∙ (flagged_eq.beq_iff f d).0 also
      | inr other ↦
          let later : IsIn d cs = omega (arith, rw other at g) in
          absurd (
            ground (
              arith,
              at_address-pos space d cs later,
              u d.address,
              ap (λ t. t.address) ((flagged_eq.beq_iff f c).0 first),
              same,
            ))
    ]
    | inr other ↦
        let c_later : IsIn c cs = omega (arith, rw other at h) in
        elim (Bool-cases (f == d)) [
          | inl first ↦ absurd (
              ground (
                arith,
                at_address-pos space c cs c_later,
                u c.address,
                ap (λ t. t.address) ((flagged_eq.beq_iff f d).0 first),
                same,
              ))
          | inr also ↦
              one_coord c d cs (λ k. omega (arith, u k)) c_later (omega (arith, rw also at g)) same
        ]
  ]

  at_address-some :
      (k : ℕ) (cs : List (FlaggedCoord C))
      → 0 < at_address space k cs
      → (c : FlaggedCoord C) × IsIn c cs × (c.address ≡ k)
  at_address-some k [] h = absurd (omega (arith, h))
  at_address-some k (c ∷ cs) h = elim (Bool-cases (nat_beq c.address k)) [
    | inl same ↦ (c, ground (arith, ==_refl c), ground arith)
    | inr other ↦
        let (d, there, eq) = at_address-some k cs (omega (arith, rw other at h)) in
        (d, omega (arith, there), eq)
  ]

  from_counts :
      (cs : List (FlaggedCoord C))
      → ((c d : FlaggedCoord C) → IsIn c cs → IsIn d cs → c.address ≡ d.address → c ≡ d)
      → ((c : FlaggedCoord C) → count c cs ≤ 1)
      → IsUnique space cs
  from_counts [] one once k = omega arith
  from_counts (c ∷ cs) one once k =
      let rest =
        from_counts cs (λ d f h g. one d f (omega (arith, h)) (omega (arith, g)))
          (λ d. omega (arith, once d)) k in
      elim (Bool-cases (nat_beq c.address k)) [
        | inr other ↦ rw other (omega (arith, rest))
        | inl same ↦ elim (Bool-cases (ltb 0 (at_address space k cs))) [
          | inr none_left ↦ rw same (ground (arith, none_left))
          | inl again ↦
              let (d, there, eq) = at_address-some k cs (ground (arith, again)) in
              let e_cd =
                one c d (ground (arith, ==_refl c)) (omega (arith, there))
                  (ground (arith, same, eq)) in
              let beq : flagged_beq c d ≡ true = (flagged_eq.beq_iff c d).1 e_cd in
              absurd (omega (arith, rw beq at (once d), there))
        ]
      ]

  -- a list with the same coordinates
  pub counts-IsUnique :
      (cs ds : List (FlaggedCoord C))
      → IsUnique space cs
      → ((c : FlaggedCoord C) → count c ds ≡ count c cs)
      → IsUnique space ds
  counts-IsUnique cs ds u same =
      from_counts ds
        (λ c d h g. one_coord c d cs u (omega (arith, same c, h)) (omega (arith, same d, g)))
        (λ c. omega (arith, same c, count-at_address c cs, u c.address))

  at_address-low :
      (k n : ℕ) (points : List C) → k < n → at_address space k (flagged_from space n points) ≡ 0
  unfolding flagged_from
  at_address-low k n [] h = refl
  at_address-low k n (p ∷ points) h =
      ground (arith, at_address-low k (suc n) points (omega (arith, h)))

  pub flagged_from-IsUnique :
      (n : ℕ) (points : List C) → IsUnique space (flagged_from space n points)
  unfolding flagged_from
  flagged_from-IsUnique n [] k = omega arith
  flagged_from-IsUnique n (p ∷ points) k = elim (Bool-cases (nat_beq n k)) [
    | inl same ↦ rw same (omega (arith, at_address-low k (suc n) points (ground (arith, same))))
    | inr other ↦ rw other (omega (arith, flagged_from-IsUnique (suc n) points k))
  ]

  pub points_of-flagged :
      (n : ℕ) (points : List C) → points_of space (flagged_from space n points) ≡ points
  unfolding flagged_from
  points_of-flagged n [] = refl
  points_of-flagged n (p ∷ points) = ap (λ ps. p ∷ ps) (points_of-flagged (suc n) points)
