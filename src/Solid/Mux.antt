-- ===== src/Solid/Mux.antt =====
-- model3d/solid.go: the tree of a SolidMux, and its walks.
use model3d.Base.{
  ℕ, zero, suc, ◌+◌, ◌/◌, ◌≤◌, ◌<◌, ◌≡◌, refl, sym, ap, ◌∙◌, inl, inr, Bool, true, false, not, ◌||◌,
  Option, some, List, [], ◌∷◌, ◌++◌, arith, nat_beq, if◌then◌else◌, Eq, nat_eq, Bool-cases, length,
  take, drop,
}
use model3d.Bvh.Members.{tally, tally-take-drop, length-take, length-drop}
use model3d.Solid.{
  SolidSpace, Solid, SolidMux, one_solid, many_solids, in_bounds, joined_min, joined_max,
  joined_contains, one_solid_mux, mux_halves, grouped_solids_to_solid_mux, total_solids,
  mux_contains, iter_contains,
}
use model3d.Solid.Boxes.{LatticeLaws}
use model3d.Solid.Lawful.{
  IsLawful, AllLawful, AllLawful-here, joined_contains-tally, joined_solid-IsLawful,
}
use model3d.Solid.Grouped.{take-drop, AllLawful-part, joined_contains-append}

module _ {C : Type 0} where
  -- each solid with its index
  abbrev pub zip : List (Solid C) → List ℕ → List (Solid C × ℕ)
  zip [] indices = []
  zip (s ∷ ss) [] = []
  zip (s ∷ ss) (i ∷ indices) = (s, i) ∷ zip ss indices

  -- the walk over all of the solids, one by one
  abbrev pub iter_all : {S : Type 0} → List (Solid C × ℕ) → C → (ℕ → S → S) → S → ℕ × S
  iter_all [] c f st = (0, st)
  iter_all ((s, i) ∷ pairs) c f st =
      if s.contains c
      then (let (n, st1) = iter_all pairs c f (f i st) in (1 + n, st1))
      else iter_all pairs c f st

  pub iter_all-append :
      {S : Type 0} (ps qs : List (Solid C × ℕ)) (c : C) (f : ℕ → S → S) (st : S)
      → iter_all (ps ++ qs) c f st ≡ (
        (iter_all ps c f st).0 + (iter_all qs c f (iter_all ps c f st).1).0,
        (iter_all qs c f (iter_all ps c f st).1).1,
      )
  iter_all-append [] qs c f st =
      let e : (iter_all qs c f st).0 ≡ 0 + (iter_all qs c f st).0 = omega arith in
      ap (λ n. (n, (iter_all qs c f st).1)) e
  iter_all-append ((s, i) ∷ ps) qs c f st = elim (Bool-cases (s.contains c)) [
    | inl inside ↦
        let here = iter_all ps c f (f i st) in
        let later = iter_all qs c f here.1 in
        let assoc : 1 + (here.0 + later.0) ≡ (1 + here.0) + later.0 = omega arith in
        rw inside (
          ap (λ r. (1 + r.0, r.1)) (iter_all-append ps qs c f (f i st))
          ∙ ap (λ n. (n, later.1)) assoc)
    | inr outside ↦ rw outside (iter_all-append ps qs c f st)
  ]

  pub iter_all-none :
      {S : Type 0} (ps : List (Solid C × ℕ)) (c : C) (f : ℕ → S → S) (st : S)
      → tally (λ p. (p.0).contains c) ps ≡ 0
      → iter_all ps c f st ≡ (0, st)
  iter_all-none [] c f st h = refl
  iter_all-none ((s, i) ∷ ps) c f st h =
      let outside : s.contains c ≡ false = ground (arith, h) in
      rw outside (iter_all-none ps c f st (rw outside at h))

  pub zip-take :
      (n : ℕ) (ss : List (Solid C)) (indices : List ℕ)
      → zip (take n ss) (take n indices) ++ zip (drop n ss) (drop n indices) ≡ zip ss indices
  zip-take zero ss indices = refl
  zip-take (suc n) [] indices = refl
  zip-take (suc n) (s ∷ ss) [] = zip-nil (drop n ss)
    where
      zip-nil : (ts : List (Solid C)) → zip ts [] ≡ []
      zip-nil [] = refl
      zip-nil (t ∷ ts) = refl
  zip-take (suc n) (s ∷ ss) (i ∷ indices) = ap (λ t. (s, i) ∷ t) (zip-take n ss indices)

  pub tally-zip :
      (q : Solid C → Bool) (ss : List (Solid C)) (indices : List ℕ)
      → length indices ≡ length ss
      → tally (λ p. q p.0) (zip ss indices) ≡ tally q ss
  tally-zip q [] indices h = refl
  tally-zip q (s ∷ ss) [] h = absurd (omega arith)
  tally-zip q (s ∷ ss) (i ∷ indices) h = ground (arith, tally-zip q ss indices)

either : (a b : Bool) → (if a then true else if b then true else false) ≡ (a || b)
either a b = ground arith

module _ {C : Type 0} ⦃e : Eq C⦄ (space : SolidSpace C) (laws : LatticeLaws space) where
  -- a tree for some solids with their indices
  abbrev pub IsMux : List (Solid C) → List ℕ → SolidMux C → Type 1
  IsMux solids indices m =
      (total_solids space m ≡ length solids)
      × ((c : C) → mux_contains space m c ≡ joined_contains space solids c)
      × ((S : Type 0) (c : C) (f : ℕ → S → S) (st : S)
          → iter_contains space m c f st ≡ iter_all (zip solids indices) c f st)

  one_solid_mux-IsMux :
      (s : Solid C) (i : ℕ)
      → IsLawful space s
      → (m : SolidMux C) × (one_solid_mux space (s ∷ []) (i ∷ []) ≡ some m)
        × IsMux (s ∷ []) (i ∷ []) m
  unfolding one_solid_mux total_solids mux_contains joined_contains iter_contains
  one_solid_mux-IsMux s i lawful = (
    one_solid (record { min_val = s.min; max_val = s.max }) s i,
    refl,
    (refl, λ c. ground (arith, lawful c), λ S c f st. walk_one c f st),
  )
    where
      walk_one :
          {S : Type 0} (c : C) (f : ℕ → S → S) (st : S)
          → ◌≡◌ {A = ℕ × S}
              (if not (in_bounds space s.min s.max c)
                then (0, st)
                else if s.contains c
                then (1, f i st)
                else (0, st))
              (if s.contains c then (1, f i st) else (0, st))
      walk_one c f st = elim (Bool-cases (s.contains c)) [
        | inl inside ↦ rw (inside, lawful c inside) refl
        | inr outside ↦ elim (Bool-cases (in_bounds space s.min s.max c)) [
          | inl near ↦ rw (outside, near) refl
          | inr far ↦ rw (outside, far) refl
        ]
      ]

  -- two trees below the box of all of their solids
  many_solids-IsMux :
      (solids : List (Solid C)) (indices : List ℕ) (n : ℕ) (first second : SolidMux C) (j : Solid C)
      → length indices ≡ length solids
      → ((c : C) → j.contains c ≡ joined_contains space solids c)
      → IsLawful space j
      → IsMux (take n solids) (take n indices) first
      → IsMux (drop n solids) (drop n indices) second
      → IsMux solids indices
          (many_solids (record { min_val = j.min; max_val = j.max }) (length solids) first second)
  unfolding total_solids mux_contains iter_contains
  many_solids-IsMux solids indices n first second j same_length same lawful
        (total1, contains1, iter1) (total2, contains2, iter2) =
      (
        refl,
        λ c. elim (Bool-cases (in_bounds space j.min j.max c)) [
          | inl near ↦
              rw (near, contains1 c, contains2 c)
                (either (joined_contains space (take n solids) c)
                    (joined_contains space (drop n solids) c)
                  ∙ sym (joined_contains-append space laws (take n solids) (drop n solids) c)
                  ∙ ap (λ ss. joined_contains space ss c) (take-drop n solids))
          | inr far ↦ rw far (sym (none_inside c far))
        ],
        λ S c f st. elim (Bool-cases (in_bounds space j.min j.max c)) [
          | inl near ↦
              rw (near, iter1 S c f st)
                (rw (iter2 S c f (iter_all (zip (take n solids) (take n indices)) c f st).1) (
                  sym (
                    iter_all-append (zip (take n solids) (take n indices))
                      (zip (drop n solids) (drop n indices)) c f st)
                  ∙ ap (λ ps. iter_all ps c f st) (zip-take n solids indices)))
          | inr far ↦ rw far (
              sym (
                iter_all-none (zip solids indices) c f st (
                  tally-zip (λ s. s.contains c) solids indices same_length
                  ∙ ground (arith, none_inside c far, joined_contains-tally space solids c))))
        ],
      )
    where
      none_inside :
          (c : C) → in_bounds space j.min j.max c ≡ false → joined_contains space solids c ≡ false
      none_inside c far = ground (arith, far, lawful c, same c)

  mux_halves-eq :
      (build : List (Solid C) → List ℕ → Option (SolidMux C)) (solids : List (Solid C))
      (indices : List ℕ) (lo hi : C) (first second : SolidMux C)
      → joined_min space solids ≡ some lo
      → joined_max space solids ≡ some hi
      → build (take (length solids / 2) solids) (take (length solids / 2) indices) ≡ some first
      → build (drop (length solids / 2) solids) (drop (length solids / 2) indices) ≡ some second
      → mux_halves space build solids indices
        ≡ some (many_solids (record { min_val = lo; max_val = hi }) (length solids) first second)
  unfolding mux_halves
  mux_halves-eq build solids indices lo hi first second h k l m = rw (h, k, l, m) refl

  grouped_solids_to_solid_mux-many :
      (depth : ℕ) (s u : Solid C) (ss : List (Solid C)) (indices : List ℕ) (r : Option (SolidMux C))
      → mux_halves space
          (λ ts is. grouped_solids_to_solid_mux space depth ts is)
          (s ∷ u ∷ ss)
          indices
        ≡ r
      → grouped_solids_to_solid_mux space (suc depth) (s ∷ u ∷ ss) indices ≡ r
  unfolding grouped_solids_to_solid_mux
  grouped_solids_to_solid_mux-many depth s u ss indices r h =
      let many : nat_beq (length (s ∷ u ∷ ss)) 1 ≡ false = ground arith in rw many h

  pub grouped_solids_to_solid_mux-IsMux :
      (depth : ℕ) (solids : List (Solid C)) (indices : List ℕ)
      → length solids < depth
      → 0 < length solids
      → length indices ≡ length solids
      → AllLawful space solids
      → (m : SolidMux C) × (grouped_solids_to_solid_mux space depth solids indices ≡ some m)
        × IsMux solids indices m
  unfolding grouped_solids_to_solid_mux
  grouped_solids_to_solid_mux-IsMux zero solids indices d h same all = absurd (omega arith)
  grouped_solids_to_solid_mux-IsMux (suc depth) [] indices d h same all = absurd (omega arith)
  grouped_solids_to_solid_mux-IsMux (suc depth) (s ∷ []) [] d h same all = absurd (omega arith)
  grouped_solids_to_solid_mux-IsMux (suc depth) (s ∷ []) (i ∷ []) d h same all =
      one_solid_mux-IsMux s i (AllLawful-here space s [] all)
  grouped_solids_to_solid_mux-IsMux (suc depth) (s ∷ []) (i ∷ k ∷ indices) d h same all =
      absurd (omega arith)
  grouped_solids_to_solid_mux-IsMux (suc depth) (s ∷ u ∷ ss) indices d h same all =
      let solids = s ∷ u ∷ ss in
      let n = length solids / 2 in
      let half : n ≤ length solids = omega arith in
      let below : (p : Solid C → Bool) → tally p (take n solids) ≤ tally p solids =
        λ p. omega (arith, tally-take-drop p n solids) in
      let above : (p : Solid C → Bool) → tally p (drop n solids) ≤ tally p solids =
        λ p. omega (arith, tally-take-drop p n solids) in
      let (first, first_eq, first_mux) =
        grouped_solids_to_solid_mux-IsMux depth (take n solids) (take n indices)
          (omega (arith, length-take n solids half)) (omega (arith, length-take n solids half))
          (omega (arith, length-take n solids half, length-take n indices, same))
          (AllLawful-part space laws (take n solids) solids below all) in
      let (second, second_eq, second_mux) =
        grouped_solids_to_solid_mux-IsMux depth (drop n solids) (drop n indices)
          (omega (arith, length-drop n solids)) (omega (arith, length-drop n solids))
          (omega (arith, length-drop n solids, length-drop n indices, same))
          (AllLawful-part space laws (drop n solids) solids above all) in
      let (j, j_eq, lo, hi, j_same, lawful) =
        joined_solid-IsLawful space laws solids (omega arith) all in
      (
        many_solids (record { min_val = j.min; max_val = j.max }) (length solids) first second,
        grouped_solids_to_solid_mux-many depth s u ss indices
            (some (
              many_solids (record { min_val = j.min; max_val = j.max }) (length solids) first
                second))
            (mux_halves-eq (λ ts is. grouped_solids_to_solid_mux space depth ts is) solids indices
              j.min j.max first second lo hi first_eq second_eq),
        many_solids-IsMux solids indices n first second j same j_same lawful first_mux second_mux,
      )
