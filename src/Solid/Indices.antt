-- ===== src/Solid/Indices.antt =====
-- model3d/solid.go: the indices of NewSolidMux, and the bits that the walk sets.
use model3d.Base.{
  eq_beq, ℕ, zero, suc, ◌+◌, ◌≤◌, ◌<◌, ◌≡◌, refl, ap, ◌∙◌, inl, inr, Bool, true, false, not, ◌&&◌,
  ◌||◌, none, some, List, [], ◌∷◌, map, arith, ltb, nat_beq, if◌then◌else◌, Eq, nat_eq, Bool-cases,
  length, get_elem?, get_or, set, replicate, length-set, to_nat,
}
use model3d.GoMap.{GoMap, insert, lookup, lookup-insert}
use model3d.Bvh.Members.{tally}
use model3d.Solid.{
  SolidSpace, Solid, BoxPointer, bounds_rects, index_bounders, grouped_solids, set_true,
}
use model3d.Solid.Mux.{zip, iter_all}

pub get_or-set :
    (res : List Bool) (k i : ℕ)
    → get_or (set res k true) i false ≡ ((nat_beq k i && ltb k (length res)) || get_or res i false)
get_or-set [] k i = ground arith
get_or-set (b ∷ res) zero zero = ground arith
get_or-set (b ∷ res) zero (suc i) = ground arith
get_or-set (b ∷ res) (suc k) zero = ground arith
get_or-set (b ∷ res) (suc k) (suc i) = get_or-set res k i ∙ ground arith

pub get_or-replicate : (n i : ℕ) → get_or (replicate n false) i false ≡ false
get_or-replicate zero i = refl
get_or-replicate (suc n) zero = refl
get_or-replicate (suc n) (suc i) = get_or-replicate n i

-- lists of one length with the same members in the same places
pub list_eq :
    (xs ys : List Bool)
    → length xs ≡ length ys
    → ((i : ℕ) → i < length xs → get_or xs i false ≡ get_or ys i false)
    → xs ≡ ys
list_eq [] [] n same = refl
list_eq [] (y ∷ ys) n same = absurd (omega arith)
list_eq (x ∷ xs) [] n same = absurd (omega arith)
list_eq (x ∷ xs) (y ∷ ys) n same =
    rw (same 0 (omega arith), list_eq xs ys (omega arith) (λ i less. same (suc i) (omega arith)))
      refl

module _ {C : Type 0} ⦃e : Eq C⦄ (space : SolidSpace C) where
  -- a test of the solid at an index, with the index
  abbrev pub at_index : (Solid C → ℕ → Bool) → List (Solid C) → ℕ → Bool
  at_index q ss k = elim (get_elem? ss k) [ some s ↦ q s k | none ↦ false ]

  pub at_index-found :
      (q : Solid C → ℕ → Bool) (solids : List (Solid C)) (k : ℕ) (s : Solid C)
      → get_elem? solids k ≡ some s
      → at_index q solids k ≡ q s k
  at_index-found q solids k s h = ap (λ o. elim o [ some t ↦ q t k | none ↦ false ]) h

  pub get_elem?-found :
      (solids : List (Solid C)) (k : ℕ)
      → k < length solids
      → (s : Solid C) × (get_elem? solids k ≡ some s)
  get_elem?-found [] k h = absurd (omega arith)
  get_elem?-found (s ∷ solids) zero h = (s, refl)
  get_elem?-found (s ∷ solids) (suc k) h = get_elem?-found solids k (omega arith)

  -- every address of a list is below a bound
  abbrev pub Below : ℕ → List (BoxPointer C) → Type 0
  Below n bs = tally (λ b. not (ltb b.address n)) bs ≡ 0

  pub grouped_solids-some :
      (solids : List (Solid C)) (m : GoMap ℕ ℕ) (bs : List (BoxPointer C))
      → ((k : ℕ) → k < length solids → lookup k m ≡ some k)
      → Below (length solids) bs
      → (ss : List (Solid C)) × (indices : List ℕ) × (grouped_solids space solids m bs
          ≡ some (ss, indices))
        × (length ss ≡ length bs)
        × (length indices ≡ length bs)
        × ((q : Solid C → ℕ → Bool)
            → tally (λ p. q p.0 p.1) (zip ss indices) ≡ tally (λ b. at_index q solids b.address) bs)
  unfolding grouped_solids
  grouped_solids-some solids m [] keys below = ([], [], refl, refl, refl, λ q. refl)
  grouped_solids-some solids m (b ∷ bs) keys below =
      let less : b.address < length solids = ground (arith, below) in
      let (s, found) = get_elem?-found solids b.address less in
      let (ss, indices, eq, n1, n2, counts) =
        grouped_solids-some solids m bs keys (ground (arith, below)) in
      (
        s ∷ ss,
        b.address ∷ indices,
        rw (keys b.address less, found, eq) refl,
        ap suc n1,
        ap suc n2,
        λ q. rw (at_index-found q solids b.address s found) (ground (arith, counts q)),
      )

  -- the index of every Rect is its address
  pub index_bounders-lookup :
      (i k : ℕ) (solids : List (Solid C)) (m : GoMap ℕ ℕ)
      → (k < i → lookup k m ≡ some k)
      → k < i + length solids
      → lookup k (index_bounders space i (bounds_rects space i solids) m) ≡ some k
  unfolding index_bounders bounds_rects
  index_bounders-lookup i k [] m before h = before (omega arith)
  index_bounders-lookup i k (s ∷ solids) m before h =
      index_bounders-lookup (suc i) k solids (insert i i m)
        (λ less. lookup-insert k i i m ∙ ground (arith, before)) (omega arith)

  pub bounds_rects-Below :
      (i n : ℕ) (solids : List (Solid C))
      → i + length solids ≤ n
      → Below n (bounds_rects space i solids)
  unfolding bounds_rects
  bounds_rects-Below i n [] h = refl
  bounds_rects-Below i n (s ∷ solids) h = ground (arith, bounds_rects-Below (suc i) n solids)

  pub length-bounds_rects :
      (i : ℕ) (solids : List (Solid C)) → length (bounds_rects space i solids) ≡ length solids
  unfolding bounds_rects
  length-bounds_rects i [] = refl
  length-bounds_rects i (s ∷ solids) = ap suc (length-bounds_rects (suc i) solids)

  -- the tests of the solids, with their indices
  abbrev pub tally_from : (Solid C → ℕ → Bool) → ℕ → List (Solid C) → ℕ
  tally_from q i [] = 0
  tally_from q i (s ∷ ss) = if q s i then suc (tally_from q (suc i) ss) else tally_from q (suc i) ss

  pub tally-bounds_rects :
      (g : ℕ → Bool) (q : Solid C → ℕ → Bool) (i : ℕ) (solids : List (Solid C))
      → ((k : ℕ) (s : Solid C) → get_elem? solids k ≡ some s → g (i + k) ≡ q s (i + k))
      → tally (λ b. g b.address) (bounds_rects space i solids) ≡ tally_from q i solids
  unfolding bounds_rects
  tally-bounds_rects g q i [] h = refl
  tally-bounds_rects g q i (s ∷ solids) h =
      let first : i + 0 ≡ i = omega arith in
      let here : g i ≡ q s i = rw first at (h 0 s refl) in
      let rest = tally-bounds_rects g q (suc i) solids (λ k u found.
        let next : i + suc k ≡ suc i + k = omega arith in rw next at (h (suc k) u found)) in
      rw here (ground (arith, rest))

  -- one test, without the indices
  pub tally_from-eq :
      (q : Solid C → Bool) (i : ℕ) (solids : List (Solid C))
      → tally_from (λ s k. q s) i solids ≡ tally q solids
  tally_from-eq q i [] = refl
  tally_from-eq q i (s ∷ solids) = ground (arith, tally_from-eq q (suc i) solids)

  pub tally_from-later :
      (q : Solid C → Bool) (i k : ℕ) (solids : List (Solid C))
      → k < i
      → tally_from (λ t j. q t && nat_beq j k) i solids ≡ 0
  tally_from-later q i k [] h = refl
  tally_from-later q i k (s ∷ solids) h = ground (arith, tally_from-later q (suc i) k solids)

  -- the solids with one index
  pub tally_from-at :
      (q : Solid C → Bool) (i k n : ℕ) (s : Solid C) (solids : List (Solid C))
      → n ≡ i + k
      → get_elem? solids k ≡ some s
      → tally_from (λ t j. q t && nat_beq j n) i solids ≡ to_nat (q s)
  tally_from-at q i k n s [] e h = absurd (ground (arith, h))
  tally_from-at q i zero n s (t ∷ solids) e h =
      let same : t ≡ s = ground (arith, h) in
      ground (arith, ap q same, tally_from-later q (suc i) n solids)
  tally_from-at q i (suc k) n s (t ∷ solids) e h =
      ground (arith, tally_from-at q (suc i) k n s solids (omega arith) h)

  pub tally_from-below :
      (n i : ℕ) (solids : List (Solid C))
      → i + length solids ≤ n
      → tally_from (λ s k. not (ltb k n)) i solids ≡ 0
  tally_from-below n i [] h = refl
  tally_from-below n i (s ∷ solids) h = ground (arith, tally_from-below n (suc i) solids)

  pub get_or-map :
      (c : C) (solids : List (Solid C)) (i : ℕ) (s : Solid C)
      → get_elem? solids i ≡ some s
      → get_or (map (λ t. t.contains c) solids) i false ≡ s.contains c
  get_or-map c [] i s h = absurd (ground (arith, h))
  get_or-map c (t ∷ solids) zero s h =
      let same : t ≡ s = ground (arith, h) in ap (λ u. u.contains c) same
  get_or-map c (t ∷ solids) (suc i) s h = get_or-map c solids i s h

  pub iter_all-count :
      {S : Type 0} (pairs : List (Solid C × ℕ)) (c : C) (f : ℕ → S → S) (st : S)
      → (iter_all pairs c f st).0 ≡ tally (λ p. (p.0).contains c) pairs
  iter_all-count [] c f st = refl
  iter_all-count ((s, i) ∷ pairs) c f st = elim (Bool-cases (s.contains c)) [
    | inl inside ↦ rw inside (omega (arith, iter_all-count pairs c f (f i st)))
    | inr outside ↦ rw outside (iter_all-count pairs c f st)
  ]

  -- `res` after the walk
  pub iter_all-set_true :
      (c : C) (n : ℕ) (pairs : List (Solid C × ℕ)) (res : List Bool)
      → tally (λ p. not (ltb p.1 n)) pairs ≡ 0
      → length res ≡ n
      → (out : List Bool) × (iter_all pairs c set_true (some res)
          ≡ (tally (λ p. (p.0).contains c) pairs, some out))
        × (length out ≡ n)
        × ((i : ℕ)
            → get_or out i false ≡ (
                get_or res i false
                || ltb 0 (tally (λ p. (p.0).contains c && nat_beq p.1 i) pairs) && ltb i n))
  unfolding set_true
  iter_all-set_true c n [] res h same = (res, refl, same, λ i. ground arith)
  iter_all-set_true c n ((s, k) ∷ pairs) res h same = elim (Bool-cases (s.contains c)) [
    | inl inside ↦
        let less : k < n = ground (arith, h) in
        let small : ltb k (length res) ≡ true = ground arith in
        let (out, eq, out_length, at) =
          iter_all-set_true c n pairs (set res k true) (ground (arith, h))
            (length-set res k true ∙ same) in
        let count_rest = tally (λ p. (p.0).contains c) pairs in
        let one_more : 1 + count_rest ≡ suc count_rest = omega arith in
        rw (inside, small)
          (
            out,
            rw eq (ap (λ m. (m, some out)) one_more),
            out_length,
            λ i. ground (arith, at i, get_or-set res k i),
          )
    | inr outside ↦
        let (out, eq, out_length, at) = iter_all-set_true c n pairs res (ground (arith, h)) same in
        rw outside (out, eq, out_length, at)
  ]
