-- ===== src/Bvh/Separate.antt =====
-- model3d/bvh.go: the flags and the two parts of a list in splitBounders.
use model3d.Base.{
  ℕ, zero, suc, ◌+◌, ◌-◌, ◌≤◌, ◌≡◌, refl, ap, ◌∙◌, ◌⊎◌, inl, inr, Bool, true, false, not, ◌&&◌,
  Option, none, some, List, [], ◌∷◌, ◌++◌, arith, ltb, nat_beq, nat_eq, Bool-cases, length, set,
  replicate, take, drop, length-append, length-replicate,
}
use model3d.Bvh.Members.{append_assoc, append-nil, keep, length-keep, tally, tally-not}
use model3d.Bvh.{FlaggedBounder, Flags, mark_first, place, no_nil, separate}

ltb_cases :
    (i n : ℕ)
    → ((m : ℕ) × (ltb i n ≡ true) × (n - i ≡ suc m) × (n - (i + 1) ≡ m))
      ⊎ ((ltb i n ≡ false) × (n - i ≡ 0) × (n - (i + 1) ≡ 0))
ltb_cases i n = elim (Bool-cases (ltb i n)) [
  | inl h ↦ inl (n - (i + 1), h, ground (arith, h), refl)
  | inr h ↦ inr (h, ground (arith, h), ground (arith, h))
]

drop_cases : {A : Type 0} (n : ℕ) → (take {A = A} n [] ≡ []) × (drop {A = A} n [] ≡ [])
drop_cases zero = (refl, refl)
drop_cases (suc n) = (refl, refl)

module _ {C B : Type 0} where
  abbrev pub at_address : ℕ → List (FlaggedBounder C B) → ℕ
  at_address k = tally (λ b. nat_beq b.address k)

  -- no two objects have one address
  abbrev pub IsUnique : List (FlaggedBounder C B) → Type 0
  IsUnique bs = (k : ℕ) → at_address k bs ≤ 1

  mark_first-other :
      (mid_idx i : ℕ) (bs : List (FlaggedBounder C B)) (flags : Flags) (k : ℕ)
      → at_address k bs ≡ 0
      → mark_first mid_idx i bs flags k ≡ flags k
  unfolding mark_first
  mark_first-other mid_idx i [] flags k h = refl
  mark_first-other mid_idx i (b ∷ bs) flags k h =
      let other : nat_beq b.address k ≡ false = ground (arith, h) in
      mark_first-other mid_idx (i + 1) bs _ k (rw other at h) ∙ rw other refl

  mark_first-here :
      (mid_idx i : ℕ) (b : FlaggedBounder C B) (bs : List (FlaggedBounder C B)) (flags : Flags)
      → at_address b.address (b ∷ bs) ≤ 1
      → mark_first mid_idx i (b ∷ bs) flags b.address ≡ ltb i mid_idx
  unfolding mark_first
  mark_first-here mid_idx i b bs flags u =
      let same : nat_beq b.address b.address ≡ true = ground arith in
      mark_first-other mid_idx (i + 1) bs _ b.address (omega (arith, rw same at u)) ∙ rw same refl

  -- the first objects are those with the flag
  pub tally-mark_first :
      (p : FlaggedBounder C B → Bool) (mid_idx i : ℕ) (bs : List (FlaggedBounder C B))
      (flags : Flags)
      → IsUnique bs
      → tally (λ b. mark_first mid_idx i bs flags b.address && p b) bs
        ≡ tally p (take (mid_idx - i) bs)
  unfolding mark_first
  tally-mark_first p mid_idx i [] flags u = rw ((drop_cases (mid_idx - i)).0) refl
  tally-mark_first p mid_idx i (b ∷ bs) flags u =
      let later : tally (λ c. mark_first mid_idx i (b ∷ bs) flags c.address && p c) bs
          ≡ tally p (take (mid_idx - (i + 1)) bs) =
        tally-mark_first p mid_idx (i + 1) bs _ (λ k. ground (arith, u k)) in
      let here = mark_first-here mid_idx i b bs flags (u b.address) in
      elim (ltb_cases i mid_idx) [
        | inl (n, test, e0, e1) ↦ rw (here, test, e0) ground (arith, rw e1 at later)
        | inr (test, e0, e1) ↦ rw (here, test, e0) ground (arith, rw e1 at later)
      ]

  -- and the others are those without it
  pub tally-mark_rest :
      (p : FlaggedBounder C B → Bool) (mid_idx i : ℕ) (bs : List (FlaggedBounder C B))
      (flags : Flags)
      → IsUnique bs
      → tally (λ b. not (mark_first mid_idx i bs flags b.address) && p b) bs
        ≡ tally p (drop (mid_idx - i) bs)
  unfolding mark_first
  tally-mark_rest p mid_idx i [] flags u = rw ((drop_cases (mid_idx - i)).1) refl
  tally-mark_rest p mid_idx i (b ∷ bs) flags u =
      let later : tally (λ c. not (mark_first mid_idx i (b ∷ bs) flags c.address) && p c) bs
          ≡ tally p (drop (mid_idx - (i + 1)) bs) =
        tally-mark_rest p mid_idx (i + 1) bs _ (λ k. ground (arith, u k)) in
      let here = mark_first-here mid_idx i b bs flags (u b.address) in
      elim (ltb_cases i mid_idx) [
        | inl (n, test, e0, e1) ↦ rw (here, test, e0) ground (arith, rw e1 at later)
        | inr (test, e0, e1) ↦ rw (here, test, e0) ground (arith, rw e1 at later)
      ]

  -- `sep` while it is filled: its first part and what is nil of it, and so for the second part
  abbrev slots :
      List (FlaggedBounder C B)
      → ℕ
      → List (FlaggedBounder C B)
      → ℕ
      → List (Option (FlaggedBounder C B))
  slots (b ∷ bs) m cs n = some b ∷ slots bs m cs n
  slots [] (suc m) cs n = none ∷ slots [] m cs n
  slots [] zero (c ∷ cs) n = some c ∷ slots [] zero cs n
  slots [] zero [] n = replicate n none

  slots-replicate : (m n : ℕ) → replicate (m + n) none ≡ slots [] m [] n
  slots-replicate zero n = let e : 0 + n ≡ n = omega arith in ap (λ k. replicate k none) e
  slots-replicate (suc m) n =
      let e : suc m + n ≡ suc (m + n) = omega arith in
      ap (λ k. replicate k none) e ∙ ap (λ t. none ∷ t) (slots-replicate m n)

  length-slots :
      (bs : List (FlaggedBounder C B)) (m : ℕ) (cs : List (FlaggedBounder C B)) (n : ℕ)
      → length (slots bs m cs n) ≡ ((length bs + m) + length cs) + n
  length-slots (b ∷ bs) m cs n = omega (arith, length-slots bs m cs n)
  length-slots [] (suc m) cs n = omega (arith, length-slots [] m cs n)
  length-slots [] zero (c ∷ cs) n = omega (arith, length-slots [] zero cs n)
  length-slots [] zero [] n =
      omega (arith, length-replicate {A = Option (FlaggedBounder C B)} n none)

  set-slots_first :
      (bs : List (FlaggedBounder C B)) (m : ℕ) (cs : List (FlaggedBounder C B)) (n : ℕ)
      (b : FlaggedBounder C B)
      → set (slots bs (suc m) cs n) (length bs) (some b) ≡ slots (bs ++ (b ∷ [])) m cs n
  set-slots_first [] m cs n b = refl
  set-slots_first (d ∷ bs) m cs n b = ap (λ t. some d ∷ t) (set-slots_first bs m cs n b)

  set-slots_second :
      (bs : List (FlaggedBounder C B)) (m : ℕ) (cs : List (FlaggedBounder C B)) (n k : ℕ)
      (b : FlaggedBounder C B)
      → k ≡ (length bs + m) + length cs
      → set (slots bs m cs (suc n)) k (some b) ≡ slots bs m (cs ++ (b ∷ [])) n
  set-slots_second (d ∷ bs) m cs n zero b e = absurd (omega arith)
  set-slots_second (d ∷ bs) m cs n (suc k) b e =
      ap (λ t. some d ∷ t) (set-slots_second bs m cs n k b (omega arith))
  set-slots_second [] (suc m) cs n zero b e = absurd (omega arith)
  set-slots_second [] (suc m) cs n (suc k) b e =
      ap (λ t. none ∷ t) (set-slots_second [] m cs n k b (omega arith))
  set-slots_second [] zero (c ∷ cs) n zero b e = absurd (omega arith)
  set-slots_second [] zero (c ∷ cs) n (suc k) b e =
      ap (λ t. some c ∷ t) (set-slots_second [] zero cs n k b (omega arith))
  set-slots_second [] zero [] n zero b e = refl
  set-slots_second [] zero [] n (suc k) b e = absurd (omega arith)

  no_nil-slots : (bs cs : List (FlaggedBounder C B)) → no_nil (slots bs 0 cs 0) ≡ some (bs ++ cs)
  unfolding no_nil
  no_nil-slots (b ∷ bs) cs = rw (no_nil-slots bs cs) refl
  no_nil-slots [] (c ∷ cs) = rw (no_nil-slots [] cs) refl
  no_nil-slots [] [] = refl

  abbrev pub flagged : Flags → List (FlaggedBounder C B) → List (FlaggedBounder C B)
  flagged flags = keep (λ b. flags b.address)

  abbrev pub others : Flags → List (FlaggedBounder C B) → List (FlaggedBounder C B)
  others flags = keep (λ b. not (flags b.address))

  place-eq :
      (flags : Flags) (rest bs cs : List (FlaggedBounder C B)) (m n idx0 idx1 : ℕ)
      → m ≡ length (flagged flags rest)
      → n ≡ length (others flags rest)
      → idx0 ≡ length bs
      → idx1 ≡ (length bs + m) + length cs
      → place flags rest (slots bs m cs n) idx0 idx1
        ≡ some (slots (bs ++ flagged flags rest) 0 (cs ++ others flags rest) 0)
  unfolding place
  place-eq flags [] bs cs m n idx0 idx1 em en e0 e1 = rw (em, en, append-nil bs, append-nil cs) refl
  place-eq flags (b ∷ rest) bs cs m n idx0 idx1 em en e0 e1 = elim (Bool-cases (flags b.address)) [
    | inl first ↦
        let m1 = length (flagged flags rest) in
        let em1 : m ≡ suc m1 = rw first at em in
        let small : ltb (length bs) (length (slots bs (suc m1) cs n)) ≡ true =
          ground (arith, length-slots bs (suc m1) cs n) in
        rw (first, em1, e0, small)
          (ap (λ s. place flags rest s (length bs + 1) idx1) (set-slots_first bs m1 cs n b)
            ∙ place-eq flags rest (bs ++ (b ∷ [])) cs m1 n (length bs + 1) idx1 refl
                (rw first at en) (omega (arith, length-append bs (b ∷ [])))
                (omega (arith, length-append bs (b ∷ []), e1, em1))
            ∙ rw (append_assoc bs (b ∷ []) (flagged flags rest)) refl)
    | inr second ↦
        let n1 = length (others flags rest) in
        let en1 : n ≡ suc n1 = rw second at en in
        let small : ltb idx1 (length (slots bs m cs (suc n1))) ≡ true =
          ground (arith, length-slots bs m cs (suc n1), e1) in
        rw (second, en1, small)
          (ap (λ s. place flags rest s idx0 (idx1 + 1)) (set-slots_second bs m cs n1 idx1 b e1)
            ∙ place-eq flags rest bs (cs ++ (b ∷ [])) m n1 idx0 (idx1 + 1) (rw second at em) refl e0
                (omega (arith, length-append cs (b ∷ []), e1))
            ∙ rw (append_assoc cs (b ∷ []) (others flags rest)) refl)
  ]

  -- the objects with the flag, then the others
  pub separate-eq :
      (flags : Flags) (mid_idx : ℕ) (bs : List (FlaggedBounder C B))
      → mid_idx ≡ length (flagged flags bs)
      → separate flags mid_idx bs ≡ some (flagged flags bs ++ others flags bs)
  unfolding separate
  separate-eq flags mid_idx bs e =
      let n = length (others flags bs) in
      let all : length bs ≡ mid_idx + n = omega (
        arith,
        length-keep (λ b. flags b.address) bs,
        length-keep (λ b. not (flags b.address)) bs,
        tally-not (λ b. flags b.address) bs,
      ) in
      rw
        (
          all,
          slots-replicate mid_idx n,
          place-eq flags bs [] [] mid_idx n 0 mid_idx e refl refl (omega arith),
        )
        (no_nil-slots (flagged flags bs) (others flags bs))
