-- ===== src/GoMap.antt =====
-- A built-in Go map: an association list in the order in which one `range` loop visits it. Go leaves
-- that order open, so a statement about code that ranges over a map is about every order.
use model3d.Base.{
  eq_beq, ◌+◌, ◌≡◌, refl, Option, none, some, List, [], ◌∷◌, arith, BEq, Eq, ◌==◌, if◌then◌else◌,
  length, to_nat, is_some, count, map, Bool-cases, inl, inr,
}

abbrev pub GoMap {ℓ κ} : Type ℓ → Type κ → Type (ℓ ⊔ κ)
GoMap K V = List (K × V)

module _ {ℓ κ} {K : Type ℓ} {V : Type κ} ⦃b : BEq K⦄ where
  -- `m[k]`, with `none` for a missing key
  unfoldable pub lookup : K → GoMap K V → Option V
  lookup k [] = none
  lookup k ((j, v) ∷ m) = if b.same j k then some v else lookup k m

  -- `m[k] = v`
  unfoldable pub insert : K → V → GoMap K V → GoMap K V
  insert k v [] = (k, v) ∷ []
  insert k v ((j, w) ∷ m) = if b.same j k then (k, v) ∷ m else (j, w) ∷ insert k v m

  -- `delete(m, k)`
  unfoldable pub delete : K → GoMap K V → GoMap K V
  delete k [] = []
  delete k ((j, w) ∷ m) = let rest = delete k m in if b.same j k then rest else (j, w) ∷ rest

module _ {ℓ κ} {K : Type ℓ} {V : Type κ} ⦃e : Eq K⦄ where
  -- no key stands twice
  abbrev pub IsDistinct : GoMap K V → Type κ
  IsDistinct [] = Unit
  IsDistinct ((k, v) ∷ m) = (lookup k m ≡ none) × IsDistinct m

  pub lookup-insert :
      (j k : K) (v : V) (m : GoMap K V)
      → lookup j (insert k v m) ≡ (if k == j then some v else lookup j m)
  unfolding lookup insert
  lookup-insert j k v [] = refl
  lookup-insert j k v ((i, w) ∷ m) =
      ground (arith, lookup-insert j k v m, e.beq_iff i k, e.beq_iff i j, e.beq_iff k j)

  pub lookup-delete :
      (j k : K) (m : GoMap K V) → lookup j (delete k m) ≡ (if k == j then none else lookup j m)
  unfolding lookup delete
  lookup-delete j k [] = ground arith
  lookup-delete j k ((i, w) ∷ m) =
      ground (arith, lookup-delete j k m, e.beq_iff i k, e.beq_iff i j, e.beq_iff k j)

  pub insert-IsDistinct : (k : K) (v : V) (m : GoMap K V) → IsDistinct m → IsDistinct (insert k v m)
  unfolding insert lookup
  insert-IsDistinct k v [] d = (refl, d)
  insert-IsDistinct k v ((j, w) ∷ m) d =
      ground (arith, insert-IsDistinct k v m, lookup-insert j k v m, e.beq_iff j k, e.beq_iff k j)

  pub delete-IsDistinct : (k : K) (m : GoMap K V) → IsDistinct m → IsDistinct (delete k m)
  unfolding delete lookup
  delete-IsDistinct k [] d = d
  delete-IsDistinct k ((j, w) ∷ m) d =
      ground (arith, delete-IsDistinct k m, lookup-delete j k m, e.beq_iff k j)

  -- a new key adds one entry
  pub length-insert :
      (k : K) (v : V) (m : GoMap K V)
      → length (insert k v m) + to_nat (is_some (lookup k m)) ≡ length m + 1
  unfolding insert lookup
  length-insert k v [] = omega arith
  length-insert k v ((j, w) ∷ m) = ground (arith, length-insert k v m)

  pub delete-eq_of_none : (k : K) (m : GoMap K V) → lookup k m ≡ none → delete k m ≡ m
  unfolding delete lookup
  delete-eq_of_none k [] h = refl
  delete-eq_of_none k ((j, w) ∷ m) h = ground (arith, delete-eq_of_none k m)

  pub length-delete :
      (k : K) (m : GoMap K V)
      → IsDistinct m
      → length (delete k m) + to_nat (is_some (lookup k m)) ≡ length m
  unfolding delete lookup
  length-delete k [] d = omega arith
  length-delete k ((j, w) ∷ m) d = elim (Bool-cases (j == k)) [
    | inl same ↦ rw same (
        let gone : lookup k m ≡ none = rw ((e.beq_iff j k).0 same) at d.0 in
        rw (delete-eq_of_none k m gone) (omega arith))
    | inr other ↦ rw other (omega (arith, length-delete k m d.1))
  ]

  abbrev pub keys : GoMap K V → List K
  keys = map (λ kv. kv.0)

  -- a map that is ranged over shows each of its keys once
  pub count-keys :
      (k : K) (m : GoMap K V) → IsDistinct m → count k (keys m) ≡ to_nat (is_some (lookup k m))
  unfolding lookup
  count-keys k [] d = refl
  count-keys k ((j, w) ∷ m) d = elim (Bool-cases (j == k)) [
    | inl same ↦ rw same (
        let gone : lookup k m ≡ none = rw ((e.beq_iff j k).0 same) at d.0 in
        omega (arith, ap_is_some gone, count-keys k m d.1))
    | inr other ↦ rw other (omega (arith, count-keys k m d.1))
  ]
    where
      ap_is_some : {o : Option V} → o ≡ none → to_nat (is_some o) ≡ 0
      ap_is_some h = rw h
