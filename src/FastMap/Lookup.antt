-- ===== src/FastMap/Lookup.antt =====
-- model3d/fast_maps.go: what Load, Store and Delete do to the map that a CoordMap stands for.
use model3d.Base.{
  eq_beq, ℕ, ◌≡◌, refl, inl, inr, Option, none, some, [], ◌∷◌, arith, if◌then◌else◌, Eq, ◌==◌,
  nat_eq, Option-cases,
}
use model3d.GoMap
use model3d.GoMap.{GoMap, IsDistinct}
use model3d.FastMap.{
  Hash, Cell, FastMap, new, refill, fast_to_slow, cell_value, load, delete, store,
}

module _ {ℓ κ} {K : Type ℓ} {V : Type κ} ⦃e : Eq K⦄ ⦃h : Hash K⦄ where
  -- every cell of a table stands under the hash of its key
  abbrev pub IsHashed : GoMap ℕ (Cell K V) → Type 0
  IsHashed [] = Unit
  IsHashed ((i, cell) ∷ fast) = (i ≡ h.hash cell.key) × IsHashed fast

  -- the table of a fast map holds a hash once, and the plain map a key once
  abbrev pub IsTable : Option (GoMap ℕ (Cell K V)) → Type (ℓ ⊔ κ)
  IsTable none = Unit
  IsTable (some fast) = IsDistinct fast × IsHashed fast

  pub record IsValid (m : FastMap K V) : Type (ℓ ⊔ κ) where
    pub table : IsTable m.fast_map
    pub plain : IsDistinct m.slow_map

  IsHashed-insert :
      (k : K) (v : V) (fast : GoMap ℕ (Cell K V))
      → IsHashed fast
      → IsHashed (GoMap.insert (h.hash k) (record { key = k; value = v }) fast)
  unfolding GoMap.insert
  IsHashed-insert k v [] d = (refl, d)
  IsHashed-insert k v ((i, c) ∷ fast) d = ground (arith, IsHashed-insert k v fast)

  IsHashed-delete :
      (i : ℕ) (fast : GoMap ℕ (Cell K V)) → IsHashed fast → IsHashed (GoMap.delete i fast)
  unfolding GoMap.delete
  IsHashed-delete i [] d = d
  IsHashed-delete i ((j, c) ∷ fast) d = ground (arith, IsHashed-delete i fast)

  -- a cell that is found under a hash has that hash
  hash-lookup :
      (i : ℕ) (fast : GoMap ℕ (Cell K V)) (c : Cell K V)
      → IsHashed fast
      → GoMap.lookup i fast ≡ some c
      → h.hash c.key ≡ i
  unfolding GoMap.lookup
  hash-lookup i [] c d found = cc
  hash-lookup i ((j, b) ∷ fast) c d found = ground (arith, hash-lookup i fast c)

  -- the plain map that is made from a table answers as the table does
  lookup-refill :
      (k : K) (fast : GoMap ℕ (Cell K V)) (slow : GoMap K V)
      → IsDistinct fast
      → IsHashed fast
      → GoMap.lookup k (refill fast slow) ≡ elim (cell_value k (GoMap.lookup (h.hash k) fast)) [
        | some v ↦ some v
        | none ↦ GoMap.lookup k slow
      ]
  unfolding refill GoMap.lookup
  lookup-refill k [] slow d p = refl
  lookup-refill k ((i, c) ∷ fast) slow d p = ground (
    arith,
    lookup-refill k fast (GoMap.insert c.key c.value slow),
    GoMap.lookup-insert k c.key c.value slow,
    e.beq_iff c.key k,
  )

  pub lookup-refill_empty :
      (k : K) (fast : GoMap ℕ (Cell K V))
      → IsDistinct fast
      → IsHashed fast
      → GoMap.lookup k (refill fast []) ≡ cell_value k (GoMap.lookup (h.hash k) fast)
  unfolding GoMap.lookup
  lookup-refill_empty k fast d p = ground (arith, lookup-refill k fast [] d p)

  refill-IsDistinct :
      (fast : GoMap ℕ (Cell K V)) (slow : GoMap K V)
      → IsDistinct slow
      → IsDistinct (refill fast slow)
  unfolding refill
  refill-IsDistinct [] slow d = d
  refill-IsDistinct ((i, c) ∷ fast) slow d =
      refill-IsDistinct fast (GoMap.insert c.key c.value slow)
        (GoMap.insert-IsDistinct c.key c.value slow d)

  pub new-IsValid : IsValid (new K V)
  unfolding new
  new-IsValid = record { table = (tt, tt); plain = tt }

  -- a map from its two fields, so that a proof can split on the second
  abbrev of_fields : GoMap K V → Option (GoMap ℕ (Cell K V)) → FastMap K V
  of_fields slow fast = record { slow_map = slow; fast_map = fast }

  store_fields-IsValid :
      (slow : GoMap K V) (o : Option (GoMap ℕ (Cell K V))) (k : K) (v : V)
      → IsValid (of_fields slow o)
      → IsValid (store (of_fields slow o) k v)
  unfolding store fast_to_slow
  store_fields-IsValid slow none k v d = record {
    table = tt;
    plain = GoMap.insert-IsDistinct k v slow d.plain;
  }
  store_fields-IsValid slow (some fast) k v d = ground (
    arith,
    GoMap.insert-IsDistinct k v (refill fast []) (refill-IsDistinct fast [] tt),
    GoMap.insert-IsDistinct (h.hash k) (record { key = k; value = v }) fast,
    IsHashed-insert k v fast,
  )

  -- Store keeps a map well formed, on the fast path, on a collision and on the slow path.
  pub store-IsValid : (m : FastMap K V) (k : K) (v : V) → IsValid m → IsValid (store m k v)
  store-IsValid m = store_fields-IsValid m.slow_map m.fast_map

  delete_fields-IsValid :
      (slow : GoMap K V) (o : Option (GoMap ℕ (Cell K V))) (k : K)
      → IsValid (of_fields slow o)
      → IsValid (delete (of_fields slow o) k)
  unfolding delete
  delete_fields-IsValid slow none k d = record {
    table = tt;
    plain = GoMap.delete-IsDistinct k slow d.plain;
  }
  delete_fields-IsValid slow (some fast) k d =
      ground (arith, GoMap.delete-IsDistinct (h.hash k) fast, IsHashed-delete (h.hash k) fast)

  -- Delete keeps a map well formed.
  pub delete-IsValid : (m : FastMap K V) (k : K) → IsValid m → IsValid (delete m k)
  delete-IsValid m = delete_fields-IsValid m.slow_map m.fast_map

  load_fields-store :
      (slow : GoMap K V) (o : Option (GoMap ℕ (Cell K V))) (k j : K) (v : V)
      → IsValid (of_fields slow o)
      → load (store (of_fields slow o) k v) j
        ≡ (if k == j then some v else load (of_fields slow o) j)
  unfolding store fast_to_slow load
  load_fields-store slow none k j v d = GoMap.lookup-insert j k v slow
  load_fields-store slow (some fast) k j v d =
      let slower = lookup-refill_empty j fast d.table.0 d.table.1 in
      let stored = GoMap.lookup-insert j k v (refill fast []) in
      let celled = GoMap.lookup-insert (h.hash j) (h.hash k) (record { key = k; value = v }) fast in
      elim (Option-cases (GoMap.lookup (h.hash k) fast)) [
        | inl q ↦ ground (arith, celled, e.beq_iff k j)
        | inr (c, q) ↦
            ground
              (arith, slower, stored, celled, e.beq_iff k j, e.beq_iff c.key k, e.beq_iff c.key j)
      ]

  -- Load after Store on a well-formed map reads the new value at its key and the old one
  -- elsewhere, when no two keys are == without being identical, as points without a negative zero,
  -- for any hash function and also when a collision turns a fast map into a slow one.
  pub load-store :
      (m : FastMap K V) (k j : K) (v : V)
      → IsValid m
      → load (store m k v) j ≡ (if k == j then some v else load m j)
  load-store m = load_fields-store m.slow_map m.fast_map

  load_fields-delete :
      (slow : GoMap K V) (o : Option (GoMap ℕ (Cell K V))) (k j : K)
      → IsValid (of_fields slow o)
      → load (delete (of_fields slow o) k) j ≡ (if k == j then none else load (of_fields slow o) j)
  unfolding delete load
  load_fields-delete slow none k j d = GoMap.lookup-delete j k slow
  load_fields-delete slow (some fast) k j d =
      let removed = GoMap.lookup-delete (h.hash j) (h.hash k) fast in
      elim (Option-cases (GoMap.lookup (h.hash k) fast)) [
        | inl q ↦ ground (arith, removed, e.beq_iff k j)
        | inr (c, q) ↦ ground (arith, removed, e.beq_iff k j, e.beq_iff c.key k, e.beq_iff c.key j)
      ]

  -- Load after Delete on a well-formed map finds nothing at the key and what was there before at
  -- every other.
  pub load-delete :
      (m : FastMap K V) (k j : K)
      → IsValid m
      → load (delete m k) j ≡ (if k == j then none else load m j)
  load-delete m = load_fields-delete m.slow_map m.fast_map
