-- ===== src/FastMap/Keys.antt =====
-- model3d/fast_maps.go: a map over keys of which == is coarser than identity. As long as each key that
-- goes in is the representative of the keys that are == to it, the map does what a map over those
-- representatives does.
use model3d.Base.{
  eq_beq, ℕ, ◌≡◌, refl, ap, ◌∙◌, inl, inr, Bool, Option, none, some, [], ◌∷◌, arith, BEq, Eq, ◌==◌,
  Zero, nat_eq, Bool-cases, Option-cases, length,
}
use model3d.GoMap
use model3d.GoMap.{GoMap}
use model3d.FastMap.{
  Hash, Cell, FastMap, refill, fast_to_slow, cell_value, load, store, len, delete, modify, range,
  range_entries, range_cells, value_or_zero,
}

-- the hash of a key is that of its representative
abbrev pub hash_through : {K R : Type 0} → Hash R → (K → R) → Hash K
hash_through r f = record { hash = λ k. r.hash (f k) }

module _ {K R V : Type 0} ⦃e : Eq K⦄ ⦃b : BEq R⦄ (r : Hash R) (f : K → R) where
  abbrev pub lift_plain : GoMap K V → GoMap R V
  lift_plain [] = []
  lift_plain ((k, v) ∷ m) = (f k, v) ∷ lift_plain m

  abbrev lift_cell : Cell K V → Cell R V
  lift_cell c = record { key = f c.key; value = c.value }

  abbrev lift_found : Option (Cell K V) → Option (Cell R V)
  lift_found none = none
  lift_found (some c) = some (lift_cell c)

  abbrev pub lift_cells : GoMap ℕ (Cell K V) → GoMap ℕ (Cell R V)
  lift_cells [] = []
  lift_cells ((i, c) ∷ m) = (i, lift_cell c) ∷ lift_cells m

  abbrev lift_table : Option (GoMap ℕ (Cell K V)) → Option (GoMap ℕ (Cell R V))
  lift_table none = none
  lift_table (some fast) = some (lift_cells fast)

  abbrev pub lift : FastMap K V → FastMap R V
  lift m = record { slow_map = lift_plain m.slow_map; fast_map = lift_table m.fast_map }

  module _ (same : (k j : K) → b.same (f k) (f j) ≡ (k == j)) where
    lookup-lift_plain :
        (k : K) (m : GoMap K V) → GoMap.lookup (f k) (lift_plain m) ≡ GoMap.lookup k m
    unfolding GoMap.lookup
    lookup-lift_plain k [] = refl
    lookup-lift_plain k ((j, v) ∷ m) = rw (same j k, lookup-lift_plain k m) refl

    insert-lift_plain :
        (k : K) (v : V) (m : GoMap K V)
        → GoMap.insert (f k) v (lift_plain m) ≡ lift_plain (GoMap.insert k v m)
    unfolding GoMap.insert
    insert-lift_plain k v [] = refl
    insert-lift_plain k v ((j, w) ∷ m) = elim (Bool-cases (j == k)) [
      | inl hit ↦ rw (same j k, hit) refl
      | inr miss ↦ rw (same j k, miss, insert-lift_plain k v m) refl
    ]

    delete-lift_plain :
        (k : K) (m : GoMap K V) → GoMap.delete (f k) (lift_plain m) ≡ lift_plain (GoMap.delete k m)
    unfolding GoMap.delete
    delete-lift_plain k [] = refl
    delete-lift_plain k ((j, w) ∷ m) = elim (Bool-cases (j == k)) [
      | inl hit ↦ rw (same j k, hit, delete-lift_plain k m) refl
      | inr miss ↦ rw (same j k, miss, delete-lift_plain k m) refl
    ]

    lookup-lift_cells :
        (i : ℕ) (m : GoMap ℕ (Cell K V))
        → GoMap.lookup i (lift_cells m) ≡ lift_found (GoMap.lookup i m)
    unfolding GoMap.lookup
    lookup-lift_cells i [] = refl
    lookup-lift_cells i ((j, c) ∷ m) = elim (Bool-cases (j == i)) [
      | inl hit ↦ rw hit refl
      | inr miss ↦ rw (miss, lookup-lift_cells i m) refl
    ]

    insert-lift_cells :
        (i : ℕ) (c : Cell K V) (m : GoMap ℕ (Cell K V))
        → GoMap.insert i (lift_cell c) (lift_cells m) ≡ lift_cells (GoMap.insert i c m)
    unfolding GoMap.insert
    insert-lift_cells i c [] = refl
    insert-lift_cells i c ((j, d) ∷ m) = elim (Bool-cases (j == i)) [
      | inl hit ↦ rw hit refl
      | inr miss ↦ rw (miss, insert-lift_cells i c m) refl
    ]

    delete-lift_cells :
        (i : ℕ) (m : GoMap ℕ (Cell K V))
        → GoMap.delete i (lift_cells m) ≡ lift_cells (GoMap.delete i m)
    unfolding GoMap.delete
    delete-lift_cells i [] = refl
    delete-lift_cells i ((j, d) ∷ m) = elim (Bool-cases (j == i)) [
      | inl hit ↦ rw (hit, delete-lift_cells i m) refl
      | inr miss ↦ rw (miss, delete-lift_cells i m) refl
    ]

    refill-lift :
        (fast : GoMap ℕ (Cell K V)) (slow : GoMap K V)
        → refill (lift_cells fast) (lift_plain slow) ≡ lift_plain (refill fast slow)
    unfolding refill
    refill-lift [] slow = refl
    refill-lift ((i, c) ∷ fast) slow =
        ap (refill (lift_cells fast)) (insert-lift_plain c.key c.value slow)
        ∙ refill-lift fast (GoMap.insert c.key c.value slow)

    cell_value-lift :
        (k : K) (o : Option (Cell K V)) → cell_value (f k) (lift_found o) ≡ cell_value k o
    cell_value-lift k none = refl
    cell_value-lift k (some c) = rw (same c.key k) refl

    abbrev of_fields : GoMap K V → Option (GoMap ℕ (Cell K V)) → FastMap K V
    of_fields slow fast = record { slow_map = slow; fast_map = fast }

    load_fields :
        (slow : GoMap K V) (o : Option (GoMap ℕ (Cell K V))) (k : K)
        → load ⦃h = r⦄ (lift (of_fields slow o)) (f k)
          ≡ load ⦃h = hash_through r f⦄ (of_fields slow o) k
    unfolding load
    load_fields slow none k = lookup-lift_plain k slow
    load_fields slow (some fast) k =
        rw (lookup-lift_cells (r.hash (f k)) fast)
          (cell_value-lift k (GoMap.lookup (r.hash (f k)) fast))

    pub load-lift :
        (m : FastMap K V) (k : K) → load ⦃h = r⦄ (lift m) (f k) ≡ load ⦃h = hash_through r f⦄ m k
    load-lift m = load_fields m.slow_map m.fast_map

    store_fields :
        (slow : GoMap K V) (o : Option (GoMap ℕ (Cell K V))) (k : K) (v : V)
        → store ⦃h = r⦄ (lift (of_fields slow o)) (f k) v
          ≡ lift (store ⦃h = hash_through r f⦄ (of_fields slow o) k v)
    unfolding store fast_to_slow
    store_fields slow none k v =
        ap (λ m. record { slow_map = m; fast_map = none }) (insert-lift_plain k v slow)
    store_fields slow (some fast) k v =
        let found = lookup-lift_cells (r.hash (f k)) fast in
        let refilled = refill-lift fast [] in
        let inserted = insert-lift_plain k v (refill fast []) in
        let celled = insert-lift_cells (r.hash (f k)) (record { key = k; value = v }) fast in
        elim (Option-cases (GoMap.lookup (r.hash (f k)) fast)) [
          | inl q ↦ ground (arith, found, celled, q)
          | inr (c, q) ↦ ground (arith, found, celled, q, refilled, inserted, same c.key k)
        ]

    pub store-lift :
        (m : FastMap K V) (k : K) (v : V)
        → store ⦃h = r⦄ (lift m) (f k) v ≡ lift (store ⦃h = hash_through r f⦄ m k v)
    store-lift m = store_fields m.slow_map m.fast_map

    delete_fields :
        (slow : GoMap K V) (o : Option (GoMap ℕ (Cell K V))) (k : K)
        → delete ⦃h = r⦄ (lift (of_fields slow o)) (f k)
          ≡ lift (delete ⦃h = hash_through r f⦄ (of_fields slow o) k)
    unfolding delete
    delete_fields slow none k =
        ap (λ m. record { slow_map = m; fast_map = none }) (delete-lift_plain k slow)
    delete_fields slow (some fast) k =
        let found = lookup-lift_cells (r.hash (f k)) fast in
        let removed = delete-lift_cells (r.hash (f k)) fast in
        elim (Option-cases (GoMap.lookup (r.hash (f k)) fast)) [
          | inl q ↦ ground (arith, found, q)
          | inr (c, q) ↦ ground (arith, found, removed, q, same c.key k)
        ]

    pub delete-lift :
        (m : FastMap K V) (k : K)
        → delete ⦃h = r⦄ (lift m) (f k) ≡ lift (delete ⦃h = hash_through r f⦄ m k)
    delete-lift m = delete_fields m.slow_map m.fast_map

    modify_fields :
        ⦃z : Zero V⦄ (g : V → V) (slow : GoMap K V) (o : Option (GoMap ℕ (Cell K V))) (k : K)
        → let done = modify ⦃h = hash_through r f⦄ g (of_fields slow o) k in
          modify ⦃h = r⦄ g (lift (of_fields slow o)) (f k) ≡ (done.0, lift done.1)
    unfolding modify fast_to_slow
    modify_fields ⦃z = z⦄ g slow none k =
        rw (lookup-lift_plain k slow, insert-lift_plain k _ slow) refl
    modify_fields ⦃z = z⦄ g slow (some fast) k =
        let found = lookup-lift_cells (r.hash (f k)) fast in
        let refilled = refill-lift fast [] in
        let inserted : (v : V)
            → GoMap.insert (f k) v (lift_plain (refill fast []))
              ≡ lift_plain (GoMap.insert k v (refill fast [])) =
          λ v. insert-lift_plain k v (refill fast []) in
        let celled : (v : V)
            → GoMap.insert (r.hash (f k)) (record { key = f k; value = v }) (lift_cells fast)
              ≡ lift_cells (GoMap.insert (r.hash (f k)) (record { key = k; value = v }) fast) =
          λ v. insert-lift_cells (r.hash (f k)) (record { key = k; value = v }) fast in
        elim (Option-cases (GoMap.lookup (r.hash (f k)) fast)) [
          | inl q ↦ ground (arith, found, q, celled (g z.zero_value))
          | inr (c, q) ↦ elim (Bool-cases (c.key == k)) [
            | inl hit ↦ ground (arith, found, q, hit, same c.key k, celled (g c.value))
            | inr miss ↦
                let plain = lookup-lift_plain k (refill fast []) in
                rw (found, q)
                  (rw
                    (
                      same c.key k,
                      miss,
                      refilled,
                      plain,
                      inserted (g (value_or_zero (GoMap.lookup k (refill fast [])))),
                    )
                    refl)
          ]
        ]

    pub modify-lift :
        ⦃z : Zero V⦄ (g : V → V) (m : FastMap K V) (k : K)
        → modify ⦃h = r⦄ g (lift m) (f k)
          ≡ ((modify ⦃h = hash_through r f⦄ g m k).0, lift (modify ⦃h = hash_through r f⦄ g m k).1)
    modify-lift g m = modify_fields g m.slow_map m.fast_map

  length-lift_plain : (m : GoMap K V) → length (lift_plain m) ≡ length m
  length-lift_plain [] = refl
  length-lift_plain ((k, v) ∷ m) = ground (arith, length-lift_plain m)

  length-lift_cells : (m : GoMap ℕ (Cell K V)) → length (lift_cells m) ≡ length m
  length-lift_cells [] = refl
  length-lift_cells ((i, c) ∷ m) = ground (arith, length-lift_cells m)

  len_fields :
      (slow : GoMap K V) (o : Option (GoMap ℕ (Cell K V)))
      → let m : FastMap K V = record { slow_map = slow; fast_map = o } in len (lift m) ≡ len m
  unfolding len
  len_fields slow none = length-lift_plain slow
  len_fields slow (some fast) = length-lift_cells fast

  pub len-lift : (m : FastMap K V) → len (lift m) ≡ len m
  len-lift m = len_fields m.slow_map m.fast_map

  module _ {A : Type 0} (g : R → V → A → Bool × A) where
    range_entries-lift :
        (m : GoMap K V) (s : A)
        → range_entries g (lift_plain m) s ≡ range_entries (λ k. g (f k)) m s
    unfolding range_entries
    range_entries-lift [] s = refl
    range_entries-lift ((k, v) ∷ m) s = ground (arith, range_entries-lift m (g (f k) v s).1)

    range_cells-lift :
        (m : GoMap ℕ (Cell K V)) (s : A)
        → range_cells g (lift_cells m) s ≡ range_cells (λ k. g (f k)) m s
    unfolding range_cells
    range_cells-lift [] s = refl
    range_cells-lift ((i, c) ∷ m) s = ground (arith, range_cells-lift m (g (f c.key) c.value s).1)

    range_fields :
        (slow : GoMap K V) (o : Option (GoMap ℕ (Cell K V))) (s : A)
        → let m : FastMap K V = record { slow_map = slow; fast_map = o } in
          range g (lift m) s ≡ range (λ k. g (f k)) m s
    unfolding range
    range_fields slow none s = range_entries-lift slow s
    range_fields slow (some fast) s = range_cells-lift fast s

    pub range-lift : (m : FastMap K V) (s : A) → range g (lift m) s ≡ range (λ k. g (f k)) m s
    range-lift m = range_fields m.slow_map m.fast_map
