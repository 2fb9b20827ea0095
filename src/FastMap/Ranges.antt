-- ===== src/FastMap/Ranges.antt =====
-- model3d/fast_maps.go: Len and the Range methods.
use model3d.Base.{
  eq_beq, ℕ, ◌+◌, ◌≡◌, refl, Bool, true, Option, none, some, List, [], ◌∷◌, ◌++◌, arith, Eq, nat_eq,
  is_some, length, to_nat, count, count-append,
}
use model3d.GoMap
use model3d.GoMap.{GoMap, IsDistinct, keys, count-keys}
use model3d.FastMap.{
  Hash, Cell, FastMap, refill, fast_to_slow, cell_value, load, store, len, delete, key_range,
  range_entries, range_cells,
}
use model3d.FastMap.Lookup.{IsHashed, IsValid, lookup-refill_empty}

-- the callback that collects the keys and goes on
abbrev pub collect {ℓ} : {K : Type ℓ} → K → List K → Bool × List K
collect k ks = (true, ks ++ k ∷ [])

-- KeyRange with a callback that never stops
abbrev pub all_keys {ℓ κ} : {K : Type ℓ} {V : Type κ} → FastMap K V → List K
all_keys m = key_range collect m []

module _ {ℓ κ} {K : Type ℓ} {V : Type κ} ⦃e : Eq K⦄ ⦃h : Hash K⦄ where
  count-range_entries :
      (k : K) (m : GoMap K V) (ks : List K)
      → IsDistinct m
      → count k (range_entries (λ j _. collect j) m ks)
        ≡ count k ks + to_nat (is_some (GoMap.lookup k m))
  unfolding range_entries GoMap.lookup
  count-range_entries k [] ks d = omega arith
  count-range_entries k ((j, v) ∷ m) ks d =
      ground
        (arith, count-range_entries k m (ks ++ j ∷ []), count-append k ks (j ∷ []), e.beq_iff j k)

  count-range_cells :
      (k : K) (fast : GoMap ℕ (Cell K V)) (ks : List K)
      → IsDistinct fast
      → IsHashed fast
      → count k (range_cells (λ j _. collect j) fast ks)
        ≡ count k ks + to_nat (is_some (cell_value k (GoMap.lookup (h.hash k) fast)))
  unfolding range_cells GoMap.lookup
  count-range_cells k [] ks d p = omega arith
  count-range_cells k ((i, c) ∷ fast) ks d p = ground (
    arith,
    count-range_cells k fast (ks ++ c.key ∷ []),
    count-append k ks (c.key ∷ []),
    e.beq_iff c.key k,
  )

  count-all_fields :
      (k : K) (slow : GoMap K V) (o : Option (GoMap ℕ (Cell K V)))
      → let m : FastMap K V = record { slow_map = slow; fast_map = o } in
        IsValid m → count k (all_keys m) ≡ to_nat (is_some (load m k))
  unfolding key_range load
  count-all_fields k slow none d = omega (arith, count-range_entries k slow [] d.plain)
  count-all_fields k slow (some fast) d =
      omega (arith, count-range_cells k fast [] d.table.0 d.table.1)

  -- KeyRange over a well-formed map visits each key that Load finds exactly once, and no other.
  pub count-all_keys :
      (k : K) (m : FastMap K V) → IsValid m → count k (all_keys m) ≡ to_nat (is_some (load m k))
  count-all_keys k m = count-all_fields k m.slow_map m.fast_map

  -- no cell of the table has a key of the plain map
  abbrev IsApart : GoMap ℕ (Cell K V) → GoMap K V → Type κ
  IsApart [] slow = Unit
  IsApart ((_, c) ∷ fast) slow = (GoMap.lookup c.key slow ≡ none) × IsApart fast slow

  insert-IsApart :
      (k : K) (v : V) (fast : GoMap ℕ (Cell K V)) (slow : GoMap K V)
      → GoMap.lookup (h.hash k) fast ≡ none
      → IsHashed fast
      → IsApart fast slow
      → IsApart fast (GoMap.insert k v slow)
  unfolding GoMap.lookup
  insert-IsApart k v [] slow gone p d = tt
  insert-IsApart k v ((i, c) ∷ fast) slow gone p d =
      ground
        (arith, insert-IsApart k v fast slow, GoMap.lookup-insert c.key k v slow, e.beq_iff k c.key)

  length-refill :
      (fast : GoMap ℕ (Cell K V)) (slow : GoMap K V)
      → IsDistinct fast
      → IsHashed fast
      → IsApart fast slow
      → length (refill fast slow) ≡ length fast + length slow
  unfolding refill GoMap.lookup
  length-refill [] slow d p a = omega arith
  length-refill ((i, c) ∷ fast) slow d p a = ground (
    arith,
    length-refill fast (GoMap.insert c.key c.value slow),
    insert-IsApart c.key c.value fast slow,
    GoMap.length-insert c.key c.value slow,
  )

  nothing-IsApart : (fast : GoMap ℕ (Cell K V)) → IsApart fast []
  unfolding GoMap.lookup
  nothing-IsApart [] = tt
  nothing-IsApart ((i, c) ∷ fast) = (refl, nothing-IsApart fast)

  len-fields_store :
      (slow : GoMap K V) (o : Option (GoMap ℕ (Cell K V))) (k : K) (v : V)
      → let m : FastMap K V = record { slow_map = slow; fast_map = o } in
        IsValid m → len (store m k v) + to_nat (is_some (load m k)) ≡ len m + 1
  unfolding len load store fast_to_slow
  len-fields_store slow none k v d = GoMap.length-insert k v slow
  len-fields_store slow (some fast) k v d = ground (
    arith,
    GoMap.length-insert (h.hash k) (record { key = k; value = v }) fast,
    GoMap.length-insert k v (refill fast []),
    length-refill fast [] d.table.0 d.table.1 (nothing-IsApart fast),
    lookup-refill_empty k fast d.table.0 d.table.1,
  )

  -- Store makes a well-formed map longer by one exactly if the key is new, also when a collision
  -- turns the map into a slow one.
  pub len-store :
      (m : FastMap K V) (k : K) (v : V)
      → IsValid m
      → len (store m k v) + to_nat (is_some (load m k)) ≡ len m + 1
  len-store m = len-fields_store m.slow_map m.fast_map

  len-fields_delete :
      (slow : GoMap K V) (o : Option (GoMap ℕ (Cell K V))) (k : K)
      → let m : FastMap K V = record { slow_map = slow; fast_map = o } in
        IsValid m → len (delete m k) + to_nat (is_some (load m k)) ≡ len m
  unfolding len load delete
  len-fields_delete slow none k d = GoMap.length-delete k slow d.plain
  len-fields_delete slow (some fast) k d =
      ground (arith, GoMap.length-delete (h.hash k) fast d.table.0)

  -- Delete makes a well-formed map shorter by one exactly if the key is there.
  pub len-delete :
      (m : FastMap K V) (k : K) → IsValid m → len (delete m k) + to_nat (is_some (load m k)) ≡ len m
  len-delete m = len-fields_delete m.slow_map m.fast_map
