-- ===== src/FastMap/Modify.antt =====
-- model3d/fast_maps.go: CoordToSlice.Append and CoordToNumber.Add as a Load followed by a Store.
use model3d.Base.{
  eq_beq, ℕ, ◌≡◌, refl, Option, none, some, arith, if◌then◌else◌, Eq, ◌==◌, Zero, nat_eq,
}
use model3d.GoMap.{GoMap}
use model3d.FastMap.{Hash, Cell, FastMap, fast_to_slow, load, value, store, modify}
use model3d.FastMap.Lookup.{IsValid, lookup-refill_empty, load-store, store-IsValid}

module _ {ℓ κ} {K : Type ℓ} {V : Type κ} ⦃e : Eq K⦄ ⦃h : Hash K⦄ ⦃z : Zero V⦄ where
  modify_fields :
      (f : V → V) (slow : GoMap K V) (o : Option (GoMap ℕ (Cell K V))) (k : K)
      → let m : FastMap K V = record { slow_map = slow; fast_map = o } in
        IsValid m → modify f m k ≡ (f (value m k), store m k (f (value m k)))
  unfolding modify store fast_to_slow value load
  modify_fields f slow none k d = ground arith
  modify_fields f slow (some fast) k d =
      ground (arith, lookup-refill_empty k fast d.table.0 d.table.1)

  -- Append and Add return what the function makes of the old value, and store that.
  pub modify_lem :
      (f : V → V) (m : FastMap K V) (k : K)
      → IsValid m
      → modify f m k ≡ (f (value m k), store m k (f (value m k)))
  modify_lem f m = modify_fields f m.slow_map m.fast_map

  pub modify-IsValid : (f : V → V) (m : FastMap K V) (k : K) → IsValid m → IsValid (modify f m k).1
  modify-IsValid f m k d = rw (modify_lem f m k d) (store-IsValid m k (f (value m k)) d)

  -- One call of Append or Add on a well-formed map returns what the update makes of the old value,
  -- which is then the value of the key, and no other key changes.
  pub load-modify :
      (f : V → V) (m : FastMap K V) (k j : K)
      → IsValid m
      → ((modify f m k).0 ≡ f (value m k))
        × (load (modify f m k).1 j ≡ (if k == j then some (f (value m k)) else load m j))
  load-modify f m k j d = rw (modify_lem f m k d) (refl, load-store m k j (f (value m k)) d)

  pub value-modify :
      (f : V → V) (m : FastMap K V) (k j : K)
      → IsValid m
      → value (modify f m k).1 j ≡ (if k == j then f (value m k) else value m j)
  unfolding value
  value-modify f m k j d = rw ((load-modify f m k j d).1, value) (ground arith)
