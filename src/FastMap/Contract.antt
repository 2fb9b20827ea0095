-- ===== src/FastMap/Contract.antt =====
-- model3d/fast_maps.go: the operations of a map and what it promises, a finite map from keys to values.
use model3d.Base.{
  eq_beq, ℕ, ◌+◌, ◌≡◌, refl, ap, ◌∙◌, Bool, Option, none, some, [], if◌then◌else◌, BEq, Eq, ◌==◌,
  Zero, nat_eq, is_some, to_nat,
}
use model3d.GoMap
use model3d.GoMap.{GoMap, IsDistinct}
use model3d.FastMap.{
  FastMap, Hash, new, len, load, value, value_or_zero, store, delete, modify, range, key_range,
  value_range, range_entries,
}
use model3d.FastMap.Lookup.{
  IsValid, new-IsValid, store-IsValid, delete-IsValid, load-store, load-delete,
}
use model3d.FastMap.Modify.{load-modify, modify-IsValid}
use model3d.FastMap.Ranges.{len-store, len-delete}
use model3d.FastMap.Entries.{collect_entry, range-eq, entries_lem}
use model3d.FastMap.Keys.{
  hash_through, lift, load-lift, store-lift, delete-lift, modify-lift, len-lift, range-lift,
}

-- the operations that all types of maps have, on a state S
pub record MapOperations (K V S : Type 0) : Type 1 where
  pub new_map : S
  pub map_len : S → ℕ
  pub map_value : S → K → V
  pub map_load : S → K → Option V
  pub map_delete : S → K → S
  pub map_store : S → K → V → S
  pub map_range : {A : Type 0} → (K → V → A → Bool × A) → S → A → A
  pub map_key_range : {A : Type 0} → (K → A → Bool × A) → S → A → A
  pub map_value_range : {A : Type 0} → (V → A → Bool × A) → S → A → A

-- those with Append or Add, of an X to the value of a key
pub record UpdateOperations (K V X S : Type 0) : Type 1 where
  pub maps : MapOperations K V S
  pub map_update : S → K → X → V × S

-- the entries that a Range shows to a callback that never stops
abbrev pub entries : {K V S : Type 0} → MapOperations K V S → S → GoMap K V
entries o s = o.map_range collect_entry s []

-- what a map promises: after any operation on a well-formed state, Load, Value and Len are those of
-- the finite map that was changed at the one key, and the ranges go over its entries, each key once,
-- until the callback stops them
pub record MapLaws {K V S : Type 0} ⦃e : Eq K⦄ ⦃z : Zero V⦄ (o : MapOperations K V S) : Type 1 where
  pub IsState : S → Type 0
  pub new-IsState : IsState o.new_map
  pub store-IsState : (s : S) (k : K) (v : V) → IsState s → IsState (o.map_store s k v)
  pub delete-IsState : (s : S) (k : K) → IsState s → IsState (o.map_delete s k)
  pub load-new : (k : K) → o.map_load o.new_map k ≡ none
  pub load-store :
      (s : S) (k j : K) (v : V)
      → IsState s
      → o.map_load (o.map_store s k v) j ≡ (if k == j then some v else o.map_load s j)
  pub load-delete :
      (s : S) (k j : K)
      → IsState s
      → o.map_load (o.map_delete s k) j ≡ (if k == j then none else o.map_load s j)
  pub value-load : (s : S) (k : K) → IsState s → o.map_value s k ≡ value_or_zero (o.map_load s k)
  pub len-new : o.map_len o.new_map ≡ 0
  pub len-store :
      (s : S) (k : K) (v : V)
      → IsState s
      → o.map_len (o.map_store s k v) + to_nat (is_some (o.map_load s k)) ≡ o.map_len s + 1
  pub len-delete :
      (s : S) (k : K)
      → IsState s
      → o.map_len (o.map_delete s k) + to_nat (is_some (o.map_load s k)) ≡ o.map_len s
  pub entries-IsDistinct : (s : S) → IsState s → IsDistinct (entries o s)
  pub lookup-entries : (s : S) (k : K) → IsState s → GoMap.lookup k (entries o s) ≡ o.map_load s k
  pub range-entries :
      {A : Type 0} (f : K → V → A → Bool × A) (s : S) (a : A)
      → IsState s
      → o.map_range f s a ≡ range_entries f (entries o s) a
  pub key_range-range :
      {A : Type 0} (f : K → A → Bool × A) (s : S) (a : A)
      → o.map_key_range f s a ≡ o.map_range (λ k v. f k) s a
  pub value_range-range :
      {A : Type 0} (f : V → A → Bool × A) (s : S) (a : A)
      → o.map_value_range f s a ≡ o.map_range (λ k v. f v) s a

-- and with an update: it returns the new value, which is then that of the key
pub record UpdateLaws {K V X S : Type 0} ⦃e : Eq K⦄ ⦃z : Zero V⦄ (o : UpdateOperations K V X S)
    (update : V → X → V) : Type 1 where
  pub laws : MapLaws o.maps
  pub update-IsState :
      (s : S) (k : K) (x : X) → laws.IsState s → laws.IsState (o.map_update s k x).1
  pub load-update :
      (s : S) (k j : K) (x : X)
      → laws.IsState s
      → ((o.map_update s k x).0 ≡ update (o.maps.map_value s k) x)
        × (o.maps.map_load (o.map_update s k x).1 j
            ≡ (if k == j then some (update (o.maps.map_value s k) x) else o.maps.map_load s j))

module _ {R V : Type 0} ⦃b : BEq R⦄ ⦃z : Zero V⦄ where
  -- one instance of the file's text
  abbrev pub operations : Hash R → MapOperations R V (FastMap R V)
  operations h = record {
    new_map = new R V;
    map_len = len;
    map_value = value ⦃h = h⦄;
    map_load = load ⦃h = h⦄;
    map_delete = delete ⦃h = h⦄;
    map_store = store ⦃h = h⦄;
    map_range = range;
    map_key_range = key_range;
    map_value_range = value_range;
  }

  abbrev pub update_operations :
      {X : Type 0} → Hash R → (V → X → V) → UpdateOperations R V X (FastMap R V)
  update_operations h update = record {
    maps = operations h;
    map_update = λ s k x. modify ⦃h = h⦄ (λ v. update v x) s k;
  }

-- the key of the representative of a key, and the key
abbrev pub put_get : {K R : Type 0} → (K → R) → (R → K) → K → K
put_get put get k = get (put k)

abbrev pub unchanged : {K : Type 0} → K → K
unchanged k = k

-- a map that is used with the representatives of keys only
abbrev pub on_keys :
    {K R V S : Type 0} → (K → R) → (R → K) → MapOperations R V S → MapOperations K V S
on_keys put get o = record {
  new_map = o.new_map;
  map_len = o.map_len;
  map_value = λ s k. o.map_value s (put k);
  map_load = λ s k. o.map_load s (put k);
  map_delete = λ s k. o.map_delete s (put k);
  map_store = λ s k. o.map_store s (put k);
  map_range = λ f. o.map_range (λ r. f (get r));
  map_key_range = λ f. o.map_key_range (λ r. f (get r));
  map_value_range = o.map_value_range;
}

abbrev pub update_on_keys :
    {K R V X S : Type 0} → (K → R) → (R → K) → UpdateOperations R V X S → UpdateOperations K V X S
update_on_keys put get o = record {
  maps = on_keys put get o.maps;
  map_update = λ s k. o.map_update s (put k);
}

module _ {K R V : Type 0} ⦃e : Eq K⦄ ⦃b : BEq R⦄ ⦃z : Zero V⦄ (h : Hash R) (put : K → R)
    (get : R → K) (same : (k j : K) → b.same (put k) (put j) ≡ (k == j))
    (back : put_get put get ≡ unchanged) where
  -- a state that keys without a representative never entered
  abbrev Through : FastMap R V → Type 0
  Through s = (m : FastMap K V) × (s ≡ lift h put m) × IsValid ⦃h = hash_through h put⦄ m

  range-through :
      {A : Type 0} (f : K → V → A → Bool × A) (m : FastMap K V) (a : A)
      → range (λ r. f (get r)) (lift h put m) a ≡ range f m a
  range-through f m a =
      range-lift h put (λ r. f (get r)) m a ∙ ap (λ q. range (λ k. f (q k)) m a) back

  pub operations_lem : MapLaws (on_keys put get (operations {V = V} h))
  unfolding new load len value GoMap.lookup key_range value_range
  operations_lem = record {
    IsState = Through;
    new-IsState = (new K V, refl, new-IsValid ⦃h = hash_through h put⦄);
    store-IsState = λ s k v (m, q, d). (
      store ⦃h = hash_through h put⦄ m k v,
      rw q (store-lift h put same m k v),
      store-IsValid ⦃h = hash_through h put⦄ m k v d,
    );
    delete-IsState = λ s k (m, q, d). (
      delete ⦃h = hash_through h put⦄ m k,
      rw q (delete-lift h put same m k),
      delete-IsValid ⦃h = hash_through h put⦄ m k d,
    );
    load-new = λ k. refl;
    load-store = λ s k j v (m, q, d). rw q (
        rw (store-lift h put same m k v) (
          rw
            (
              load-lift h put same (store ⦃h = hash_through h put⦄ m k v) j,
              load-lift h put same m j,
            )
            (load-store ⦃h = hash_through h put⦄ m k j v d)));
    load-delete = λ s k j (m, q, d). rw q (
        rw (delete-lift h put same m k) (
          rw
            (load-lift h put same (delete ⦃h = hash_through h put⦄ m k) j, load-lift h put same m j)
            (load-delete ⦃h = hash_through h put⦄ m k j d)));
    value-load = λ s k d. refl;
    len-new = refl;
    len-store = λ s k v (m, q, d). rw q (
        rw (store-lift h put same m k v) (
          rw
            (
              len-lift h put (store ⦃h = hash_through h put⦄ m k v),
              load-lift h put same m k,
              len-lift h put m,
            )
            (len-store ⦃h = hash_through h put⦄ m k v d)));
    len-delete = λ s k (m, q, d). rw q (
        rw (delete-lift h put same m k) (
          rw
            (
              len-lift h put (delete ⦃h = hash_through h put⦄ m k),
              load-lift h put same m k,
              len-lift h put m,
            )
            (len-delete ⦃h = hash_through h put⦄ m k d)));
    entries-IsDistinct = λ s (m, q, d).
        rw q (rw (range-through collect_entry m []) (entries_lem ⦃h = hash_through h put⦄ m d).0);
    lookup-entries = λ s k (m, q, d). rw q (
        rw (range-through collect_entry m [], load-lift h put same m k)
          ((entries_lem ⦃h = hash_through h put⦄ m d).1 k));
    range-entries = λ f s a (m, q, d).
        rw q (rw (range-through f m a, range-through collect_entry m []) (range-eq f m a));
    key_range-range = λ f s a. refl;
    value_range-range = λ f s a. refl;
  }

  module _ {X : Type 0} (update : V → X → V) where
    modify-through :
        (m : FastMap K V) (k j : K) (x : X)
        → IsValid ⦃h = hash_through h put⦄ m
        → let done = modify ⦃h = h⦄ (λ v. update v x) (lift h put m) (put k) in
          let old = value ⦃h = h⦄ (lift h put m) (put k) in
          (done.0 ≡ update old x)
          × (load ⦃h = h⦄ done.1 (put j)
              ≡ (if k == j then some (update old x) else load ⦃h = h⦄ (lift h put m) (put j)))
    unfolding value
    modify-through m k j x d =
        let g : V → V = λ v. update v x in
        let next = (modify ⦃h = hash_through h put⦄ g m k).1 in
        let changed = load-modify ⦃h = hash_through h put⦄ g m k j d in
        rw (modify-lift h put same g m k) (
          rw (load-lift h put same next j, load-lift h put same m k, load-lift h put same m j)
            changed)

    pub update_operations_lem :
        UpdateLaws (update_on_keys put get (update_operations h update)) update
    unfolding operations_lem
    update_operations_lem = record {
      laws = operations_lem;
      update-IsState = λ s k x (m, q, d).
          let g : V → V = λ v. update v x in
          (
            (modify ⦃h = hash_through h put⦄ g m k).1,
            rw q (ap (λ p. p.1) (modify-lift h put same g m k)),
            modify-IsValid ⦃h = hash_through h put⦄ g m k d,
          );
      load-update = λ s k j x (m, q, d). rw q (modify-through m k j x d);
    }
