-- ===== src/FastMap/Types.antt =====
-- model3d/fast_maps.go: the six types of maps, each with its keys, its values and its hash.
-- `c.fastHash64`, which rounds a sum of products of floats, is a parameter that sees the signs of
-- zeros, as `==` does not; the zero value and the addition of numbers are parameters too.
use model3d.Base.{
  eq_beq, ℕ, ◌*◌, ◌/◌, ◌%◌, ◌^◌, ◌≡◌, refl, ◌&&◌, none, some, List, [], ◌∷◌, ◌++◌, if◌then◌else◌,
  BEq, Eq, ◌==◌, Zero, nat_eq, nat_beq, arith,
}
use Prim.Native.Nat.{bit_or, bit_xor}
use model3d.GoMap
use model3d.Coords.{Coord3D, Edge, coord_eq, edge_eq}
use model3d.FastMap.{FastMap, Hash, new, load, store}
use model3d.FastMap.Contract.{
  MapOperations, UpdateOperations, MapLaws, UpdateLaws, operations, update_operations, on_keys,
  update_on_keys, operations_lem, update_operations_lem,
}

-- a point with the signs of its zeros, as a mask of the coordinates that are -0
pub record Signed (C : Type 0) : Type 0 where
  pub point : C
  pub negative_zeros : ℕ

-- the point without a negative zero
abbrev pub positive : {C : Type 0} → C → Signed C
positive c = record { point = c; negative_zeros = 0 }

abbrev pub point : {C : Type 0} → Signed C → C
point c = c.point

-- `==` does not see the sign of a zero
instance abbrev pub signed_beq : {C : Type 0} ⦃e : Eq C⦄ → BEq (Signed C)
signed_beq = record { same = λ a b. a.point == b.point }

instance abbrev pub signed_edge_beq : {C : Type 0} ⦃e : Eq C⦄ → BEq (Signed C × Signed C)
signed_edge_beq = record { same = λ a b. (a.0.point == b.0.point) && (a.1.point == b.1.point) }

abbrev pub no_entries : {T : Type 0} → Zero (List T)
no_entries = record { zero_value = [] }

abbrev pub positive_edge : Edge → Signed Coord3D × Signed Coord3D
positive_edge c = (positive c.first, positive c.second)

abbrev pub edge_points : Signed Coord3D × Signed Coord3D → Edge
edge_points c = record { first = c.0.point; second = c.1.point }

-- the two halves of a 64-bit hash over each other
unfoldable pub fold_hash : ℕ → ℕ
fold_hash x = bit_xor (x % 2 ^ 32) (x / 2 ^ 32 % 2 ^ 32)

-- one 32-bit hash in the low bits, the other in the high ones
unfoldable pub join_hashes : ℕ → ℕ → ℕ
join_hashes h1 h2 = bit_or h1 (h2 * 2 ^ 32 % 2 ^ 64)

module _ (fast_hash64 : Signed Coord3D → ℕ) where
  unfoldable pub fast_hash : Signed Coord3D → ℕ
  unfolding fold_hash
  fast_hash c = fold_hash (fast_hash64 c)

  unfoldable pub hash_for_coord : Hash (Signed Coord3D)
  hash_for_coord = record { hash = fast_hash64 }

  unfoldable pub hash_for_edge : Hash (Signed Coord3D × Signed Coord3D)
  unfolding fast_hash join_hashes
  hash_for_edge = record { hash = λ c. join_hashes (fast_hash c.0) (fast_hash c.1) }

  -- `zero` is the zero value of T, and `add` its `+`
  module _ {T : Type 0} (zero_t : T) (add : T → T → T) where
    unfoldable pub coord_map : MapOperations (Signed Coord3D) T (FastMap (Signed Coord3D) T)
    coord_map = operations ⦃z = record { zero_value = zero_t }⦄ hash_for_coord

    unfoldable pub coord_to_slice :
        UpdateOperations (Signed Coord3D) (List T) T (FastMap (Signed Coord3D) (List T))
    coord_to_slice = update_operations ⦃z = no_entries⦄ hash_for_coord (λ v x. v ++ x ∷ [])

    unfoldable pub coord_to_number :
        UpdateOperations (Signed Coord3D) T T (FastMap (Signed Coord3D) T)
    coord_to_number = update_operations ⦃z = record { zero_value = zero_t }⦄ hash_for_coord add

    unfoldable pub edge_map :
        MapOperations
          (Signed Coord3D × Signed Coord3D)
          T
          (FastMap (Signed Coord3D × Signed Coord3D) T)
    edge_map = operations ⦃z = record { zero_value = zero_t }⦄ hash_for_edge

    unfoldable pub edge_to_slice :
        UpdateOperations
          (Signed Coord3D × Signed Coord3D)
          (List T)
          T
          (FastMap (Signed Coord3D × Signed Coord3D) (List T))
    edge_to_slice = update_operations ⦃z = no_entries⦄ hash_for_edge (λ v x. v ++ x ∷ [])

    unfoldable pub edge_to_number :
        UpdateOperations
          (Signed Coord3D × Signed Coord3D)
          T
          T
          (FastMap (Signed Coord3D × Signed Coord3D) T)
    edge_to_number = update_operations ⦃z = record { zero_value = zero_t }⦄ hash_for_edge add

    -- Used with points that have no negative zero, each of the six types of maps is a finite map
    -- from its keys to its values, for any hash of points: Load, Value and Len after New, Store
    -- and Delete, and Load after Append and Add, are those of a map that was changed at the one
    -- key, of which Append and Add return the new value; Range goes over the entries, each key
    -- once with the value that Load finds, until the callback stops it, and KeyRange and
    -- ValueRange go over the same keys and values.
    pub map_types_lem :
        MapLaws ⦃z = record { zero_value = zero_t }⦄ (on_keys positive point coord_map)
        × UpdateLaws ⦃z = no_entries⦄
            (update_on_keys positive point coord_to_slice)
            (λ v x. v ++ x ∷ [])
        × UpdateLaws ⦃z = record { zero_value = zero_t }⦄
            (update_on_keys positive point coord_to_number)
            add
        × MapLaws ⦃z = record { zero_value = zero_t }⦄ (on_keys positive_edge edge_points edge_map)
        × UpdateLaws ⦃z = no_entries⦄
            (update_on_keys positive_edge edge_points edge_to_slice)
            (λ v x. v ++ x ∷ [])
        × UpdateLaws ⦃z = record { zero_value = zero_t }⦄
            (update_on_keys positive_edge edge_points edge_to_number)
            add
    unfolding coord_map coord_to_slice coord_to_number edge_map edge_to_slice edge_to_number
    map_types_lem = (
      operations_lem ⦃z = record { zero_value = zero_t }⦄ hash_for_coord positive point
          (λ k j. refl) refl,
      update_operations_lem ⦃z = no_entries⦄ hash_for_coord positive point (λ k j. refl) refl
          (λ v x. v ++ x ∷ []),
      update_operations_lem ⦃z = record { zero_value = zero_t }⦄ hash_for_coord positive point
          (λ k j. refl) refl add,
      operations_lem ⦃z = record { zero_value = zero_t }⦄ hash_for_edge positive_edge edge_points
          (λ k j. refl) refl,
      update_operations_lem ⦃z = no_entries⦄ hash_for_edge positive_edge edge_points (λ k j. refl)
          refl (λ v x. v ++ x ∷ []),
      update_operations_lem ⦃z = record { zero_value = zero_t }⦄ hash_for_edge positive_edge
          edge_points (λ k j. refl) refl add,
    )

    -- In a CoordMap with one value, stored when it was new, Load finds the value exactly at the
    -- keys that are == to its key and have the same hash, so a point that differs from the key in
    -- the sign of a zero is missed if the hash sees that sign.
    pub load-store_new :
        (k j : Signed Coord3D) (v : T)
        → coord_map.map_load (coord_map.map_store coord_map.new_map k v) j ≡ (
            if nat_beq (fast_hash64 k) (fast_hash64 j) && (k.point == j.point)
            then some v
            else none)
    unfolding coord_map hash_for_coord new load store GoMap.lookup GoMap.insert
    load-store_new k j v = ground arith
