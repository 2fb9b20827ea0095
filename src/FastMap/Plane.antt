-- ===== src/FastMap/Plane.antt =====
-- model2d/fast_maps.go: the six types of maps over points and edges of the plane, which come from the
-- template of those in model3d/fast_maps.go. `c.fastHash64`, a rounded sum of products, is a parameter.
use model3d.Base.{eq_beq, ℕ, refl, List, [], ◌∷◌, ◌++◌, nat_eq}
use model3d.Coords.{Coord, PlaneEdge, plane_coord_eq, plane_edge_eq}
use model3d.FastMap.{FastMap, Hash}
use model3d.FastMap.Contract.{
  MapOperations, UpdateOperations, MapLaws, UpdateLaws, operations, update_operations, on_keys,
  update_on_keys, operations_lem, update_operations_lem,
}
use model3d.FastMap.Types.{
  Signed, positive, point, signed_beq, signed_edge_beq, no_entries, fold_hash, join_hashes,
}

abbrev pub plane_positive_edge : PlaneEdge → Signed Coord × Signed Coord
plane_positive_edge c = (positive c.first, positive c.second)

abbrev pub plane_edge_points : Signed Coord × Signed Coord → PlaneEdge
plane_edge_points c = record { first = c.0.point; second = c.1.point }

module _ (fast_hash64 : Signed Coord → ℕ) where
  unfoldable pub plane_fast_hash : Signed Coord → ℕ
  unfolding fold_hash
  plane_fast_hash c = fold_hash (fast_hash64 c)

  unfoldable pub plane_hash_for_coord : Hash (Signed Coord)
  plane_hash_for_coord = record { hash = fast_hash64 }

  unfoldable pub plane_hash_for_edge : Hash (Signed Coord × Signed Coord)
  unfolding plane_fast_hash join_hashes
  plane_hash_for_edge = record {
    hash = λ c. join_hashes (plane_fast_hash c.0) (plane_fast_hash c.1);
  }

  -- `zero` is the zero value of T, and `add` its `+`
  module _ {T : Type 0} (zero_t : T) (add : T → T → T) where
    unfoldable pub plane_coord_map : MapOperations (Signed Coord) T (FastMap (Signed Coord) T)
    plane_coord_map = operations ⦃z = record { zero_value = zero_t }⦄ plane_hash_for_coord

    unfoldable pub plane_coord_to_slice :
        UpdateOperations (Signed Coord) (List T) T (FastMap (Signed Coord) (List T))
    plane_coord_to_slice =
        update_operations ⦃z = no_entries⦄ plane_hash_for_coord (λ v x. v ++ x ∷ [])

    unfoldable pub plane_coord_to_number :
        UpdateOperations (Signed Coord) T T (FastMap (Signed Coord) T)
    plane_coord_to_number =
        update_operations ⦃z = record { zero_value = zero_t }⦄ plane_hash_for_coord add

    unfoldable pub plane_edge_map :
        MapOperations (Signed Coord × Signed Coord) T (FastMap (Signed Coord × Signed Coord) T)
    plane_edge_map = operations ⦃z = record { zero_value = zero_t }⦄ plane_hash_for_edge

    unfoldable pub plane_edge_to_slice :
        UpdateOperations
          (Signed Coord × Signed Coord)
          (List T)
          T
          (FastMap (Signed Coord × Signed Coord) (List T))
    plane_edge_to_slice =
        update_operations ⦃z = no_entries⦄ plane_hash_for_edge (λ v x. v ++ x ∷ [])

    unfoldable pub plane_edge_to_number :
        UpdateOperations (Signed Coord × Signed Coord) T T (FastMap (Signed Coord × Signed Coord) T)
    plane_edge_to_number =
        update_operations ⦃z = record { zero_value = zero_t }⦄ plane_hash_for_edge add

    -- the laws of the six types of maps of the plane, for points without a negative zero
    pub plane_map_types_lem :
        MapLaws ⦃z = record { zero_value = zero_t }⦄ (on_keys positive point plane_coord_map)
        × UpdateLaws ⦃z = no_entries⦄
            (update_on_keys positive point plane_coord_to_slice)
            (λ v x. v ++ x ∷ [])
        × UpdateLaws ⦃z = record { zero_value = zero_t }⦄
            (update_on_keys positive point plane_coord_to_number)
            add
        × MapLaws ⦃z = record { zero_value = zero_t }⦄
            (on_keys plane_positive_edge plane_edge_points plane_edge_map)
        × UpdateLaws ⦃z = no_entries⦄
            (update_on_keys plane_positive_edge plane_edge_points plane_edge_to_slice)
            (λ v x. v ++ x ∷ [])
        × UpdateLaws ⦃z = record { zero_value = zero_t }⦄
            (update_on_keys plane_positive_edge plane_edge_points plane_edge_to_number)
            add
    unfolding plane_coord_map plane_coord_to_slice plane_coord_to_number plane_edge_map
        plane_edge_to_slice plane_edge_to_number
    plane_map_types_lem = (
      operations_lem ⦃z = record { zero_value = zero_t }⦄ plane_hash_for_coord positive point
          (λ k j. refl) refl,
      update_operations_lem ⦃z = no_entries⦄ plane_hash_for_coord positive point (λ k j. refl) refl
          (λ v x. v ++ x ∷ []),
      update_operations_lem ⦃z = record { zero_value = zero_t }⦄ plane_hash_for_coord positive point
          (λ k j. refl) refl add,
      operations_lem ⦃z = record { zero_value = zero_t }⦄ plane_hash_for_edge plane_positive_edge
          plane_edge_points (λ k j. refl) refl,
      update_operations_lem ⦃z = no_entries⦄ plane_hash_for_edge plane_positive_edge
          plane_edge_points (λ k j. refl) refl (λ v x. v ++ x ∷ []),
      update_operations_lem ⦃z = record { zero_value = zero_t }⦄ plane_hash_for_edge
          plane_positive_edge plane_edge_points (λ k j. refl) refl add,
    )
