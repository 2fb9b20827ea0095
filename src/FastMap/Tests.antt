-- ===== src/FastMap/Tests.antt =====
-- Runs of the maps under a hash that collides, and the theorems at such maps.
use model3d.Base.{
  eq_beq, ℕ, true, ◌++◌, ◌==◌, ◌&&◌, ◌*◌, ◌^◌, ◌+◌, ◌%◌, ◌≡◌, refl, none, some, [], ◌∷◌, nat_beq,
  if◌then◌else◌, Zero, nat_eq, is_some, to_nat,
}
use model3d.GoMap
use model3d.FastMap.{FastMap, Hash, len, load, store, delete, new, fast_to_slow}
use model3d.FastMap.Lookup.{IsValid, new-IsValid, load-store, store-IsValid}
use model3d.Coords.{Coord, Coord3D, float_zero, coord_eq, edge_eq, plane_coord_eq, plane_edge_eq}
use model3d.FastMap.Contract.{MapLaws, UpdateLaws, on_keys, update_on_keys}
use model3d.FastMap.Plane.{
  plane_coord_map, plane_coord_to_slice, plane_coord_to_number, plane_edge_map, plane_edge_to_slice,
  plane_edge_to_number, plane_map_types_lem, plane_positive_edge, plane_edge_points,
}
use model3d.FastMap.Types.{
  Signed, positive, point, no_entries, signed_beq, signed_edge_beq, positive_edge, edge_points,
  coord_map, coord_to_number, coord_to_slice, edge_map, edge_to_number, edge_to_slice, fast_hash,
  hash_for_edge, map_types_lem, load-store_new,
}
use model3d.FastMap.Ranges.{len-store, len-delete}

-- keys of the same parity collide
instance abbrev parity : Hash ℕ
parity = record { hash = λ n. n % 2 }

instance abbrev number_zero : Zero ℕ
number_zero = record { zero_value = 0 }

abbrev empty : FastMap ℕ ℕ
empty = new ℕ ℕ

abbrev one_key : FastMap ℕ ℕ
one_key = store empty 4 40

-- the second key has the hash of the first
abbrev collided : FastMap ℕ ℕ
collided = store one_key 6 60

one_key-IsValid : IsValid one_key
one_key-IsValid = store-IsValid empty 4 40 new-IsValid

collided-IsValid : IsValid collided
collided-IsValid = store-IsValid one_key 6 60 one_key-IsValid

collided-slow : collided ≡ record { slow_map = (4, 40) ∷ (6, 60) ∷ []; fast_map = none }
unfolding new store fast_to_slow GoMap.lookup GoMap.insert
collided-slow = refl

other_hash_missing : load one_key 6 ≡ none
unfolding new store load GoMap.lookup GoMap.insert
other_hash_missing = refl

load-store_example : load (store one_key 6 60) 4 ≡ (if nat_beq 6 4 then some 60 else load one_key 4)
load-store_example = load-store one_key 6 4 60 one_key-IsValid

len-store_example : len (store one_key 6 60) + to_nat (is_some (load one_key 6)) ≡ len one_key + 1
len-store_example = len-store one_key 6 60 one_key-IsValid

len-delete_example : len (delete collided 4) + to_nat (is_some (load collided 4)) ≡ len collided
len-delete_example = len-delete collided 4 collided-IsValid

-- a hash that sees the first coordinate, with the sign bit of its zero
abbrev first_bits : Signed Coord3D → ℕ
first_bits c = c.point.x + c.negative_zeros % 2 * 2 ^ 63

abbrev plane_first_bits : Signed Coord → ℕ
plane_first_bits c = c.point.x + c.negative_zeros % 2 * 2 ^ 63

abbrev add_numbers : ℕ → ℕ → ℕ
add_numbers x y = x + y

map_types_lem_example :
    MapLaws (on_keys positive point (coord_map first_bits 0 add_numbers))
    × UpdateLaws ⦃z = no_entries⦄
        (update_on_keys positive point (coord_to_slice first_bits 0 add_numbers))
        (λ v x. v ++ x ∷ [])
    × UpdateLaws
        (update_on_keys positive point (coord_to_number first_bits 0 add_numbers))
        add_numbers
    × MapLaws (on_keys positive_edge edge_points (edge_map first_bits 0 add_numbers))
    × UpdateLaws ⦃z = no_entries⦄
        (update_on_keys positive_edge edge_points (edge_to_slice first_bits 0 add_numbers))
        (λ v x. v ++ x ∷ [])
    × UpdateLaws
        (update_on_keys positive_edge edge_points (edge_to_number first_bits 0 add_numbers))
        add_numbers
map_types_lem_example = map_types_lem first_bits 0 add_numbers

-- the halves of a 64-bit hash are put over each other, and those of an edge beside each other
edge_hash :
    (fast_hash first_bits (positive (record { x = 0x5_0000_0003; y = 0; z = 0 })) ≡ 6)
    × ((hash_for_edge first_bits).hash
          (positive (record { x = 1; y = 0; z = 0 }), positive (record { x = 2; y = 0; z = 0 }))
        ≡ 0x2_0000_0001)
unfolding fast_hash hash_for_edge
edge_hash = (refl, refl)

plane_map_types_lem_example :
    MapLaws (on_keys positive point (plane_coord_map plane_first_bits 0 add_numbers))
    × UpdateLaws ⦃z = no_entries⦄
        (update_on_keys positive point (plane_coord_to_slice plane_first_bits 0 add_numbers))
        (λ v x. v ++ x ∷ [])
    × UpdateLaws
        (update_on_keys positive point (plane_coord_to_number plane_first_bits 0 add_numbers))
        add_numbers
    × MapLaws (
        on_keys plane_positive_edge plane_edge_points
          (plane_edge_map plane_first_bits 0 add_numbers))
    × UpdateLaws ⦃z = no_entries⦄
        (update_on_keys plane_positive_edge plane_edge_points
          (plane_edge_to_slice plane_first_bits 0 add_numbers))
        (λ v x. v ++ x ∷ [])
    × UpdateLaws
        (update_on_keys plane_positive_edge plane_edge_points
          (plane_edge_to_number plane_first_bits 0 add_numbers))
        add_numbers
plane_map_types_lem_example = plane_map_types_lem plane_first_bits 0 add_numbers

-- the origin, and the origin with a negative zero in its first coordinate
abbrev origin : Coord3D
origin = record { x = float_zero; y = float_zero; z = float_zero }

abbrev negative_origin : Signed Coord3D
negative_origin = record { point = origin; negative_zeros = 1 }

-- the two are `==`, and a value that is stored at the one is not found at the other
signed_zero_missed :
    ((signed_beq {C = Coord3D}).same (positive origin) negative_origin ≡ true)
    × ((coord_map first_bits 0 add_numbers).map_load
          ((coord_map first_bits 0 add_numbers).map_store
            (coord_map first_bits 0 add_numbers).new_map
            (positive origin)
            5)
          negative_origin
        ≡ none)
signed_zero_missed =
    (refl, load-store_new first_bits 0 add_numbers (positive origin) negative_origin 5)

load-store_new_example :
    (coord_map first_bits 0 add_numbers).map_load
      ((coord_map first_bits 0 add_numbers).map_store
        (coord_map first_bits 0 add_numbers).new_map
        (positive origin)
        5)
      (positive origin)
    ≡ (if nat_beq (first_bits (positive origin)) (first_bits (positive origin))
          && (origin == origin)
        then some 5
        else none)
load-store_new_example =
    load-store_new first_bits 0 add_numbers (positive origin) (positive origin) 5
