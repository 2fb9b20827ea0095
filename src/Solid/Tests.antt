-- ===== src/Solid/Tests.antt =====
-- Tests of the combinators and of the SolidMux on small solids.
use model3d.Base.{
  ℕ, ◌≡◌, refl, Bool, true, not, ◌&&◌, some, List, [], ◌∷◌, map, arith, ltb, leb, nat_beq, nat_eq,
  length,
}
use model3d.Coords.{
  Coord, Coord3D, Float, float_zero, coord_eq, plane_coord_eq, coord_min, coord_max,
}
use model3d.Bvh.Members.{tally}
use model3d.Bvh.Sorting.{sort_slice, tally-sort_slice, small_arith}
use model3d.Bvh.Plane.{plane_min, plane_max}
use model3d.Solid.{
  SolidSpace, Solid, SolidMux, in_bounds, joined_contains, joined_solid, joined_min, joined_max,
  joined_min_loop, joined_max_loop, subtracted_solid, intersected_solid, optimize, new_solid_mux,
  mux_contains, iter_contains, all_contains,
}
use model3d.Solid.Lawful.{IsLawful, AllLawful, combinators-IsLawful}
use model3d.Solid.Grouped.{ValidUnions, optimize-eq}
use model3d.Solid.AllContains.{new_solid_mux-IsFaithful}
use model3d.Solid.Smooth.{smooth_loop, put_closest, AreLargest, smooth_loop-AreLargest}
use model3d.Solid.Spaces.{
  bounds_valid, solid_space, solid_space-laws, plane_bounds_valid, plane_solid_space,
  plane_optimize, plane_new_solid_mux, plane_mux_contains, plane_all_contains,
}
use model3d.Coords.{with_coord, without_coord}
use model3d.Solid.Sections.{cross_section_solid, cross_section_solid-contains}
use model3d.Solid.Plane.{plane_solids_lem}

abbrev all_finite : Coord3D → Bool
all_finite c = true

abbrev plane_all_finite : Coord → Bool
plane_all_finite c = true

abbrev space : SolidSpace Coord3D
space = solid_space small_arith all_finite

abbrev plane : SolidSpace Coord
plane = plane_solid_space small_arith plane_all_finite

-- a Rect as a Solid
abbrev block : ℕ → ℕ → Solid Coord3D
block lo hi =
    let low : Coord3D = record { x = lo; y = 1; z = 1 } in
    let high : Coord3D = record { x = hi; y = 9; z = 9 } in
    record { min = low; max = high; contains = λ c. in_bounds space low high c }

abbrev tile : ℕ → ℕ → Solid Coord
tile lo hi =
    let low : Coord = record { x = lo; y = 1 } in
    let high : Coord = record { x = hi; y = 9 } in
    record { min = low; max = high; contains = λ c. in_bounds plane low high c }

abbrev blocks : List (Solid Coord3D)
blocks = block 1 4 ∷ block 3 6 ∷ block 8 9 ∷ []

abbrev tiles : List (Solid Coord)
tiles = tile 1 4 ∷ tile 3 6 ∷ tile 8 9 ∷ []

blocks-AllLawful : AllLawful space blocks
blocks-AllLawful c = ground arith

tiles-AllLawful : AllLawful plane tiles
tiles-AllLawful c = ground arith

-- a box that is not inverted
abbrev is_proper : Coord3D → Coord3D → Bool
is_proper lo hi = leb lo.x hi.x && (leb lo.y hi.y && leb lo.z hi.z)

abbrev plane_is_proper : Coord → Coord → Bool
plane_is_proper lo hi = leb lo.x hi.x && leb lo.y hi.y

joined-is_proper :
    (lo hi : Coord3D) (ss : List (Solid Coord3D))
    → is_proper lo hi ≡ true
    → is_proper (joined_min_loop space lo ss) (joined_max_loop space hi ss) ≡ true
unfolding joined_min_loop joined_max_loop coord_min coord_max
joined-is_proper lo hi [] h = h
joined-is_proper lo hi (s ∷ ss) h =
    joined-is_proper (coord_min lo s.min) (coord_max hi s.max) ss (ground (arith, h))

plane_joined-is_proper :
    (lo hi : Coord) (ss : List (Solid Coord))
    → plane_is_proper lo hi ≡ true
    → plane_is_proper (joined_min_loop plane lo ss) (joined_max_loop plane hi ss) ≡ true
unfolding joined_min_loop joined_max_loop plane_min plane_max
plane_joined-is_proper lo hi [] h = h
plane_joined-is_proper lo hi (s ∷ ss) h =
    plane_joined-is_proper (plane_min lo s.min) (plane_max hi s.max) ss (ground (arith, h))

blocks-ValidUnions : ValidUnions space blocks
unfolding joined_min joined_max bounds_valid
blocks-ValidUnions [] lo hi sub h k = absurd (ground (arith, h))
blocks-ValidUnions (s ∷ part) lo hi sub h k =
    let proper : is_proper s.min s.max ≡ true =
      ground (arith, sub (λ t. not (is_proper t.min t.max))) in
    let lo_eq : joined_min_loop space s.min part ≡ lo = ground (arith, h) in
    let hi_eq : joined_max_loop space s.max part ≡ hi = ground (arith, k) in
    let whole = rw (lo_eq, hi_eq) at (joined-is_proper s.min s.max part proper) in
    ground (arith, whole)

tiles-ValidUnions : ValidUnions plane tiles
unfolding joined_min joined_max plane_bounds_valid
tiles-ValidUnions [] lo hi sub h k = absurd (ground (arith, h))
tiles-ValidUnions (s ∷ part) lo hi sub h k =
    let proper : plane_is_proper s.min s.max ≡ true =
      ground (arith, sub (λ t. not (plane_is_proper t.min t.max))) in
    let lo_eq : joined_min_loop plane s.min part ≡ lo = ground (arith, h) in
    let hi_eq : joined_max_loop plane s.max part ≡ hi = ground (arith, k) in
    let whole = rw (lo_eq, hi_eq) at (plane_joined-is_proper s.min s.max part proper) in
    ground (arith, whole)

combinators-IsLawful_example :
    IsLawful space (subtracted_solid space (block 1 4) (block 3 6))
    × ((j : Solid Coord3D) × (joined_solid space blocks ≡ some j)
        × IsLawful space j
        × ((c : Coord3D) → j.contains c ≡ ltb 0 (tally (λ t. t.contains c) blocks)))
    × ((i : Solid Coord3D) × (intersected_solid space blocks ≡ some i)
        × IsLawful space i
        × ((c : Coord3D)
            → i.contains c ≡ nat_beq (tally (λ t. t.contains c) blocks) (length blocks)))
combinators-IsLawful_example =
    combinators-IsLawful space (solid_space-laws small_arith all_finite) (block 1 4)
      (block 3 6 ∷ block 8 9 ∷ []) (block 3 6) blocks-AllLawful

optimize-eq_example :
    (o : Solid Coord3D) × (optimize space sort_slice blocks ≡ some o)
    × ((c : Coord3D) → o.contains c ≡ joined_contains space blocks c)
    × IsLawful space o
optimize-eq_example =
    optimize-eq space (solid_space-laws small_arith all_finite) sort_slice blocks tally-sort_slice
      (omega arith) (omega arith) blocks-ValidUnions blocks-AllLawful

new_solid_mux-IsFaithful_example :
    (m : SolidMux Coord3D) × (new_solid_mux space sort_slice blocks ≡ some m)
    × ((c : Coord3D) → mux_contains space m c ≡ joined_contains space blocks c)
    × ((c : Coord3D) → all_contains space m c ≡ some (map (λ s. s.contains c) blocks))
    × ((c : Coord3D)
        → (iter_contains space {S = ℕ} m c (λ i st. st) 0).0 ≡ tally (λ s. s.contains c) blocks)
new_solid_mux-IsFaithful_example =
    new_solid_mux-IsFaithful space (solid_space-laws small_arith all_finite) sort_slice blocks
      tally-sort_slice (omega arith) blocks-AllLawful

plane_solids_lem_example :
    ((o : Solid Coord) × (plane_optimize small_arith plane_all_finite sort_slice tiles ≡ some o)
      × ((c : Coord) → o.contains c ≡ joined_contains plane tiles c))
    × ((m : SolidMux Coord) × (plane_new_solid_mux small_arith plane_all_finite sort_slice tiles
          ≡ some m)
        × ((c : Coord)
            → plane_mux_contains small_arith plane_all_finite m c ≡ joined_contains plane tiles c)
        × ((c : Coord)
            → plane_all_contains small_arith plane_all_finite m c
              ≡ some (map (λ s. s.contains c) tiles)))
plane_solids_lem_example =
    plane_solids_lem small_arith plane_all_finite sort_slice sort_slice tiles tally-sort_slice
      tally-sort_slice (omega arith) tiles-ValidUnions tiles-AllLawful

block-IsLawful : IsLawful space (block 1 4)
block-IsLawful c h = h

tile-IsLawful : IsLawful plane (tile 1 4)
tile-IsLawful c h = h

cross_section_solid-contains_example :
    (s : Solid Coord) × (cross_section_solid small_arith all_finite plane_all_finite (block 1 4) 1 5
      ≡ some s)
    × ((s.min ≡ without_coord (block 1 4).min 1) × (s.max ≡ without_coord (block 1 4).max 1))
    × ((p : Coord3D) → s.contains (without_coord p 1) ≡ (block 1 4).contains (with_coord p 1 5))
    × IsLawful plane s
unfolding plane_bounds_valid
cross_section_solid-contains_example =
    cross_section_solid-contains small_arith all_finite plane_all_finite (block 1 4) 1 5
      block-IsLawful refl

smooth_loop-AreLargest_example :
    (a b : Float × ℕ) × (smooth_loop 0
        (float_zero, 0)
        (float_zero, 0)
        ((5, 0) ∷ (3, 1) ∷ (4, 2) ∷ [])
      ≡ some (a, b))
    × AreLargest a b (5, 0) (3, 1) ((4, 2) ∷ [])
smooth_loop-AreLargest_example =
    smooth_loop-AreLargest (5, 0) (3, 1) (float_zero, 0) ((4, 2) ∷ []) (omega arith) refl

-- the first two values are not put in order: of -4, -2 and -3, as ranks 1, 3 and 2, the two are -3 and -4
smooth_out_of_order :
    smooth_loop {N = ℕ} 0 (float_zero, 0) (float_zero, 0) ((1, 0) ∷ (3, 0) ∷ (2, 0) ∷ [])
    ≡ some ((2, 0), (1, 0))
unfolding smooth_loop put_closest
smooth_out_of_order = refl
