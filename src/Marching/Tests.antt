-- ===== src/Marching/Tests.antt =====
-- The lookup table at single cases, and the theorems about it at concrete cells.
use model3d.Base.{
  ℕ, ◌+◌, ◌≡◌, refl, Bool, true, false, ◌&&◌, none, some, List, ◌∷◌, ◌++◌, map, arith, nat_beq,
  nat_eq, length, replicate, count,
}
use model3d.Marching.{
  rotation_eq, all_mc_rotations, apply_corner, apply_intersections, compose, inside,
}
use model3d.Marching.Table.{base_triangle_table, mc_lookup_table}
use model3d.Marching.Faces.{
  triangles, case_sides, face_corners, face_count, far_corners, inner_sides_closed,
  shared_face_closed, side_of,
}
use model3d.Marching.Rotations.{
  rotation, the_rotations, corner_distance, rotations_form_group, rotated_case, base_case,
}
use model3d.Marching.Blocks.{Int3, McBlock, Covers, new_mc_block, pieces, pieces-Covers}
use model3d.Marching.Cache.{
  populate, get_cube, square_bits, fetch_z, get_square, square_samples, block_square, sample_at,
  solid_get,
}
use model3d.Marching.Scan.{pairs, put_cache, receive, scan, scan_loop, start_fetch}
use model3d.Marching.Surface.{FitsNext, sampled_cells_fit}

table_size : length mc_lookup_table ≡ 256
unfolding mc_lookup_table
table_size = refl

-- the base case of one corner, and its rotation to corner 7
corner_cases : length (triangles 1) + length (triangles 128) ≡ 2
unfolding mc_lookup_table
corner_cases = refl

abbrev origin : Int3
origin = record { x = 0; y = 0; z = 0 }

-- a solid that has one corner of the grid, and the grid's only block
abbrev point_solid : ℕ → ℕ → ℕ → Bool
point_solid x y z = nat_beq x 1 && nat_beq y 1 && nat_beq z 1

abbrev block : McBlock
block = record { min = origin; max = record { x = 2; y = 2; z = 2 } }

abbrev samples : List Bool
samples = replicate 13 false ++ true ∷ replicate 13 false

samples-populate : populate 3 3 3 point_solid block ≡ some samples
unfolding populate
samples-populate = refl

new_block : new_mc_block 3 3 3 ≡ block
unfolding new_mc_block
new_block = refl

-- a solid that reaches the edge of the grid panics
populate_panics : populate 3 3 3 (λ x y z. true) block ≡ none
unfolding populate
populate_panics = refl

-- both caches read the same square
squares :
    (get_cube block samples 0 0 0 ≡ some 128)
    × (get_square 3 (replicate 4 false ++ true ∷ replicate 4 false) 1 1 ≡ some 1)
unfolding get_cube get_square block_square square_samples square_bits sample_at solid_get
squares = (refl, refl)

plane_samples : fetch_z 3 3 3 point_solid 1 ≡ some (replicate 4 false ++ true ∷ replicate 4 false)
unfolding fetch_z
plane_samples = refl

sampled_cells_fit_example : FitsNext block samples 0 origin 0 1
sampled_cells_fit_example =
    sampled_cells_fit point_solid 3 3 3 block samples 0 0 1 origin samples-populate (omega arith)
      (omega arith) (omega arith) (omega arith) (omega arith)

same_face : map (inside 128) (far_corners 0) ≡ map (inside 64) (face_corners 0)
unfolding inside
same_face = refl

shared_face_closed_example :
    face_count 128 (far_corners 0) 2 3 + face_count 64 (face_corners 0) 2 3
    ≡ face_count 128 (far_corners 0) 3 2 + face_count 64 (face_corners 0) 3 2
shared_face_closed_example =
    shared_face_closed 0 2 3 128 64 (omega arith) (omega arith) (omega arith) (omega arith)
      (omega arith) same_face

inner_sides_closed_example :
    count (side_of 2 13) (case_sides 3) ≡ count (side_of 13 2) (case_sides 3)
inner_sides_closed_example =
    inner_sides_closed 3 2 13 (omega arith) (omega arith) (omega arith) refl

rotations_form_group_example :
    (length the_rotations ≡ 24)
    × (corner_distance (apply_corner (rotation 5) 1) (apply_corner (rotation 5) 6)
        ≡ corner_distance 1 6)
    × (count (compose (rotation 5) (rotation 7)) the_rotations ≡ 1)
rotations_form_group_example =
    rotations_form_group 5 7 1 6 (omega arith) (omega arith) (omega arith) (omega arith)

rotated_itself : rotated_case 0 1 ≡ (base_case 1).0
unfolding all_mc_rotations apply_intersections base_triangle_table
rotated_itself = refl

pieces-Covers_example : Covers block origin (pieces 7 1 (λ b. true) block)
pieces-Covers_example =
    pieces-Covers 7 1 (λ b. true) block origin (omega arith) (omega arith) (omega arith)
      (λ b h. refl)

-- two goroutines and five planes: a ring of three caches
scan_five : scan 2 5 ≡ some (pairs 4 0)
unfolding scan scan_loop receive start_fetch put_cache
scan_five = refl
