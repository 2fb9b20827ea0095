-- ===== src/Mesh/Tests.antt =====
-- A mesh of two triangles that share an edge, and the theorems at it.
use model3d.Base.{
  eq_beq, ℕ, zero, suc, ◌+◌, ◌≡◌, refl, false, not, ◌&&◌, ◌||◌, some, List, [], ◌∷◌, arith, ltb,
  nat_beq, if◌then◌else◌, ◌==◌, nat_eq, get_elem?, to_nat, count,
}
use model3d.GoMap
use model3d.GoMap.{IsDistinct}
use model3d.Coords.{Coord3D, coord_eq, float_zero}
use model3d.FastMap.Types.{Signed, positive, signed_beq}
use model3d.FastMap
use model3d.FastMap.{Hash}
use model3d.Mesh.{
  append_all, append_face, face_flag, find_loop, index_faces, remove_face_from_vertex,
  remove_from_all, store_or_delete, Mesh, Pointer, Triangle, UnorderedDelete, add, add_mesh,
  all_vertices, contains, copy, find, get_vertex_to_face, index_of, is_vertex, new_mesh, remove,
  unique_vertices, neighbors, neighbors_with_counts, add_counts, counted, many_times,
}
use model3d.Mesh.Neighbors.{count-neighbors}
use model3d.Mesh.Invariant.{Indexes, IsMesh, new_mesh-IsMesh, add_lem, remove_lem}
use model3d.Mesh.Build.{get_vertex_to_face_lem, add_mesh_lem}
use model3d.Mesh.Queries.{count-find}

abbrev at : ℕ → ℕ → ℕ → Coord3D
at x y z = record { x = x; y = y; z = z }

-- points of one plane collide
instance abbrev plane_hash : Hash Coord3D
plane_hash = record { hash = λ p. p.z }

-- the triangle of each pointer
abbrev tri : Pointer → Triangle Coord3D
tri zero = record { a = at 1 1 1; b = at 2 1 1; c = at 1 2 2 }
tri (suc f) = record { a = at 2 1 1; b = at 1 2 2; c = at 5 5 f }

-- the entries behind the one that goes move up
unfoldable shift_delete : List Pointer → ℕ → List Pointer
shift_delete [] i = []
shift_delete (x ∷ xs) zero = xs
shift_delete (x ∷ xs) (suc i) = x ∷ shift_delete xs i

count-shift_delete :
    (xs : List Pointer) (i : ℕ) (x y : Pointer)
    → get_elem? xs i ≡ some x
    → count y (shift_delete xs i) + to_nat (x == y) ≡ count y xs
unfolding shift_delete
count-shift_delete [] i x y h = absurd (cc h)
count-shift_delete (w ∷ xs) zero x y h = ground (arith, h)
count-shift_delete (w ∷ xs) (suc i) x y h = omega (arith, count-shift_delete xs i x y h)

abbrev deleter : UnorderedDelete
deleter = record { delete_at = shift_delete; count-delete_at = count-shift_delete }

abbrev one_face : Mesh Coord3D
one_face = add tri new_mesh 0

-- two faces, with the index built before the second one is added
abbrev two_faces : Mesh Coord3D
two_faces = add tri (get_vertex_to_face tri one_face).1 1

one_face-IsMesh : IsMesh tri one_face
one_face-IsMesh = (add_lem tri new_mesh 0 (new_mesh-IsMesh tri)).0

two_faces-IsMesh : IsMesh tri two_faces
two_faces-IsMesh = (add_lem tri _ 1 (get_vertex_to_face_lem tri one_face one_face-IsMesh).1).0

-- the faces of the shared edge, before and after one face is removed
shared_edge :
    (find tri two_faces (at 2 1 1) (at 1 2 2 ∷ []) ≡ 0 ∷ 1 ∷ [])
    × (find tri (remove tri deleter two_faces 0) (at 2 1 1) (at 1 2 2 ∷ []) ≡ 1 ∷ [])
unfolding find remove add new_mesh get_vertex_to_face FastMap.value FastMap.load face_flag
    GoMap.lookup GoMap.insert append_all unique_vertices append_face FastMap.modify index_faces
    FastMap.new FastMap.fast_to_slow remove_from_all remove_face_from_vertex shift_delete
    FastMap.delete GoMap.delete FastMap.refill FastMap.store all_vertices find_loop index_of
    is_vertex store_or_delete
shared_edge = (refl, refl)

add_lem_example :
    IsMesh tri (add tri two_faces 7)
    × ((g : Pointer) → contains (add tri two_faces 7) g ≡ ((7 == g) || contains two_faces g))
add_lem_example = add_lem tri two_faces 7 two_faces-IsMesh

remove_lem_example :
    IsMesh tri (remove tri deleter two_faces 0)
    × ((g : Pointer)
        → contains (remove tri deleter two_faces 0) g
          ≡ (if 0 == g then false else contains two_faces g))
remove_lem_example = remove_lem tri deleter two_faces 0 two_faces-IsMesh

get_vertex_to_face_lem_example :
    Indexes tri one_face.faces (get_vertex_to_face tri one_face).0
    × IsMesh tri (get_vertex_to_face tri one_face).1
    × ((get_vertex_to_face tri one_face).1.faces ≡ one_face.faces)
get_vertex_to_face_lem_example = get_vertex_to_face_lem tri one_face one_face-IsMesh

add_mesh_lem_example :
    IsMesh tri (add_mesh tri one_face two_faces)
    × IsMesh tri (copy tri two_faces)
    × ((g : Pointer)
        → (contains (add_mesh tri one_face two_faces) g
            ≡ (contains one_face g || contains two_faces g))
          × (contains (copy tri two_faces) g ≡ contains two_faces g))
add_mesh_lem_example = add_mesh_lem tri one_face two_faces one_face-IsMesh two_faces-IsMesh

count-find_example :
    count 1 (find tri two_faces (at 2 1 1) (at 1 2 2 ∷ []))
    ≡ to_nat
        (contains two_faces 1 && is_vertex tri (at 2 1 1) 1 && all_vertices tri (at 1 2 2 ∷ []) 1)
count-find_example = count-find tri two_faces (at 2 1 1) (at 1 2 2 ∷ []) 1 two_faces-IsMesh

-- the two faces are neighbors of each other, and a face is none of itself
their_neighbors : (neighbors tri two_faces 0 ≡ 1 ∷ []) × (neighbors tri two_faces 1 ≡ 0 ∷ [])
unfolding neighbors neighbors_with_counts add_counts counted many_times add new_mesh
    get_vertex_to_face FastMap.value FastMap.load face_flag GoMap.lookup GoMap.insert append_all
    unique_vertices append_face FastMap.modify index_faces FastMap.new FastMap.fast_to_slow
    FastMap.refill FastMap.store
their_neighbors = (refl, refl)

count-neighbors_example :
    count 1 (neighbors tri two_faces 0)
    ≡ to_nat (
        contains two_faces 1
        && not (nat_beq 1 0)
        && ltb 1 (
            (to_nat (is_vertex tri (at 1 1 1) 1) + to_nat (is_vertex tri (at 2 1 1) 1))
            + to_nat (is_vertex tri (at 1 2 2) 1)))
count-neighbors_example = count-neighbors tri two_faces 0 1 two_faces-IsMesh

abbrev origin : Coord3D
origin = at float_zero float_zero float_zero

-- a hash that sees the sign of a zero, as fastHash64 does
abbrev signed_hash : Hash (Signed Coord3D)
signed_hash = record { hash = λ c. c.point.x + c.negative_zeros }

-- a triangle with a vertex at the origin, of which the first coordinate is a negative zero
abbrev signed_tri : Pointer → Triangle (Signed Coord3D)
signed_tri f = record {
  a = record { point = origin; negative_zeros = 1 };
  b = positive (at 2 1 1);
  c = positive (at 1 2 2);
}

-- Find does not find the triangle at the origin, which is `==` to its vertex
signed_zero_missed :
    find ⦃h = signed_hash⦄ signed_tri
      (add ⦃h = signed_hash⦄ signed_tri new_mesh 0)
      (positive origin)
      []
    ≡ []
unfolding find add new_mesh get_vertex_to_face FastMap.value FastMap.load GoMap.lookup GoMap.insert
    append_all unique_vertices append_face FastMap.modify index_faces FastMap.new
    FastMap.fast_to_slow all_vertices find_loop is_vertex
signed_zero_missed = refl
