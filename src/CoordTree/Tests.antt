-- ===== src/CoordTree/Tests.antt =====
-- Trees of four points with exact distances and an insertion sort, and the theorems at such trees.
use native.Mathlib.Nat.{mul-le-mul_left}
use mathlib.Core.List.{Permᴰ}
use mathlib.Core.List.Permᴰ
use model3d.Base.{
  ℕ, zero, suc, ◌+◌, ◌-◌, ◌*◌, ◌≤◌, ◌<◌, ◌≡◌, refl, ◌↔◌, inl, inr, Bool, true, some, List, [], ◌∷◌,
  arith, ltb, if◌then◌else◌, nat_eq, Bool-cases, count,
}
use model3d.Coords.{Coord, Coord3D, Float, float_zero, coord_eq, plane_coord_eq}
use model3d.CoordTree.{
  CoordTree, nil, node, new_coord_tree, new_coord_tree_sorted, set_flags, put_flag, branch,
  flagged_from, contains, slice, nearest_neighbor, nearest_neighbor_step, sphere_collision,
}
use model3d.CoordTree.Build.{IsIn}
use model3d.CoordTree.Search.{IsMetric}
use model3d.CoordTree.Whole.{new_coord_tree-contains, new_coord_tree-nearest, new_coord_tree-sphere}
use model3d.RectSet.{search_floats}
use model3d.CoordTree.Knn.{knn, knn_step, insert, max_dist, copy_up, move_up}
use model3d.CoordTree.Knn.Whole.{IsNearest, new_coord_tree-knn}
use model3d.CoordTree.Plane.{
  plane_knn, Distances, solid_space, plane_space, plane_new_coord_tree, plane_contains, plane_slice,
  plane_nearest_neighbor, plane_sphere_collision, plane_new_coord_tree_lem,
}

abbrev gap : ℕ → ℕ → ℕ
gap a b = (a - b) + (b - a)

abbrev exact_minus : Float → Float → Float
exact_minus a b = (float_zero + a) - b

abbrev exact_times : Float → Float → Float
exact_times a b = gap a float_zero * gap b float_zero

abbrev square : ℕ → ℕ
square n = n * n

abbrev in_space : Distances Coord3D
in_space = record {
  squared_dist = λ p q. (square (gap p.x q.x) + square (gap p.y q.y)) + square (gap p.z q.z);
  minus = exact_minus;
  times = exact_times;
  inf = 1000;
}

abbrev in_plane : Distances Coord
in_plane = record {
  squared_dist = λ p q. square (gap p.x q.x) + square (gap p.y q.y);
  minus = exact_minus;
  times = exact_times;
  inf = 1000;
}

square-le : (m n : ℕ) → m ≤ n → square m ≤ square n
square-le m n h = omega (arith, mul-le-mul_left m h, mul-le-mul_left n h)

exact_sign : (a b : Float) → ltb float_zero (exact_minus a b) ≡ ltb b a
exact_sign a b = ground arith

above :
    (a b v : ℕ) → a < v → v ≤ b → exact_times (exact_minus v a) (exact_minus v a) ≤ square (gap a b)
above a b v h k = square-le (gap (exact_minus v a) float_zero) (gap a b) (omega arith)

below :
    (a b v : ℕ) → v ≤ a → b < v → exact_times (exact_minus v a) (exact_minus v a) ≤ square (gap a b)
below a b v h k = square-le (gap (exact_minus v a) float_zero) (gap a b) (omega arith)

space_metric : IsMetric (solid_space in_space)
space_metric = record { sign = exact_sign; beyond_above = up; beyond_below = down }
  where
    up :
        (p q : Coord3D) (axis : ℕ) (v : Float)
        → (solid_space in_space).array p axis < v
        → v ≤ (solid_space in_space).array q axis
        → let d = exact_minus v ((solid_space in_space).array p axis) in
          exact_times d d ≤ in_space.squared_dist p q
    up p q zero v h k = omega (arith, above p.x q.x v h k)
    up p q (suc zero) v h k = omega (arith, above p.y q.y v h k)
    up p q (suc (suc axis)) v h k = omega (arith, above p.z q.z v h k)

    down :
        (p q : Coord3D) (axis : ℕ) (v : Float)
        → v ≤ (solid_space in_space).array p axis
        → (solid_space in_space).array q axis < v
        → let d = exact_minus v ((solid_space in_space).array p axis) in
          exact_times d d ≤ in_space.squared_dist p q
    down p q zero v h k = omega (arith, below p.x q.x v h k)
    down p q (suc zero) v h k = omega (arith, below p.y q.y v h k)
    down p q (suc (suc axis)) v h k = omega (arith, below p.z q.z v h k)

plane_metric : IsMetric (plane_space in_plane)
plane_metric = record { sign = exact_sign; beyond_above = up; beyond_below = down }
  where
    up :
        (p q : Coord) (axis : ℕ) (v : Float)
        → (plane_space in_plane).array p axis < v
        → v ≤ (plane_space in_plane).array q axis
        → let d = exact_minus v ((plane_space in_plane).array p axis) in
          exact_times d d ≤ in_plane.squared_dist p q
    up p q zero v h k = omega (arith, above p.x q.x v h k)
    up p q (suc axis) v h k = omega (arith, above p.y q.y v h k)

    down :
        (p q : Coord) (axis : ℕ) (v : Float)
        → v ≤ (plane_space in_plane).array p axis
        → (plane_space in_plane).array q axis < v
        → let d = exact_minus v ((plane_space in_plane).array p axis) in
          exact_times d d ≤ in_plane.squared_dist p q
    down p q zero v h k = omega (arith, below p.x q.x v h k)
    down p q (suc axis) v h k = omega (arith, below p.y q.y v h k)

module _ {C : Type 0} where
  unfoldable insert_by : (C → C → Bool) → C → List C → List C
  insert_by less c [] = c ∷ []
  insert_by less c (d ∷ ds) =
      let rest = insert_by less c ds in if less d c then d ∷ rest else c ∷ d ∷ ds

  unfoldable sort_by : (C → C → Bool) → List C → List C
  sort_by less [] = []
  sort_by less (c ∷ cs) = insert_by less c (sort_by less cs)

  insert_by-Perm :
      (less : C → C → Bool) (c : C) (ds : List C) → Permᴰ (insert_by less c ds) (c ∷ ds)
  unfolding insert_by
  insert_by-Perm less c [] = Permᴰ.refl (c ∷ [])
  insert_by-Perm less c (d ∷ ds) = elim (Bool-cases (less d c)) [
    | inl before ↦
        rw before (Permᴰ.trans (Permᴰ.cons refl (insert_by-Perm less c ds)) (Permᴰ.swap refl refl))
    | inr behind ↦ rw behind (Permᴰ.refl (c ∷ d ∷ ds))
  ]

  sort_by-Perm : (less : C → C → Bool) (cs : List C) → Permᴰ (sort_by less cs) cs
  unfolding sort_by
  sort_by-Perm less [] = Permᴰ.nil
  sort_by-Perm less (c ∷ cs) =
      Permᴰ.trans (insert_by-Perm less c (sort_by less cs)) (Permᴰ.cons refl (sort_by-Perm less cs))

abbrev at : ℕ → ℕ → ℕ → Coord3D
at x y z = record { x = x; y = y; z = z }

abbrev flat : ℕ → ℕ → Coord
flat x y = record { x = x; y = y }

abbrev four : List Coord3D
four = at 4 1 1 ∷ at 1 2 1 ∷ at 3 5 2 ∷ at 3 5 2 ∷ []

abbrev three : List Coord
three = flat 4 1 ∷ flat 1 2 ∷ flat 3 5 ∷ []

-- the second axis parts the points below a node of the first
its_tree :
    new_coord_tree (solid_space in_space) sort_by four
    ≡ some (
        node
          (at 3 5 2)
          0
          (node (at 1 2 1) 0 nil nil)
          (node (at 3 5 2) 1 (node (at 4 1 1) 0 nil nil) nil))
unfolding new_coord_tree new_coord_tree_sorted set_flags put_flag branch flagged_from insert_by
    sort_by
its_tree = refl

-- the nearest point is not on the side of the plane that is searched first
its_neighbor :
    nearest_neighbor
      (solid_space in_space)
      (node
        (at 3 5 2)
        0
        (node (at 1 2 1) 0 nil nil)
        (node (at 3 5 2) 1 (node (at 4 1 1) 0 nil nil) nil))
      (at 2 1 1)
    ≡ some (at 1 2 1)
unfolding nearest_neighbor nearest_neighbor_step
its_neighbor = refl

new_coord_tree-contains_example :
    (t : CoordTree Coord3D) × (new_coord_tree (solid_space in_space) sort_by four ≡ some t)
    × ((p : Coord3D)
        → (contains (solid_space in_space) t p ≡ ltb 0 (count p four))
          × (count p (slice (solid_space in_space) t) ≡ count p four))
new_coord_tree-contains_example =
    new_coord_tree-contains (solid_space in_space) sort_by four sort_by-Perm

new_coord_tree-nearest_example :
    (t : CoordTree Coord3D) × (new_coord_tree (solid_space in_space) sort_by four ≡ some t)
    × (r : Coord3D) × (nearest_neighbor (solid_space in_space) t (at 2 1 1) ≡ some r)
    × IsIn r four
    × ((q : Coord3D)
        → IsIn q four
        → in_space.squared_dist (at 2 1 1) r ≤ in_space.squared_dist (at 2 1 1) q)
new_coord_tree-nearest_example =
    new_coord_tree-nearest (solid_space in_space) sort_by four (at 2 1 1) (at 1 2 1) sort_by-Perm
      space_metric (omega arith) (omega arith)

new_coord_tree-sphere_example :
    (t : CoordTree Coord3D) × (new_coord_tree (solid_space in_space) sort_by four ≡ some t)
    × ((p : Coord3D) (radius : Float)
        → (sphere_collision (solid_space in_space) t p radius ≡ true)
          ↔ ((q : Coord3D) × IsIn q four × (in_space.squared_dist p q ≤ exact_times radius radius)))
new_coord_tree-sphere_example =
    new_coord_tree-sphere (solid_space in_space) sort_by four sort_by-Perm space_metric

plane_new_coord_tree_lem_example :
    (t : CoordTree Coord) × (plane_new_coord_tree in_plane sort_by three ≡ some t)
    × (plane_contains in_plane t (flat 3 5) ≡ ltb 0 (count (flat 3 5) three))
    × (count (flat 3 5) (plane_slice in_plane t) ≡ count (flat 3 5) three)
    × ((r : Coord) × (plane_nearest_neighbor in_plane t (flat 3 5) ≡ some r)
        × IsIn r three
        × ((q : Coord)
            → IsIn q three
            → in_plane.squared_dist (flat 3 5) r ≤ in_plane.squared_dist (flat 3 5) q))
    × IsNearest (plane_space in_plane) (flat 3 5) 2 three (plane_knn in_plane t 2 (flat 3 5))
    × ((plane_sphere_collision in_plane t (flat 3 5) 2 ≡ true)
        ↔ ((q : Coord) × IsIn q three × (in_plane.squared_dist (flat 3 5) q ≤ exact_times 2 2)))
plane_new_coord_tree_lem_example =
    plane_new_coord_tree_lem in_plane sort_by three (flat 3 5) (flat 4 1) 2 2 sort_by-Perm
      plane_metric (omega arith) (omega arith)

-- the two nearest of the four points, from both sides of the plane
its_two :
    knn
      (solid_space in_space)
      (node
        (at 3 5 2)
        0
        (node (at 1 2 1) 0 nil nil)
        (node (at 3 5 2) 1 (node (at 4 1 1) 0 nil nil) nil))
      2
      (at 2 1 1)
    ≡ at 1 2 1 ∷ at 4 1 1 ∷ []
unfolding knn knn_step insert max_dist copy_up move_up search_floats
its_two = refl

new_coord_tree-knn_example :
    (t : CoordTree Coord3D) × (new_coord_tree (solid_space in_space) sort_by four ≡ some t)
    × IsNearest (solid_space in_space) (at 2 1 1) 2 four (knn (solid_space in_space) t 2 (at 2 1 1))
new_coord_tree-knn_example =
    new_coord_tree-knn (solid_space in_space) sort_by four (at 2 1 1) 2 sort_by-Perm space_metric
