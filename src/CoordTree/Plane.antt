-- ===== src/CoordTree/Plane.antt =====
-- model2d/coord_tree.go: the text of CoordTree for the points of the plane, and for those of the space.
use model3d.Base.{
  ℕ, zero, ◌≤◌, ◌<◌, ◌≡◌, ap, ◌∙◌, ◌↔◌, Bool, true, Option, some, List, arith, ltb, nat_eq, count,
}
use model3d.Coords.{
  Coord, Coord3D, Float, coord_at, coord_zero, float_zero, plane_coord_eq, coord_eq,
}
use model3d.CoordTree.{
  Space, CoordTree, FlaggedCoord, Flags, Sorter, new_coord_tree, new_coord_tree_sorted, contains,
  slice, Nearest, nearest_neighbor, nearest_neighbor_step, sphere_collision,
  sphere_collision_squared,
}
use model3d.CoordTree.Build.{IsIn}
use model3d.CoordTree.Contents.{Reorders, new_coord_tree-Holds, contains-count}
use model3d.CoordTree.Knn.{KnnResults, max_dist, insert, knn_step, knn}
use model3d.CoordTree.Knn.Whole.{IsNearest, knn-IsNearest}
use model3d.CoordTree.Search.{IsMetric, nearest-IsOrdered, sphere-hit, sphere-near}

-- the float operations of a dimension
pub record Distances (C : Type 0) : Type 0 where
  pub squared_dist : C → C → Float
  pub minus : Float → Float → Float
  pub times : Float → Float → Float
  pub inf : Float

abbrev pub solid_space : Distances Coord3D → Space Coord3D
solid_space d = record {
  dims = 3;
  array = coord_at;
  zero_coord = coord_zero.zero_value;
  squared_dist = d.squared_dist;
  minus = d.minus;
  times = d.times;
  inf = d.inf;
}

abbrev plane_array : Coord → ℕ → Float
plane_array c zero = c.x
plane_array c _ = c.y

abbrev pub plane_space : Distances Coord → Space Coord
plane_space d = record {
  dims = 2;
  array = plane_array;
  zero_coord = record { x = float_zero; y = float_zero };
  squared_dist = d.squared_dist;
  minus = d.minus;
  times = d.times;
  inf = d.inf;
}

module _ (d : Distances Coord) where
  unfoldable pub plane_new_coord_tree_sorted :
      ℕ → (ℕ → List (FlaggedCoord Coord)) → ℕ → Flags → Option (CoordTree Coord × Flags)
  plane_new_coord_tree_sorted = new_coord_tree_sorted (plane_space d)

  unfoldable pub plane_new_coord_tree :
      Sorter (plane_space d) → List Coord → Option (CoordTree Coord)
  plane_new_coord_tree = new_coord_tree (plane_space d)

  unfoldable pub plane_contains : CoordTree Coord → Coord → Bool
  plane_contains = contains (plane_space d)

  unfoldable pub plane_slice : CoordTree Coord → List Coord
  plane_slice = slice (plane_space d)

  unfoldable pub plane_nearest_neighbor_step :
      CoordTree Coord → Coord → Nearest (plane_space d) → Nearest (plane_space d)
  plane_nearest_neighbor_step = nearest_neighbor_step (plane_space d)

  unfoldable pub plane_nearest_neighbor : CoordTree Coord → Coord → Option Coord
  plane_nearest_neighbor = nearest_neighbor (plane_space d)

  unfoldable pub plane_max_dist : KnnResults Coord → Float
  plane_max_dist = max_dist (plane_space d)

  unfoldable pub plane_insert : Coord → Float → KnnResults Coord → KnnResults Coord
  plane_insert = insert (plane_space d)

  unfoldable pub plane_knn_step : CoordTree Coord → Coord → KnnResults Coord → KnnResults Coord
  plane_knn_step = knn_step (plane_space d)

  unfoldable pub plane_knn : CoordTree Coord → ℕ → Coord → List Coord
  plane_knn = knn (plane_space d)

  unfoldable pub plane_sphere_collision_squared : CoordTree Coord → Coord → Float → Bool
  plane_sphere_collision_squared = sphere_collision_squared (plane_space d)

  unfoldable pub plane_sphere_collision : CoordTree Coord → Coord → Float → Bool
  plane_sphere_collision = sphere_collision (plane_space d)

  -- In the plane, NewCoordTree on any points with a sort that reorders its list ends in a tree in
  -- which Contains, Slice, NearestNeighbor, KNN and SphereCollision answer as a search through all
  -- points would, with the differences keeping their sign, a point behind a line being no nearer
  -- than the line, and some point at a distance below +Inf.
  pub plane_new_coord_tree_lem :
      (sort : Sorter (plane_space d)) (points : List Coord) (p near : Coord) (radius : Float)
      (k : ℕ)
      → Reorders (plane_space d) sort
      → IsMetric (plane_space d)
      → IsIn near points
      → d.squared_dist p near < d.inf
      → (t : CoordTree Coord) × (plane_new_coord_tree sort points ≡ some t)
        × (plane_contains t p ≡ ltb 0 (count p points))
        × (count p (plane_slice t) ≡ count p points)
        × ((r : Coord) × (plane_nearest_neighbor t p ≡ some r)
            × IsIn r points
            × ((q : Coord) → IsIn q points → d.squared_dist p r ≤ d.squared_dist p q))
        × IsNearest (plane_space d) p k points (plane_knn t k p)
        × ((plane_sphere_collision t p radius ≡ true)
            ↔ ((q : Coord) × IsIn q points × (d.squared_dist p q ≤ d.times radius radius)))
  unfolding plane_new_coord_tree plane_contains plane_slice plane_nearest_neighbor
      plane_sphere_collision plane_knn
  plane_new_coord_tree_lem sort points p near radius k r metric there finite =
      let space = plane_space d in
      let (t, built, h) = new_coord_tree-Holds space sort points r in
      let (c, found, inside, least) =
        nearest-IsOrdered space metric t p near h.ordered (omega (arith, h.counts near, there))
          finite in
      (
        t,
        built,
        contains-count space t p h.ordered ∙ ap (ltb 0) (h.counts p),
        h.counts p,
        (
          c,
          found,
          omega (arith, h.counts c, inside),
          λ q k. least q (omega (arith, h.counts q, k)),
        ),
        knn-IsNearest space p metric t k points h.ordered h.counts,
        unfold sphere_collision in
            (
              λ hit.
                  let (q, near_q, le) = sphere-hit space t p (d.times radius radius) hit in
                  (q, omega (arith, h.counts q, near_q), le),
              λ (q, near_q, le).
                  sphere-near space metric t p q (d.times radius radius) h.ordered
                    (omega (arith, h.counts q, near_q)) le,
            ),
      )
