-- ===== src/CoordTree/Whole.antt =====
-- model3d/coord_tree.go: NewCoordTree together with the queries of its result.
use model3d.Base.{◌≤◌, ◌<◌, ◌≡◌, ap, ◌∙◌, ◌↔◌, true, some, List, arith, ltb, Eq, nat_eq, count}
use model3d.Coords.{Float}
use model3d.CoordTree.{
  Space, CoordTree, Sorter, new_coord_tree, contains, slice, nearest_neighbor, sphere_collision,
}
use model3d.CoordTree.Build.{IsIn}
use model3d.CoordTree.Contents.{Reorders, new_coord_tree-Holds, contains-count}
use model3d.CoordTree.Search.{IsMetric, nearest-IsOrdered, sphere-hit, sphere-near}

module _ {C : Type 0} ⦃e : Eq C⦄ (space : Space C) where
  -- For any points, also equal ones, and any sort that reorders its list, NewCoordTree ends in a
  -- tree in which Contains finds exactly the points, and whose Slice has each of them as often as
  -- it was given.
  pub new_coord_tree-contains :
      (sort : Sorter space) (points : List C)
      → Reorders space sort
      → (t : CoordTree C) × (new_coord_tree space sort points ≡ some t)
        × ((p : C)
            → (contains space t p ≡ ltb 0 (count p points))
              × (count p (slice space t) ≡ count p points))
  new_coord_tree-contains sort points r =
      let (t, built, h) = new_coord_tree-Holds space sort points r in
      (t, built, λ p. (contains-count space t p h.ordered ∙ ap (ltb 0) (h.counts p), h.counts p))

  -- For any points and any sort that reorders its list, NewCoordTree ends in a tree, and
  -- NearestNeighbor returns one of the points of which no other is nearer, although it leaves out
  -- half spaces; the differences keep their sign, a point behind a plane is no nearer than the
  -- plane, and some point has a distance below +Inf.
  pub new_coord_tree-nearest :
      (sort : Sorter space) (points : List C) (p near : C)
      → Reorders space sort
      → IsMetric space
      → IsIn near points
      → space.squared_dist p near < space.inf
      → (t : CoordTree C) × (new_coord_tree space sort points ≡ some t)
        × (r : C) × (nearest_neighbor space t p ≡ some r)
        × IsIn r points
        × ((q : C) → IsIn q points → space.squared_dist p r ≤ space.squared_dist p q)
  new_coord_tree-nearest sort points p near r metric there finite =
      let (t, built, h) = new_coord_tree-Holds space sort points r in
      let (c, found, inside, least) =
        nearest-IsOrdered space metric t p near h.ordered (omega (arith, h.counts near, there))
          finite in
      (
        t,
        built,
        c,
        found,
        omega (arith, h.counts c, inside),
        λ q k. least q (omega (arith, h.counts q, k)),
      )

  -- In the tree that NewCoordTree makes of any points with a sort that reorders its list,
  -- SphereCollision is true exactly if the squared distance of some point is at most the square of
  -- the radius; the differences keep their sign, and a point behind a plane is no nearer than the
  -- plane.
  pub new_coord_tree-sphere :
      (sort : Sorter space) (points : List C)
      → Reorders space sort
      → IsMetric space
      → (t : CoordTree C) × (new_coord_tree space sort points ≡ some t)
        × ((p : C) (radius : Float)
            → (sphere_collision space t p radius ≡ true)
              ↔ ((q : C) × IsIn q points × (space.squared_dist p q ≤ space.times radius radius)))
  unfolding sphere_collision
  new_coord_tree-sphere sort points r metric =
      let (t, built, h) = new_coord_tree-Holds space sort points r in
      (
        t,
        built,
        λ p radius. (
          λ hit.
              let (q, there, le) = sphere-hit space t p (space.times radius radius) hit in
              (q, omega (arith, h.counts q, there), le),
          λ (q, there, le).
              sphere-near space metric t p q (space.times radius radius) h.ordered
                (omega (arith, h.counts q, there)) le,
        ),
      )
