-- ===== src/Solid/Plane.antt =====
-- model2d/solid.go: the text of Solid for the plane.
use model3d.Base.{◌<◌, ◌≡◌, Bool, some, List, map, arith, nat_eq, length}
use model3d.Coords.{Coord, plane_coord_eq}
use model3d.Bvh.{Sorter}
use model3d.Bvh.Group.{KeepsMembers}
use model3d.Bvh.Spaces.{FloatArith}
use model3d.Bvh.Plane.{plane_box_space}
use model3d.Solid.{Solid, BoxPointer, SolidMux, joined_contains}
use model3d.Solid.Lawful.{AllLawful}
use model3d.Solid.Grouped.{ValidUnions, optimize-eq}
use model3d.Solid.AllContains.{new_solid_mux-IsFaithful}
use model3d.Solid.Spaces.{
  plane_solid_space, plane_solid_space-laws, plane_optimize, plane_new_solid_mux,
  plane_mux_contains, plane_all_contains,
}

-- In the plane, for one or more solids that contain no point outside their bounds, where the box
-- around any of them passes BoundsValid, Optimize ends in a solid with the points of the joined
-- solid, and NewSolidMux in a tree whose Contains is that of the joined solid and whose
-- AllContains has the answer of each solid at its index; the sorts keep the elements of a slice.
pub plane_solids_lem :
    (ar : FloatArith) (finite_sum : Coord → Bool) (sort : Sorter Coord (Solid Coord))
    (sort_boxes : Sorter Coord (BoxPointer Coord)) (solids : List (Solid Coord))
    → KeepsMembers (plane_box_space ar) sort
    → KeepsMembers (plane_box_space ar) sort_boxes
    → 0 < length solids
    → ValidUnions (plane_solid_space ar finite_sum) solids
    → AllLawful (plane_solid_space ar finite_sum) solids
    → ((o : Solid Coord) × (plane_optimize ar finite_sum sort solids ≡ some o)
        × ((c : Coord) → o.contains c ≡ joined_contains (plane_solid_space ar finite_sum) solids c))
      × ((m : SolidMux Coord) × (plane_new_solid_mux ar finite_sum sort_boxes solids ≡ some m)
          × ((c : Coord)
              → plane_mux_contains ar finite_sum m c
                ≡ joined_contains (plane_solid_space ar finite_sum) solids c)
          × ((c : Coord)
              → plane_all_contains ar finite_sum m c ≡ some (map (λ s. s.contains c) solids)))
unfolding plane_optimize plane_new_solid_mux plane_mux_contains plane_all_contains
plane_solids_lem ar finite_sum sort sort_boxes solids keeps keeps_boxes h valid all =
    let space = plane_solid_space ar finite_sum in
    let laws = plane_solid_space-laws ar finite_sum in
    let (o, o_eq, o_same, lawful) =
      optimize-eq space laws sort solids keeps (omega arith) h valid all in
    let (m, m_eq, contains, bits, counts) =
      new_solid_mux-IsFaithful space laws sort_boxes solids keeps_boxes (omega arith) all in
    ((o, o_eq, o_same), (m, m_eq, contains, bits))
