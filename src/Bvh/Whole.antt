-- ===== src/Bvh/Whole.antt =====
-- model3d/bvh.go: NewBVHAreaDensity as a whole.
use model3d.Base.{◌<◌, ◌≡◌, refl, some, List, arith, nat_eq, length}
use model3d.Bvh.{BoxSpace, Bvh, Sorter, area_density_split, new_bvh_area_density}
use model3d.Bvh.Members.{SameMembers}
use model3d.Bvh.Group.{KeepsMembers}
use model3d.Bvh.Scores.{BoxLaws}
use model3d.Bvh.Density.{area_density_split-least}
use model3d.Bvh.Tree.{Splits, ChoosesAxis, leaves, new_bvh-objects}

module _ {C B : Type 0} (space : BoxSpace C) (laws : BoxLaws space) where
  area_density_split-Splits : Splits {B = B} space (area_density_split space)
  area_density_split-Splits bs h =
      let (k, score, e, low, high, split, least) = area_density_split-least space laws bs h in
      (k, score, e, omega arith, high)

  -- For one or more objects, NewBVHAreaDensity ends without a panic in a hierarchy whose leaves
  -- are the objects, each as often as it was given, if the sort keeps the elements of a slice, Min
  -- and Max can be taken in any order, and the axis chosen is one of the axes.
  pub new_bvh_area_density-members :
      ChoosesAxis space
      → 0 < space.axes
      → (min_of max_of : B → C) (sort : Sorter C B) → KeepsMembers space sort
      → (objects : List B) → 0 < length objects
      → (t : Bvh B) × (new_bvh_area_density space min_of max_of sort objects ≡ some t)
        × SameMembers (leaves t) objects
  unfolding new_bvh_area_density
  new_bvh_area_density-members chooses some_axis min_of max_of sort keeps objects h =
      let (t, flags, e, members) =
        new_bvh-objects space (area_density_split space) area_density_split-Splits chooses some_axis
          min_of max_of sort keeps objects h in
      (t, rw e refl, members)
