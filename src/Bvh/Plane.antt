-- ===== src/Bvh/Plane.antt =====
-- model2d/bvh.go: the operations of the plane that the text uses, and the text for the plane.
use Prim.Native.Nat.{min, max}
use model3d.Base.{
  ℕ, zero, ◌<◌, ◌≡◌, Option, some, List, [], ◌∷◌, arith, ltb, if◌then◌else◌, nat_eq, length,
}
use model3d.Coords.{Coord, Float}
use model3d.Bvh.{
  BoxSpace, FlaggedBounder, Flags, Bvh, Sorter, split_bounders, multiple_bounds_area,
  best_split_axis, group_bounders, sort_bounders, group, area_density_split, new_bvh,
  new_bvh_area_density,
}
use model3d.Bvh.Spaces.{FloatArith}
use model3d.Bvh.Scores.{BoxLaws}
use model3d.Bvh.Group.{KeepsMembers, group-members}
use model3d.Bvh.Members.{SameMembers}
use model3d.Bvh.Tree.{ChoosesAxis, leaves}
use model3d.Bvh.Whole.{new_bvh_area_density-members}

unfoldable pub plane_min : Coord → Coord → Coord
plane_min a b = record { x = min a.x b.x; y = min a.y b.y }

unfoldable pub plane_max : Coord → Coord → Coord
plane_max a b = record { x = max a.x b.x; y = max a.y b.y }

abbrev pub plane_at : Coord → ℕ → Float
plane_at c zero = c.x
plane_at c _ = c.y

module _ (ar : FloatArith) where
  unfoldable pub plane_scale : Coord → Float → Coord
  plane_scale c s = record { x = ar.times c.x s; y = ar.times c.y s }

  unfoldable pub plane_add : Coord → Coord → Coord
  plane_add a b = record { x = ar.plus a.x b.x; y = ar.plus a.y b.y }

  unfoldable pub plane_sub : Coord → Coord → Coord
  plane_sub a b = plane_add a (plane_scale b ar.minus_one)

  unfoldable pub plane_mid : Coord → Coord → Coord
  plane_mid a b = plane_scale (plane_add a b) ar.half

  -- boundsArea
  unfoldable pub plane_bounds_area : Coord → Coord → Float
  plane_bounds_area min max =
      let diff = plane_sub max min in ar.times ar.two (ar.plus diff.x diff.y)

  -- the comparisons of multipleBoundsArea
  unfoldable pub plane_lower_inline : Coord → Coord → Coord
  plane_lower_inline a b = record {
    x = if ltb b.x a.x then b.x else a.x;
    y = if ltb b.y a.y then b.y else a.y;
  }

  unfoldable pub plane_upper_inline : Coord → Coord → Coord
  plane_upper_inline a b = record {
    x = if ltb a.x b.x then b.x else a.x;
    y = if ltb a.y b.y then b.y else a.y;
  }

  -- the axis that newBVH splits along
  unfoldable pub plane_choose_axis : List Float → ℕ
  plane_choose_axis (x_score ∷ y_score ∷ scores) = if ltb x_score y_score then 0 else 1
  plane_choose_axis scores = 0

  abbrev pub plane_box_space : BoxSpace Coord
  plane_box_space = record {
    axes = 2;
    array = plane_at;
    lower = plane_min;
    upper = plane_max;
    lower_inline = plane_lower_inline;
    upper_inline = plane_upper_inline;
    mid = plane_mid;
    bounds_area = plane_bounds_area;
    plus = ar.plus;
    times_count = λ a n. ar.times a (ar.of_count n);
    choose_axis = plane_choose_axis;
  }

  pub plane_box_space-laws : BoxLaws plane_box_space
  unfolding plane_min plane_max plane_lower_inline plane_upper_inline
  plane_box_space-laws = record {
    lower_laws = record { join-assoc = λ a b c. ground arith; join-comm = λ a b. ground arith };
    upper_laws = record { join-assoc = λ a b c. ground arith; join-comm = λ a b. ground arith };
    lower_inline_eq = λ a b. ground arith;
    upper_inline_eq = λ a b. ground arith;
  }

  plane_choose_axis-inside : ChoosesAxis plane_box_space
  unfolding plane_choose_axis
  plane_choose_axis-inside [] e = absurd (omega arith)
  plane_choose_axis-inside (x ∷ []) e = absurd (omega arith)
  plane_choose_axis-inside (x ∷ y ∷ scores) e = ground arith

  module _ {B : Type 0} where
    unfoldable pub plane_split_bounders :
        List (List (FlaggedBounder Coord B))
        → ℕ
        → ℕ
        → Flags
        → Option
            (List (List (FlaggedBounder Coord B)) × List (List (FlaggedBounder Coord B)) × Flags)
    plane_split_bounders = split_bounders

    unfoldable pub plane_multiple_bounds_area : List (FlaggedBounder Coord B) → Option Float
    plane_multiple_bounds_area = multiple_bounds_area plane_box_space

    unfoldable pub plane_best_split_axis : List (List (FlaggedBounder Coord B)) → Option ℕ
    plane_best_split_axis = best_split_axis plane_box_space

    unfoldable pub plane_group_bounders :
        ℕ → List (List (FlaggedBounder Coord B)) → Flags → Option (List B × Flags)
    plane_group_bounders = group_bounders plane_box_space

    unfoldable pub plane_area_density_split : List (FlaggedBounder Coord B) → Option (ℕ × Float)
    plane_area_density_split = area_density_split plane_box_space

    unfoldable pub plane_new_bvh :
        ℕ
        → (List (FlaggedBounder Coord B) → Option (ℕ × Float))
        → List (List (FlaggedBounder Coord B))
        → Flags
        → Option (Bvh B × Flags)
    plane_new_bvh = new_bvh plane_box_space

    unfoldable pub plane_sort_bounders :
        (B → Coord) → (B → Coord) → Sorter Coord B → List B → List (List (FlaggedBounder Coord B))
    plane_sort_bounders = sort_bounders plane_box_space

    unfoldable pub plane_group :
        (B → Coord) → (B → Coord) → Sorter Coord B → List B → Option (List B)
    plane_group = group plane_box_space

    unfoldable pub plane_new_bvh_area_density :
        (B → Coord) → (B → Coord) → Sorter Coord B → List B → Option (Bvh B)
    plane_new_bvh_area_density = new_bvh_area_density plane_box_space

    -- In the plane, GroupBounders and NewBVHAreaDensity end with the objects that they were given.
    pub plane_bvh_lem :
        (min_of max_of : B → Coord) (sort : Sorter Coord B)
        → KeepsMembers plane_box_space sort
        → (objects : List B) → 0 < length objects
        → ((out : List B) × (plane_group min_of max_of sort objects ≡ some out)
            × SameMembers out objects)
          × ((t : Bvh B) × (plane_new_bvh_area_density min_of max_of sort objects ≡ some t)
              × SameMembers (leaves t) objects)
    unfolding plane_group plane_new_bvh_area_density
    plane_bvh_lem min_of max_of sort keeps objects h = (
      group-members plane_box_space min_of max_of sort keeps objects (omega arith),
      new_bvh_area_density-members plane_box_space plane_box_space-laws plane_choose_axis-inside
          (omega arith) min_of max_of sort keeps objects h,
    )
