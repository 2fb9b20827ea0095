-- ===== src/Bvh/Tests.antt =====
-- Tests of the grouping and the hierarchy on small boxes.
use model3d.Base.{ℕ, ◌+◌, ◌*◌, ◌≤◌, ◌<◌, ◌≡◌, refl, some, List, [], ◌∷◌, arith, nat_eq, length}
use model3d.Coords.{Coord3D, Float, Rect, coord_min, coord_max}
use model3d.Bvh.{
  FlaggedBounder, Bvh, leaf, branch, best_split_axis, group, area_density_split,
  new_bvh_area_density, sort_bounders, flagged_from, new_bvh, group_bounders, sort_axes,
  group_halves, area_for_axis, multiple_bounds_area, best_axis_loop, split_bounders, area_loop,
  mark_first, no_nil, place, separate, separate_axes, new_branch, scores_of, density_loop,
  density_cache, small_bvh,
}
use model3d.Bvh.Members.{SameMembers}
use model3d.Bvh.Group.{group-members}
use model3d.Bvh.Scores.{split_score}
use model3d.Bvh.Density.{area_density_split-least}
use model3d.Bvh.Tree.{leaves}
use model3d.Bvh.Whole.{new_bvh_area_density-members}
use model3d.Bvh.Sorting.{sort_slice, tally-sort_slice, small_arith}
use model3d.Bvh.Spaces.{
  box_space, box_space-laws, choose_axis-inside, scale, add, sub, mid, bounds_area, choose_axis,
  lower_inline, upper_inline,
}

abbrev cube : ℕ → Rect
cube n = record {
  min_val = record { x = 10 * n; y = 1; z = 1 };
  max_val = record { x = 10 * n + 1; y = 2; z = 2 };
}

abbrev cubes : List Rect
cubes = cube 4 ∷ cube 1 ∷ cube 3 ∷ cube 2 ∷ []

abbrev min_of : Rect → Coord3D
min_of r = r.min_val

abbrev max_of : Rect → Coord3D
max_of r = r.max_val

group-cubes :
    group (box_space small_arith) min_of max_of sort_slice cubes
    ≡ some (cube 1 ∷ cube 2 ∷ cube 3 ∷ cube 4 ∷ [])
unfolding group group_bounders sort_bounders sort_axes flagged_from mid scale add group_halves
    best_split_axis area_for_axis multiple_bounds_area best_axis_loop split_bounders area_loop
    bounds_area sub mark_first no_nil place separate separate_axes lower_inline upper_inline
group-cubes = refl

tree_of_cubes :
    new_bvh_area_density (box_space small_arith) min_of max_of sort_slice cubes
    ≡ some
        (branch (branch (leaf (cube 1)) (leaf (cube 4))) (branch (leaf (cube 2)) (leaf (cube 3))))
unfolding new_bvh_area_density new_bvh sort_bounders sort_axes flagged_from mid scale add new_branch
    scores_of area_density_split choose_axis density_loop density_cache bounds_area sub coord_min
    coord_max mark_first no_nil place separate separate_axes small_bvh split_bounders
tree_of_cubes = refl

group-members_example :
    (out : List Rect) × (group (box_space small_arith) min_of max_of sort_slice cubes ≡ some out)
    × SameMembers out cubes
group-members_example =
    group-members (box_space small_arith) min_of max_of sort_slice tally-sort_slice cubes
      (omega arith)

new_bvh_area_density-members_example :
    (t : Bvh Rect) × (new_bvh_area_density (box_space small_arith) min_of max_of sort_slice cubes
      ≡ some t)
    × SameMembers (leaves t) cubes
new_bvh_area_density-members_example =
    new_bvh_area_density-members (box_space small_arith) (box_space-laws small_arith)
      (choose_axis-inside small_arith) (omega arith) min_of max_of sort_slice tally-sort_slice cubes
      (omega arith)

abbrev bounders : List (FlaggedBounder Coord3D Rect)
unfolding flagged_from mid scale add
bounders = flagged_from (box_space small_arith) min_of max_of 0 cubes

area_density_split-least_example :
    (k : ℕ) × (score : Float) × (area_density_split (box_space small_arith) bounders
      ≡ some (k, score))
    × (2 ≤ k)
    × (k < length bounders)
    × (split_score (box_space small_arith) bounders k ≡ some score)
    × ((other : ℕ) (s : Float)
        → 2 ≤ other
        → other < length bounders
        → split_score (box_space small_arith) bounders other ≡ some s
        → score ≤ s)
unfolding flagged_from bounders
area_density_split-least_example =
    area_density_split-least (box_space small_arith) (box_space-laws small_arith) bounders
      (omega arith)
