-- ===== src/Solid/Spaces.antt =====
-- model3d/bounder.go, model2d/bounder.go: BoundsValid, and the solids of the space and of the plane.
use model3d.Base.{ℕ, Bool, true, false, not, ◌||◌, Option, List, arith, ltb, if◌then◌else◌, nat_eq}
use model3d.Coords.{
  Coord, Coord3D, Float, coord_eq, plane_coord_eq, coord_zero, coord_min, coord_max, float_zero,
}
use model3d.Bvh.{Sorter}
use model3d.Bvh.Spaces.{FloatArith, box_space, box_space-laws}
use model3d.Bvh.Plane.{plane_box_space, plane_box_space-laws, plane_min, plane_max}
use model3d.Solid.{
  SolidSpace, Solid, BoxPointer, SolidMux, in_bounds, func_solid, checked_func_solid,
  force_solid_bounds, cache_solid_bounds, joined_solid, grouped_solids_to_solid, optimize,
  subtracted_solid, intersected_solid, new_solid_mux, grouped_solids_to_solid_mux, mux_contains,
  iter_contains, all_contains,
}
use model3d.Solid.Boxes.{LatticeLaws}
use model3d.Solid.Smooth.{SmoothArith, Sdf, NormalSdf, smooth_join, smooth_join_v2, sdf_to_solid}

-- `finite_sum` is the test that `Sum()` is neither NaN nor infinite
module _ (ar : FloatArith) (finite_sum : Coord3D → Bool) where
  unfoldable pub bounds_valid : Coord3D → Coord3D → Bool
  bounds_valid min max =
      if not (finite_sum min) || not (finite_sum max)
      then false
      else if ltb max.x min.x
      then false
      else if ltb max.y min.y
      then false
      else if ltb max.z min.z
      then false
      else true

  abbrev pub solid_space : SolidSpace Coord3D
  solid_space = record {
    zero_coord = coord_zero.zero_value;
    bounds_valid = bounds_valid;
    boxes = box_space ar;
  }

  pub solid_space-laws : LatticeLaws solid_space
  unfolding coord_min coord_max
  solid_space-laws = record {
    lower_laws = (box_space-laws ar).lower_laws;
    upper_laws = (box_space-laws ar).upper_laws;
    lower-upper = λ c a b. ground arith;
    upper-lower = λ c a b. ground arith;
  }

module _ (ar : FloatArith) (finite_sum : Coord → Bool) where
  unfoldable pub plane_bounds_valid : Coord → Coord → Bool
  plane_bounds_valid min max =
      if not (finite_sum min) || not (finite_sum max)
      then false
      else if ltb max.x min.x
      then false
      else if ltb max.y min.y
      then false
      else true

  abbrev pub plane_solid_space : SolidSpace Coord
  plane_solid_space = record {
    zero_coord = record { x = float_zero; y = float_zero };
    bounds_valid = plane_bounds_valid;
    boxes = plane_box_space ar;
  }

  pub plane_solid_space-laws : LatticeLaws plane_solid_space
  unfolding plane_min plane_max
  plane_solid_space-laws = record {
    lower_laws = (plane_box_space-laws ar).lower_laws;
    upper_laws = (plane_box_space-laws ar).upper_laws;
    lower-upper = λ c a b. ground arith;
    upper-lower = λ c a b. ground arith;
  }

  unfoldable pub plane_in_bounds : Coord → Coord → Coord → Bool
  plane_in_bounds = in_bounds plane_solid_space

  unfoldable pub plane_func_solid : Coord → Coord → (Coord → Bool) → Option (Solid Coord)
  plane_func_solid = func_solid plane_solid_space

  unfoldable pub plane_checked_func_solid : Coord → Coord → (Coord → Bool) → Option (Solid Coord)
  plane_checked_func_solid = checked_func_solid plane_solid_space

  unfoldable pub plane_force_solid_bounds : Solid Coord → Coord → Coord → Option (Solid Coord)
  plane_force_solid_bounds = force_solid_bounds plane_solid_space

  unfoldable pub plane_cache_solid_bounds : Solid Coord → Option (Solid Coord)
  plane_cache_solid_bounds = cache_solid_bounds plane_solid_space

  unfoldable pub plane_joined_solid : List (Solid Coord) → Option (Solid Coord)
  plane_joined_solid = joined_solid plane_solid_space

  unfoldable pub plane_grouped_solids_to_solid : ℕ → List (Solid Coord) → Option (Solid Coord)
  plane_grouped_solids_to_solid = grouped_solids_to_solid plane_solid_space

  unfoldable pub plane_optimize :
      Sorter Coord (Solid Coord) → List (Solid Coord) → Option (Solid Coord)
  plane_optimize = optimize plane_solid_space

  unfoldable pub plane_subtracted_solid : Solid Coord → Solid Coord → Solid Coord
  plane_subtracted_solid = subtracted_solid plane_solid_space

  unfoldable pub plane_intersected_solid : List (Solid Coord) → Option (Solid Coord)
  plane_intersected_solid = intersected_solid plane_solid_space

  unfoldable pub plane_new_solid_mux :
      Sorter Coord (BoxPointer Coord) → List (Solid Coord) → Option (SolidMux Coord)
  plane_new_solid_mux = new_solid_mux plane_solid_space

  unfoldable pub plane_grouped_solids_to_solid_mux :
      ℕ → List (Solid Coord) → List ℕ → Option (SolidMux Coord)
  plane_grouped_solids_to_solid_mux = grouped_solids_to_solid_mux plane_solid_space

  unfoldable pub plane_mux_contains : SolidMux Coord → Coord → Bool
  plane_mux_contains = mux_contains plane_solid_space

  unfoldable pub plane_iter_contains :
      {S : Type 0} → SolidMux Coord → Coord → (ℕ → S → S) → S → ℕ × S
  plane_iter_contains = iter_contains plane_solid_space

  unfoldable pub plane_all_contains : SolidMux Coord → Coord → Option (List Bool)
  plane_all_contains = all_contains plane_solid_space

  module _ (smooth : SmoothArith Coord) where
    unfoldable pub plane_smooth_join : Float → List (Sdf Coord) → Option (Solid Coord)
    plane_smooth_join = smooth_join plane_solid_space smooth

    unfoldable pub plane_smooth_join_v2 : Float → List (NormalSdf Coord) → Option (Solid Coord)
    plane_smooth_join_v2 = smooth_join_v2 plane_solid_space smooth

    unfoldable pub plane_sdf_to_solid : Sdf Coord → Float → Option (Solid Coord)
    plane_sdf_to_solid = sdf_to_solid plane_solid_space smooth
