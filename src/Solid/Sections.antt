-- ===== src/Solid/Sections.antt =====
-- model3d/solid.go: ProfileSolid and CrossSectionSolid, between the solids of the plane and of the space.
use model3d.Base.{
  ℕ, zero, suc, ◌≡◌, refl, ap, ◌∙◌, Bool, true, ◌&&◌, Option, some, arith, leb, nat_beq,
  if◌then◌else◌, nat_eq,
}
use model3d.Coords.{
  with_coord, without_coord, Coord, Coord3D, Float, coord_eq, plane_coord_eq, coord_min, coord_max,
}
use model3d.Bvh.Spaces.{FloatArith}
use model3d.Bvh.Plane.{plane_min, plane_max}
use model3d.Solid.{Solid, in_bounds, func_solid, checked_func_solid}
use model3d.Solid.Lawful.{IsLawful}
use model3d.Solid.Spaces.{bounds_valid, solid_space, plane_bounds_valid, plane_solid_space}

-- XY() of a point of the space, and XYZ of one of the plane
abbrev pub xy : Coord3D → Coord
xy c = record { x = c.x; y = c.y }

abbrev pub with_z : Coord → Float → Coord3D
with_z c z = record { x = c.x; y = c.y; z = z }

-- the closures `to2D` and `to3D`, by the axis
unfoldable pub to_2d : ℕ → Coord3D → Coord
to_2d axis c =
    if nat_beq axis 0
    then record { x = c.y; y = c.z }
    else if nat_beq axis 1
    then record { x = c.x; y = c.z }
    else xy c

unfoldable pub to_3d : ℕ → Float → Coord → Coord3D
to_3d axis axis_value c =
    if nat_beq axis 0
    then record { x = axis_value; y = c.x; z = c.y }
    else if nat_beq axis 1
    then record { x = c.x; y = axis_value; z = c.y }
    else with_z c axis_value

-- the first closure leaves the coordinate of the axis out, the second puts the value in its place
to_2d-without_coord : (axis : ℕ) (p : Coord3D) → to_2d axis p ≡ without_coord p axis
unfolding to_2d
to_2d-without_coord zero p = refl
to_2d-without_coord (suc zero) p = refl
to_2d-without_coord (suc (suc axis)) p = ground arith

to_3d-with_coord :
    (axis : ℕ) (axis_value : Float) (p : Coord3D)
    → to_3d axis axis_value (without_coord p axis) ≡ with_coord p axis axis_value
unfolding to_3d
to_3d-with_coord zero axis_value p = refl
to_3d-with_coord (suc zero) axis_value p = refl
to_3d-with_coord (suc (suc axis)) axis_value p = ground arith

module _ (ar : FloatArith) (finite_sum : Coord3D → Bool) (plane_finite_sum : Coord → Bool) where
  unfoldable pub profile_solid : Solid Coord → Float → Float → Option (Solid Coord3D)
  profile_solid solid_2d min_z max_z =
      checked_func_solid (solid_space ar finite_sum) (with_z solid_2d.min min_z)
        (with_z solid_2d.max max_z) (λ c. solid_2d.contains (xy c))

  unfoldable pub cross_section_solid : Solid Coord3D → ℕ → Float → Option (Solid Coord)
  cross_section_solid solid axis axis_value =
      checked_func_solid (plane_solid_space ar plane_finite_sum) (to_2d axis solid.min)
        (to_2d axis solid.max) (λ c. solid.contains (to_3d axis axis_value c))

  -- the bounds of a section are those of the plane through the box
  section_bounds :
      (min max : Coord3D) (axis : ℕ) (axis_value : Float) (c : Coord)
      → in_bounds (solid_space ar finite_sum) min max (to_3d axis axis_value c) ≡ true
      → in_bounds (plane_solid_space ar plane_finite_sum) (to_2d axis min) (to_2d axis max) c ≡ true
  unfolding in_bounds to_2d to_3d coord_min coord_max plane_min plane_max
  section_bounds min max axis axis_value c h = ground (arith, h)

  section_contains :
      (solid : Solid Coord3D) (axis : ℕ) (axis_value : Float)
      → IsLawful (solid_space ar finite_sum) solid
      → plane_bounds_valid ar plane_finite_sum (to_2d axis solid.min) (to_2d axis solid.max) ≡ true
      → (s : Solid Coord) × (cross_section_solid solid axis axis_value ≡ some s)
        × ((s.min ≡ to_2d axis solid.min) × (s.max ≡ to_2d axis solid.max))
        × ((c : Coord) → s.contains c ≡ solid.contains (to_3d axis axis_value c))
        × IsLawful (plane_solid_space ar plane_finite_sum) s
  unfolding cross_section_solid checked_func_solid func_solid
  section_contains solid axis axis_value lawful valid = (
    record {
      min = to_2d axis solid.min;
      max = to_2d axis solid.max;
      contains = λ c.
          in_bounds (plane_solid_space ar plane_finite_sum) (to_2d axis solid.min)
            (to_2d axis solid.max) c
          && solid.contains (to_3d axis axis_value c);
    },
    rw valid refl,
    (refl, refl),
    λ c. ground (
      arith,
      lawful (to_3d axis axis_value c),
      section_bounds solid.min solid.max axis axis_value c,
    ),
    λ c h. ground (arith, h),
  )

  -- The cross section of a solid that contains no point outside its bounds contains what is left
  -- of a point without its coordinate on the axis exactly if the solid contains the point with the
  -- given value for that coordinate, and contains none outside its own bounds, which are those of
  -- the solid without the axis; the condition is that these pass BoundsValid.
  pub cross_section_solid-contains :
      (solid : Solid Coord3D) (axis : ℕ) (axis_value : Float)
      → IsLawful (solid_space ar finite_sum) solid
      → plane_bounds_valid ar plane_finite_sum
          (without_coord solid.min axis)
          (without_coord solid.max axis)
        ≡ true
      → (s : Solid Coord) × (cross_section_solid solid axis axis_value ≡ some s)
        × ((s.min ≡ without_coord solid.min axis) × (s.max ≡ without_coord solid.max axis))
        × ((p : Coord3D)
            → s.contains (without_coord p axis) ≡ solid.contains (with_coord p axis axis_value))
        × IsLawful (plane_solid_space ar plane_finite_sum) s
  cross_section_solid-contains solid axis axis_value lawful valid =
      let min_eq = to_2d-without_coord axis solid.min in
      let max_eq = to_2d-without_coord axis solid.max in
      let (s, e, ends, inner, fits) =
        section_contains solid axis axis_value lawful (rw (min_eq, max_eq) valid) in
      (
        s,
        e,
        (ends.0 ∙ min_eq, ends.1 ∙ max_eq),
        λ p. inner (without_coord p axis) ∙ ap solid.contains (to_3d-with_coord axis axis_value p),
        fits,
      )

  profile_bounds :
      (min max : Coord) (min_z max_z : Float) (c : Coord3D)
      → in_bounds (solid_space ar finite_sum) (with_z min min_z) (with_z max max_z) c ≡ (
          in_bounds (plane_solid_space ar plane_finite_sum) min max (xy c)
          && (leb min_z c.z && leb c.z max_z))
  unfolding in_bounds coord_min coord_max plane_min plane_max
  profile_bounds min max min_z max_z c = ground arith

  -- A profile contains the points of its solid that lie between the two values of z.
  pub profile_solid-contains :
      (solid_2d : Solid Coord) (min_z max_z : Float)
      → IsLawful (plane_solid_space ar plane_finite_sum) solid_2d
      → bounds_valid ar finite_sum (with_z solid_2d.min min_z) (with_z solid_2d.max max_z) ≡ true
      → (s : Solid Coord3D) × (profile_solid solid_2d min_z max_z ≡ some s)
        × ((c : Coord3D)
            → s.contains c ≡ (solid_2d.contains (xy c) && (leb min_z c.z && leb c.z max_z)))
        × IsLawful (solid_space ar finite_sum) s
  unfolding profile_solid checked_func_solid func_solid
  profile_solid-contains solid_2d min_z max_z lawful valid = (
    record {
      min = with_z solid_2d.min min_z;
      max = with_z solid_2d.max max_z;
      contains = λ c.
          in_bounds (solid_space ar finite_sum) (with_z solid_2d.min min_z)
            (with_z solid_2d.max max_z) c
          && solid_2d.contains (xy c);
    },
    rw valid refl,
    λ c. ground (arith, lawful (xy c), profile_bounds solid_2d.min solid_2d.max min_z max_z c),
    λ c h. ground (arith, h),
  )
