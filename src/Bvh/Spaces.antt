-- ===== src/Bvh/Spaces.antt =====
-- model3d/bvh.go, model2d/bvh.go: the operations of the space and of the plane that the text uses, and
-- the text for each. The arithmetic on float64 is a parameter.
use Prim.Native.Nat.{min, max}
use model3d.Base.{ℕ, ◌&&◌, List, [], ◌∷◌, arith, ltb, if◌then◌else◌, nat_eq}
use model3d.Coords.{Coord3D, Float, coord_at, coord_min, coord_max}
use model3d.Bvh.{BoxSpace}
use model3d.Bvh.Scores.{BoxLaws}
use model3d.Bvh.Tree.{ChoosesAxis}

-- float64 arithmetic
pub record FloatArith : Type 0 where
  pub plus : Float → Float → Float
  pub times : Float → Float → Float
  pub of_count : ℕ → Float
  pub minus_one : Float
  pub half : Float
  pub two : Float

module _ (ar : FloatArith) where
  unfoldable pub scale : Coord3D → Float → Coord3D
  scale c s = record { x = ar.times c.x s; y = ar.times c.y s; z = ar.times c.z s }

  unfoldable pub add : Coord3D → Coord3D → Coord3D
  add a b = record { x = ar.plus a.x b.x; y = ar.plus a.y b.y; z = ar.plus a.z b.z }

  unfoldable pub sub : Coord3D → Coord3D → Coord3D
  sub a b = add a (scale b ar.minus_one)

  unfoldable pub mid : Coord3D → Coord3D → Coord3D
  mid a b = scale (add a b) ar.half

  -- boundsArea
  unfoldable pub bounds_area : Coord3D → Coord3D → Float
  bounds_area min max =
      let diff = sub max min in
      ar.times ar.two (ar.plus (ar.times diff.x (ar.plus diff.y diff.z)) (ar.times diff.y diff.z))

  -- the comparisons of multipleBoundsArea
  unfoldable pub lower_inline : Coord3D → Coord3D → Coord3D
  lower_inline a b = record {
    x = if ltb b.x a.x then b.x else a.x;
    y = if ltb b.y a.y then b.y else a.y;
    z = if ltb b.z a.z then b.z else a.z;
  }

  unfoldable pub upper_inline : Coord3D → Coord3D → Coord3D
  upper_inline a b = record {
    x = if ltb a.x b.x then b.x else a.x;
    y = if ltb a.y b.y then b.y else a.y;
    z = if ltb a.z b.z then b.z else a.z;
  }

  -- the axis that newBVH splits along
  unfoldable pub choose_axis : List Float → ℕ
  choose_axis (x_score ∷ y_score ∷ z_score ∷ scores) =
      if ltb x_score y_score && ltb x_score z_score
      then 0
      else if ltb y_score x_score && ltb y_score z_score
      then 1
      else 2
  choose_axis scores = 0

  abbrev pub box_space : BoxSpace Coord3D
  box_space = record {
    axes = 3;
    array = coord_at;
    lower = coord_min;
    upper = coord_max;
    lower_inline = lower_inline;
    upper_inline = upper_inline;
    mid = mid;
    bounds_area = bounds_area;
    plus = ar.plus;
    times_count = λ a n. ar.times a (ar.of_count n);
    choose_axis = choose_axis;
  }

  pub box_space-laws : BoxLaws box_space
  unfolding coord_min coord_max lower_inline upper_inline
  box_space-laws = record {
    lower_laws = record { join-assoc = λ a b c. ground arith; join-comm = λ a b. ground arith };
    upper_laws = record { join-assoc = λ a b c. ground arith; join-comm = λ a b. ground arith };
    lower_inline_eq = λ a b. ground arith;
    upper_inline_eq = λ a b. ground arith;
  }

  pub choose_axis-inside : ChoosesAxis box_space
  unfolding choose_axis
  choose_axis-inside [] e = absurd (omega arith)
  choose_axis-inside (x ∷ []) e = absurd (omega arith)
  choose_axis-inside (x ∷ y ∷ []) e = absurd (omega arith)
  choose_axis-inside (x ∷ y ∷ z ∷ scores) e = ground arith
