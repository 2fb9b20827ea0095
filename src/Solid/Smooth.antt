-- ===== src/Solid/Smooth.antt =====
-- model3d/solid.go, model2d/solid.go: SmoothJoin and SmoothJoinV2, with the arithmetic as a parameter,
-- and SDFToSolid.
use model3d.Base.{
  ℕ, suc, ◌+◌, ◌≤◌, ◌<◌, ◌≡◌, refl, ◌∙◌, inl, inr, Bool, true, false, Option, none, some, List, [],
  ◌∷◌, map, arith, ltb, leb, nat_beq, if◌then◌else◌, Eq, nat_eq, Bool-cases, to_nat,
}
use model3d.Coords.{Float, float_zero}
use model3d.Bvh.Members.{tally}
use model3d.Solid.{SolidSpace, Solid, checked_func_solid}

-- float64 arithmetic, and that of the points
pub record SmoothArith (C : Type 0) : Type 0 where
  pub plus : Float → Float → Float
  pub times : Float → Float → Float
  pub minus : Float → Float → Float
  pub negate : Float → Float
  pub abs : Float → Float
  pub sqrt : Float → Float
  pub one : Float
  pub add_scalar : C → Float → C
  pub dot : C → C → Float

-- an SDF, and a NormalSDF, by their methods
pub record Sdf (C : Type 0) : Type 0 where
  pub min : C
  pub max : C
  pub sdf : C → Float

pub record NormalSdf (C : Type 0) : Type 0 where
  pub base : Sdf C
  pub normal_sdf : C → C × Float

module _ {N : Type 0} where
  -- what a pass does with `closestDists`, and `closestNormals` where there are normals; a value stands
  -- with its normal
  unfoldable pub put_closest : ℕ → Float × N → Float × N → Float × N → (Float × N) × (Float × N)
  put_closest i a b x =
      if ltb i 2
      then (let dists : (Float × N) × (Float × N) = if nat_beq i 0 then (x, b) else (a, x) in
          if nat_beq i 2
          then (if ltb (dists.0).0 (dists.1).0 then (dists.1, dists.0) else dists)
          else dists)
      else if leb a.0 x.0
      then (x, a)
      else if ltb b.0 x.0
      then (a, x)
      else (a, b)

  -- the loop over the SDFs, by their values: `none` where it returns true
  unfoldable pub smooth_loop :
      ℕ → Float × N → Float × N → List (Float × N) → Option ((Float × N) × (Float × N))
  smooth_loop i a b [] = some (a, b)
  smooth_loop i a b (x ∷ xs) =
      let (a1, b1) = put_closest i a b x in
      let rest = smooth_loop (i + 1) a1 b1 xs in if ltb float_zero x.0 then none else rest

module _ {C : Type 0} ⦃e : Eq C⦄ (space : SolidSpace C) (ar : SmoothArith C) where
  unfoldable pub sdf_min_loop : C → List (Sdf C) → C
  sdf_min_loop min [] = min
  sdf_min_loop min (s ∷ ss) = sdf_min_loop (space.boxes.lower min s.min) ss

  unfoldable pub sdf_max_loop : C → List (Sdf C) → C
  sdf_max_loop max [] = max
  sdf_max_loop max (s ∷ ss) = sdf_max_loop (space.boxes.upper max s.max) ss

  -- the end of the function that SmoothJoin makes
  unfoldable pub smooth_test : Float → Float → Float → Bool
  smooth_test r a b =
      let d1 = positive_part (ar.plus a r) in
      let d2 = positive_part (ar.plus b r) in
      ltb (ar.times r r) (ar.plus (ar.times d1 d1) (ar.times d2 d2))
    where
      positive_part : Float → Float
      positive_part d = if ltb float_zero d then d else float_zero

  abbrev no_normal : Sdf C → C → Float × Unit {0}
  no_normal s c = (s.sdf c, tt)

  unfoldable pub smooth_contains : Float → List (Sdf C) → C → Bool
  smooth_contains radius sdfs c =
      elim (smooth_loop 0 (float_zero, tt) (float_zero, tt) (map (λ s. no_normal s c) sdfs)) [
        | none ↦ true
        | some (a, b) ↦ smooth_test radius a.0 b.0
      ]

  unfoldable pub smooth_join : Float → List (Sdf C) → Option (Solid C)
  smooth_join radius [] = none
  smooth_join radius (s ∷ ss) =
      checked_func_solid space (ar.add_scalar (sdf_min_loop s.min ss) (ar.negate radius))
        (ar.add_scalar (sdf_max_loop s.max ss) radius) (λ c. smooth_contains radius (s ∷ ss) c)

  -- SmoothJoinV2, whose radius depends on the normals
  unfoldable pub smooth_v2_contains : Float → List (NormalSdf C) → C → Bool
  smooth_v2_contains radius sdfs c =
      elim (smooth_loop 0 (float_zero, space.zero_coord) (float_zero, space.zero_coord)
        (map (λ s. (let (p, d) = s.normal_sdf c in (d, p))) sdfs)) [
          | none ↦ true
          | some (a, b) ↦
              let cos_theta = ar.abs (ar.dot a.1 b.1) in
              smooth_test
                (ar.times radius (ar.sqrt (ar.minus ar.one (ar.times cos_theta cos_theta)))) a.0 b.0
        ]

  unfoldable pub smooth_join_v2 : Float → List (NormalSdf C) → Option (Solid C)
  smooth_join_v2 radius [] = none
  smooth_join_v2 radius (s ∷ ss) =
      checked_func_solid space
        (ar.add_scalar (sdf_min_loop (s.base).min (map (λ t. t.base) ss)) (ar.negate radius))
        (ar.add_scalar (sdf_max_loop (s.base).max (map (λ t. t.base) ss)) radius)
        (λ c. smooth_v2_contains radius (s ∷ ss) c)

  unfoldable pub sdf_to_solid : Sdf C → Float → Option (Solid C)
  sdf_to_solid s outset =
      checked_func_solid space (ar.add_scalar s.min (ar.negate outset)) (ar.add_scalar s.max outset)
        (λ c. ltb (ar.negate outset) (s.sdf c))

-- a number of values, of which only two count
abbrev pub two_at_most : ℕ → ℕ
two_at_most n = if ltb 2 n then 2 else n

takes_first :
    (v a b x : Float) (n : ℕ)
    → b ≤ a
    → a ≤ x
    → two_at_most ((to_nat (leb v x) + to_nat (leb v a)) + n)
      ≡ two_at_most ((to_nat (leb v a) + to_nat (leb v b)) + (if leb v x then suc n else n))
takes_first v a b x n h k = ground arith

takes_second :
    (v a b x : Float) (n : ℕ)
    → x ≤ a
    → b < x
    → two_at_most ((to_nat (leb v a) + to_nat (leb v x)) + n)
      ≡ two_at_most ((to_nat (leb v a) + to_nat (leb v b)) + (if leb v x then suc n else n))
takes_second v a b x n h k = ground arith

takes_none :
    (v a b x : Float) (n : ℕ)
    → b ≤ a
    → x ≤ b
    → two_at_most ((to_nat (leb v a) + to_nat (leb v b)) + n)
      ≡ two_at_most ((to_nat (leb v a) + to_nat (leb v b)) + (if leb v x then suc n else n))
takes_none v a b x n h k = ground arith

module _ {N : Type 0} where
  -- how many of two values, and of the values of a list, are at least a value
  abbrev pub at_least : Float → Float × N → Float × N → ℕ
  at_least v a b = to_nat (leb v a.0) + to_nat (leb v b.0)

  abbrev NoneInside : List (Float × N) → Type 0
  NoneInside xs = tally (λ x. ltb float_zero x.0) xs ≡ 0

  -- two values with all of those of a list
  abbrev pub AreLargest : Float × N → Float × N → Float × N → Float × N → List (Float × N) → Type 0
  AreLargest a b a0 b0 xs =
      (b.0 ≤ a.0)
      × ((v : Float) → at_least v a b ≡ two_at_most (at_least v a0 b0 + tally (λ x. leb v x.0) xs))

  smooth_loop-largest :
      (i : ℕ) (a b : Float × N) (xs : List (Float × N))
      → 2 ≤ i
      → b.0 ≤ a.0
      → NoneInside xs
      → (a1 b1 : Float × N) × (smooth_loop i a b xs ≡ some (a1, b1)) × AreLargest a1 b1 a b xs
  unfolding smooth_loop put_closest
  smooth_loop-largest i a b [] h k none_in = (a, b, refl, (k, λ v. ground arith))
  smooth_loop-largest i a b (x ∷ xs) h k none_in =
      let inside : ltb float_zero x.0 ≡ false = ground (arith, none_in) in
      let late : ltb i 2 ≡ false = ground arith in
      let rest = rw inside at none_in in
      elim (Bool-cases (leb a.0 x.0)) [
        | inl first ↦
            let (a1, b1, eq, (order, counts)) =
              smooth_loop-largest (i + 1) x a xs (omega arith) (ground (arith, first)) rest in
            rw (late, first, inside)
              (
                a1,
                b1,
                eq,
                (order, λ v. counts v ∙ takes_first v a.0 b.0 x.0 _ k (ground (arith, first))),
              )
        | inr below ↦ elim (Bool-cases (ltb b.0 x.0)) [
          | inl second ↦
              let (a1, b1, eq, (order, counts)) =
                smooth_loop-largest (i + 1) a x xs (omega arith) (ground (arith, below)) rest in
              rw (late, below, second, inside)
                (
                  a1,
                  b1,
                  eq,
                  (
                    order,
                    λ v.
                        counts v
                        ∙ takes_second v a.0 b.0 x.0 _ (ground (arith, below))
                            (ground (arith, second)),
                  ),
                )
          | inr small ↦
              let (a1, b1, eq, (order, counts)) =
                smooth_loop-largest (i + 1) a b xs (omega arith) k rest in
              rw (late, below, small, inside)
                (
                  a1,
                  b1,
                  eq,
                  (order, λ v. counts v ∙ takes_none v a.0 b.0 x.0 _ k (ground (arith, small))),
                )
        ]
      ]

  -- When all of two or more distances are at most zero and the first is no less than the second,
  -- the loop of SmoothJoin ends with the two largest of them in order: for each bound, the two
  -- that reach it are as many as all that do, up to two.
  pub smooth_loop-AreLargest :
      (x y : Float × N) (zero_pair : Float × N) (xs : List (Float × N))
      → y.0 ≤ x.0
      → NoneInside (x ∷ y ∷ xs)
      → (a b : Float × N) × (smooth_loop 0 zero_pair zero_pair (x ∷ y ∷ xs) ≡ some (a, b))
        × AreLargest a b x y xs
  unfolding smooth_loop put_closest
  smooth_loop-AreLargest x y zero_pair xs order none_in =
      let first : ltb float_zero x.0 ≡ false = ground (arith, none_in) in
      let second : ltb float_zero y.0 ≡ false = ground (arith, none_in) in
      let (a, b, eq, largest) =
        smooth_loop-largest 2 x y xs (omega arith) order (rw (first, second) at none_in) in
      rw (first, second) (a, b, eq, largest)
