-- ===== src/Marching/Rotations.antt =====
-- model3d/mc.go: the rotations that the search finds, and the base cases under them. Go ranges over the
-- base cases in any order.
use model3d.Base.{
  ℕ, ◌+◌, ◌/◌, ◌%◌, ◌<◌, ◌≡◌, refl, true, none, some, List, [], arith, nat_beq, if◌then◌else◌,
  nat_beq_iff, nat_eq, length, get_or, count, all_below, all_below_sound,
}
use model3d.Marching.{
  McCorner, McIntersections, McRotation, McTriangle, all_mc_rotations, apply_corner,
  apply_intersections, compose, rotation_eq,
}
use model3d.Marching.Table.{base_triangle_table}

abbrev pub the_rotations : List McRotation
the_rotations = elim all_mc_rotations [ some rots ↦ rots | none ↦ [] ]

-- the `i`th rotation in sorted order
abbrev pub rotation : ℕ → McRotation
rotation i = get_or the_rotations i []

-- the number of coordinates in which two corners differ
abbrev pub corner_distance : McCorner → McCorner → ℕ
corner_distance c d =
    differ (c % 2) (d % 2) + differ (c / 2 % 2) (d / 2 % 2) + differ (c / 4) (d / 4)
  where
    differ : ℕ → ℕ → ℕ
    differ m n = if nat_beq m n then 0 else 1

rotation_count : length the_rotations ≡ 24
unfolding all_mc_rotations
rotation_count = refl

isometry_check :
    all_below 24 (λ i. all_below 8 (λ c. all_below 8 (λ d.
      nat_beq
        (corner_distance (apply_corner (rotation i) c) (apply_corner (rotation i) d))
        (corner_distance c d))))
    ≡ true
unfolding all_below all_mc_rotations apply_corner
isometry_check = refl

group_check :
    all_below 24
      (λ i. all_below 24 (λ j. nat_beq (count (compose (rotation i) (rotation j)) the_rotations) 1))
    ≡ true
unfolding all_below all_mc_rotations compose
group_check = refl

-- The search for rotations ends with 24 of them; each keeps the distance of any two corners, and
-- the composite of any two is one of them, listed once.
pub rotations_form_group :
    (i j c d : ℕ)
    → i < 24
    → j < 24
    → c < 8
    → d < 8
    → (length the_rotations ≡ 24)
      × (corner_distance (apply_corner (rotation i) c) (apply_corner (rotation i) d)
          ≡ corner_distance c d)
      × (count (compose (rotation i) (rotation j)) the_rotations ≡ 1)
rotations_form_group i j c d hi hj hc hd = (
  rotation_count,
  (nat_beq_iff _ _).0 (
      all_below_sound 8 _ d (all_below_sound 8 _ c (all_below_sound 24 _ i isometry_check hi) hc)
        hd),
  (nat_beq_iff _ _).0 (all_below_sound 24 _ j (all_below_sound 24 _ i group_check hi) hj),
)

-- the `k`th base case
abbrev pub base_case : ℕ → McIntersections × List McTriangle
base_case k = get_or base_triangle_table k (0, [])

-- the case that the `i`th rotation makes of the `k`th base case
abbrev pub rotated_case : ℕ → ℕ → McIntersections
rotated_case i k = apply_intersections (rotation i) (base_case k).0

orbit_check :
    all_below 23 (λ k. all_below 23 (λ l.
      all_below 24 (λ i. if nat_beq (rotated_case i k) (base_case l).0 then nat_beq k l else true)))
    ≡ true
unfolding all_below all_mc_rotations apply_intersections base_triangle_table
orbit_check = refl

if_beq : (m n k l : ℕ) → (if nat_beq m n then nat_beq k l else true) ≡ true → m ≡ n → k ≡ l
if_beq m n k l h e = ground arith

-- No rotation takes a base case of the table to another one, so a case is filled from one base
-- case alone.
pub base_cases_apart :
    (k l i : ℕ) → k < 23 → l < 23 → i < 24 → rotated_case i k ≡ (base_case l).0 → k ≡ l
base_cases_apart k l i hk hl hi =
    if_beq _ _ k l (
      all_below_sound 24 _ i (all_below_sound 23 _ l (all_below_sound 23 _ k orbit_check hk) hl) hi)
