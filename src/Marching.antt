-- ===== src/Marching.antt =====
-- model3d/mc.go: the corners, rotations and triangles of a marching cube. A corner is a number below 8
-- with its coordinates for bits; a rotation and a triangle are Go arrays of 8 and of 6 corners; the
-- corners inside of a solid are the bits of a uint8.
pub mod Table
pub mod Rotations
pub mod Faces
pub mod Edges
pub mod Blocks
pub mod Cache
pub mod Surface
pub mod Scan
mod Tests
use Prim.Native.Nat.{bit_and, bit_or}
use model3d.Base.{
  ℕ, zero, suc, ◌+◌, ◌-◌, ◌*◌, ◌/◌, ◌%◌, ◌^◌, ◌≤◌, ◌<◌, ◌≡◌, refl, sym, ap, ◌∙◌, ◌≢◌, ◌↔◌, ◌⊎◌, inl,
  inr, Bool, true, false, not, ◌&&◌, ◌||◌, Option, none, some, List, [], ◌∷◌, ◌++◌, map, arith, ltb,
  leb, nat_beq, if◌then◌else◌, Eq, ◌==◌, Zero, nat_beq_iff, nat_eq, Bool-cases, Option-cases,
  ==_refl, is_some, length, get_elem?, get_or, set, replicate, take, drop, length-append,
  length-set, length-replicate, to_nat, count, count-append, or_else, or_else-none,
}

abbrev pub McCorner : Type 0
McCorner = ℕ

abbrev pub McRotation : Type 0
McRotation = List McCorner

abbrev pub McTriangle : Type 0
McTriangle = List McCorner

abbrev pub McIntersections : Type 0
McIntersections = ℕ

-- an index out of range would panic; corners stay below 8
unfoldable pub apply_corner : McRotation → McCorner → McCorner
apply_corner m c = get_or m c 0

unfoldable pub compose : McRotation → McRotation → McRotation
unfolding apply_corner
compose m m1 = map (apply_corner m) m1

unfoldable pub apply_triangle : McRotation → McTriangle → McTriangle
unfolding apply_corner
apply_triangle m t = map (apply_corner m) t

unfoldable pub inside : McIntersections → McCorner → Bool
inside m c = not (nat_beq (bit_and m (2 ^ c)) 0)

-- `res |= bit` on a uint8
abbrev pub set_bit : McIntersections → McCorner → McIntersections
set_bit res c = bit_or res (2 ^ c) % 256

-- the loop over the corners from `c`, with `n` of them left
apply_corners : ℕ → McCorner → McRotation → McIntersections → McIntersections → McIntersections
apply_corners zero c m i res = res
apply_corners (suc n) c m i res =
    apply_corners n (c + 1) m i (if inside i c then set_bit res (apply_corner m c) else res)

unfoldable pub apply_intersections : McRotation → McIntersections → McIntersections
unfolding apply_corners inside apply_corner
apply_intersections m i = apply_corners 8 0 m i 0

set_bits : List McCorner → McIntersections → McIntersections
set_bits [] res = res
set_bits (c ∷ cs) res = set_bits cs (set_bit res c)

-- more than eight corners would panic; the table has none
unfoldable pub new_mc_intersections : List McCorner → McIntersections
unfolding set_bits
new_mc_intersections corners = set_bits corners 0

abbrev pub rotation_beq : McRotation → McRotation → Bool
rotation_beq [] [] = true
rotation_beq [] (d ∷ ds) = false
rotation_beq (c ∷ cs) [] = false
rotation_beq (c ∷ cs) (d ∷ ds) =
    let rest = rotation_beq cs ds in if nat_beq c d then rest else false

pub rotation_beq_iff : (a b : McRotation) → (rotation_beq a b ≡ true) ↔ (a ≡ b)
rotation_beq_iff [] [] = ground arith
rotation_beq_iff [] (d ∷ ds) = ground arith
rotation_beq_iff (c ∷ cs) [] = ground arith
rotation_beq_iff (c ∷ cs) (d ∷ ds) = ground (arith, rotation_beq_iff cs ds)

instance abbrev pub rotation_eq : Eq McRotation
rotation_eq = record { beq = rotation_beq; beq_iff = rotation_beq_iff }

abbrev pub z_rotation : McRotation
z_rotation = 2 ∷ 0 ∷ 3 ∷ 1 ∷ 6 ∷ 4 ∷ 7 ∷ 5 ∷ []

abbrev pub x_rotation : McRotation
x_rotation = 2 ∷ 3 ∷ 6 ∷ 7 ∷ 0 ∷ 1 ∷ 4 ∷ 5 ∷ []

abbrev pub identity : McRotation
identity = 0 ∷ 1 ∷ 2 ∷ 3 ∷ 4 ∷ 5 ∷ 6 ∷ 7 ∷ []

unfoldable pub elem : McRotation → List McRotation → Bool
elem r [] = false
elem r (s ∷ rs) = if rotation_beq r s then true else elem r rs

-- the inner loop over the two generators; the queue and the keys of `resMap` grow together
extend :
    List McRotation
    → McRotation
    → List McRotation × List McRotation
    → List McRotation × List McRotation
extend [] next (queue, found) = (queue, found)
extend (op ∷ ops) next (queue, found) =
    let rotated = compose op next in
    extend ops next (
      if elem rotated found then (queue, found) else (queue ++ rotated ∷ [], found ++ rotated ∷ []))

-- the outer loop; `none` if the queue is not empty when the fuel is spent
unfoldable pub search_rotations : ℕ → List McRotation → List McRotation → Option (List McRotation)
unfolding extend compose elem
search_rotations fuel [] found = some found
search_rotations zero (next ∷ queue) found = none
search_rotations (suc fuel) (next ∷ queue) found =
    let (queue', found') = extend (z_rotation ∷ x_rotation ∷ []) next (queue, found) in
    search_rotations fuel queue' found'

-- the comparison of `sort.Slice`
unfoldable pub rotation_less : McRotation → McRotation → Bool
rotation_less [] s = false
rotation_less (c ∷ r) [] = false
rotation_less (c ∷ r) (d ∷ s) =
    let rest = rotation_less r s in if ltb c d then true else if ltb d c then false else rest

insert_sorted : McRotation → List McRotation → List McRotation
insert_sorted r [] = r ∷ []
insert_sorted r (s ∷ rs) =
    let rest = insert_sorted r rs in if rotation_less s r then s ∷ rest else r ∷ s ∷ rs

sort_rotations : List McRotation → List McRotation
sort_rotations [] = []
sort_rotations (r ∷ rs) = insert_sorted r (sort_rotations rs)

-- 24 rounds take every rotation off the queue
unfoldable pub all_mc_rotations : Option (List McRotation)
unfolding search_rotations rotation_less insert_sorted sort_rotations
all_mc_rotations = elim (search_rotations 24 (identity ∷ []) (identity ∷ [])) [
  | some found ↦ some (sort_rotations found)
  | none ↦ none
]
