-- ===== src/Coords.antt =====
-- model3d/coords.go, model3d/primitives.go: points, triangles and the comparisons of coordinates.
-- The code modelled here compares coordinates and does no arithmetic on them, so a float64 is its
-- rank among all float64 values from -Inf upwards: `<` and `==` are those of the ranks. NaN has no
-- rank, and -0 has that of +0. Where code sees the sign of a zero, as the hash of a point does, the
-- sign is added (FastMap.Types.Signed), or the points are those without a negative zero.
use Prim.Native.Nat.{min, max}
use model3d.Base.{ℕ, zero, suc, ◌≡◌, ◌↔◌, Bool, true, ◌&&◌, arith, nat_beq, Eq, Zero, nat_eq}

abbrev pub Float : Type 0
Float = ℕ

-- the number of values below 0: the bit patterns of -Inf and of the negative numbers
abbrev pub float_zero : Float
float_zero = 0x7ff0_0000_0000_0000

pub record Coord3D : Type 0 where
  pub x : Float
  pub y : Float
  pub z : Float

abbrev pub coord_beq : Coord3D → Coord3D → Bool
coord_beq a b = nat_beq a.x b.x && (nat_beq a.y b.y && nat_beq a.z b.z)

pub coord_beq_iff : (a b : Coord3D) → (coord_beq a b ≡ true) ↔ (a ≡ b)
coord_beq_iff a b = ground arith

instance abbrev pub coord_eq : Eq Coord3D
coord_eq = record { beq = coord_beq; beq_iff = coord_beq_iff }

-- `[2]Coord3D`
pub record Edge : Type 0 where
  pub first : Coord3D
  pub second : Coord3D

abbrev pub edge_beq : Edge → Edge → Bool
edge_beq a b = coord_beq a.first b.first && coord_beq a.second b.second

pub edge_beq_iff : (a b : Edge) → (edge_beq a b ≡ true) ↔ (a ≡ b)
edge_beq_iff a b = ground (arith, coord_beq_iff a.first b.first, coord_beq_iff a.second b.second)

instance abbrev pub edge_eq : Eq Edge
edge_eq = record { beq = edge_beq; beq_iff = edge_beq_iff }

instance abbrev pub coord_zero : Zero Coord3D
coord_zero = record { zero_value = record { x = float_zero; y = float_zero; z = float_zero } }

-- The smaller and the larger corner of two points.
unfoldable pub coord_min : Coord3D → Coord3D → Coord3D
coord_min a b = record { x = min a.x b.x; y = min a.y b.y; z = min a.z b.z }

unfoldable pub coord_max : Coord3D → Coord3D → Coord3D
coord_max a b = record { x = max a.x b.x; y = max a.y b.y; z = max a.z b.z }

-- an axis is 0, 1 or 2: `Array()[axis]`, and the point with one coordinate assigned
abbrev pub coord_at : Coord3D → ℕ → Float
coord_at c zero = c.x
coord_at c (suc zero) = c.y
coord_at c _ = c.z

abbrev pub with_coord : Coord3D → ℕ → Float → Coord3D
with_coord c zero v = record c { x = v }
with_coord c (suc zero) v = record c { y = v }
with_coord c _ v = record c { z = v }

-- an axis-aligned box
pub record Rect : Type 0 where
  pub min_val : Coord3D
  pub max_val : Coord3D

abbrev pub rect_beq : Rect → Rect → Bool
rect_beq a b = coord_beq a.min_val b.min_val && coord_beq a.max_val b.max_val

pub rect_beq_iff : (a b : Rect) → (rect_beq a b ≡ true) ↔ (a ≡ b)
rect_beq_iff a b =
    ground (arith, coord_beq_iff a.min_val b.min_val, coord_beq_iff a.max_val b.max_val)

instance abbrev pub rect_eq : Eq Rect
rect_eq = record { beq = rect_beq; beq_iff = rect_beq_iff }

-- the test of InBounds: `c.Min(min) == min && c.Max(max) == max`
unfoldable pub in_bounds : Coord3D → Coord3D → Coord3D → Bool
unfolding coord_min coord_max
in_bounds lo hi c = coord_beq (coord_min c lo) lo && coord_beq (coord_max c hi) hi

unfoldable pub rect_contains : Rect → Coord3D → Bool
unfolding in_bounds
rect_contains r c = in_bounds r.min_val r.max_val c

-- a point of the plane, and `[2]Coord`
pub record Coord : Type 0 where
  pub x : Float
  pub y : Float

pub record PlaneEdge : Type 0 where
  pub first : Coord
  pub second : Coord

abbrev pub plane_coord_beq : Coord → Coord → Bool
plane_coord_beq a b = nat_beq a.x b.x && nat_beq a.y b.y

pub plane_coord_beq_iff : (a b : Coord) → (plane_coord_beq a b ≡ true) ↔ (a ≡ b)
plane_coord_beq_iff a b = ground arith

instance abbrev pub plane_coord_eq : Eq Coord
plane_coord_eq = record { beq = plane_coord_beq; beq_iff = plane_coord_beq_iff }

abbrev pub plane_edge_beq : PlaneEdge → PlaneEdge → Bool
plane_edge_beq a b = plane_coord_beq a.first b.first && plane_coord_beq a.second b.second

pub plane_edge_beq_iff : (a b : PlaneEdge) → (plane_edge_beq a b ≡ true) ↔ (a ≡ b)
plane_edge_beq_iff a b =
    ground (arith, plane_coord_beq_iff a.first b.first, plane_coord_beq_iff a.second b.second)

instance abbrev pub plane_edge_eq : Eq PlaneEdge
plane_edge_eq = record { beq = plane_edge_beq; beq_iff = plane_edge_beq_iff }

-- the point of the plane that is left of a point without one of its coordinates
abbrev pub without_coord : Coord3D → ℕ → Coord
without_coord c zero = record { x = c.y; y = c.z }
without_coord c (suc zero) = record { x = c.x; y = c.z }
without_coord c _ = record { x = c.x; y = c.y }
