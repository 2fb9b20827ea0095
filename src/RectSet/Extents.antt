-- ===== src/RectSet/Extents.antt =====
-- toolbox3d/rect_set.go: Min and Max of a set on the grid of its boxes.
use model3d.Base.{
  eq_beq, ℕ, zero, suc, ◌-◌, ◌≤◌, ◌<◌, ◌≡◌, refl, inl, inr, Bool, true, some, List, [], ◌∷◌, arith,
  nat_beq, nat_eq, Bool-cases, length, get_elem?, get_or,
}
use model3d.GoMap.{GoMap}
use model3d.Coords.{Coord3D, Float, coord_eq, coord_at, Rect, rect_eq, rect_contains, in_bounds}
use model3d.RectSet.{RectSet, Splits, splits_at}
use model3d.RectSet.Cover.{covers, between, rect_contains_axes}
use model3d.RectSet.Values.{In, IsSorted, IsGap, get_or-In}
use model3d.RectSet.Grid.{IsCell, IsGrid}
use model3d.RectSet.Kept.{IsKey, head-IsKey}
use model3d.RectSet.Inside.{IsOn, contains-IsOn, covers-key}
use model3d.RectSet.Ends.{IsTight}
use model3d.RectSet.Solid.{rect_set_min, rect_set_max, point_of, last_split}

pub cell_at :
    (s : Splits) (q : Rect) (axis : ℕ)
    → IsCell s q
    → IsGap (splits_at s axis) (coord_at q.min_val axis) (coord_at q.max_val axis)
cell_at s q zero c = c.on_x
cell_at s q (suc zero) c = c.on_y
cell_at s q (suc (suc axis)) c = c.on_z

pub IsSorted-at : (r : RectSet) (axis : ℕ) → IsGrid r → IsSorted (splits_at r.splits axis)
IsSorted-at r zero g = g.sorted.0
IsSorted-at r (suc zero) g = g.sorted.1
IsSorted-at r (suc (suc axis)) g = g.sorted.2

pub on_at :
    (q : Rect) (p : Coord3D) (axis : ℕ)
    → IsOn q p
    → (coord_at q.min_val axis ≤ coord_at p axis) × (coord_at p axis ≤ coord_at q.max_val axis)
on_at q p zero on = on.0
on_at q p (suc zero) on = on.1
on_at q p (suc (suc axis)) on = on.2

pub get_elem?-get_or :
    (vs : List Float) (i : ℕ) → i < length vs → get_elem? vs i ≡ some (get_or vs i 0)
get_elem?-get_or [] i h = absurd (omega arith)
get_elem?-get_or (v ∷ vs) zero h = refl
get_elem?-get_or (v ∷ vs) (suc i) h = get_elem?-get_or vs i (omega arith)

pub get_or-lt :
    (vs : List Float) (i j : ℕ)
    → IsSorted vs
    → i < j
    → j < length vs
    → get_or vs i 0 < get_or vs j 0
get_or-lt [] i j d lt h = absurd (omega arith)
get_or-lt (v ∷ vs) i zero d lt h = absurd (omega arith)
get_or-lt (v ∷ vs) zero (suc j) d lt h = d.0 (get_or vs j 0) (get_or-In vs j (omega arith))
get_or-lt (v ∷ vs) (suc i) (suc j) d lt h = get_or-lt vs i j d.1 (omega arith) (omega arith)

-- an entry of a list stands somewhere in it
In-get_or :
    (vs : List Float) (w : Float) → In w vs → (i : ℕ) × (i < length vs) × (get_or vs i 0 ≡ w)
In-get_or [] w h = absurd h
In-get_or (v ∷ vs) w (inl e) = (0, omega arith, e)
In-get_or (v ∷ vs) w (inr h) = let (i, lt, e) = In-get_or vs w h in (suc i, omega arith, e)

-- the first and the last value
abbrev pub first_of : List Float → Float
first_of vs = get_or vs 0 0

abbrev pub last_of : List Float → Float
last_of vs = get_or vs (length vs - 1) 0

pub first_of-le : (vs : List Float) (w : Float) → IsSorted vs → In w vs → first_of vs ≤ w
first_of-le [] w d h = absurd h
first_of-le (v ∷ vs) w d h = ground (arith, d.0 w)

pub last_of-ge : (vs : List Float) (w : Float) → IsSorted vs → In w vs → w ≤ last_of vs
last_of-ge vs w d h =
    let (i, lt, e) = In-get_or vs w h in
    elim (Bool-cases (nat_beq i (length vs - 1))) [
      | inl same ↦ ground (arith, e)
      | inr other ↦ omega (arith, e, get_or-lt vs i (length vs - 1) d (ground arith) (ground arith))
    ]

abbrev pub point : (List Float → Float) → Splits → Coord3D
point f s = record { x = f s.x; y = f s.y; z = f s.z }

-- a set with a box has planes on each axis
pub has_planes :
    (r : RectSet) (axis : ℕ) → IsGrid r → 0 < length r.rects → 0 < length (splits_at r.splits axis)
has_planes r axis g nonempty =
    let (q, key) = some_key r.rects nonempty in
    In-pos (splits_at r.splits axis) _ (cell_at r.splits q axis (g.cells q key)).low
  where
    some_key : (m : GoMap Rect Bool) → 0 < length m → (q : Rect) × IsKey q m
    some_key [] h = absurd (omega arith)
    some_key ((q, b) ∷ m) h = (q, head-IsKey q b m)

    In-pos : (vs : List Float) (w : Float) → In w vs → 0 < length vs
    In-pos [] w h = absurd h
    In-pos (v ∷ vs) w h = omega arith

pub min-point :
    (r : RectSet)
    → IsGrid r
    → 0 < length r.rects
    → (rect_set_min r ≡ some (point first_of r.splits))
      × (rect_set_max r ≡ some (point last_of r.splits))
unfolding rect_set_min rect_set_max point_of last_split
min-point r g nonempty =
    let x = has_planes r 0 g nonempty in
    let y = has_planes r 1 g nonempty in
    let z = has_planes r 2 g nonempty in
    (
      ground (
        arith,
        get_elem?-get_or r.splits.x 0 x,
        get_elem?-get_or r.splits.y 0 y,
        get_elem?-get_or r.splits.z 0 z,
      ),
      ground (
        arith,
        get_elem?-get_or r.splits.x (length r.splits.x - 1) (omega (arith, x)),
        get_elem?-get_or r.splits.y (length r.splits.y - 1) (omega (arith, y)),
        get_elem?-get_or r.splits.z (length r.splits.z - 1) (omega (arith, z)),
      ),
    )

pub in_bounds_axes :
    (lo hi p : Coord3D)
    → (lo.x ≤ p.x) × (p.x ≤ hi.x)
    → (lo.y ≤ p.y) × (p.y ≤ hi.y)
    → (lo.z ≤ p.z) × (p.z ≤ hi.z)
    → in_bounds lo hi p ≡ true
unfolding between rect_contains
in_bounds_axes lo hi p x y z =
    ground (arith, rect_contains_axes (record { min_val = lo; max_val = hi }) p)

axis_bounds :
    (r : RectSet) (q : Rect) (p : Coord3D) (axis : ℕ)
    → IsGrid r
    → IsKey q r.rects
    → IsOn q p
    → (first_of (splits_at r.splits axis) ≤ coord_at p axis)
      × (coord_at p axis ≤ last_of (splits_at r.splits axis))
axis_bounds r q p axis g key on =
    let c = cell_at r.splits q axis (g.cells q key) in
    let d = IsSorted-at r axis g in
    omega (
      arith,
      first_of-le (splits_at r.splits axis) _ d c.low,
      last_of-ge (splits_at r.splits axis) _ d c.high,
      on_at q p axis on,
    )

pub covers-in_bounds :
    (r : RectSet) (p : Coord3D)
    → IsGrid r
    → covers r.rects p ≡ true
    → in_bounds (point first_of r.splits) (point last_of r.splits) p ≡ true
covers-in_bounds r p g covered =
    let (q, key, inside) = covers-key r.rects p covered in
    let on = contains-IsOn q p inside in
    in_bounds_axes _ _ p (axis_bounds r q p 0 g key on) (axis_bounds r q p 1 g key on)
      (axis_bounds r q p 2 g key on)

-- a box at the lower bound of an axis, and one at the upper bound
pub first_end :
    (r : RectSet) (axis : ℕ)
    → IsGrid r
    → IsTight r
    → 0 < length r.rects
    → (q : Rect) × IsKey q r.rects × (coord_at q.min_val axis ≡ first_of (splits_at r.splits axis))
first_end r axis g t nonempty =
    let vs = splits_at r.splits axis in
    let (q, key, end) = t axis (first_of vs) (get_or-In vs 0 (has_planes r axis g nonempty)) in
    let c = cell_at r.splits q axis (g.cells q key) in
    (q, key, ground (arith, end, c.proper, first_of-le vs _ (IsSorted-at r axis g) c.low))

pub last_end :
    (r : RectSet) (axis : ℕ)
    → IsGrid r
    → IsTight r
    → 0 < length r.rects
    → (q : Rect) × IsKey q r.rects × (coord_at q.max_val axis ≡ last_of (splits_at r.splits axis))
last_end r axis g t nonempty =
    let vs = splits_at r.splits axis in
    let some_plane = has_planes r axis g nonempty in
    let (q, key, end) =
      t axis (last_of vs) (get_or-In vs (length vs - 1) (omega (arith, some_plane))) in
    let c = cell_at r.splits q axis (g.cells q key) in
    (q, key, ground (arith, end, c.proper, last_of-ge vs _ (IsSorted-at r axis g) c.high))
