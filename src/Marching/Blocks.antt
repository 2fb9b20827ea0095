-- ===== src/Marching/Blocks.antt =====
-- model3d/mc.go: mcBlock, a box of cells, and its division into pieces. The spacer, which only gives
-- the coordinates of the corners, is left out of the block.
use model3d.Base.{
  ℕ, zero, suc, ◌+◌, ◌-◌, ◌*◌, ◌/◌, ◌≤◌, ◌<◌, ◌≡◌, inl, inr, Bool, true, ◌&&◌, Option, none, some,
  List, [], ◌∷◌, ◌++◌, arith, ltb, leb, if◌then◌else◌, nat_eq, Bool-cases, to_nat,
}

-- `[3]int`
pub record Int3 : Type 0 where
  pub x : ℕ
  pub y : ℕ
  pub z : ℕ

pub record McBlock : Type 0 where
  pub min : Int3
  pub max : Int3

-- from the numbers of coordinates on the three axes, which are at least one
unfoldable pub new_mc_block : ℕ → ℕ → ℕ → McBlock
new_mc_block xs ys zs = record {
  min = record { x = 0; y = 0; z = 0 };
  max = record { x = xs - 1; y = ys - 1; z = zs - 1 };
}

-- lengths are differences of ordered bounds, so `-` is that of the source
abbrev pub len_x : McBlock → ℕ
len_x m = m.max.x - m.min.x

abbrev pub len_y : McBlock → ℕ
len_y m = m.max.y - m.min.y

abbrev pub len_z : McBlock → ℕ
len_z m = m.max.z - m.min.z

unfoldable pub volume : McBlock → ℕ
volume m = len_x m * len_y m * len_z m

unfoldable pub num_points : McBlock → ℕ
num_points m = (len_x m + 1) * (len_y m + 1) * (len_z m + 1)

-- 0, 1 or 2 for the axis that is split
unfoldable pub split_axis : McBlock → ℕ
split_axis m =
    if leb (len_x m) (len_y m) && leb (len_z m) (len_y m)
    then 1
    else if leb (len_x m) (len_z m) && leb (len_y m) (len_z m)
    then 2
    else 0

-- `a[axis]` and `a[axis] = v`
abbrev pub at_axis : Int3 → ℕ → ℕ
at_axis a zero = a.x
at_axis a (suc zero) = a.y
at_axis a _ = a.z

abbrev pub with_axis : Int3 → ℕ → ℕ → Int3
with_axis a zero v = record a { x = v }
with_axis a (suc zero) v = record a { y = v }
with_axis a _ v = record a { z = v }

split_at : McBlock → ℕ → ℕ → McBlock × McBlock
split_at m axis middle =
    (record m { max = with_axis m.max axis middle }, record m { min = with_axis m.min axis middle })

unfoldable pub split : McBlock → McBlock × McBlock
unfolding split_axis split_at
split m = let axis = split_axis m in split_at m axis ((at_axis m.max axis + at_axis m.min axis) / 2)

-- the blocks that `f` is called on, in order; `none` if the fuel is spent
unfoldable pub pieces : ℕ → ℕ → (McBlock → Bool) → McBlock → Option (List McBlock)
pieces zero min_volume g m = none
pieces (suc fuel) min_volume g m =
    let first = pieces fuel min_volume g (split m).0 in
    let second = pieces fuel min_volume g (split m).1 in
    let both : Option (List McBlock) = elim first [
      | none ↦ none
      | some bs ↦ elim second [ none ↦ none | some cs ↦ some (bs ++ cs) ]
    ] in
    let divided = if ltb (volume m / 2) min_volume then some (m ∷ []) else both in
    if g m then divided else some []

abbrev pub IsBlock : McBlock → Type 0
IsBlock m = (m.min.x ≤ m.max.x) × (m.min.y ≤ m.max.y) × (m.min.z ≤ m.max.z)

in_range : ℕ → ℕ → ℕ → Bool
in_range lo n hi = leb lo n && ltb n hi

-- whether a cell, named by its lowest corner, lies in a block
unfoldable pub has_cell : McBlock → Int3 → Bool
unfolding in_range
has_cell m p =
    in_range m.min.x p.x m.max.x && in_range m.min.y p.y m.max.y && in_range m.min.z p.z m.max.z

-- how many blocks of a list have the cell
abbrev pub count_cell : Int3 → List McBlock → ℕ
count_cell p [] = 0
count_cell p (m ∷ ms) = to_nat (has_cell m p) + count_cell p ms

abbrev pub extent : McBlock → ℕ
extent m = len_x m + len_y m + len_z m

count_cell-append :
    (p : Int3) (ms ns : List McBlock) → count_cell p (ms ++ ns) ≡ count_cell p ms + count_cell p ns
count_cell-append p [] ns = omega arith
count_cell-append p (m ∷ ms) ns = omega (arith, count_cell-append p ms ns)

small_product : (a b c : ℕ) → a ≤ 1 → b ≤ 1 → c ≤ 1 → a * b * c ≤ 1
small_product zero b c ha hb hc = omega arith
small_product (suc zero) zero c ha hb hc = omega arith
small_product (suc zero) (suc zero) c ha hb hc = omega arith
small_product a b c ha hb hc = absurd (omega arith)

-- A block of at least two cells is split in two smaller blocks: both are boxes.
split-IsBlock : (m : McBlock) → IsBlock m → IsBlock (split m).0 × IsBlock (split m).1
unfolding split
split-IsBlock m v = ground arith

split-extent :
    (m : McBlock)
    → IsBlock m
    → 2 ≤ volume m
    → (extent (split m).0 < extent m) × (extent (split m).1 < extent m)
unfolding split volume
split-extent m v big = ground (arith, small_product (len_x m) (len_y m) (len_z m))

module _ (lo mid hi : ℕ) (below : lo ≤ mid) (above : mid ≤ hi) where
  in_range-split :
      (n : ℕ) → to_nat (in_range lo n mid) + to_nat (in_range mid n hi) ≡ to_nat (in_range lo n hi)
  unfolding in_range
  in_range-split n = ground arith

split_at-cells :
    (m : McBlock) (axis middle : ℕ) (p : Int3)
    → at_axis m.min axis ≤ middle
    → middle ≤ at_axis m.max axis
    → to_nat (has_cell (split_at m axis middle).0 p)
        + to_nat (has_cell (split_at m axis middle).1 p)
      ≡ to_nat (has_cell m p)
unfolding split_at has_cell
split_at-cells m zero middle p lo hi =
    ground (arith, in_range-split m.min.x middle m.max.x lo hi p.x)
split_at-cells m (suc zero) middle p lo hi =
    ground (arith, in_range-split m.min.y middle m.max.y lo hi p.y)
split_at-cells m (suc (suc axis)) middle p lo hi =
    ground (arith, in_range-split m.min.z middle m.max.z lo hi p.z)

at_axis-le : (m : McBlock) (axis : ℕ) → IsBlock m → at_axis m.min axis ≤ at_axis m.max axis
at_axis-le m zero v = v.0
at_axis-le m (suc zero) v = v.1
at_axis-le m (suc (suc axis)) v = v.2

-- Each cell of a block lies in exactly one of the two halves.
split-cells :
    (m : McBlock) (p : Int3)
    → IsBlock m
    → to_nat (has_cell (split m).0 p) + to_nat (has_cell (split m).1 p) ≡ to_nat (has_cell m p)
split-cells m p v =
    let axis = split_axis m in
    let ordered = at_axis-le m axis v in
    unfold split in
    split_at-cells m axis ((at_axis m.max axis + at_axis m.min axis) / 2) p (omega arith)
      (omega arith)

-- the pieces of a block have the cell once if the block has it, and the cell once in each
pub record Covers (m : McBlock) (p : Int3) (r : Option (List McBlock)) : Type 0 where
  pub delivered : List McBlock
  pub returned : r ≡ some delivered
  pub covered : count_cell p delivered ≡ to_nat (has_cell m p)

-- With a limit of at least one cell the division of a block ends, within a fuel above the sum of
-- its lengths; if the filter accepts every block that has the cell, exactly one of the delivered
-- pieces has it where the block has it, and none where the block does not.
pub pieces-Covers :
    (fuel min_volume : ℕ) (g : McBlock → Bool) (m : McBlock) (p : Int3)
    → IsBlock m
    → 0 < min_volume
    → extent m < fuel
    → ((b : McBlock) → has_cell b p ≡ true → g b ≡ true)
    → Covers m p (pieces fuel min_volume g m)
unfolding pieces
pieces-Covers zero min_volume g m p v pos enough accepts = absurd (omega arith)
pieces-Covers (suc fuel) min_volume g m p v pos enough accepts = elim (Bool-cases (g m)) [
  | inr refused ↦ record {
    delivered = [];
    returned = rw refused;
    covered = ground (arith, accepts m);
  }
  | inl accepted ↦ elim (Bool-cases (ltb (volume m / 2) min_volume)) [
    | inl small ↦ record {
      delivered = m ∷ [];
      returned = rw (accepted, small);
      covered = omega arith;
    }
    | inr large ↦
        let halves = split-IsBlock m v in
        let shorter = split-extent m v (ground arith) in
        let first =
          pieces-Covers fuel min_volume g (split m).0 p halves.0 pos (omega arith) accepts in
        let second =
          pieces-Covers fuel min_volume g (split m).1 p halves.1 pos (omega arith) accepts in
        record {
          delivered = first.delivered ++ second.delivered;
          returned = rw (accepted, large, first.returned, second.returned);
          covered =
              rw count_cell-append
                (omega (arith, first.covered, second.covered, split-cells m p v));
        }
  ]
]
