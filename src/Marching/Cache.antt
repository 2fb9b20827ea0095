-- ===== src/Marching/Cache.antt =====
-- model3d/mc.go: mcBlockCache and solidCache, which sample the solid at the corners of cells and read
-- the case of a cell from the samples. The solid and the spacer's coordinates are one function, from
-- the indices of a corner to whether the solid contains it; the number of coordinates is given for
-- each axis. A panic and an index out of range are `none`.
pub mod Bits
pub mod Samples
use Prim.Native.Nat.{bit_or}
use model3d.Base.{
  ℕ, zero, suc, ◌+◌, ◌-◌, ◌*◌, ◌/◌, ◌%◌, ◌^◌, ◌≤◌, ◌<◌, ◌≡◌, refl, sym, ap, ◌∙◌, ◌≢◌, ◌↔◌, ◌⊎◌, inl,
  inr, Bool, true, false, not, ◌&&◌, ◌||◌, Option, none, some, List, [], ◌∷◌, ◌++◌, map, arith, ltb,
  leb, nat_beq, if◌then◌else◌, Eq, ◌==◌, Zero, nat_beq_iff, nat_eq, Bool-cases, Option-cases,
  ==_refl, is_some, length, get_elem?, get_or, get_elem?-append_left, get_elem?-append_right, set,
  replicate, take, drop, length-append, length-set, length-replicate, to_nat, count, count-append,
  or_else, or_else-none, ◌>>=◌, all_below, all_of, all_below_sound, all_of_sound,
}
use model3d.Marching.{McCorner, McIntersections, inside}
use model3d.Marching.Blocks.{Int3, McBlock, IsBlock}

-- a loop over `n` indices from `i` that appends what each round samples, or panics
unfoldable pub collect_loop : ℕ → ℕ → (ℕ → Option (List Bool)) → Option (List Bool)
collect_loop zero i sample = some []
collect_loop (suc n) i sample = do
  bs ← sample i
  rest ← collect_loop n (i + 1) sample
  some (bs ++ rest)

-- "solid is true outside of bounds"
unfoldable pub checked : Bool → Bool → Option (List Bool)
checked value edge = if value && edge then none else some (value ∷ [])

abbrev pub on_edge : ℕ → ℕ → Bool
on_edge i n = nat_beq i 0 || nat_beq i (n - 1)

module _ (xs ys zs : ℕ) (contains : ℕ → ℕ → ℕ → Bool) where
  unfoldable pub populate : McBlock → Option (List Bool)
  unfolding collect_loop checked
  populate block = collect_loop (block.max.z + 1 - block.min.z) block.min.z λ z.
      collect_loop (block.max.y + 1 - block.min.y) block.min.y λ y.
        collect_loop (block.max.x + 1 - block.min.x) block.min.x
          λ x. checked (contains x y z) (on_edge x xs || on_edge y ys || on_edge z zs)

  -- FetchZ of solidCache; its mask is the index of the sample
  unfoldable pub fetch_z : ℕ → Option (List Bool)
  unfolding collect_loop checked
  fetch_z z = collect_loop ys 0 λ i. collect_loop xs 0 λ j.
      checked (contains j i z)
        (on_edge z zs || nat_beq i 0 || nat_beq j 0 || nat_beq i (ys - 1) || nat_beq j (xs - 1))

-- the loop of `getSquare` over its samples
square_loop : List Bool → McIntersections → McIntersections → McIntersections
square_loop [] result mask = result
square_loop (b ∷ bs) result mask =
    square_loop bs (if b then bit_or result mask else result) (mask * 2 % 256)

unfoldable pub square_bits : List Bool → McIntersections
unfolding square_loop
square_bits bs = square_loop bs 0 1

-- the four samples of a square, in the order of the two loops
unfoldable pub square_samples : (ℕ → ℕ → Option Bool) → ℕ → ℕ → Option (List Bool)
square_samples get x y = do
  b0 ← get x y
  b1 ← get (x + 1) y
  b2 ← get x (y + 1)
  b3 ← get (x + 1) (y + 1)
  some (b0 ∷ b1 ∷ b2 ∷ b3 ∷ [])

-- `values[z*zStride+y1*yStride+x1]`
unfoldable pub sample_at : McBlock → List Bool → ℕ → ℕ → ℕ → Option Bool
sample_at block values z x y =
    let y_stride = 1 + block.max.x - block.min.x in
    let z_stride = y_stride * (1 + block.max.y - block.min.y) in
    get_elem? values (z * z_stride + y * y_stride + x)

unfoldable pub block_square : McBlock → List Bool → ℕ → ℕ → ℕ → Option McIntersections
block_square block values x y z = do
  bs ← square_samples (sample_at block values z) x y
  some (square_bits bs)

unfoldable pub get_cube : McBlock → List Bool → ℕ → ℕ → ℕ → Option McIntersections
get_cube block values x y z = do
  low ← block_square block values (x - block.min.x) (y - block.min.y) (z - block.min.z)
  high ← block_square block values (x - block.min.x) (y - block.min.y) (z - block.min.z + 1)
  some (bit_or low (high * 2 ^ 4 % 256))

-- `values[x+y*len(s.spacer.Xs)]`
unfoldable pub solid_get : ℕ → List Bool → ℕ → ℕ → Option Bool
solid_get xs values x y = get_elem? values (x + y * xs)

unfoldable pub get_square : ℕ → List Bool → ℕ → ℕ → Option McIntersections
get_square xs values x y = do bs ← square_samples (solid_get xs values) x y; some (square_bits bs)
