-- ===== src/Marching/Cache/Samples.antt =====
-- model3d/mc.go: what the loops of Populate leave at each index, and what GetCube reads there.
use model3d.Base.{
  ℕ, zero, suc, ◌+◌, ◌-◌, ◌*◌, ◌≤◌, ◌<◌, ◌≡◌, refl, ap, ◌∙◌, Bool, ◌||◌, Option, none, some, List,
  [], ◌∷◌, arith, nat_eq, length, get_elem?, get_elem?-append_left, get_elem?-append_right,
  length-append, ◌>>=◌,
}
use model3d.Marching.Blocks.{McBlock}
use model3d.Marching.Cache.{
  collect_loop, checked, on_edge, populate, square_samples, square_bits, sample_at, block_square,
  get_cube,
}
use model3d.Marching.Cache.Bits.{cube_bits}

>>=-eq-some {ℓ κ} :
    {A : Type ℓ} {B : Type κ} (m : Option A) (f : A → Option B) {b : B}
    → (m >>= f) ≡ some b
    → (a : A) × (m ≡ some a) × (f a ≡ some b)
>>=-eq-some none f h = cc
>>=-eq-some (some a) f h = (a, refl, h)

-- a round's list has length `w`
abbrev IsWide : (ℕ → Option (List Bool)) → ℕ → Type 0
IsWide sample w = (k : ℕ) (bs : List Bool) → sample k ≡ some bs → length bs ≡ w

length-collect :
    (n i w : ℕ) (sample : ℕ → Option (List Bool)) (vs : List Bool)
    → IsWide sample w
    → collect_loop n i sample ≡ some vs
    → length vs ≡ n * w
unfolding collect_loop
length-collect zero i w sample vs wide e = ground arith
length-collect (suc n) i w sample vs wide e =
    let (bs, first, e') = >>=-eq-some (sample i) _ e in
    let (rest, later, e'') = >>=-eq-some (collect_loop n (i + 1) sample) _ e' in
    ground (
      arith,
      wide i bs first,
      length-append bs rest,
      length-collect n (i + 1) w sample rest wide later,
    )

-- the value at index `at`, in row `p` and column `q`
get_elem?-collect :
    (n i w : ℕ) (sample : ℕ → Option (List Bool)) (vs : List Bool) (p q at k : ℕ)
    → IsWide sample w
    → collect_loop n i sample ≡ some vs
    → p < n
    → q < w
    → at ≡ p * w + q
    → k ≡ i + p
    → (bs : List Bool) × (sample k ≡ some bs) × (get_elem? vs at ≡ get_elem? bs q)
unfolding collect_loop
get_elem?-collect zero i w sample vs p q at k wide e hp hq ha hk = absurd (omega arith)
get_elem?-collect (suc n) i w sample vs zero q at k wide e hp hq ha hk =
    let (bs, first, e') = >>=-eq-some (sample i) _ e in
    let (rest, later, e'') = >>=-eq-some (collect_loop n (i + 1) sample) _ e' in
    let same : k ≡ i = omega arith in
    let column : at ≡ q = omega arith in
    let size = wide i bs first in
    (
      bs,
      ap sample same ∙ first,
      ground (arith, ap (get_elem? vs) column, get_elem?-append_left bs rest q),
    )
get_elem?-collect (suc n) i w sample vs (suc p) q at k wide e hp hq ha hk =
    let (bs, first, e') = >>=-eq-some (sample i) _ e in
    let (rest, later, e'') = >>=-eq-some (collect_loop n (i + 1) sample) _ e' in
    let size = wide i bs first in
    let (cs, there, value) =
      get_elem?-collect n (i + 1) w sample rest p q (p * w + q) k wide later (omega arith) hq refl
        (omega arith) in
    let past = get_elem?-append_right bs rest at (p * w + q) (omega (arith, size)) in
    (cs, there, ground (arith, value, past))

index_in_plane : (r c w h : ℕ) → r < h → c < w → r * w + c < w * h
index_in_plane r c w h p q = grind arith

checked-eq-some : (b edge : Bool) (bs : List Bool) → checked b edge ≡ some bs → bs ≡ b ∷ []
unfolding checked
checked-eq-some b edge bs e = ground arith

-- a cell whose eight corners are corners of the block
pub record IsCell (m : McBlock) (x y z : ℕ) : Type 0 where
  pub above : (m.min.x ≤ x) × (m.min.y ≤ y) × (m.min.z ≤ z)
  pub below : (x < m.max.x) × (y < m.max.y) × (z < m.max.z)

module _ (xs ys zs : ℕ) (contains : ℕ → ℕ → ℕ → Bool) (m : McBlock) (values : List Bool) where
  -- the loops of `populate` for one corner, one row and one plane
  abbrev corner : ℕ → ℕ → ℕ → Option (List Bool)
  corner z y x = checked (contains x y z) (on_edge x xs || on_edge y ys || on_edge z zs)

  abbrev row : ℕ → ℕ → Option (List Bool)
  row z y = collect_loop (m.max.x + 1 - m.min.x) m.min.x (corner z y)

  abbrev plane : ℕ → Option (List Bool)
  plane z = collect_loop (m.max.y + 1 - m.min.y) m.min.y (row z)

  corner-IsWide : (z y : ℕ) → IsWide (corner z y) 1
  corner-IsWide z y x bs e = ap length (checked-eq-some _ _ bs e)

  row-IsWide : (z : ℕ) → IsWide (row z) (1 + m.max.x - m.min.x)
  row-IsWide z y bs e =
      omega (arith, length-collect _ m.min.x 1 (corner z y) bs (corner-IsWide z y) e)

  plane-IsWide : IsWide plane ((1 + m.max.x - m.min.x) * (1 + m.max.y - m.min.y))
  plane-IsWide z bs e = ground (arith, length-collect _ m.min.y _ (row z) bs (row-IsWide z) e)

  -- Populate leaves at the place of each corner of the block whether the solid contains it.
  pub sample_at-populate :
      (x y z : ℕ)
      → populate xs ys zs contains m ≡ some values
      → m.min.x ≤ x
      → x ≤ m.max.x
      → m.min.y ≤ y
      → y ≤ m.max.y
      → m.min.z ≤ z
      → z ≤ m.max.z
      → sample_at m values (z - m.min.z) (x - m.min.x) (y - m.min.y) ≡ some (contains x y z)
  unfolding populate sample_at
  sample_at-populate x y z e hx hx' hy hy' hz hz' =
      let column = x - m.min.x in
      let line = (y - m.min.y) * (1 + m.max.x - m.min.x) + column in
      let (ps, in_plane, from_plane) =
        get_elem?-collect _ m.min.z _ plane values (z - m.min.z) line _ z plane-IsWide e
          (omega arith) (index_in_plane (y - m.min.y) column _ _ (omega arith) (omega arith))
          (omega arith) (omega arith) in
      let (rs, in_row, from_row) =
        get_elem?-collect _ m.min.y _ (row z) ps (y - m.min.y) column _ y (row-IsWide z) in_plane
          (omega arith) (omega arith) refl (omega arith) in
      let (cs, in_corner, from_corner) =
        get_elem?-collect _ m.min.x _ (corner z y) rs column 0 column x (corner-IsWide z y) in_row
          (omega arith) (omega arith) (omega arith) (omega arith) in
      let single = checked-eq-some _ _ cs in_corner in
      from_plane ∙ from_row ∙ from_corner ∙ ap (λ l. get_elem? l 0) single

  module _ (x y z : ℕ) (filled : populate xs ys zs contains m ≡ some values)
      (cell : IsCell m x y z) where
    offset : (lo n : ℕ) → lo ≤ n → n + 1 - lo ≡ n - lo + 1
    offset lo n h = omega arith

    abbrev square : ℕ → List Bool
    square k =
        contains x y k
        ∷ contains (x + 1) y k
        ∷ contains x (y + 1) k
        ∷ contains (x + 1) (y + 1) k
        ∷ []

    square_at :
        (k : ℕ)
        → z ≤ k
        → k ≤ z + 1
        → square_samples (sample_at m values (k - m.min.z)) (x - m.min.x) (y - m.min.y)
          ≡ some (square k)
    unfolding square_samples
    square_at k lo hi =
        let bottom : m.min.z ≤ k = omega (arith, cell.above.2) in
        let top : k ≤ m.max.z = omega (arith, cell.below.2) in
        let left = cell.above.0 in
        let front = cell.above.1 in
        rw (
          ← offset m.min.x x left,
          ← offset m.min.y y front,
          sample_at-populate x y k filled left (omega (arith, cell.below.0)) front
              (omega (arith, cell.below.1)) bottom top,
          sample_at-populate (x + 1) y k filled (omega arith) (omega (arith, cell.below.0)) front
              (omega (arith, cell.below.1)) bottom top,
          sample_at-populate x (y + 1) k filled left (omega (arith, cell.below.0)) (omega arith)
              (omega (arith, cell.below.1)) bottom top,
          sample_at-populate (x + 1) (y + 1) k filled (omega arith) (omega (arith, cell.below.0))
              (omega arith) (omega (arith, cell.below.1)) bottom top,
        )

    block_square-eq :
        (k : ℕ)
        → z ≤ k
        → k ≤ z + 1
        → block_square m values (x - m.min.x) (y - m.min.y) (k - m.min.z)
          ≡ some (square_bits (square k))
    unfolding block_square
    block_square-eq k lo hi = rw (square_at k lo hi)

    -- After Populate without a panic, GetCube at a cell of the block gives the case whose bits are
    -- what the solid says of the eight corners of the cell.
    pub get_cube-eq : get_cube m values x y z ≡ some (cube_bits (square z) (square (z + 1)))
    unfolding get_cube
    get_cube-eq = rw (
      block_square-eq z (omega arith) (omega arith),
      ← offset m.min.z z cell.above.2,
      block_square-eq (z + 1) (omega arith) (omega arith),
    )
