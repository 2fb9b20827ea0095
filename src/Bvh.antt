-- ===== src/Bvh.antt =====
-- model3d/bvh.go, model2d/bvh.go: GroupBounders and NewBVHAreaDensity, which order objects by nested
-- boxes. Both files come from one text, which is modelled over the type of points and its axes. The
-- sort and the float arithmetic on areas are parameters; an index out of range is `none`.
pub mod Members
pub mod Separate
pub mod Axes
pub mod Split
pub mod Group
pub mod Scores
pub mod Density
pub mod Tree
pub mod Spaces
pub mod Whole
pub mod Plane
pub mod Sorting
mod Tests
use model3d.Base.{
  ℕ, zero, suc, ◌+◌, ◌-◌, ◌*◌, ◌/◌, ◌%◌, ◌^◌, ◌≤◌, ◌<◌, ◌≡◌, refl, sym, ap, ◌∙◌, ◌≢◌, ◌↔◌, ◌⊎◌, inl,
  inr, Bool, true, false, not, ◌&&◌, ◌||◌, Option, none, some, List, [], ◌∷◌, ◌++◌, map, arith, ltb,
  leb, nat_beq, if◌then◌else◌, Eq, ◌==◌, Zero, nat_beq_iff, nat_eq, Bool-cases, Option-cases,
  ==_refl, is_some, length, get_elem?, get_or, get_elem?-append_left, get_elem?-append_right, set,
  replicate, take, drop, length-append, length-set, length-replicate, to_nat, count, count-append,
  or_else, or_else-none, ◌>>=◌, all_below, all_of, all_below_sound, all_of_sound,
}
use model3d.Coords.{Float, float_zero}

-- a point with the operations that the text uses: `Min`, `Max` and the comparisons that
-- multipleBoundsArea makes in their place
pub record BoxSpace (C : Type 0) : Type 0 where
  pub axes : ℕ
  pub array : C → ℕ → Float
  pub lower : C → C → C
  pub upper : C → C → C
  pub lower_inline : C → C → C
  pub upper_inline : C → C → C
  pub mid : C → C → C
  pub bounds_area : C → C → Float
  pub plus : Float → Float → Float
  pub times_count : Float → ℕ → Float
  pub choose_axis : List Float → ℕ

-- a *flaggedBounder: its address and its fields; the flags are kept by address
pub record FlaggedBounder (C B : Type 0) : Type 0 where
  pub address : ℕ
  pub object : B
  pub min : C
  pub max : C
  pub mid : C

abbrev pub Flags : Type 0
Flags = ℕ → Bool

-- a node with a `Leaf`, or one with a `Branch` of two
pub data Bvh (B : Type 0) : Type 0 where
  leaf : B → Bvh B
  branch : Bvh B → Bvh B → Bvh B

-- a sort, with the order that it sorts by
abbrev pub Sorter : Type 0 → Type 0 → Type 0
Sorter C B =
    (FlaggedBounder C B → FlaggedBounder C B → Bool)
    → List (FlaggedBounder C B)
    → List (FlaggedBounder C B)

module _ {C B : Type 0} where
  -- the loop that sets the flags of the first `mid_idx`
  unfoldable pub mark_first : ℕ → ℕ → List (FlaggedBounder C B) → Flags → Flags
  mark_first mid_idx i [] flags = flags
  mark_first mid_idx i (b ∷ bs) flags =
      mark_first mid_idx (i + 1) bs (λ k. if nat_beq b.address k then ltb i mid_idx else flags k)

  -- the loop that fills `sep`, whose slots are nil at first
  unfoldable pub place :
      Flags
      → List (FlaggedBounder C B)
      → List (Option (FlaggedBounder C B))
      → ℕ
      → ℕ
      → Option (List (Option (FlaggedBounder C B)))
  place flags [] sep idx0 idx1 = some sep
  place flags (b ∷ bs) sep idx0 idx1 =
      let first = flags b.address in
      let idx = if first then idx0 else idx1 in
      let rest =
        place flags bs (set sep idx (some b)) (if first then idx0 + 1 else idx0)
          (if first then idx1 else idx1 + 1) in
      if ltb idx (length sep) then rest else none

  -- a nil pointer that is left would be read later
  unfoldable pub no_nil : List (Option (FlaggedBounder C B)) → Option (List (FlaggedBounder C B))
  no_nil [] = some []
  no_nil (none ∷ bs) = none
  no_nil (some b ∷ bs) = do rest ← no_nil bs; some (b ∷ rest)

  unfoldable pub separate :
      Flags → ℕ → List (FlaggedBounder C B) → Option (List (FlaggedBounder C B))
  separate flags mid_idx bs = do
    sep ← place flags bs (replicate (length bs) none) 0 mid_idx
    no_nil sep

  -- the loop over the axes, from the given one on
  unfoldable pub separate_axes :
      Flags
      → ℕ
      → ℕ
      → ℕ
      → List (List (FlaggedBounder C B))
      → Option (List (List (FlaggedBounder C B)))
  separate_axes flags axis mid_idx new_axis [] = some []
  separate_axes flags axis mid_idx new_axis (bs ∷ sorted) = do
    sep ← if nat_beq new_axis axis then some bs else separate flags mid_idx bs
    rest ← separate_axes flags axis mid_idx (new_axis + 1) sorted
    some (sep ∷ rest)

  -- splitBounders, with the flags that it leaves
  unfoldable pub split_bounders :
      List (List (FlaggedBounder C B))
      → ℕ
      → ℕ
      → Flags
      → Option (List (List (FlaggedBounder C B)) × List (List (FlaggedBounder C B)) × Flags)
  split_bounders sorted axis mid_idx flags = do
    along ← get_elem? sorted axis
    let marked = mark_first mid_idx 0 along flags
    separated ← separate_axes marked axis mid_idx 0 sorted
    some (map (take mid_idx) separated, map (drop mid_idx) separated, marked)

module _ {C B : Type 0} (space : BoxSpace C) where
  -- multipleBoundsArea
  unfoldable pub area_loop : C → C → List (FlaggedBounder C B) → Float
  area_loop min max [] = space.bounds_area min max
  area_loop min max (b ∷ bs) =
      area_loop (space.lower_inline min b.min) (space.upper_inline max b.max) bs

  unfoldable pub multiple_bounds_area : List (FlaggedBounder C B) → Option Float
  multiple_bounds_area [] = none
  multiple_bounds_area (b ∷ bs) = some (area_loop b.min b.max bs)

  -- the function `areaForAxis`
  unfoldable pub area_for_axis : ℕ → List (FlaggedBounder C B) → Option Float
  area_for_axis mid_idx bs = do
    below ← multiple_bounds_area (take mid_idx bs)
    above ← multiple_bounds_area (drop mid_idx bs)
    some (space.plus below above)

  unfoldable pub best_axis_loop : ℕ → ℕ → ℕ → Float → List (List (FlaggedBounder C B)) → Option ℕ
  best_axis_loop mid_idx i axis min_area [] = some axis
  best_axis_loop mid_idx i axis min_area (bs ∷ sorted) = do
    a ← area_for_axis mid_idx bs
    best_axis_loop mid_idx (i + 1) (if ltb a min_area then i else axis)
        (if ltb a min_area then a else min_area) sorted

  unfoldable pub best_split_axis : List (List (FlaggedBounder C B)) → Option ℕ
  best_split_axis [] = none
  best_split_axis (bs ∷ sorted) = do
    let mid_idx = length bs / 2
    min_area ← area_for_axis mid_idx bs
    best_axis_loop mid_idx 1 0 min_area sorted

  -- the end of groupBounders, with its calls of itself
  unfoldable pub group_halves :
      (List (List (FlaggedBounder C B)) → Flags → Option (List B × Flags))
      → ℕ
      → List (List (FlaggedBounder C B))
      → Flags
      → Option (List B × Flags)
  group_halves group_rest mid_idx sorted flags = do
    axis ← best_split_axis sorted
    (first, second, flags1) ← split_bounders sorted axis mid_idx flags
    (out1, flags2) ← group_rest first flags1
    (out2, flags3) ← group_rest second flags2
    some (out1 ++ out2, flags3)

  -- groupBounders to a depth: what it writes to `output`, and the flags that it leaves
  unfoldable pub group_bounders :
      ℕ → List (List (FlaggedBounder C B)) → Flags → Option (List B × Flags)
  group_bounders zero sorted flags = none
  group_bounders (suc depth) sorted flags = do
    bs ← get_elem? sorted 0
    (if ltb (length bs) 3
        then some (map (λ b. b.object) bs, flags)
        else group_halves (λ s fs. group_bounders depth s fs) (length bs / 2) sorted flags)

  -- the sorted lists of the first axes
  unfoldable pub sort_axes :
      Sorter C B → List (FlaggedBounder C B) → ℕ → ℕ → List (List (FlaggedBounder C B))
  sort_axes sort flagged axis zero = []
  sort_axes sort flagged axis (suc n) =
      sort (λ a b. ltb (space.array a.mid axis) (space.array b.mid axis)) flagged
      ∷ sort_axes sort flagged (axis + 1) n

  module _ (min_of max_of : B → C) where
    unfoldable pub flagged_from : ℕ → List B → List (FlaggedBounder C B)
    flagged_from address [] = []
    flagged_from address (b ∷ bs) =
        record {
          address = address;
          object = b;
          min = min_of b;
          max = max_of b;
          mid = space.mid (min_of b) (max_of b);
        }
        ∷ flagged_from (suc address) bs

    unfoldable pub sort_bounders : Sorter C B → List B → List (List (FlaggedBounder C B))
    sort_bounders sort bs = sort_axes sort (flagged_from 0 bs) 0 space.axes

    -- GroupBounders: the slice after the call
    unfoldable pub group : Sorter C B → List B → Option (List B)
    group sort objects = do
      (out, flags) ← group_bounders (suc (length objects)) (sort_bounders sort objects) (λ k. false)
      some out

  -- the first loop of areaDensityBVHSplit, which runs from the end: the bounds of a list and the cache
  unfoldable pub density_cache : FlaggedBounder C B → List (FlaggedBounder C B) → C × C × List Float
  density_cache t [] = (t.min, t.max, [])
  density_cache t (u ∷ faces) =
      let (min, max, cache) = density_cache u faces in
      (
        space.lower min t.min,
        space.upper max t.max,
        space.times_count (space.bounds_area min max) (suc (length faces)) ∷ cache,
      )

  -- the second loop, which leaves out the last face; `cache[i]` is read in step with the faces
  unfoldable pub density_loop :
      ℕ → C → C → ℕ → Float → List (FlaggedBounder C B) → List Float → ℕ × Float
  density_loop i min max best_index best_score [] cache = (best_index, best_score)
  density_loop i min max best_index best_score (t ∷ []) cache = (best_index, best_score)
  density_loop i min max best_index best_score (t ∷ u ∷ faces) [] = (best_index, best_score)
  density_loop i min max best_index best_score (t ∷ u ∷ faces) (c ∷ cache) =
      let min1 = space.lower min t.min in
      let max1 = space.upper max t.max in
      let score = space.plus (space.times_count (space.bounds_area min1 max1) i) c in
      let better = ltb score best_score || nat_beq i 1 in
      density_loop (i + 1) min1 max1 (if better then i + 1 else best_index)
        (if better then score else best_score) (u ∷ faces) cache

  unfoldable pub area_density_split : List (FlaggedBounder C B) → Option (ℕ × Float)
  area_density_split [] = none
  area_density_split (t ∷ faces) =
      let (min, max, cache) = density_cache t faces in
      some (density_loop 1 t.min t.max 0 float_zero faces (drop 1 cache))

  unfoldable pub scores_of :
      (List (FlaggedBounder C B) → Option (ℕ × Float))
      → List (List (FlaggedBounder C B))
      → Option (List (ℕ × Float))
  scores_of splitter [] = some []
  scores_of splitter (bs ∷ sorted) = do
    s ← splitter bs
    rest ← scores_of splitter sorted
    some (s ∷ rest)

  -- the end of newBVH, with its calls of itself
  unfoldable pub new_branch :
      (List (List (FlaggedBounder C B)) → Flags → Option (Bvh B × Flags))
      → (List (FlaggedBounder C B) → Option (ℕ × Float))
      → List (List (FlaggedBounder C B))
      → Flags
      → Option (Bvh B × Flags)
  new_branch build splitter sorted flags = do
    scores ← scores_of splitter sorted
    let axis = space.choose_axis (map (λ s. s.1) scores)
    best ← get_elem? scores axis
    (first, second, flags1) ← split_bounders sorted axis best.0 flags
    (left, flags2) ← build first flags1
    (right, flags3) ← build second flags2
    some (branch left right, flags3)

  -- newBVH of one and of two objects, with its result
  unfoldable pub small_bvh : List (FlaggedBounder C B) → Flags → Option (Bvh B × Flags)
  small_bvh [] flags = none
  small_bvh (b ∷ []) flags = some (leaf b.object, flags)
  small_bvh (b ∷ c ∷ bs) flags = some (branch (leaf b.object) (leaf c.object), flags)

  -- newBVH to a depth, with the flags that it leaves
  unfoldable pub new_bvh :
      ℕ
      → (List (FlaggedBounder C B) → Option (ℕ × Float))
      → List (List (FlaggedBounder C B))
      → Flags
      → Option (Bvh B × Flags)
  new_bvh zero splitter sorted flags = none
  new_bvh (suc depth) splitter sorted flags = do
    bs ← get_elem? sorted 0
    (if ltb (length bs) 3
        then small_bvh bs flags
        else new_branch (λ s fs. new_bvh depth splitter s fs) splitter sorted flags)

  unfoldable pub new_bvh_area_density : (B → C) → (B → C) → Sorter C B → List B → Option (Bvh B)
  new_bvh_area_density min_of max_of sort objects = do
    (t, flags) ←
        new_bvh (suc (length objects)) area_density_split (sort_bounders min_of max_of sort objects)
          (λ k. false)
    some t
