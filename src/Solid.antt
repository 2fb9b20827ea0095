-- ===== src/Solid.antt =====
-- model3d/solid.go, model2d/solid.go: solids and their combinators, and the SolidMux. Both files come
-- from one text, which is modelled over the type of points. A panic is `none`.
pub mod Boxes
pub mod Lawful
pub mod Grouped
pub mod Mux
pub mod Indices
pub mod AllContains
pub mod Smooth
pub mod Spaces
pub mod Sections
pub mod Plane
mod Tests
use model3d.Base.{
  eq_beq, ℕ, zero, suc, ◌+◌, ◌-◌, ◌*◌, ◌/◌, ◌%◌, ◌^◌, ◌≤◌, ◌<◌, ◌≡◌, refl, sym, ap, ◌∙◌, ◌≢◌, ◌↔◌,
  ◌⊎◌, inl, inr, Bool, true, false, not, ◌&&◌, ◌||◌, Option, none, some, List, [], ◌∷◌, ◌++◌, map,
  arith, ltb, leb, nat_beq, if◌then◌else◌, Eq, ◌==◌, Zero, nat_beq_iff, nat_eq, Bool-cases,
  Option-cases, ==_refl, is_some, length, get_elem?, get_or, get_elem?-append_left,
  get_elem?-append_right, set, replicate, take, drop, length-append, length-set, length-replicate,
  to_nat, count, count-append, or_else, or_else-none, ◌>>=◌, all_below, all_of, all_below_sound,
  all_of_sound,
}
use model3d.GoMap.{GoMap, insert, lookup}
use model3d.Bvh.{BoxSpace, Sorter, group}

-- the points: `Min` and `Max`, the checks of BoundsValid, and what GroupBounders uses
pub record SolidSpace (C : Type 0) : Type 0 where
  pub zero_coord : C
  pub bounds_valid : C → C → Bool
  pub boxes : BoxSpace C

-- a Solid by its methods
pub record Solid (C : Type 0) : Type 0 where
  pub min : C
  pub max : C
  pub contains : C → Bool

-- a Rect, and a *Rect with its address
pub record Box (C : Type 0) : Type 0 where
  pub min_val : C
  pub max_val : C

pub record BoxPointer (C : Type 0) : Type 0 where
  pub address : ℕ
  pub box : Box C

-- a SolidMux by its `totalSolids`: none, one, or more of them
pub data SolidMux (C : Type 0) : Type 0 where
  no_solids : SolidMux C
  one_solid : (bbox : Box C) (leaf : Solid C) (leaf_index : ℕ) → SolidMux C
  many_solids : (bbox : Box C) (total_solids : ℕ) (first second : SolidMux C) → SolidMux C

-- `res[i] = true`, which may be out of range
unfoldable pub set_true : ℕ → Option (List Bool) → Option (List Bool)
set_true i none = none
set_true i (some res) = if ltb i (length res) then some (set res i true) else none

-- the value of a missing key
abbrev pub or_zero : Option ℕ → ℕ
or_zero none = 0
or_zero (some n) = n

module _ {C : Type 0} ⦃e : Eq C⦄ (space : SolidSpace C) where
  -- the test of InBounds, and of Contains of a Rect
  unfoldable pub in_bounds : C → C → C → Bool
  in_bounds min max c = (space.boxes.lower c min == min) && (space.boxes.upper c max == max)

  unfoldable pub func_solid : C → C → (C → Bool) → Option (Solid C)
  func_solid min max f =
      if space.bounds_valid min max
      then some (record { min = min; max = max; contains = f })
      else none

  unfoldable pub checked_func_solid : C → C → (C → Bool) → Option (Solid C)
  checked_func_solid min max f = func_solid min max (λ c. in_bounds min max c && f c)

  unfoldable pub force_solid_bounds : Solid C → C → C → Option (Solid C)
  force_solid_bounds s min max = checked_func_solid min max (λ c. s.contains c)

  unfoldable pub cache_solid_bounds : Solid C → Option (Solid C)
  cache_solid_bounds s = force_solid_bounds s s.min s.max

  -- the loops of Min and Max of a JoinedSolid
  unfoldable pub joined_min_loop : C → List (Solid C) → C
  joined_min_loop min [] = min
  joined_min_loop min (s ∷ ss) = joined_min_loop (space.boxes.lower min s.min) ss

  unfoldable pub joined_max_loop : C → List (Solid C) → C
  joined_max_loop max [] = max
  joined_max_loop max (s ∷ ss) = joined_max_loop (space.boxes.upper max s.max) ss

  unfoldable pub joined_min : List (Solid C) → Option C
  joined_min [] = none
  joined_min (s ∷ ss) = some (joined_min_loop s.min ss)

  unfoldable pub joined_max : List (Solid C) → Option C
  joined_max [] = none
  joined_max (s ∷ ss) = some (joined_max_loop s.max ss)

  unfoldable pub joined_contains : List (Solid C) → C → Bool
  joined_contains [] c = false
  joined_contains (s ∷ ss) c = if s.contains c then true else joined_contains ss c

  -- a JoinedSolid as a Solid
  unfoldable pub joined_solid : List (Solid C) → Option (Solid C)
  joined_solid solids = do
    lo ← joined_min solids
    hi ← joined_max solids
    some (record { min = lo; max = hi; contains = λ c. joined_contains solids c })

  -- groupedSolidsToSolid to a depth, with its calls of itself
  unfoldable pub grouped_halves :
      (List (Solid C) → Option (Solid C)) → List (Solid C) → Option (Solid C)
  grouped_halves build solids = do
    first ← build (take (length solids / 2) solids)
    second ← build (drop (length solids / 2) solids)
    joined ← joined_solid (first ∷ second ∷ [])
    cache_solid_bounds joined

  unfoldable pub grouped_solids_to_solid : ℕ → List (Solid C) → Option (Solid C)
  grouped_solids_to_solid zero solids = none
  grouped_solids_to_solid (suc depth) solids =
      if nat_beq (length solids) 1
      then get_elem? solids 0 >>= cache_solid_bounds
      else grouped_halves (λ half. grouped_solids_to_solid depth half) solids

  unfoldable pub optimize : Sorter C (Solid C) → List (Solid C) → Option (Solid C)
  optimize sort solids = do
    grouped ← group space.boxes (λ s. s.min) (λ s. s.max) sort solids
    grouped_solids_to_solid (suc (length solids)) grouped

  -- a SubtractedSolid
  unfoldable pub subtracted_solid : Solid C → Solid C → Solid C
  subtracted_solid positive negative = record {
    min = positive.min;
    max = positive.max;
    contains = λ c. positive.contains c && not (negative.contains c);
  }

  -- an IntersectedSolid
  unfoldable pub intersected_min_loop : C → List (Solid C) → C
  intersected_min_loop bound [] = bound
  intersected_min_loop bound (s ∷ ss) = intersected_min_loop (space.boxes.upper bound s.min) ss

  unfoldable pub intersected_max_loop : C → List (Solid C) → C
  intersected_max_loop bound [] = bound
  intersected_max_loop bound (s ∷ ss) = intersected_max_loop (space.boxes.lower bound s.max) ss

  unfoldable pub intersected_contains : List (Solid C) → C → Bool
  intersected_contains [] c = true
  intersected_contains (s ∷ ss) c = if not (s.contains c) then false else intersected_contains ss c

  unfoldable pub intersected_solid : List (Solid C) → Option (Solid C)
  intersected_solid [] = none
  intersected_solid (s ∷ ss) = some (record {
    min = intersected_min_loop s.min ss;
    max = space.boxes.upper (intersected_max_loop s.max ss) (intersected_min_loop s.min ss);
    contains = λ c. intersected_contains (s ∷ ss) c;
  })

  -- the Rect of each solid, and the index by the address
  unfoldable pub bounds_rects : ℕ → List (Solid C) → List (BoxPointer C)
  bounds_rects i [] = []
  bounds_rects i (s ∷ ss) =
      record { address = i; box = record { min_val = s.min; max_val = s.max } }
      ∷ bounds_rects (suc i) ss

  unfoldable pub index_bounders : ℕ → List (BoxPointer C) → GoMap ℕ ℕ → GoMap ℕ ℕ
  index_bounders i [] bounder_to_index = bounder_to_index
  index_bounders i (b ∷ bs) bounder_to_index =
      index_bounders (suc i) bs (insert b.address i bounder_to_index)

  -- `groupedSolids` and `indices`
  unfoldable pub grouped_solids :
      List (Solid C) → GoMap ℕ ℕ → List (BoxPointer C) → Option (List (Solid C) × List ℕ)
  grouped_solids solids bounder_to_index [] = some ([], [])
  grouped_solids solids bounder_to_index (b ∷ bs) = do
    let idx = or_zero (lookup b.address bounder_to_index)
    s ← get_elem? solids idx
    (ss, indices) ← grouped_solids solids bounder_to_index bs
    some (s ∷ ss, idx ∷ indices)

  unfoldable pub one_solid_mux : List (Solid C) → List ℕ → Option (SolidMux C)
  one_solid_mux solids indices = do
    s ← get_elem? solids 0
    i ← get_elem? indices 0
    some (one_solid (record { min_val = s.min; max_val = s.max }) s i)

  -- groupedSolidsToSolidMux to a depth, with its calls of itself
  unfoldable pub mux_halves :
      (List (Solid C) → List ℕ → Option (SolidMux C))
      → List (Solid C)
      → List ℕ
      → Option (SolidMux C)
  mux_halves build solids indices = do
    let split_idx = length solids / 2
    lo ← joined_min solids
    hi ← joined_max solids
    first ← build (take split_idx solids) (take split_idx indices)
    second ← build (drop split_idx solids) (drop split_idx indices)
    some (many_solids (record { min_val = lo; max_val = hi }) (length solids) first second)

  unfoldable pub grouped_solids_to_solid_mux : ℕ → List (Solid C) → List ℕ → Option (SolidMux C)
  grouped_solids_to_solid_mux zero solids indices = none
  grouped_solids_to_solid_mux (suc depth) solids indices =
      if nat_beq (length solids) 1
      then one_solid_mux solids indices
      else mux_halves (λ ss is. grouped_solids_to_solid_mux depth ss is) solids indices

  unfoldable pub new_solid_mux : Sorter C (BoxPointer C) → List (Solid C) → Option (SolidMux C)
  new_solid_mux sort [] = some no_solids
  new_solid_mux sort (s ∷ ss) = do
    let bounders = bounds_rects 0 (s ∷ ss)
    grouped ← group space.boxes (λ b. b.box.min_val) (λ b. b.box.max_val) sort bounders
    (solids, indices) ← grouped_solids (s ∷ ss) (index_bounders 0 bounders []) grouped
    grouped_solids_to_solid_mux (suc (length solids)) solids indices

  unfoldable pub total_solids : SolidMux C → ℕ
  total_solids no_solids = 0
  total_solids (one_solid bbox leaf leaf_index) = 1
  total_solids (many_solids bbox total first second) = total

  unfoldable pub mux_contains : SolidMux C → C → Bool
  mux_contains no_solids c = false
  mux_contains (one_solid bbox leaf leaf_index) c =
      if not (in_bounds bbox.min_val bbox.max_val c) then false else leaf.contains c
  mux_contains (many_solids bbox total first second) c =
      let in_first = mux_contains first c in
      let in_second = mux_contains second c in
      if not (in_bounds bbox.min_val bbox.max_val c)
      then false
      else if in_first
      then true
      else if in_second
      then true
      else false

  -- IterContains: the count, and the state that the calls of `f` leave
  unfoldable pub iter_contains : {S : Type 0} → SolidMux C → C → (ℕ → S → S) → S → ℕ × S
  iter_contains no_solids c f st = (0, st)
  iter_contains (one_solid bbox leaf leaf_index) c f st =
      if not (in_bounds bbox.min_val bbox.max_val c)
      then (0, st)
      else if leaf.contains c
      then (1, f leaf_index st)
      else (0, st)
  iter_contains (many_solids bbox total first second) c f st =
      let (n, st1) = iter_contains first c f st in
      let (m, st2) = iter_contains second c f st1 in
      if not (in_bounds bbox.min_val bbox.max_val c) then (0, st) else (n + m, st2)

  -- AllContains
  unfoldable pub all_contains : SolidMux C → C → Option (List Bool)
  all_contains s c = (iter_contains s c set_true (some (replicate (total_solids s) false))).1
