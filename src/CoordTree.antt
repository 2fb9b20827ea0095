-- ===== src/CoordTree.antt =====
-- model3d/coord_tree.go, model2d/coord_tree.go: CoordTree, a k-d tree over points. Both files come from
-- one text, which is modelled over the type of points, its number of axes and `Array()`.
-- `sort.Slice` is a parameter, and so are the float operations of the distances.
pub mod Build
pub mod Addresses
pub mod Contents
pub mod Search
pub mod Whole
pub mod Plane
pub mod Knn
mod Tests
use model3d.Base.{
  ℕ, zero, suc, ◌+◌, ◌-◌, ◌*◌, ◌/◌, ◌%◌, ◌^◌, ◌≤◌, ◌<◌, ◌≡◌, refl, sym, ap, ◌∙◌, ◌≢◌, ◌↔◌, ◌⊎◌, inl,
  inr, Bool, true, false, not, ◌&&◌, ◌||◌, Option, none, some, List, [], ◌∷◌, ◌++◌, map, arith, ltb,
  leb, nat_beq, if◌then◌else◌, Eq, ◌==◌, Zero, nat_beq_iff, nat_eq, Bool-cases, Option-cases,
  ==_refl, is_some, length, get_elem?, get_or, get_elem?-append_left, get_elem?-append_right, set,
  replicate, take, drop, length-append, length-set, length-replicate, to_nat, count, count-append,
  or_else, or_else-none, ◌>>=◌, all_below, all_of, all_below_sound, all_of_sound,
}
use model3d.Coords.{Float, float_zero}

-- a point with the operations that the text uses; the float operations are ranks as in Coords
pub record Space (C : Type 0) : Type 0 where
  pub dims : ℕ
  pub array : C → ℕ → Float
  pub zero_coord : C
  pub squared_dist : C → C → Float
  pub minus : Float → Float → Float
  pub times : Float → Float → Float
  pub inf : Float

-- a nil tree, or a node
pub data CoordTree (C : Type 0) : Type 0 where
  nil : CoordTree C
  node : (coord : C) (split_axis : ℕ) (less_than greater_equal : CoordTree C) → CoordTree C

-- a *flaggedCoord: its address and its point; the flags are kept by address
pub record FlaggedCoord (C : Type 0) : Type 0 where
  pub address : ℕ
  pub coord : C

abbrev pub Flags : Type 0
Flags = ℕ → Bool

-- a Coord3D and a pointer are compared by `==`
abbrev pub flagged_beq : {C : Type 0} ⦃e : Eq C⦄ → FlaggedCoord C → FlaggedCoord C → Bool
flagged_beq a b = nat_beq a.address b.address && (a.coord == b.coord)

instance abbrev pub flagged_eq : {C : Type 0} ⦃e : Eq C⦄ → Eq (FlaggedCoord C)
flagged_eq ⦃e⦄ = record {
  beq = flagged_beq;
  beq_iff = λ a b. ground (arith, e.beq_iff a.coord b.coord);
}

module _ {C : Type 0} ⦃e : Eq C⦄ (space : Space C) where
  unfoldable pub put_flag : Flags → ℕ → Bool → Flags
  put_flag flags k b j = if nat_beq k j then b else flags j

  -- the loop that sets the flags
  unfoldable pub set_flags : ℕ → Float → List (FlaggedCoord C) → Flags → Flags
  set_flags axis split_value [] flags = flags
  set_flags axis split_value (c ∷ coords) flags =
      set_flags axis split_value coords
        (put_flag flags c.address (not (ltb (space.array c.coord axis) split_value)))

  -- the coordinates that the loop appends to the left (`false`) or the right
  unfoldable pub branch : Flags → ℕ → Bool → List (FlaggedCoord C) → List (FlaggedCoord C)
  branch flags split_address side [] = []
  branch flags split_address side (c ∷ coords) =
      let rest = branch flags split_address side coords in
      if nat_beq c.address split_address
      then rest
      else if flags c.address
      then (if side then c ∷ rest else rest)
      else if side
      then rest
      else c ∷ rest

  -- newCoordTreeSorted to a depth, with the flags that it leaves
  unfoldable pub new_coord_tree_sorted :
      ℕ → (ℕ → List (FlaggedCoord C)) → ℕ → Flags → Option (CoordTree C × Flags)
  new_coord_tree_sorted zero coords axis flags = none
  new_coord_tree_sorted (suc depth) coords axis flags =
      if nat_beq (length (coords 0)) 0
      then some (nil, flags)
      else if nat_beq (length (coords 0)) 1
      then (do c ← get_elem? (coords 0) 0; some (node c.coord 0 nil nil, flags))
      else do
        split_coord ← get_elem? (coords axis) (length (coords axis) / 2)
        let flags1 = set_flags axis (space.array split_coord.coord axis) (coords axis) flags
        let next_axis = (axis + 1) % space.dims
        (less, flags2) ←
            new_coord_tree_sorted depth (λ i. branch flags1 split_coord.address false (coords i))
              next_axis flags1
        (more, flags3) ←
            new_coord_tree_sorted depth (λ i. branch flags1 split_coord.address true (coords i))
              next_axis flags2
        some (node split_coord.coord axis less more, flags3)

  -- `&flaggedCoord{...}` for each point
  unfoldable pub flagged_from : ℕ → List C → List (FlaggedCoord C)
  flagged_from address [] = []
  flagged_from address (p ∷ points) =
      record { address = address; coord = p } ∷ flagged_from (suc address) points

  -- `sort.Slice` sorts by a comparison of two entries
  abbrev pub Sorter : Type 0
  Sorter = (FlaggedCoord C → FlaggedCoord C → Bool) → List (FlaggedCoord C) → List (FlaggedCoord C)

  abbrev pub sorted_along : Sorter → List (FlaggedCoord C) → ℕ → List (FlaggedCoord C)
  sorted_along sort flagged i =
      sort (λ a b. ltb (space.array a.coord i) (space.array b.coord i)) flagged

  -- each call takes a point out, so the number of points is deep enough
  unfoldable pub new_coord_tree : Sorter → List C → Option (CoordTree C)
  new_coord_tree sort points = do
    let flagged = flagged_from 0 points
    let sorted = sorted_along sort flagged
    (t, flags) ← new_coord_tree_sorted (suc (length points)) sorted 0 (λ k. false)
    some t

  unfoldable pub contains : CoordTree C → C → Bool
  contains nil p = false
  contains (node coord axis less more) p =
      let in_less = contains less p in
      let in_more = contains more p in
      if coord == p
      then true
      else if ltb (space.array p axis) (space.array coord axis)
      then in_less
      else in_more

  unfoldable pub slice : CoordTree C → List C
  slice nil = []
  slice (node coord axis less more) = (slice less ++ coord ∷ []) ++ slice more

  -- `*res` and `*bound`
  abbrev pub Nearest : Type 0
  Nearest = C × Float

  unfoldable pub nearest_neighbor_step : CoordTree C → C → Nearest → Nearest
  nearest_neighbor_step nil p s = s
  nearest_neighbor_step (node coord axis less more) p (res, bound) =
      let in_less = λ (t : Nearest). nearest_neighbor_step less p t in
      let in_more = λ (t : Nearest). nearest_neighbor_step more p t in
      let dist = space.squared_dist p coord in
      let s1 : Nearest = if ltb dist bound then (coord, dist) else (res, bound) in
      let plane_dist = space.minus (space.array coord axis) (space.array p axis) in
      let s2 = if ltb float_zero plane_dist then in_less s1 else in_more s1 in
      let near = ltb (space.times plane_dist plane_dist) s2.1 in
      if ltb float_zero plane_dist && near
      then in_more s2
      else if leb plane_dist float_zero && near
      then in_less s2
      else s2

  unfoldable pub nearest_neighbor : CoordTree C → C → Option C
  nearest_neighbor nil p = none
  nearest_neighbor (node coord axis less more) p =
      some (nearest_neighbor_step (node coord axis less more) p (space.zero_coord, space.inf)).0

  unfoldable pub sphere_collision_squared : CoordTree C → C → Float → Bool
  sphere_collision_squared nil p r_squared = false
  sphere_collision_squared (node coord axis less more) p r_squared =
      let in_less = sphere_collision_squared less p r_squared in
      let in_more = sphere_collision_squared more p r_squared in
      let plane_dist = space.minus (space.array coord axis) (space.array p axis) in
      let near = leb (space.times plane_dist plane_dist) r_squared in
      if leb (space.squared_dist p coord) r_squared
      then true
      else if (if ltb float_zero plane_dist then in_less else in_more)
      then true
      else if ltb float_zero plane_dist && near
      then in_more
      else if leb plane_dist float_zero && near
      then in_less
      else false

  unfoldable pub sphere_collision : CoordTree C → C → Float → Bool
  sphere_collision t p r = sphere_collision_squared t p (space.times r r)

  unfoldable pub empty : CoordTree C → Bool
  empty nil = true
  empty (node coord axis less more) = false

  unfoldable pub leaf : CoordTree C → Bool
  leaf nil = true
  leaf (node coord axis less more) = empty less && empty more
