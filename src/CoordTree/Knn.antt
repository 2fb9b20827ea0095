-- ===== src/CoordTree/Knn.antt =====
-- model3d/coord_tree.go, model2d/coord_tree.go: KNN and knnResults.
pub mod Slots
pub mod Answers
pub mod Whole
use model3d.Base.{
  ℕ, zero, suc, ◌+◌, ◌-◌, ◌*◌, ◌/◌, ◌%◌, ◌^◌, ◌≤◌, ◌<◌, ◌≡◌, refl, sym, ap, ◌∙◌, ◌≢◌, ◌↔◌, ◌⊎◌, inl,
  inr, Bool, true, false, not, ◌&&◌, ◌||◌, Option, none, some, List, [], ◌∷◌, ◌++◌, map, arith, ltb,
  leb, nat_beq, if◌then◌else◌, Eq, ◌==◌, Zero, nat_beq_iff, nat_eq, Bool-cases, Option-cases,
  ==_refl, is_some, length, get_elem?, get_or, get_elem?-append_left, get_elem?-append_right, set,
  replicate, take, drop, length-append, length-set, length-replicate, to_nat, count, count-append,
  or_else, or_else-none, ◌>>=◌, all_below, all_of, all_below_sound, all_of_sound,
}
use model3d.Coords.{Float, float_zero}
use model3d.RectSet.{search_floats}
use model3d.CoordTree.{Space, CoordTree, nil, node}

pub record KnnResults (C : Type 0) : Type 0 where
  pub max : ℕ
  pub coords : List C
  pub dists : List Float

-- `copy(s[i+1:], s[i:])`: the entries behind `i` move up by one, and the last one is lost
unfoldable pub move_up : {A : Type 0} → A → List A → List A
move_up x [] = []
move_up x (y ∷ ys) = x ∷ move_up y ys

unfoldable pub copy_up : {A : Type 0} → List A → ℕ → List A
copy_up [] i = []
copy_up (x ∷ xs) zero = x ∷ move_up x xs
copy_up (x ∷ xs) (suc i) = x ∷ copy_up xs i

module _ {C : Type 0} ⦃e : Eq C⦄ (space : Space C) where
  -- `MaxDist`; the index is in range for a positive `Max`
  unfoldable pub max_dist : KnnResults C → Float
  max_dist s =
      if ltb (length s.dists) s.max then space.inf else get_or s.dists (s.max - 1) space.inf

  unfoldable pub insert : C → Float → KnnResults C → KnnResults C
  insert c d s =
      let index = search_floats s.dists d in
      let more = ltb (length s.dists) s.max in
      let dists = if more then s.dists ++ float_zero ∷ [] else s.dists in
      let coords = if more then s.coords ++ space.zero_coord ∷ [] else s.coords in
      if leb (max_dist s) d then s else record s {
        dists = set (copy_up dists index) index d;
        coords = set (copy_up coords index) index c;
      }

  unfoldable pub knn_step : CoordTree C → C → KnnResults C → KnnResults C
  knn_step nil p s = s
  knn_step (node coord axis less more) p s =
      let in_less = λ (t : KnnResults C). knn_step less p t in
      let in_more = λ (t : KnnResults C). knn_step more p t in
      let s1 = insert coord (space.squared_dist p coord) s in
      let plane_dist = space.minus (space.array coord axis) (space.array p axis) in
      let s2 = if ltb float_zero plane_dist then in_less s1 else in_more s1 in
      let near = ltb (space.times plane_dist plane_dist) (max_dist s2) in
      if ltb float_zero plane_dist && near
      then in_more s2
      else if leb plane_dist float_zero && near
      then in_less s2
      else s2

  unfoldable pub knn : CoordTree C → ℕ → C → List C
  knn t k p =
      if nat_beq k 0
      then []
      else (knn_step t p (record { max = k; coords = []; dists = [] })).coords
