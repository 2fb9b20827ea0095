-- ===== src/Bvh/Scores.antt =====
-- model3d/bvh.go: the scores of areaDensityBVHSplit and its second loop.
use model3d.Base.{
  ℕ, zero, suc, ◌+◌, ◌-◌, ◌≤◌, ◌<◌, ◌≡◌, refl, sym, ap, ◌∙◌, ◌⊎◌, inl, inr, Bool, true, false, ◌||◌,
  Option, some, List, [], ◌∷◌, arith, ltb, nat_beq, if◌then◌else◌, nat_eq, Bool-cases, length,
  get_or, take, drop, ◌>>=◌,
}
use model3d.Coords.{Float}
use model3d.Bvh.{BoxSpace, FlaggedBounder, multiple_bounds_area, density_loop}

-- the corners of boxes can be joined in any order
pub record JoinLaws {C : Type 0} (join : C → C → C) : Type 0 where
  pub join-assoc : (a b c : C) → join (join a b) c ≡ join a (join b c)
  pub join-comm : (a b : C) → join a b ≡ join b a

-- the bounds of boxes, in any order, and `Min` and `Max` written out
pub record BoxLaws {C : Type 0} (space : BoxSpace C) : Type 0 where
  pub lower_laws : JoinLaws space.lower
  pub upper_laws : JoinLaws space.upper
  pub lower_inline_eq : (a b : C) → space.lower_inline a b ≡ space.lower a b
  pub upper_inline_eq : (a b : C) → space.upper_inline a b ≡ space.upper a b

pub if_true : {A : Type 0} {b : Bool} (x y : A) → b ≡ true → (if b then x else y) ≡ x
if_true x y e = rw e refl

pub if_false : {A : Type 0} {b : Bool} (x y : A) → b ≡ false → (if b then x else y) ≡ y
if_false x y e = rw e refl

module _ {C B : Type 0} (space : BoxSpace C) where
  -- the score of the split before the object at an index: the area of each side, weighted
  abbrev pub split_score : List (FlaggedBounder C B) → ℕ → Option Float
  split_score bs k = do
    below ← multiple_bounds_area space (take k bs)
    above ← multiple_bounds_area space (drop k bs)
    some (space.plus (space.times_count below (k - 1)) (space.times_count above (length bs - k)))

  -- the joined corners of some boxes
  abbrev pub join_all : (C → C → C) → (FlaggedBounder C B → C) → C → List (FlaggedBounder C B) → C
  join_all join corner a [] = a
  join_all join corner a (b ∷ bs) = join_all join corner (join a (corner b)) bs

  -- the area of a box that is joined with others
  abbrev pub joined_area : C → C → List (FlaggedBounder C B) → Float
  joined_area min max bs =
      space.bounds_area (join_all space.lower (λ b. b.min) min bs)
        (join_all space.upper (λ b. b.max) max bs)

  -- the score in the second loop, at its face at an index
  abbrev pub loop_score : ℕ → C → C → List (FlaggedBounder C B) → List Float → ℕ → Float
  loop_score i min max faces cache j =
      space.plus (space.times_count (joined_area min max (take (suc j) faces)) (i + j))
        (get_or cache j 0)

  -- what the second loop has when it ends
  abbrev pub IsBest : ℕ → C → C → List (FlaggedBounder C B) → List Float → ℕ → Float → Type 0
  IsBest i min max faces cache k score =
      (j : ℕ) × (suc j < length faces)
      × (k ≡ (i + j) + 1)
      × (score ≡ loop_score i min max faces cache j)

  abbrev pub IsBound : ℕ → C → C → List (FlaggedBounder C B) → List Float → Float → Type 0
  IsBound i min max faces cache score =
      (j : ℕ) → suc j < length faces → score ≤ loop_score i min max faces cache j

  -- the scores after the first face are those of the rest
  pub loop_score-suc :
      (i : ℕ) (min max : C) (t : FlaggedBounder C B) (faces : List (FlaggedBounder C B)) (c : Float)
      (cache : List Float) (j : ℕ)
      → loop_score i min max (t ∷ faces) (c ∷ cache) (suc j)
        ≡ loop_score (i + 1) (space.lower min t.min) (space.upper max t.max) faces cache j
  loop_score-suc i min max t faces c cache j =
      let e : i + suc j ≡ (i + 1) + j = omega arith in
      ap
        (λ n.
          space.plus (space.times_count (joined_area min max (take (suc (suc j)) (t ∷ faces))) n)
            (get_or cache j 0))
        e

  pub IsBound-cons :
      (i : ℕ) (min max : C) (t u : FlaggedBounder C B) (faces : List (FlaggedBounder C B))
      (c : Float) (cache : List Float) (score : Float) {now : Float}
      → now ≡ loop_score i min max (t ∷ u ∷ faces) (c ∷ cache) 0
      → score ≤ now
      → IsBound (i + 1) (space.lower min t.min) (space.upper max t.max) (u ∷ faces) cache score
      → IsBound i min max (t ∷ u ∷ faces) (c ∷ cache) score
  IsBound-cons i min max t u faces c cache score e below all zero less = omega (arith, e)
  IsBound-cons i min max t u faces c cache score e below all (suc j) less =
      omega (arith, all j (omega arith), loop_score-suc i min max t (u ∷ faces) c cache j)

  pub IsBest-cons :
      (i : ℕ) (min max : C) (t u : FlaggedBounder C B) (faces : List (FlaggedBounder C B))
      (c : Float) (cache : List Float) (k : ℕ) (score : Float)
      → IsBest (i + 1) (space.lower min t.min) (space.upper max t.max) (u ∷ faces) cache k score
      → IsBest i min max (t ∷ u ∷ faces) (c ∷ cache) k score
  IsBest-cons i min max t u faces c cache k score (j, less, at_j, e) = (
    suc j,
    omega arith,
    omega (arith, at_j),
    e ∙ sym (loop_score-suc i min max t (u ∷ faces) c cache j),
  )

  pub density_loop-kept :
      (i : ℕ) (min max : C) (best_index : ℕ) (best_score : Float)
      (faces : List (FlaggedBounder C B)) (cache : List Float)
      → 2 ≤ i
      → length faces ≤ length cache + 1
      → (k : ℕ) × (score : Float) × (density_loop space i min max best_index best_score faces cache
          ≡ (k, score))
        × (score ≤ best_score)
        × IsBound i min max faces cache score
        × (((k ≡ best_index) × (score ≡ best_score)) ⊎ IsBest i min max faces cache k score)
  unfolding density_loop
  density_loop-kept i min max best_index best_score [] cache h n =
      (best_index, best_score, refl, omega arith, λ j less. absurd (omega arith), inl (refl, refl))
  density_loop-kept i min max best_index best_score (t ∷ []) cache h n =
      (best_index, best_score, refl, omega arith, λ j less. absurd (omega arith), inl (refl, refl))
  density_loop-kept i min max best_index best_score (t ∷ u ∷ faces) [] h n = absurd (omega arith)
  density_loop-kept i min max best_index best_score (t ∷ u ∷ faces) (c ∷ cache) h n =
      let min1 = space.lower min t.min in
      let max1 = space.upper max t.max in
      let now = space.plus (space.times_count (space.bounds_area min1 max1) i) c in
      let better = ltb now best_score || nat_beq i 1 in
      let from_start : i ≡ i + 0 = omega arith in
      let now_eq : now ≡ loop_score i min max (t ∷ u ∷ faces) (c ∷ cache) 0 =
        ap (λ n. space.plus (space.times_count (space.bounds_area min1 max1) n) c) from_start in
      let (k, score, e, low, all, where_it_is) =
        density_loop-kept (i + 1) min1 max1 (if better then i + 1 else best_index)
          (if better then now else best_score) (u ∷ faces) cache (omega arith) (omega arith) in
      (
        k,
        score,
        e,
        ground (arith, low),
        IsBound-cons i min max t u faces c cache score now_eq (ground (arith, low)) all,
        elim where_it_is [
          | inl (same, same_score) ↦ elim (Bool-cases better) [
            | inl below ↦ inr (
              0,
              omega arith,
              same ∙ if_true (i + 1) best_index below ∙ ap (λ n. n + 1) from_start,
              same_score ∙ if_true now best_score below ∙ now_eq,
            )
            | inr above ↦ inl (
              same ∙ if_false (i + 1) best_index above,
              same_score ∙ if_false now best_score above,
            )
          ]
          | inr best ↦ inr (IsBest-cons i min max t u faces c cache k score best)
        ],
      )

  -- the first pass always takes its score
  pub density_loop-first :
      (min max : C) (best_score : Float) (t u : FlaggedBounder C B)
      (faces : List (FlaggedBounder C B)) (c : Float) (cache : List Float)
      → length faces ≤ length cache
      → (k : ℕ) × (score : Float) × (density_loop space 1 min max 0 best_score
            (t ∷ u ∷ faces)
            (c ∷ cache)
          ≡ (k, score))
        × IsBound 1 min max (t ∷ u ∷ faces) (c ∷ cache) score
        × IsBest 1 min max (t ∷ u ∷ faces) (c ∷ cache) k score
  unfolding density_loop
  density_loop-first min max best_score t u faces c cache n =
      let min1 = space.lower min t.min in
      let max1 = space.upper max t.max in
      let now = space.plus (space.times_count (space.bounds_area min1 max1) 1) c in
      let better = ltb now best_score || nat_beq 1 1 in
      let first : better ≡ true = ground arith in
      let score_eq : (if better then now else best_score) ≡ now = if_true now best_score first in
      let (k, score, e, low, all, where_it_is) =
        density_loop-kept 2 min1 max1 (if better then 2 else 0) (if better then now else best_score)
          (u ∷ faces) cache (omega arith) (omega arith) in
      (
        k,
        score,
        e,
        IsBound-cons 1 min max t u faces c cache score refl (omega (arith, low, score_eq)) all,
        elim where_it_is [
          | inl (same, same_score) ↦
              (0, omega arith, same ∙ if_true 2 0 first, same_score ∙ score_eq)
          | inr best ↦ IsBest-cons 1 min max t u faces c cache k score best
        ],
      )

  pub join_all-swap :
      (join : C → C → C)
      → JoinLaws join
      → (corner : FlaggedBounder C B → C) (a b : C) (bs : List (FlaggedBounder C B))
      → join_all join corner (join a b) bs ≡ join (join_all join corner b bs) a
  join_all-swap join laws corner a b [] = laws.join-comm a b
  join_all-swap join laws corner a b (c ∷ bs) =
      ap (λ t. join_all join corner t bs) (laws.join-assoc a b (corner c))
      ∙ join_all-swap join laws corner a (join b (corner c)) bs
