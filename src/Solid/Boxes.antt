-- ===== src/Solid/Boxes.antt =====
-- model3d/solid.go, model3d/bounder.go: boxes that are joined, and the points in them.
use model3d.Base.{◌≡◌, refl, sym, ap, ◌∙◌, true, none, some, List, [], ◌∷◌, ◌++◌, arith, Eq, nat_eq}
use model3d.Bvh.Scores.{JoinLaws}
use model3d.Solid.{
  SolidSpace, Solid, in_bounds, joined_min_loop, joined_max_loop, joined_min, joined_max,
}

-- `Min` and `Max` are those of a distributive lattice
pub record LatticeLaws {C : Type 0} (space : SolidSpace C) : Type 0 where
  pub lower_laws : JoinLaws space.boxes.lower
  pub upper_laws : JoinLaws space.boxes.upper
  pub lower-upper :
      (c a b : C)
      → space.boxes.lower c (space.boxes.upper a b)
        ≡ space.boxes.upper (space.boxes.lower c a) (space.boxes.lower c b)
  pub upper-lower :
      (c a b : C)
      → space.boxes.upper c (space.boxes.lower a b)
        ≡ space.boxes.lower (space.boxes.upper c a) (space.boxes.upper c b)

pub some_eq : {A : Type 0} {a b : A} → some a ≡ some b → a ≡ b
some_eq {a = a} h = ap (λ o. elim o [ some x ↦ x | none ↦ a ]) h

module _ {C : Type 0} ⦃e : Eq C⦄ (space : SolidSpace C) (laws : LatticeLaws space) where
  -- a point is no lower than a corner, or no higher
  abbrev pub IsAbove : C → C → Type 0
  IsAbove c a = space.boxes.lower c a ≡ a

  abbrev pub IsBelow : C → C → Type 0
  IsBelow c a = space.boxes.upper c a ≡ a

  pub in_bounds-corners :
      (min max c : C) → in_bounds space min max c ≡ true → IsAbove c min × IsBelow c max
  unfolding in_bounds
  in_bounds-corners min max c h = (
    (e.beq_iff (space.boxes.lower c min) min).0 (ground (arith, h)),
    (e.beq_iff (space.boxes.upper c max) max).0 (ground (arith, h)),
  )

  pub corners-in_bounds :
      (min max c : C) → IsAbove c min → IsBelow c max → in_bounds space min max c ≡ true
  unfolding in_bounds
  corners-in_bounds min max c low high = ground (
    arith,
    (e.beq_iff (space.boxes.lower c min) min).1 low,
    (e.beq_iff (space.boxes.upper c max) max).1 high,
  )

  pub IsAbove-left : (c a b : C) → IsAbove c a → IsAbove c (space.boxes.lower a b)
  IsAbove-left c a b h = sym (laws.lower_laws.join-assoc c a b) ∙ ap (λ t. space.boxes.lower t b) h

  pub IsAbove-right : (c a b : C) → IsAbove c b → IsAbove c (space.boxes.lower a b)
  IsAbove-right c a b h = rw (laws.lower_laws.join-comm a b) (IsAbove-left c b a h)

  pub IsBelow-left : (c a b : C) → IsBelow c a → IsBelow c (space.boxes.upper a b)
  IsBelow-left c a b h = sym (laws.upper_laws.join-assoc c a b) ∙ ap (λ t. space.boxes.upper t b) h

  pub IsBelow-right : (c a b : C) → IsBelow c b → IsBelow c (space.boxes.upper a b)
  IsBelow-right c a b h = rw (laws.upper_laws.join-comm a b) (IsBelow-left c b a h)

  pub IsAbove-both : (c a b : C) → IsAbove c a → IsAbove c b → IsAbove c (space.boxes.upper a b)
  IsAbove-both c a b h k = laws.lower-upper c a b ∙ rw (h, k) refl

  pub IsBelow-both : (c a b : C) → IsBelow c a → IsBelow c b → IsBelow c (space.boxes.lower a b)
  IsBelow-both c a b h k = laws.upper-lower c a b ∙ rw (h, k) refl

  -- a box inside a box that is joined with others
  pub IsAbove-joined :
      (c a : C) (ss : List (Solid C)) → IsAbove c a → IsAbove c (joined_min_loop space a ss)
  unfolding joined_min_loop
  IsAbove-joined c a [] h = h
  IsAbove-joined c a (s ∷ ss) h =
      IsAbove-joined c (space.boxes.lower a s.min) ss (IsAbove-left c a s.min h)

  pub IsBelow-joined :
      (c a : C) (ss : List (Solid C)) → IsBelow c a → IsBelow c (joined_max_loop space a ss)
  unfolding joined_max_loop
  IsBelow-joined c a [] h = h
  IsBelow-joined c a (s ∷ ss) h =
      IsBelow-joined c (space.boxes.upper a s.max) ss (IsBelow-left c a s.max h)

  -- the corners of two lists together
  pub joined_min_loop-join :
      (a b : C) (ss : List (Solid C))
      → joined_min_loop space (space.boxes.lower a b) ss
        ≡ space.boxes.lower a (joined_min_loop space b ss)
  unfolding joined_min_loop
  joined_min_loop-join a b [] = refl
  joined_min_loop-join a b (s ∷ ss) =
      ap (λ t. joined_min_loop space t ss) (laws.lower_laws.join-assoc a b s.min)
      ∙ joined_min_loop-join a (space.boxes.lower b s.min) ss

  pub joined_max_loop-join :
      (a b : C) (ss : List (Solid C))
      → joined_max_loop space (space.boxes.upper a b) ss
        ≡ space.boxes.upper a (joined_max_loop space b ss)
  unfolding joined_max_loop
  joined_max_loop-join a b [] = refl
  joined_max_loop-join a b (s ∷ ss) =
      ap (λ t. joined_max_loop space t ss) (laws.upper_laws.join-assoc a b s.max)
      ∙ joined_max_loop-join a (space.boxes.upper b s.max) ss

  joined_min_loop-append :
      (a : C) (ss ts : List (Solid C))
      → joined_min_loop space a (ss ++ ts) ≡ joined_min_loop space (joined_min_loop space a ss) ts
  unfolding joined_min_loop
  joined_min_loop-append a [] ts = refl
  joined_min_loop-append a (s ∷ ss) ts = joined_min_loop-append (space.boxes.lower a s.min) ss ts

  joined_max_loop-append :
      (a : C) (ss ts : List (Solid C))
      → joined_max_loop space a (ss ++ ts) ≡ joined_max_loop space (joined_max_loop space a ss) ts
  unfolding joined_max_loop
  joined_max_loop-append a [] ts = refl
  joined_max_loop-append a (s ∷ ss) ts = joined_max_loop-append (space.boxes.upper a s.max) ss ts

  pub joined_min-append :
      (ss ts : List (Solid C)) (a b : C)
      → joined_min space ss ≡ some a
      → joined_min space ts ≡ some b
      → joined_min space (ss ++ ts) ≡ some (space.boxes.lower a b)
  unfolding joined_min joined_min_loop
  joined_min-append [] ts a b h k = absurd (ground (arith, h))
  joined_min-append (s ∷ ss) [] a b h k = absurd (ground (arith, k))
  joined_min-append (s ∷ ss) (t ∷ ts) a b h k = ap some (
      joined_min_loop-append s.min ss (t ∷ ts)
      ∙ joined_min_loop-join (joined_min_loop space s.min ss) t.min ts
      ∙ rw (some_eq h, some_eq k) refl)

  pub joined_max-append :
      (ss ts : List (Solid C)) (a b : C)
      → joined_max space ss ≡ some a
      → joined_max space ts ≡ some b
      → joined_max space (ss ++ ts) ≡ some (space.boxes.upper a b)
  unfolding joined_max joined_max_loop
  joined_max-append [] ts a b h k = absurd (ground (arith, h))
  joined_max-append (s ∷ ss) [] a b h k = absurd (ground (arith, k))
  joined_max-append (s ∷ ss) (t ∷ ts) a b h k = ap some (
      joined_max_loop-append s.max ss (t ∷ ts)
      ∙ joined_max_loop-join (joined_max_loop space s.max ss) t.max ts
      ∙ rw (some_eq h, some_eq k) refl)
