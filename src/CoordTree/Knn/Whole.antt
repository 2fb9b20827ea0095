-- ===== src/CoordTree/Knn/Whole.antt =====
-- model3d/coord_tree.go: KNN in a tree, and together with NewCoordTree.
use mathlib.Core.Path.{subst}
use model3d.Base.{
  ℕ, ◌+◌, ◌-◌, ◌≤◌, ◌<◌, ◌≡◌, refl, sym, ap, ◌∙◌, inl, inr, true, false, some, List, [], ◌∷◌, ◌++◌,
  map, arith, ltb, leb, nat_beq, Eq, nat_eq, Bool-cases, length, get_or, count, count-append,
}
use model3d.Coords.{Float, float_zero}
use model3d.CoordTree.{Space, CoordTree, nil, node, slice, Sorter, new_coord_tree}
use model3d.CoordTree.Build.{IsIn}
use model3d.CoordTree.Contents.{IsOrdered, Reorders, new_coord_tree-Holds}
use model3d.CoordTree.Search.{IsMetric}
use model3d.CoordTree.Knn.{KnnResults, max_dist, insert, knn_step, knn}
use model3d.CoordTree.Knn.Slots.{IsAscending, last_or, get_or-last, last_or-ge, length-map}
use model3d.CoordTree.Knn.Answers.{Keeps, IsIn-map, insert-Keeps, Keeps-reorder, Keeps-far}

module _ {C : Type 0} ⦃e : Eq C⦄ (space : Space C) (p : C) where
  knn_step-Keeps :
      (metric : IsMetric space) (t : CoordTree C) (k : ℕ) (xs : List C) (s : KnnResults C)
      → 0 < k
      → IsOrdered space t
      → Keeps space p k xs s
      → Keeps space p k (slice space t ++ xs) (knn_step space t p s)
  unfolding knn_step slice
  knn_step-Keeps metric nil k xs s pos o h = h
  knn_step-Keeps metric (node coord axis less more) k xs s pos o h =
      let v = space.array coord axis in
      let d = space.minus v (space.array p axis) in
      let plane = space.times d d in
      let s1 = insert space coord (space.squared_dist p coord) s in
      let h1 = insert-Keeps space p k xs coord s pos h in
      let low = slice space less in
      let high = slice space more in
      elim (Bool-cases (ltb float_zero d)) [
        | inl ahead ↦
            let not_behind : leb d float_zero ≡ false = ground (arith, ahead) in
            let side : space.array p axis < v =
              ground (arith, metric.sign v (space.array p axis), ahead) in
            let s2 = knn_step space less p s1 in
            let h2 = knn_step-Keeps metric less k (coord ∷ xs) s1 pos o.2 h1 in
            let h3 = knn_step-Keeps metric more k (low ++ coord ∷ xs) s2 pos o.3 h2 in
            rw (ahead, not_behind)
              (Keeps-reorder space p k (high ++ (low ++ coord ∷ xs)) _ _
                (λ q. ahead_counts q low high)
                (Keeps-far space p k (low ++ coord ∷ xs) high s2 _ plane
                  (λ q here. metric.beyond_above p q axis v side (o.1 q here)) h2 h3))
        | inr behind ↦
            let not_ahead : leb d float_zero ≡ true = ground (arith, behind) in
            let side : v ≤ space.array p axis =
              ground (arith, metric.sign v (space.array p axis), behind) in
            let s2 = knn_step space more p s1 in
            let h2 = knn_step-Keeps metric more k (coord ∷ xs) s1 pos o.3 h1 in
            let h3 = knn_step-Keeps metric less k (high ++ coord ∷ xs) s2 pos o.2 h2 in
            rw (behind, not_ahead)
              (Keeps-reorder space p k (low ++ (high ++ coord ∷ xs)) _ _
                (λ q. behind_counts q low high)
                (Keeps-far space p k (high ++ coord ∷ xs) low s2 _ plane
                  (λ q here. metric.beyond_below p q axis v side (o.0 q here)) h2 h3))
      ]
    where
      all :
          (q : C) (low high : List C)
          → count q (((low ++ coord ∷ []) ++ high) ++ xs)
            ≡ (count q low + count q (coord ∷ [])) + (count q high + count q xs)
      all q low high = omega (
        arith,
        count-append q ((low ++ coord ∷ []) ++ high) xs,
        count-append q (low ++ coord ∷ []) high,
        count-append q low (coord ∷ []),
      )

      ahead_counts :
          (q : C) (low high : List C)
          → count q (((low ++ coord ∷ []) ++ high) ++ xs) ≡ count q (high ++ (low ++ coord ∷ xs))
      ahead_counts q low high = omega (
        arith,
        all q low high,
        count-append q high (low ++ coord ∷ xs),
        count-append q low (coord ∷ xs),
      )

      behind_counts :
          (q : C) (low high : List C)
          → count q (((low ++ coord ∷ []) ++ high) ++ xs) ≡ count q (low ++ (high ++ coord ∷ xs))
      behind_counts q low high = omega (
        arith,
        all q low high,
        count-append q low (high ++ coord ∷ xs),
        count-append q high (coord ∷ xs),
      )

  -- the results lie below the bound for new ones
  result-le :
      (k : ℕ) (xs : List C) (s : KnnResults C) (d : Float)
      → Keeps space p k xs s
      → IsIn d s.dists
      → d ≤ max_dist space s
  unfolding max_dist
  result-le k xs s d h there = elim (Bool-cases (ltb (length s.dists) s.max)) [
    | inl free ↦ rw free (omega (arith, h.finite d there))
    | inr taken ↦ rw taken (
        let at_end : get_or s.dists (s.max - 1) space.inf ≡ last_or space.inf s.dists =
          ap (λ n. get_or s.dists (n - 1) space.inf) (same_length taken h.limit h.few)
          ∙ get_or-last space.inf s.dists in
        omega (arith, at_end, last_or-ge space.inf s.dists d h.ascending there))
  ]
    where
      same_length : {m n : ℕ} → ltb n m ≡ false → m ≡ k → n ≤ k → m ≡ n
      same_length a b c = ground (arith, a, b, c)

  full_or_far :
      (k : ℕ) (xs : List C) (s : KnnResults C) (q : C)
      → Keeps space p k xs s
      → max_dist space s ≤ space.squared_dist p q
      → space.squared_dist p q < space.inf
      → length s.dists ≡ k
  unfolding max_dist
  full_or_far k xs s q h far near = ground (arith, far, near, h.limit, h.few)

  -- the given number of points, in the order of their distances, with the other points, none of which is
  -- nearer; points at +Inf are left out
  pub record IsNearest (k : ℕ) (points found : List C) : Type 0 where
    pub rest : List C
    pub parts : (q : C) → count q found + count q rest ≡ count q points
    pub few : length found ≤ k
    pub ascending : IsAscending (map (space.squared_dist p) found)
    pub farther :
        (q r : C) → IsIn q rest → IsIn r found → space.squared_dist p r ≤ space.squared_dist p q
    pub full : (q : C) → IsIn q rest → space.squared_dist p q < space.inf → length found ≡ k

  Keeps-IsNearest :
      (k : ℕ) (points : List C) (s : KnnResults C)
      → Keeps space p k points s
      → IsNearest k points s.coords
  Keeps-IsNearest k points s h =
      let as_long : length s.dists ≡ length s.coords =
        ap length h.keyed ∙ length-map (space.squared_dist p) s.coords in
      record {
        rest = h.others;
        parts = h.parts;
        few = omega (arith, h.few, as_long);
        ascending = subst IsAscending h.keyed h.ascending;
        farther = λ q r there here. omega (
          arith,
          h.far q there,
          result-le k points s (space.squared_dist p r) h (
              subst (IsIn (space.squared_dist p r)) (sym h.keyed)
                (IsIn-map space p r s.coords here)),
        );
        full = λ q there near. sym as_long ∙ full_or_far k points s q h (h.far q there) near;
      }

  pub knn-IsNearest :
      (metric : IsMetric space) (t : CoordTree C) (k : ℕ) (points : List C)
      → IsOrdered space t
      → ((q : C) → count q (slice space t) ≡ count q points)
      → IsNearest k points (knn space t k p)
  unfolding knn
  knn-IsNearest metric t k points o counts = elim (Bool-cases (nat_beq k 0)) [
    | inl zero_k ↦ rw zero_k (record {
      rest = points;
      parts = λ q. omega arith;
      few = omega arith;
      ascending = tt;
      farther = λ q r there here. absurd (omega (arith, here));
      full = λ q there near. ground (arith, zero_k);
    })
    | inr some_k ↦ rw some_k (
        Keeps-IsNearest k points _ (
          Keeps-reorder space p k (slice space t ++ []) points _
            (λ q. omega (arith, counts q, count-append q (slice space t) []))
            (knn_step-Keeps metric t k [] _ (ground (arith, some_k)) o (start k))))
  ]
    where
      start : (k : ℕ) → Keeps space p k [] (record { max = k; coords = []; dists = [] })
      start k = record {
        limit = refl;
        keyed = refl;
        ascending = tt;
        few = omega arith;
        finite = λ d h. absurd (omega (arith, h));
        others = [];
        parts = λ q. omega arith;
        far = λ q h. absurd (omega (arith, h));
      }

module _ {C : Type 0} ⦃e : Eq C⦄ (space : Space C) where
  -- In the tree that NewCoordTree makes of any points with a sort that reorders its list, KNN
  -- returns at most k of the points, by ascending distance, and no other point is nearer than one
  -- of them; it returns k if another point has a distance below +Inf. The differences keep their
  -- sign, and a point behind a plane is no nearer than the plane.
  pub new_coord_tree-knn :
      (sort : Sorter space) (points : List C) (p : C) (k : ℕ)
      → Reorders space sort
      → IsMetric space
      → (t : CoordTree C) × (new_coord_tree space sort points ≡ some t)
        × IsNearest space p k points (knn space t k p)
  new_coord_tree-knn sort points p k r metric =
      let (t, built, h) = new_coord_tree-Holds space sort points r in
      (t, built, knn-IsNearest space p metric t k points h.ordered h.counts)
