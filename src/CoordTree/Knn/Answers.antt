-- ===== src/CoordTree/Knn/Answers.antt =====
-- model3d/coord_tree.go: the results that Insert keeps.
use mathlib.Core.Path.{subst}
use model3d.Base.{
  ℕ, ◌+◌, ◌-◌, ◌≤◌, ◌<◌, ◌≡◌, refl, sym, ap, ◌∙◌, ◌⊎◌, inl, inr, false, List, [], ◌∷◌, ◌++◌, map,
  arith, ltb, leb, if◌then◌else◌, Eq, ◌==◌, nat_eq, Bool-cases, length, get_or, count, count-append,
}
use model3d.Coords.{Float, float_zero}
use model3d.RectSet.{search_floats}
use model3d.CoordTree.{Space}
use model3d.CoordTree.Build.{IsIn}
use model3d.CoordTree.Knn.{KnnResults, max_dist, insert}
use model3d.CoordTree.Knn.Slots.{
  put_at, init, last_or, set-copy_up, set-copy_up_full, length-put_at, length-init, last_or-put_at,
  last_or-any, get_or-last, map-put_at, map-init, map-last_or, length-map, count-put_at, count-init,
  last_or-IsIn, IsAscending, last_or-ge, put-IsAscending, init-IsAscending, search_floats-le,
  search_floats-within,
}

module _ {C : Type 0} ⦃e : Eq C⦄ (space : Space C) (p : C) where
  abbrev pub dist_of : C → Float
  dist_of = space.squared_dist p

  -- the nearest of some points, with the other ones
  pub record Keeps (k : ℕ) (xs : List C) (s : KnnResults C) : Type 0 where
    pub limit : s.max ≡ k
    pub keyed : s.dists ≡ map dist_of s.coords
    pub ascending : IsAscending s.dists
    pub few : length s.dists ≤ k
    pub finite : (d : Float) → IsIn d s.dists → d < space.inf
    pub others : List C
    pub parts : (q : C) → count q s.coords + count q others ≡ count q xs
    pub far : (q : C) → IsIn q others → max_dist space s ≤ dist_of q

  pub IsIn-map : (q : C) (cs : List C) → IsIn q cs → IsIn (dist_of q) (map dist_of cs)
  IsIn-map q [] h = absurd (omega (arith, h))
  IsIn-map q (c ∷ cs) h = elim (Bool-cases (c == q)) [
    | inl same ↦ ground (arith, ap dist_of ((e.beq_iff c q).0 same))
    | inr other ↦ omega (arith, IsIn-map q cs (omega (arith, rw other at h)))
  ]

  max_dist-free :
      (k : ℕ) (cs : List C) (ds : List Float)
      → length ds < k
      → max_dist space (record { max = k; coords = cs; dists = ds }) ≡ space.inf
  unfolding max_dist
  max_dist-free k cs ds h = ground arith

  max_dist-full :
      (k : ℕ) (cs : List C) (ds : List Float)
      → length ds ≡ k
      → max_dist space (record { max = k; coords = cs; dists = ds }) ≡ last_or space.inf ds
  unfolding max_dist
  max_dist-full k cs ds h =
      let closed : ltb (length ds) k ≡ false = ground arith in
      rw closed (ap (λ n. get_or ds (n - 1) space.inf) (sym h) ∙ get_or-last space.inf ds)

  -- all results are below any bound that is above all distances
  max_dist-le :
      (k : ℕ) (cs : List C) (ds : List Float) (w : Float)
      → 0 < k
      → length ds ≤ k
      → ((d : Float) → IsIn d ds → d ≤ w)
      → space.inf ≤ w ⊎ (length ds ≡ k)
      → max_dist space (record { max = k; coords = cs; dists = ds }) ≤ w
  max_dist-le k cs ds w pos few below how = elim (Bool-cases (ltb (length ds) k)) [
    | inl room ↦ ground (arith, max_dist-free k cs ds (ground arith), how)
    | inr closed ↦
        let full : length ds ≡ k = ground (arith, few) in
        omega (
          arith,
          max_dist-full k cs ds full,
          below (last_or space.inf ds) (last_or-IsIn space.inf ds (omega arith)),
        )
  ]

  Keeps-add :
      (k : ℕ) (xs : List C) (c : C) (s : KnnResults C)
      → Keeps k xs s
      → max_dist space s ≤ dist_of c
      → Keeps k (c ∷ xs) s
  Keeps-add k xs c s h le = record {
    limit = h.limit;
    keyed = h.keyed;
    ascending = h.ascending;
    few = h.few;
    finite = h.finite;
    others = c ∷ h.others;
    parts = λ q. omega (arith, h.parts q);
    far = λ q here. elim (Bool-cases (c == q)) [
      | inl same ↦ subst (λ (t : C). max_dist space s ≤ dist_of t) ((e.beq_iff c q).0 same) le
      | inr other ↦ h.far q (omega (arith, rw other at here))
    ];
  }

  -- a free slot
  insert_free :
      (k : ℕ) (xs : List C) (c : C) (cs : List C) (ds : List Float)
      → 0 < k
      → Keeps k xs (record { max = k; coords = cs; dists = ds })
      → length ds < k
      → dist_of c < space.inf
      → let i = search_floats ds (dist_of c) in
        Keeps k
          (c ∷ xs)
          (record { max = k; coords = put_at cs i c; dists = put_at ds i (dist_of c) })
  insert_free k xs c cs ds pos h free near =
      let i = search_floats ds (dist_of c) in
      let len = length-put_at ds i (dist_of c) in
      record {
        limit = refl;
        keyed = ap (λ t. put_at t i (dist_of c)) h.keyed ∙ sym (map-put_at dist_of cs i c);
        ascending = put-IsAscending ds (dist_of c) h.ascending;
        few = omega (arith, len, free);
        finite = λ d here. ground (arith, count-put_at d (dist_of c) ds i, here, h.finite d, near);
        others = h.others;
        parts = λ q. omega (arith, h.parts q, count-put_at q c cs i);
        far = λ q here.
            max_dist-le k (put_at cs i c) (put_at ds i (dist_of c)) (dist_of q) pos
              (omega (arith, len, free))
              (λ d there. ground (
                arith,
                count-put_at d (dist_of c) ds i,
                there,
                h.finite d,
                near,
                h.far q here,
                max_dist-free k cs ds free,
              ))
              (inl (omega (arith, h.far q here, max_dist-free k cs ds free)));
      }

  -- no free slot: the last result makes room
  insert_full :
      (k : ℕ) (xs : List C) (c : C) (cs : List C) (ds : List Float)
      → 0 < k
      → Keeps k xs (record { max = k; coords = cs; dists = ds })
      → length ds ≡ k
      → dist_of c < last_or space.inf ds
      → let i = search_floats ds (dist_of c) in
        Keeps k (c ∷ xs) (record {
          max = k;
          coords = init (put_at cs i c);
          dists = init (put_at ds i (dist_of c));
        })
  insert_full k xs c cs ds pos h full near =
      let i = search_floats ds (dist_of c) in
      let put = put_at ds i (dist_of c) in
      let len = length-put_at ds i (dist_of c) in
      let within =
        search_floats-within ds (dist_of c) (last_or space.inf ds)
          (last_or-IsIn space.inf ds (omega (arith, full, pos))) (omega (arith, near)) in
      let room : length (init put) ≡ k = omega (arith, length-init put, len, full) in
      let old : (d : Float) → IsIn d ds → d ≤ last_or space.inf ds =
        λ d. last_or-ge space.inf ds d h.ascending in
      let member : (d : Float) → IsIn d (init put) → d ≤ last_or space.inf ds = λ d there. ground (
        arith,
        count-init d space.inf put (omega (arith, len)),
        count-put_at d (dist_of c) ds i,
        there,
        old d,
        near,
      ) in
      let z = last_or c (put_at cs i c) in
      let dropped : dist_of z ≡ last_or space.inf ds =
        sym (map-last_or dist_of c (put_at cs i c))
        ∙ ap (last_or (dist_of c))
            (map-put_at dist_of cs i c ∙ ap (λ t. put_at t i (dist_of c)) (sym h.keyed))
        ∙ last_or-put_at (dist_of c) (dist_of c) ds i within
        ∙ last_or-any (dist_of c) space.inf ds (omega (arith, full, pos)) in
      record {
        limit = refl;
        keyed =
            ap init (ap (λ t. put_at t i (dist_of c)) h.keyed ∙ sym (map-put_at dist_of cs i c))
            ∙ sym (map-init dist_of (put_at cs i c));
        ascending = init-IsAscending put (put-IsAscending ds (dist_of c) h.ascending);
        few = omega (arith, room);
        finite = λ d there. omega (
          arith,
          member d there,
          h.finite (last_or space.inf ds) (last_or-IsIn space.inf ds (omega (arith, full, pos))),
        );
        others = z ∷ h.others;
        parts = λ q. omega (
          arith,
          h.parts q,
          count-put_at q c cs i,
          count-init q c (put_at cs i c) (omega (arith, length-put_at cs i c)),
        );
        far = λ q here.
            let beyond : last_or space.inf ds ≤ dist_of q = elim (Bool-cases (z == q)) [
              | inl same ↦ omega (arith, dropped, ap dist_of ((e.beq_iff z q).0 same))
              | inr other ↦
                  omega
                    (arith, h.far q (omega (arith, rw other at here)), max_dist-full k cs ds full)
            ] in
            max_dist-le k (init (put_at cs i c)) (init put) (dist_of q) pos (omega (arith, room))
              (λ d there. omega (arith, member d there, beyond)) (inr room);
      }

  insert_at-Keeps :
      (k : ℕ) (xs : List C) (c : C) (cs : List C) (ds : List Float)
      → 0 < k
      → Keeps k xs (record { max = k; coords = cs; dists = ds })
      → Keeps k (c ∷ xs) (insert space c (dist_of c) (record { max = k; coords = cs; dists = ds }))
  unfolding insert
  insert_at-Keeps k xs c cs ds pos h =
      let s : KnnResults C = record { max = k; coords = cs; dists = ds } in
      let i = search_floats ds (dist_of c) in
      let as_long : length ds ≡ length cs = ap length h.keyed ∙ length-map dist_of cs in
      let reach = search_floats-le ds (dist_of c) in
      elim (Bool-cases (leb (max_dist space s) (dist_of c))) [
        | inl too_far ↦ rw too_far (Keeps-add k xs c s h (ground (arith, too_far)))
        | inr near ↦ elim (Bool-cases (ltb (length ds) k)) [
          | inl free ↦
              let low : dist_of c < space.inf =
                ground (arith, near, max_dist-free k cs ds (ground (arith, free))) in
              rw
                (
                  near,
                  free,
                  set-copy_up ds i (dist_of c) float_zero reach,
                  set-copy_up cs i c space.zero_coord (omega (arith, reach, as_long)),
                )
                (insert_free k xs c cs ds pos h (ground (arith, free)) low)
          | inr taken ↦
              let full : length ds ≡ k = ground (arith, taken, h.few) in
              let low : dist_of c < last_or space.inf ds =
                ground (arith, near, max_dist-full k cs ds full) in
              let within =
                search_floats-within ds (dist_of c) (last_or space.inf ds)
                  (last_or-IsIn space.inf ds (omega (arith, full, pos))) (omega (arith, low)) in
              rw
                (
                  near,
                  taken,
                  set-copy_up_full ds i (dist_of c) within,
                  set-copy_up_full cs i c (omega (arith, within, as_long)),
                )
                (insert_full k xs c cs ds pos h full low)
        ]
      ]

  pub insert-Keeps :
      (k : ℕ) (xs : List C) (c : C) (s : KnnResults C)
      → 0 < k
      → Keeps k xs s
      → Keeps k (c ∷ xs) (insert space c (dist_of c) s)
  insert-Keeps k xs c s pos h =
      subst
        (λ (m : ℕ).
          Keeps k xs (record { max = m; coords = s.coords; dists = s.dists })
          → Keeps k (c ∷ xs)
              (insert space c (dist_of c) (record { max = m; coords = s.coords; dists = s.dists })))
        (sym h.limit) (insert_at-Keeps k xs c s.coords s.dists pos) h

  Keeps-skip :
      (k : ℕ) (xs ys : List C) (s : KnnResults C)
      → Keeps k xs s
      → ((q : C) → IsIn q ys → max_dist space s ≤ dist_of q)
      → Keeps k (ys ++ xs) s
  Keeps-skip k xs ys s h beyond = record {
    limit = h.limit;
    keyed = h.keyed;
    ascending = h.ascending;
    few = h.few;
    finite = h.finite;
    others = ys ++ h.others;
    parts = λ q. omega (arith, h.parts q, count-append q ys h.others, count-append q ys xs);
    far = λ q here. ground (arith, count-append q ys h.others, here, beyond q, h.far q);
  }

  pub Keeps-reorder :
      (k : ℕ) (xs ys : List C) (s : KnnResults C)
      → ((q : C) → count q ys ≡ count q xs)
      → Keeps k xs s
      → Keeps k ys s
  Keeps-reorder k xs ys s same h = record {
    limit = h.limit;
    keyed = h.keyed;
    ascending = h.ascending;
    few = h.few;
    finite = h.finite;
    others = h.others;
    parts = λ q. omega (arith, h.parts q, same q);
    far = h.far;
  }

  -- the half space behind the plane
  pub Keeps-far :
      (k : ℕ) (xs ys : List C) (s t : KnnResults C) (plane : Float)
      → ((q : C) → IsIn q ys → plane ≤ dist_of q)
      → Keeps k xs s
      → Keeps k (ys ++ xs) t
      → Keeps k (ys ++ xs) (if ltb plane (max_dist space s) then t else s)
  Keeps-far k xs ys s t plane beyond h g = elim (Bool-cases (ltb plane (max_dist space s))) [
    | inl near ↦ rw near g
    | inr too_far ↦
        rw too_far (Keeps-skip k xs ys s h (λ q here. ground (arith, beyond q here, too_far)))
  ]
