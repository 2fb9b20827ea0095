-- ===== src/CoordTree/Search.antt =====
-- model3d/coord_tree.go: NearestNeighbor and SphereCollision, which leave out half spaces that are too far.
use mathlib.Core.Path.{subst}
use model3d.Base.{
  ℕ, ◌+◌, ◌≤◌, ◌<◌, ◌≡◌, refl, sym, ap, ◌∙◌, ◌⊎◌, inl, inr, true, false, some, List, [], ◌∷◌, ◌++◌,
  arith, ltb, leb, if◌then◌else◌, Eq, nat_eq, Bool-cases, ==_refl, count, count-append,
}
use model3d.Coords.{Float, float_zero}
use model3d.CoordTree.{
  Space, CoordTree, nil, node, slice, Nearest, nearest_neighbor_step, nearest_neighbor,
  sphere_collision_squared,
}
use model3d.CoordTree.Build.{IsIn}
use model3d.CoordTree.Contents.{IsOrdered}

module _ {C : Type 0} ⦃e : Eq C⦄ (space : Space C) where
  -- What float subtraction, multiplication and SquaredDist keep when they round: the sign of a
  -- difference, and that a point behind a plane is no nearer than the plane.
  pub record IsMetric : Type 0 where
    pub sign : (a b : Float) → ltb float_zero (space.minus a b) ≡ ltb b a
    pub beyond_above :
        (p q : C) (axis : ℕ) (v : Float)
        → space.array p axis < v
        → v ≤ space.array q axis
        → let d = space.minus v (space.array p axis) in space.times d d ≤ space.squared_dist p q
    pub beyond_below :
        (p q : C) (axis : ℕ) (v : Float)
        → v ≤ space.array p axis
        → space.array q axis < v
        → let d = space.minus v (space.array p axis) in space.times d d ≤ space.squared_dist p q

  -- from one pair of a result and a bound to another, over the points of a list
  record Finds (p : C) (xs : List C) (s t : Nearest space) : Type 0 where
    no_more : t.1 ≤ s.1
    nearest : (q : C) → IsIn q xs → t.1 ≤ space.squared_dist p q
    from : (t ≡ s) ⊎ (IsIn t.0 xs × (t.1 ≡ space.squared_dist p t.0))

  Finds-skip :
      (p : C) (xs : List C) (s : Nearest space)
      → ((q : C) → IsIn q xs → s.1 ≤ space.squared_dist p q)
      → Finds p xs s s
  Finds-skip p xs s far = record { no_more = omega arith; nearest = far; from = inl refl }

  Finds-append :
      (p : C) (xs ys : List C) (s t u : Nearest space)
      → Finds p xs s t
      → Finds p ys t u
      → Finds p (xs ++ ys) s u
  Finds-append p xs ys s t u f g = record {
    no_more = omega (arith, f.no_more, g.no_more);
    nearest = λ q h. ground (arith, count-append q xs ys, h, f.nearest q, g.nearest q, g.no_more);
    from = elim g.from [
      | inr (there, eq) ↦ inr (omega (arith, count-append u.0 xs ys, there), eq)
      | inl same ↦ elim f.from [
        | inl also ↦ inl (same ∙ also)
        | inr found ↦ inr (
            subst (λ (w : Nearest space). IsIn w.0 (xs ++ ys) × (w.1 ≡ space.squared_dist p w.0))
              (sym same) (omega (arith, count-append t.0 xs ys, found.0), found.1))
      ]
    ];
  }

  Finds-reorder :
      (p : C) (xs ys : List C) (s t : Nearest space)
      → ((q : C) → count q ys ≡ count q xs)
      → Finds p xs s t
      → Finds p ys s t
  Finds-reorder p xs ys s t same f = record {
    no_more = f.no_more;
    nearest = λ q h. f.nearest q (omega (arith, same q, h));
    from = elim f.from [
      | inl eq ↦ inl eq
      | inr (there, eq) ↦ inr (omega (arith, same t.0, there), eq)
    ];
  }

  Finds-one :
      (p coord : C) (s : Nearest space)
      → let dist = space.squared_dist p coord in
        Finds p (coord ∷ []) s (if ltb dist s.1 then (coord, dist) else s)
  Finds-one p coord s =
      let dist = space.squared_dist p coord in
      elim (Bool-cases (ltb dist s.1)) [
        | inl nearer ↦ rw nearer (record {
          no_more = ground (arith, nearer);
          nearest = λ q h. only coord q dist h (omega arith);
          from = inr (ground (arith, ==_refl coord), refl);
        })
        | inr farther ↦ rw farther (record {
          no_more = omega arith;
          nearest = λ q h. only coord q s.1 h (ground (arith, farther));
          from = inl refl;
        })
      ]
    where
      only :
          (c q : C) (bound : Float)
          → IsIn q (c ∷ [])
          → bound ≤ space.squared_dist p c
          → bound ≤ space.squared_dist p q
      only c q bound h le =
          subst (λ (t : C). bound ≤ space.squared_dist p t) ((e.beq_iff c q).0 (ground (arith, h)))
            le

  -- the half space behind the plane, searched if the plane is near enough
  Finds-far :
      (p : C) (xs : List C) (s t : Nearest space) (plane : Float)
      → ((q : C) → IsIn q xs → plane ≤ space.squared_dist p q)
      → Finds p xs s t
      → Finds p xs s (if ltb plane s.1 then t else s)
  Finds-far p xs s t plane far f = elim (Bool-cases (ltb plane s.1)) [
    | inl near ↦ rw near f
    | inr too_far ↦ rw too_far (Finds-skip p xs s (λ q h. ground (arith, far q h, too_far)))
  ]

  step-Finds :
      (metric : IsMetric) (t : CoordTree C) (p : C) (s : Nearest space)
      → IsOrdered space t
      → Finds p (slice space t) s (nearest_neighbor_step space t p s)
  unfolding nearest_neighbor_step slice
  step-Finds metric nil p s o = Finds-skip p [] s (λ q h. absurd (omega (arith, h)))
  step-Finds metric (node coord axis less more) p s o =
      let v = space.array coord axis in
      let d = space.minus v (space.array p axis) in
      let plane = space.times d d in
      let dist = space.squared_dist p coord in
      let s1 : Nearest space = if ltb dist s.1 then (coord, dist) else s in
      let one = Finds-one p coord s in
      elim (Bool-cases (ltb float_zero d)) [
        | inl ahead ↦
            let s2 = nearest_neighbor_step space less p s1 in
            let s3 = nearest_neighbor_step space more p s2 in
            let not_behind : leb d float_zero ≡ false = ground (arith, ahead) in
            let side : space.array p axis < v =
              ground (arith, metric.sign v (space.array p axis), ahead) in
            let far =
              Finds-far p (slice space more) s2 s3 plane
                (λ q h. metric.beyond_above p q axis v side (o.1 q h))
                (step-Finds metric more p s2 o.3) in
            let all =
              Finds-append p ((coord ∷ []) ++ slice space less) (slice space more) s s2 _
                (Finds-append p (coord ∷ []) (slice space less) s s1 s2 one
                  (step-Finds metric less p s1 o.2))
                far in
            rw (ahead, not_behind)
              (Finds-reorder p _ _ s _ (λ q. counts q (slice space less) (slice space more)) all)
        | inr behind ↦
            let s2 = nearest_neighbor_step space more p s1 in
            let s3 = nearest_neighbor_step space less p s2 in
            let not_ahead : leb d float_zero ≡ true = ground (arith, behind) in
            let side : v ≤ space.array p axis =
              ground (arith, metric.sign v (space.array p axis), behind) in
            let far =
              Finds-far p (slice space less) s2 s3 plane
                (λ q h. metric.beyond_below p q axis v side (o.0 q h))
                (step-Finds metric less p s2 o.2) in
            let all =
              Finds-append p ((coord ∷ []) ++ slice space more) (slice space less) s s2 _
                (Finds-append p (coord ∷ []) (slice space more) s s1 s2 one
                  (step-Finds metric more p s1 o.3))
                far in
            rw (behind, not_ahead)
              (Finds-reorder p _ _ s _ (λ q. behind_counts q (slice space less) (slice space more))
                all)
      ]
    where
      counts :
          (q : C) (xs ys : List C)
          → count q ((xs ++ coord ∷ []) ++ ys) ≡ count q (((coord ∷ []) ++ xs) ++ ys)
      counts q xs ys = omega (
        arith,
        count-append q (xs ++ coord ∷ []) ys,
        count-append q xs (coord ∷ []),
        count-append q ((coord ∷ []) ++ xs) ys,
      )

      behind_counts :
          (q : C) (xs ys : List C)
          → count q ((xs ++ coord ∷ []) ++ ys) ≡ count q (((coord ∷ []) ++ ys) ++ xs)
      behind_counts q xs ys = omega (
        arith,
        count-append q (xs ++ coord ∷ []) ys,
        count-append q xs (coord ∷ []),
        count-append q ((coord ∷ []) ++ ys) xs,
      )

  -- NearestNeighbor in a tree that is parted at its planes
  pub nearest-IsOrdered :
      (metric : IsMetric) (t : CoordTree C) (p near : C)
      → IsOrdered space t
      → IsIn near (slice space t)
      → space.squared_dist p near < space.inf
      → (r : C) × (nearest_neighbor space t p ≡ some r)
        × IsIn r (slice space t)
        × ((q : C) → IsIn q (slice space t) → space.squared_dist p r ≤ space.squared_dist p q)
  unfolding nearest_neighbor
  nearest-IsOrdered metric nil p near o h finite = absurd (unfold slice in omega (arith, h))
  nearest-IsOrdered metric (node coord axis less more) p near o h finite =
      let t = node coord axis less more in
      let s : Nearest space = (space.zero_coord, space.inf) in
      let u = nearest_neighbor_step space t p s in
      let f = step-Finds metric t p s o in
      elim f.from [
        | inl same ↦
            absurd (omega (arith, f.nearest near h, ap (λ (w : Nearest space). w.1) same, finite))
        | inr (there, eq) ↦ (u.0, refl, there, λ q k. omega (arith, eq, f.nearest q k))
      ]

  -- a point within a squared distance
  abbrev Within : C → Float → List C → Type 0
  Within p bound xs = (q : C) × IsIn q xs × (space.squared_dist p q ≤ bound)

  -- SphereCollision in a tree that is parted at its planes
  node_parts :
      (q c : C) (xs ys : List C)
      → count q ((xs ++ c ∷ []) ++ ys) ≡ (count q xs + count q (c ∷ [])) + count q ys
  node_parts q c xs ys = omega (arith, count-append q (xs ++ c ∷ []) ys, count-append q xs (c ∷ []))

  pub sphere-hit :
      (t : CoordTree C) (p : C) (bound : Float)
      → sphere_collision_squared space t p bound ≡ true
      → Within p bound (slice space t)
  unfolding sphere_collision_squared slice
  sphere-hit nil p bound h = absurd (ground (arith, h))
  sphere-hit (node coord axis less more) p bound h =
      let parts = λ (q : C). node_parts q coord (slice space less) (slice space more) in
      elim (Bool-cases (leb (space.squared_dist p coord) bound)) [
        | inl here ↦ (coord, omega (arith, parts coord, one coord), ground (arith, here))
        | inr away ↦ elim (Bool-cases (sphere_collision_squared space less p bound)) [
          | inl in_less ↦
              let (q, there, le) = sphere-hit less p bound in_less in
              (q, omega (arith, parts q, there), le)
          | inr not_less ↦ elim (Bool-cases (sphere_collision_squared space more p bound)) [
            | inl in_more ↦
                let (q, there, le) = sphere-hit more p bound in_more in
                (q, omega (arith, parts q, there), le)
            | inr not_more ↦ absurd (ground (arith, h, away, not_less, not_more))
          ]
        ]
      ]
    where
      one : (c : C) → IsIn c (c ∷ [])
      one c = ground (arith, ==_refl c)

  pub sphere-near :
      (metric : IsMetric) (t : CoordTree C) (p q : C) (bound : Float)
      → IsOrdered space t
      → IsIn q (slice space t)
      → space.squared_dist p q ≤ bound
      → sphere_collision_squared space t p bound ≡ true
  unfolding sphere_collision_squared slice
  sphere-near metric nil p q bound o h le = absurd (omega (arith, h))
  sphere-near metric (node coord axis less more) p q bound o h le =
      let v = space.array coord axis in
      ground (
        arith,
        count-append q (slice space less ++ coord ∷ []) (slice space more),
        count-append q (slice space less) (coord ∷ []),
        h,
        le,
        sphere-near metric less p q bound o.2,
        sphere-near metric more p q bound o.3,
        o.0 q,
        o.1 q,
        e.beq_iff coord q,
        ap (λ t. space.squared_dist p t),
        metric.sign v (space.array p axis),
        metric.beyond_above p q axis v,
        metric.beyond_below p q axis v,
      )
