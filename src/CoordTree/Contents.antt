-- ===== src/CoordTree/Contents.antt =====
-- model3d/coord_tree.go: the trees that NewCoordTree returns, and Contains in them.
use mathlib.Core.Path.{subst}
use model3d.Base.{
  ℕ, zero, suc, ◌+◌, ◌/◌, ◌%◌, ◌≤◌, ◌<◌, ◌≡◌, refl, sym, ap, ◌∙◌, inl, inr, Bool, true, false, not,
  some, List, [], ◌∷◌, ◌++◌, arith, ltb, nat_beq, if◌then◌else◌, Eq, ◌==◌, nat_eq, Bool-cases,
  length, get_elem?, to_nat, count, count-append,
}
use model3d.CoordTree.{
  Space, CoordTree, nil, node, FlaggedCoord, Flags, flagged_beq, flagged_eq, set_flags, branch,
  new_coord_tree_sorted, flagged_from, Sorter, sorted_along, new_coord_tree, contains, slice,
}
use mathlib.Core.List.{Permᴰ}
use model3d.CoordTree.Build.{
  IsIn, IsIn-get, length-IsIn, IsUnique, at_address-pos, set_flags-eq, at_address-branch,
  count-branch, length-branches, points_of, branches-count, points-IsIn,
}
use model3d.CoordTree.Addresses.{counts-IsUnique, flagged_from-IsUnique, points_of-flagged}

module _ {C : Type 0} ⦃e : Eq C⦄ (space : Space C) where
  -- each node parts the points below it at its plane
  abbrev pub IsOrdered : CoordTree C → Type 0
  IsOrdered nil = Unit
  IsOrdered (node coord axis less more) =
      ((q : C) → IsIn q (slice space less) → space.array q axis < space.array coord axis)
      × ((q : C) → IsIn q (slice space more) → space.array coord axis ≤ space.array q axis)
      × IsOrdered less
      × IsOrdered more

  -- the lists of all axes hold the same coordinates
  pub record Agrees (coords : ℕ → List (FlaggedCoord C)) : Type 0 where
    pub unique : (i : ℕ) → IsUnique space (coords i)
    pub same : (i : ℕ) (c : FlaggedCoord C) → count c (coords i) ≡ count c (coords 0)

  branch-Agrees :
      (flags : Flags) (split : ℕ) (side : Bool) (coords : ℕ → List (FlaggedCoord C))
      → Agrees coords
      → Agrees (λ i. branch space flags split side (coords i))
  branch-Agrees flags split side coords a = record {
    unique =
        λ i k. omega (arith, at_address-branch space flags split k side (coords i), a.unique i k);
    same = λ i c.
        count-branch space flags split side (coords i) c
        ∙ ap
            (λ n.
              if nat_beq c.address split
              then 0
              else if flags c.address
              then if side then n else 0
              else if side
              then 0
              else n)
            (a.same i c)
        ∙ sym (count-branch space flags split side (coords 0) c);
  }

  -- a tree of the points of some coordinates
  pub record Holds (t : CoordTree C) (points : List C) : Type 0 where
    pub ordered : IsOrdered t
    pub counts : (p : C) → count p (slice space t) ≡ count p points

  -- the points of a branch lie on its side
  branch_side :
      (axis : ℕ) (split : FlaggedCoord C) (side : Bool) (coords : ℕ → List (FlaggedCoord C))
      (flags : Flags) (q : C)
      → Agrees coords
      → let v = space.array split.coord axis in
        let marked = set_flags space axis v (coords axis) flags in
        IsIn q (points_of space (branch space marked split.address side (coords 0)))
        → not (ltb (space.array q axis) v) ≡ side
  branch_side axis split side coords flags q a h =
      let v = space.array split.coord axis in
      let marked = set_flags space axis v (coords axis) flags in
      let (c, there, eq) = points-IsIn space q _ h in
      let n = count-branch space marked split.address side (coords 0) c in
      let here : IsIn c (coords 0) = ground (arith, n, there) in
      let flag =
        set_flags-eq space axis v (coords axis) flags c (a.unique axis)
          (omega (arith, a.same axis c, here)) in
      subst (λ (t : C). not (ltb (space.array t axis) v) ≡ side) eq
        (sym flag ∙ ground (arith, n, there))

  nil-Holds : (cs : List (FlaggedCoord C)) → length cs ≡ 0 → Holds nil (points_of space cs)
  unfolding slice
  nil-Holds [] h = record { ordered = tt; counts = λ p. refl }
  nil-Holds (c ∷ cs) h = absurd (omega (arith, h))

  single-Holds :
      (cs : List (FlaggedCoord C))
      → length cs ≡ 1
      → (c : FlaggedCoord C) × (get_elem? cs 0 ≡ some c)
        × Holds (node c.coord 0 nil nil) (points_of space cs)
  unfolding slice
  single-Holds [] h = absurd (omega (arith, h))
  single-Holds (c ∷ []) h = (
    c,
    refl,
    record {
      ordered = (λ q k. absurd (omega (arith, k)), λ q k. absurd (omega (arith, k)), tt, tt);
      counts = λ p. refl;
    },
  )
  single-Holds (c ∷ d ∷ cs) h = absurd (omega (arith, h))

  -- the coordinate in the middle of a list
  middle-IsIn :
      (coords : ℕ → List (FlaggedCoord C)) (axis : ℕ)
      → Agrees coords
      → 0 < length (coords 0)
      → (c : FlaggedCoord C) × (get_elem? (coords axis) (length (coords axis) / 2) ≡ some c)
        × IsIn c (coords axis)
  middle-IsIn coords axis a some_coord =
      let (first, found, there) = IsIn-get (coords 0) 0 some_coord in
      let long = length-IsIn first (coords axis) (omega (arith, a.same axis first, there)) in
      IsIn-get (coords axis) (length (coords axis) / 2) (omega (arith, long))

  node-Holds :
      (coords : ℕ → List (FlaggedCoord C)) (axis : ℕ) (flags : Flags) (split : FlaggedCoord C)
      (less more : CoordTree C)
      → Agrees coords
      → IsIn split (coords axis)
      → let marked = set_flags space axis (space.array split.coord axis) (coords axis) flags in
        Holds less (points_of space (branch space marked split.address false (coords 0)))
        → Holds more (points_of space (branch space marked split.address true (coords 0)))
        → Holds (node split.coord axis less more) (points_of space (coords 0))
  unfolding slice
  node-Holds coords axis flags split less more a there l m =
      let marked = set_flags space axis (space.array split.coord axis) (coords axis) flags in
      record {
        ordered = (
          λ q h.
              ground (
                arith,
                branch_side axis split false coords flags q a (omega (arith, l.counts q, h)),
              ),
          λ q h.
              ground (
                arith,
                branch_side axis split true coords flags q a (omega (arith, m.counts q, h)),
              ),
          l.ordered,
          m.ordered,
        );
        counts = λ p. omega (
          arith,
          count-append p (slice space less ++ split.coord ∷ []) (slice space more),
          count-append p (slice space less) (split.coord ∷ []),
          l.counts p,
          m.counts p,
          branches-count space marked split p (coords 0) (a.unique 0)
              (omega (arith, a.same axis split, there)),
        );
      }

  -- a branch is shorter
  branch-lt :
      (coords : ℕ → List (FlaggedCoord C)) (flags : Flags) (split : FlaggedCoord C) (axis : ℕ)
      → Agrees coords
      → IsIn split (coords axis)
      → (length (branch space flags split.address false (coords 0)) < length (coords 0))
        × (length (branch space flags split.address true (coords 0)) < length (coords 0))
  branch-lt coords flags split axis a there =
      let taken = at_address-pos space split (coords 0) (omega (arith, a.same axis split, there)) in
      let sum = length-branches space flags split.address (coords 0) in
      (omega (arith, taken, sum), omega (arith, taken, sum))

  sorted-Holds :
      (depth : ℕ) (coords : ℕ → List (FlaggedCoord C)) (axis : ℕ) (flags : Flags)
      → Agrees coords
      → length (coords 0) < depth
      → (t : CoordTree C) × (left : Flags) × (new_coord_tree_sorted space depth coords axis flags
          ≡ some (t, left))
        × Holds t (points_of space (coords 0))
  unfolding new_coord_tree_sorted
  sorted-Holds zero coords axis flags a deep = absurd (omega arith)
  sorted-Holds (suc depth) coords axis flags a deep =
      elim (Bool-cases (nat_beq (length (coords 0)) 0)) [
        | inl none_left ↦ (nil, flags, rw none_left refl, nil-Holds (coords 0) (ground arith))
        | inr nonempty ↦ elim (Bool-cases (nat_beq (length (coords 0)) 1)) [
          | inl one ↦
              let (c, found, holds) = single-Holds (coords 0) (ground arith) in
              (node c.coord 0 nil nil, flags, rw (nonempty, one, found) refl, holds)
          | inr several ↦
              let (split, found, there) = middle-IsIn coords axis a (ground arith) in
              let marked =
                set_flags space axis (space.array split.coord axis) (coords axis) flags in
              let next = (axis + 1) % space.dims in
              let shorter = branch-lt coords marked split axis a there in
              let (less, flags2, e1, l) =
                sorted-Holds depth (λ i. branch space marked split.address false (coords i)) next
                  marked (branch-Agrees marked split.address false coords a)
                  (omega (arith, shorter.0, deep)) in
              let (more, flags3, e2, m) =
                sorted-Holds depth (λ i. branch space marked split.address true (coords i)) next
                  flags2 (branch-Agrees marked split.address true coords a)
                  (omega (arith, shorter.1, deep)) in
              (
                node split.coord axis less more,
                flags3,
                rw (nonempty, several, found, e1, e2) refl,
                node-Holds coords axis flags split less more a there l m,
              )
        ]
      ]

  -- a sort puts the entries in another order
  abbrev pub Reorders : Sorter space → Type 0
  Reorders sort =
      (less : FlaggedCoord C → FlaggedCoord C → Bool) (cs : List (FlaggedCoord C))
      → Permᴰ (sort less cs) cs

  count-Perm :
      {cs ds : List (FlaggedCoord C)} (c : FlaggedCoord C) → Permᴰ cs ds → count c cs ≡ count c ds
  count-Perm c Permᴰ.nil = refl
  count-Perm c (Permᴰ.cons same p) =
      omega (arith, ap (λ d. to_nat (flagged_beq d c)) same, count-Perm c p)
  count-Perm c (Permᴰ.swap same also) =
      omega
        (arith, ap (λ d. to_nat (flagged_beq d c)) same, ap (λ d. to_nat (flagged_beq d c)) also)
  count-Perm c (Permᴰ.trans p q) = count-Perm c p ∙ count-Perm c q

  points-Perm :
      {cs ds : List (FlaggedCoord C)} (p : C)
      → Permᴰ cs ds
      → count p (points_of space cs) ≡ count p (points_of space ds)
  points-Perm p Permᴰ.nil = refl
  points-Perm p (Permᴰ.cons same r) =
      omega (arith, ap (λ d. to_nat (d.coord == p)) same, points-Perm p r)
  points-Perm p (Permᴰ.swap same also) =
      omega (arith, ap (λ d. to_nat (d.coord == p)) same, ap (λ d. to_nat (d.coord == p)) also)
  points-Perm p (Permᴰ.trans r q) = points-Perm p r ∙ points-Perm p q

  length-Perm : {cs ds : List (FlaggedCoord C)} → Permᴰ cs ds → length cs ≡ length ds
  length-Perm Permᴰ.nil = refl
  length-Perm (Permᴰ.cons same r) = ap suc (length-Perm r)
  length-Perm (Permᴰ.swap same also) = refl
  length-Perm (Permᴰ.trans r q) = length-Perm r ∙ length-Perm q

  length-flagged : (n : ℕ) (points : List C) → length (flagged_from space n points) ≡ length points
  unfolding flagged_from
  length-flagged n [] = refl
  length-flagged n (p ∷ points) = ap suc (length-flagged (suc n) points)

  pub new_coord_tree-Holds :
      (sort : Sorter space) (points : List C)
      → Reorders sort
      → (t : CoordTree C) × (new_coord_tree space sort points ≡ some t) × Holds t points
  unfolding new_coord_tree
  new_coord_tree-Holds sort points r =
      let flagged = flagged_from space 0 points in
      let sorted = sorted_along space sort flagged in
      let perm : (i : ℕ) → Permᴰ (sorted i) flagged = λ i. r _ flagged in
      let a : Agrees sorted = record {
        unique = λ i.
            counts-IsUnique space flagged (sorted i) (flagged_from-IsUnique space 0 points)
              (λ c. count-Perm c (perm i));
        same = λ i c. count-Perm c (perm i) ∙ sym (count-Perm c (perm 0));
      } in
      let (t, left, built, h) =
        sorted-Holds (suc (length points)) sorted 0 (λ k. false) a
          (omega (arith, length-Perm (perm 0), length-flagged 0 points)) in
      (
        t,
        rw built refl,
        record {
          ordered = h.ordered;
          counts = λ p.
              h.counts p ∙ points-Perm p (perm 0) ∙ ap (count p) (points_of-flagged space 0 points);
        },
      )

  -- Contains in a tree that is parted at its planes finds the points of the tree
  pub contains-count :
      (t : CoordTree C) (p : C) → IsOrdered t → contains space t p ≡ ltb 0 (count p (slice space t))
  unfolding contains slice
  contains-count nil p o = refl
  contains-count (node coord axis less more) p o = ground (
    arith,
    count-append p (slice space less ++ coord ∷ []) (slice space more),
    count-append p (slice space less) (coord ∷ []),
    contains-count less p o.2,
    contains-count more p o.3,
    o.0 p,
    o.1 p,
  )
