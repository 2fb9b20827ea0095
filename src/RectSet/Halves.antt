-- ===== src/RectSet/Halves.antt =====
-- toolbox3d/rect_set.go: the two maps that splitRectSet divides the boxes into.
use mathlib.Core.Path.{subst}
use model3d.Base.{
  eq_beq, ℕ, ◌+◌, ◌≤◌, ◌≡◌, refl, sym, ap, ◌∙◌, ◌⊎◌, inl, inr, Bool, true, false, ◌||◌, [], ◌∷◌,
  arith, ltb, if◌then◌else◌, ◌==◌, nat_eq, Bool-cases, ==_refl, length,
}
use model3d.GoMap
use model3d.GoMap.{GoMap, IsDistinct}
use model3d.Coords.{Coord3D, Float, coord_eq, coord_at, Rect, rect_eq, rect_contains}
use model3d.RectSet.Cover.{covers, covers-insert}
use model3d.RectSet.Kept.{IsKey, head-IsKey, tail-IsKey}
use model3d.RectSet.Solid.{halves}

abbrev pub Halves : Type 0
Halves = GoMap Rect Bool × GoMap Rect Bool

module _ (axis : ℕ) (cutoff : Float) where
  abbrev pub is_below : Rect → Bool
  is_below q = ltb (coord_at q.min_val axis) cutoff

  -- one round of the loop
  abbrev put_half : Rect → Halves → Halves
  put_half rect h =
      if is_below rect then (GoMap.insert rect true h.0, h.1) else (h.0, GoMap.insert rect true h.1)

  -- a property of the two maps that each round keeps
  halves-keep :
      (P : Halves → Type 0) (m : GoMap Rect Bool) (h : Halves)
      → ((q : Rect) (g : Halves) → P g → P (put_half q g))
      → P h
      → P (halves axis cutoff m h)
  unfolding halves
  halves-keep P [] h step p = p
  halves-keep P ((r, b) ∷ m) h step p = halves-keep P m (put_half r h) step (step r h p)

  insert-IsKey : (q r : Rect) (m : GoMap Rect Bool) → IsKey q m → IsKey q (GoMap.insert r true m)
  insert-IsKey q r m h = ground (arith, GoMap.lookup-insert q r true m)

  insert-new : (q : Rect) (m : GoMap Rect Bool) → IsKey q (GoMap.insert q true m)
  insert-new q m = ground (arith, GoMap.lookup-insert q q true m, ==_refl q)

  pub halves-IsDistinct :
      (m : GoMap Rect Bool) (h : Halves)
      → IsDistinct h.0 × IsDistinct h.1
      → IsDistinct (halves axis cutoff m h).0 × IsDistinct (halves axis cutoff m h).1
  halves-IsDistinct m h d =
      halves-keep (λ g. IsDistinct g.0 × IsDistinct g.1) m h
        (λ q g e. elim (Bool-cases (is_below q)) [
          | inl first ↦ rw first (GoMap.insert-IsDistinct q true g.0 e.0, e.1)
          | inr second ↦ rw second (e.0, GoMap.insert-IsDistinct q true g.1 e.1)
        ])
        d

  halves-IsKey_kept :
      (m : GoMap Rect Bool) (h : Halves) (q : Rect)
      → (IsKey q h.0 → IsKey q (halves axis cutoff m h).0)
        × (IsKey q h.1 → IsKey q (halves axis cutoff m h).1)
  halves-IsKey_kept m h q = (
    λ k.
        halves-keep (λ g. IsKey q g.0) m h
          (λ r g e. elim (Bool-cases (is_below r)) [
            | inl first ↦ rw first (insert-IsKey q r g.0 e)
            | inr second ↦ rw second e
          ])
          k,
    λ k.
        halves-keep (λ g. IsKey q g.1) m h
          (λ r g e. elim (Bool-cases (is_below r)) [
            | inl first ↦ rw first e
            | inr second ↦ rw second (insert-IsKey q r g.1 e)
          ])
          k,
  )

  -- a box goes to its half
  pub IsKey-halves :
      (m : GoMap Rect Bool) (h : Halves) (q : Rect)
      → IsKey q m
      → (is_below q ≡ true → IsKey q (halves axis cutoff m h).0)
        × (is_below q ≡ false → IsKey q (halves axis cutoff m h).1)
  unfolding halves GoMap.lookup
  IsKey-halves [] h q k = absurd (ground (arith, k))
  IsKey-halves ((r, b) ∷ m) h q k = elim (Bool-cases (r == q)) [
    | inr other ↦ IsKey-halves m (put_half r h) q (rw other at k)
    | inl same ↦
        let e = (rect_eq.beq_iff r q).0 same in
        let kept = halves-IsKey_kept m (put_half q h) q in
        subst
          (λ (t : Rect).
            (is_below q ≡ true → IsKey q (halves axis cutoff m (put_half t h)).0)
            × (is_below q ≡ false → IsKey q (halves axis cutoff m (put_half t h)).1))
          (sym e)
          (
            λ first. kept.0 (rw first (insert-new q h.0)),
            λ second. kept.1 (rw second (insert-new q h.1)),
          )
  ]

  put_half-IsKey :
      (r q : Rect) (b : Bool) (m : GoMap Rect Bool) (h : Halves)
      → (IsKey q (put_half r h).0 → (IsKey q ((r, b) ∷ m) × (is_below q ≡ true)) ⊎ IsKey q h.0)
        × (IsKey q (put_half r h).1 → (IsKey q ((r, b) ∷ m) × (is_below q ≡ false)) ⊎ IsKey q h.1)
  put_half-IsKey r q b m h = elim (Bool-cases (is_below r)) [
    | inl first ↦ rw first (inserted true h.0 first, λ k. inr k)
    | inr second ↦ rw second (λ k. inr k, inserted false h.1 second)
  ]
    where
      inserted :
          (side : Bool) (g : GoMap Rect Bool)
          → is_below r ≡ side
          → IsKey q (GoMap.insert r true g)
          → (IsKey q ((r, b) ∷ m) × (is_below q ≡ side)) ⊎ IsKey q g
      inserted side g here k = elim (Bool-cases (r == q)) [
        | inl same ↦
            let e = (rect_eq.beq_iff r q).0 same in
            inl (
              subst (λ (t : Rect). IsKey t ((r, b) ∷ m)) e (head-IsKey r b m),
              sym (ap is_below e) ∙ here,
            )
        | inr other ↦ inr (ground (arith, GoMap.lookup-insert q r true g))
      ]

  -- and the boxes of a half are those of the set on its side
  pub halves-IsKey :
      (m : GoMap Rect Bool) (h : Halves) (q : Rect)
      → (IsKey q (halves axis cutoff m h).0 → (IsKey q m × (is_below q ≡ true)) ⊎ IsKey q h.0)
        × (IsKey q (halves axis cutoff m h).1 → (IsKey q m × (is_below q ≡ false)) ⊎ IsKey q h.1)
  unfolding halves
  halves-IsKey [] h q = (λ k. inr k, λ k. inr k)
  halves-IsKey ((r, b) ∷ m) h q =
      let rest = halves-IsKey m (put_half r h) q in
      let now = put_half-IsKey r q b m h in
      (
        λ k. elim (rest.0 k) [
          | inl (key, side) ↦ inl (tail-IsKey q r b m key, side)
          | inr before ↦ now.0 before
        ],
        λ k. elim (rest.1 k) [
          | inl (key, side) ↦ inl (tail-IsKey q r b m key, side)
          | inr before ↦ now.1 before
        ],
      )

  put_half-covers :
      (r : Rect) (h : Halves) (p : Coord3D)
      → (covers (put_half r h).0 p || covers (put_half r h).1 p)
        ≡ (rect_contains r p || (covers h.0 p || covers h.1 p))
  put_half-covers r h p = elim (Bool-cases (is_below r)) [
    | inl first ↦ rw first (ground (arith, covers-insert r h.0 p))
    | inr second ↦ rw second (ground (arith, covers-insert r h.1 p))
  ]

  -- the boxes of both halves cover what the boxes of the set do
  pub covers-halves :
      (m : GoMap Rect Bool) (h : Halves) (p : Coord3D)
      → (covers (halves axis cutoff m h).0 p || covers (halves axis cutoff m h).1 p)
        ≡ (covers m p || (covers h.0 p || covers h.1 p))
  unfolding halves covers
  covers-halves [] h p = refl
  covers-halves ((r, b) ∷ m) h p =
      covers-halves m (put_half r h) p
      ∙ ap (λ c. covers m p || c) (put_half-covers r h p)
      ∙ swap (covers m p) (rect_contains r p) (covers h.0 p || covers h.1 p)
    where
      swap : (a b c : Bool) → (a || (b || c)) ≡ ((b || a) || c)
      swap a b c = ground arith

  put_half-length :
      (r : Rect) (h : Halves)
      → length (put_half r h).0 + length (put_half r h).1 ≤ 1 + (length h.0 + length h.1)
  put_half-length r h = elim (Bool-cases (is_below r)) [
    | inl first ↦ rw first (omega (arith, GoMap.length-insert r true h.0))
    | inr second ↦ rw second (omega (arith, GoMap.length-insert r true h.1))
  ]

  -- no box comes from nowhere
  pub length-halves :
      (m : GoMap Rect Bool) (h : Halves)
      → length (halves axis cutoff m h).0 + length (halves axis cutoff m h).1
        ≤ length m + (length h.0 + length h.1)
  unfolding halves
  length-halves [] h = omega arith
  length-halves ((r, b) ∷ m) h = omega (arith, length-halves m (put_half r h), put_half-length r h)
