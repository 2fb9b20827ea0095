-- ===== src/RectSet/Splitting.antt =====
-- toolbox3d/rect_set.go: splitRectSet on a set with several boxes.
use mathlib.Core.Path.{subst}
use model3d.Base.{
  eq_beq, ℕ, zero, suc, ◌+◌, ◌-◌, ◌/◌, ◌≤◌, ◌<◌, ◌≡◌, refl, sym, ap, ◌∙◌, ◌≢◌, inl, inr, Bool, true,
  false, ◌||◌, some, List, [], ◌∷◌, arith, ltb, leb, nat_eq, Bool-cases, ==_refl, length, get_elem?,
  get_or,
}
use model3d.GoMap
use model3d.GoMap.{GoMap, IsDistinct}
use model3d.Coords.{Coord3D, Float, coord_eq, coord_at, Rect, rect_eq}
use model3d.RectSet.{RectSet, Splits, splits_at, rebuild_splits, new_rect_set}
use model3d.RectSet.Cover.{covers}
use model3d.RectSet.Values.{In, IsGap, get_or-In}
use model3d.RectSet.Grid.{IsCell, IsGrid}
use model3d.RectSet.Kept.{IsKey, head-IsKey, tail-IsKey, rebuild-IsGrid}
use model3d.RectSet.Inside.{contains-IsOn, covers-key}
use model3d.RectSet.Ends.{IsTight, rebuild-IsTight}
use model3d.RectSet.Extents.{
  cell_at, IsSorted-at, get_elem?-get_or, get_or-lt, first_end, last_end, on_at,
}
use model3d.RectSet.Halves.{
  is_below, halves-IsDistinct, IsKey-halves, halves-IsKey, covers-halves, length-halves,
}
use model3d.RectSet.Solid.{longer_axis, split_axis, halves, split_rect_set}

-- the number is that of the planes on the axis
abbrev HasLength : Splits → ℕ × ℕ → Type 0
HasLength s p = p.1 ≡ length (splits_at s p.0)

longer_axis-HasLength :
    (s : Splits) (i : ℕ) (p : ℕ × ℕ)
    → HasLength s p
    → HasLength s (longer_axis s i p)
      × (length (splits_at s i) ≤ (longer_axis s i p).1)
      × (p.1 ≤ (longer_axis s i p).1)
unfolding longer_axis
longer_axis-HasLength s i p h = elim (Bool-cases (leb p.1 (length (splits_at s i)))) [
  | inl longer ↦ rw longer (refl, omega arith, ground arith)
  | inr shorter ↦ rw shorter (h, ground arith, omega arith)
]

split_axis-HasLength :
    (s : Splits)
    → HasLength s (split_axis s) × ((axis : ℕ) → length (splits_at s axis) ≤ (split_axis s).1)
unfolding split_axis
split_axis-HasLength s =
    let p0 = longer_axis s 0 (0, 0) in
    let start : p0 ≡ (0, length s.x) = unfold longer_axis in ground arith in
    let h0 : HasLength s p0 = subst (HasLength s) (sym start) refl in
    let (h1, here1, more1) = longer_axis-HasLength s 1 p0 h0 in
    let (h2, here2, more2) = longer_axis-HasLength s 2 (longer_axis s 1 p0) h1 in
    let on_x : length s.x ≤ p0.1 =
      subst (λ (p : ℕ × ℕ). length s.x ≤ p.1) (sym start) (omega arith) in
    (h2, longest _ (omega (arith, on_x, more1, more2)) (omega (arith, here1, more2)) here2)
  where
    longest :
        (n : ℕ)
        → length s.x ≤ n
        → length s.y ≤ n
        → length s.z ≤ n
        → (axis : ℕ) → length (splits_at s axis) ≤ n
    longest n x y z zero = x
    longest n x y z (suc zero) = y
    longest n x y z (suc (suc axis)) = z

-- two planes bound one gap
one_gap :
    (vs : List Float) (a b c d : Float)
    → length vs ≤ 2
    → IsGap vs a b
    → IsGap vs c d
    → (a ≡ c) × (b ≡ d)
one_gap [] a b c d short g h = absurd g.low
one_gap (v ∷ []) a b c d short g h = ground (arith, g.low, g.high, g.proper)
one_gap (v ∷ w ∷ []) a b c d short g h =
    ground (arith, g.low, g.high, g.proper, h.low, h.high, h.proper)
one_gap (u ∷ v ∷ w ∷ vs) a b c d short g h = absurd (omega (arith, short))

one_cell :
    (s : Splits) (q t : Rect)
    → ((axis : ℕ) → length (splits_at s axis) ≤ 2)
    → IsCell s q
    → IsCell s t
    → q ≡ t
one_cell s q t short c d =
    let x = one_gap s.x _ _ _ _ (short 0) c.on_x d.on_x in
    let y = one_gap s.y _ _ _ _ (short 1) c.on_y d.on_y in
    let z = one_gap s.z _ _ _ _ (short 2) c.on_z d.on_z in
    (rect_eq.beq_iff q t).0 (ground (arith, x, y, z))

two_keys :
    (m : GoMap Rect Bool)
    → IsDistinct m
    → 2 ≤ length m
    → (q t : Rect) × IsKey q m × IsKey t m × (q ≢ t)
unfolding GoMap.lookup
two_keys [] d h = absurd (omega (arith, h))
two_keys (e ∷ []) d h = absurd (omega (arith, h))
two_keys ((q, b) ∷ (t, b') ∷ m) d h = (
  q,
  t,
  head-IsKey q b ((t, b') ∷ m),
  tail-IsKey t q b ((t, b') ∷ m) (head-IsKey t b' m),
  λ e. ground (arith, d.0, ==_refl q, (rect_eq.beq_iff t q).1 (sym e)),
)

-- several boxes have three planes on some axis
pub split_axis-ge :
    (r : RectSet)
    → IsGrid r
    → 2 ≤ length r.rects
    → 3 ≤ length (splits_at r.splits (split_axis r.splits).0)
split_axis-ge r g many =
    let (len, longest) = split_axis-HasLength r.splits in
    let (q, t, in_q, in_t, differ) = two_keys r.rects g.distinct many in
    elim (Bool-cases (leb 3 (split_axis r.splits).1)) [
      | inl enough ↦ ground (arith, len)
      | inr few ↦ absurd (
          differ (
            one_cell r.splits q t (λ axis. ground (arith, longest axis)) (g.cells q in_q)
              (g.cells t in_t)))
    ]

-- the two sets that a set is split into at a plane
pub record IsSplit (r rs1 rs2 : RectSet) (axis : ℕ) (cutoff : Float) : Type 0 where
  pub grid1 : IsGrid rs1
  pub grid2 : IsGrid rs2
  pub tight1 : IsTight rs1
  pub tight2 : IsTight rs2
  pub some1 : 0 < length rs1.rects
  pub some2 : 0 < length rs2.rects
  pub fewer : length rs1.rects + length rs2.rects ≤ length r.rects
  pub covered : (p : Coord3D) → (covers rs1.rects p || covers rs2.rects p) ≡ covers r.rects p
  pub below : (p : Coord3D) → cutoff < coord_at p axis → covers rs1.rects p ≡ false
  pub above : (p : Coord3D) → coord_at p axis < cutoff → covers rs2.rects p ≡ false

length-key : (m : GoMap Rect Bool) (q : Rect) → IsKey q m → 0 < length m
unfolding GoMap.lookup
length-key [] q k = absurd (ground (arith, k))
length-key (e ∷ m) q k = omega arith

module _ (r : RectSet) (axis : ℕ) (g : IsGrid r) (t : IsTight r)
    (many : 3 ≤ length (splits_at r.splits axis)) where
  abbrev pub middle : Float
  middle = get_or (splits_at r.splits axis) (length (splits_at r.splits axis) / 2) 0

  abbrev pub parts : GoMap Rect Bool × GoMap Rect Bool
  parts = halves axis middle r.rects ([], [])

  middle-In : In middle (splits_at r.splits axis)
  middle-In = get_or-In (splits_at r.splits axis) _ (omega (arith, many))

  in_below : (q : Rect) → IsKey q parts.0 → IsKey q r.rects × (is_below axis middle q ≡ true)
  in_below q k = elim ((halves-IsKey axis middle r.rects ([], []) q).0 k) [
    | inl found ↦ found
    | inr none_left ↦ absurd (unfold GoMap.lookup in ground (arith, none_left))
  ]

  in_above : (q : Rect) → IsKey q parts.1 → IsKey q r.rects × (is_below axis middle q ≡ false)
  in_above q k = elim ((halves-IsKey axis middle r.rects ([], []) q).1 k) [
    | inl found ↦ found
    | inr none_left ↦ absurd (unfold GoMap.lookup in ground (arith, none_left))
  ]

  some_boxes : 0 < length r.rects
  some_boxes = nonempty_map t
    where
      nonempty_map : IsTight r → 0 < length r.rects
      nonempty_map tight = length-key r.rects _ (tight axis middle middle-In).1

  below_nonempty : 0 < length parts.0
  below_nonempty =
      let vs = splits_at r.splits axis in
      let (q, key, e) = first_end r axis g t some_boxes in
      let before =
        get_or-lt vs 0 (length vs / 2) (IsSorted-at r axis g) (omega (arith, many))
          (omega (arith, many)) in
      length-key parts.0 q
        ((IsKey-halves axis middle r.rects ([], []) q key).0 (ground (arith, e, before)))

  above_nonempty : 0 < length parts.1
  above_nonempty =
      let vs = splits_at r.splits axis in
      let (q, key, e) = last_end r axis g t some_boxes in
      let after =
        get_or-lt vs (length vs / 2) (length vs - 1) (IsSorted-at r axis g) (omega (arith, many))
          (omega (arith, many)) in
      let c = cell_at r.splits q axis (g.cells q key) in
      length-key parts.1 q (
        (IsKey-halves axis middle r.rects ([], []) q key).1
          (ground (arith, e, after, c.free middle middle-In)))

  below-free : (p : Coord3D) → middle < coord_at p axis → covers parts.0 p ≡ false
  below-free p beyond = elim (Bool-cases (covers parts.0 p)) [
    | inr none_left ↦ none_left
    | inl covered ↦
        let (q, key, inside) = covers-key parts.0 p covered in
        let (old, side) = in_below q key in
        let c = cell_at r.splits q axis (g.cells q old) in
        let on = on_at q p axis (contains-IsOn q p inside) in
        absurd (ground (arith, side, on.1, beyond, c.free middle middle-In))
  ]

  above-free : (p : Coord3D) → coord_at p axis < middle → covers parts.1 p ≡ false
  above-free p before = elim (Bool-cases (covers parts.1 p)) [
    | inr none_left ↦ none_left
    | inl covered ↦
        let (q, key, inside) = covers-key parts.1 p covered in
        let (old, side) = in_above q key in
        let on = on_at q p axis (contains-IsOn q p inside) in
        absurd (ground (arith, side, on.0, before))
  ]

  abbrev pub halves_of : (m : GoMap Rect Bool) → RectSet
  halves_of m = rebuild_splits (record new_rect_set { rects = m })

  pub parts-IsSplit : IsSplit r (halves_of parts.0) (halves_of parts.1) axis middle
  unfolding new_rect_set
  parts-IsSplit =
      let d = halves-IsDistinct axis middle r.rects ([], []) (tt, tt) in
      record {
        grid1 =
            unfold rebuild_splits in
            rebuild-IsGrid r.splits parts.0 d.0 (λ q k. g.cells q (in_below q k).0);
        grid2 =
            unfold rebuild_splits in
            rebuild-IsGrid r.splits parts.1 d.1 (λ q k. g.cells q (in_above q k).0);
        tight1 = rebuild-IsTight _;
        tight2 = rebuild-IsTight _;
        some1 = unfold rebuild_splits in below_nonempty;
        some2 = unfold rebuild_splits in above_nonempty;
        fewer = unfold rebuild_splits in omega (arith, length-halves axis middle r.rects ([], []));
        covered = λ p.
            unfold rebuild_splits in
            covers-halves axis middle r.rects ([], []) p ∙ (unfold covers in ground arith);
        below = unfold rebuild_splits in below-free;
        above = unfold rebuild_splits in above-free;
      }

-- splitRectSet halves a set of several boxes
pub split_rect_set-IsSplit :
    (r : RectSet)
    → IsGrid r
    → IsTight r
    → 2 ≤ length r.rects
    → (rs1 rs2 : RectSet) × (axis : ℕ) × (cutoff : Float) × (split_rect_set r
        ≡ some (rs1, rs2, axis, cutoff))
      × IsSplit r rs1 rs2 axis cutoff
unfolding split_rect_set
split_rect_set-IsSplit r g t many =
    let axis = (split_axis r.splits).0 in
    let enough = split_axis-ge r g many in
    let vs = splits_at r.splits axis in
    let found : get_elem? vs ((split_axis r.splits).1 / 2) ≡ some (middle r axis g t enough) =
      ap (λ n. get_elem? vs (n / 2)) (split_axis-HasLength r.splits).0
      ∙ get_elem?-get_or vs (length vs / 2) (omega (arith, enough)) in
    let two : ltb (length r.rects) 2 ≡ false = ground arith in
    (
      halves_of r axis g t enough (parts r axis g t enough).0,
      halves_of r axis g t enough (parts r axis g t enough).1,
      axis,
      middle r axis g t enough,
      rw (two, found) refl,
      parts-IsSplit r axis g t enough,
    )
