-- ===== src/RectSet/SolidContains.antt =====
-- toolbox3d/rect_set.go: what the solid of a set contains.
use model3d.Base.{
  eq_beq, ℕ, zero, suc, ◌≤◌, ◌<◌, ◌≡◌, refl, sym, ap, ◌∙◌, inl, inr, Bool, true, false, not, ◌||◌,
  Option, some, [], ◌∷◌, arith, ltb, nat_beq, if◌then◌else◌, ◌==◌, nat_eq, Bool-cases, length,
}
use model3d.GoMap
use model3d.GoMap.{GoMap, IsDistinct}
use model3d.Coords.{
  Coord3D, Float, coord_eq, coord_at, coord_zero, Rect, rect_eq, rect_contains, in_bounds,
}
use model3d.RectSet.{RectSet, splits_at}
use model3d.RectSet.Cover.{covers, between, rect_contains_axes}
use model3d.RectSet.Grid.{IsGrid}
use model3d.RectSet.Kept.{IsKey}
use model3d.RectSet.Ends.{IsTight}
use model3d.RectSet.Extents.{
  point, first_of, last_of, first_end, last_end, min-point, covers-in_bounds,
}
use model3d.RectSet.Splitting.{IsSplit, split_rect_set-IsSplit}
use model3d.RectSet.Built.{Built, Built-IsGrid, Built-IsTight}
use model3d.RectSet.Solid.{
  RectSetSolid, single_rect, divided, rect_set_min, rect_set_max, split_rect_set, divide_solid,
  last_rect, empty_rect, solid_to_depth, new_rect_set_solid, solid_min, solid_max, solid_contains,
}

-- a solid with the points and the bounds of a set
record Answers (r : RectSet) (s : RectSetSolid) : Type 0 where
  contains : (p : Coord3D) → solid_contains s p ≡ covers r.rects p
  low : rect_set_min r ≡ some (solid_min s)
  high : rect_set_max r ≡ some (solid_max s)

lone_key : (r q : Rect) (b : Bool) → IsKey q ((r, b) ∷ []) → r ≡ q
unfolding GoMap.lookup
lone_key r q b k = (rect_eq.beq_iff r q).0 (ground (arith, k))

lone_box :
    (m : GoMap Rect Bool)
    → length m ≡ 1
    → ((p : Coord3D) → rect_contains (last_rect empty_rect m) p ≡ covers m p)
      × ((q : Rect) → IsKey q m → last_rect empty_rect m ≡ q)
unfolding last_rect covers
lone_box [] h = absurd (omega (arith, h))
lone_box ((r, b) ∷ []) h = (λ p. ground arith, λ q k. lone_key r q b k)
lone_box (d ∷ e ∷ m) h = absurd (omega (arith, h))

lone-Answers :
    (r : RectSet)
    → IsGrid r
    → IsTight r
    → length r.rects ≡ 1
    → Answers r (single_rect (last_rect empty_rect r.rects))
unfolding solid_contains solid_min solid_max
lone-Answers r g t one =
    let some_box : 0 < length r.rects = omega (arith, one) in
    let (contained, only) = lone_box r.rects one in
    let box = last_rect empty_rect r.rects in
    let ends = min-point r g some_box in
    let lo : (axis : ℕ) → coord_at box.min_val axis ≡ first_of (splits_at r.splits axis) = λ axis.
      let (q, key, e) = first_end r axis g t some_box in
      ap (λ u. coord_at u.min_val axis) (only q key) ∙ e in
    let hi : (axis : ℕ) → coord_at box.max_val axis ≡ last_of (splits_at r.splits axis) = λ axis.
      let (q, key, e) = last_end r axis g t some_box in
      ap (λ u. coord_at u.max_val axis) (only q key) ∙ e in
    record {
      contains = contained;
      low = ends.0 ∙ ap some (cc (lo 0, lo 1, lo 2));
      high = ends.1 ∙ ap some (cc (hi 0, hi 1, hi 2));
    }

in_half :
    (in_box in_below in_above before behind : Bool)
    → ((in_below || in_above) ≡ true → in_box ≡ true)
    → (before ≡ true → in_above ≡ false)
    → (behind ≡ true → in_below ≡ false)
    → (if not in_box
        then false
        else if before
        then in_below
        else if behind
        then in_above
        else in_below || in_above)
      ≡ (in_below || in_above)
in_half in_box in_below in_above before behind h a b = elim (Bool-cases in_box) [
  | inl inside ↦ ground (arith, inside, a, b)
  | inr outside ↦ ground (arith, outside, h)
]

split-Answers :
    (r rs1 rs2 : RectSet) (axis : ℕ) (cutoff : Float) (below above : RectSetSolid)
    → IsGrid r
    → 0 < length r.rects
    → IsSplit r rs1 rs2 axis cutoff
    → Answers rs1 below
    → Answers rs2 above
    → Answers r (divided axis cutoff below above (point first_of r.splits) (point last_of r.splits))
unfolding solid_contains solid_min solid_max
split-Answers r rs1 rs2 axis cutoff below above g some_box s a1 a2 = record {
  contains = λ p.
      let both =
        ap (λ c. c || solid_contains above p) (a1.contains p)
        ∙ ap (λ c. covers rs1.rects p || c) (a2.contains p)
        ∙ s.covered p in
      in_half (in_bounds (point first_of r.splits) (point last_of r.splits) p)
        (solid_contains below p) (solid_contains above p) (ltb (coord_at p axis) cutoff)
        (ltb cutoff (coord_at p axis)) (λ h. covers-in_bounds r p g (sym both ∙ h))
        (λ before. a2.contains p ∙ s.above p (ground arith))
        (λ behind. a1.contains p ∙ s.below p (ground arith))
      ∙ both;
  low = (min-point r g some_box).0;
  high = (min-point r g some_box).1;
}

divide_solid-eq :
    (build : RectSet → Option RectSetSolid) (r rs1 rs2 : RectSet) (axis : ℕ) (cutoff : Float)
    (below above : RectSetSolid) (lo hi : Coord3D)
    → split_rect_set r ≡ some (rs1, rs2, axis, cutoff)
    → build rs1 ≡ some below
    → build rs2 ≡ some above
    → rect_set_min r ≡ some lo
    → rect_set_max r ≡ some hi
    → divide_solid build r ≡ some (divided axis cutoff below above lo hi)
unfolding divide_solid
divide_solid-eq build r rs1 rs2 axis cutoff below above lo hi found e1 e2 low high =
    rw (found, e1, e2, low, high) refl

-- a set with a box gets its solid, if the depth is at least the number of its boxes
to_depth-Answers :
    (depth : ℕ) (r : RectSet)
    → IsGrid r
    → IsTight r
    → 0 < length r.rects
    → length r.rects ≤ depth
    → (s : RectSetSolid) × (solid_to_depth depth r ≡ some s) × Answers r s
unfolding solid_to_depth
to_depth-Answers zero r g t some_box deep = absurd (omega arith)
to_depth-Answers (suc depth) r g t some_box deep =
    let nonempty : nat_beq (length r.rects) 0 ≡ false = ground arith in
    elim (Bool-cases (nat_beq (length r.rects) 1)) [
      | inl one ↦ (
        single_rect (last_rect empty_rect r.rects),
        rw (nonempty, one) refl,
        lone-Answers r g t (ground arith),
      )
      | inr several ↦
          let (rs1, rs2, axis, cutoff, found, s) = split_rect_set-IsSplit r g t (ground arith) in
          let (below, e1, a1) =
            to_depth-Answers depth rs1 s.grid1 s.tight1 s.some1
              (omega (arith, s.fewer, s.some2, deep)) in
          let (above, e2, a2) =
            to_depth-Answers depth rs2 s.grid2 s.tight2 s.some2
              (omega (arith, s.fewer, s.some1, deep)) in
          let ends = min-point r g some_box in
          (
            divided axis cutoff below above (point first_of r.splits) (point last_of r.splits),
            rw (nonempty, several)
                (divide_solid-eq _ r rs1 rs2 axis cutoff below above _ _ found e1 e2 ends.0 ends.1),
            split-Answers r rs1 rs2 axis cutoff below above g some_box s a1 a2,
          )
    ]

single_point : (c p : Coord3D) → rect_contains (record { min_val = c; max_val = c }) p ≡ (p == c)
unfolding between
single_point c p = ground (arith, rect_contains_axes (record { min_val = c; max_val = c }) p)

-- For every set built with the operations, where each box that is added has a positive extent on
-- each axis, newRectSetSolid ends without a panic in a tree that has the bounds of the set,
-- contains no point outside of them, and contains a point exactly if the set covers it; the tree
-- of a set without boxes contains the origin alone.
pub new_rect_set_solid-contains :
    (r : RectSet)
    → Built r
    → (s : RectSetSolid) × (new_rect_set_solid r ≡ some s)
      × (rect_set_min r ≡ some (solid_min s))
      × (rect_set_max r ≡ some (solid_max s))
      × ((p : Coord3D)
          → (solid_contains s p ≡ (
              if nat_beq (length r.rects) 0 then p == coord_zero.zero_value else covers r.rects p))
            × (solid_contains s p ≡ true → in_bounds (solid_min s) (solid_max s) p ≡ true))
unfolding new_rect_set_solid
new_rect_set_solid-contains r b = elim (Bool-cases (nat_beq (length r.rects) 0)) [
  | inl empty ↦ (
    single_rect empty_rect,
    unfold solid_to_depth in rw empty refl,
    unfold rect_set_min solid_min in rw empty refl,
    unfold rect_set_max solid_max in rw empty refl,
    λ p.
        unfold solid_contains in
        (
          rw empty (single_point coord_zero.zero_value p),
          unfold solid_min solid_max rect_contains in λ h. h,
        ),
  )
  | inr nonempty ↦
      let g = Built-IsGrid r b in
      let (s, e, a) =
        to_depth-Answers (suc (length r.rects)) r g (Built-IsTight r b) (ground arith)
          (omega arith) in
      let ends = min-point r g (ground arith) in
      (
        s,
        e,
        a.low,
        a.high,
        λ p. (
          rw nonempty (a.contains p),
          λ h. cc (a.low, a.high, ends.0, ends.1, covers-in_bounds r p g (sym (a.contains p) ∙ h)),
        ),
      )
]
