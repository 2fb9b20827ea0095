-- ===== src/RectSet/GridSteps.antt =====
-- toolbox3d/rect_set.go: the grid of a set after addSplit and the operations that add planes with it.
use mathlib.Core.Path.{subst}
use model3d.Base.{
  eq_beq, ℕ, zero, suc, ◌≡◌, sym, refl, inl, inr, true, false, ◌&&◌, arith, ltb, nat_beq, nat_eq,
  Bool-cases, is_some, length, get_or,
}
use model3d.GoMap
use model3d.GoMap.{GoMap, IsDistinct, keys}
use model3d.Coords.{Float, coord_eq, coord_zero, Rect, rect_eq}
use model3d.RectSet.{RectSet, Splits, splits_at, search_floats, add_split}
use model3d.RectSet.Cover.{is_cut}
use model3d.RectSet.Cuts.{covers-add_split}
use model3d.RectSet.Values.{IsSorted, SearchesInside, add_value-IsSorted}
use model3d.Coords.{Coord3D, coord_at}
use model3d.RectSet.{split_rect}
use model3d.RectSet.Cover.{covers}
use model3d.RectSet.Grid.{
  IsCell-whole, IsCell, IsGrid, IsCell-keep, all_cut, axis_cut, more_splits, splits-add_split,
}

-- a box that addSplit leaves alone
uncut-IsCell :
    (r : RectSet) (axis : ℕ) (value : Float) (q : Rect)
    → IsGrid r
    → ¬ (SearchesInside (splits_at r.splits axis) value)
    → is_some (GoMap.lookup q r.rects) ≡ true
    → IsCell (more_splits r.splits axis value) q
uncut-IsCell r axis value q g outside here = elim (Bool-cases (is_cut q axis value)) [
  | inr whole ↦ IsCell-keep r.splits axis value q (g.cells q here) whole
  | inl cut ↦ absurd (outside (axis_cut r.splits axis value q (g.cells q here) g.sorted cut))
]

add_split-cells :
    (r : RectSet) (axis : ℕ) (value : Float) (q : Rect)
    → IsGrid r
    → is_some (GoMap.lookup q (add_split r axis value).rects) ≡ true
    → IsCell (more_splits r.splits axis value) q
unfolding add_split
add_split-cells r axis value q g here =
    let vs = splits_at r.splits axis in
    let idx = search_floats vs value in
    elim (Bool-cases (nat_beq idx (length vs))) [
      | inl last ↦ uncut-IsCell r axis value q g (λ i. cc (last, i.not_last)) (rw last at here)
      | inr not_last ↦ elim (Bool-cases (nat_beq (get_or vs idx 0) value)) [
        | inl found ↦
            uncut-IsCell r axis value q g (λ i. cc (found, i.not_found))
              (rw (not_last, found) at here)
        | inr not_found ↦ elim (Bool-cases (ltb 0 idx)) [
          | inl inside ↦
              all_cut r.splits axis value r.rects g.distinct g.cells q
                (rw (not_last, not_found, inside) at here)
          | inr first ↦
              uncut-IsCell r axis value q g (λ i. cc (first, i.not_first))
                (rw (not_last, not_found, first) at here)
        ]
      ]
    ]

more_splits-IsSorted :
    (s : Splits) (axis : ℕ) (value : Float)
    → IsSorted s.x × IsSorted s.y × IsSorted s.z
    → let t = more_splits s axis value in IsSorted t.x × IsSorted t.y × IsSorted t.z
more_splits-IsSorted s zero value d = (add_value-IsSorted value s.x d.0, d.1, d.2)
more_splits-IsSorted s (suc zero) value d = (d.0, add_value-IsSorted value s.y d.1, d.2)
more_splits-IsSorted s (suc (suc axis)) value d = (d.0, d.1, add_value-IsSorted value s.z d.2)

-- splitRect cuts a box exactly if the plane is strictly between its ends
not_crossed :
    (q : Rect) (axis : ℕ) (value : Float)
    → is_cut q axis value ≡ false
    → (ltb (coord_at q.min_val axis) value && ltb value (coord_at q.max_val axis)) ≡ false
unfolding split_rect
not_crossed q zero value whole = ground arith
not_crossed q (suc zero) value whole = ground arith
not_crossed q (suc (suc axis)) value whole = ground arith

-- addSplit keeps the boxes of a set on its grid
pub add_split-IsGrid :
    (r : RectSet) (axis : ℕ) (value : Float) → IsGrid r → IsGrid (add_split r axis value)
add_split-IsGrid r axis value g =
    let e = splits-add_split r axis value in
    record {
      sorted =
          subst (λ (s : Splits). IsSorted s.x × IsSorted s.y × IsSorted s.z) (sym e)
            (more_splits-IsSorted r.splits axis value g.sorted);
      distinct = (covers-add_split r axis value coord_zero.zero_value g.distinct).1;
      cells = λ q here.
          subst (λ (s : Splits). IsCell s q) (sym e) (add_split-cells r axis value q g here);
    }

-- When addSplit has put a plane into a set of cells of a grid, no box has the plane strictly
-- between its two ends, the boxes are still cells of the grid, each held once, and no point has
-- moved in or out of the set, although rectSlice pads its result with zero boxes.
pub add_split_lem :
    (r : RectSet) (axis : ℕ) (value : Float)
    → IsGrid r
    → IsGrid (add_split r axis value)
      × ((q : Rect)
          → (is_some (GoMap.lookup q (add_split r axis value).rects)
              && (ltb (coord_at q.min_val axis) value && ltb value (coord_at q.max_val axis)))
            ≡ false)
      × ((p : Coord3D) → covers (add_split r axis value).rects p ≡ covers r.rects p)
add_split_lem r axis value g =
    let apart : (q : Rect)
        → (is_some (GoMap.lookup q (add_split r axis value).rects)
            && (ltb (coord_at q.min_val axis) value && ltb value (coord_at q.max_val axis)))
          ≡ false =
      λ q. elim (Bool-cases (is_some (GoMap.lookup q (add_split r axis value).rects))) [
        | inr gone ↦ rw gone refl
        | inl here ↦
            let c = add_split-cells r axis value q g here in
            rw here (not_crossed q axis value (IsCell-whole r.splits axis value q c))
      ] in
    (add_split-IsGrid r axis value g, apart, λ p. (covers-add_split r axis value p g.distinct).0)
