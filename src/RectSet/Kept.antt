-- ===== src/RectSet/Kept.antt =====
-- toolbox3d/rect_set.go: Add, AddRectSet and rebuildSplits on a set whose boxes are cells of its grid.
use mathlib.Core.Path.{subst}
use model3d.Base.{
  eq_beq, ℕ, ◌≡◌, refl, sym, ap, ◌∙◌, ◌⊎◌, inl, inr, Bool, true, List, [], ◌∷◌, map, arith, ◌==◌,
  nat_eq, Bool-cases, ==_refl, is_some,
}
use model3d.GoMap
use model3d.GoMap.{GoMap, IsDistinct, keys}
use model3d.Coords.{Float, coord_eq, coord_at, coord_zero, Rect, rect_eq}
use model3d.RectSet.{
  RectSet, Splits, add_value, add_rect_splits, add_all_splits, split_rect_grid, put_rects,
  put_pieces, axis_values, rebuild_splits, add, add_rect_set,
}
use model3d.RectSet.Changes.{add-Covers, add_rect_set-Covers}
use model3d.RectSet.Values.{
  In, IsSorted, In-add_value, add_value-new, add_value-old, add_value-IsSorted,
}
use model3d.RectSet.Grid.{IsCell, IsGrid}
use model3d.RectSet.Exact.{Extends, HasPlanes, IsProper, piece-IsCell}
use model3d.RectSet.Planes.{add_rect_splits-IsGrid, add_all_splits-IsGrid}

-- a key of the map
abbrev pub IsKey : Rect → GoMap Rect Bool → Type 0
IsKey q m = is_some (GoMap.lookup q m) ≡ true

pub head-IsKey : (r : Rect) (b : Bool) (m : GoMap Rect Bool) → IsKey r ((r, b) ∷ m)
unfolding GoMap.lookup
head-IsKey r b m = rw (==_refl r) refl

pub tail-IsKey : (q r : Rect) (b : Bool) (m : GoMap Rect Bool) → IsKey q m → IsKey q ((r, b) ∷ m)
unfolding GoMap.lookup
tail-IsKey q r b m h = elim (Bool-cases (r == q)) [
  | inl same ↦ rw same refl
  | inr other ↦ rw other h
]

-- a key of the map in which the pieces are stored is a piece or was a key before
IsKey-put_rects :
    (rs : List Rect) (m : GoMap Rect Bool) (q : Rect)
    → IsKey q (put_rects rs m)
    → In q rs ⊎ IsKey q m
unfolding put_rects
IsKey-put_rects [] m q h = inr h
IsKey-put_rects (r ∷ rs) m q h = elim (IsKey-put_rects rs (GoMap.insert r true m) q h) [
  | inl later ↦ inl (inr later)
  | inr now ↦ elim (Bool-cases (r == q)) [
    | inl same ↦ inl (inl ((rect_eq.beq_iff r q).0 same))
    | inr other ↦ inr (sym (ap is_some (GoMap.lookup-insert q r true m ∙ rw other refl)) ∙ now)
  ]
]

IsKey-put_pieces :
    (s : Splits) (rs : List Rect) (m : GoMap Rect Bool) (q : Rect)
    → IsKey q (put_pieces s rs m)
    → ((r : Rect) × In r rs × In q (split_rect_grid s r)) ⊎ IsKey q m
unfolding put_pieces
IsKey-put_pieces s [] m q h = inr h
IsKey-put_pieces s (r ∷ rs) m q h =
    elim (IsKey-put_pieces s rs (put_rects (split_rect_grid s r) m) q h) [
      | inl (r', later, piece) ↦ inl (r', inr later, piece)
      | inr now ↦ elim (IsKey-put_rects (split_rect_grid s r) m q now) [
        | inl piece ↦ inl (r, inl refl, piece)
        | inr before ↦ inr before
      ]
    ]

pub keys-IsKey : (m : GoMap Rect Bool) (q : Rect) → In q (map (λ entry. entry.0) m) → IsKey q m
keys-IsKey [] q h = absurd h
keys-IsKey ((r, b) ∷ m) q (inl e) = subst (λ (t : Rect). IsKey t ((r, b) ∷ m)) e (head-IsKey r b m)
keys-IsKey ((r, b) ∷ m) q (inr h) = tail-IsKey q r b m (keys-IsKey m q h)

-- Add keeps the boxes of a set on its grid
pub add-IsGrid : (r : RectSet) (rect : Rect) → IsGrid r → IsProper rect → IsGrid (add r rect)
unfolding add
add-IsGrid r rect g proper =
    let s = add_rect_splits r rect in
    let (grid, planes, more) = add_rect_splits-IsGrid r rect g in
    record {
      sorted = grid.sorted;
      distinct = (add-Covers r rect coord_zero.zero_value g.distinct).1;
      cells = λ q here. elim (IsKey-put_rects (split_rect_grid s.splits rect) s.rects q here) [
        | inl piece ↦ piece-IsCell s.splits rect q grid.sorted planes proper piece
        | inr before ↦ grid.cells q before
      ];
    }

pub cell-HasPlanes :
    (s t : Splits) (q : Rect) → Extends s t → IsCell s q → HasPlanes t q × IsProper q
cell-HasPlanes s t q e c = (
  record {
    min_x = e.on_x q.min_val.x c.on_x.low;
    max_x = e.on_x q.max_val.x c.on_x.high;
    min_y = e.on_y q.min_val.y c.on_y.low;
    max_y = e.on_y q.max_val.y c.on_y.high;
    min_z = e.on_z q.min_val.z c.on_z.low;
    max_z = e.on_z q.max_val.z c.on_z.high;
  },
  record { on_x = c.on_x.proper; on_y = c.on_y.proper; on_z = c.on_z.proper },
)

-- AddRectSet keeps the boxes of a set on its grid
pub add_rect_set-IsGrid : (r r1 : RectSet) → IsGrid r → IsGrid r1 → IsGrid (add_rect_set r r1)
unfolding add_rect_set
add_rect_set-IsGrid r r1 g g1 =
    let s = add_all_splits r r1.splits in
    let (grid, planes, more) = add_all_splits-IsGrid r r1.splits g in
    record {
      sorted = grid.sorted;
      distinct = (add_rect_set-Covers r r1 coord_zero.zero_value g.distinct).1;
      cells = λ q here. elim (IsKey-put_pieces s.splits (keys r1.rects) s.rects q here) [
        | inl (t, h, piece) ↦
            let (ends, proper) =
              cell-HasPlanes r1.splits s.splits t planes (g1.cells t (keys-IsKey r1.rects t h)) in
            piece-IsCell s.splits t q grid.sorted ends proper piece
        | inr before ↦ grid.cells q before
      ];
    }

pub axis_values-IsSorted : (axis : ℕ) (m : GoMap Rect Bool) → IsSorted (axis_values axis m)
unfolding axis_values
axis_values-IsSorted axis [] = tt
axis_values-IsSorted axis ((r, b) ∷ m) =
    add_value-IsSorted (coord_at r.min_val axis) _
      (add_value-IsSorted (coord_at r.max_val axis) _ (axis_values-IsSorted axis m))

-- the ends of the boxes are among the values of the axis
axis_values-ends :
    (axis : ℕ) (m : GoMap Rect Bool) (q : Rect)
    → IsKey q m
    → In (coord_at q.min_val axis) (axis_values axis m)
      × In (coord_at q.max_val axis) (axis_values axis m)
unfolding axis_values GoMap.lookup
axis_values-ends axis [] q h = absurd (ground (arith, h))
axis_values-ends axis ((r, b) ∷ m) q h =
    let rest = axis_values axis m in
    let above = add_value (coord_at r.max_val axis) rest in
    elim (Bool-cases (r == q)) [
      | inl same ↦
          let e = (rect_eq.beq_iff r q).0 same in
          subst
            (λ (t : Rect).
              In (coord_at t.min_val axis) (add_value (coord_at r.min_val axis) above)
              × In (coord_at t.max_val axis) (add_value (coord_at r.min_val axis) above))
            e
            (
              add_value-new (coord_at r.min_val axis) above,
              add_value-old (coord_at r.min_val axis) _ above
                  (add_value-new (coord_at r.max_val axis) rest),
            )
      | inr other ↦
          let (lo, hi) = axis_values-ends axis m q (rw other at h) in
          (
            add_value-old (coord_at r.min_val axis) _ above
                (add_value-old (coord_at r.max_val axis) _ rest lo),
            add_value-old (coord_at r.min_val axis) _ above
                (add_value-old (coord_at r.max_val axis) _ rest hi),
          )
    ]

-- and every value is an end
axis_values-old :
    (axis : ℕ) (m : GoMap Rect Bool) (vs : List Float) (w : Float)
    → ((q : Rect) → IsKey q m → In (coord_at q.min_val axis) vs × In (coord_at q.max_val axis) vs)
    → In w (axis_values axis m)
    → In w vs
unfolding axis_values
axis_values-old axis [] vs w ends h = absurd h
axis_values-old axis ((r, b) ∷ m) vs w ends h =
    let here = ends r (head-IsKey r b m) in
    elim (In-add_value (coord_at r.min_val axis) w _ h) [
      | inl e ↦ subst (λ (u : Float). In u vs) e here.0
      | inr h' ↦ elim (In-add_value (coord_at r.max_val axis) w _ h') [
        | inl e ↦ subst (λ (u : Float). In u vs) e here.1
        | inr later ↦ axis_values-old axis m vs w (λ q k. ends q (tail-IsKey q r b m k)) later
      ]
    ]

-- rebuildSplits keeps cells of a grid on the planes of the boxes alone
pub rebuild-IsGrid :
    (s : Splits) (m : GoMap Rect Bool)
    → IsDistinct m
    → ((q : Rect) → IsKey q m → IsCell s q)
    → IsGrid (rebuild_splits (record { rects = m; splits = s }))
unfolding rebuild_splits
rebuild-IsGrid s m d cells = record {
  sorted = (axis_values-IsSorted 0 m, axis_values-IsSorted 1 m, axis_values-IsSorted 2 m);
  distinct = d;
  cells = λ q here.
      let c = cells q here in
      let x = axis_values-ends 0 m q here in
      let y = axis_values-ends 1 m q here in
      let z = axis_values-ends 2 m q here in
      record {
        on_x = record {
          proper = c.on_x.proper;
          low = x.0;
          high = x.1;
          free = λ w h.
              c.on_x.free w (
                axis_values-old 0 m s.x w (λ t k. ((cells t k).on_x.low, (cells t k).on_x.high)) h);
        };
        on_y = record {
          proper = c.on_y.proper;
          low = y.0;
          high = y.1;
          free = λ w h.
              c.on_y.free w (
                axis_values-old 1 m s.y w (λ t k. ((cells t k).on_y.low, (cells t k).on_y.high)) h);
        };
        on_z = record {
          proper = c.on_z.proper;
          low = z.0;
          high = z.1;
          free = λ w h.
              c.on_z.free w (
                axis_values-old 2 m s.z w (λ t k. ((cells t k).on_z.low, (cells t k).on_z.high)) h);
        };
      };
}
