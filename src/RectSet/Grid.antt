-- ===== src/RectSet/Grid.antt =====
-- toolbox3d/rect_set.go: the boxes of a set as cells of the grid of its planes, and the cuts of addSplit.
use mathlib.Core.Path.{subst}
use model3d.Base.{
  eq_beq, ℕ, zero, suc, ◌<◌, ◌≡◌, refl, sym, ap, ◌∙◌, ◌⊎◌, inl, inr, Bool, true, false, ◌||◌, none,
  List, [], ◌∷◌, arith, leb, nat_beq, if◌then◌else◌, ◌==◌, nat_eq, Bool-cases, is_some, length,
  get_or, count,
}
use model3d.GoMap
use model3d.GoMap.{GoMap, IsDistinct, keys, count-keys}
use model3d.Coords.{Float, coord_eq, coord_zero, Rect, rect_eq}
use model3d.RectSet.{
  RectSet, Splits, splits_at, with_splits, split_rect, cut_rect, cut_rects, rect_slice,
  search_floats, add_split, add_value,
}
use model3d.RectSet.Cover.{is_cut}
use model3d.RectSet.Cuts.{Pending, Pending-head, cut_rect-Pending, count-rect_slice, slice-Pending}
use model3d.RectSet.Values.{
  IsSorted, IsGap, IsGap-keep, IsGap-cut, values_with-eq, SearchesInside, gap-SearchesInside,
  add_value-new,
}

-- on each axis the box lies between two neighbouring planes
pub record IsCell (s : Splits) (r : Rect) : Type 0 where
  pub on_x : IsGap s.x r.min_val.x r.max_val.x
  pub on_y : IsGap s.y r.min_val.y r.max_val.y
  pub on_z : IsGap s.z r.min_val.z r.max_val.z

-- the planes are sorted, and the boxes are cells of their grid, each held once
pub record IsGrid (r : RectSet) : Type 0 where
  pub sorted : IsSorted r.splits.x × IsSorted r.splits.y × IsSorted r.splits.z
  pub distinct : IsDistinct r.rects
  pub cells : (q : Rect) → is_some (GoMap.lookup q r.rects) ≡ true → IsCell r.splits q

-- the planes with one more
abbrev pub more_splits : Splits → ℕ → Float → Splits
more_splits s axis value = with_splits s axis (add_value value (splits_at s axis))

pub IsCell-keep :
    (s : Splits) (axis : ℕ) (value : Float) (q : Rect)
    → IsCell s q
    → is_cut q axis value ≡ false
    → IsCell (more_splits s axis value) q
unfolding split_rect
IsCell-keep s zero value q c whole = record {
  on_x = IsGap-keep s.x q.min_val.x q.max_val.x value c.on_x (ground arith);
  on_y = c.on_y;
  on_z = c.on_z;
}
IsCell-keep s (suc zero) value q c whole = record {
  on_x = c.on_x;
  on_y = IsGap-keep s.y q.min_val.y q.max_val.y value c.on_y (ground arith);
  on_z = c.on_z;
}
IsCell-keep s (suc (suc axis)) value q c whole = record {
  on_x = c.on_x;
  on_y = c.on_y;
  on_z = IsGap-keep s.z q.min_val.z q.max_val.z value c.on_z (ground arith);
}

IsCell-cut :
    (s : Splits) (axis : ℕ) (value : Float) (q : Rect)
    → IsCell s q
    → is_cut q axis value ≡ true
    → IsCell (more_splits s axis value) (split_rect q axis value).0
      × IsCell (more_splits s axis value) (split_rect q axis value).1
unfolding split_rect
IsCell-cut s zero value q c cut =
    let halves = IsGap-cut s.x q.min_val.x q.max_val.x value c.on_x (ground arith) (ground arith) in
    let out : (leb value q.min_val.x || leb q.max_val.x value) ≡ false = ground arith in
    rw out (
      record { on_x = halves.0; on_y = c.on_y; on_z = c.on_z },
      record { on_x = halves.1; on_y = c.on_y; on_z = c.on_z },
    )
IsCell-cut s (suc zero) value q c cut =
    let halves = IsGap-cut s.y q.min_val.y q.max_val.y value c.on_y (ground arith) (ground arith) in
    let out : (leb value q.min_val.y || leb q.max_val.y value) ≡ false = ground arith in
    rw out (
      record { on_x = c.on_x; on_y = halves.0; on_z = c.on_z },
      record { on_x = c.on_x; on_y = halves.1; on_z = c.on_z },
    )
IsCell-cut s (suc (suc axis)) value q c cut =
    let halves = IsGap-cut s.z q.min_val.z q.max_val.z value c.on_z (ground arith) (ground arith) in
    let out : (leb value q.min_val.z || leb q.max_val.z value) ≡ false = ground arith in
    rw out (
      record { on_x = c.on_x; on_y = c.on_y; on_z = halves.0 },
      record { on_x = c.on_x; on_y = c.on_y; on_z = halves.1 },
    )

pub IsCell-whole :
    (s : Splits) (axis : ℕ) (value : Float) (q : Rect)
    → IsCell (more_splits s axis value) q
    → is_cut q axis value ≡ false
unfolding split_rect
IsCell-whole s zero value q c = ground (arith, c.on_x.free value (add_value-new value s.x))
IsCell-whole s (suc zero) value q c = ground (arith, c.on_y.free value (add_value-new value s.y))
IsCell-whole s (suc (suc axis)) value q c =
    ground (arith, c.on_z.free value (add_value-new value s.z))

module _ (s : Splits) (axis : ℕ) (value : Float) where
  -- a box is a cell of the new grid, or a cell of the old one that is still to be cut
  CutsLeft : List Rect → GoMap Rect Bool → Type 0
  CutsLeft rs m =
      (q : Rect)
      → is_some (GoMap.lookup q m) ≡ true
      → IsCell (more_splits s axis value) q
        ⊎ (IsCell s q × (0 < count q rs) × (is_cut q axis value ≡ true))

  CutsLeft-whole :
      (r : Rect) (rs : List Rect) (m : GoMap Rect Bool)
      → is_cut r axis value ≡ false
      → CutsLeft (r ∷ rs) m
      → CutsLeft rs m
  unfolding CutsLeft
  CutsLeft-whole r rs m whole left q here = elim (left q here) [
    | inl done ↦ inl done
    | inr (c, n, cut) ↦ elim (Bool-cases (r == q)) [
      | inl same ↦
          absurd (ground (arith, ap (λ t. is_cut t axis value) ((rect_eq.beq_iff r q).0 same)))
      | inr other ↦ inr (c, ground arith, cut)
    ]
  ]

  old-IsCell :
      (r : Rect) (rs : List Rect) (m : GoMap Rect Bool)
      → is_cut r axis value ≡ true
      → is_some (GoMap.lookup r m) ≡ true
      → CutsLeft (r ∷ rs) m
      → IsCell s r
  unfolding CutsLeft
  old-IsCell r rs m cut there left = elim (left r there) [
    | inl done ↦ absurd (cc (cut, IsCell-whole s axis value r done))
    | inr (c, n, again) ↦ c
  ]

  CutsLeft-cut :
      (r : Rect) (rs : List Rect) (m : GoMap Rect Bool)
      → is_cut r axis value ≡ true
      → is_some (GoMap.lookup r m) ≡ true
      → CutsLeft (r ∷ rs) m
      → CutsLeft rs (
          GoMap.insert
            (split_rect r axis value).1
            true
            (GoMap.insert (split_rect r axis value).0 true (GoMap.delete r m)))
  unfolding CutsLeft
  CutsLeft-cut r rs m cut there left q here =
      let halves = IsCell-cut s axis value r (old-IsCell r rs m cut there left) cut in
      let r1 = (split_rect r axis value).0 in
      let r2 = (split_rect r axis value).1 in
      elim (Bool-cases (r2 == q)) [
        | inl same ↦
            inl (subst (IsCell (more_splits s axis value)) ((rect_eq.beq_iff r2 q).0 same) halves.1)
        | inr not_second ↦ elim (Bool-cases (r1 == q)) [
          | inl same ↦
              inl
                (subst (IsCell (more_splits s axis value)) ((rect_eq.beq_iff r1 q).0 same) halves.0)
          | inr not_first ↦
              let found : GoMap.lookup q
                    (GoMap.insert r2 true (GoMap.insert r1 true (GoMap.delete r m)))
                  ≡ (if r == q then none else GoMap.lookup q m) =
                GoMap.lookup-insert q r2 true _
                ∙ rw not_second
                    (GoMap.lookup-insert q r1 true _ ∙ rw not_first (GoMap.lookup-delete q r m)) in
              elim (Bool-cases (r == q)) [
                | inl same ↦ absurd (ground (arith, found, here, same))
                | inr other ↦ elim (left q (sym (ap is_some (found ∙ rw other refl)) ∙ here)) [
                  | inl done ↦ inl done
                  | inr (c, n, again) ↦ inr (c, ground (arith, other), again)
                ]
              ]
        ]
      ]

  cut_rect-CutsLeft :
      (r : Rect) (rs : List Rect) (m : GoMap Rect Bool)
      → Pending (r ∷ rs) axis value m
      → CutsLeft (r ∷ rs) m
      → CutsLeft rs (cut_rect axis value r m)
  unfolding cut_rect
  cut_rect-CutsLeft r rs m pending left = elim (Bool-cases (is_cut r axis value)) [
    | inr whole ↦ rw whole (CutsLeft-whole r rs m whole left)
    | inl cut ↦ rw cut (CutsLeft-cut r rs m cut (Pending-head axis value r rs m pending cut) left)
  ]

  cut_rects-cells :
      (rs : List Rect) (m : GoMap Rect Bool)
      → Pending rs axis value m
      → CutsLeft rs m
      → CutsLeft [] (cut_rects axis value rs m)
  unfolding cut_rects
  cut_rects-cells [] m pending left = left
  cut_rects-cells (r ∷ rs) m pending left =
      cut_rects-cells rs (cut_rect axis value r m) (cut_rect-Pending axis value r rs m pending)
        (cut_rect-CutsLeft r rs m pending left)

  -- the cells after the loop over the result of rectSlice
  pub all_cut :
      (m : GoMap Rect Bool)
      → IsDistinct m
      → ((q : Rect) → is_some (GoMap.lookup q m) ≡ true → IsCell s q)
      → (q : Rect) → is_some (GoMap.lookup q (cut_rects axis value (rect_slice m) m)) ≡ true
      → IsCell (more_splits s axis value) q
  unfolding CutsLeft
  all_cut m d cells q here =
      let start : CutsLeft (rect_slice m) m = λ r there. elim (Bool-cases (is_cut r axis value)) [
        | inr whole ↦ inl (IsCell-keep s axis value r (cells r there) whole)
        | inl cut ↦ inr (cells r there, count-rect_slice r m d there, cut)
      ] in
      elim (cut_rects-cells (rect_slice m) m (slice-Pending axis value m d) start q here) [
        | inl done ↦ done
        | inr (c, n, cut) ↦ absurd (omega arith)
      ]

-- with_splits of what is there already
with_splits_same : (s : Splits) (axis : ℕ) → with_splits s axis (splits_at s axis) ≡ s
with_splits_same s zero = refl
with_splits_same s (suc zero) = refl
with_splits_same s (suc (suc axis)) = refl

-- addSplit adds the plane to those of its axis
pub splits-add_split :
    (r : RectSet) (axis : ℕ) (value : Float)
    → (add_split r axis value).splits ≡ more_splits r.splits axis value
unfolding add_split
splits-add_split r axis value =
    let vs = splits_at r.splits axis in
    let idx = search_floats vs value in
    let same = values_with-eq vs value in
    elim (Bool-cases (nat_beq idx (length vs))) [
      | inl last ↦ rw last (ap (with_splits r.splits axis) (sym (rw last refl) ∙ same))
      | inr not_last ↦ elim (Bool-cases (nat_beq (get_or vs idx 0) value)) [
        | inl found ↦
            rw (not_last, found)
              (sym (with_splits_same r.splits axis)
                ∙ ap (with_splits r.splits axis) (sym (rw (not_last, found) refl) ∙ same))
        | inr not_found ↦
            rw (not_last, not_found)
              (ap (with_splits r.splits axis) (sym (rw (not_last, not_found) refl) ∙ same))
      ]
    ]

pub axis_cut :
    (s : Splits) (axis : ℕ) (value : Float) (q : Rect)
    → IsCell s q
    → IsSorted s.x × IsSorted s.y × IsSorted s.z
    → is_cut q axis value ≡ true
    → SearchesInside (splits_at s axis) value
unfolding split_rect
axis_cut s zero value q c d cut =
    gap-SearchesInside s.x q.min_val.x q.max_val.x value d.0 c.on_x (ground arith) (ground arith)
axis_cut s (suc zero) value q c d cut =
    gap-SearchesInside s.y q.min_val.y q.max_val.y value d.1 c.on_y (ground arith) (ground arith)
axis_cut s (suc (suc axis)) value q c d cut =
    gap-SearchesInside s.z q.min_val.z q.max_val.z value d.2 c.on_z (ground arith) (ground arith)
