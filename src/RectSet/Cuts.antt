-- ===== src/RectSet/Cuts.antt =====
-- toolbox3d/rect_set.go: the boxes of a set before and after they are cut at a new plane.
use model3d.Base.{
  eq_beq, ℕ, zero, suc, ◌<◌, ◌≡◌, refl, ap, ◌∙◌, inl, inr, Bool, true, false, List, [], ◌∷◌, arith,
  ◌==◌, nat_eq, Bool-cases, ==_refl, is_some, length, replicate, count, count-append,
}
use model3d.GoMap
use model3d.GoMap.{GoMap, IsDistinct, keys, count-keys}
use model3d.Coords.{Coord3D, Float, coord_eq, coord_zero, Rect, rect_eq}
use model3d.RectSet.{RectSet, split_rect, rect_slice, cut_rect, cut_rects, add_split}
use model3d.RectSet.Cover.{
  covers, is_cut, split_rect-contains, covers-insert, covers-delete, covers-lookup,
}

-- the boxes that are still to be cut are in the map, each once
pub Pending : List Rect → ℕ → Float → GoMap Rect Bool → Type 0
Pending rs axis value m =
    (r : Rect)
    → is_cut r axis value ≡ true
    → 0 < count r rs
    → (count r rs ≡ 1) × (is_some (GoMap.lookup r m) ≡ true)

covers-cut_rect :
    (axis : ℕ) (value : Float) (r : Rect) (m : GoMap Rect Bool) (p : Coord3D)
    → (is_cut r axis value ≡ true → is_some (GoMap.lookup r m) ≡ true)
    → covers (cut_rect axis value r m) p ≡ covers m p
unfolding cut_rect
covers-cut_rect axis value r m p there = elim (Bool-cases (is_cut r axis value)) [
  | inr whole ↦ rw whole
  | inl cut ↦
      let (r1, r2, _) = split_rect r axis value in
      rw cut (
        ground (
          arith,
          covers-insert r2 (GoMap.insert r1 true (GoMap.delete r m)) p,
          covers-insert r1 (GoMap.delete r m) p,
          covers-delete r m p,
          covers-lookup r m p (there cut),
          split_rect-contains r axis value p cut,
        ))
]

pub cut_rect-Pending :
    (axis : ℕ) (value : Float) (r : Rect) (rs : List Rect) (m : GoMap Rect Bool)
    → Pending (r ∷ rs) axis value m
    → Pending rs axis value (cut_rect axis value r m)
unfolding Pending cut_rect
cut_rect-Pending axis value r rs m pending q cut here =
    let (r1, r2, _) = split_rect r axis value in
    let m1 = GoMap.delete r m in
    let m2 = GoMap.insert r1 true m1 in
    let same = rect_eq.beq_iff r q in
    elim (Bool-cases (is_cut r axis value)) [
      | inr whole ↦ rw whole (ground (arith, pending q, same))
      | inl cut' ↦ rw cut' (
          ground (
            arith,
            pending q,
            same,
            GoMap.lookup-insert q r2 true m2,
            GoMap.lookup-insert q r1 true m1,
            GoMap.lookup-delete q r m,
          ))
    ]

pub Pending-head :
    (axis : ℕ) (value : Float) (r : Rect) (rs : List Rect) (m : GoMap Rect Bool)
    → Pending (r ∷ rs) axis value m
    → is_cut r axis value ≡ true
    → is_some (GoMap.lookup r m) ≡ true
unfolding Pending
Pending-head axis value r rs m pending cut = (pending r cut (ground (arith, ==_refl r))).1

covers-cut_rects :
    (axis : ℕ) (value : Float) (rs : List Rect) (m : GoMap Rect Bool) (p : Coord3D)
    → Pending rs axis value m
    → covers (cut_rects axis value rs m) p ≡ covers m p
unfolding cut_rects Pending
covers-cut_rects axis value [] m p pending = refl
covers-cut_rects axis value (r ∷ rs) m p pending =
    covers-cut_rects axis value rs (cut_rect axis value r m) p
      (cut_rect-Pending axis value r rs m pending)
    ∙ covers-cut_rect axis value r m p (λ cut. (pending r cut (ground (arith, ==_refl r))).1)

count-replicate : (n : ℕ) (r s : Rect) → (s == r) ≡ false → count r (replicate n s) ≡ 0
count-replicate zero r s e = refl
count-replicate (suc n) r s e = ground (arith, count-replicate n r s e)

abbrev zero_rect : Rect
zero_rect = record { min_val = coord_zero.zero_value; max_val = coord_zero.zero_value }

-- no plane cuts the zero boxes that rectSlice puts in front
zero_not_cut : (axis : ℕ) (value : Float) → is_cut zero_rect axis value ≡ false
unfolding split_rect
zero_not_cut zero value = ground arith
zero_not_cut (suc zero) value = ground arith
zero_not_cut (suc (suc axis)) value = ground arith

zero-ne-cut :
    (r : Rect) (axis : ℕ) (value : Float) → is_cut r axis value ≡ true → (zero_rect == r) ≡ false
zero-ne-cut r axis value cut = elim (Bool-cases (zero_rect == r)) [
  | inr other ↦ other
  | inl same ↦
      let e = (rect_eq.beq_iff zero_rect r).0 same in
      absurd (cc (zero_not_cut axis value, ap (λ q. is_cut q axis value) e))
]

pub slice-Pending :
    (axis : ℕ) (value : Float) (m : GoMap Rect Bool)
    → IsDistinct m
    → Pending (rect_slice m) axis value m
unfolding Pending rect_slice
slice-Pending axis value m d r cut here =
    let padding = count-replicate (length m) r zero_rect (zero-ne-cut r axis value cut) in
    let all = count-append r (replicate (length m) zero_rect) (keys m) in
    ground (arith, padding, all, count-keys r m d)

pub count-rect_slice :
    (r : Rect) (m : GoMap Rect Bool)
    → IsDistinct m
    → is_some (GoMap.lookup r m) ≡ true
    → 0 < count r (rect_slice m)
unfolding rect_slice
count-rect_slice r m d there =
    ground (arith, count-append r (replicate (length m) zero_rect) (keys m), count-keys r m d)

cut_rects-IsDistinct :
    (axis : ℕ) (value : Float) (rs : List Rect) (m : GoMap Rect Bool)
    → IsDistinct m
    → IsDistinct (cut_rects axis value rs m)
unfolding cut_rects cut_rect
cut_rects-IsDistinct axis value [] m d = d
cut_rects-IsDistinct axis value (r ∷ rs) m d =
    let (r1, r2, cut) = split_rect r axis value in
    elim (Bool-cases cut) [
      | inr whole ↦ rw whole (cut_rects-IsDistinct axis value rs m d)
      | inl cut' ↦ rw cut' (
          cut_rects-IsDistinct axis value rs _ (
            GoMap.insert-IsDistinct r2 true _
              (GoMap.insert-IsDistinct r1 true _ (GoMap.delete-IsDistinct r m d))))
    ]

-- addSplit moves no point in or out of a set whose map holds each box once, and the map still holds
-- each box once.
pub covers-add_split :
    (r : RectSet) (axis : ℕ) (value : Float) (p : Coord3D)
    → IsDistinct r.rects
    → (covers (add_split r axis value).rects p ≡ covers r.rects p)
      × IsDistinct (add_split r axis value).rects
unfolding add_split
covers-add_split r axis value p d = ground (
  arith,
  covers-cut_rects axis value (rect_slice r.rects) r.rects p (slice-Pending axis value r.rects d),
  cut_rects-IsDistinct axis value (rect_slice r.rects) r.rects d,
)
