-- ===== src/Bitmap/Invert.antt =====
-- model2d/bitmap.go: the bits of Invert.
use model3d.Base.{
  ℕ, suc, ◌+◌, ◌-◌, ◌*◌, ◌<◌, ◌≡◌, refl, ap, ◌∙◌, inl, inr, Bool, true, false, not, ◌&&◌, some,
  List, [], ◌∷◌, arith, ltb, leb, nat_beq, if◌then◌else◌, nat_eq, Bool-cases, length, get_or, set,
  replicate, length-set, length-replicate,
}
use model3d.Bitmap.{Bitmap, new_bitmap, invert_loop, invert}
use model3d.Bitmap.Fill.{IsValid, at, HasSize, get_or-set, index-less}

invert_loop-at :
    (i : ℕ) (xs res : List Bool)
    → i + length xs ≡ length res
    → (out : List Bool) × (invert_loop i xs res ≡ some out)
      × (length out ≡ length res)
      × ((k : ℕ)
          → get_or out k false ≡ (
              if leb i k && ltb k (length res)
              then not (get_or xs (k - i) false)
              else get_or res k false))
unfolding invert_loop
invert_loop-at i [] res e = (res, refl, refl, λ k. ground (arith, e))
invert_loop-at i (x ∷ xs) res e =
    let less : i < length res = omega arith in
    let small : ltb i (length res) ≡ true = ground arith in
    let set_length = length-set res i (not x) in
    let (out, eq, same, at_k) =
      invert_loop-at (suc i) xs (set res i (not x)) (omega (arith, set_length)) in
    (
      out,
      rw small eq,
      same ∙ set_length,
      λ k.
          at_k k
          ∙ ap
              (λ n.
                if leb (suc i) k && ltb k n
                then not (get_or xs (k - suc i) false)
                else get_or (set res i (not x)) k false)
              set_length
          ∙ one_more i k x xs res less (get_or-set res i k (not x) less),
    )
  where
    one_more :
        (i k : ℕ) (x : Bool) (xs res : List Bool)
        → i < length res
        → get_or (set res i (not x)) k false ≡ (if nat_beq i k then not x else get_or res k false)
        → (if leb (suc i) k && ltb k (length res)
            then not (get_or xs (k - suc i) false)
            else get_or (set res i (not x)) k false)
          ≡ (if leb i k && ltb k (length res)
              then not (get_or (x ∷ xs) (k - i) false)
              else get_or res k false)
    one_more i k x xs res less same = elim (Bool-cases (leb (suc i) k)) [
      | inl later ↦
          let next : k - i ≡ suc (k - suc i) = ground (arith, later) in
          rw next (ground (arith, later, same))
      | inr before ↦ elim (Bool-cases (nat_beq i k)) [
        | inl here ↦
            let first : k - i ≡ 0 = ground (arith, here) in
            rw first (ground (arith, before, here, same, less))
        | inr apart ↦ ground (arith, before, apart, same)
      ]
    ]

-- Invert of a bitmap of the size that it says ends with each bit turned over.
pub invert-get :
    (b : Bitmap)
    → IsValid b
    → (r : Bitmap) × (invert b ≡ some r)
      × HasSize b.width b.height r
      × ((x y : ℕ) → x < b.width → y < b.height → at r x y ≡ not (at b x y))
unfolding invert new_bitmap
invert-get b valid =
    let zeros = replicate (b.width * b.height) false in
    let zeros_length = length-replicate (b.width * b.height) false in
    let (out, eq, same, at_k) =
      invert_loop-at 0 b.bits zeros (omega (arith, valid, zeros_length)) in
    (
      record { bits = out; width = b.width; height = b.height },
      rw eq refl,
      (refl, refl, same ∙ zeros_length),
      λ x y h k.
          let inside = index-less b.width b.height x y h k in
          at_k (x + y * b.width)
          ∙ ground (arith, inside, zeros_length, from_start (x + y * b.width)),
    )
  where
    from_start : (k : ℕ) → get_or b.bits (k - 0) false ≡ get_or b.bits k false
    from_start k = let e : k - 0 ≡ k = omega arith in ap (λ n. get_or b.bits n false) e
