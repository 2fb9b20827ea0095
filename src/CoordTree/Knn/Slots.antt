-- ===== src/CoordTree/Knn/Slots.antt =====
-- model3d/coord_tree.go: the slots of knnResults when an entry is put between others.
use model3d.Base.{
  ℕ, zero, suc, ◌+◌, ◌-◌, ◌≤◌, ◌<◌, ◌≡◌, refl, sym, ap, ◌∙◌, inl, inr, List, [], ◌∷◌, ◌++◌, map,
  arith, leb, nat_beq, Eq, ◌==◌, nat_eq, Bool-cases, ==_refl, length, get_or, set, to_nat, count,
}
use model3d.Coords.{Float}
use model3d.RectSet.{search_floats}
use model3d.CoordTree.Build.{IsIn}
use model3d.CoordTree.Knn.{move_up, copy_up}

module _ {A : Type 0} where
  abbrev pub put_at : List A → ℕ → A → List A
  put_at xs zero a = a ∷ xs
  put_at [] (suc i) a = a ∷ []
  put_at (x ∷ xs) (suc i) a = x ∷ put_at xs i a

  -- all but the last
  abbrev pub init_from : A → List A → List A
  init_from x [] = []
  init_from x (y ∷ ys) = x ∷ init_from y ys

  abbrev pub init : List A → List A
  init [] = []
  init (x ∷ xs) = init_from x xs

  abbrev pub last_or : A → List A → A
  last_or z [] = z
  last_or z (x ∷ xs) = last_or x xs

  move_up-append : (x z : A) (xs : List A) → move_up x (xs ++ z ∷ []) ≡ x ∷ xs
  unfolding move_up
  move_up-append x z [] = refl
  move_up-append x z (y ∷ ys) = ap (λ t. x ∷ t) (move_up-append y z ys)

  move_up-init : (x : A) (xs : List A) → move_up x xs ≡ init_from x xs
  unfolding move_up
  move_up-init x [] = refl
  move_up-init x (y ∷ ys) = ap (λ t. x ∷ t) (move_up-init y ys)

  -- a slot was added
  pub set-copy_up :
      (xs : List A) (i : ℕ) (a z : A)
      → i ≤ length xs
      → set (copy_up (xs ++ z ∷ []) i) i a ≡ put_at xs i a
  unfolding copy_up move_up
  set-copy_up [] zero a z h = refl
  set-copy_up [] (suc i) a z h = absurd (omega (arith, h))
  set-copy_up (x ∷ xs) zero a z h = ap (λ t. a ∷ t) (move_up-append x z xs)
  set-copy_up (x ∷ xs) (suc i) a z h = ap (λ t. x ∷ t) (set-copy_up xs i a z (omega (arith, h)))

  init_cons : (x y : A) (ys : List A) → init (x ∷ y ∷ ys) ≡ x ∷ init (y ∷ ys)
  init_cons x y ys = refl

  init-put_at :
      (x a : A) (xs : List A) (i : ℕ) → init_from x (put_at xs i a) ≡ x ∷ init (put_at xs i a)
  init-put_at x a xs zero = refl
  init-put_at x a [] (suc i) = refl
  init-put_at x a (y ∷ ys) (suc i) = refl

  -- and one was not
  pub set-copy_up_full :
      (xs : List A) (i : ℕ) (a : A) → i < length xs → set (copy_up xs i) i a ≡ init (put_at xs i a)
  unfolding copy_up
  set-copy_up_full [] i a h = absurd (omega (arith, h))
  set-copy_up_full (x ∷ xs) zero a h = ap (λ t. a ∷ t) (move_up-init x xs)
  set-copy_up_full (x ∷ xs) (suc i) a h =
      ap (λ t. x ∷ t) (set-copy_up_full xs i a (omega (arith, h))) ∙ sym (init-put_at x a xs i)

  pub length-put_at : (xs : List A) (i : ℕ) (a : A) → length (put_at xs i a) ≡ suc (length xs)
  length-put_at xs zero a = refl
  length-put_at [] (suc i) a = refl
  length-put_at (x ∷ xs) (suc i) a = ap suc (length-put_at xs i a)

  pub length-init : (xs : List A) → length (init xs) ≡ length xs - 1
  length-init [] = refl
  length-init (x ∷ xs) = from x xs ∙ omega arith
    where
      from : (x : A) (xs : List A) → length (init_from x xs) ≡ length xs
      from x [] = refl
      from x (y ∷ ys) = ap suc (from y ys)

  pub last_or-put_at :
      (z a : A) (xs : List A) (i : ℕ) → i < length xs → last_or z (put_at xs i a) ≡ last_or z xs
  last_or-put_at z a [] i h = absurd (omega (arith, h))
  last_or-put_at z a (x ∷ xs) zero h = refl
  last_or-put_at z a (x ∷ []) (suc i) h = absurd (omega (arith, h))
  last_or-put_at z a (x ∷ y ∷ ys) (suc i) h = last_or-put_at x a (y ∷ ys) i (omega (arith, h))

  pub last_or-any : (y z : A) (xs : List A) → 0 < length xs → last_or y xs ≡ last_or z xs
  last_or-any y z [] h = absurd (omega (arith, h))
  last_or-any y z (x ∷ xs) h = refl

  pub get_or-last : (z : A) (xs : List A) → get_or xs (length xs - 1) z ≡ last_or z xs
  get_or-last z [] = refl
  get_or-last z (x ∷ []) =
      let none_behind : length (x ∷ []) - 1 ≡ 0 = omega arith in
      ap (λ i. get_or (x ∷ []) i z) none_behind
  get_or-last z (x ∷ y ∷ ys) =
      ap (λ i. get_or (x ∷ y ∷ ys) i z) step ∙ (get_or-last z (y ∷ ys) ∙ refl)
    where
      step : length (x ∷ y ∷ ys) - 1 ≡ suc (length (y ∷ ys) - 1)
      step = omega arith

module _ {A B : Type 0} (f : A → B) where
  pub map-put_at : (xs : List A) (i : ℕ) (a : A) → map f (put_at xs i a) ≡ put_at (map f xs) i (f a)
  map-put_at xs zero a = refl
  map-put_at [] (suc i) a = refl
  map-put_at (x ∷ xs) (suc i) a = ap (λ t. f x ∷ t) (map-put_at xs i a)

  pub map-init : (xs : List A) → map f (init xs) ≡ init (map f xs)
  map-init [] = refl
  map-init (x ∷ xs) = from x xs
    where
      from : (x : A) (xs : List A) → map f (init_from x xs) ≡ init_from (f x) (map f xs)
      from x [] = refl
      from x (y ∷ ys) = ap (λ t. f x ∷ t) (from y ys)

  pub map-last_or : (z : A) (xs : List A) → last_or (f z) (map f xs) ≡ f (last_or z xs)
  map-last_or z [] = refl
  map-last_or z (x ∷ xs) = map-last_or x xs

  pub length-map : (xs : List A) → length (map f xs) ≡ length xs
  length-map [] = refl
  length-map (x ∷ xs) = ap suc (length-map xs)

module _ {A : Type 0} ⦃e : Eq A⦄ where
  pub count-put_at :
      (q a : A) (xs : List A) (i : ℕ) → count q (put_at xs i a) ≡ to_nat (a == q) + count q xs
  count-put_at q a xs zero = refl
  count-put_at q a [] (suc i) = refl
  count-put_at q a (x ∷ xs) (suc i) = omega (arith, count-put_at q a xs i)

  pub count-init :
      (q z : A) (xs : List A)
      → 0 < length xs
      → count q (init xs) + to_nat (last_or z xs == q) ≡ count q xs
  count-init q z [] h = absurd (omega (arith, h))
  count-init q z (x ∷ xs) h = from x xs
    where
      from :
          (x : A) (xs : List A)
          → count q (init_from x xs) + to_nat (last_or x xs == q) ≡ to_nat (x == q) + count q xs
      from x [] = omega arith
      from x (y ∷ ys) = omega (arith, from y ys)

  pub last_or-IsIn : (z : A) (xs : List A) → 0 < length xs → IsIn (last_or z xs) xs
  last_or-IsIn z [] h = absurd (omega (arith, h))
  last_or-IsIn z (x ∷ []) h = ground (arith, ==_refl x)
  last_or-IsIn z (x ∷ y ∷ ys) h = omega (arith, last_or-IsIn x (y ∷ ys) (omega arith))

abbrev pub IsAscending : List Float → Type 0
IsAscending [] = Unit
IsAscending (d ∷ ds) = ((w : Float) → IsIn w ds → d ≤ w) × IsAscending ds

pub last_or-ge :
    (z : Float) (ds : List Float) (w : Float) → IsAscending ds → IsIn w ds → w ≤ last_or z ds
last_or-ge z [] w a h = absurd (omega (arith, h))
last_or-ge z (d ∷ []) w a h = ground (arith, h)
last_or-ge z (d ∷ f ∷ ds) w a h = elim (Bool-cases (nat_beq d w)) [
  | inl same ↦ ground (arith, same, a.0 (last_or f ds) (last_or-IsIn d (f ∷ ds) (omega arith)))
  | inr other ↦ last_or-ge d (f ∷ ds) w a.1 (omega (arith, rw other at h))
]

pub put-IsAscending :
    (ds : List Float) (d : Float) → IsAscending ds → IsAscending (put_at ds (search_floats ds d) d)
unfolding search_floats
put-IsAscending [] d a = (λ w h. absurd (omega (arith, h)), tt)
put-IsAscending (f ∷ ds) d a = elim (Bool-cases (leb d f)) [
  | inl before ↦ rw before ((λ w h. ground (arith, before, a.0 w, h)), a)
  | inr behind ↦ rw behind (
    (λ w h. ground (arith, behind, a.0 w, count-put_at w d ds (search_floats ds d), h)),
    put-IsAscending ds d a.1,
  )
]

pub init-IsAscending : (ds : List Float) → IsAscending ds → IsAscending (init ds)
init-IsAscending [] a = tt
init-IsAscending (d ∷ []) a = tt
init-IsAscending (d ∷ f ∷ ds) a = (
  λ w h. a.0 w (omega (arith, count-init w 0 (f ∷ ds) (omega arith), h)),
  init-IsAscending (f ∷ ds) a.1,
)

pub search_floats-le : (ds : List Float) (d : Float) → search_floats ds d ≤ length ds
unfolding search_floats
search_floats-le [] d = omega arith
search_floats-le (f ∷ ds) d = ground (arith, search_floats-le ds d)

pub search_floats-within :
    (ds : List Float) (d w : Float) → IsIn w ds → d ≤ w → search_floats ds d < length ds
unfolding search_floats
search_floats-within [] d w h le = absurd (omega (arith, h))
search_floats-within (f ∷ ds) d w h le = ground (arith, search_floats-within ds d w)
