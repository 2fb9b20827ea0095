-- ===== src/Bvh/Members.antt =====
-- The members of lists, by the number of those that pass a test, and the parts of lists.
use model3d.Base.{
  ℕ, zero, suc, ◌+◌, ◌-◌, ◌≤◌, ◌≡◌, refl, ap, Bool, true, not, ◌&&◌, List, [], ◌∷◌, ◌++◌, map,
  arith, if◌then◌else◌, nat_eq, length, take, drop,
}

module _ {ℓ} {A : Type ℓ} where
  -- how many members of a list pass a test
  abbrev pub tally : (A → Bool) → List A → ℕ
  tally p [] = 0
  tally p (x ∷ xs) = if p x then suc (tally p xs) else tally p xs

  -- lists with the same members, in any order
  abbrev pub SameMembers : List A → List A → Type ℓ
  SameMembers xs ys = (p : A → Bool) → tally p xs ≡ tally p ys

  pub tally-append : (p : A → Bool) (xs ys : List A) → tally p (xs ++ ys) ≡ tally p xs + tally p ys
  tally-append p [] ys = omega arith
  tally-append p (x ∷ xs) ys = ground (arith, tally-append p xs ys)

  pub tally-true : (xs : List A) → tally (λ x. true) xs ≡ length xs
  tally-true [] = refl
  tally-true (x ∷ xs) = omega (arith, tally-true xs)

  pub length-same : (xs ys : List A) → SameMembers xs ys → length xs ≡ length ys
  length-same xs ys same = omega (arith, same (λ x. true), tally-true xs, tally-true ys)

  pub tally-take-drop :
      (p : A → Bool) (n : ℕ) (xs : List A) → tally p (take n xs) + tally p (drop n xs) ≡ tally p xs
  tally-take-drop p zero xs = omega arith
  tally-take-drop p (suc n) [] = omega arith
  tally-take-drop p (suc n) (x ∷ xs) = ground (arith, tally-take-drop p n xs)

  pub length-take : (n : ℕ) (xs : List A) → n ≤ length xs → length (take n xs) ≡ n
  length-take zero xs h = refl
  length-take (suc n) [] h = absurd (omega arith)
  length-take (suc n) (x ∷ xs) h = ap suc (length-take n xs (omega arith))

  pub length-drop : (n : ℕ) (xs : List A) → length (drop n xs) ≡ length xs - n
  length-drop zero xs = omega arith
  length-drop (suc n) [] = omega arith
  length-drop (suc n) (x ∷ xs) = omega (arith, length-drop n xs)

  abbrev pub keep : (A → Bool) → List A → List A
  keep f [] = []
  keep f (x ∷ xs) = if f x then x ∷ keep f xs else keep f xs

  pub length-keep : (f : A → Bool) (xs : List A) → length (keep f xs) ≡ tally f xs
  length-keep f [] = refl
  length-keep f (x ∷ xs) = ground (arith, length-keep f xs)

  pub tally-keep : (p f : A → Bool) (xs : List A) → tally p (keep f xs) ≡ tally (λ x. f x && p x) xs
  tally-keep p f [] = refl
  tally-keep p f (x ∷ xs) = ground (arith, tally-keep p f xs)

  pub tally-not : (f : A → Bool) (xs : List A) → tally f xs + tally (λ x. not (f x)) xs ≡ length xs
  tally-not f [] = refl
  tally-not f (x ∷ xs) = ground (arith, tally-not f xs)

  pub length-map : {B : Type ℓ} (f : A → B) (xs : List A) → length (map f xs) ≡ length xs
  length-map f [] = refl
  length-map f (x ∷ xs) = ap suc (length-map f xs)

  pub append_assoc : (xs ys zs : List A) → (xs ++ ys) ++ zs ≡ xs ++ (ys ++ zs)
  append_assoc [] ys zs = refl
  append_assoc (x ∷ xs) ys zs = ap (λ t. x ∷ t) (append_assoc xs ys zs)

  pub append-nil : (xs : List A) → xs ++ [] ≡ xs
  append-nil [] = refl
  append-nil (x ∷ xs) = ap (λ t. x ∷ t) (append-nil xs)

  pub take-append : (n : ℕ) (xs ys : List A) → n ≡ length xs → take n (xs ++ ys) ≡ xs
  take-append zero [] ys e = refl
  take-append zero (x ∷ xs) ys e = absurd (omega arith)
  take-append (suc n) [] ys e = absurd (omega arith)
  take-append (suc n) (x ∷ xs) ys e = ap (λ t. x ∷ t) (take-append n xs ys (omega arith))

  pub drop-append : (n : ℕ) (xs ys : List A) → n ≡ length xs → drop n (xs ++ ys) ≡ ys
  drop-append zero [] ys e = refl
  drop-append zero (x ∷ xs) ys e = absurd (omega arith)
  drop-append (suc n) [] ys e = absurd (omega arith)
  drop-append (suc n) (x ∷ xs) ys e = drop-append n xs ys (omega arith)
