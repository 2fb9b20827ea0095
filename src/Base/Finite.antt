-- ===== src/Base/Finite.antt =====
-- Claims about every number below a bound, by evaluation.
use Prim.Native.Nat.{ℕ, zero, suc, ◌<◌}
use mathlib.Core.Path.{◌≡◌}
use mathlib.Core.Bool.{Bool, true, false}
use mathlib.Core.List.{List, [], ◌∷◌}
use native.Mathlib.Omega.{arith}
use model3d.Base.Tests.{Eq}
use model3d.Base.Counting.{count}

-- the test at the last number first
unfoldable pub all_below : ℕ → (ℕ → Bool) → Bool
all_below zero p = true
all_below (suc n) p = elim (p n) [ true ↦ all_below n p | false ↦ false ]

pub all_below_sound :
    (n : ℕ) (test : ℕ → Bool) (i : ℕ) → all_below n test ≡ true → i < n → test i ≡ true
unfolding all_below
all_below_sound zero test i every below = absurd (omega arith)
all_below_sound (suc n) test i every below = ground (arith, all_below_sound n test i)

module _ {ℓ} {A : Type ℓ} where
  unfoldable pub all_of : (A → Bool) → List A → Bool
  all_of p [] = true
  all_of p (x ∷ xs) = elim (p x) [ true ↦ all_of p xs | false ↦ false ]

module _ {ℓ} {A : Type ℓ} ⦃e : Eq A⦄ where
  pub all_of_sound :
      (p : A → Bool) (xs : List A) (a : A) → all_of p xs ≡ true → 0 < count a xs → p a ≡ true
  unfolding all_of
  all_of_sound p [] a h n = absurd (omega arith)
  all_of_sound p (x ∷ xs) a h n = ground (arith, all_of_sound p xs a, e.beq_iff x a)
