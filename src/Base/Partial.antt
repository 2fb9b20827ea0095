-- ===== src/Base/Partial.antt =====
-- Results that may be missing, chained in `do` blocks: a step after a missing one is not run.
use mathlib.Core.Option.{Option, none, some}

infixl 5 ◌>>=◌
abbrev pub ◌>>=◌ {ℓ κ} : {A : Type ℓ} {B : Type κ} → Option A → (A → Option B) → Option B
none >>= f = none
some a >>= f = f a
