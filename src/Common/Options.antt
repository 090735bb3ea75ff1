-- ===== src/Common/Options.antt =====
-- The chain of steps that may fail, for `do` blocks.
use mathlib.Core.Logic.{◌≢◌}
use mathlib.Core.Option.{Option, none, some}

infixl 5 ◌>>=◌
abbrev pub ◌>>=◌ {ℓ κ} : {A : Type ℓ} {B : Type κ} → Option A → (A → Option B) → Option B
none >>= f = none
some a >>= f = f a

pub some≢none {ℓ} : {A : Type ℓ} {a : A} → some a ≢ none
some≢none e = cc
