-- ===== src/Prelude/Panic.antt =====
-- Go code that may panic: `none` is a panic, or a loop of the model whose fuel ran out.
use mathlib.Core.Option.{Option, none, some}

infixl 5 ◌>>=◌
abbrev pub ◌>>=◌ {ℓ κ} : {A : Type ℓ} {B : Type κ} → Option A → (A → Option B) → Option B
none >>= f = none
some a >>= f = f a
