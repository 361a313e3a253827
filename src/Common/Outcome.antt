-- ===== src/Common/Outcome.antt =====
-- A call that may end in a kernel panic: a failed ASSERT (utils/utils.h) of the debug kernel, or an
-- explicit KernelPanic() (kernel/panic.h). Neither returns.
use mathlib.Core.Bool.{Bool, true, false}

pub data Outcome {ℓ} (A : Type ℓ) : Type ℓ where
  ok : A → Outcome A
  panic : Outcome A

infixl 5 ◌>>=◌ ◌>>◌
abbrev pub ◌>>=◌ {ℓ κ} : {A : Type ℓ} {B : Type κ} → Outcome A → (A → Outcome B) → Outcome B
ok a >>= f = f a
panic >>= f = panic

abbrev pub ◌>>◌ {ℓ} : {B : Type ℓ} → Outcome (Unit {0}) → Outcome B → Outcome B
m >> k = m >>= λ _. k

-- `ASSERT( condition )`
abbrev pub assert : Bool → Outcome (Unit {0})
assert true = ok tt
assert false = panic
