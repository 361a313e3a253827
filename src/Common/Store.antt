-- ===== src/Common/Store.antt =====
-- Objects in memory: a function of their addresses.
use kernelpanic.Common.{arith}
use Prim.Native.Nat.{ℕ}
use mathlib.Core.Path.{◌≡◌, fun_ext}
use mathlib.Core.Logic.{◌≢◌}
use kernelpanic.Common.Bools.{◌==◌, if◌then◌else◌}

-- A write to the object at `a`.
unfoldable pub update {ℓ} : {A : Type ℓ} → (ℕ → A) → ℕ → A → ℕ → A
update f a v b = if b == a then v else f b

pub update_self {ℓ} : {A : Type ℓ} (f : ℕ → A) (a : ℕ) (v : A) → update f a v a ≡ v
unfolding update
update_self f a v = ground arith

pub update_ne {ℓ} : {A : Type ℓ} (f : ℕ → A) (a b : ℕ) (v : A) → b ≢ a → update f a v b ≡ f b
unfolding update
update_ne f a b v h = ground arith

pub update-twice {ℓ} :
    {A : Type ℓ} (f : ℕ → A) (a : ℕ) (u v : A) → update (update f a u) a v ≡ update f a v
unfolding update
update-twice f a u v = fun_ext (λ b. ground arith)
