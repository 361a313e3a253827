-- ===== src/Kernel/Barrier.antt =====
-- kernel/barrier.c
pub mod Rounds
use kernelpanic.Common.{
  ℕ, zero, suc, ◌+◌, ◌-◌, ◌*◌, ◌/◌, ◌%◌, ◌^◌, ◌≤◌, ◌<◌, min, ◌≡◌, refl, sym, ap, ap₂, ◌∙◌, subst,
  ◌≢◌, ◌⊎◌, inl, inr, Bool, true, false, not, ◌&&◌, ◌||◌, Option, none, some, List, [], ◌∷◌, ◌++◌,
  append-nil, append_assoc, arith, ltb, leb, ◌==◌, if◌then◌else◌, Bool-cases, ltb→lt, ltb→le,
  eqb→eq, eqb→ne, eqb_of_ne, eqb_refl, length, get_or, set, take, drop, replicate, length-append,
  length-set, length-replicate, length-take, length-drop, take-append-drop, get_or-set_self,
  get_or-set_ne, length-snoc, prefix_of_append,
}
use kernelpanic.Common.Outcome.{Outcome, ok, panic, ◌>>=◌, ◌>>◌, assert}
use kernelpanic.Utils.Fifo
use kernelpanic.Kernel.State.{
  Kernel, LockingState, ready, blocking, acquired, ResourceState, shared, exclusive, Owner, thread,
  plain, LockingContext,
}
use kernelpanic.Kernel.Locking.{locking_start, locking_end, acquire, block}
use kernelpanic.Kernel.Locking.{wake_waiters}

-- `struct BARRIER`
pub record Barrier : Type 0 where
  pub needed : ℕ
  pub present : ℕ
  pub waiting : List ℕ

-- `BarrierInit`
unfoldable pub init : ℕ → Barrier
init count = record { needed = count; present = 0; waiting = [] }

-- `BarrierSync`. `Present` is a `size_t`.
unfoldable pub sync : Barrier → Option ℕ → Kernel → Outcome (Barrier × Kernel)
unfolding Fifo.enqueue locking_start
sync barrier context k0 = do
  let k = locking_start k0
  let present = (barrier.present + 1) % 2 ^ 64
  if barrier.needed == present
      then (do
        k1 ← acquire context k
        k2 ← wake_waiters barrier.waiting k1
        k3 ← locking_end k2
        ok (record barrier { present = 0; waiting = [] }, k3))
      else (do
        (link, k1) ← block none context k
        k2 ← locking_end k1
        ok (record barrier { present = present; waiting = Fifo.enqueue link barrier.waiting }, k2))
