-- ===== src/Kernel/Semaphore.antt =====
-- kernel/semaphore.c
pub mod Permits
use kernelpanic.Common.{
  ℕ, zero, suc, ◌+◌, ◌-◌, ◌*◌, ◌/◌, ◌%◌, ◌^◌, ◌≤◌, ◌<◌, min, ◌≡◌, refl, sym, ap, ap₂, ◌∙◌, subst,
  ◌≢◌, ◌⊎◌, inl, inr, Bool, true, false, not, ◌&&◌, ◌||◌, Option, none, some, List, [], ◌∷◌, ◌++◌,
  append-nil, append_assoc, arith, ltb, leb, ◌==◌, if◌then◌else◌, Bool-cases, ltb→lt, ltb→le,
  eqb→eq, eqb→ne, eqb_of_ne, eqb_refl, length, get_or, set, take, drop, replicate, length-append,
  length-set, length-replicate, length-take, length-drop, take-append-drop, get_or-set_self,
  get_or-set_ne, length-snoc, prefix_of_append,
}
use kernelpanic.Common.Outcome.{Outcome, ok, panic, ◌>>=◌, ◌>>◌, assert}
use kernelpanic.Utils.Fifo
use kernelpanic.Kernel.State.{
  Kernel, LockingState, ready, blocking, acquired, ResourceState, shared, exclusive, Owner, thread,
  plain, LockingContext,
}
use kernelpanic.Kernel.Locking.{locking_start, locking_end, acquire, block}

-- `struct SEMAPHORE`
pub record Semaphore : Type 0 where
  pub count : ℕ
  pub waiting : List ℕ

-- `SemaphoreInit`
unfoldable pub init : ℕ → Semaphore
init count = record { count = count; waiting = [] }

-- `SemaphoreDown`
unfoldable pub down : Semaphore → Option ℕ → Kernel → Outcome (Semaphore × Kernel)
unfolding Fifo.enqueue locking_start
down lock context k0 = do
  let k = locking_start k0
  (lock', k') ←
      if lock.count == 0
      then (do
        (link, k') ← block none context k
        ok (record lock { waiting = Fifo.enqueue link lock.waiting }, k'))
      else (do k' ← acquire context k; ok (record lock { count = lock.count - 1 }, k'))
  k'' ← locking_end k'
  ok (lock', k'')

-- `SemaphoreUp`. The count is a `size_t`.
unfoldable pub up : Semaphore → Kernel → Outcome (Semaphore × Kernel)
unfolding Fifo.pop locking_start
up lock k0 = do
  let k = locking_start k0
  (lock', k') ← elim (Fifo.pop lock.waiting) [
    | some (context, rest) ↦ do
      k' ← acquire (some context) k
      ok (record lock { waiting = rest }, k')
    | none ↦ ok (record lock { count = (lock.count + 1) % 2 ^ 64 }, k)
  ]
  k'' ← locking_end k'
  ok (lock', k'')
