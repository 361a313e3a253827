-- ===== src/Kernel/Resource.antt =====
-- kernel/resource.c: locks that are held shared by many or exclusively by one.
pub mod Handover
pub mod Exclusion
pub mod Acquire
pub mod Release
use kernelpanic.Common.{
  ℕ, zero, suc, ◌+◌, ◌-◌, ◌*◌, ◌/◌, ◌%◌, ◌^◌, ◌≤◌, ◌<◌, min, ◌≡◌, refl, sym, ap, ap₂, ◌∙◌, subst,
  ◌≢◌, ◌⊎◌, inl, inr, Bool, true, false, not, ◌&&◌, ◌||◌, Option, none, some, List, [], ◌∷◌, ◌++◌,
  append-nil, append_assoc, arith, ltb, leb, ◌==◌, if◌then◌else◌, Bool-cases, ltb→lt, ltb→le,
  eqb→eq, eqb→ne, eqb_of_ne, eqb_refl, length, get_or, set, take, drop, replicate, length-append,
  length-set, length-replicate, length-take, length-drop, take-append-drop, get_or-set_self,
  get_or-set_ne, length-snoc, prefix_of_append,
}
use kernelpanic.Common.Outcome.{Outcome, ok, panic, ◌>>=◌, ◌>>◌, assert}
use kernelpanic.Utils.Fifo
use kernelpanic.Kernel.State.{
  Kernel, LockingState, ready, blocking, acquired, ResourceState, shared, exclusive, Owner, thread,
  plain, LockingContext,
}
use kernelpanic.Kernel.Locking.{locking_start, locking_end, acquire, block}

-- `struct RESOURCE`
pub record Resource : Type 0 where
  pub state : ResourceState
  pub waiting : List ℕ
  pub num_shared : ℕ

-- `ResourceInit`
unfoldable pub init : ResourceState → Resource
init state = record { state = state; waiting = []; num_shared = 0 }

-- The loop of `ResourceWakeThreads`, over the waiting list: the waiters at its front that take
-- the lock are popped and woken.
pub wake_loop : List ℕ → Resource → Kernel → Outcome (Resource × Kernel)
wake_loop [] lock k = ok (record lock { waiting = [] }, k)
wake_loop (cur ∷ rest) lock k = elim (k.contexts cur).wait_state [
  | shared ↦ acquire (some cur) k >>= λ k'.
      wake_loop rest
        (record lock {
          num_shared = (lock.num_shared + 1) % 2 ^ 64;
          state = shared;
          waiting = rest;
        })
        k'
  | exclusive ↦
      if lock.num_shared == 0
      then (acquire (some cur) k >>= λ k'.
          ok (record lock { waiting = rest; state = exclusive }, k'))
      else ok (record lock { waiting = cur ∷ rest }, k)
]

-- `ResourceWakeThreads`
unfoldable pub wake_threads : Resource → Kernel → Outcome (Resource × Kernel)
unfolding wake_loop Fifo.is_empty
wake_threads lock k = do
  assert (lock.num_shared == 0)
  assert (not (Fifo.is_empty lock.waiting))
  wake_loop lock.waiting lock k

-- The tail that every blocking branch of the two lock operations shares.
unfoldable pub wait_in_line :
    ResourceState → Resource → Option ℕ → Kernel → Outcome (Resource × Kernel)
unfolding Fifo.enqueue
wait_in_line how lock context k = do
  (link, k') ← block (some how) context k
  ok (record lock { waiting = Fifo.enqueue link lock.waiting }, k')

-- `ResourceLockShared`
unfoldable pub lock_shared : Resource → Option ℕ → Kernel → Outcome (Resource × Kernel)
unfolding wait_in_line Fifo.is_empty locking_start
lock_shared lock context k0 = do
  let k = locking_start k0
  (lock', k') ←
      if not (Fifo.is_empty lock.waiting)
      then wait_in_line shared lock context k
      else elim lock.state [
        | shared ↦ do
          k' ← acquire context k
          ok (record lock { num_shared = (lock.num_shared + 1) % 2 ^ 64 }, k')
        | exclusive ↦ wait_in_line shared lock context k
      ]
  k'' ← locking_end k'
  ok (lock', k'')

-- `ResourceLockExclusive`
unfoldable pub lock_exclusive : Resource → Option ℕ → Kernel → Outcome (Resource × Kernel)
unfolding wait_in_line Fifo.is_empty locking_start
lock_exclusive lock context k0 = do
  let k = locking_start k0
  (lock', k') ←
      if not (Fifo.is_empty lock.waiting)
      then wait_in_line exclusive lock context k
      else elim lock.state [
        | shared ↦
            if lock.num_shared == 0
            then (do k' ← acquire context k; ok (record lock { state = exclusive }, k'))
            else wait_in_line exclusive lock context k
        | exclusive ↦ wait_in_line exclusive lock context k
      ]
  k'' ← locking_end k'
  ok (lock', k'')

-- `ResourceUnlockShared`. `NumShared--` wraps at 0.
unfoldable pub unlock_shared : Resource → Kernel → Outcome (Resource × Kernel)
unfolding wake_threads Fifo.is_empty locking_start
unlock_shared lock k0 = do
  let k = locking_start k0
  (lock', k') ← elim lock.state [
    | shared ↦
        let lock' = record lock { num_shared = (lock.num_shared + 2 ^ 64 - 1) % 2 ^ 64 } in
        if (lock'.num_shared == 0) && not (Fifo.is_empty lock'.waiting)
        then wake_threads lock' k
        else ok (lock', k)
    | exclusive ↦ panic
  ]
  k'' ← locking_end k'
  ok (lock', k'')

-- `ResourceUnlockExclusive`
unfoldable pub unlock_exclusive : Resource → Kernel → Outcome (Resource × Kernel)
unfolding wake_threads Fifo.is_empty locking_start
unlock_exclusive lock k0 = do
  let k = locking_start k0
  assert (lock.num_shared == 0)
  (lock', k') ← elim lock.state [
    | exclusive ↦
        if Fifo.is_empty lock.waiting
        then ok (record lock { state = shared }, k)
        else wake_threads lock k
    | shared ↦ panic
  ]
  k'' ← locking_end k'
  ok (lock', k'')
