-- ===== src/Kernel/Locking.antt =====
-- kernel/locking.c: the state machine that the locks drive.
pub mod Granted
pub mod Calls
pub mod Blocks
pub mod Wakes
pub mod Waits
use kernelpanic.Common.{
  ℕ, zero, suc, ◌+◌, ◌-◌, ◌*◌, ◌/◌, ◌%◌, ◌^◌, ◌≤◌, ◌<◌, min, ◌≡◌, refl, sym, ap, ap₂, ◌∙◌, subst,
  ◌≢◌, ◌⊎◌, inl, inr, Bool, true, false, not, ◌&&◌, ◌||◌, Option, none, some, List, [], ◌∷◌, ◌++◌,
  append-nil, append_assoc, arith, ltb, leb, ◌==◌, if◌then◌else◌, Bool-cases, ltb→lt, ltb→le,
  eqb→eq, eqb→ne, eqb_of_ne, eqb_refl, length, get_or, set, take, drop, replicate, length-append,
  length-set, length-replicate, length-take, length-drop, take-append-drop, get_or-set_self,
  get_or-set_ne, length-snoc, prefix_of_append,
}
use kernelpanic.Common.Outcome.{Outcome, ok, panic, ◌>>=◌, ◌>>◌, assert}
use kernelpanic.Kernel.State.{
  Kernel, LockingState, ready, blocking, acquired, ResourceState, Owner, thread, plain,
  LockingContext, set_context, set_locking_state, update, idle,
}
use kernelpanic.Kernel.Scheduler.{
  start_critical, end_critical, is_critical, block_on_lock, wake_on_lock,
}

-- `LockingGetContext`: NULL means the active thread's own context.
unfoldable pub get_context : Option ℕ → Kernel → ℕ
get_context none k = k.active
get_context (some c) k = c

-- `LockingStart`
unfoldable pub locking_start : Kernel → Kernel
unfolding start_critical
locking_start k = start_critical k

-- `LockingEnd`
unfoldable pub locking_end : Kernel → Outcome Kernel
unfolding end_critical
locking_end k = end_critical k

-- `LockingWakeNonBlocking`
unfoldable pub wake_non_blocking : ℕ → Kernel → Outcome Kernel
wake_non_blocking c k = elim (k.contexts c).state [
  | ready ↦ ok (set_locking_state k c acquired)
  | blocking ↦ ok (set_locking_state k c acquired)
  | acquired ↦ panic
]

-- `LockingBlockNonBlocking`
unfoldable pub block_non_blocking : ℕ → Kernel → Outcome Kernel
block_non_blocking c k = ok k

-- `context->WakeFunction( context )`
unfoldable pub wake_function : Owner → ℕ → Kernel → Outcome Kernel
unfolding wake_on_lock wake_non_blocking
wake_function thread c k = wake_on_lock c k
wake_function plain c k = wake_non_blocking c k

-- `context->BlockFunction( context )`
unfoldable pub block_function : Owner → ℕ → Kernel → Outcome Kernel
unfolding block_on_lock block_non_blocking
block_function thread c k = block_on_lock c k
block_function plain c k = block_non_blocking c k

abbrev pub is_ready : LockingState → Bool
is_ready ready = true
is_ready blocking = false
is_ready acquired = false

abbrev pub is_acquired : LockingState → Bool
is_acquired ready = false
is_acquired blocking = false
is_acquired acquired = true

-- `LockingAcquire`
unfoldable pub acquire : Option ℕ → Kernel → Outcome Kernel
unfolding is_critical get_context wake_function
acquire context k = do
  assert (is_critical k)
  let c = get_context context k
  assert (not (is_acquired (k.contexts c).state))
  wake_function (k.contexts c).owner c k

-- `context->BlockingContext = * blockingInfo`, if one is given.
unfoldable pub set_blocking_info : Option ResourceState → ℕ → Kernel → Kernel
set_blocking_info none c k = k
set_blocking_info (some w) c k =
    let x = k.contexts c in set_context k c (record x { wait_state = w })

-- `LockingBlock`: the context whose link is returned, and the kernel.
unfoldable pub block : Option ResourceState → Option ℕ → Kernel → Outcome (ℕ × Kernel)
unfolding is_critical get_context block_function set_blocking_info
block info context k = do
  assert (is_critical k)
  let c = get_context context k
  assert (is_ready (k.contexts c).state)
  k' ← block_function (k.contexts c).owner c (set_blocking_info info c k)
  ok (c, set_locking_state k' c blocking)

-- `LockingIsAcquired`
unfoldable pub locking_is_acquired : ℕ → Kernel → Outcome (Bool × Kernel)
unfolding start_critical end_critical
locking_is_acquired c k0 = do
  let k = start_critical k0
  (result, k') ← elim (k.contexts c).state [
    | acquired ↦ ok (true, set_locking_state k c ready)
    | blocking ↦ ok (false, k)
    | ready ↦ panic
  ]
  k'' ← end_critical k'
  ok (result, k'')

-- `LockingIsFree`
unfoldable pub locking_is_free : ℕ → Kernel → Bool
locking_is_free c k = is_ready (k.contexts c).state

-- `LockingInit`
unfoldable pub locking_init : ℕ → Owner → Kernel → Kernel
locking_init c o k = let x = k.contexts c in set_context k c (record x { state = ready; owner = o })

-- The loop with which BarrierSync, SignalSet and GenerationUpdate empty a waiting list: pop a
-- context, LockingAcquire it.
pub wake_waiters : List ℕ → Kernel → Outcome Kernel
wake_waiters [] k = ok k
wake_waiters (c ∷ q) k = acquire (some c) k >>= λ k'. wake_waiters q k'
