-- ===== src/Kernel/State.antt =====
-- The state that the scheduler and the locks share: the globals of kernel/scheduler.c and the
-- THREAD and LOCKING_CONTEXT objects that the locks reach through pointers.
unfoldable pub use kernelpanic.Common.Store.{update}
pub use kernelpanic.Common.Store.{update_self, update_ne, update-twice}
use kernelpanic.Common.{ℕ, ◌≡◌, refl, ◌⊎◌, inl, inr, Bool, List}

-- `enum LOCKING_STATE` (kernel/locking.h)
pub data LockingState : Type 0 where
  ready blocking acquired : LockingState

-- `enum THREAD_STATE` (kernel/thread.h)
pub data ThreadState : Type 0 where
  running blocked done : ThreadState

-- `enum RESOURCE_STATE` (kernel/blockingcontext.h)
pub data ResourceState : Type 0 where
  shared exclusive : ResourceState

-- The block and wake functions that a context is given by LockingInit come in pairs:
-- SchedulerBlockOnLock with SchedulerWakeOnLock, and LockingBlockNonBlocking with
-- LockingWakeNonBlocking.
pub data Owner : Type 0 where
  thread plain : Owner

-- `struct LOCKING_CONTEXT`. Its address is the number under which the kernel state holds it; the
-- context of a thread has the thread's own number, which is what `container_of` computes.
pub record LockingContext : Type 0 where
  pub state : LockingState
  pub wait_state : ResourceState
  pub owner : Owner

pub record Kernel : Type 0 where
  pub contexts : ℕ → LockingContext
  -- `thread->State`
  pub threads : ℕ → ThreadState
  -- `ActiveThread`
  pub active : ℕ
  -- `RunQueue`
  pub run_queue : List ℕ
  -- `SchedulerMutex.Locked`
  pub switch_mutex : Bool
  -- SchedulerCritObject is queued for the crit interrupt.
  pub switch_queued : Bool
  -- `IsrDisabledCount[IRQ_LEVEL_CRIT]`
  pub crit_count : ℕ

-- The number of `IdleThread`.
abbrev pub idle : ℕ
idle = 0

abbrev pub set_context : Kernel → ℕ → LockingContext → Kernel
set_context k c x = record k { contexts = update k.contexts c x }

abbrev pub set_locking_state : Kernel → ℕ → LockingState → Kernel
set_locking_state k c s = let x = k.contexts c in set_context k c (record x { state = s })

abbrev pub set_thread_state : Kernel → ℕ → ThreadState → Kernel
set_thread_state k t s = record k { threads = update k.threads t s }

pub Owner-cases : (o : Owner) → (o ≡ thread) ⊎ (o ≡ plain)
Owner-cases thread = inl refl
Owner-cases plain = inr refl
