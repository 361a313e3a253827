-- ===== src/Kernel/Scheduler.antt =====
-- kernel/scheduler.c: critical sections, blocking and resuming threads, and the context switch. The
-- count of critical sections is taken not to wrap.
pub mod Valid
use kernelpanic.Common.{
  ℕ, zero, suc, ◌+◌, ◌-◌, ◌*◌, ◌/◌, ◌%◌, ◌^◌, ◌≤◌, ◌<◌, min, ◌≡◌, refl, sym, ap, ap₂, ◌∙◌, subst,
  ◌≢◌, ◌⊎◌, inl, inr, Bool, true, false, not, ◌&&◌, ◌||◌, Option, none, some, List, [], ◌∷◌, ◌++◌,
  append-nil, append_assoc, arith, ltb, leb, ◌==◌, if◌then◌else◌, Bool-cases, ltb→lt, ltb→le,
  eqb→eq, eqb→ne, eqb_of_ne, eqb_refl, length, get_or, set, take, drop, replicate, length-append,
  length-set, length-replicate, length-take, length-drop, take-append-drop, get_or-set_self,
  get_or-set_ne, length-snoc, prefix_of_append,
}
use kernelpanic.Common.Outcome.{Outcome, ok, panic, ◌>>=◌, ◌>>◌, assert}
use kernelpanic.Utils.Fifo
use kernelpanic.Kernel.State.{
  Kernel, ThreadState, running, blocked, done, LockingState, ready, blocking, acquired,
  LockingContext, set_thread_state, set_locking_state, update, idle,
}

abbrev pub is_running : ThreadState → Bool
is_running running = true
is_running blocked = false
is_running done = false

abbrev pub is_blocked : ThreadState → Bool
is_blocked running = false
is_blocked blocked = true
is_blocked done = false

-- `SchedulerStartCritical`: CritInterruptDisable.
unfoldable pub start_critical : Kernel → Kernel
start_critical k = record k { crit_count = k.crit_count + 1 }

-- `SchedulerIsCritical`: CritInterruptIsAtomic, for a caller that holds no higher level.
unfoldable pub is_critical : Kernel → Bool
is_critical k = ltb 0 k.crit_count

-- `SchedulerNeedsSwitch`: MutexLock returns true if the mutex was free.
unfoldable pub needs_switch : Kernel → Kernel
needs_switch k =
    if k.switch_mutex then k else record k { switch_mutex = true; switch_queued = true }

-- `Schedule`: the kernel, and the thread in `NextThread`.
unfoldable pub schedule : Kernel → Kernel × ℕ
unfolding Fifo.pop Fifo.enqueue
schedule k =
    let queue =
      if not (k.active == idle) && is_running (k.threads k.active)
      then Fifo.enqueue k.active k.run_queue
      else k.run_queue in
    elim (Fifo.pop queue) [
      | none ↦ (record k { run_queue = queue }, idle)
      | some (t, rest) ↦ (record k { run_queue = rest }, t)
    ]

-- `SchedulerCritHandler`, run by the crit interrupt: Schedule, SchedulerSwitch, and, on the stack
-- switched to, the completion PostCritHandler that unlocks the mutex.
unfoldable pub crit_handler : Kernel → Kernel
unfolding schedule
crit_handler k =
    let (k', next) = schedule k in
    record k' { active = next; switch_mutex = false; switch_queued = false }

-- `SchedulerEndCritical`: CritInterruptEnable. When the count falls to 0 the crit interrupt is let
-- in, and runs the handler if it is queued.
unfoldable pub end_critical : Kernel → Outcome Kernel
unfolding crit_handler
end_critical k = do
  assert (ltb 0 k.crit_count)
  let k' = record k { crit_count = k.crit_count - 1 }
  ok (if (k'.crit_count == 0) && k'.switch_queued then crit_handler k' else k')

-- `SchedulerBlockThread`
unfoldable pub block_thread : Kernel → Outcome Kernel
unfolding is_critical needs_switch
block_thread k = do assert (is_critical k); ok (needs_switch (set_thread_state k k.active blocked))

-- `SchedulerResumeThread`
unfoldable pub resume_thread : ℕ → Kernel → Outcome Kernel
unfolding is_critical Fifo.enqueue
resume_thread t k = do
  assert (is_critical k)
  assert (is_blocked (k.threads t))
  let k' = set_thread_state k t running
  ok (record k' { run_queue = Fifo.enqueue t k.run_queue })

-- `SchedulerForceSwitch`
unfoldable pub force_switch : Kernel → Outcome Kernel
unfolding is_critical needs_switch end_critical
force_switch k = do
  assert (is_critical k)
  k' ← end_critical (needs_switch k)
  assert (not (is_critical k'))
  ok k'

-- `SchedulerBlockOnLock`: the context must be the active thread's own.
unfoldable pub block_on_lock : ℕ → Kernel → Outcome Kernel
unfolding block_thread
block_on_lock c k = do assert (c == k.active); block_thread k

-- `SchedulerWakeOnLock`
unfoldable pub wake_on_lock : ℕ → Kernel → Outcome Kernel
unfolding resume_thread
wake_on_lock c k = elim (k.contexts c).state [
  | ready ↦ ok (set_locking_state k c ready)
  | blocking ↦ resume_thread c (set_locking_state k c ready)
  | acquired ↦ panic
]
