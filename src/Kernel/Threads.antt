-- ===== src/Kernel/Threads.antt =====
-- kernel/scheduler.c: threads from their creation to their end, the quantum, and shutdown.
pub mod Ends
pub mod Join
mod Tests
use kernelpanic.Common.{
  ℕ, zero, suc, ◌+◌, ◌-◌, ◌*◌, ◌/◌, ◌%◌, ◌^◌, ◌≤◌, ◌<◌, min, ◌≡◌, refl, sym, ap, ap₂, ◌∙◌, subst,
  ◌≢◌, ◌⊎◌, inl, inr, Bool, true, false, not, ◌&&◌, ◌||◌, Option, none, some, List, [], ◌∷◌, ◌++◌,
  append-nil, append_assoc, arith, ltb, leb, ◌==◌, if◌then◌else◌, Bool-cases, ltb→lt, ltb→le,
  eqb→eq, eqb→ne, eqb_of_ne, eqb_refl, length, get_or, set, take, drop, replicate, length-append,
  length-set, length-replicate, length-take, length-drop, take-append-drop, get_or-set_self,
  get_or-set_ne, length-snoc, prefix_of_append, All, All-append, All-front, All-map, All-zip,
  Distinct, Distinct-snoc,
}
use kernelpanic.Common.Outcome.{Outcome, ok, panic, ◌>>=◌, ◌>>◌, assert}
use kernelpanic.Common.Store.{update}
use kernelpanic.Utils.Fifo
use kernelpanic.Kernel.State.{
  Kernel, ThreadState, running, blocked, done, ResourceState, exclusive, thread, set_thread_state,
  idle,
}
use kernelpanic.Kernel.Scheduler.{
  start_critical, end_critical, is_critical, needs_switch, force_switch, crit_handler,
}
use kernelpanic.Kernel.Locking.{locking_init}
use kernelpanic.Kernel.Resource
use kernelpanic.Kernel.Resource.{
  Resource, lock_shared, unlock_shared, lock_exclusive, unlock_exclusive,
}

-- `struct THREAD`, less what the kernel state holds of it. Pointers are their addresses.
pub record Thread : Type 0 where
  pub priority : ℕ
  pub result_lock : Resource
  pub main : ℕ
  pub argument : ℕ
  pub local : ℕ
  pub result : ℕ

-- The globals of kernel/scheduler.c that the locks do not use.
pub record System : Type 0 where
  pub kernel : Kernel
  pub thread_at : ℕ → Thread
  -- `QuantumStartTime`
  pub quantum_start : ℕ
  -- `RunningThreads`
  pub running_threads : ℕ
  -- `Shutdown`
  pub shutdown : Bool

abbrev pub set_thread : System → ℕ → Thread → System
set_thread s t x = record s { thread_at = update s.thread_at t x }

-- `SchedulerCreateThread`. The stack is the hardware layer's.
unfoldable pub create_thread :
    (t priority main argument local : ℕ) → (start : Bool) → System → Outcome System
unfolding is_critical locking_init Fifo.enqueue Resource.init
create_thread t priority main argument local start s = do
  assert (is_critical s.kernel)
  let k = locking_init t thread s.kernel
  let x : Thread = record {
    priority = priority;
    result_lock = Resource.init exclusive;
    main = main;
    argument = argument;
    local = local;
    result = 0;
  }
  let s' = set_thread (record s { running_threads = (s.running_threads + 1) % 2 ^ 64 }) t x
  ok (
      if start
      then record s' {
        kernel = record (set_thread_state k t running) { run_queue = Fifo.enqueue t k.run_queue };
      }
      else record s' { kernel = set_thread_state k t blocked })

-- `SchedulerTimerHandler`, less the registration of the next timer. Time wraps.
unfoldable pub timer_handler : (now : ℕ) → System → System
unfolding needs_switch
timer_handler now s =
    if ltb (s.thread_at s.kernel.active).priority ((now + 2 ^ 64 - s.quantum_start) % 2 ^ 64)
    then record s { kernel = needs_switch s.kernel }
    else s

-- `SchedulerCritHandler`, with the quantum.
unfoldable pub quantum_switch : (now : ℕ) → System → System
unfolding crit_handler
quantum_switch now s = record s { kernel = crit_handler s.kernel; quantum_start = now }

-- `SchedulerShutdown`
unfoldable pub begin_shutdown : System → Outcome System
unfolding start_critical end_critical
begin_shutdown s = do
  k ← end_critical (start_critical s.kernel)
  ok (record s { kernel = k; shutdown = true })

-- `SchedulerIsShuttingDown`
unfoldable pub is_shutting_down : System → Outcome (Bool × System)
unfolding start_critical end_critical
is_shutting_down s = do
  k ← end_critical (start_critical s.kernel)
  ok (s.shutdown, record s { kernel = k })

-- The lock of `SchedulerJoinThread`. The result is read when the caller goes on.
unfoldable pub join_thread : ℕ → System → Outcome System
unfolding lock_shared
join_thread t s = do
  let x = s.thread_at t
  (lock, k) ← lock_shared x.result_lock none s.kernel
  ok (set_thread (record s { kernel = k }) t (record x { result_lock = lock }))

-- `SchedulerReleaseThread`
unfoldable pub release_thread : ℕ → System → Outcome System
unfolding unlock_shared
release_thread t s = do
  let x = s.thread_at t
  (lock, k) ← unlock_shared x.result_lock s.kernel
  ok (set_thread (record s { kernel = k }) t (record x { result_lock = lock }))

-- `SchedulerThreadStartup` once Main has returned: the result is stored, and those that wait to
-- join are released.
unfoldable pub finish_main : (result : ℕ) → System → Outcome System
unfolding unlock_exclusive
finish_main result s = do
  let t = s.kernel.active
  let x = s.thread_at t
  (lock, k) ← unlock_exclusive x.result_lock s.kernel
  ok (set_thread (record s { kernel = k }) t (record x { result = result; result_lock = lock }))

-- `SchedulerThreadStartup`, the lock by which the thread waits until no joiner uses its result.
unfoldable pub reacquire_result : System → Outcome System
unfolding lock_exclusive
reacquire_result s = do
  let t = s.kernel.active
  let x = s.thread_at t
  (lock, k) ← lock_exclusive x.result_lock none s.kernel
  ok (set_thread (record s { kernel = k }) t (record x { result_lock = lock }))

-- What the end of a thread comes to.
pub data Ending : Type 0 where
  -- `HalShutdownNow` ends the kernel.
  halted : Ending
  -- The switch to another thread.
  switched : System → Ending

-- `SchedulerThreadStartup`, the death of the thread. The switch does not come back.
unfoldable pub exit_thread : System → Outcome Ending
unfolding start_critical force_switch
exit_thread s = do
  let k = set_thread_state (start_critical s.kernel) s.kernel.active done
  let s' = record s { kernel = k; running_threads = (s.running_threads + 2 ^ 64 - 1) % 2 ^ 64 }
  if s'.shutdown && (s'.running_threads == 1)
      then ok halted
      else (do k' ← force_switch k; ok (switched (record s' { kernel = k' })))

-- `ThreadLocalGet`
unfoldable pub local_get : System → Outcome (ℕ × System)
unfolding start_critical end_critical
local_get s = do
  k ← end_critical (start_critical s.kernel)
  ok ((s.thread_at s.kernel.active).local, record s { kernel = k })

-- `ThreadLocalSet`
unfoldable pub local_set : ℕ → System → Outcome System
unfolding start_critical end_critical
local_set v s = do
  let x = s.thread_at s.kernel.active
  let s' = set_thread s s.kernel.active (record x { local = v })
  k ← end_critical (start_critical s.kernel)
  ok (record s' { kernel = k })
