-- ===== src/Kernel/Threads/Ends.antt =====
-- A thread that ends is never run again, and its joiners wait for its end.
use kernelpanic.Common.{
  ℕ, ◌+◌, ◌-◌, ◌%◌, ◌^◌, ◌<◌, ◌≡◌, refl, sym, ap, ◌∙◌, subst, ◌≢◌, ◌⊎◌, inl, inr, Bool, true, false,
  ◌&&◌, none, [], ◌∷◌, arith, ◌==◌, Bool-cases, eqb→eq, length, All, All-map, All-zip,
}
use kernelpanic.Common.Outcome.{ok}
use kernelpanic.Common.Store.{update, update_self, update_ne}
use kernelpanic.Kernel.State.{Kernel, ThreadState, running, done, shared, exclusive, idle}
use kernelpanic.Kernel.Scheduler.{
  start_critical, end_critical, is_critical, needs_switch, force_switch, is_running,
}
use kernelpanic.Kernel.Scheduler.Valid.{IsQuiet, IsLeaving, Switched, end_critical-Switched}
use kernelpanic.Kernel.Locking.Calls.{IsCaller}
use kernelpanic.Kernel.Resource.{Resource, lock_shared}
use kernelpanic.Kernel.Resource.Exclusion
use kernelpanic.Kernel.Resource.Exclusion.{Acquired, Queued, Unlocks}
use kernelpanic.Kernel.Resource.Acquire.{lock_shared_lem}
use kernelpanic.Kernel.Threads.{
  Thread, System, set_thread, halted, switched, join_thread, exit_thread,
}

-- The active thread in its last critical section.
abbrev dying : Kernel → Kernel
dying k = record k { crit_count = k.crit_count + 1; threads = update k.threads k.active done }

-- The switch is asked for.
abbrev leaving : Kernel → Kernel
leaving k = record (dying k) { switch_mutex = true; switch_queued = true }

module _ (k : Kernel) (v : IsQuiet k) where
  leaving-is : needs_switch (dying k) ≡ leaving k
  unfolding needs_switch start_critical
  leaving-is = ground (arith, v.awake.mutex_free)

  leaving-IsLeaving : IsLeaving (leaving k)
  unfolding start_critical update
  leaving-IsLeaving =
      let q = v.awake.queue in
      record {
        queue = record {
          queue_runs =
              All-map (λ t. t ≢ k.active × (k.threads t ≡ running))
                (λ t. (leaving k).threads t ≡ running) k.run_queue
                (λ t h. update_ne k.threads k.active t done h.0 ∙ h.1)
                (All-zip (λ t. t ≢ k.active) (λ t. k.threads t ≡ running) k.run_queue q.queue_waits
                  q.queue_runs);
          queue_waits = q.queue_waits;
          no_idle = q.no_idle;
          distinct = q.distinct;
        };
        queued = refl;
        active_stops = ap is_running (update_self k.threads k.active done);
      }

  leaving-critical : (leaving k).crit_count ≡ 1
  unfolding start_critical
  leaving-critical = omega (arith, v.no_critical)

  forced :
      (k' : Kernel) → end_critical (leaving k) ≡ ok k' → IsQuiet k' → force_switch (dying k) ≡ ok k'
  unfolding force_switch is_critical
  forced k' e q =
      let one = leaving-critical in let asked = leaving-is in ground (arith, q.no_critical)

-- The thread is done: another one is active, and it does not stand in the run queue.
pub record IsGone (t : ℕ) (k : Kernel) : Type 0 where
  pub is_quiet : IsQuiet k
  pub is_done : k.threads t ≡ done
  pub not_active : k.active ≢ t
  pub not_queued : All (λ u. u ≢ t) k.run_queue

gone : (k k' : Kernel) → IsQuiet k → k.active ≢ idle → Switched (leaving k) k' → IsGone k.active k'
unfolding start_critical
gone k k' v not_idle sw = record {
  is_quiet = sw.is_quiet;
  is_done =
      ap (λ (f : ℕ → ThreadState). f k.active) sw.same_threads
      ∙ update_self k.threads k.active done;
  not_active = away sw.next;
  not_queued = out sw.next;
}
  where
    waits : All (λ t. t ≢ k.active) k.run_queue
    waits = v.awake.queue.queue_waits

    Next : Type 0
    Next =
        (k.run_queue ≡ []) × (k'.active ≡ idle) × (k'.run_queue ≡ [])
        ⊎ (k.run_queue ≡ k'.active ∷ k'.run_queue)

    away : Next → k'.active ≢ k.active
    away (inl h) e = not_idle (sym e ∙ h.1)
    away (inr h) e = (subst (All (λ t. t ≢ k.active)) h waits).0 e

    out : Next → All (λ t. t ≢ k.active) k'.run_queue
    out (inl h) = subst (All (λ t. t ≢ k.active)) (sym h.2) tt
    out (inr h) = (subst (All (λ t. t ≢ k.active)) h waits).1

-- The state in which the thread has left.
abbrev left : System → Kernel → System
left s k = record s { kernel = k; running_threads = s.running_threads - 1 }

exit-halts : (s : System) → s.shutdown ≡ true → s.running_threads ≡ 2 → exit_thread s ≡ ok halted
unfolding exit_thread
exit-halts s h r = ground arith

exit-switches :
    (s : System) (k' : Kernel)
    → 0 < s.running_threads
    → s.running_threads < 2 ^ 64
    → (s.shutdown && (s.running_threads - 1 == 1)) ≡ false
    → force_switch (dying s.kernel) ≡ ok k'
    → exit_thread s ≡ ok (switched (left s k'))
unfolding exit_thread
exit-switches s k' p b h e =
    let less : (s.running_threads + 2 ^ 64 - 1) % 2 ^ 64 ≡ s.running_threads - 1 = omega arith in
    ground arith

and-both : (a b : Bool) → (a && b) ≡ true → (a ≡ true) × (b ≡ true)
and-both true b h = (refl, h)
and-both false b h = ground arith

shared≢exclusive : shared ≢ exclusive
shared≢exclusive h = cc

-- A thread other than the idle one that dies in a quiet kernel, in which it is counted, halts the
-- kernel if it shuts down and one of two threads is left, and else is gone for good: the call does
-- not panic, another thread is active, and the dead one is done and not in the run queue.
pub exit_thread_lem :
    (s : System)
    → IsQuiet s.kernel
    → s.kernel.active ≢ idle
    → 0 < s.running_threads
    → s.running_threads < 2 ^ 64
    → (s.shutdown ≡ true) × (s.running_threads ≡ 2) × (exit_thread s ≡ ok halted)
      ⊎ (k' : Kernel) × (exit_thread s
          ≡ ok (switched (record s { kernel = k'; running_threads = s.running_threads - 1 })))
        × IsGone s.kernel.active k'
exit_thread_lem s v n p b =
    let k = s.kernel in
    let (k', ends, sw) =
      end_critical-Switched (leaving k) (leaving-IsLeaving k v) (leaving-critical k v) in
    let runs = forced k v k' ends sw.is_quiet in
    elim (Bool-cases (s.shutdown && (s.running_threads - 1 == 1))) [
      | inl h ↦
          let both = and-both s.shutdown (s.running_threads - 1 == 1) h in
          let two : s.running_threads ≡ 2 = omega (arith, eqb→eq _ 1 both.1) in
          inl (both.0, two, exit-halts s both.0 two)
      | inr h ↦ inr (k', exit-switches s k' p b h runs, gone k k' v n sw)
    ]

join-runs :
    (t : ℕ) (s : System) (lock : Resource) (k : Kernel)
    → lock_shared (s.thread_at t).result_lock none s.kernel ≡ ok (lock, k)
    → join_thread t s
      ≡ ok (set_thread (record s { kernel = k }) t (record (s.thread_at t) { result_lock = lock }))
unfolding join_thread
join-runs t s lock k h = rw h refl

-- In a quiet kernel a thread that joins one that has not finished, whose result lock is valid and held
-- exclusively, with room in its line, does not go on: it sleeps at the end of the line for the
-- result, and the lock stays valid.
pub join_thread_lem :
    (t : ℕ) (s : System)
    → IsQuiet s.kernel
    → Exclusion.IsValid (s.thread_at t).result_lock s.kernel
    → IsCaller s.kernel none s.kernel.active
    → length (s.thread_at t).result_lock.waiting + 1 < 2 ^ 64
    → (s.thread_at t).result_lock.state ≡ exclusive
    → (s' : System) × (join_thread t s ≡ ok s')
      × IsQuiet s'.kernel
      × Exclusion.IsValid (s'.thread_at t).result_lock s'.kernel
      × Queued shared
          (s.thread_at t).result_lock
          s.kernel
          s.kernel.active
          (s'.thread_at t).result_lock
          s'.kernel
join_thread_lem t s v i call room held =
    let lock = (s.thread_at t).result_lock in
    let (lock', k', runs, v', i', way) =
      lock_shared_lem lock s.kernel none s.kernel.active v i call (omega (arith, i.alone held)) in
    let s' =
      set_thread (record s { kernel = k' }) t (record (s.thread_at t) { result_lock = lock' }) in
    let at : (s'.thread_at t).result_lock ≡ lock' =
      ap (λ (x : Thread). x.result_lock) (update_self s.thread_at t _) in
    (
      s',
      join-runs t s lock' k' runs,
      v',
      subst (λ l. Exclusion.IsValid l k') (sym at) i',
      subst (λ l. Queued shared lock s.kernel s.kernel.active l k') (sym at)
          (queue lock lock' k' held way),
    )
  where
    queue :
        (lock lock' : Resource) (k' : Kernel)
        → lock.state ≡ exclusive
        → Acquired shared lock s.kernel s.kernel.active lock' k'
          ⊎ Queued shared lock s.kernel s.kernel.active lock' k'
        → Queued shared lock s.kernel s.kernel.active lock' k'
    queue lock lock' k' h (inl a) = absurd (shared≢exclusive (sym a.was_shared ∙ h))
    queue lock lock' k' h (inr q) = q
