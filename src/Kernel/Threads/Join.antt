-- ===== src/Kernel/Threads/Join.antt =====
-- A thread is created, and joined before it has finished.
use kernelpanic.Common.{
  ℕ, ◌+◌, ◌%◌, ◌^◌, ◌<◌, ◌≡◌, refl, sym, ap, ◌∙◌, subst, ◌≢◌, inl, inr, Bool, true, false, none,
  List, [], ◌∷◌, ◌++◌, arith, length, All, All-append, All-map, All-zip, Distinct-snoc,
}
use kernelpanic.Common.Outcome.{Outcome, ok, ◌>>=◌}
use kernelpanic.Common.Store.{update, update_self, update_ne}
use kernelpanic.Utils.Fifo
use kernelpanic.Kernel.State.{
  Kernel, ThreadState, running, blocked, ready, thread, shared, exclusive, idle, LockingContext,
}
use kernelpanic.Kernel.Scheduler.{start_critical, end_critical, is_critical}
use kernelpanic.Kernel.Scheduler.Valid.{IsQuiet, QueueIsValid}
use kernelpanic.Kernel.Locking.{get_context, locking_init}
use kernelpanic.Kernel.Locking.Calls.{IsCaller}
use kernelpanic.Kernel.Resource
use kernelpanic.Kernel.Resource.{Resource}
use kernelpanic.Kernel.Resource.Exclusion
use kernelpanic.Kernel.Resource.Exclusion.{Queued}
use kernelpanic.Kernel.Threads.{Thread, System, set_thread, create_thread, join_thread}
use kernelpanic.Kernel.Threads.Ends.{join_thread_lem}

-- The active thread creates thread t in a critical section, and joins it.
unfoldable pub create_and_join :
    (t priority main argument local : ℕ) → (start : Bool) → System → Outcome System
unfolding start_critical create_thread end_critical join_thread
create_and_join t priority main argument local start s = do
  s1 ←
      create_thread t priority main argument local start
        (record s { kernel = start_critical s.kernel })
  k ← end_critical s1.kernel
  join_thread t (record s1 { kernel = k })

-- A thread that the kernel does not run.
pub record IsNew (t : ℕ) (k : Kernel) : Type 0 where
  pub not_active : t ≢ k.active
  pub not_idle : t ≢ idle
  pub not_queued : All (λ u. u ≢ t) k.run_queue

abbrev started : Bool → ThreadState
started true = running
started false = blocked

abbrev queue_of : Bool → ℕ → List ℕ → List ℕ
queue_of true t q = q ++ t ∷ []
queue_of false t q = q

-- The context that LockingInit gives a thread.
abbrev fresh : LockingContext → LockingContext
fresh x = record x { state = ready; owner = thread }

-- The kernel with the new thread.
abbrev pub born : ℕ → Bool → Kernel → Kernel
born t start k = record k {
  contexts = update k.contexts t (fresh (k.contexts t));
  threads = update k.threads t (started start);
  run_queue = queue_of start t k.run_queue;
}

abbrev made : (priority main argument local : ℕ) → Thread
made priority main argument local = record {
  priority = priority;
  result_lock = record { state = exclusive; waiting = []; num_shared = 0 };
  main = main;
  argument = argument;
  local = local;
  result = 0;
}

abbrev pub with_thread : (t priority main argument local : ℕ) → (start : Bool) → System → System
with_thread t priority main argument local start s =
    set_thread
      (record s {
        kernel = born t start s.kernel;
        running_threads = (s.running_threads + 1) % 2 ^ 64;
      })
      t (made priority main argument local)

-- The creation in its section.
created :
    (t priority main argument local : ℕ) (start : Bool) (s : System)
    → IsQuiet s.kernel
    → create_and_join t priority main argument local start s
      ≡ join_thread t (with_thread t priority main argument local start s)
unfolding create_and_join start_critical create_thread end_critical is_critical locking_init
    Fifo.enqueue Resource.init
created t priority main argument local true s v = ground (arith, v.no_critical, v.awake.not_queued)
created t priority main argument local false s v = ground (arith, v.no_critical, v.awake.not_queued)

module _ (t : ℕ) (k : Kernel) (v : IsQuiet k) (new : IsNew t k) where
  others_run : (state : ThreadState) → All (λ u. update k.threads t state u ≡ running) k.run_queue
  others_run state =
      All-map (λ u. u ≢ t × (k.threads u ≡ running)) (λ u. update k.threads t state u ≡ running)
        k.run_queue (λ u h. update_ne k.threads t u state h.0 ∙ h.1)
        (All-zip (λ u. u ≢ t) (λ u. k.threads u ≡ running) k.run_queue new.not_queued
          v.awake.queue.queue_runs)

  born-QueueIsValid : (start : Bool) → QueueIsValid (born t start k)
  born-QueueIsValid false = record {
    queue_runs = others_run blocked;
    queue_waits = v.awake.queue.queue_waits;
    no_idle = v.awake.queue.no_idle;
    distinct = v.awake.queue.distinct;
  }
  born-QueueIsValid true = record {
    queue_runs =
        All-append (λ u. update k.threads t running u ≡ running) k.run_queue (t ∷ [])
          (others_run running) (update_self k.threads t running, tt);
    queue_waits =
        All-append (λ u. u ≢ k.active) k.run_queue (t ∷ []) v.awake.queue.queue_waits
          (new.not_active, tt);
    no_idle =
        All-append (λ u. u ≢ idle) k.run_queue (t ∷ []) v.awake.queue.no_idle (new.not_idle, tt);
    distinct = Distinct-snoc k.run_queue t v.awake.queue.distinct new.not_queued;
  }

  born-IsQuiet : (start : Bool) → IsQuiet (born t start k)
  born-IsQuiet start = record {
    awake = record {
      queue = born-QueueIsValid start;
      mutex_free = v.awake.mutex_free;
      not_queued = v.awake.not_queued;
      active_runs = elim v.awake.active_runs [
        | inl at_idle ↦ inl at_idle
        | inr runs ↦
            inr
              (update_ne k.threads t k.active (started start) (λ e. new.not_active (sym e)) ∙ runs)
      ];
    };
    no_critical = v.no_critical;
  }

  born-IsCaller :
      (start : Bool) → IsCaller k none k.active → IsCaller (born t start k) none k.active
  unfolding get_context
  born-IsCaller start call =
      let same =
        update_ne k.contexts t k.active (fresh (k.contexts t)) (λ e. new.not_active (sym e)) in
      record {
        names = refl;
        is_ready = ap (λ (x : LockingContext). x.state) same ∙ call.is_ready;
        is_active = λ e. refl;
        not_idle = λ e. call.not_idle (sym (ap (λ (x : LockingContext). x.owner) same) ∙ e);
      }

-- What the caller of SchedulerJoinThread finds when thread t is new.
pub record Joins (t : ℕ) (start : Bool) (s : System) (done : Outcome System) : Type 0 where
  pub last : System
  pub returns : done ≡ ok last
  pub is_quiet : IsQuiet last.kernel
  pub is_valid : Exclusion.IsValid (last.thread_at t).result_lock last.kernel
  pub queued :
      Queued shared
        (Resource.init exclusive)
        (born t start s.kernel)
        s.kernel.active
        (last.thread_at t).result_lock
        last.kernel

-- In a quiet kernel the active thread, ready to block and not the idle one, creates a thread that the
-- kernel does not run, in a critical section, and joins it. It does not go on: it sleeps alone in the
-- line of the new thread's result lock, which is held exclusively, whether the new thread was started
-- or not. The kernel is quiet again and the lock valid.
pub create_and_join_lem :
    (t priority main argument local : ℕ) (start : Bool) (s : System)
    → IsQuiet s.kernel
    → IsNew t s.kernel
    → IsCaller s.kernel none s.kernel.active
    → Joins t start s (create_and_join t priority main argument local start s)
unfolding Resource.init
create_and_join_lem t priority main argument local start s v new call =
    let s1 = with_thread t priority main argument local start s in
    let lock : Resource = record { state = exclusive; waiting = []; num_shared = 0 } in
    let at : lock ≡ (s1.thread_at t).result_lock = sym (
      ap (λ (x : Thread). x.result_lock)
        (update_self s.thread_at t (made priority main argument local))) in
    let quiet = born-IsQuiet t s.kernel v new start in
    let valid : Exclusion.IsValid lock s1.kernel = record {
      line = record { waiters = tt; distinct = tt };
      alone = λ e. refl;
      nobody_for_free = λ e z. refl;
      first_wants = λ e. tt;
      bounded = omega arith;
    } in
    let (last, returns, is_quiet, is_valid, queued) =
      join_thread_lem t s1 quiet (subst (λ l. Exclusion.IsValid l s1.kernel) at valid)
        (born-IsCaller t s.kernel v new start call)
        (subst (λ (l : Resource). length l.waiting + 1 < 2 ^ 64) at (omega arith))
        (subst (λ (l : Resource). l.state ≡ exclusive) at refl) in
    record {
      last = last;
      returns = created t priority main argument local start s v ∙ returns;
      is_quiet = is_quiet;
      is_valid = is_valid;
      queued =
          subst
            (λ l.
              Queued shared l s1.kernel s.kernel.active (last.thread_at t).result_lock last.kernel)
            (sym at) queued;
    }
