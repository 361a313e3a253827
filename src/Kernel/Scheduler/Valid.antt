-- ===== src/Kernel/Scheduler/Valid.antt =====
-- The invariant of the scheduler, and how blocking, resuming and switching keep it.
use kernelpanic.Common.{
  ℕ, suc, ◌≡◌, refl, subst, ◌≢◌, ◌⊎◌, inl, inr, true, false, List, [], ◌∷◌, arith, All, Distinct,
}
use kernelpanic.Common.Outcome.{ok}
use kernelpanic.Utils.Fifo
use kernelpanic.Kernel.State.{Kernel, running, idle}
use kernelpanic.Kernel.Scheduler.{is_running, start_critical, schedule, crit_handler, end_critical}

-- The run queue holds distinct running threads, the active one and the idle one not among them.
pub record QueueIsValid (k : Kernel) : Type 0 where
  pub queue_runs : All (λ t. k.threads t ≡ running) k.run_queue
  pub queue_waits : All (λ t. t ≢ k.active) k.run_queue
  pub no_idle : All (λ t. t ≢ idle) k.run_queue
  pub distinct : Distinct k.run_queue

-- No switch is asked for, and the active thread may go on.
pub record IsAwake (k : Kernel) : Type 0 where
  pub queue : QueueIsValid k
  pub mutex_free : k.switch_mutex ≡ false
  pub not_queued : k.switch_queued ≡ false
  pub active_runs : (k.active ≡ idle) ⊎ (k.threads k.active ≡ running)

-- The state between the calls that threads make.
pub record IsQuiet (k : Kernel) : Type 0 where
  pub awake : IsAwake k
  pub no_critical : k.crit_count ≡ 0

-- The active thread has blocked or is done, and the switch is queued.
pub record IsLeaving (k : Kernel) : Type 0 where
  pub queue : QueueIsValid k
  pub queued : k.switch_queued ≡ true
  pub active_stops : is_running (k.threads k.active) ≡ false

pub start-IsAwake : (k : Kernel) → IsAwake k → IsAwake (start_critical k)
unfolding start_critical
start-IsAwake k a = record {
  queue = record {
    queue_runs = a.queue.queue_runs;
    queue_waits = a.queue.queue_waits;
    no_idle = a.queue.no_idle;
    distinct = a.queue.distinct;
  };
  mutex_free = a.mutex_free;
  not_queued = a.not_queued;
  active_runs = a.active_runs;
}

-- A critical section in which nobody blocked ends where it began.
pub end_critical-awake :
    (k : Kernel) (n : ℕ)
    → IsAwake k
    → k.crit_count ≡ suc n
    → end_critical k ≡ ok (record k { crit_count = n })
unfolding end_critical
end_critical-awake k n a e = ground (arith, a.not_queued)

-- What the switch leaves: the thread at the head of the run queue is active, or the idle thread.
pub record Switched (k k' : Kernel) : Type 0 where
  pub is_quiet : IsQuiet k'
  pub same_contexts : k'.contexts ≡ k.contexts
  pub same_threads : k'.threads ≡ k.threads
  pub next :
      (k.run_queue ≡ []) × (k'.active ≡ idle) × (k'.run_queue ≡ [])
      ⊎ (k.run_queue ≡ k'.active ∷ k'.run_queue)

take_head :
    (k : Kernel) (t : ℕ) (rest : List ℕ)
    → QueueIsValid k
    → k.run_queue ≡ t ∷ rest
    → IsQuiet (record k {
      run_queue = rest;
      active = t;
      switch_mutex = false;
      switch_queued = false;
      crit_count = 0;
    })
take_head k t rest q e =
    let runs = subst (All (λ t. k.threads t ≡ running)) e q.queue_runs in
    let no_idle = subst (All (λ t. t ≢ idle)) e q.no_idle in
    let distinct = subst Distinct e q.distinct in
    record {
      awake = record {
        queue = record {
          queue_runs = runs.1;
          queue_waits = distinct.0;
          no_idle = no_idle.1;
          distinct = distinct.1;
        };
        mutex_free = refl;
        not_queued = refl;
        active_runs = inr runs.0;
      };
      no_critical = refl;
    }

go_idle :
    (k : Kernel)
    → IsQuiet (record k {
      run_queue = [];
      active = idle;
      switch_mutex = false;
      switch_queued = false;
      crit_count = 0;
    })
go_idle k = record {
  awake = record {
    queue = record { queue_runs = tt; queue_waits = tt; no_idle = tt; distinct = tt };
    mutex_free = refl;
    not_queued = refl;
    active_runs = inl refl;
  };
  no_critical = refl;
}

switch_to :
    (k : Kernel) (q : List ℕ)
    → k.run_queue ≡ q
    → IsLeaving k
    → k.crit_count ≡ 1
    → (k' : Kernel) × (end_critical k ≡ ok k') × Switched k k'
unfolding end_critical crit_handler schedule Fifo.pop
switch_to k [] e l one = (
  record k {
    run_queue = [];
    active = idle;
    switch_mutex = false;
    switch_queued = false;
    crit_count = 0;
  },
  ground (arith, l.queued, l.active_stops),
  record {
    is_quiet = go_idle k;
    same_contexts = refl;
    same_threads = refl;
    next = inl (e, refl, refl);
  },
)
switch_to k (t ∷ rest) e l one = (
  record k {
    run_queue = rest;
    active = t;
    switch_mutex = false;
    switch_queued = false;
    crit_count = 0;
  },
  ground (arith, l.queued, l.active_stops),
  record {
    is_quiet = take_head k t rest l.queue e;
    same_contexts = refl;
    same_threads = refl;
    next = inr e;
  },
)

-- When the active thread has blocked or is done, the end of the critical section switches away from it.
pub end_critical-Switched :
    (k : Kernel)
    → IsLeaving k
    → k.crit_count ≡ 1
    → (k' : Kernel) × (end_critical k ≡ ok k') × Switched k k'
end_critical-Switched k l one = switch_to k k.run_queue refl l one
