-- ===== src/Kernel/Threads/Tests.antt =====
-- Thread 1 ends, and thread 2 in the run queue goes on; thread 1 creates thread 7 and joins it.
use kernelpanic.Common.{
  ℕ, ◌≡◌, refl, ◌⊎◌, inr, true, false, none, [], ◌∷◌, arith, ◌==◌, if◌then◌else◌,
}
use kernelpanic.Common.Outcome.{ok}
use kernelpanic.Kernel.State.{Kernel, ready, running, blocked, shared, exclusive, thread}
use kernelpanic.Kernel.Scheduler.Valid.{IsQuiet}
use kernelpanic.Kernel.Locking.{get_context}
use kernelpanic.Kernel.Locking.Calls.{IsCaller}
use kernelpanic.Kernel.Resource.{Resource}
use kernelpanic.Kernel.Threads.{System, halted, switched, exit_thread}
use kernelpanic.Kernel.Threads.Ends.{IsGone, exit_thread_lem}
use kernelpanic.Kernel.Threads.Join.{IsNew, Joins, create_and_join, create_and_join_lem}

abbrev kernel : Kernel
kernel = record {
  contexts = λ c. record { state = ready; wait_state = shared; owner = thread };
  threads = λ t. if t == 0 then blocked else running;
  active = 1;
  run_queue = 2 ∷ 4 ∷ [];
  switch_mutex = false;
  switch_queued = false;
  crit_count = 0;
}

abbrev held : Resource
held = record { state = exclusive; waiting = []; num_shared = 0 }

abbrev system : System
system = record {
  kernel = kernel;
  thread_at = λ t. record {
    priority = 5;
    result_lock = held;
    main = 0;
    argument = 0;
    local = 0;
    result = 0;
  };
  quantum_start = 0;
  running_threads = 4;
  shutdown = true;
}

kernel-IsQuiet : IsQuiet kernel
kernel-IsQuiet = record {
  awake = record {
    queue = record {
      queue_runs = (refl, (refl, tt));
      queue_waits = (omega arith, (omega arith, tt));
      no_idle = (omega arith, (omega arith, tt));
      distinct = ((omega arith, tt), (tt, tt));
    };
    mutex_free = refl;
    not_queued = refl;
    active_runs = inr refl;
  };
  no_critical = refl;
}

active-IsCaller : IsCaller kernel none 1
unfolding get_context
active-IsCaller = record {
  names = refl;
  is_ready = refl;
  is_active = λ e. refl;
  not_idle = λ e. omega arith;
}

exit_thread_lem_example :
    (true ≡ true) × (◌≡◌ {A = ℕ} 4 2) × (exit_thread system ≡ ok halted)
    ⊎ (k' : Kernel) × (exit_thread system
        ≡ ok (switched (record system { kernel = k'; running_threads = 3 })))
      × IsGone 1 k'
exit_thread_lem_example =
    exit_thread_lem system kernel-IsQuiet (omega arith) (omega arith) (omega arith)

seven-IsNew : IsNew 7 kernel
seven-IsNew = record {
  not_active = omega arith;
  not_idle = omega arith;
  not_queued = (omega arith, (omega arith, tt));
}

create_and_join_lem_example : Joins 7 true system (create_and_join 7 5 100 200 300 true system)
create_and_join_lem_example =
    create_and_join_lem 7 5 100 200 300 true system kernel-IsQuiet seven-IsNew active-IsCaller
