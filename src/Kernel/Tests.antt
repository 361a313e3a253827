-- ===== src/Kernel/Tests.antt =====
-- The locks at a concrete kernel: thread 1 runs, thread 2 is in the run queue, thread 3 and the
-- plain context 9 wait.
use kernelpanic.Common.{
  ℕ, ◌≡◌, refl, ◌≢◌, ◌⊎◌, inr, Bool, true, false, none, List, [], ◌∷◌, arith, ◌==◌, if◌then◌else◌,
}
use kernelpanic.Common.Outcome.{Outcome, ok, ◌>>=◌}
use kernelpanic.Utils.Fifo
use kernelpanic.Kernel.State.{
  Kernel, LockingContext, shared, exclusive, thread, plain, ready, blocking, running, blocked,
}
use kernelpanic.Kernel.Scheduler.Valid.{IsQuiet}
use kernelpanic.Kernel.Locking.{get_context, acquire, locking_end}
use kernelpanic.Kernel.Locking.Waits.{IsWaiter, IsLine}
use kernelpanic.Kernel.Locking.Calls.{IsCaller, Passed, Blocked}
use kernelpanic.Kernel.Semaphore
use kernelpanic.Kernel.Semaphore.{Semaphore, down, up}
use kernelpanic.Kernel.Signal
use kernelpanic.Kernel.Signal.{Signal, set_signal, wait_for_signal}
use kernelpanic.Kernel.Generation
use kernelpanic.Kernel.Generation.{Generation}
use kernelpanic.Kernel.Barrier
use kernelpanic.Kernel.Resource.{
  Resource, lock_shared, lock_exclusive, unlock_shared, unlock_exclusive,
}
use kernelpanic.Kernel.Resource.Exclusion.{IsValid, Locks, Unlocks}
use kernelpanic.Kernel.Resource.Acquire.{lock_shared_lem, lock_exclusive_lem}
use kernelpanic.Kernel.Resource.Release.{unlock_exclusive_lem, unlock_shared_lem, released}
use kernelpanic.Kernel.Barrier.{Barrier, sync}

abbrev context_at : ℕ → LockingContext
context_at c = record {
  state = if c == 3 then blocking else if c == 9 then blocking else ready;
  wait_state = if c == 3 then exclusive else shared;
  owner = if c == 9 then plain else thread;
}

abbrev kernel : Kernel
kernel = record {
  contexts = context_at;
  threads = λ t. if t == 3 then blocked else running;
  active = 1;
  run_queue = 2 ∷ [];
  switch_mutex = false;
  switch_queued = false;
  crit_count = 0;
}

kernel-IsQuiet : IsQuiet kernel
kernel-IsQuiet = record {
  awake = record {
    queue = record {
      queue_runs = (refl, tt);
      queue_waits = omega arith;
      no_idle = omega arith;
      distinct = (tt, tt);
    };
    mutex_free = refl;
    not_queued = refl;
    active_runs = inr refl;
  };
  no_critical = refl;
}

thread_waits : IsWaiter kernel 3
thread_waits = record { is_blocking = refl; sleeps = λ e. refl; not_idle = λ e. omega arith }

plain_waits : IsWaiter kernel 9
plain_waits = record { is_blocking = refl; sleeps = λ e. absurd (cc); not_idle = λ e. omega arith }

sleepers-IsLine : IsLine kernel (3 ∷ 9 ∷ [])
sleepers-IsLine = record {
  waiters = (thread_waits, (plain_waits, tt));
  distinct = ((omega arith, tt), (tt, tt));
}

active-IsCaller : IsCaller kernel none 1
active-IsCaller = record {
  names = unfold get_context in refl;
  is_ready = refl;
  is_active = λ e. refl;
  not_idle = λ e. omega arith;
}

abbrev locked : Semaphore
locked = record { count = 0; waiting = 3 ∷ 9 ∷ [] }

locked-IsValid : Semaphore.Permits.IsValid locked kernel
locked-IsValid = record {
  line = sleepers-IsLine;
  no_permit = λ ne. absurd (ne refl);
  bounded = omega arith;
}

down_lem_example :
    (s' : Semaphore) × (k' : Kernel) × (down locked none kernel ≡ ok (s', k'))
    × IsQuiet k'
    × Semaphore.Permits.IsValid s' k'
    × (Semaphore.Permits.TookPermit locked kernel 1 s' k'
        ⊎ Semaphore.Permits.JoinedLine locked kernel 1 s' k')
down_lem_example =
    Semaphore.Permits.down_lem locked kernel none 1 kernel-IsQuiet locked-IsValid active-IsCaller

up_lem_example :
    (s' : Semaphore) × (k' : Kernel) × (up locked kernel ≡ ok (s', k'))
    × IsQuiet k'
    × Semaphore.Permits.IsValid s' k'
    × (Semaphore.Permits.WokeFirst locked kernel s' k'
        ⊎ Semaphore.Permits.AddedPermit locked kernel s' k')
up_lem_example = Semaphore.Permits.up_lem locked kernel kernel-IsQuiet locked-IsValid (omega arith)

abbrev unset : Signal
unset = record { state = false; waiting = 3 ∷ 9 ∷ [] }

unset-IsValid : Signal.States.IsValid unset kernel
unset-IsValid = record { line = sleepers-IsLine; nobody = λ e. cc }

wait_for_signal_lem_example :
    (s' : Signal) × (k' : Kernel) × (wait_for_signal unset none kernel ≡ ok (s', k'))
    × IsQuiet k'
    × Signal.States.IsValid s' k'
    × (s'.state ≡ false)
    × ((false ≡ true) × Passed kernel 1 k' × (s'.waiting ≡ 3 ∷ 9 ∷ [])
        ⊎ ◌≡◌ {A = Bool} false false × Blocked none kernel 1 k' × (s'.waiting ≡ 3 ∷ 9 ∷ 1 ∷ []))
wait_for_signal_lem_example =
    Signal.States.wait_for_signal_lem unset kernel none 1 kernel-IsQuiet unset-IsValid
      active-IsCaller

abbrev gen : Generation
gen = record { generation = 7; waiting = 3 ∷ 9 ∷ [] }

wait_lem_example :
    (g' : Generation) × (k' : Kernel) × (Generation.wait gen 7 none kernel ≡ ok (g', k'))
    × IsQuiet k'
    × Generation.Values.IsValid g' k'
    × (g'.generation ≡ 7)
    × (◌≢◌ {A = ℕ} 7 7 × Passed kernel 1 k' × (g'.waiting ≡ 3 ∷ 9 ∷ [])
        ⊎ ◌≡◌ {A = ℕ} 7 7 × Blocked none kernel 1 k' × (g'.waiting ≡ 3 ∷ 9 ∷ 1 ∷ []))
wait_lem_example =
    Generation.Values.wait_lem gen 7 kernel none 1 kernel-IsQuiet sleepers-IsLine active-IsCaller

abbrev barrier : Barrier
barrier = record { needed = 3; present = 2; waiting = 3 ∷ 9 ∷ [] }

barrier-IsValid : Barrier.Rounds.IsValid barrier kernel
barrier-IsValid = record {
  line = sleepers-IsLine;
  counted = refl;
  one_missing = omega arith;
  bounded = omega arith;
}

sync_lem_example :
    (b' : Barrier) × (k' : Kernel) × (sync barrier none kernel ≡ ok (b', k'))
    × IsQuiet k'
    × Barrier.Rounds.IsValid b' k'
    × (Barrier.Rounds.Opened barrier kernel 1 b' k' ⊎ Barrier.Rounds.Held barrier kernel 1 b' k')
sync_lem_example =
    Barrier.Rounds.sync_lem barrier kernel none 1 kernel-IsQuiet barrier-IsValid active-IsCaller

abbrev seen : Semaphore × Kernel → Outcome (List ℕ × List ℕ × ℕ × ℕ)
seen (s, k) = ok (s.waiting, k.run_queue, k.active, k.crit_count)

-- The thread that is let on goes to the end of the run queue.
up_runs : (up locked kernel >>= seen) ≡ ok (9 ∷ [], 2 ∷ 3 ∷ [], 1, 0)
unfolding up Fifo.pop acquire locking_end
up_runs = refl

abbrev lock : Resource
lock = record { state = exclusive; waiting = 3 ∷ 9 ∷ []; num_shared = 0 }

lock-IsValid : IsValid lock kernel
lock-IsValid = record {
  line = sleepers-IsLine;
  alone = λ e. refl;
  nobody_for_free = λ e z. absurd (cc);
  first_wants = λ e. absurd (cc);
  bounded = omega arith;
}

abbrev share_lock : Resource
share_lock = record { state = shared; waiting = 3 ∷ 9 ∷ []; num_shared = 1 }

share_lock-IsValid : IsValid share_lock kernel
share_lock-IsValid = record {
  line = sleepers-IsLine;
  alone = λ e. absurd (cc);
  nobody_for_free = λ e z. absurd (omega arith);
  first_wants = λ e. refl;
  bounded = omega arith;
}

lock_shared_lem_example : Locks (lock_shared lock none kernel) shared lock kernel 1
lock_shared_lem_example =
    lock_shared_lem lock kernel none 1 kernel-IsQuiet lock-IsValid active-IsCaller (omega arith)

lock_exclusive_lem_example :
    Locks (lock_exclusive share_lock none kernel) exclusive share_lock kernel 1
lock_exclusive_lem_example =
    lock_exclusive_lem share_lock kernel none 1 kernel-IsQuiet share_lock-IsValid active-IsCaller
      (omega arith)

unlock_exclusive_lem_example :
    Unlocks (unlock_exclusive lock kernel) (record lock { state = shared }) lock kernel
unlock_exclusive_lem_example = unlock_exclusive_lem lock kernel kernel-IsQuiet lock-IsValid refl

unlock_shared_lem_example :
    Unlocks (unlock_shared share_lock kernel) (released share_lock) share_lock kernel
unlock_shared_lem_example =
    unlock_shared_lem share_lock kernel kernel-IsQuiet share_lock-IsValid refl (omega arith)
