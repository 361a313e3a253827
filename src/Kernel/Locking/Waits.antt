-- ===== src/Kernel/Locking/Waits.antt =====
-- Contexts that wait for a lock, and what LockingAcquire does to one of them.
use kernelpanic.Common.{
  ℕ, ◌<◌, ◌≡◌, refl, ◌∙◌, ◌≢◌, ◌⊎◌, inl, inr, some, List, [], ◌∷◌, ◌++◌, arith, All, All-front,
  All-append, All-map, All-zip, Distinct, Distinct-snoc,
}
use kernelpanic.Common.Outcome.{ok}
use kernelpanic.Utils.Fifo
use kernelpanic.Kernel.State.{
  Kernel, ready, blocking, acquired, Owner, thread, plain, running, blocked, Owner-cases,
  update_self, LockingContext, set_context, set_locking_state, set_thread_state, update, idle,
}
use kernelpanic.Kernel.Scheduler.{is_critical, resume_thread}
use kernelpanic.Kernel.Scheduler.Valid.{IsAwake}
use kernelpanic.Kernel.Locking.{acquire, wake_waiters, wake_function, get_context}

-- Blocked on a lock; a thread that is not the idle one sleeps until it is woken.
pub record IsWaiter (k : Kernel) (c : ℕ) : Type 0 where
  pub is_blocking : (k.contexts c).state ≡ blocking
  pub sleeps : (k.contexts c).owner ≡ thread → k.threads c ≡ blocked
  pub not_idle : (k.contexts c).owner ≡ thread → c ≢ idle

-- The waiting list of a lock.
pub record IsLine (k : Kernel) (q : List ℕ) : Type 0 where
  pub waiters : All (IsWaiter k) q
  pub distinct : Distinct q

-- What waking does: a thread runs again, at the end of the run queue; any other owner finds its
-- context acquired.
abbrev pub woken : Owner → ℕ → Kernel → Kernel
woken thread c k = record (set_thread_state (set_locking_state k c ready) c running) {
  run_queue = k.run_queue ++ c ∷ [];
}
woken plain c k = set_locking_state k c acquired

abbrev pub wake : ℕ → Kernel → Kernel
wake c k = woken (k.contexts c).owner c k

pub acquire-waiter :
    (k : Kernel) (c : ℕ) → 0 < k.crit_count → IsWaiter k c → acquire (some c) k ≡ ok (wake c k)
unfolding acquire wake_function resume_thread is_critical Fifo.enqueue get_context
acquire-waiter k c crit w = elim (Owner-cases (k.contexts c).owner) [
  | inl e ↦ ground (arith, w.is_blocking, w.sleeps e)
  | inr e ↦ ground (arith, w.is_blocking)
]

module _ (k : Kernel) (c : ℕ) (a : IsAwake k) (w : IsWaiter k c) where
  -- A sleeping thread is neither active nor in the run queue.
  not_active : (k.contexts c).owner ≡ thread → c ≢ k.active
  not_active e h = ground (arith, w.sleeps e, w.not_idle e, a.active_runs)

  not_queued : (k.contexts c).owner ≡ thread → All (λ t. t ≢ c) k.run_queue
  not_queued e =
      All-map (λ t. k.threads t ≡ running) (λ t. t ≢ c) k.run_queue
        (λ t r h. ground (arith, w.sleeps e)) a.queue.queue_runs

  still_runs : (t : ℕ) → k.threads t ≡ running → update k.threads c running t ≡ running
  unfolding update
  still_runs t r = ground arith

  woken_thread-IsAwake : (k.contexts c).owner ≡ thread → IsAwake (woken thread c k)
  woken_thread-IsAwake e = record {
    queue = record {
      queue_runs =
          All-append (λ t. update k.threads c running t ≡ running) k.run_queue (c ∷ [])
            (All-map (λ t. k.threads t ≡ running) (λ t. update k.threads c running t ≡ running)
              k.run_queue still_runs a.queue.queue_runs)
            (update_self k.threads c running, tt);
      queue_waits =
          All-append (λ t. t ≢ k.active) k.run_queue (c ∷ []) a.queue.queue_waits
            (not_active e, tt);
      no_idle = All-append (λ t. t ≢ idle) k.run_queue (c ∷ []) a.queue.no_idle (w.not_idle e, tt);
      distinct = Distinct-snoc k.run_queue c a.queue.distinct (not_queued e);
    };
    mutex_free = a.mutex_free;
    not_queued = a.not_queued;
    active_runs = active_runs a.active_runs;
  }
    where
      active_runs :
          (k.active ≡ idle) ⊎ (k.threads k.active ≡ running)
          → (k.active ≡ idle) ⊎ (update k.threads c running k.active ≡ running)
      active_runs (inl h) = inl h
      active_runs (inr h) = inr (still_runs k.active h)

-- Changing contexts alone does not touch the scheduler.
pub set_context-IsAwake :
    (k : Kernel) (c : ℕ) (x : LockingContext) → IsAwake k → IsAwake (set_context k c x)
set_context-IsAwake k c x a = record {
  queue = record {
    queue_runs = a.queue.queue_runs;
    queue_waits = a.queue.queue_waits;
    no_idle = a.queue.no_idle;
    distinct = a.queue.distinct;
  };
  mutex_free = a.mutex_free;
  not_queued = a.not_queued;
  active_runs = a.active_runs;
}

wake-by :
    (k : Kernel) (c : ℕ) (o : Owner)
    → (k.contexts c).owner ≡ o
    → IsAwake k
    → IsWaiter k c
    → IsAwake (woken o c k)
wake-by k c thread e a w = woken_thread-IsAwake k c a w e
wake-by k c plain e a w = set_context-IsAwake k c _ a

pub wake-IsAwake : (k : Kernel) (c : ℕ) → IsAwake k → IsWaiter k c → IsAwake (wake c k)
wake-IsAwake k c a w = wake-by k c (k.contexts c).owner refl a w

-- The other waiters go on waiting.
woken-IsWaiter :
    (k : Kernel) (c d : ℕ) (o : Owner) → d ≢ c → IsWaiter k d → IsWaiter (woken o c k) d
unfolding update
woken-IsWaiter k c d thread ne w = record {
  is_blocking = ground (arith, w.is_blocking);
  sleeps = λ e. ground (arith, w.sleeps);
  not_idle = λ e. w.not_idle (ground arith);
}
woken-IsWaiter k c d plain ne w = record {
  is_blocking = ground (arith, w.is_blocking);
  sleeps = λ e. w.sleeps (ground arith);
  not_idle = λ e. w.not_idle (ground arith);
}

pub wake-IsWaiter : (k : Kernel) (c d : ℕ) → d ≢ c → IsWaiter k d → IsWaiter (wake c k) d
wake-IsWaiter k c d = woken-IsWaiter k c d (k.contexts c).owner

woken-crit : (k : Kernel) (c : ℕ) (o : Owner) → (woken o c k).crit_count ≡ k.crit_count
woken-crit k c thread = refl
woken-crit k c plain = refl

pub wake-crit : (k : Kernel) (c : ℕ) → (wake c k).crit_count ≡ k.crit_count
wake-crit k c = woken-crit k c (k.contexts c).owner

-- Waking a whole line, first come first served.
abbrev pub wake_all : List ℕ → Kernel → Kernel
wake_all [] k = k
wake_all (c ∷ q) k = wake_all q (wake c k)

pub IsLine-wake : (k : Kernel) (c : ℕ) (q : List ℕ) → IsLine k (c ∷ q) → IsLine (wake c k) q
IsLine-wake k c q l = record {
  waiters =
      All-map (λ d. (d ≢ c) × IsWaiter k d) (IsWaiter (wake c k)) q
        (λ d (ne, w). wake-IsWaiter k c d ne w)
        (All-zip (λ d. d ≢ c) (IsWaiter k) q l.distinct.0 l.waiters.1);
  distinct = l.distinct.1;
}

pub wake_waiters-wake_all :
    (q : List ℕ) (k : Kernel)
    → IsAwake k
    → 0 < k.crit_count
    → IsLine k q
    → (wake_waiters q k ≡ ok (wake_all q k))
      × IsAwake (wake_all q k)
      × ((wake_all q k).crit_count ≡ k.crit_count)
unfolding wake_waiters
wake_waiters-wake_all [] k a crit l = (refl, a, refl)
wake_waiters-wake_all (c ∷ q) k a crit l =
    let (runs, awake, same) =
      wake_waiters-wake_all q (wake c k) (wake-IsAwake k c a l.waiters.0)
        (omega (arith, wake-crit k c)) (IsLine-wake k c q l) in
    (rw (acquire-waiter k c crit l.waiters.0) runs, awake, same ∙ wake-crit k c)

-- Waking the front of a line leaves the rest a line.
pub wake_all-IsLine :
    (front rest : List ℕ) (k : Kernel) → IsLine k (front ++ rest) → IsLine (wake_all front k) rest
wake_all-IsLine [] rest k l = l
wake_all-IsLine (c ∷ front) rest k l =
    wake_all-IsLine front rest (wake c k) (IsLine-wake k c (front ++ rest) l)

pub IsLine-front : (k : Kernel) (front rest : List ℕ) → IsLine k (front ++ rest) → IsLine k front
IsLine-front k [] rest l = record { waiters = tt; distinct = tt }
IsLine-front k (c ∷ front) rest l =
    let tail =
      IsLine-front k front rest (record { waiters = l.waiters.1; distinct = l.distinct.1 }) in
    record {
      waiters = (l.waiters.0, tail.waiters);
      distinct = (All-front (λ d. d ≢ c) front rest l.distinct.0, tail.distinct);
    }
