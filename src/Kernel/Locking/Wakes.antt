-- ===== src/Kernel/Locking/Wakes.antt =====
-- Waking from a lock operation: from LockingStart over LockingAcquire of waiters to LockingEnd.
use kernelpanic.Common.{
  ℕ, ◌≡◌, refl, sym, ap, ap₂, ◌∙◌, ◌≢◌, Option, some, List, [], ◌∷◌, ◌++◌, arith, All, All-map,
}
use kernelpanic.Common.Outcome.{ok}
use kernelpanic.Kernel.State.{Kernel, Owner, thread, plain}
use kernelpanic.Kernel.Scheduler.{start_critical}
use kernelpanic.Kernel.Scheduler.Valid.{IsAwake, IsQuiet}
use kernelpanic.Kernel.Locking.{acquire, wake_waiters, locking_start, locking_end}
use kernelpanic.Kernel.Locking.Waits.{
  wake_all-IsLine, IsLine-front, IsWaiter, IsLine, wake, wake_all, acquire-waiter, wake-IsAwake,
  wake-IsWaiter, wake-crit, wake_waiters-wake_all,
}
use kernelpanic.Kernel.Locking.Granted.{
  wake_all-wait_state, threads_of-owners, wake_all-keeps, IsGranted, GrantedTo, threads_of,
  wake-IsGranted, wake_all-IsGranted, wake_all-run_queue,
}
use kernelpanic.Kernel.Locking.Calls.{
  IsCaller, pass_on, out_of, out-IsQuiet, end-awake, start-crit, locking_start-IsAwake,
}

-- One waiter was woken and nobody else was.
pub record WokenOne (k : Kernel) (c : ℕ) (k' : Kernel) : Type 0 where
  pub is_quiet : IsQuiet k'
  pub granted : IsGranted k' c
  pub run_queue : k'.run_queue ≡ k.run_queue ++ threads_of k (c ∷ [])
  pub others : (d : ℕ) → d ≢ c → IsWaiter k d → IsWaiter k' d

-- The members of a line were woken in order.
pub record WokenLine (k : Kernel) (q : List ℕ) (k' : Kernel) : Type 0 where
  pub is_quiet : IsQuiet k'
  pub granted : All (IsGranted k') q
  pub run_queue : k'.run_queue ≡ k.run_queue ++ threads_of k q

started-IsWaiter : (k : Kernel) (c : ℕ) → IsWaiter k c → IsWaiter (locking_start k) c
unfolding locking_start start_critical
started-IsWaiter k c w = record {
  is_blocking = w.is_blocking;
  sleeps = w.sleeps;
  not_idle = w.not_idle;
}

pub started-IsLine : (k : Kernel) (q : List ℕ) → IsLine k q → IsLine (locking_start k) q
started-IsLine k q l = record {
  waiters = All-map (IsWaiter k) (IsWaiter (locking_start k)) q (started-IsWaiter k) l.waiters;
  distinct = l.distinct;
}

out-IsWaiter : (k : Kernel) (c : ℕ) → IsWaiter k c → IsWaiter (out_of k) c
out-IsWaiter k c w = record {
  is_blocking = w.is_blocking;
  sleeps = w.sleeps;
  not_idle = w.not_idle;
}

out-GrantedTo : (o : Owner) (k : Kernel) (c : ℕ) → GrantedTo o k c → GrantedTo o (out_of k) c
out-GrantedTo thread k c g = g
out-GrantedTo plain k c g = g

out-IsGranted : (k : Kernel) (c : ℕ) → IsGranted k c → IsGranted (out_of k) c
out-IsGranted k c = out-GrantedTo (k.contexts c).owner k c

started-threads_of : (k : Kernel) (q : List ℕ) → threads_of (locking_start k) q ≡ threads_of k q
unfolding threads_of locking_start start_critical
started-threads_of k [] = refl
started-threads_of k (c ∷ q) = ground (arith, started-threads_of k q)

started_threads :
    (k : Kernel) (q : List ℕ)
    → (locking_start k).run_queue ++ threads_of (locking_start k) q ≡ k.run_queue ++ threads_of k q
started_threads k q = ap (λ l. (locking_start k).run_queue ++ l) (started-threads_of k q) ∙ same
  where
    same : (locking_start k).run_queue ++ threads_of k q ≡ k.run_queue ++ threads_of k q
    same = unfold locking_start start_critical in refl

pub wake_line :
    (k : Kernel) (q : List ℕ)
    → IsQuiet k
    → IsLine k q
    → (k1 : Kernel) × (k' : Kernel) × (wake_waiters q (locking_start k) ≡ ok k1)
      × (locking_end k1 ≡ ok k')
      × WokenLine k q k'
wake_line k q v l =
    let k0 = locking_start k in
    let (runs, awake, crit) =
      wake_waiters-wake_all q k0 (locking_start-IsAwake k v) (omega (arith, start-crit k v))
        (started-IsLine k q l) in
    (
      wake_all q k0,
      out_of (wake_all q k0),
      runs,
      end-awake (wake_all q k0) awake (crit ∙ start-crit k v),
      record {
        is_quiet = out-IsQuiet (wake_all q k0) awake;
        granted =
            All-map (IsGranted (wake_all q k0)) (IsGranted (out_of (wake_all q k0))) q
              (out-IsGranted (wake_all q k0)) (wake_all-IsGranted q k0 l.distinct);
        run_queue = wake_all-run_queue q k0 ∙ started_threads k q;
      },
    )

pub wake_one :
    (k : Kernel) (c : ℕ)
    → IsQuiet k
    → IsWaiter k c
    → (k1 : Kernel) × (k' : Kernel) × (acquire (some c) (locking_start k) ≡ ok k1)
      × (locking_end k1 ≡ ok k')
      × WokenOne k c k'
wake_one k c v w =
    let k0 = locking_start k in
    let w0 = started-IsWaiter k c w in
    let awake = wake-IsAwake k0 c (locking_start-IsAwake k v) w0 in
    (
      wake c k0,
      out_of (wake c k0),
      acquire-waiter k0 c (omega (arith, start-crit k v)) w0,
      end-awake (wake c k0) awake (wake-crit k0 c ∙ start-crit k v),
      record {
        is_quiet = out-IsQuiet (wake c k0) awake;
        granted = out-IsGranted (wake c k0) c (wake-IsGranted k0 c);
        run_queue = wake_all-run_queue (c ∷ []) k0 ∙ started_threads k (c ∷ []);
        others =
            λ d ne w. out-IsWaiter (wake c k0) d (wake-IsWaiter k0 c d ne (started-IsWaiter k d w));
      },
    )

-- A critical section in which nothing happens.
pub empty_section : (k : Kernel) → IsQuiet k → locking_end (locking_start k) ≡ ok k
empty_section k v =
    end-awake (locking_start k) (locking_start-IsAwake k v) (start-crit k v) ∙ ap ok (back k v)
  where
    back : (k : Kernel) → IsQuiet k → out_of (locking_start k) ≡ k
    back k v =
        unfold locking_start start_critical in
        ap (λ (n : ℕ). record k { crit_count = n }) (sym v.no_critical)

-- The caller passes and then wakes a line, in one critical section.
pub record PassedAndWoke (k : Kernel) (c : ℕ) (q : List ℕ) (k' : Kernel) : Type 0 where
  pub is_quiet : IsQuiet k'
  pub caller_granted : IsGranted k' c
  pub granted : All (IsGranted k') q
  pub run_queue : k'.run_queue ≡ k.run_queue ++ threads_of k q

in-IsAwake : (k : Kernel) → IsQuiet (out_of k) → IsAwake k
in-IsAwake k v = record {
  queue = record {
    queue_runs = v.awake.queue.queue_runs;
    queue_waits = v.awake.queue.queue_waits;
    no_idle = v.awake.queue.no_idle;
    distinct = v.awake.queue.distinct;
  };
  mutex_free = v.awake.mutex_free;
  not_queued = v.awake.not_queued;
  active_runs = v.awake.active_runs;
}

in-IsWaiter : (k : Kernel) (c : ℕ) → IsWaiter (out_of k) c → IsWaiter k c
in-IsWaiter k c w = record { is_blocking = w.is_blocking; sleeps = w.sleeps; not_idle = w.not_idle }

in-GrantedTo : (o : Owner) (k : Kernel) (c : ℕ) → GrantedTo o (out_of k) c → GrantedTo o k c
in-GrantedTo thread k c g = g
in-GrantedTo plain k c g = g

not_caller :
    (k : Kernel) (context : Option ℕ) (c : ℕ)
    → IsCaller k context c
    → (d : ℕ) → IsWaiter k d
    → d ≢ c
not_caller k context c call d w e = ground (arith, w.is_blocking, call.is_ready)

pub pass_and_wake :
    (k : Kernel) (context : Option ℕ) (c : ℕ) (q : List ℕ)
    → IsQuiet k
    → IsCaller k context c
    → IsLine k q
    → (k1 : Kernel) × (k2 : Kernel) × (k' : Kernel) × (acquire context (locking_start k) ≡ ok k1)
      × (wake_waiters q k1 ≡ ok k2)
      × (locking_end k2 ≡ ok k')
      × PassedAndWoke k c q k'
pass_and_wake k context c q v call l =
    let (k1, runs, one, is) = pass_on k context c v call in
    let line : IsLine k1 q = record {
      waiters =
          All-map (IsWaiter k) (IsWaiter k1) q (λ d w. in-IsWaiter k1 d (is.keeps d w)) l.waiters;
      distinct = l.distinct;
    } in
    let (wakes, awake, crit) =
      wake_waiters-wake_all q k1 (in-IsAwake k1 is.is_quiet) (omega arith) line in
    let others : All (λ d. d ≢ c) q =
      All-map (IsWaiter k) (λ d. d ≢ c) q (not_caller k context c call) l.waiters in
    (
      k1,
      wake_all q k1,
      out_of (wake_all q k1),
      runs,
      wakes,
      end-awake (wake_all q k1) awake (crit ∙ one),
      record {
        is_quiet = out-IsQuiet (wake_all q k1) awake;
        caller_granted =
            out-IsGranted (wake_all q k1) c
              (wake_all-keeps q k1 c others (in-GrantedTo (k1.contexts c).owner k1 c is.granted));
        granted =
            All-map (IsGranted (wake_all q k1)) (IsGranted (out_of (wake_all q k1))) q
              (out-IsGranted (wake_all q k1)) (wake_all-IsGranted q k1 l.distinct);
        run_queue =
            wake_all-run_queue q k1
            ∙ ap₂ (λ a b. a ++ b) is.same_queue (threads_of-owners q k k1 is.same_owners);
      },
    )

-- A line was served in part: its front was woken, and the rest goes on waiting.
pub record Served (k : Kernel) (front rest : List ℕ) (k' : Kernel) : Type 0 where
  pub is_quiet : IsQuiet k'
  pub granted : All (IsGranted k') front
  pub run_queue : k'.run_queue ≡ k.run_queue ++ threads_of k front
  pub line : IsLine k' rest
  pub same_wants : (d : ℕ) → (k'.contexts d).wait_state ≡ (k.contexts d).wait_state

out-IsLine : (k : Kernel) (q : List ℕ) → IsLine k q → IsLine (out_of k) q
out-IsLine k q l = record {
  waiters = All-map (IsWaiter k) (IsWaiter (out_of k)) q (out-IsWaiter k) l.waiters;
  distinct = l.distinct;
}

pub served :
    (k : Kernel) (front rest : List ℕ)
    → IsQuiet k
    → IsLine k (front ++ rest)
    → (k' : Kernel) × (locking_end (wake_all front (locking_start k)) ≡ ok k')
      × Served k front rest k'
served k front rest v l =
    let k0 = locking_start k in
    let l0 = started-IsLine k (front ++ rest) l in
    let f = IsLine-front k0 front rest l0 in
    let (runs, awake, crit) =
      wake_waiters-wake_all front k0 (locking_start-IsAwake k v) (omega (arith, start-crit k v))
        f in
    (
      out_of (wake_all front k0),
      end-awake (wake_all front k0) awake (crit ∙ start-crit k v),
      record {
        is_quiet = out-IsQuiet (wake_all front k0) awake;
        granted =
            All-map (IsGranted (wake_all front k0)) (IsGranted (out_of (wake_all front k0))) front
              (out-IsGranted (wake_all front k0)) (wake_all-IsGranted front k0 f.distinct);
        run_queue = wake_all-run_queue front k0 ∙ started_threads k front;
        line = out-IsLine (wake_all front k0) rest (wake_all-IsLine front rest k0 l0);
        same_wants = λ d. wake_all-wait_state front k0 d ∙ started_wants d;
      },
    )
  where
    started_wants : (d : ℕ) → ((locking_start k).contexts d).wait_state ≡ (k.contexts d).wait_state
    started_wants d = unfold locking_start start_critical in refl
