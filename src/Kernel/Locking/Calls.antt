-- ===== src/Kernel/Locking/Calls.antt =====
-- The two ways through a lock operation, from LockingStart to LockingEnd, for a caller between
-- kernel calls: it passes, or it blocks.
use kernelpanic.Common.{ℕ, ◌≡◌, refl, ap, ◌∙◌, ◌≢◌, inl, inr, true, Option, none, some, arith}
use kernelpanic.Common.Outcome.{ok}
use kernelpanic.Kernel.State.{
  Kernel, ready, blocking, acquired, ResourceState, Owner, thread, plain, running, blocked,
  Owner-cases, update_self, update-twice, LockingContext, set_context, set_locking_state,
  set_thread_state, update, idle,
}
use kernelpanic.Kernel.Scheduler.{
  start_critical, is_critical, wake_on_lock, block_thread, block_on_lock, needs_switch,
}
use kernelpanic.Kernel.Scheduler.Valid.{IsAwake, IsQuiet, end_critical-awake, start-IsAwake}
use kernelpanic.Kernel.Locking.{
  acquire, block, wake_function, wake_non_blocking, block_function, block_non_blocking, get_context,
  set_blocking_info, locking_start, locking_end,
}
use kernelpanic.Kernel.Locking.Waits.{IsWaiter, set_context-IsAwake}
use kernelpanic.Kernel.Locking.Granted.{IsGranted}

-- `context` (NULL for the active thread's own) names the context `c`, which is in no lock's line.
pub record IsCaller (k : Kernel) (context : Option ℕ) (c : ℕ) : Type 0 where
  pub names : get_context context k ≡ c
  pub is_ready : (k.contexts c).state ≡ ready
  pub is_active : (k.contexts c).owner ≡ thread → c ≡ k.active
  pub not_idle : (k.contexts c).owner ≡ thread → c ≢ idle

-- Waiters of other locks do not notice.
abbrev pub KeepsWaiters : Kernel → Kernel → Type 0
KeepsWaiters k k' = (d : ℕ) → IsWaiter k d → IsWaiter k' d

abbrev passed_by : Owner → ℕ → Kernel → Kernel
passed_by thread c k = set_locking_state k c ready
passed_by plain c k = set_locking_state k c acquired

-- What LockingAcquire does to a caller that is ready.
abbrev pub passed : ℕ → Kernel → Kernel
passed c k = passed_by (k.contexts c).owner c k

pub acquire-caller :
    (k : Kernel) (context : Option ℕ) (c : ℕ)
    → IsCaller k context c
    → acquire context (locking_start k) ≡ ok (passed c (locking_start k))
unfolding acquire wake_function wake_on_lock wake_non_blocking is_critical get_context locking_start
acquire-caller k none c call = elim (Owner-cases (k.contexts c).owner) [
  | inl e ↦ ground (arith, call.names, call.is_ready)
  | inr e ↦ ground (arith, call.names, call.is_ready)
]
acquire-caller k (some d) c call = elim (Owner-cases (k.contexts c).owner) [
  | inl e ↦ ground (arith, call.names, call.is_ready)
  | inr e ↦ ground (arith, call.names, call.is_ready)
]

pub record Passed (k : Kernel) (c : ℕ) (k' : Kernel) : Type 0 where
  pub is_quiet : IsQuiet k'
  pub granted : IsGranted k' c
  pub keeps : KeepsWaiters k k'
  pub same_active : k'.active ≡ k.active
  pub same_queue : k'.run_queue ≡ k.run_queue
  pub same_threads : k'.threads ≡ k.threads
  pub others : (d : ℕ) → d ≢ c → k'.contexts d ≡ k.contexts d
  pub same_owners : (d : ℕ) → (k'.contexts d).owner ≡ (k.contexts d).owner

caller_runs :
    (k : Kernel) (context : Option ℕ) (c : ℕ)
    → IsQuiet k
    → IsCaller k context c
    → (k.contexts c).owner ≡ thread
    → k.threads c ≡ running
caller_runs k context c v call e =
    ground (arith, v.awake.active_runs, call.is_active e, call.not_idle e)

-- A critical section that leaves the scheduler alone ends in a quiet state.
abbrev pub out_of : Kernel → Kernel
out_of k = record k { crit_count = 0 }

pub out-IsQuiet : (k : Kernel) → IsAwake k → IsQuiet (out_of k)
out-IsQuiet k a = record {
  awake = record {
    queue = record {
      queue_runs = a.queue.queue_runs;
      queue_waits = a.queue.queue_waits;
      no_idle = a.queue.no_idle;
      distinct = a.queue.distinct;
    };
    mutex_free = a.mutex_free;
    not_queued = a.not_queued;
    active_runs = a.active_runs;
  };
  no_critical = refl;
}

-- Ending a critical section that was entered from a quiet state, and in which nobody blocked.
pub end-awake : (k : Kernel) → IsAwake k → k.crit_count ≡ 1 → locking_end k ≡ ok (out_of k)
unfolding locking_end
end-awake k a one = end_critical-awake k 0 a one

pub start-crit : (k : Kernel) → IsQuiet k → (locking_start k).crit_count ≡ 1
unfolding locking_start start_critical
start-crit k v = omega (arith, v.no_critical)

pub locking_start-IsAwake : (k : Kernel) → IsQuiet k → IsAwake (locking_start k)
unfolding locking_start
locking_start-IsAwake k v = start-IsAwake k v.awake

pass-by :
    (k : Kernel) (context : Option ℕ) (c : ℕ) (o : Owner)
    → IsQuiet k
    → IsCaller k context c
    → (k.contexts c).owner ≡ o
    → Passed k c (out_of (passed_by o c (locking_start k)))
unfolding locking_start start_critical update
pass-by k context c thread v call e = record {
  is_quiet = out-IsQuiet _ (set_context-IsAwake _ c _ (start-IsAwake k v.awake));
  granted = ground (arith, e, caller_runs k context c v call e);
  keeps = λ d w. record {
    is_blocking = ground (arith, w.is_blocking, call.is_ready);
    sleeps = λ h. w.sleeps (ground arith);
    not_idle = λ h. w.not_idle (ground arith);
  };
  same_active = refl;
  same_queue = refl;
  same_threads = refl;
  others = λ d ne. ground arith;
  same_owners = λ d. ground arith;
}
pass-by k context c plain v call e = record {
  is_quiet = out-IsQuiet _ (set_context-IsAwake _ c _ (start-IsAwake k v.awake));
  granted = ground (arith, e);
  keeps = λ d w. record {
    is_blocking = ground (arith, w.is_blocking, call.is_ready);
    sleeps = λ h. w.sleeps (ground arith);
    not_idle = λ h. w.not_idle (ground arith);
  };
  same_active = refl;
  same_queue = refl;
  same_threads = refl;
  others = λ d ne. ground arith;
  same_owners = λ d. ground arith;
}

passed-end :
    (k : Kernel) (c : ℕ) (o : Owner)
    → IsQuiet k
    → locking_end (passed_by o c (locking_start k)) ≡ ok (out_of (passed_by o c (locking_start k)))
passed-end k c thread v =
    end-awake _ (set_context-IsAwake _ c _ (locking_start-IsAwake k v)) (start-crit k v)
passed-end k c plain v =
    end-awake _ (set_context-IsAwake _ c _ (locking_start-IsAwake k v)) (start-crit k v)

-- LockingStart, LockingAcquire, LockingEnd.
pub pass :
    (k : Kernel) (context : Option ℕ) (c : ℕ)
    → IsQuiet k
    → IsCaller k context c
    → (k1 : Kernel) × (k' : Kernel) × (acquire context (locking_start k) ≡ ok k1)
      × (locking_end k1 ≡ ok k')
      × Passed k c k'
pass k context c v call =
    let o = (k.contexts c).owner in
    let owner : ((locking_start k).contexts c).owner ≡ o =
      unfold locking_start start_critical in refl in
    (
      passed_by o c (locking_start k),
      out_of (passed_by o c (locking_start k)),
      acquire-caller k context c call ∙ ap (λ o. ok (passed_by o c (locking_start k))) owner,
      passed-end k c o v,
      pass-by k context c o v call refl,
    )

passed-crit :
    (k : Kernel) (c : ℕ) (o : Owner) → IsQuiet k → (passed_by o c (locking_start k)).crit_count ≡ 1
passed-crit k c thread v = start-crit k v
passed-crit k c plain v = start-crit k v

-- LockingStart and LockingAcquire, where more follows in the same critical section.
pub pass_on :
    (k : Kernel) (context : Option ℕ) (c : ℕ)
    → IsQuiet k
    → IsCaller k context c
    → (k1 : Kernel) × (acquire context (locking_start k) ≡ ok k1)
      × (k1.crit_count ≡ 1)
      × Passed k c (out_of k1)
pass_on k context c v call =
    let o = (k.contexts c).owner in
    let owner : ((locking_start k).contexts c).owner ≡ o =
      unfold locking_start start_critical in refl in
    (
      passed_by o c (locking_start k),
      acquire-caller k context c call ∙ ap (λ o. ok (passed_by o c (locking_start k))) owner,
      passed-crit k c o v,
      pass-by k context c o v call refl,
    )

pub record Blocked (info : Option ResourceState) (k : Kernel) (c : ℕ) (k' : Kernel) : Type 0 where
  pub is_quiet : IsQuiet k'
  pub waits : IsWaiter k' c
  pub keeps : KeepsWaiters k k'
  pub was_ready : (k.contexts c).state ≡ ready
  pub records_info : (w : ResourceState) → info ≡ some w → (k'.contexts c).wait_state ≡ w
  pub others : (d : ℕ) → d ≢ c → k'.contexts d ≡ k.contexts d

-- The context that was written by LockingBlock.
abbrev pub blocked_context : Option ResourceState → LockingContext → LockingContext
blocked_context none x = record x { state = blocking }
blocked_context (some w) x = record x { state = blocking; wait_state = w }

abbrev pub blocked_by : Option ResourceState → Owner → ℕ → Kernel → Kernel
blocked_by info thread c k = record (set_thread_state k k.active blocked) {
  contexts = update k.contexts c (blocked_context info (k.contexts c));
  switch_mutex = true;
  switch_queued = true;
}
blocked_by info plain c k = set_context k c (blocked_context info (k.contexts c))

pub block-caller :
    (k : Kernel) (info : Option ResourceState) (context : Option ℕ) (c : ℕ)
    → IsQuiet k
    → IsCaller k context c
    → block info context (locking_start k)
      ≡ ok (c, blocked_by info (k.contexts c).owner c (locking_start k))
unfolding block is_critical get_context block_function block_on_lock block_thread block_non_blocking
    set_blocking_info needs_switch locking_start start_critical
block-caller k none none c v call = elim (Owner-cases (k.contexts c).owner) [
  | inl e ↦ ground (arith, call.names, call.is_ready, call.is_active e, v.awake.mutex_free)
  | inr e ↦ ground (arith, call.names, call.is_ready)
]
block-caller k none (some d) c v call = elim (Owner-cases (k.contexts c).owner) [
  | inl e ↦ ground (arith, call.names, call.is_ready, call.is_active e, v.awake.mutex_free)
  | inr e ↦ ground (arith, call.names, call.is_ready)
]
block-caller k (some w) none c v call =
    let x = k.contexts c in
    let y : LockingContext = record x { wait_state = w } in
    let self = update_self k.contexts c y in
    let twice = update-twice k.contexts c y (record x { state = blocking; wait_state = w }) in
    elim (Owner-cases (k.contexts c).owner) [
      | inl e ↦ ground (arith, call.names, call.is_ready, call.is_active e, v.awake.mutex_free)
      | inr e ↦ ground (arith, call.names, call.is_ready)
    ]
block-caller k (some w) (some d) c v call =
    let x = k.contexts c in
    let y : LockingContext = record x { wait_state = w } in
    let self = update_self k.contexts c y in
    let twice = update-twice k.contexts c y (record x { state = blocking; wait_state = w }) in
    elim (Owner-cases (k.contexts c).owner) [
      | inl e ↦ ground (arith, call.names, call.is_ready, call.is_active e, v.awake.mutex_free)
      | inr e ↦ ground (arith, call.names, call.is_ready)
    ]

pub blocked_context-state :
    (info : Option ResourceState) (x : LockingContext) → (blocked_context info x).state ≡ blocking
blocked_context-state none x = refl
blocked_context-state (some w) x = refl

pub blocked_context-owner :
    (info : Option ResourceState) (x : LockingContext) → (blocked_context info x).owner ≡ x.owner
blocked_context-owner none x = refl
blocked_context-owner (some w) x = refl

pub blocked_context-info :
    (info : Option ResourceState) (x : LockingContext) (w : ResourceState)
    → info ≡ some w
    → (blocked_context info x).wait_state ≡ w
blocked_context-info none x w e = cc
blocked_context-info (some u) x w e = cc
