-- ===== src/Kernel/Locking/Blocks.antt =====
-- A caller that blocks: from LockingStart over LockingBlock to the switch at LockingEnd.
use kernelpanic.Common.{
  ℕ, ◌≡◌, refl, sym, ap, ◌∙◌, ◌≢◌, Option, List, [], ◌∷◌, ◌++◌, arith, All-append, All-map, All-zip,
  Distinct-snoc,
}
use kernelpanic.Common.Outcome.{ok}
use kernelpanic.Kernel.State.{
  Kernel, ResourceState, Owner, thread, plain, running, blocked, update_self, update_ne, update,
}
use kernelpanic.Kernel.Scheduler.{start_critical}
use kernelpanic.Kernel.Scheduler.Valid.{IsQuiet, IsLeaving, end_critical-Switched}
use kernelpanic.Kernel.Locking.{block, locking_start, locking_end}
use kernelpanic.Kernel.Locking.Waits.{IsWaiter, IsLine, set_context-IsAwake}
use kernelpanic.Kernel.Locking.Calls.{
  IsCaller, Blocked, blocked_by, blocked_context, block-caller, blocked_context-state,
  blocked_context-owner, blocked_context-info, out_of, out-IsQuiet, end-awake, start-crit,
  locking_start-IsAwake, KeepsWaiters,
}

module _ (k : Kernel) (info : Option ResourceState) (context : Option ℕ) (c : ℕ) (v : IsQuiet k)
    (call : IsCaller k context c) where
  -- The waiters before the call are not the caller.
  other_waiter : (d : ℕ) → IsWaiter k d → d ≢ c
  other_waiter d w e = ground (arith, w.is_blocking, call.is_ready)

  -- The facts about the contexts after the call, whatever became of the threads.
  blocked_from :
      (k' : Kernel)
      → IsQuiet k'
      → k'.contexts ≡ update k.contexts c (blocked_context info (k.contexts c))
      → ((k.contexts c).owner ≡ thread → k'.threads c ≡ blocked)
      → ((d : ℕ) → k.threads d ≡ blocked → k'.threads d ≡ blocked)
      → Blocked info k c k'
  blocked_from k' quiet same sleeps stay =
      let at : k'.contexts c ≡ blocked_context info (k.contexts c) =
        ap (λ f. f c) same ∙ update_self k.contexts c (blocked_context info (k.contexts c)) in
      let elsewhere = λ (d : ℕ) (ne : d ≢ c).
        ap (λ f. f d) same ∙ update_ne k.contexts c d (blocked_context info (k.contexts c)) ne in
      let owner : (k'.contexts c).owner ≡ (k.contexts c).owner =
        ap (λ x. x.owner) at ∙ blocked_context-owner info (k.contexts c) in
      record {
        is_quiet = quiet;
        waits = record {
          is_blocking = ap (λ x. x.state) at ∙ blocked_context-state info (k.contexts c);
          sleeps = λ e. sleeps (sym owner ∙ e);
          not_idle = λ e. call.not_idle (sym owner ∙ e);
        };
        keeps = λ d w. record {
          is_blocking = ap (λ x. x.state) (elsewhere d (other_waiter d w)) ∙ w.is_blocking;
          sleeps =
              λ e. stay d (w.sleeps (ap (λ x. x.owner) (sym (elsewhere d (other_waiter d w))) ∙ e));
          not_idle = λ e. w.not_idle (ap (λ x. x.owner) (sym (elsewhere d (other_waiter d w))) ∙ e);
        };
        was_ready = call.is_ready;
        records_info =
            λ w e. ap (λ x. x.wait_state) at ∙ blocked_context-info info (k.contexts c) w e;
        others = elsewhere;
      }

  leaving : (k.contexts c).owner ≡ thread → IsLeaving (blocked_by info thread c (locking_start k))
  unfolding locking_start start_critical update
  leaving e = record {
    queue = record {
      queue_runs =
          All-map (λ t. (k.threads t ≡ running) × (t ≢ k.active))
            (λ t. update k.threads k.active blocked t ≡ running) k.run_queue (λ t h. ground arith)
            (All-zip (λ t. k.threads t ≡ running) (λ t. t ≢ k.active) k.run_queue
              v.awake.queue.queue_runs v.awake.queue.queue_waits);
      queue_waits = v.awake.queue.queue_waits;
      no_idle = v.awake.queue.no_idle;
      distinct = v.awake.queue.distinct;
    };
    queued = refl;
    active_stops = ground arith;
  }

  Ends : Owner → Type 0
  Ends o =
      (k' : Kernel) × (locking_end (blocked_by info o c (locking_start k)) ≡ ok k')
      × Blocked info k c k'

  Ends-by : (o : Owner) → (k.contexts c).owner ≡ o → Ends o
  unfolding Ends locking_end locking_start start_critical
  Ends-by thread e =
      let (k', runs, sw) =
        end_critical-Switched (blocked_by info thread c (locking_start k)) (leaving e)
          (start-crit k v) in
      (
        k',
        runs,
        blocked_from k' sw.is_quiet sw.same_contexts
            (λ h. ap (λ f. f c) sw.same_threads ∙ thread_sleeps)
            (λ d h. ap (λ f. f d) sw.same_threads ∙ thread_stays d h),
      )
    where
      thread_sleeps : update k.threads k.active blocked c ≡ blocked
      thread_sleeps = rw (← call.is_active e) (update_self k.threads c blocked)

      thread_stays : (d : ℕ) → k.threads d ≡ blocked → update k.threads k.active blocked d ≡ blocked
      thread_stays d h = unfold update in ground arith
  Ends-by plain e =
      let k1 = blocked_by info plain c (locking_start k) in
      let awake = set_context-IsAwake (locking_start k) c _ (locking_start-IsAwake k v) in
      (
        out_of k1,
        end-awake k1 awake (start-crit k v),
        blocked_from (out_of k1) (out-IsQuiet k1 awake) refl (λ h. absurd (cc)) (λ d h. h),
      )

-- LockingStart, LockingBlock, LockingEnd.
pub sleep :
    (k : Kernel) (info : Option ResourceState) (context : Option ℕ) (c : ℕ)
    → IsQuiet k
    → IsCaller k context c
    → (k1 : Kernel) × (k' : Kernel) × (block info context (locking_start k) ≡ ok (c, k1))
      × (locking_end k1 ≡ ok k')
      × Blocked info k c k'
unfolding Ends
sleep k info context c v call =
    let (k', runs, is) = Ends-by k info context c v call (k.contexts c).owner refl in
    (
      blocked_by info (k.contexts c).owner c (locking_start k),
      k',
      block-caller k info context c v call,
      runs,
      is,
    )

-- The caller joins the end of the line.
pub IsLine-join :
    (k k' : Kernel) (info : Option ResourceState) (c : ℕ) (q : List ℕ)
    → IsLine k q
    → Blocked info k c k'
    → IsLine k' (q ++ c ∷ [])
IsLine-join k k' info c q l b = record {
  waiters =
      All-append (IsWaiter k') q (c ∷ []) (All-map (IsWaiter k) (IsWaiter k') q b.keeps l.waiters)
        (b.waits, tt);
  distinct = Distinct-snoc q c l.distinct (
      All-map (IsWaiter k) (λ d. d ≢ c) q (λ d w e. ground (arith, w.is_blocking, b.was_ready))
        l.waiters);
}

-- A line that the call leaves alone.
pub IsLine-keep : (k k' : Kernel) (q : List ℕ) → KeepsWaiters k k' → IsLine k q → IsLine k' q
IsLine-keep k k' q keeps l = record {
  waiters = All-map (IsWaiter k) (IsWaiter k') q keeps l.waiters;
  distinct = l.distinct;
}
