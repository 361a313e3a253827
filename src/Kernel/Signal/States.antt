-- ===== src/Kernel/Signal/States.antt =====
-- Signals: waiting, setting and unsetting.
use kernelpanic.Common.{
  ℕ, ◌≡◌, refl, sym, ap₂, ◌∙◌, ◌⊎◌, inl, inr, Bool, true, false, Option, none, [], ◌∷◌, ◌++◌,
  append-nil, arith, Bool-cases,
}
use kernelpanic.Common.Outcome.{ok}
use mathlib.Core.Bool.{false≢true}
use kernelpanic.Utils.Fifo
use kernelpanic.Kernel.State.{Kernel}
use kernelpanic.Kernel.Scheduler.Valid.{IsQuiet}
use kernelpanic.Kernel.Locking.{acquire, block, locking_start, locking_end, wake_waiters}
use kernelpanic.Kernel.Locking.Waits.{IsLine}
use kernelpanic.Kernel.Locking.Granted.{threads_of}
use kernelpanic.Kernel.Locking.Calls.{IsCaller, Passed, pass, Blocked}
use kernelpanic.Kernel.Locking.Blocks.{sleep, IsLine-join, IsLine-keep}
use kernelpanic.Kernel.Locking.Wakes.{wake_line, WokenLine, empty_section}
use kernelpanic.Kernel.Signal.{Signal, set_signal, unset_signal, wait_for_signal}

-- Nobody waits for a signal that is set.
pub record IsValid (s : Signal) (k : Kernel) : Type 0 where
  pub line : IsLine k s.waiting
  pub nobody : s.state ≡ true → s.waiting ≡ []

wait-pass :
    (s : Signal) (k k1 k' : Kernel) (context : Option ℕ)
    → s.state ≡ true
    → acquire context (locking_start k) ≡ ok k1
    → locking_end k1 ≡ ok k'
    → wait_for_signal s context k ≡ ok (s, k')
unfolding wait_for_signal
wait-pass s k k1 k' context h a b = ground arith

wait-block :
    (s : Signal) (k k1 k' : Kernel) (context : Option ℕ) (c : ℕ)
    → s.state ≡ false
    → block none context (locking_start k) ≡ ok (c, k1)
    → locking_end k1 ≡ ok k'
    → wait_for_signal s context k ≡ ok (record s { waiting = s.waiting ++ c ∷ [] }, k')
unfolding wait_for_signal Fifo.enqueue
wait-block s k k1 k' context c h a b = ground arith

-- On a valid signal of a quiet kernel, for a caller that is in no line, SignalWaitForSignal returns
-- without panic to a valid signal and a quiet kernel: the caller goes on if the signal is set, and
-- joins the end of the line if it is not; the signal's state stays.
pub wait_for_signal_lem :
    (s : Signal) (k : Kernel) (context : Option ℕ) (c : ℕ)
    → IsQuiet k
    → IsValid s k
    → IsCaller k context c
    → (s' : Signal) × (k' : Kernel) × (wait_for_signal s context k ≡ ok (s', k'))
      × IsQuiet k'
      × IsValid s' k'
      × (s'.state ≡ s.state)
      × ((s.state ≡ true) × Passed k c k' × (s'.waiting ≡ s.waiting)
          ⊎ (s.state ≡ false) × Blocked none k c k' × (s'.waiting ≡ s.waiting ++ c ∷ []))
wait_for_signal_lem s k context c v i call = elim (Bool-cases s.state) [
  | inl h ↦
      let (k1, k', a, e, is) = pass k context c v call in
      (
        s,
        k',
        wait-pass s k k1 k' context h a e,
        is.is_quiet,
        record { line = IsLine-keep k k' s.waiting is.keeps i.line; nobody = i.nobody },
        refl,
        inl (h, is, refl),
      )
  | inr h ↦
      let (k1, k', b, e, is) = sleep k none context c v call in
      (
        record s { waiting = s.waiting ++ c ∷ [] },
        k',
        wait-block s k k1 k' context c h b e,
        is.is_quiet,
        record {
          line = IsLine-join k k' none c s.waiting i.line is;
          nobody = λ t. absurd (false≢true (sym h ∙ t));
        },
        refl,
        inr (h, is, refl),
      )
]

set-wake :
    (s : Signal) (k k1 k' : Kernel)
    → s.state ≡ false
    → wake_waiters s.waiting (locking_start k) ≡ ok k1
    → locking_end k1 ≡ ok k'
    → set_signal s k ≡ ok (record { state = true; waiting = [] }, k')
unfolding set_signal
set-wake s k k1 k' h a b = ground arith

set-again :
    (s : Signal) (k k' : Kernel)
    → s.state ≡ true
    → s.waiting ≡ []
    → locking_end (locking_start k) ≡ ok k'
    → set_signal s k ≡ ok (s, k')
unfolding set_signal Fifo.is_empty
set-again s k k' h n b = ground arith

-- On a valid signal of a quiet kernel SignalSet returns without panic, leaves the signal set with
-- nobody waiting, and has woken every waiter, in order; on a signal that is set it does not change
-- the kernel.
pub set_signal_lem :
    (s : Signal) (k : Kernel)
    → IsQuiet k
    → IsValid s k
    → (k' : Kernel) × (set_signal s k ≡ ok (record { state = true; waiting = [] }, k'))
      × WokenLine k s.waiting k'
      × IsValid (record { state = true; waiting = [] }) k'
      × ((s.state ≡ false) ⊎ (k' ≡ k))
set_signal_lem s k v i = elim (Bool-cases s.state) [
  | inl h ↦ (
    k,
    set-again s k k h (i.nobody h) (empty_section k v)
        ∙ ap₂ (λ (b : Bool) q. ok (record { state = b; waiting = q }, k)) h (i.nobody h),
    rw (i.nobody h) (record {
      is_quiet = v;
      granted = tt;
      run_queue = unfold threads_of in sym (append-nil k.run_queue);
    }),
    record { line = record { waiters = tt; distinct = tt }; nobody = λ t. refl },
    inr refl,
  )
  | inr h ↦
      let (k1, k', a, e, is) = wake_line k s.waiting v i.line in
      (
        k',
        set-wake s k k1 k' h a e,
        is,
        record { line = record { waiters = tt; distinct = tt }; nobody = λ t. refl },
        inl h,
      )
]

-- SignalUnset returns without panic and only clears the state.
pub unset_signal_lem :
    (s : Signal) (k : Kernel)
    → IsQuiet k
    → IsValid s k
    → (unset_signal s k ≡ ok (record s { state = false }, k))
      × IsValid (record s { state = false }) k
unfolding unset_signal
unset_signal_lem s k v i =
    (rw (empty_section k v) refl, record { line = i.line; nobody = λ t. absurd (false≢true t) })
