-- ===== src/Kernel/Signal.antt =====
-- kernel/signal.c
pub mod States
use kernelpanic.Common.{
  ℕ, zero, suc, ◌+◌, ◌-◌, ◌*◌, ◌/◌, ◌%◌, ◌^◌, ◌≤◌, ◌<◌, min, ◌≡◌, refl, sym, ap, ap₂, ◌∙◌, subst,
  ◌≢◌, ◌⊎◌, inl, inr, Bool, true, false, not, ◌&&◌, ◌||◌, Option, none, some, List, [], ◌∷◌, ◌++◌,
  append-nil, append_assoc, arith, ltb, leb, ◌==◌, if◌then◌else◌, Bool-cases, ltb→lt, ltb→le,
  eqb→eq, eqb→ne, eqb_of_ne, eqb_refl, length, get_or, set, take, drop, replicate, length-append,
  length-set, length-replicate, length-take, length-drop, take-append-drop, get_or-set_self,
  get_or-set_ne, length-snoc, prefix_of_append,
}
use kernelpanic.Common.Outcome.{Outcome, ok, panic, ◌>>=◌, ◌>>◌, assert}
use kernelpanic.Utils.Fifo
use kernelpanic.Kernel.State.{
  Kernel, LockingState, ready, blocking, acquired, ResourceState, shared, exclusive, Owner, thread,
  plain, LockingContext,
}
use kernelpanic.Kernel.Locking.{locking_start, locking_end, acquire, block}
use kernelpanic.Kernel.Locking.{wake_waiters}

-- `struct SIGNAL`
pub record Signal : Type 0 where
  pub state : Bool
  pub waiting : List ℕ

-- `SignalInit`
unfoldable pub init : Bool → Signal
init state = record { state = state; waiting = [] }

-- `SignalSet`
unfoldable pub set_signal : Signal → Kernel → Outcome (Signal × Kernel)
unfolding Fifo.is_empty locking_start
set_signal s k0 = do
  let k = locking_start k0
  (s', k') ←
      if s.state
      then (do assert (Fifo.is_empty s.waiting); ok (s, k))
      else (do k' ← wake_waiters s.waiting k; ok (record { state = true; waiting = [] }, k'))
  k'' ← locking_end k'
  ok (s', k'')

-- `SignalUnset`
unfoldable pub unset_signal : Signal → Kernel → Outcome (Signal × Kernel)
unfolding locking_start
unset_signal s k0 = do k' ← locking_end (locking_start k0); ok (record s { state = false }, k')

-- `SignalWaitForSignal`
unfoldable pub wait_for_signal : Signal → Option ℕ → Kernel → Outcome (Signal × Kernel)
unfolding Fifo.enqueue locking_start
wait_for_signal s context k0 = do
  let k = locking_start k0
  (s', k') ← if s.state then (do k' ← acquire context k; ok (s, k')) else (do
    (link, k') ← block none context k
    ok (record s { waiting = Fifo.enqueue link s.waiting }, k'))
  k'' ← locking_end k'
  ok (s', k'')
