-- ===== src/Kernel/Generation.antt =====
-- kernel/generation.c
pub mod Values
use kernelpanic.Common.{
  ℕ, zero, suc, ◌+◌, ◌-◌, ◌*◌, ◌/◌, ◌%◌, ◌^◌, ◌≤◌, ◌<◌, min, ◌≡◌, refl, sym, ap, ap₂, ◌∙◌, subst,
  ◌≢◌, ◌⊎◌, inl, inr, Bool, true, false, not, ◌&&◌, ◌||◌, Option, none, some, List, [], ◌∷◌, ◌++◌,
  append-nil, append_assoc, arith, ltb, leb, ◌==◌, if◌then◌else◌, Bool-cases, ltb→lt, ltb→le,
  eqb→eq, eqb→ne, eqb_of_ne, eqb_refl, length, get_or, set, take, drop, replicate, length-append,
  length-set, length-replicate, length-take, length-drop, take-append-drop, get_or-set_self,
  get_or-set_ne, length-snoc, prefix_of_append,
}
use kernelpanic.Common.Outcome.{Outcome, ok, panic, ◌>>=◌, ◌>>◌, assert}
use kernelpanic.Utils.Fifo
use kernelpanic.Kernel.State.{
  Kernel, LockingState, ready, blocking, acquired, ResourceState, shared, exclusive, Owner, thread,
  plain, LockingContext,
}
use kernelpanic.Kernel.Locking.{locking_start, locking_end, acquire, block}
use kernelpanic.Kernel.Locking.{wake_waiters}

-- `struct GENERATION`
pub record Generation : Type 0 where
  pub generation : ℕ
  pub waiting : List ℕ

-- `GenerationInit`
unfoldable pub init : ℕ → Generation
init value = record { generation = value; waiting = [] }

-- `GenerationWait`
unfoldable pub wait : Generation → ℕ → Option ℕ → Kernel → Outcome (Generation × Kernel)
unfolding Fifo.enqueue locking_start
wait gen value context k0 = do
  let k = locking_start k0
  (gen', k') ←
      if gen.generation == value
      then (do
        (link, k') ← block none context k
        ok (record gen { waiting = Fifo.enqueue link gen.waiting }, k'))
      else (do k' ← acquire context k; ok (gen, k'))
  k'' ← locking_end k'
  ok (gen', k'')

-- `GenerationUpdate`
unfoldable pub update : Generation → ℕ → Kernel → Outcome (Generation × Kernel)
unfolding locking_start
update gen value k0 = do
  let k = locking_start k0
  k' ← wake_waiters gen.waiting k
  k'' ← locking_end k'
  ok (record { generation = value; waiting = [] }, k'')
