-- ===== src/Kernel/Generation/Values.antt =====
-- Generations: waiting for a value to change, and changing it.
use kernelpanic.Common.{
  ℕ, ◌≡◌, refl, ◌≢◌, ◌⊎◌, inl, inr, Option, none, [], ◌∷◌, ◌++◌, arith, ◌==◌, Bool-cases, eqb→eq,
  eqb→ne,
}
use kernelpanic.Common.Outcome.{ok}
use kernelpanic.Utils.Fifo
use kernelpanic.Kernel.State.{Kernel}
use kernelpanic.Kernel.Scheduler.Valid.{IsQuiet}
use kernelpanic.Kernel.Locking.{acquire, block, locking_start, locking_end, wake_waiters}
use kernelpanic.Kernel.Locking.Waits.{IsLine}
use kernelpanic.Kernel.Locking.Calls.{IsCaller, Passed, pass, Blocked}
use kernelpanic.Kernel.Locking.Blocks.{sleep, IsLine-join, IsLine-keep}
use kernelpanic.Kernel.Locking.Wakes.{wake_line, WokenLine}
use kernelpanic.Kernel.Generation.{Generation, wait, update}

abbrev pub IsValid : Generation → Kernel → Type 0
IsValid g k = IsLine k g.waiting

wait-pass :
    (g : Generation) (value : ℕ) (k k1 k' : Kernel) (context : Option ℕ)
    → g.generation ≢ value
    → acquire context (locking_start k) ≡ ok k1
    → locking_end k1 ≡ ok k'
    → wait g value context k ≡ ok (g, k')
unfolding wait
wait-pass g value k k1 k' context h a b = ground arith

wait-block :
    (g : Generation) (value : ℕ) (k k1 k' : Kernel) (context : Option ℕ) (c : ℕ)
    → g.generation ≡ value
    → block none context (locking_start k) ≡ ok (c, k1)
    → locking_end k1 ≡ ok k'
    → wait g value context k ≡ ok (record g { waiting = g.waiting ++ c ∷ [] }, k')
unfolding wait Fifo.enqueue
wait-block g value k k1 k' context c h a b = ground arith

-- On a valid generation of a quiet kernel, for a caller that is in no line, GenerationWait returns
-- without panic to a valid generation and a quiet kernel: the caller blocks, at the end of the line,
-- exactly if the generation is the value that it names.
pub wait_lem :
    (g : Generation) (value : ℕ) (k : Kernel) (context : Option ℕ) (c : ℕ)
    → IsQuiet k
    → IsValid g k
    → IsCaller k context c
    → (g' : Generation) × (k' : Kernel) × (wait g value context k ≡ ok (g', k'))
      × IsQuiet k'
      × IsValid g' k'
      × (g'.generation ≡ g.generation)
      × ((g.generation ≢ value) × Passed k c k' × (g'.waiting ≡ g.waiting)
          ⊎ (g.generation ≡ value) × Blocked none k c k' × (g'.waiting ≡ g.waiting ++ c ∷ []))
wait_lem g value k context c v i call = elim (Bool-cases (g.generation == value)) [
  | inl h ↦
      let same : g.generation ≡ value = eqb→eq g.generation value h in
      let (k1, k', b, e, is) = sleep k none context c v call in
      (
        record g { waiting = g.waiting ++ c ∷ [] },
        k',
        wait-block g value k k1 k' context c same b e,
        is.is_quiet,
        IsLine-join k k' none c g.waiting i is,
        refl,
        inr (same, is, refl),
      )
  | inr h ↦
      let other = eqb→ne g.generation value h in
      let (k1, k', a, e, is) = pass k context c v call in
      (
        g,
        k',
        wait-pass g value k k1 k' context other a e,
        is.is_quiet,
        IsLine-keep k k' g.waiting is.keeps i,
        refl,
        inl (other, is, refl),
      )
]

update-runs :
    (g : Generation) (value : ℕ) (k k1 k' : Kernel)
    → wake_waiters g.waiting (locking_start k) ≡ ok k1
    → locking_end k1 ≡ ok k'
    → update g value k ≡ ok (record { generation = value; waiting = [] }, k')
unfolding update
update-runs g value k k1 k' a b = ground arith

-- On a valid generation of a quiet kernel GenerationUpdate returns without panic, sets the value,
-- and has woken every waiter in order.
pub update_lem :
    (g : Generation) (value : ℕ) (k : Kernel)
    → IsQuiet k
    → IsValid g k
    → (k' : Kernel) × (update g value k ≡ ok (record { generation = value; waiting = [] }, k'))
      × WokenLine k g.waiting k'
update_lem g value k v i =
    let (k1, k', a, e, is) = wake_line k g.waiting v i in (k', update-runs g value k k1 k' a e, is)
