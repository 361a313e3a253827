-- ===== src/Kernel/Barrier/Rounds.antt =====
-- Barriers: all but the last caller sleep, and the last one wakes them.
use kernelpanic.Common.{
  ℕ, ◌+◌, ◌^◌, ◌<◌, ◌≡◌, refl, ◌⊎◌, inl, inr, Option, none, [], ◌∷◌, ◌++◌, arith, ◌==◌, Bool-cases,
  eqb→eq, eqb→ne, length, length-snoc,
}
use kernelpanic.Common.Outcome.{ok}
use kernelpanic.Utils.Fifo
use kernelpanic.Kernel.State.{Kernel}
use kernelpanic.Kernel.Scheduler.Valid.{IsQuiet}
use kernelpanic.Kernel.Locking.{acquire, block, locking_start, locking_end, wake_waiters}
use kernelpanic.Kernel.Locking.Waits.{IsLine}
use kernelpanic.Kernel.Locking.Calls.{IsCaller, Blocked}
use kernelpanic.Kernel.Locking.Blocks.{sleep, IsLine-join}
use kernelpanic.Kernel.Locking.Wakes.{PassedAndWoke, pass_and_wake}
use kernelpanic.Kernel.Barrier.{Barrier, sync}

-- The callers that have arrived are the ones in line, and one is still missing.
pub record IsValid (b : Barrier) (k : Kernel) : Type 0 where
  pub line : IsLine k b.waiting
  pub counted : b.present ≡ length b.waiting
  pub one_missing : b.present < b.needed
  pub bounded : b.needed < 2 ^ 64

sync-last :
    (b : Barrier) (k k1 k2 k' : Kernel) (context : Option ℕ)
    → b.present + 1 ≡ b.needed
    → b.needed < 2 ^ 64
    → acquire context (locking_start k) ≡ ok k1
    → wake_waiters b.waiting k1 ≡ ok k2
    → locking_end k2 ≡ ok k'
    → sync b context k ≡ ok (record b { present = 0; waiting = [] }, k')
unfolding sync
sync-last b k k1 k2 k' context h n a w e = ground arith

sync-early :
    (b : Barrier) (k k1 k' : Kernel) (context : Option ℕ) (c : ℕ)
    → b.present + 1 < b.needed
    → b.needed < 2 ^ 64
    → block none context (locking_start k) ≡ ok (c, k1)
    → locking_end k1 ≡ ok k'
    → sync b context k
      ≡ ok (record b { present = b.present + 1; waiting = b.waiting ++ c ∷ [] }, k')
unfolding sync Fifo.enqueue
sync-early b k k1 k' context c h n a e = ground arith

-- The caller was the last one: it goes on, everyone in line is woken in order, and the barrier is
-- empty again.
pub record Opened (b : Barrier) (k : Kernel) (c : ℕ) (b' : Barrier) (k' : Kernel) : Type 0 where
  pub was_last : length b.waiting + 1 ≡ b.needed
  pub woke : PassedAndWoke k c b.waiting k'
  pub reset : b' ≡ record { needed = b.needed; present = 0; waiting = [] }

-- The caller was not the last one: it sleeps at the end of the line.
pub record Held (b : Barrier) (k : Kernel) (c : ℕ) (b' : Barrier) (k' : Kernel) : Type 0 where
  pub not_last : length b.waiting + 1 < b.needed
  pub blocked : Blocked none k c k'
  pub waiting : b'.waiting ≡ b.waiting ++ c ∷ []
  pub same_needed : b'.needed ≡ b.needed

-- On a valid barrier of a quiet kernel, for a caller that is in no line, BarrierSync returns without
-- panic to a valid barrier and a quiet kernel: it opens for the caller that completes the number
-- needed, and holds every other.
pub sync_lem :
    (b : Barrier) (k : Kernel) (context : Option ℕ) (c : ℕ)
    → IsQuiet k
    → IsValid b k
    → IsCaller k context c
    → (b' : Barrier) × (k' : Kernel) × (sync b context k ≡ ok (b', k'))
      × IsQuiet k'
      × IsValid b' k'
      × (Opened b k c b' k' ⊎ Held b k c b' k')
sync_lem b k context c v i call = elim (Bool-cases (b.present + 1 == b.needed)) [
  | inl h ↦
      let last : b.present + 1 ≡ b.needed = eqb→eq (b.present + 1) b.needed h in
      let (k1, k2, k', a, w, e, is) = pass_and_wake k context c b.waiting v call i.line in
      (
        record b { present = 0; waiting = [] },
        k',
        sync-last b k k1 k2 k' context last i.bounded a w e,
        is.is_quiet,
        record {
          line = record { waiters = tt; distinct = tt };
          counted = refl;
          one_missing = omega (arith, i.one_missing);
          bounded = i.bounded;
        },
        inl (record { was_last = omega (arith, i.counted); woke = is; reset = refl }),
      )
  | inr h ↦
      let early : b.present + 1 < b.needed =
        omega (arith, i.one_missing, eqb→ne (b.present + 1) b.needed h) in
      let (k1, k', a, e, is) = sleep k none context c v call in
      (
        record b { present = b.present + 1; waiting = b.waiting ++ c ∷ [] },
        k',
        sync-early b k k1 k' context c early i.bounded a e,
        is.is_quiet,
        record {
          line = IsLine-join k k' none c b.waiting i.line is;
          counted = omega (arith, i.counted, length-snoc b.waiting c);
          one_missing = early;
          bounded = i.bounded;
        },
        inr (record {
          not_last = omega (arith, i.counted);
          blocked = is;
          waiting = refl;
          same_needed = refl;
        }),
      )
]
