-- ===== src/Kernel/Resource/Exclusion.antt =====
-- The contract of a RESOURCE: held shared or by one, never both, and nobody waits for a free lock.
-- Each of the four operations keeps it.
use kernelpanic.Common.{
  ℕ, ◌+◌, ◌^◌, ◌≤◌, ◌<◌, ◌≡◌, refl, ap, ◌∙◌, subst, ◌≢◌, ◌⊎◌, inl, inr, some, List, [], ◌∷◌, ◌++◌,
  arith, length, length-snoc, All,
}
use kernelpanic.Common.Outcome.{Outcome, ok}
use kernelpanic.Kernel.State.{Kernel, ResourceState, shared, exclusive}
use kernelpanic.Kernel.Scheduler.Valid.{IsQuiet}
use kernelpanic.Kernel.Locking.Waits.{IsWaiter, IsLine}
use kernelpanic.Kernel.Locking.Calls.{Passed, Blocked}
use kernelpanic.Kernel.Locking.Blocks.{IsLine-join}
use kernelpanic.Kernel.Locking.Wakes.{Served}
use kernelpanic.Kernel.Resource.{Resource}
use kernelpanic.Kernel.Resource.Handover.{wants, front, behind, handed}

-- The first in line wants the lock for itself.
abbrev pub FirstIsExclusive : Kernel → List ℕ → Type 0
FirstIsExclusive k [] = Unit
FirstIsExclusive k (c ∷ q) = wants k c ≡ exclusive

pub record IsValid (lock : Resource) (k : Kernel) : Type 0 where
  pub line : IsLine k lock.waiting
  pub alone : lock.state ≡ exclusive → lock.num_shared ≡ 0
  pub nobody_for_free : lock.state ≡ shared → lock.num_shared ≡ 0 → lock.waiting ≡ []
  pub first_wants : lock.state ≡ shared → FirstIsExclusive k lock.waiting
  pub bounded : lock.num_shared + length lock.waiting < 2 ^ 64

-- The caller got the lock, and nobody was in line.
pub record Acquired (how : ResourceState) (lock : Resource) (k : Kernel) (c : ℕ) (lock' : Resource)
    (k' : Kernel) : Type 0 where
  pub passed : Passed k c k'
  pub was_shared : lock.state ≡ shared
  pub no_line : lock.waiting ≡ []
  pub held : lock'.state ≡ how
  pub same_line : lock'.waiting ≡ []
  pub one_more : how ≡ shared → lock'.num_shared ≡ lock.num_shared + 1
  pub was_free : how ≡ exclusive → lock.num_shared ≡ 0

-- Why a request has to wait: for a shared hold somebody is in line or holds the lock alone, for an
-- exclusive one somebody holds it in any way.
abbrev pub IsBusy : ResourceState → Resource → Type 0
IsBusy shared lock = (lock.waiting ≢ []) ⊎ (lock.state ≡ exclusive)
IsBusy exclusive lock = (lock.state ≡ exclusive) ⊎ (lock.num_shared ≢ 0)

-- The caller sleeps at the end of the line, and the lock is held as before.
pub record Queued (how : ResourceState) (lock : Resource) (k : Kernel) (c : ℕ) (lock' : Resource)
    (k' : Kernel) : Type 0 where
  pub busy : IsBusy how lock
  pub blocked : Blocked (some how) k c k'
  pub held : lock'.state ≡ lock.state
  pub same_shared : lock'.num_shared ≡ lock.num_shared
  pub waiting : lock'.waiting ≡ lock.waiting ++ c ∷ []

-- The line with the caller at its end.
abbrev pub queued : Resource → ℕ → Resource
queued lock c = record lock { waiting = lock.waiting ++ c ∷ [] }

module _ (lock : Resource) (k : Kernel) (k' : Kernel) (c : ℕ) (how : ResourceState)
    (i : IsValid lock k) (b : Blocked (some how) k c k') where
  first_stays :
      (q : List ℕ)
      → All (IsWaiter k) q
      → FirstIsExclusive k q
      → q ≢ []
      → FirstIsExclusive k' (q ++ c ∷ [])
  first_stays [] w f ne = absurd (ne refl)
  first_stays (d ∷ q) w f ne = ap (λ x. x.wait_state) (b.others d other) ∙ f
    where
      other : d ≢ c
      other e = ground (arith, w.0.is_blocking, b.was_ready)

  first_joins :
      (q : List ℕ)
      → lock.waiting ≡ q
      → lock.state ≡ shared
      → (lock.waiting ≢ []) ⊎ (how ≡ exclusive)
      → FirstIsExclusive k' (q ++ c ∷ [])
  first_joins [] h s (inl ne) = absurd (ne h)
  first_joins [] h s (inr e) = b.records_info how refl ∙ e
  first_joins (d ∷ q) h s o =
      first_stays (d ∷ q) (subst (All (IsWaiter k)) h i.line.waiters)
        (subst (FirstIsExclusive k) h (i.first_wants s)) (λ e. cc)

  -- Why a caller may be made to wait: the lock is not free for it.
  pub queued-IsValid :
      (lock.state ≡ shared → (lock.waiting ≢ []) ⊎ (how ≡ exclusive))
      → (lock.state ≡ shared → lock.num_shared ≢ 0)
      → lock.num_shared + length lock.waiting + 1 < 2 ^ 64
      → IsValid (queued lock c) k'
  queued-IsValid why busy room = record {
    line = IsLine-join k k' (some how) c lock.waiting i.line b;
    alone = i.alone;
    nobody_for_free = λ s z. absurd (busy s z);
    first_wants = λ s. first_joins lock.waiting refl s (why s);
    bounded = omega (arith, length-snoc lock.waiting c);
  }

  pub as_Queued : IsBusy how lock → Queued how lock k c (queued lock c) k'
  as_Queued h = record { busy = h; blocked = b; held = refl; same_shared = refl; waiting = refl }

pub state-cases : (w : ResourceState) → (w ≡ shared) ⊎ (w ≡ exclusive)
state-cases shared = inl refl
state-cases exclusive = inr refl

pub nil-cases : (q : List ℕ) → (q ≡ []) ⊎ (q ≢ [])
nil-cases [] = inl refl
nil-cases (c ∷ q) = inr (λ e. cc)

-- What a lock operation gives: it returns, to a quiet kernel and a valid lock.
abbrev pub Locks :
    Outcome (Resource × Kernel) → (how : ResourceState) → Resource → Kernel → ℕ → Type 0
Locks run how lock k c =
    (lock' : Resource) × (k' : Kernel) × (run ≡ ok (lock', k'))
    × IsQuiet k'
    × IsValid lock' k'
    × (Acquired how lock k c lock' k' ⊎ Queued how lock k c lock' k')

-- What an unlock operation gives. The lock stays as `kept` says if it is still shared or nobody
-- waits; else it is handed to the front of the line.
abbrev pub Unlocks : Outcome (Resource × Kernel) → (kept : Resource) → Resource → Kernel → Type 0
Unlocks run kept lock k =
    (lock' : Resource) × (k' : Kernel) × (run ≡ ok (lock', k'))
    × IsQuiet k'
    × IsValid lock' k'
    × ((lock' ≡ kept) × (k' ≡ k) × ((1 < lock.num_shared) ⊎ (lock.waiting ≡ []))
        ⊎ (lock' ≡ handed k lock.waiting)
          × Served k (front k lock.waiting) (behind k lock.waiting) k'
          × (lock.num_shared ≤ 1)
          × (lock.waiting ≢ []))
