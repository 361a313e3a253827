-- ===== src/Kernel/Semaphore/Permits.antt =====
-- SemaphoreDown and SemaphoreUp keep the semaphore's contract, and what each branch does.
use kernelpanic.Common.{
  ℕ, ◌+◌, ◌-◌, ◌^◌, ◌<◌, ◌≡◌, refl, sym, ◌∙◌, subst, ◌≢◌, ◌⊎◌, inl, inr, Option, none, some, List,
  [], ◌∷◌, ◌++◌, arith, ◌==◌, Bool-cases, eqb→eq, eqb→ne, All-map, All-zip,
}
use kernelpanic.Common.Outcome.{ok}
use kernelpanic.Utils.Fifo
use kernelpanic.Kernel.State.{Kernel}
use kernelpanic.Kernel.Scheduler.Valid.{IsQuiet}
use kernelpanic.Kernel.Locking.{acquire, block, locking_start, locking_end}
use kernelpanic.Kernel.Locking.Waits.{IsWaiter, IsLine}
use kernelpanic.Kernel.Locking.Calls.{IsCaller, Passed, pass, Blocked}
use kernelpanic.Kernel.Locking.Blocks.{sleep, IsLine-join, IsLine-keep}
use kernelpanic.Kernel.Locking.Wakes.{wake_one, WokenOne, empty_section}
use kernelpanic.Kernel.Semaphore.{Semaphore, down, up}

-- Who waits is in line, and nobody waits while there are permits.
pub record IsValid (s : Semaphore) (k : Kernel) : Type 0 where
  pub line : IsLine k s.waiting
  pub no_permit : s.count ≢ 0 → s.waiting ≡ []
  pub bounded : s.count < 2 ^ 64

-- With a permit the caller takes it and goes on.
pub record TookPermit (s : Semaphore) (k : Kernel) (c : ℕ) (s' : Semaphore) (k' : Kernel)
    : Type 0 where
  pub passed : Passed k c k'
  pub count : s.count ≡ s'.count + 1
  pub waiting : s'.waiting ≡ s.waiting

-- Without one the caller joins the end of the line.
pub record JoinedLine (s : Semaphore) (k : Kernel) (c : ℕ) (s' : Semaphore) (k' : Kernel)
    : Type 0 where
  pub blocked : Blocked none k c k'
  pub was_zero : s.count ≡ 0
  pub count : s'.count ≡ 0
  pub waiting : s'.waiting ≡ s.waiting ++ c ∷ []

down-pass :
    (s : Semaphore) (k k1 k' : Kernel) (context : Option ℕ)
    → s.count ≢ 0
    → acquire context (locking_start k) ≡ ok k1
    → locking_end k1 ≡ ok k'
    → down s context k ≡ ok (record s { count = s.count - 1 }, k')
unfolding down
down-pass s k k1 k' context ne a b = ground arith

down-block :
    (s : Semaphore) (k k1 k' : Kernel) (context : Option ℕ) (c : ℕ)
    → s.count ≡ 0
    → block none context (locking_start k) ≡ ok (c, k1)
    → locking_end k1 ≡ ok k'
    → down s context k ≡ ok (record s { waiting = s.waiting ++ c ∷ [] }, k')
unfolding down Fifo.enqueue
down-block s k k1 k' context c z a b = ground arith

-- From a quiet kernel and a valid semaphore, for a caller that is in no line, SemaphoreDown returns
-- without panic, to a quiet kernel and a valid semaphore. A permit is taken if there is one; otherwise the caller goes to the end of
-- the line.
pub down_lem :
    (s : Semaphore) (k : Kernel) (context : Option ℕ) (c : ℕ)
    → IsQuiet k
    → IsValid s k
    → IsCaller k context c
    → (s' : Semaphore) × (k' : Kernel) × (down s context k ≡ ok (s', k'))
      × IsQuiet k'
      × IsValid s' k'
      × (TookPermit s k c s' k' ⊎ JoinedLine s k c s' k')
down_lem s k context c v i call = elim (Bool-cases (s.count == 0)) [
  | inl z ↦
      let zero_count : s.count ≡ 0 = eqb→eq s.count 0 z in
      let (k1, k', b, e, is) = sleep k none context c v call in
      (
        record s { waiting = s.waiting ++ c ∷ [] },
        k',
        down-block s k k1 k' context c zero_count b e,
        is.is_quiet,
        record {
          line = IsLine-join k k' none c s.waiting i.line is;
          no_permit = λ ne. absurd (ne zero_count);
          bounded = i.bounded;
        },
        inr (record { blocked = is; was_zero = zero_count; count = zero_count; waiting = refl }),
      )
  | inr nz ↦
      let ne = eqb→ne s.count 0 nz in
      let (k1, k', a, e, is) = pass k context c v call in
      (
        record s { count = s.count - 1 },
        k',
        down-pass s k k1 k' context ne a e,
        is.is_quiet,
        record {
          line = IsLine-keep k k' s.waiting is.keeps i.line;
          no_permit = λ h. i.no_permit ne;
          bounded = omega (arith, i.bounded);
        },
        inl (record { passed = is; count = omega arith; waiting = refl }),
      )
]

-- The waiter at the head of the line is woken, and gets the permit; the others go on waiting.
pub record WokeFirst (s : Semaphore) (k : Kernel) (s' : Semaphore) (k' : Kernel) : Type 0 where
  pub first : ℕ
  pub was_first : s.waiting ≡ first ∷ s'.waiting
  pub woken : WokenOne k first k'
  pub count : s'.count ≡ s.count

-- With nobody in line the permit is put back.
pub record AddedPermit (s : Semaphore) (k : Kernel) (s' : Semaphore) (k' : Kernel) : Type 0 where
  pub nobody : s.waiting ≡ []
  pub same_kernel : k' ≡ k
  pub count : s'.count ≡ s.count + 1
  pub waiting : s'.waiting ≡ []

up-wake :
    (s : Semaphore) (k k1 k' : Kernel) (c : ℕ) (q : List ℕ)
    → s.waiting ≡ c ∷ q
    → acquire (some c) (locking_start k) ≡ ok k1
    → locking_end k1 ≡ ok k'
    → up s k ≡ ok (record s { waiting = q }, k')
unfolding up Fifo.pop
up-wake s k k1 k' c q h a b = ground arith

up-add :
    (s : Semaphore) (k k' : Kernel)
    → s.waiting ≡ []
    → s.count + 1 < 2 ^ 64
    → locking_end (locking_start k) ≡ ok k'
    → up s k ≡ ok (record s { count = s.count + 1 }, k')
unfolding up Fifo.pop
up-add s k k' h b e = ground arith

up-on :
    (s : Semaphore) (k : Kernel) (q : List ℕ)
    → s.waiting ≡ q
    → IsQuiet k
    → IsValid s k
    → s.count + 1 < 2 ^ 64
    → (s' : Semaphore) × (k' : Kernel) × (up s k ≡ ok (s', k'))
      × IsQuiet k'
      × IsValid s' k'
      × (WokeFirst s k s' k' ⊎ AddedPermit s k s' k')
up-on s k [] h v i b = (
  record s { count = s.count + 1 },
  k,
  up-add s k k h b (empty_section k v),
  v,
  record { line = i.line; no_permit = λ ne. h; bounded = b },
  inr (record { nobody = h; same_kernel = refl; count = refl; waiting = h }),
)
up-on s k (c ∷ q) h v i b =
    let line = subst (IsLine k) h i.line in
    let (k1, k', a, e, is) = wake_one k c v line.waiters.0 in
    (
      record s { waiting = q },
      k',
      up-wake s k k1 k' c q h a e,
      is.is_quiet,
      record {
        line = record {
          waiters =
              All-map (λ d. (d ≢ c) × IsWaiter k d) (IsWaiter k') q (λ d (ne, w). is.others d ne w)
                (All-zip (λ d. d ≢ c) (IsWaiter k) q line.distinct.0 line.waiters.1);
          distinct = line.distinct.1;
        };
        no_permit = λ ne. absurd (cons-ne-nil (sym h ∙ i.no_permit ne));
        bounded = i.bounded;
      },
      inl (record { first = c; was_first = h; woken = is; count = refl }),
    )
  where
    cons-ne-nil : {x : ℕ} {xs : List ℕ} → x ∷ xs ≢ []
    cons-ne-nil e = cc

-- From a quiet kernel and a valid semaphore SemaphoreUp returns without panic, to a quiet kernel
-- and a valid semaphore. It hands the permit to the head of the line, or adds it to the count if
-- nobody waits, provided the count does not overflow.
pub up_lem :
    (s : Semaphore) (k : Kernel)
    → IsQuiet k
    → IsValid s k
    → s.count + 1 < 2 ^ 64
    → (s' : Semaphore) × (k' : Kernel) × (up s k ≡ ok (s', k'))
      × IsQuiet k'
      × IsValid s' k'
      × (WokeFirst s k s' k' ⊎ AddedPermit s k s' k')
up_lem s k v i b = up-on s k s.waiting refl v i b
