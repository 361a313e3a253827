-- ===== src/Kernel/Resource/Acquire.antt =====
-- `ResourceLockShared` and `ResourceLockExclusive`.
use kernelpanic.Common.{
  ℕ, ◌+◌, ◌^◌, ◌<◌, ◌≡◌, refl, sym, subst, ◌≢◌, ◌⊎◌, inl, inr, Option, some, [], arith, ◌==◌,
  Bool-cases, eqb→eq, eqb→ne, length,
}
use kernelpanic.Common.Outcome.{ok}
use kernelpanic.Utils.Fifo
use kernelpanic.Kernel.State.{Kernel, ResourceState, shared, exclusive}
use kernelpanic.Kernel.Scheduler.Valid.{IsQuiet}
use kernelpanic.Kernel.Locking.{acquire, block, locking_start, locking_end}
use kernelpanic.Kernel.Locking.Calls.{IsCaller, pass}
use kernelpanic.Kernel.Locking.Blocks.{sleep, IsLine-keep}
use kernelpanic.Kernel.Resource.{Resource, lock_shared, lock_exclusive}
use kernelpanic.Kernel.Resource.Exclusion.{
  FirstIsExclusive, IsValid, queued, queued-IsValid, as_Queued, state-cases, nil-cases, Locks,
}

shared-pass :
    (lock : Resource) (k k1 k' : Kernel) (context : Option ℕ)
    → lock.waiting ≡ []
    → lock.state ≡ shared
    → lock.num_shared + 1 < 2 ^ 64
    → acquire context (locking_start k) ≡ ok k1
    → locking_end k1 ≡ ok k'
    → lock_shared lock context k ≡ ok (record lock { num_shared = lock.num_shared + 1 }, k')
unfolding lock_shared Fifo.is_empty
shared-pass lock k k1 k' context n s r a e = ground arith

shared-block :
    (lock : Resource) (k k1 k' : Kernel) (context : Option ℕ) (c : ℕ)
    → (lock.waiting ≢ []) ⊎ (lock.state ≡ exclusive)
    → block (some shared) context (locking_start k) ≡ ok (c, k1)
    → locking_end k1 ≡ ok k'
    → lock_shared lock context k ≡ ok (queued lock c, k')
unfolding lock_shared Fifo.enqueue
shared-block lock k k1 k' context c h a e = ground arith

-- On a valid lock of a quiet kernel, for a caller that is in no line and with less than 2 ^ 64
-- holders and waiters, ResourceLockShared returns without panic to a valid lock and a quiet kernel:
-- the caller shares the lock if it is held shared or free and nobody is in line, and else goes to
-- the end of the line.
pub lock_shared_lem :
    (lock : Resource) (k : Kernel) (context : Option ℕ) (c : ℕ)
    → IsQuiet k
    → IsValid lock k
    → IsCaller k context c
    → lock.num_shared + length lock.waiting + 1 < 2 ^ 64
    → Locks (lock_shared lock context k) shared lock k c
lock_shared_lem lock k context c v i call room = elim (state-cases lock.state) [
  | inr s ↦ wait_for (inr s) (λ t. absurd (cc)) (λ t. absurd (cc))
  | inl s ↦ elim (nil-cases lock.waiting) [
    | inr ne ↦ wait_for (inl ne) (λ t. inl ne) (λ t z. ne (i.nobody_for_free t z))
    | inl n ↦
        let (k1, k', a, e, is) = pass k context c v call in
        (
          record lock { num_shared = lock.num_shared + 1 },
          k',
          shared-pass lock k k1 k' context n s (omega arith) a e,
          is.is_quiet,
          record {
            line = IsLine-keep k k' lock.waiting is.keeps i.line;
            alone = λ x. absurd (cc);
            nobody_for_free = λ x z. n;
            first_wants = λ x. subst (FirstIsExclusive k') (sym n) tt;
            bounded = omega arith;
          },
          inl (record {
            passed = is;
            was_shared = s;
            no_line = n;
            held = s;
            same_line = n;
            one_more = λ x. refl;
            was_free = λ x. absurd (cc);
          }),
        )
  ]
]
  where
    wait_for :
        (lock.waiting ≢ []) ⊎ (lock.state ≡ exclusive)
        → (lock.state ≡ shared → (lock.waiting ≢ []) ⊎ ◌≡◌ {A = ResourceState} shared exclusive)
        → (lock.state ≡ shared → lock.num_shared ≢ 0)
        → Locks (lock_shared lock context k) shared lock k c
    wait_for h why busy =
        let (k1, k', b, e, is) = sleep k (some shared) context c v call in
        (
          queued lock c,
          k',
          shared-block lock k k1 k' context c h b e,
          is.is_quiet,
          queued-IsValid lock k k' c shared i is why busy room,
          inr (as_Queued lock k k' c shared i is h),
        )

exclusive-pass :
    (lock : Resource) (k k1 k' : Kernel) (context : Option ℕ)
    → lock.waiting ≡ []
    → lock.state ≡ shared
    → lock.num_shared ≡ 0
    → acquire context (locking_start k) ≡ ok k1
    → locking_end k1 ≡ ok k'
    → lock_exclusive lock context k ≡ ok (record lock { state = exclusive }, k')
unfolding lock_exclusive Fifo.is_empty
exclusive-pass lock k k1 k' context n s z a e = ground arith

exclusive-block :
    (lock : Resource) (k k1 k' : Kernel) (context : Option ℕ) (c : ℕ)
    → (lock.state ≡ exclusive) ⊎ (lock.num_shared ≢ 0)
    → block (some exclusive) context (locking_start k) ≡ ok (c, k1)
    → locking_end k1 ≡ ok k'
    → lock_exclusive lock context k ≡ ok (queued lock c, k')
unfolding lock_exclusive Fifo.enqueue
exclusive-block lock k k1 k' context c h a e = ground arith

-- On a valid lock of a quiet kernel, for a caller that is in no line and with less than 2 ^ 64
-- holders and waiters, ResourceLockExclusive returns without panic to a valid lock and a quiet
-- kernel: the caller gets the lock for itself if it is free, and else goes to the end of the line.
pub lock_exclusive_lem :
    (lock : Resource) (k : Kernel) (context : Option ℕ) (c : ℕ)
    → IsQuiet k
    → IsValid lock k
    → IsCaller k context c
    → lock.num_shared + length lock.waiting + 1 < 2 ^ 64
    → Locks (lock_exclusive lock context k) exclusive lock k c
lock_exclusive_lem lock k context c v i call room = elim (state-cases lock.state) [
  | inr s ↦ wait_for (inl s) (λ t. inr refl) (λ t. absurd (cc))
  | inl s ↦ elim (Bool-cases (lock.num_shared == 0)) [
    | inr h ↦
        let busy = eqb→ne lock.num_shared 0 h in wait_for (inr busy) (λ t. inr refl) (λ t. busy)
    | inl h ↦
        let z : lock.num_shared ≡ 0 = eqb→eq lock.num_shared 0 h in
        let n = i.nobody_for_free s z in
        let (k1, k', a, e, is) = pass k context c v call in
        (
          record lock { state = exclusive },
          k',
          exclusive-pass lock k k1 k' context n s z a e,
          is.is_quiet,
          record {
            line = IsLine-keep k k' lock.waiting is.keeps i.line;
            alone = λ x. z;
            nobody_for_free = λ x z. n;
            first_wants = λ x. absurd (cc);
            bounded = i.bounded;
          },
          inl (record {
            passed = is;
            was_shared = s;
            no_line = n;
            held = refl;
            same_line = n;
            one_more = λ x. absurd (cc);
            was_free = λ x. z;
          }),
        )
  ]
]
  where
    wait_for :
        (lock.state ≡ exclusive) ⊎ (lock.num_shared ≢ 0)
        → (lock.state ≡ shared → (lock.waiting ≢ []) ⊎ ◌≡◌ {A = ResourceState} exclusive exclusive)
        → (lock.state ≡ shared → lock.num_shared ≢ 0)
        → Locks (lock_exclusive lock context k) exclusive lock k c
    wait_for h why busy =
        let (k1, k', b, e, is) = sleep k (some exclusive) context c v call in
        (
          queued lock c,
          k',
          exclusive-block lock k k1 k' context c h b e,
          is.is_quiet,
          queued-IsValid lock k k' c exclusive i is why busy room,
          inr (as_Queued lock k k' c exclusive i is h),
        )
