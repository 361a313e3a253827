-- ===== src/Kernel/Resource/Release.antt =====
-- `ResourceUnlockShared` and `ResourceUnlockExclusive`.
use kernelpanic.Common.{
  ℕ, ◌+◌, ◌-◌, ◌%◌, ◌^◌, ◌<◌, ◌≡◌, refl, sym, ap, ◌∙◌, subst, ◌≢◌, ◌⊎◌, inl, inr, List, [], ◌∷◌,
  arith, ltb, Bool-cases, ltb→lt, ltb→le, length, length-append,
}
use kernelpanic.Common.Outcome.{ok}
use kernelpanic.Utils.Fifo
use kernelpanic.Kernel.State.{Kernel, shared, exclusive}
use kernelpanic.Kernel.Scheduler.Valid.{IsQuiet}
use kernelpanic.Kernel.Locking.{locking_start, locking_end}
use kernelpanic.Kernel.Locking.Wakes.{Served, empty_section}
use kernelpanic.Kernel.Resource.{Resource, unlock_shared, unlock_exclusive, wake_threads}
use kernelpanic.Kernel.Resource.Handover.{
  wants, sharers, behind_sharers, front, behind, handed, front-append, wake_threads-handed,
}
use kernelpanic.Kernel.Resource.Exclusion.{
  FirstIsExclusive, IsValid, state-cases, nil-cases, Unlocks,
}

-- Behind the sharers stands a waiter that wants the lock for itself, or nobody.
first_behind : (k : Kernel) (q : List ℕ) → FirstIsExclusive k (behind_sharers k q)
unfolding behind_sharers
first_behind k [] = tt
first_behind k (c ∷ q) = elim (state-cases (wants k c)) [
  | inl e ↦ rw e (first_behind k q)
  | inr e ↦ rw e e
]

first_later :
    (k k' : Kernel) (q : List ℕ)
    → ((d : ℕ) → wants k' d ≡ wants k d)
    → FirstIsExclusive k q
    → FirstIsExclusive k' q
first_later k k' [] same f = tt
first_later k k' (c ∷ q) same f = same c ∙ f

handed-bounded :
    (k : Kernel) (q : List ℕ)
    → length q < 2 ^ 64
    → (handed k q).num_shared + length (handed k q).waiting < 2 ^ 64
unfolding handed front behind
handed-bounded k [] b = omega arith
handed-bounded k (c ∷ q) b =
    let whole = ap length (front-append k (c ∷ q)) in
    let sum = length-append (front k (c ∷ q)) (behind k (c ∷ q)) in
    elim (state-cases (wants k c)) [ inl e ↦ ground arith | inr e ↦ ground arith ]

-- A lock that was handed over is valid.
handed-IsValid :
    (k k' : Kernel) (q : List ℕ)
    → q ≢ []
    → length q < 2 ^ 64
    → Served k (front k q) (behind k q) k'
    → IsValid (handed k q) k'
unfolding handed
handed-IsValid k k' [] ne b is = absurd (ne refl)
handed-IsValid k k' (c ∷ q) ne b is = record {
  line = is.line;
  alone = λ e. ground arith;
  nobody_for_free = λ e z. unfold front sharers in absurd (ground arith);
  first_wants = λ e.
      unfold behind behind_sharers in
      rw (e) (first_later k k' (behind_sharers k q) is.same_wants (first_behind k q));
  bounded = handed-bounded k (c ∷ q) b;
}

exclusive-free :
    (lock : Resource) (k k' : Kernel)
    → lock.state ≡ exclusive
    → lock.num_shared ≡ 0
    → lock.waiting ≡ []
    → locking_end (locking_start k) ≡ ok k'
    → unlock_exclusive lock k ≡ ok (record lock { state = shared }, k')
unfolding unlock_exclusive Fifo.is_empty
exclusive-free lock k k' s z n e = ground arith

exclusive-hand-on :
    (lock lock' : Resource) (k k1 k' : Kernel) (q : List ℕ)
    → lock.waiting ≡ q
    → lock.state ≡ exclusive
    → lock.num_shared ≡ 0
    → q ≢ []
    → wake_threads lock (locking_start k) ≡ ok (lock', k1)
    → locking_end k1 ≡ ok k'
    → unlock_exclusive lock k ≡ ok (lock', k')
exclusive-hand-on lock lock' k k1 k' [] h s z ne w e = absurd (ne refl)
exclusive-hand-on lock lock' k k1 k' (c ∷ q) h s z ne w e =
    unfold unlock_exclusive Fifo.is_empty in ground arith

exclusive-hand :
    (lock lock' : Resource) (k k1 k' : Kernel)
    → lock.state ≡ exclusive
    → lock.num_shared ≡ 0
    → lock.waiting ≢ []
    → wake_threads lock (locking_start k) ≡ ok (lock', k1)
    → locking_end k1 ≡ ok k'
    → unlock_exclusive lock k ≡ ok (lock', k')
exclusive-hand lock lock' k k1 k' s z ne w e =
    exclusive-hand-on lock lock' k k1 k' lock.waiting refl s z ne w e

-- On a valid lock of a quiet kernel whose state is exclusive, ResourceUnlockExclusive returns without panic to a valid lock and a quiet kernel: the lock is free
-- if nobody waits, and else it is handed to the front of the line.
pub unlock_exclusive_lem :
    (lock : Resource) (k : Kernel)
    → IsQuiet k
    → IsValid lock k
    → lock.state ≡ exclusive
    → Unlocks (unlock_exclusive lock k) (record lock { state = shared }) lock k
unlock_exclusive_lem lock k v i s = elim (nil-cases lock.waiting) [
  | inl n ↦ (
    record lock { state = shared },
    k,
    exclusive-free lock k k s (i.alone s) n (empty_section k v),
    v,
    record {
      line = i.line;
      alone = λ x. i.alone s;
      nobody_for_free = λ x z. n;
      first_wants = λ x. subst (FirstIsExclusive k) (sym n) tt;
      bounded = i.bounded;
    },
    inl (refl, refl, inr n),
  )
  | inr ne ↦
      let (k', runs, ends, is) =
        wake_threads-handed lock k v i.line ne (i.alone s) (omega (arith, i.bounded)) in
      (
        handed k lock.waiting,
        k',
        exclusive-hand lock _ k _ k' s (i.alone s) ne runs ends,
        is.is_quiet,
        handed-IsValid k k' lock.waiting ne (omega (arith, i.bounded)) is,
        inr (refl, is, omega (arith, i.alone s), ne),
      )
]

-- One sharer less.
abbrev pub released : Resource → Resource
released lock = record lock { num_shared = lock.num_shared - 1 }

shared-keep :
    (lock : Resource) (k k' : Kernel)
    → lock.state ≡ shared
    → 0 < lock.num_shared
    → lock.num_shared < 2 ^ 64
    → (1 < lock.num_shared) ⊎ (lock.waiting ≡ [])
    → locking_end (locking_start k) ≡ ok k'
    → unlock_shared lock k ≡ ok (released lock, k')
unfolding unlock_shared Fifo.is_empty
shared-keep lock k k' s p b h e =
    let less : (lock.num_shared + 2 ^ 64 - 1) % 2 ^ 64 ≡ lock.num_shared - 1 = omega arith in
    ground arith

shared-hand-on :
    (lock lock' : Resource) (k k1 k' : Kernel) (q : List ℕ)
    → lock.waiting ≡ q
    → lock.state ≡ shared
    → lock.num_shared ≡ 1
    → q ≢ []
    → wake_threads (released lock) (locking_start k) ≡ ok (lock', k1)
    → locking_end k1 ≡ ok k'
    → unlock_shared lock k ≡ ok (lock', k')
shared-hand-on lock lock' k k1 k' [] h s p ne w e = absurd (ne refl)
shared-hand-on lock lock' k k1 k' (c ∷ q) h s p ne w e =
    let less : (lock.num_shared + 2 ^ 64 - 1) % 2 ^ 64 ≡ lock.num_shared - 1 = omega arith in
    let zero_left : lock.num_shared - 1 ≡ 0 = omega arith in
    unfold unlock_shared Fifo.is_empty in ground arith

-- On a valid lock of a quiet kernel that is held shared, ResourceUnlockShared returns without panic
-- to a valid lock and a quiet kernel: one sharer less holds the lock, and the last one hands it to
-- the front of the line if somebody waits.
pub unlock_shared_lem :
    (lock : Resource) (k : Kernel)
    → IsQuiet k
    → IsValid lock k
    → lock.state ≡ shared
    → 0 < lock.num_shared
    → Unlocks (unlock_shared lock k) (released lock) lock k
unlock_shared_lem lock k v i s p = elim (Bool-cases (ltb 1 lock.num_shared)) [
  | inl more ↦
      let two = ltb→lt 1 lock.num_shared more in
      (
        released lock,
        k,
        shared-keep lock k k s p (omega (arith, i.bounded)) (inl two) (empty_section k v),
        v,
        record {
          line = i.line;
          alone = λ x. absurd (cc);
          nobody_for_free = λ x z. absurd (omega arith);
          first_wants = i.first_wants;
          bounded = omega (arith, i.bounded);
        },
        inl (refl, refl, inl two),
      )
  | inr last ↦
      let one : lock.num_shared ≡ 1 = omega (arith, ltb→le 1 lock.num_shared last) in
      elim (nil-cases lock.waiting) [
        | inl n ↦ (
          released lock,
          k,
          shared-keep lock k k s p (omega (arith, i.bounded)) (inr n) (empty_section k v),
          v,
          record {
            line = i.line;
            alone = λ x. absurd (cc);
            nobody_for_free = λ x z. n;
            first_wants = i.first_wants;
            bounded = omega (arith, i.bounded);
          },
          inl (refl, refl, inr n),
        )
        | inr ne ↦
            let (k', runs, ends, is) =
              wake_threads-handed (released lock) k v i.line ne (omega arith)
                (omega (arith, i.bounded)) in
            (
              handed k lock.waiting,
              k',
              shared-hand-on lock _ k _ k' lock.waiting refl s one ne runs ends,
              is.is_quiet,
              handed-IsValid k k' lock.waiting ne (omega (arith, i.bounded)) is,
              inr (refl, is, omega arith, ne),
            )
      ]
]
