-- ===== src/Kernel/Resource/Handover.antt =====
-- `ResourceWakeThreads`: who gets the lock when it falls free.
use kernelpanic.Common.{
  ℕ, suc, ◌+◌, ◌^◌, ◌<◌, ◌≡◌, refl, sym, ap, ap₂, ◌∙◌, subst, ◌≢◌, ◌⊎◌, inl, inr, some, List, [],
  ◌∷◌, ◌++◌, arith, length,
}
use kernelpanic.Common.Outcome.{Outcome, ok}
use kernelpanic.Utils.Fifo
use kernelpanic.Kernel.State.{Kernel, ResourceState, shared, exclusive}
use kernelpanic.Kernel.Scheduler.{start_critical}
use kernelpanic.Kernel.Scheduler.Valid.{IsAwake, IsQuiet}
use kernelpanic.Kernel.Locking.{acquire, locking_start, locking_end}
use kernelpanic.Kernel.Locking.Calls.{locking_start-IsAwake, start-crit}
use kernelpanic.Kernel.Locking.Wakes.{started-IsLine, served, Served}
use kernelpanic.Kernel.Locking.Waits.{
  IsLine, wake, wake_all, acquire-waiter, wake-IsAwake, wake-crit, IsLine-wake,
}
use kernelpanic.Kernel.Locking.Granted.{wake-wait_state}
use kernelpanic.Kernel.Resource.{Resource, wake_loop, wake_threads}

abbrev pub wants : Kernel → ℕ → ResourceState
wants k c = (k.contexts c).wait_state

abbrev pub if_shared {ℓ} : {A : Type ℓ} → ResourceState → A → A → A
if_shared shared x y = x
if_shared exclusive x y = y

-- The waiters before the first that wants the lock for itself, and those from it on.
unfoldable pub sharers : Kernel → List ℕ → List ℕ
sharers k [] = []
sharers k (c ∷ q) = if_shared (wants k c) (c ∷ sharers k q) []

unfoldable pub behind_sharers : Kernel → List ℕ → List ℕ
behind_sharers k [] = []
behind_sharers k (c ∷ q) = if_shared (wants k c) (behind_sharers k q) (c ∷ q)

pub sharers-append : (k : Kernel) (q : List ℕ) → sharers k q ++ behind_sharers k q ≡ q
unfolding sharers behind_sharers
sharers-append k [] = refl
sharers-append k (c ∷ q) = ground (arith, sharers-append k q)

sharers-wake : (k : Kernel) (c : ℕ) (q : List ℕ) → sharers (wake c k) q ≡ sharers k q
unfolding sharers
sharers-wake k c [] = refl
sharers-wake k c (d ∷ q) = ground (arith, wake-wait_state k c d, sharers-wake k c q)

behind_sharers-wake :
    (k : Kernel) (c : ℕ) (q : List ℕ) → behind_sharers (wake c k) q ≡ behind_sharers k q
unfolding behind_sharers
behind_sharers-wake k c [] = refl
behind_sharers-wake k c (d ∷ q) = ground (arith, wake-wait_state k c d, behind_sharers-wake k c q)

-- Who is woken: the first waiter alone, if it wants the lock for itself, or all sharers in front.
unfoldable pub front : Kernel → List ℕ → List ℕ
unfolding sharers
front k [] = []
front k (c ∷ q) = if_shared (wants k c) (sharers k (c ∷ q)) (c ∷ [])

unfoldable pub behind : Kernel → List ℕ → List ℕ
unfolding behind_sharers
behind k [] = []
behind k (c ∷ q) = if_shared (wants k c) (behind_sharers k (c ∷ q)) q

pub front-append : (k : Kernel) (q : List ℕ) → front k q ++ behind k q ≡ q
unfolding front behind
front-append k [] = refl
front-append k (c ∷ q) = ground (arith, sharers-append k q)

-- The lock after it was handed over.
unfoldable pub handed : Kernel → List ℕ → Resource
unfolding front behind
handed k [] = record { state = shared; waiting = []; num_shared = 0 }
handed k (c ∷ q) = record {
  state = wants k c;
  waiting = behind k (c ∷ q);
  num_shared = if_shared (wants k c) (length (front k (c ∷ q))) 0;
}

loop-step :
    (c : ℕ) (q : List ℕ) (lock : Resource) (k : Kernel) (r : Resource) (k' : Kernel)
    → wants k c ≡ shared
    → acquire (some c) k ≡ ok (wake c k)
    → lock.num_shared + 1 < 2 ^ 64
    → wake_loop q
        (record lock { num_shared = lock.num_shared + 1; state = shared; waiting = q })
        (wake c k)
      ≡ ok (r, k')
    → wake_loop (c ∷ q) lock k ≡ ok (r, k')
unfolding wake_loop
loop-step c q lock k r k' w a b h = ground arith

loop-stop :
    (c : ℕ) (q : List ℕ) (lock : Resource) (k : Kernel)
    → wants k c ≡ exclusive
    → 0 < lock.num_shared
    → wake_loop (c ∷ q) lock k ≡ ok (record lock { waiting = c ∷ q }, k)
unfolding wake_loop
loop-stop c q lock k w n = ground arith

loop-alone :
    (c : ℕ) (q : List ℕ) (lock : Resource) (k : Kernel)
    → wants k c ≡ exclusive
    → lock.num_shared ≡ 0
    → acquire (some c) k ≡ ok (wake c k)
    → wake_loop (c ∷ q) lock k ≡ ok (record lock { waiting = q; state = exclusive }, wake c k)
unfolding wake_loop
loop-alone c q lock k w n a = ground arith

wants-cases : (w : ResourceState) → (w ≡ shared) ⊎ (w ≡ exclusive)
wants-cases shared = inl refl
wants-cases exclusive = inr refl

-- The lock that is held shared by `n` with `q` in line.
abbrev pub share : ℕ → List ℕ → Resource
share n q = record { state = shared; waiting = q; num_shared = n }

-- The loop, once it holds the lock shared.
loop-sharers :
    (q : List ℕ) (lock : Resource) (k : Kernel)
    → IsAwake k
    → 0 < k.crit_count
    → IsLine k q
    → lock.state ≡ shared
    → 0 < lock.num_shared
    → lock.num_shared + length q < 2 ^ 64
    → wake_loop q lock k
      ≡ ok (
        share (lock.num_shared + length (sharers k q)) (behind_sharers k q),
        wake_all (sharers k q) k,
      )
unfolding sharers behind_sharers
loop-sharers [] lock k a crit l s n b =
    unfold wake_loop in
    ap₂ (λ w (m : ℕ). ok (record { state = w; waiting = []; num_shared = m }, k)) s (omega arith)
loop-sharers (c ∷ q) lock k a crit l s n b = elim (wants-cases (wants k c)) [
  | inr e ↦ rw e (
      loop-stop c q lock k e n
      ∙ ap₂ (λ w (m : ℕ). ok (record { state = w; waiting = c ∷ q; num_shared = m }, k)) s
          (omega arith))
  | inl e ↦
      let next : Resource = share (lock.num_shared + 1) q in
      let ih =
        loop-sharers q next (wake c k) (wake-IsAwake k c a l.waiters.0)
          (omega (arith, wake-crit k c)) (IsLine-wake k c q l) refl (omega arith) (omega arith) in
      rw e (
        loop-step c q lock k _ _ e (acquire-waiter k c crit l.waiters.0) (omega arith) ih
        ∙ same_result c q lock.num_shared k)
]
  where
    same_result :
        (c : ℕ) (q : List ℕ) (n : ℕ) (k : Kernel)
        → ◌≡◌ {A = Outcome (Resource × Kernel)}
            (ok (
              share (n + 1 + length (sharers (wake c k) q)) (behind_sharers (wake c k) q),
              wake_all (sharers (wake c k) q) (wake c k),
            ))
            (ok (
              share (n + suc (length (sharers k q))) (behind_sharers k q),
              wake_all (sharers k q) (wake c k),
            ))
    same_result c q n k =
        rw (sharers-wake k c q, behind_sharers-wake k c q)
          (ap (λ (m : ℕ). ok (share m (behind_sharers k q), wake_all (sharers k q) (wake c k)))
            (omega arith))

-- A free lock with a line is handed to the front of the line, in order: to the first waiter alone
-- if it wants the lock for itself, else to all the sharers before the first such waiter.
pub wake_loop-handed :
    (q : List ℕ) (lock : Resource) (k : Kernel)
    → IsAwake k
    → 0 < k.crit_count
    → IsLine k q
    → q ≢ []
    → lock.num_shared ≡ 0
    → length q < 2 ^ 64
    → wake_loop q lock k ≡ ok (handed k q, wake_all (front k q) k)
unfolding handed
wake_loop-handed [] lock k a crit l ne z b = absurd (ne refl)
wake_loop-handed (c ∷ q) lock k a crit l ne z b = elim (wants-cases (wants k c)) [
  | inr e ↦ rw e (
      loop-alone c q lock k e z (acquire-waiter k c crit l.waiters.0)
      ∙ ap (λ (m : ℕ). ok (record { state = exclusive; waiting = q; num_shared = m }, wake c k)) z)
  | inl e ↦
      let next : Resource = share (lock.num_shared + 1) q in
      let ih =
        loop-sharers q next (wake c k) (wake-IsAwake k c a l.waiters.0)
          (omega (arith, wake-crit k c)) (IsLine-wake k c q l) refl (omega arith) (omega arith) in
      rw e (
        loop-step c q lock k _ _ e (acquire-waiter k c crit l.waiters.0) (omega arith) ih
        ∙ rw (sharers-wake k c q, behind_sharers-wake k c q)
            (ap (λ (m : ℕ). ok (share m (behind_sharers k q), wake_all (sharers k q) (wake c k)))
              (omega arith)))
]

-- LockingStart does not change who wants what.
sharers-start : (k : Kernel) (q : List ℕ) → sharers (locking_start k) q ≡ sharers k q
unfolding sharers locking_start start_critical
sharers-start k [] = refl
sharers-start k (c ∷ q) = ground (arith, sharers-start k q)

behind_sharers-start :
    (k : Kernel) (q : List ℕ) → behind_sharers (locking_start k) q ≡ behind_sharers k q
unfolding behind_sharers locking_start start_critical
behind_sharers-start k [] = refl
behind_sharers-start k (c ∷ q) = ground (arith, behind_sharers-start k q)

wants-start : (k : Kernel) (c : ℕ) → wants (locking_start k) c ≡ wants k c
unfolding locking_start start_critical
wants-start k c = refl

front-start : (k : Kernel) (q : List ℕ) → front (locking_start k) q ≡ front k q
unfolding front
front-start k [] = refl
front-start k (c ∷ q) = ground (arith, wants-start k c, sharers-start k q)

handed-start : (k : Kernel) (q : List ℕ) → handed (locking_start k) q ≡ handed k q
unfolding handed
handed-start k [] = refl
handed-start k (c ∷ q) =
    ground (arith, wants-start k c, sharers-start k q, behind_sharers-start k q)

-- From a quiet kernel the whole of ResourceWakeThreads, on a lock that is free.
pub wake_threads-handed :
    (lock : Resource) (k : Kernel)
    → IsQuiet k
    → IsLine k lock.waiting
    → lock.waiting ≢ []
    → lock.num_shared ≡ 0
    → length lock.waiting < 2 ^ 64
    → (k' : Kernel) × (wake_threads lock (locking_start k)
        ≡ ok (handed k lock.waiting, wake_all (front k lock.waiting) (locking_start k)))
      × (locking_end (wake_all (front k lock.waiting) (locking_start k)) ≡ ok k')
      × Served k (front k lock.waiting) (behind k lock.waiting) k'
wake_threads-handed lock k v l ne z b =
    let k0 = locking_start k in
    let q = lock.waiting in
    let (k', ends, is) =
      served k (front k q) (behind k q) v (subst (IsLine k) (sym (front-append k q)) l) in
    (
      k',
      runs k0 q refl
          ∙ wake_loop-handed q lock k0 (locking_start-IsAwake k v) (omega (arith, start-crit k v))
              (started-IsLine k q l) ne z b
          ∙ ap₂ (λ r f. ok (r, wake_all f k0)) (handed-start k q) (front-start k q),
      ends,
      is,
    )
  where
    runs :
        (k0 : Kernel) (q : List ℕ)
        → lock.waiting ≡ q
        → wake_threads lock k0 ≡ wake_loop lock.waiting lock k0
    runs k0 [] e = absurd (ne e)
    runs k0 (c ∷ q) e = unfold wake_threads Fifo.is_empty in ground (arith, z)
