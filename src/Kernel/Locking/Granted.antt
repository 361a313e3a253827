-- ===== src/Kernel/Locking/Granted.antt =====
-- What a context finds after it was woken: it holds the lock, and a thread runs again.
use kernelpanic.Common.{
  ℕ, ◌≡◌, refl, sym, ap, ◌∙◌, subst, ◌≢◌, List, [], ◌∷◌, ◌++◌, append-nil, append_assoc, arith, All,
  Distinct,
}
use kernelpanic.Kernel.State.{Kernel, ready, acquired, Owner, thread, plain, running, update}
use kernelpanic.Kernel.Locking.Waits.{wake, woken, wake_all}

abbrev pub GrantedTo : Owner → Kernel → ℕ → Type 0
GrantedTo thread k c = ((k.contexts c).state ≡ ready) × (k.threads c ≡ running)
GrantedTo plain k c = (k.contexts c).state ≡ acquired

-- The owner of the context sees the lock granted.
abbrev pub IsGranted : Kernel → ℕ → Type 0
IsGranted k c = GrantedTo (k.contexts c).owner k c

-- The threads among the owners of some contexts.
unfoldable pub threads_of : Kernel → List ℕ → List ℕ
threads_of k [] = []
threads_of k (c ∷ q) = elim (k.contexts c).owner [
  | thread ↦ c ∷ threads_of k q
  | plain ↦ threads_of k q
]

woken-GrantedTo :
    (k : Kernel) (c : ℕ) (o p : Owner)
    → (k.contexts c).owner ≡ o
    → ((woken o c k).contexts c).owner ≡ p
    → GrantedTo p (woken o c k) c
unfolding update
woken-GrantedTo k c thread thread e f = (ground arith, ground arith)
woken-GrantedTo k c thread plain e f = absurd (ground arith)
woken-GrantedTo k c plain thread e f = absurd (ground arith)
woken-GrantedTo k c plain plain e f = ground arith

pub wake-IsGranted : (k : Kernel) (c : ℕ) → IsGranted (wake c k) c
wake-IsGranted k c =
    woken-GrantedTo k c (k.contexts c).owner (((wake c k).contexts c).owner) refl refl

woken-keeps :
    (k : Kernel) (c d : ℕ) (o p : Owner) → d ≢ c → GrantedTo p k d → GrantedTo p (woken o c k) d
unfolding update
woken-keeps k c d thread thread ne g = ground arith
woken-keeps k c d thread plain ne g = ground arith
woken-keeps k c d plain thread ne g = ground arith
woken-keeps k c d plain plain ne g = ground arith

woken-owner :
    (k : Kernel) (c d : ℕ) (o : Owner) → ((woken o c k).contexts d).owner ≡ (k.contexts d).owner
unfolding update
woken-owner k c d thread = ground arith
woken-owner k c d plain = ground arith

pub wake-owner : (k : Kernel) (c d : ℕ) → ((wake c k).contexts d).owner ≡ (k.contexts d).owner
wake-owner k c d = woken-owner k c d (k.contexts c).owner

wake-keeps : (k : Kernel) (c d : ℕ) → d ≢ c → IsGranted k d → IsGranted (wake c k) d
wake-keeps k c d ne g =
    subst (λ p. GrantedTo p (wake c k) d) (sym (wake-owner k c d))
      (woken-keeps k c d (k.contexts c).owner (k.contexts d).owner ne g)

pub wake_all-keeps :
    (q : List ℕ) (k : Kernel) (d : ℕ)
    → All (λ c. c ≢ d) q
    → IsGranted k d
    → IsGranted (wake_all q k) d
wake_all-keeps [] k d ne g = g
wake_all-keeps (c ∷ q) k d ne g =
    wake_all-keeps q (wake c k) d ne.1 (wake-keeps k c d (λ e. ne.0 (sym e)) g)

-- After a line was woken every member of it is granted the lock.
pub wake_all-IsGranted : (q : List ℕ) (k : Kernel) → Distinct q → All (IsGranted (wake_all q k)) q
wake_all-IsGranted [] k d = tt
wake_all-IsGranted (c ∷ q) k d =
    (wake_all-keeps q (wake c k) c d.0 (wake-IsGranted k c), wake_all-IsGranted q (wake c k) d.1)

threads_of-wake : (q : List ℕ) (k : Kernel) (c : ℕ) → threads_of (wake c k) q ≡ threads_of k q
unfolding threads_of
threads_of-wake [] k c = refl
threads_of-wake (d ∷ q) k c = ground (arith, wake-owner k c d, threads_of-wake q k c)

woken-run_queue :
    (k : Kernel) (c : ℕ) (q : List ℕ) (o : Owner)
    → (k.contexts c).owner ≡ o
    → (woken o c k).run_queue ++ threads_of k q ≡ k.run_queue ++ threads_of k (c ∷ q)
unfolding threads_of
woken-run_queue k c q thread e = ground (arith, append_assoc k.run_queue (c ∷ []) (threads_of k q))
woken-run_queue k c q plain e = ground arith

-- The woken threads stand at the end of the run queue, in the order in which they waited.
pub wake_all-run_queue :
    (q : List ℕ) (k : Kernel) → (wake_all q k).run_queue ≡ k.run_queue ++ threads_of k q
wake_all-run_queue [] k = unfold threads_of in sym (append-nil k.run_queue)
wake_all-run_queue (c ∷ q) k =
    wake_all-run_queue q (wake c k)
    ∙ ap (λ l. (wake c k).run_queue ++ l) (threads_of-wake q k c)
    ∙ woken-run_queue k c q (k.contexts c).owner refl

-- Which of some contexts belong to threads is a matter of their owners alone.
pub threads_of-owners :
    (q : List ℕ) (k k' : Kernel)
    → ((d : ℕ) → (k'.contexts d).owner ≡ (k.contexts d).owner)
    → threads_of k' q ≡ threads_of k q
unfolding threads_of
threads_of-owners [] k k' same = refl
threads_of-owners (c ∷ q) k k' same = ground (arith, same c, threads_of-owners q k k' same)

woken-wait_state :
    (k : Kernel) (c d : ℕ) (o : Owner)
    → ((woken o c k).contexts d).wait_state ≡ (k.contexts d).wait_state
unfolding update
woken-wait_state k c d thread = ground arith
woken-wait_state k c d plain = ground arith

-- Waking leaves alone how a context wants its lock.
pub wake-wait_state :
    (k : Kernel) (c d : ℕ) → ((wake c k).contexts d).wait_state ≡ (k.contexts d).wait_state
wake-wait_state k c d = woken-wait_state k c d (k.contexts c).owner

pub wake_all-wait_state :
    (q : List ℕ) (k : Kernel) (d : ℕ)
    → ((wake_all q k).contexts d).wait_state ≡ (k.contexts d).wait_state
wake_all-wait_state [] k d = refl
wake_all-wait_state (c ∷ q) k d = wake_all-wait_state q (wake c k) d ∙ wake-wait_state k c d
