-- ===== src/Kernel/Worker/Safety.antt =====
-- What holds of a work queue whose additions nothing interrupts, and what goes wrong otherwise.
use kernelpanic.Common.{
  ℕ, ◌+◌, ◌-◌, ◌≤◌, ◌≡◌, refl, sym, ap, ◌∙◌, subst, ◌≢◌, ◌⊎◌, inl, inr, false, List, [], ◌∷◌, ◌++◌,
  arith, ◌==◌, Bool-cases, eqb→eq, eqb→ne, length, length-snoc, All, All-append, All-map, All-zip,
  Distinct, Distinct-snoc,
}
use kernelpanic.Common.Outcome.{ok, panic}
use kernelpanic.Common.Store.{update, update_self, update_ne}
use kernelpanic.Utils.Fifo
use kernelpanic.Kernel.State.{LockingState, ready, blocking, acquired}
use kernelpanic.Kernel.Worker.{
  WorkerReturn, pended, blocked, finished, Item, Pc, before_down, before_pop, running, Queue, Turn,
  goes, waits, panics, create_worker, add_up, add_item, init_item, wake_on_lock, pop_item,
  after_run, worker_turn,
}

-- Where an item that is added may not be: in the queue, or with the thread.
pub record IsAway (i : ℕ) (q : Queue) : Type 0 where
  pub not_queued : All (λ j. j ≢ i) q.list
  pub not_running : q.pc ≢ running i

-- The queues that additions, wake-ups and turns of the thread lead to, each addition uninterrupted
-- and of an item that is away, from a new one. The locks may change the state of an item's locking
-- context at any time.
pub data Reach : Queue → Type 0 where
  created : (items : ℕ → Item) → Reach (create_worker items)
  inited : {q : Queue} → Reach q → (i : ℕ) → IsAway i q → Reach (init_item i q)
  added : {q : Queue} → Reach q → (i : ℕ) → IsAway i q → Reach (add_item i q)
  woken : {q q' : Queue} → Reach q → (i : ℕ) → IsAway i q → wake_on_lock i q ≡ ok q' → Reach q'
  relocked :
      {q : Queue}
      → Reach q
      → (i : ℕ) (s : LockingState)
      → Reach (record q { items = update q.items i (record (q.items i) { state = s }) })
  turned : {q q' : Queue} → Reach q → (r : WorkerReturn) → worker_turn r q ≡ goes q' → Reach q'

abbrev popping : Pc → ℕ
popping before_down = 0
popping before_pop = 1
popping (running i) = 0

abbrev Apart : Pc → List ℕ → Type 0
Apart before_down list = Unit
Apart before_pop list = Unit
Apart (running i) list = All (λ j. j ≢ i) list

abbrev Current : Pc → (ℕ → Item) → Type 0
Current before_down items = Unit
Current before_pop items = Unit
Current (running i) items = (items i).is_finished ≡ false

record Inv (q : Queue) : Type 0 where
  permits : q.lock + popping q.pc ≤ length q.list
  fresh : All (λ j. (q.items j).is_finished ≡ false) q.list
  distinct : Distinct q.list
  apart : Apart q.pc q.list
  current : Current q.pc q.items

-- A change of one item that does not finish it.
fresh-update :
    (items : ℕ → Item) (i : ℕ) (x : Item)
    → (x.is_finished ≡ (items i).is_finished) ⊎ (x.is_finished ≡ false)
    → (j : ℕ) → (items j).is_finished ≡ false
    → (update items i x j).is_finished ≡ false
fresh-update items i x kept j fresh = elim (Bool-cases (j == i)) [
  | inr ne ↦ ap (λ (x : Item). x.is_finished) (update_ne items i j x (eqb→ne j i ne)) ∙ fresh
  | inl e ↦
      let now : (update items i x j).is_finished ≡ x.is_finished =
        ap (λ j. (update items i x j).is_finished) (eqb→eq j i e)
        ∙ ap (λ (x : Item). x.is_finished) (update_self items i x) in
      elim kept [
        | inl same ↦ now ∙ same ∙ ap (λ j. (items j).is_finished) (sym (eqb→eq j i e)) ∙ fresh
        | inr off ↦ now ∙ off
      ]
]

change :
    (items : ℕ → Item) (i : ℕ) (x : Item) (list : List ℕ)
    → x.is_finished ≡ (items i).is_finished
    → All (λ j. (items j).is_finished ≡ false) list
    → All (λ j. (update items i x j).is_finished ≡ false) list
change items i x list same h = All-map _ _ list (fresh-update items i x (inl same)) h

Current-update :
    (pc : Pc) (items : ℕ → Item) (i : ℕ) (x : Item)
    → (x.is_finished ≡ (items i).is_finished) ⊎ (x.is_finished ≡ false)
    → Current pc items
    → Current pc (update items i x)
Current-update before_down items i x kept c = tt
Current-update before_pop items i x kept c = tt
Current-update (running j) items i x kept c = fresh-update items i x kept j c

change_other :
    (items : ℕ → Item) (i : ℕ) (x : Item) (list : List ℕ)
    → All (λ j. j ≢ i) list
    → All (λ j. (items j).is_finished ≡ false) list
    → All (λ j. (update items i x j).is_finished ≡ false) list
change_other items i x list away h =
    All-map _ _ list
      (λ j (p : (j ≢ i) × ((items j).is_finished ≡ false)).
        ap (λ (x : Item). x.is_finished) (update_ne items i j x p.0) ∙ p.1)
      (All-zip _ _ list away h)

Apart-snoc :
    (pc : Pc) (list : List ℕ) (i : ℕ) → pc ≢ running i → Apart pc list → Apart pc (list ++ i ∷ [])
Apart-snoc before_down list i ne a = tt
Apart-snoc before_pop list i ne a = tt
Apart-snoc (running k) list i ne a =
    All-append (λ j. j ≢ k) list (i ∷ []) a ((λ e. ne (ap running (sym e))), tt)

add-Inv : {q : Queue} (i : ℕ) → IsAway i q → Inv q → Inv (add_item i q)
unfolding add_item Fifo.enqueue
add-Inv {q} i away v = record {
  permits = omega (arith, v.permits, length-snoc q.list i);
  fresh =
      All-append _ q.list (i ∷ [])
        (change_other q.items i (record (q.items i) { is_finished = false }) q.list away.not_queued
          v.fresh)
        (ap (λ (x : Item). x.is_finished) (update_self q.items i _), tt);
  distinct = Distinct-snoc q.list i v.distinct away.not_queued;
  apart = Apart-snoc q.pc q.list i away.not_running v.apart;
  current = Current-update q.pc q.items i _ (inr refl) v.current;
}

state-Inv :
    {q : Queue} (i : ℕ) (s : LockingState)
    → Inv q
    → Inv (record q { items = update q.items i (record (q.items i) { state = s }) })
state-Inv {q} i s v = record {
  permits = v.permits;
  fresh = change q.items i (record (q.items i) { state = s }) q.list refl v.fresh;
  distinct = v.distinct;
  apart = v.apart;
  current = Current-update q.pc q.items i _ (inl refl) v.current;
}

init-Inv : {q : Queue} (i : ℕ) → IsAway i q → Inv q → Inv (init_item i q)
unfolding init_item
init-Inv {q} i away v =
    add-Inv i (record { not_queued = away.not_queued; not_running = away.not_running })
      (state-Inv i ready v)

ok-inj : {q q' : Queue} → ok q ≡ ok q' → q ≡ q'
ok-inj h = cc

panic-ne-ok : {q : Queue} → panic ≢ ok q
panic-ne-ok h = cc

wake-Inv :
    {q q' : Queue} (i : ℕ) (s : LockingState)
    → (q.items i).state ≡ s
    → IsAway i q
    → wake_on_lock i q ≡ ok q'
    → Inv q
    → Inv q'
unfolding wake_on_lock
wake-Inv {q} i ready e away h v =
    subst Inv (ok-inj (rw (e, wake_on_lock) at h)) (state-Inv i acquired v)
wake-Inv {q} i blocking e away h v =
    subst Inv (ok-inj (rw (e, wake_on_lock) at h)) (state-Inv i acquired (add-Inv i away v))
wake-Inv i acquired e away h v = absurd (panic-ne-ok (rw (e, wake_on_lock) at h))

waits-ne-goes : {q : Queue} → waits ≢ goes q
waits-ne-goes h = cc

waits-ne-panics : waits ≢ panics
waits-ne-panics h = cc

goes-ne-panics : {q : Queue} → goes q ≢ panics
goes-ne-panics h = cc

goes-inj : {q q' : Queue} → goes q ≡ goes q' → q ≡ q'
goes-inj h = cc

-- A turn waits, or goes on to a queue where the same holds.
record Runs (turn : Turn) : Type 0 where
  next : Queue
  returns : turn ≡ goes next
  inv : Inv next

pop-Runs :
    {q : Queue} (list : List ℕ) → q.list ≡ list → q.pc ≡ before_pop → Inv q → Runs (pop_item q)
unfolding pop_item Fifo.pop
pop-Runs {q} [] e p v = absurd (omega (arith, v.permits, ap popping p, ap length e))
pop-Runs {q} (i ∷ rest) e p v =
    let fresh : (q.items i).is_finished ≡ false =
      (subst (All (λ j. (q.items j).is_finished ≡ false)) e v.fresh).0 in
    let apart = (subst Distinct e v.distinct).0 in
    record {
      next = record q { list = rest; pc = running i };
      returns = rw (e, fresh) refl;
      inv = record {
        permits = omega (arith, v.permits, ap popping p, ap length e);
        fresh = (subst (All (λ j. (q.items j).is_finished ≡ false)) e v.fresh).1;
        distinct = (subst Distinct e v.distinct).1;
        apart = apart;
        current = fresh;
      };
    }

run-Inv : {q : Queue} (i : ℕ) (r : WorkerReturn) → q.pc ≡ running i → Inv q → Inv (after_run i r q)
unfolding after_run Fifo.enqueue
run-Inv {q} i finished p v = record {
  permits = omega (arith, v.permits, ap popping p);
  fresh = change_other q.items i _ q.list (subst (λ pc. Apart pc q.list) p v.apart) v.fresh;
  distinct = v.distinct;
  apart = tt;
  current = tt;
}
run-Inv {q} i blocked p v = record {
  permits = omega (arith, v.permits, ap popping p);
  fresh = v.fresh;
  distinct = v.distinct;
  apart = tt;
  current = tt;
}
run-Inv {q} i pended p v = record {
  permits = omega (arith, v.permits, ap popping p, length-snoc q.list i);
  fresh =
      All-append (λ j. (q.items j).is_finished ≡ false) q.list (i ∷ []) v.fresh
        (subst (λ pc. Current pc q.items) p v.current, tt);
  distinct = Distinct-snoc q.list i v.distinct (subst (λ pc. Apart pc q.list) p v.apart);
  apart = tt;
  current = tt;
}

turn-Runs :
    {q : Queue} (pc : Pc) (r : WorkerReturn)
    → q.pc ≡ pc
    → Inv q
    → (worker_turn r q ≡ waits) ⊎ Runs (worker_turn r q)
unfolding worker_turn
turn-Runs {q} before_down r p v = elim (Bool-cases (q.lock == 0)) [
  | inl z ↦ inl (rw (p, worker_turn) (rw z refl))
  | inr nz ↦ inr (record {
    next = record q { lock = q.lock - 1; pc = before_pop };
    returns = rw (p, worker_turn) (rw nz refl);
    inv = record {
      permits = omega (arith, v.permits, ap popping p, eqb→ne q.lock 0 nz);
      fresh = v.fresh;
      distinct = v.distinct;
      apart = tt;
      current = tt;
    };
  })
]
turn-Runs {q} before_pop r p v = inr (rw (p, worker_turn) (pop-Runs q.list refl p v))
turn-Runs {q} (running i) r p v =
    inr (
      rw (p, worker_turn)
        (record { next = after_run i r q; returns = refl; inv = run-Inv i r p v }))

Reach-Inv : {q : Queue} → Reach q → Inv q
Reach-Inv (created items) =
    unfold create_worker in
    record { permits = omega arith; fresh = tt; distinct = tt; apart = tt; current = tt }
Reach-Inv (inited r i away) = init-Inv i away (Reach-Inv r)
Reach-Inv (added r i away) = add-Inv i away (Reach-Inv r)
Reach-Inv (woken {q} r i away h) = wake-Inv i (q.items i).state refl away h (Reach-Inv r)
Reach-Inv (relocked r i s) = state-Inv i s (Reach-Inv r)
Reach-Inv (turned {q} {q'} r result h) = elim (turn-Runs q.pc result refl (Reach-Inv r)) [
  | inl waiting ↦ absurd (waits-ne-goes (sym waiting ∙ h))
  | inr runs ↦ subst Inv (goes-inj (sym runs.returns ∙ h)) runs.inv
]

-- When nothing interrupts an addition, and an item is added only while it is neither queued nor
-- run, no turn of the worker's thread fails an ASSERT.
pub worker_turn-ne-panics : (q : Queue) (r : WorkerReturn) → Reach q → worker_turn r q ≢ panics
worker_turn-ne-panics q r reach h = elim (turn-Runs q.pc r refl (Reach-Inv reach)) [
  | inl waiting ↦ waits-ne-panics (sym waiting ∙ h)
  | inr runs ↦ goes-ne-panics (sym runs.returns ∙ h)
]

-- An addition to an empty queue that the worker's thread comes into, between the SemaphoreUp and
-- the section: the thread, which was blocked, takes the permit, finds no item, and fails an ASSERT.
pub add_up_race :
    (q : Queue) (r : WorkerReturn)
    → q.pc ≡ before_down
    → q.list ≡ []
    → q.lock ≡ 0
    → (worker_turn r q ≡ waits)
      × (q' : Queue) × (worker_turn r (add_up q) ≡ goes q')
      × (worker_turn r q' ≡ panics)
unfolding worker_turn add_up pop_item Fifo.pop
add_up_race q r p e z = (
  rw (p, worker_turn) (rw z refl),
  record q { lock = 0; pc = before_pop },
  rw (p, worker_turn) (rw z refl),
  rw e refl,
)

-- An item that returns WORKER_PENDED is queued again without a permit: if the count of the Lock is
-- 0 the thread is blocked with the item in its queue, whatever its function would return.
pub pended_waits :
    (q : Queue) (i : ℕ) (r : WorkerReturn)
    → q.pc ≡ running i
    → q.lock ≡ 0
    → (q' : Queue) × (worker_turn pended q ≡ goes q')
      × (q'.list ≡ q.list ++ i ∷ [])
      × (worker_turn r q' ≡ waits)
unfolding worker_turn after_run Fifo.enqueue
pended_waits q i r p z = (after_run i pended q, rw (p, worker_turn) refl, refl, rw z refl)
