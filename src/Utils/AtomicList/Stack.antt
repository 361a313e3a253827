-- ===== src/Utils/AtomicList/Stack.antt =====
-- The stack that an atomic list is when no interrupt comes in, and what becomes of it when one does.
use kernelpanic.Common.{
  ℕ, ◌+◌, ◌%◌, ◌^◌, ◌≡◌, refl, sym, ap, ◌∙◌, subst, ◌≢◌, true, false, ◌&&◌, Option, none, some,
  List, [], ◌∷◌, arith, ◌==◌, eqb_of_ne, eqb_refl, All,
}
use kernelpanic.Common.Store.{update, update_self, update_ne}
use kernelpanic.Utils.AtomicList.{
  Memory, same, Interrupt, compare_and_swap, double_compare_and_swap, push_turn, push, pop_turn,
  pop,
}

-- From `p` on hang the links of `q`.
abbrev pub Hangs : (ℕ → Option ℕ) → Option ℕ → List ℕ → Type 0
Hangs next p [] = p ≡ none
Hangs next p (c ∷ q) = (p ≡ some c) × Hangs next (next c) q

pub same_refl : (p : Option ℕ) → same p p ≡ true
same_refl none = refl
same_refl (some a) = eqb_refl a

Hangs-update :
    (next : ℕ → Option ℕ) (node : ℕ) (v p : Option ℕ) (q : List ℕ)
    → All (λ y. y ≢ node) q
    → Hangs next p q
    → Hangs (update next node v) p q
Hangs-update next node v p [] f h = h
Hangs-update next node v p (c ∷ q) f h = (
  h.0,
  subst (λ n. Hangs (update next node v) n q) (sym (update_ne next node c v f.0))
      (Hangs-update next node v (next c) q f.1 h.1),
)

pub push-alone :
    (node : ℕ) (m : Memory)
    → push [] node m ≡ record m { pointer = some node; next = update m.next node m.pointer }
unfolding push push_turn compare_and_swap
push-alone node m = rw (same_refl m.pointer) refl

-- An AtomicListPush that is not interrupted puts a link that is not in the list at its front.
pub push_lem :
    (node : ℕ) (m : Memory) (q : List ℕ)
    → Hangs m.next m.pointer q
    → All (λ y. y ≢ node) q
    → Hangs (push [] node m).next (push [] node m).pointer (node ∷ q)
push_lem node m q h f =
    subst (λ r. Hangs r.next r.pointer (node ∷ q)) (sym (push-alone node m))
      (
        refl,
        subst (λ n. Hangs (update m.next node m.pointer) n q)
            (sym (update_self m.next node m.pointer))
            (Hangs-update m.next node m.pointer m.pointer q f h),
      )

pub pop-empty : (m : Memory) → m.pointer ≡ none → pop [] m ≡ (none, m)
unfolding pop pop_turn
pop-empty m h = rw h refl

-- The memory with another head pointer.
abbrev headed : Memory → Option ℕ → Memory
headed m p = record m { pointer = p }

pop-headed :
    (m : Memory) (c : ℕ)
    → pop [] (headed m (some c))
      ≡ (some c, record m { pointer = m.next c; generation = (m.generation + 1) % 2 ^ 64 })
unfolding pop pop_turn double_compare_and_swap
pop-headed m c = ground arith

pub pop-first :
    (m : Memory) (c : ℕ)
    → m.pointer ≡ some c
    → pop [] m ≡ (some c, record m { pointer = m.next c; generation = (m.generation + 1) % 2 ^ 64 })
pop-first m c h =
    subst
      (λ p.
        pop [] (headed m p)
        ≡ (some c, record m { pointer = m.next c; generation = (m.generation + 1) % 2 ^ 64 }))
      (sym h) (pop-headed m c)

-- What a pop gives: the first link, the rest of the list, and the same Next fields.
pub record Popped (m : Memory) (reply : Option ℕ) (rest : List ℕ) : Type 0 where
  pub returns : (pop [] m).0 ≡ reply
  pub hangs : Hangs (pop [] m).1.next (pop [] m).1.pointer rest
  pub same_next : (pop [] m).1.next ≡ m.next

-- The reply of the pop of a stack, and what is left of it.
abbrev pub popped : List ℕ → Option ℕ × List ℕ
popped [] = (none, [])
popped (c ∷ q) = (some c, q)

-- An AtomicListPop that is not interrupted takes the first link off the list, if there is one.
pub pop_lem :
    (m : Memory) (q : List ℕ) → Hangs m.next m.pointer q → Popped m (popped q).0 (popped q).1
pop_lem m [] h =
    let e = pop-empty m h in
    record {
      returns = ap (λ r. r.0) e;
      hangs = subst (λ r. Hangs r.1.next r.1.pointer []) (sym e) h;
      same_next = ap (λ r. r.1.next) e;
    }
pop_lem m (c ∷ q) h =
    let e = pop-first m c h.0 in
    record {
      returns = ap (λ r. r.0) e;
      hangs = subst (λ r. Hangs r.1.next r.1.pointer q) (sym e) h.1;
      same_next = ap (λ r. r.1.next) e;
    }

pub same_ne : (p q : Option ℕ) → p ≢ q → same p q ≡ false
same_ne none none h = absurd (h refl)
same_ne none (some b) h = refl
same_ne (some a) none h = refl
same_ne (some a) (some b) h = eqb_of_ne a b (λ e. h (ap some e))

retry_headed :
    (e : Interrupt) (es : List Interrupt) (m : Memory) (c : ℕ)
    → (same (e (headed m (some c))).pointer (some c)
        && ((e (headed m (some c))).generation == m.generation))
      ≡ false
    → pop (e ∷ es) (headed m (some c)) ≡ pop es (e (headed m (some c)))
unfolding pop pop_turn double_compare_and_swap
retry_headed e es m c differs = ground arith

-- An AtomicListPop whose head is not as it was any more, its generation included, starts again.
pub pop_retry :
    (e : Interrupt) (es : List Interrupt) (m : Memory) (c : ℕ)
    → m.pointer ≡ some c
    → (same (e m).pointer (some c) && ((e m).generation == m.generation)) ≡ false
    → pop (e ∷ es) m ≡ pop es (e m)
pop_retry e es m c h differs =
    subst
      (λ p.
        (same (e (headed m p)).pointer (some c) && ((e (headed m p)).generation == m.generation))
          ≡ false
        → pop (e ∷ es) (headed m p) ≡ pop es (e (headed m p)))
      (sym h) (retry_headed e es m c) differs

quiet_headed :
    (m : Memory) (c : ℕ) → pop ((λ x. x) ∷ []) (headed m (some c)) ≡ pop [] (headed m (some c))
unfolding pop pop_turn double_compare_and_swap
quiet_headed m c = ground arith

-- An interrupt that does nothing.
pub pop_quiet : (m : Memory) (c : ℕ) → m.pointer ≡ some c → pop ((λ x. x) ∷ []) m ≡ pop [] m
pop_quiet m c h =
    subst (λ p. pop ((λ x. x) ∷ []) (headed m p) ≡ pop [] (headed m p)) (sym h) (quiet_headed m c)

push_over-push :
    (node other : ℕ) (m : Memory)
    → other ≢ node
    → m.pointer ≢ some other
    → push ((push [] other, λ x. x) ∷ []) node m ≡ record m {
      pointer = some node;
      next = update (update (update m.next node m.pointer) other m.pointer) node (some node);
    }
unfolding push push_turn compare_and_swap
push_over-push node other m d h =
    let a = same_refl m.pointer in let b = same_ne m.pointer (some other) h in ground arith

-- An AtomicListPush that an interrupt comes into after it wrote its Next field, and before it reads
-- the head again, leaves its link at the head with a Next that points at itself, if the interrupt
-- pushes another link that is not at the head already.
pub push_over_push :
    (node other : ℕ) (m : Memory)
    → other ≢ node
    → m.pointer ≢ some other
    → ((push ((push [] other, λ x. x) ∷ []) node m).pointer ≡ some node)
      × ((push ((push [] other, λ x. x) ∷ []) node m).next node ≡ some node)
push_over_push node other m d h =
    let e = push_over-push node other m d h in
    (ap (λ (r : Memory). r.pointer) e, ap (λ (r : Memory). r.next node) e ∙ update_self _ node _)
