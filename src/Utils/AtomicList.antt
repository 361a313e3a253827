-- ===== src/Utils/AtomicList.antt =====
-- utils/atomiclist.c: a stack of links that is changed by compare and swap, and may be changed by an
-- interrupt between any two of the accesses to it.
pub mod Stack
pub mod Interrupted
mod Tests
use kernelpanic.Common.{
  ℕ, zero, suc, ◌+◌, ◌-◌, ◌*◌, ◌/◌, ◌%◌, ◌^◌, ◌≤◌, ◌<◌, min, ◌≡◌, refl, sym, ap, ap₂, ◌∙◌, subst,
  ◌≢◌, ◌⊎◌, inl, inr, Bool, true, false, not, ◌&&◌, ◌||◌, Option, none, some, List, [], ◌∷◌, ◌++◌,
  append-nil, append_assoc, arith, ltb, leb, ◌==◌, if◌then◌else◌, Bool-cases, ltb→lt, ltb→le,
  eqb→eq, eqb→ne, eqb_of_ne, eqb_refl, length, get_or, set, take, drop, replicate, length-append,
  length-set, length-replicate, length-take, length-drop, take-append-drop, get_or-set_self,
  get_or-set_ne, length-snoc, prefix_of_append, All, All-append, All-front, All-map, All-zip,
  Distinct, Distinct-snoc,
}
use kernelpanic.Common.Store.{update}

-- `struct ATOMIC_LIST`, the head with its generation, and the Next fields of the links.
pub record Memory : Type 0 where
  pub pointer : Option ℕ
  pub generation : ℕ
  pub next : ℕ → Option ℕ

-- Two pointers are the same.
abbrev pub same : Option ℕ → Option ℕ → Bool
same none none = true
same none (some b) = false
same (some a) none = false
same (some a) (some b) = a == b

-- `CompareAndSwap` of the head pointer: the value that it had, and the memory.
unfoldable pub compare_and_swap : (old new : Option ℕ) → Memory → Option ℕ × Memory
compare_and_swap old new m =
    (m.pointer, if same m.pointer old then record m { pointer = new } else m)

-- `DoubleCompareAndSwap` of the head with its generation: whether the head was as expected, and the
-- memory.
unfoldable pub double_compare_and_swap :
    (old_pointer : Option ℕ) (old_generation : ℕ) (new_pointer : Option ℕ) (new_generation : ℕ)
    → Memory
    → Bool × Memory
double_compare_and_swap p g p' g' m =
    if same m.pointer p && (m.generation == g)
    then (true, record m { pointer = p'; generation = g' })
    else (false, m)

-- What interrupts do to the memory between two accesses.
abbrev pub Interrupt : Type 0
Interrupt = Memory → Memory

-- One turn of the loop of `AtomicListPush`: whether it ends the loop, and the memory. The
-- interrupts come after the write of `node->Next`, and after the head is read again.
unfoldable pub push_turn : Interrupt → Interrupt → ℕ → Memory → Bool × Memory
unfolding compare_and_swap update
push_turn e1 e2 node m =
    let m1 = e1 (record m { next = update m.next node m.pointer }) in
    let expected = m1.pointer in
    let (seen, m2) = compare_and_swap expected (some node) (e2 m1) in (same (m2.next node) seen, m2)

-- `AtomicListPush`, with the interrupts of its turns; later turns are not interrupted.
unfoldable pub push : List (Interrupt × Interrupt) → ℕ → Memory → Memory
unfolding push_turn
push [] node m = (push_turn (λ x. x) (λ x. x) node m).1
push (e ∷ es) node m = elim (push_turn e.0 e.1 node m).0 [
  | true ↦ (push_turn e.0 e.1 node m).1
  | false ↦ push es node (push_turn e.0 e.1 node m).1
]

-- One turn of the loop of `AtomicListPop`, with the interrupts that come between the reads and the
-- swap: none if the loop goes on, else the link returned; and the memory.
unfoldable pub pop_turn : Interrupt → Memory → Option (Option ℕ) × Memory
unfolding double_compare_and_swap
pop_turn e m = elim m.pointer [
  | none ↦ (some none, m)
  | some node ↦
      let (swapped, m') =
        double_compare_and_swap m.pointer m.generation (m.next node) ((m.generation + 1) % 2 ^ 64)
          (e m) in
      (if swapped then some (some node) else none, m')
]

-- `AtomicListPop`, with the interrupts of its turns; later turns are not interrupted.
unfoldable pub pop : List Interrupt → Memory → Option ℕ × Memory
unfolding pop_turn
pop [] m = elim (pop_turn (λ x. x) m).0 [
  | none ↦ (none, (pop_turn (λ x. x) m).1)
  | some node ↦ (node, (pop_turn (λ x. x) m).1)
]
pop (e ∷ es) m = elim (pop_turn e m).0 [
  | none ↦ pop es (pop_turn e m).1
  | some node ↦ (node, (pop_turn e m).1)
]

-- `AtomicListInit`
unfoldable pub init : Memory → Memory
init m = record m { pointer = none; generation = 0 }
