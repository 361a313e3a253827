-- ===== src/Utils/Heap/Insert.antt =====
-- HeapAdd puts a node into a heap.
use kernelpanic.Common.{
  ℕ, ◌+◌, ◌*◌, ◌/◌, ◌%◌, ◌^◌, ◌≤◌, ◌<◌, ◌≡◌, refl, sym, ap, ◌∙◌, subst, ◌≢◌, inl, inr, true, false,
  ◌||◌, Option, none, some, arith, ◌==◌, if◌then◌else◌, Bool-cases, eqb→eq, eqb→ne, eqb_of_ne,
}
use kernelpanic.Common.Outcome.{ok}
use kernelpanic.Common.Store.{update, update_self}
use kernelpanic.Utils.Heap.{
  Nodes, Heap, deref, is_null, set_left, set_right, set_parent, attach, as_leaf, add_at_tail, add,
  percolate_up,
}
use kernelpanic.Utils.Heap.Find.{find_element_lem}
use kernelpanic.Utils.Heap.Order.{Places, Ordered, percolate_up_lem}
use kernelpanic.Utils.Heap.Add.{
  IsHeap, IsAway, with_tail, Added, Added-Settled, grown-Places, grown-OrderedBut, Below-update,
  outside-Linked, attach-weight, at_tail, room, some-inj, none-ne-some,
}

-- HeapAdd to a heap with nodes.
add_to_some :
    (weight i : ℕ) (at : ℕ → Option ℕ) (h : Heap)
    → IsHeap at h
    → IsAway i at
    → 1 ≤ h.size
    → h.size + 1 < 2 ^ 32
    → Added weight i at h (
        add_at_tail i
          (record { head = h.head; size = h.size + 1; nodes = as_leaf weight i h.nodes }))
unfolding add_at_tail deref as_leaf
add_to_some weight i at h heap away low small =
    let n = h.size in
    let s = as_leaf weight i h.nodes in
    let outside : Places n at s = record {
      linked = outside-Linked at i weight h.nodes away heap.places.linked;
      filled = heap.places.filled;
      beyond = heap.places.beyond;
    } in
    let (p, at_q) = heap.places.filled ((n + 1) / 2) (omega arith) (omega arith) in
    let found =
      find_element_lem at (record { head = h.head; size = n + 1; nodes = s }) n ((n + 1) / 2)
        outside.linked outside.filled heap.head (omega arith) (omega arith) (omega arith)
        (omega arith) in
    let placed = attach p i s in
    let same : placed.weight ≡ update h.nodes.weight i weight = attach-weight p i s in
    let ordered : Ordered at placed.weight =
      subst (Ordered at) (sym same)
        (λ m two. Below-update at h.nodes.weight i weight m (m / 2) away (heap.ordered m two)) in
    let settled =
      percolate_up_lem (n + 1) (n + 1) (with_tail at n i) placed (n + 1) i
        (grown-Places i p outside low (left_leaf weight i h.nodes) (right_leaf weight i h.nodes)
          away at_q)
        (grown-OrderedBut n at placed.weight i heap.places.beyond ordered)
        (at_tail at n i (n + 1) refl) (omega arith) (omega arith) (omega arith) in
    let fits =
      has_room p
        (room i p outside low (left_leaf weight i h.nodes) (right_leaf weight i h.nodes) away at_q)
        outside at_q in
    rw (found, at_q, fits, settled.returns)
      (Added-Settled weight i at h placed (percolate_up (n + 1) i placed) heap low same settled)
  where
    has_room :
        {s : Nodes} (p : ℕ)
        → is_null (s.left p) ≡ (2 * ((h.size + 1) / 2) == h.size + 1)
        → Places h.size at s
        → at ((h.size + 1) / 2) ≡ some p
        → (is_null (s.left p) || is_null (s.right p)) ≡ true
    has_room {s} p e v q = elim (Bool-cases (2 * ((h.size + 1) / 2) == h.size + 1)) [
      | inl b ↦ rw (e, b) refl
      | inr b ↦
          let empty : s.right p ≡ none =
            v.linked.right ((h.size + 1) / 2) p q
            ∙ v.beyond (2 * ((h.size + 1) / 2) + 1)
                (omega (arith, eqb→ne (2 * ((h.size + 1) / 2)) (h.size + 1) b)) in
          rw (e, b, empty) (unfold is_null in refl)
    ]

    left_leaf : (weight i : ℕ) (s : Nodes) → (as_leaf weight i s).left i ≡ none
    left_leaf weight i s = unfold as_leaf set_left set_right in update_self s.left i none

    right_leaf : (weight i : ℕ) (s : Nodes) → (as_leaf weight i s).right i ≡ none
    right_leaf weight i s = unfold as_leaf set_left set_right in update_self s.right i none

-- HeapAdd to an empty heap.
add_to_none :
    (weight i : ℕ) (at : ℕ → Option ℕ) (h : Heap)
    → IsHeap at h
    → h.size ≡ 0
    → Added weight i at h (
        ok (
          some (record {
            head = some i;
            size = h.size + 1;
            nodes = set_parent i none (as_leaf weight i h.nodes);
          })))
unfolding as_leaf set_left set_right set_parent
add_to_none weight i at h heap z = record {
  last = only;
  heap = record {
    head = some i;
    size = h.size + 1;
    nodes = set_parent i none (as_leaf weight i h.nodes);
  };
  returns = refl;
  is_heap = record {
    places = record {
      linked = record {
        none_at = refl;
        once = λ m n j a b. let u = at_one m j a in let w = at_one n j b in u.0 ∙ sym w.0;
        left = λ m j a.
            let u = at_one m j a in
            ap (update h.nodes.left i none) (sym u.1)
            ∙ update_self h.nodes.left i none
            ∙ sym (ap (λ m. only (2 * m)) u.0);
        right = λ m j a.
            let u = at_one m j a in
            ap (update h.nodes.right i none) (sym u.1)
            ∙ update_self h.nodes.right i none
            ∙ sym (ap (λ m. only (2 * m + 1)) u.0);
        parent = λ m j a.
            let u = at_one m j a in
            ap (update h.nodes.parent i none) (sym u.1)
            ∙ update_self h.nodes.parent i none
            ∙ sym (ap (λ m. only (m / 2)) u.0);
      };
      filled = λ m a b. let one : m ≡ 1 = omega (arith, z) in (i, ap only one);
      beyond = λ m b. rw (eqb_of_ne m 1 (λ e. omega arith)) refl;
    };
    ordered = λ m two a b ha hb. let u = at_one m a ha in absurd (omega (arith, u.0));
    head = refl;
  };
  size = refl;
  inside = (1, refl);
  kept = λ m j a. absurd (nothing m j a);
  no_more = λ m j a. let u = at_one m j a in inl (sym u.1);
  weights = refl;
}
  where
    only : ℕ → Option ℕ
    only m = if m == 1 then some i else none

    at_one : (m j : ℕ) → only m ≡ some j → (m ≡ 1) × (i ≡ j)
    at_one m j a = elim (Bool-cases (m == 1)) [
      | inl e ↦ (eqb→eq m 1 e, some-inj (rw e at a))
      | inr e ↦ absurd (none-ne-some (rw e at a))
    ]

    nothing : (m j : ℕ) → at m ≢ some j
    nothing m j a = elim (Bool-cases (m == 0)) [
      | inl e ↦ none-ne-some (sym (ap at (eqb→eq m 0 e) ∙ heap.places.linked.none_at) ∙ a)
      | inr e ↦ none-ne-some (sym (heap.places.beyond m (omega (arith, eqb→ne m 0 e))) ∙ a)
    ]

-- HeapAdd of a node that a heap does not hold fails no check, ends within its fuel, and leaves a
-- heap: of one node more, the nodes of before and the new one, in order, with the weight of the new
-- node as given and the others as they were. The size stays below 2 ^ 32.
pub add_lem :
    (weight i : ℕ) (at : ℕ → Option ℕ) (h : Heap)
    → IsHeap at h
    → IsAway i at
    → h.size + 1 < 2 ^ 32
    → Added weight i at h (add weight i h)
unfolding add
add_lem weight i at h heap away small =
    let size : (h.size + 1) % 2 ^ 64 ≡ h.size + 1 = omega arith in
    elim (Bool-cases (h.size == 0)) [
      | inl e ↦
          let z = eqb→eq h.size 0 e in
          let first : (h.size + 1 == 1) ≡ true = ground arith in
          rw (add, size, first, size) (add_to_none weight i at h heap z)
      | inr e ↦
          let more : (h.size + 1 == 1) ≡ false = ground arith in
          rw (add, size, more, size)
            (add_to_some weight i at h heap away (omega (arith, eqb→ne h.size 0 e)) small)
    ]
