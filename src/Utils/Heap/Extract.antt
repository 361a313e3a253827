-- ===== src/Utils/Heap/Extract.antt =====
-- HeapPop takes the lightest node out of a heap.
use kernelpanic.Common.{
  ℕ, zero, suc, ◌+◌, ◌-◌, ◌*◌, ◌/◌, ◌^◌, ◌≤◌, ◌<◌, ◌≡◌, refl, sym, ap, ◌∙◌, subst, ◌≢◌, ◌⊎◌, inl,
  inr, false, Option, none, some, arith, ltb, ◌==◌, Bool-cases, ltb→lt, eqb→eq, eqb→ne,
}
use kernelpanic.Common.Outcome.{Outcome, ok, ◌>>=◌}
use kernelpanic.Utils.Heap.{
  Nodes, Heap, deref, is_null, detach, replace, percolate_down, pop_from, pop,
}
use mathlib.Core.Option.{map}
use kernelpanic.Utils.Heap.Find.{find_element_lem}
use kernelpanic.Utils.Heap.Order.{Places, Ordered}
use kernelpanic.Utils.Heap.Sink.{OrderedAbove, Sunk, percolate_down_lem, in_heap}
use kernelpanic.Utils.Heap.Tail.{
  detach-weight, replace-weight, tail_first, cut_first, cut_kept, cut_no_more, cut-Places,
  cut-OrderedAbove,
}
use kernelpanic.Utils.Heap.Add.{IsHeap, none-ne-some, some-inj}

-- What HeapPop does with a heap whose head is r.
pub record Popped (r : ℕ) (at : ℕ → Option ℕ) (h : Heap) (done : Outcome (Option (Option ℕ × Heap)))
    : Type 0 where
  pub last : ℕ → Option ℕ
  pub heap : Heap
  pub returns : done ≡ ok (some (some r, heap))
  pub is_heap : IsHeap last heap
  pub size : heap.size + 1 ≡ h.size
  pub lightest : (m j : ℕ) → at m ≡ some j → h.nodes.weight r ≤ h.nodes.weight j
  pub kept : (m j : ℕ) → at m ≡ some j → (j ≡ r) ⊎ ((n : ℕ) × (last n ≡ some j))
  pub no_more : (m j : ℕ) → last m ≡ some j → (j ≢ r) × ((n : ℕ) × (at n ≡ some j))
  pub weights : heap.nodes.weight ≡ h.nodes.weight

-- The head is no heavier than any node.
head_lightest :
    (fuel n : ℕ) (at : ℕ → Option ℕ) (s : Nodes) (r m j : ℕ)
    → Places n at s
    → Ordered at s.weight
    → at 1 ≡ some r
    → m ≤ fuel
    → at m ≡ some j
    → s.weight r ≤ s.weight j
head_lightest zero n at s r m j v o top f h =
    absurd (none-ne-some (sym (ap at (zero_of m f) ∙ v.linked.none_at) ∙ h))
  where
    zero_of : (m : ℕ) → m ≤ 0 → m ≡ 0
    zero_of m f = omega arith
head_lightest (suc fuel) n at s r m j v o top f h = elim (Bool-cases (ltb m 2)) [
  | inl e ↦ elim (Bool-cases (m == 0)) [
    | inl z ↦ absurd (none-ne-some (sym (ap at (eqb→eq m 0 z) ∙ v.linked.none_at) ∙ h))
    | inr nz ↦
        let one : m ≡ 1 = omega (arith, ltb→lt m 2 e, eqb→ne m 0 nz) in
        omega (arith, ap s.weight (some-inj (sym h ∙ ap at one ∙ top)))
  ]
  | inr e ↦
      let two : 2 ≤ m = ground arith in
      let inside = in_heap m j v h in
      let (p, up) = v.filled (m / 2) (omega arith) (omega arith) in
      omega
        (arith, o m two j p h up, head_lightest fuel n at s r (m / 2) p v o top (omega arith) up)
]

-- HeapPop, when tail is at the end of the heap.
tail_found :
    (at : ℕ → Option ℕ) (h : Heap) (t : ℕ) (ended : Option (ℕ × Heap))
    → IsHeap at h
    → 1 ≤ h.size
    → h.size < 2 ^ 31
    → at h.size ≡ some t
    → pop_from t h ≡ ok ended
    → pop h ≡ ok (map (λ p. (some p.0, p.1)) ended)
unfolding pop deref
tail_found at h t ended heap low small at_n e =
    let some_left : (h.size == 0) ≡ false = ground arith in
    let found =
      find_element_lem at h h.size h.size heap.places.linked heap.places.filled heap.head low small
        (omega arith) (omega arith) in
    let no_left : h.nodes.left t ≡ none =
      heap.places.linked.left h.size t at_n ∙ heap.places.beyond (2 * h.size) (omega arith) in
    let no_right : h.nodes.right t ≡ none =
      heap.places.linked.right h.size t at_n ∙ heap.places.beyond (2 * h.size + 1) (omega arith) in
    rw (pop, some_left) (rw (found, at_n) (rw (no_left, no_right) (unfold is_null in rw e refl)))

-- HeapPop of the only node.
pop_only :
    (at : ℕ → Option ℕ) (h : Heap) (r : ℕ)
    → IsHeap at h
    → at 1 ≡ some r
    → h.size ≡ 1
    → Popped r at h (pop h)
pop_only at h r heap top one = record {
  last = λ m. none;
  heap = record { head = none; size = 0; nodes = h.nodes };
  returns =
      tail_found at h r (some (r, record { head = none; size = 0; nodes = h.nodes })) heap
        (omega (arith, one)) (omega (arith, one)) (ap at one ∙ top)
        (unfold pop_from in rw (alone, pop_from) refl);
  is_heap = record {
    places = record {
      linked = record {
        none_at = refl;
        once = λ m n j a b. absurd (none-ne-some a);
        left = λ m j a. absurd (none-ne-some a);
        right = λ m j a. absurd (none-ne-some a);
        parent = λ m j a. absurd (none-ne-some a);
      };
      filled = λ m a b. absurd (omega arith);
      beyond = λ m b. refl;
    };
    ordered = λ m two a b ha hb. absurd (none-ne-some ha);
    head = refl;
  };
  size = sym one;
  lightest = λ m j here.
      head_lightest m h.size at h.nodes r m j heap.places heap.ordered top (omega arith) here;
  kept = λ m j here. inl (only m j here);
  no_more = λ m j a. absurd (none-ne-some a);
  weights = refl;
}
  where
    alone : h.nodes.parent r ≡ none
    alone = heap.places.linked.parent 1 r top ∙ heap.places.linked.none_at

    only : (m j : ℕ) → at m ≡ some j → j ≡ r
    only m j here = elim (Bool-cases (m == 0)) [
      | inl z ↦
          absurd (none-ne-some (sym (ap at (eqb→eq m 0 z) ∙ heap.places.linked.none_at) ∙ here))
      | inr nz ↦
          let inside = in_heap m j heap.places here in
          let first : m ≡ 1 = omega (arith, eqb→ne m 0 nz, inside, one) in
          some-inj (sym here ∙ ap at first ∙ top)
    ]

-- HeapPop of one node of several.
pop_several :
    (at : ℕ → Option ℕ) (h : Heap) (r t p : ℕ)
    → IsHeap at h
    → at 1 ≡ some r
    → 2 ≤ h.size
    → h.size < 2 ^ 31
    → at h.size ≡ some t
    → at (h.size / 2) ≡ some p
    → (done : Outcome (Option Heap))
    → (v : Sunk
        (h.size - 1)
        (tail_first at h.size t)
        (record { head = some t; size = h.size - 1; nodes = replace r t (detach p t h.nodes) })
        done)
    → pop_from t h ≡ (done >>= λ d. ok (map (λ h'. (r, h')) d))
    → Popped r at h (pop h)
pop_several at h r t p heap top two small at_n at_q done v e = record {
  last = v.last;
  heap = v.heap;
  returns =
      tail_found at h t (some (r, v.heap)) heap (omega arith) small at_n (e ∙ rw v.returns refl);
  is_heap = record {
    places = subst (λ n. Places n v.last v.heap.nodes) (sym v.size) v.places;
    ordered = subst (Ordered v.last) (sym v.same_weight) v.ordered;
    head = v.head;
  };
  size = omega (arith, v.size);
  lightest = λ m j here.
      head_lightest m h.size at h.nodes r m j heap.places heap.ordered top (omega arith) here;
  kept = λ m j here. elim (cut_kept r t p heap.places two top at_n at_q m j here) [
    | inl first ↦ inl first
    | inr (x, there) ↦ inr (v.moved.kept x j there)
  ];
  no_more = λ m j here.
      let (x, there) = v.moved.no_more m j here in
      cut_no_more r t p heap.places two top at_n at_q x j there;
  weights = v.same_weight ∙ replace-weight r t (detach p t h.nodes) ∙ detach-weight p t h.nodes;
}

-- The run of the loop.
pop_last :
    (at : ℕ → Option ℕ) (h : Heap) (r t p : ℕ)
    → IsHeap at h
    → h.head ≡ some r
    → ((j : ℕ) → h.nodes.weight j < 2 ^ 64)
    → at 1 ≡ some r
    → 2 ≤ h.size
    → h.size < 2 ^ 31
    → at h.size ≡ some t
    → at (h.size / 2) ≡ some p
    → Popped r at h (pop h)
pop_last at h r t p heap head bound top two small at_n at_q =
    let same = replace-weight r t (detach p t h.nodes) ∙ detach-weight p t h.nodes in
    let raised : Heap = record {
      head = some t;
      size = h.size - 1;
      nodes = replace r t (detach p t h.nodes);
    } in
    pop_several at h r t p heap top two small at_n at_q (percolate_down h.size t raised)
      (percolate_down_lem h.size (h.size - 1) (tail_first at h.size t) raised 1 t
        (cut-Places r t p heap.places two top at_n at_q)
        (sym (cut_first r t p heap.places two top at_n at_q))
        (subst (OrderedAbove 1 (tail_first at h.size t)) (sym same)
          (cut-OrderedAbove r t p heap.places two top at_n at_q h.nodes.weight heap.ordered))
        (subst (λ (w : ℕ → ℕ). (j : ℕ) → w j < 2 ^ 64) (sym same) bound)
        (cut_first r t p heap.places two top at_n at_q) (omega arith) (omega arith))
      (unfold pop_from deref in rw (up, pop_from) (rw head refl))
  where
    up : h.nodes.parent t ≡ some p
    up = heap.places.linked.parent h.size t at_n ∙ at_q

-- HeapPop of a heap that is not empty, of fewer than 2 ^ 31 nodes, whose weights are below
-- 2 ^ 64, fails no check, ends within its fuel, and returns the head, than which no node is lighter. It leaves a heap of the other nodes, in
-- order, with the weights as they were.
pub pop_lem :
    (at : ℕ → Option ℕ) (h : Heap) (r : ℕ)
    → IsHeap at h
    → h.head ≡ some r
    → h.size < 2 ^ 31
    → ((j : ℕ) → h.nodes.weight j < 2 ^ 64)
    → Popped r at h (pop h)
pop_lem at h r heap head small bound =
    let top = sym heap.head ∙ head in
    let inside = in_heap 1 r heap.places top in
    elim (Bool-cases (h.size == 1)) [
      | inl e ↦ pop_only at h r heap top (eqb→eq h.size 1 e)
      | inr e ↦
          let two : 2 ≤ h.size = omega (arith, eqb→ne h.size 1 e) in
          let (t, at_n) = heap.places.filled h.size (omega arith) (omega arith) in
          let (p, at_q) = heap.places.filled (h.size / 2) (omega arith) (omega arith) in
          pop_last at h r t p heap head bound top two small at_n at_q
    ]
