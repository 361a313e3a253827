-- ===== src/Utils/Heap/Tests.antt =====
-- Runs of the heap.
use kernelpanic.Common.{
  ℕ, zero, suc, ◌+◌, ◌*◌, ◌/◌, ◌^◌, ◌<◌, ◌≡◌, refl, sym, ap, ◌∙◌, ◌≢◌, ◌⊎◌, inl, inr, Option, none,
  some, List, [], ◌∷◌, arith, ◌==◌, if◌then◌else◌, Bool-cases, eqb→eq, eqb→ne, eqb_of_ne,
}
use kernelpanic.Common.Outcome.{Outcome, ok, ◌>>=◌}
use kernelpanic.Utils.Heap.{Nodes, Heap, init, add, pop, promote, promote_over}
use kernelpanic.Utils.Heap.Places.{Linked, swap_places, promote_lem}
use kernelpanic.Utils.Heap.Add.{IsHeap, IsAway, Added}
use kernelpanic.Utils.Heap.Insert.{add_lem}
use kernelpanic.Utils.Heap.Extract.{Popped, pop_lem}

abbrev blank : Nodes
blank = record { left = λ i. none; right = λ i. none; parent = λ i. none; weight = λ i. 0 }

-- HeapAdd of nodes with weights, one after the other.
unfoldable add_all : List (ℕ × ℕ) → Heap → Outcome (Option Heap)
unfolding add
add_all [] h = ok (some h)
add_all ((w, i) ∷ items) h =
    add w i h >>= λ added. elim added [ none ↦ ok none | some h' ↦ add_all items h' ]

-- The nodes that n calls of HeapPop return.
unfoldable pop_all : ℕ → Heap → Outcome (Option (List (Option ℕ)))
unfolding pop
pop_all zero h = ok (some [])
pop_all (suc n) h = pop h >>= λ popped. elim popped [
  | none ↦ ok none
  | some (i, h') ↦
      pop_all n h' >>= λ rest. elim rest [ none ↦ ok none | some l ↦ ok (some (i ∷ l)) ]
]

unfoldable sorted : List (ℕ × ℕ) → ℕ → Outcome (Option (List (Option ℕ)))
unfolding init add_all pop_all
sorted items n =
    add_all items (init blank) >>= λ added. elim added [ none ↦ ok none | some h ↦ pop_all n h ]

three_sorted :
    sorted ((30, 3) ∷ (10, 1) ∷ (20, 2) ∷ []) 4 ≡ ok (some (some 1 ∷ some 2 ∷ some 3 ∷ none ∷ []))
unfolding sorted
three_sorted = refl

six_sorted :
    sorted ((50, 5) ∷ (40, 4) ∷ (60, 6) ∷ (10, 1) ∷ (20, 2) ∷ (30, 3) ∷ []) 6
    ≡ ok (some (some 1 ∷ some 2 ∷ some 3 ∷ some 4 ∷ some 5 ∷ some 6 ∷ []))
unfolding sorted
six_sorted = refl

-- A heap of the nodes 1 and 2.
abbrev pair : Heap
pair = record {
  head = some 1;
  size = 2;
  nodes = record {
    left = λ i. if i == 1 then some 2 else none;
    right = λ i. none;
    parent = λ i. if i == 2 then some 1 else none;
    weight = λ i. if i == 1 then 5 else 7;
  };
}

abbrev pair_at : ℕ → Option ℕ
pair_at m = if m == 1 then some 1 else if m == 2 then some 2 else none

some-inj : {i j : ℕ} → some i ≡ some j → i ≡ j
some-inj h = cc

none-ne-some : {i : ℕ} → none ≢ some i
none-ne-some h = cc

stands : (m j : ℕ) → pair_at m ≡ some j → (m ≡ 1) × (j ≡ 1) ⊎ (m ≡ 2) × (j ≡ 2)
stands m j h = elim (Bool-cases (m == 1)) [
  | inl e ↦ inl (eqb→eq m 1 e, sym (some-inj (rw e at h)))
  | inr e ↦ elim (Bool-cases (m == 2)) [
    | inl f ↦ inr (eqb→eq m 2 f, sym (some-inj (rw (e, f) at h)))
    | inr f ↦ absurd (none-ne-some (rw (e, f) at h))
  ]
]

same_place :
    {m n j : ℕ}
    → (m ≡ 1) × (j ≡ 1) ⊎ (m ≡ 2) × (j ≡ 2)
    → (n ≡ 1) × (j ≡ 1) ⊎ (n ≡ 2) × (j ≡ 2)
    → m ≡ n
same_place (inl a) (inl b) = a.0 ∙ sym b.0
same_place (inl a) (inr b) = absurd (omega (arith, a.1, b.1))
same_place (inr a) (inl b) = absurd (omega (arith, a.1, b.1))
same_place (inr a) (inr b) = a.0 ∙ sym b.0

pair-Linked : Linked pair_at pair.nodes
pair-Linked = record {
  none_at = refl;
  once = λ m n j a b. same_place (stands m j a) (stands n j b);
  left = λ m j h. elim (stands m j h) [
    | inl e ↦ ap pair.nodes.left e.1 ∙ sym (ap (λ m. pair_at (2 * m)) e.0)
    | inr e ↦ ap pair.nodes.left e.1 ∙ sym (ap (λ m. pair_at (2 * m)) e.0)
  ];
  right = λ m j h. elim (stands m j h) [
    | inl e ↦ ap pair.nodes.right e.1 ∙ sym (ap (λ m. pair_at (2 * m + 1)) e.0)
    | inr e ↦ ap pair.nodes.right e.1 ∙ sym (ap (λ m. pair_at (2 * m + 1)) e.0)
  ];
  parent = λ m j h. elim (stands m j h) [
    | inl e ↦ ap pair.nodes.parent e.1 ∙ sym (ap (λ m. pair_at (m / 2)) e.0)
    | inr e ↦ ap pair.nodes.parent e.1 ∙ sym (ap (λ m. pair_at (m / 2)) e.0)
  ];
}

pair-IsHeap : IsHeap pair_at pair
pair-IsHeap = record {
  places = record {
    linked = pair-Linked;
    filled = λ m a b. elim (Bool-cases (m == 1)) [
      | inl e ↦ (1, ap pair_at (eqb→eq m 1 e))
      | inr e ↦ let two : m ≡ 2 = omega (arith, eqb→ne m 1 e) in (2, ap pair_at two)
    ];
    beyond = λ m b. rw (eqb_of_ne m 1 (λ e. omega arith), eqb_of_ne m 2 (λ e. omega arith)) refl;
  };
  ordered = λ m two i p hi hp. elim (stands m i hi) [
    | inl e ↦ absurd (omega (arith, e.0))
    | inr e ↦ let up : p ≡ 1 = some-inj (sym hp ∙ ap (λ m. pair_at (m / 2)) e.0) in ground arith
  ];
  head = refl;
}

three-IsAway : IsAway 3 pair_at
three-IsAway m h = elim (stands m 3 h) [
  | inl e ↦ absurd (omega (arith, e.1))
  | inr e ↦ absurd (omega (arith, e.1))
]

add_lem_example : Added 3 3 pair_at pair (add 3 3 pair)
add_lem_example = add_lem 3 3 pair_at pair pair-IsHeap three-IsAway (omega arith)

light : (j : ℕ) → pair.nodes.weight j < 2 ^ 64
light j = ground arith

pop_lem_example : Popped 1 pair_at pair (pop pair)
pop_lem_example = pop_lem pair_at pair 1 pair-IsHeap refl (omega arith) light

promote_lem_example :
    (promote 2 pair.nodes ≡ ok (promote_over 1 2 pair.nodes))
    × Linked (swap_places pair_at 2) (promote_over 1 2 pair.nodes)
promote_lem_example = promote_lem pair_at pair.nodes 2 2 1 pair-Linked (omega arith) refl refl
