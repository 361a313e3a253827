-- ===== src/Utils/Heap/Add.antt =====
-- HeapAdd, on a heap.
use kernelpanic.Common.{
  ℕ, ◌+◌, ◌*◌, ◌/◌, ◌≤◌, ◌<◌, ◌≡◌, refl, sym, ap, ◌∙◌, subst, ◌≢◌, ◌⊎◌, inl, inr, true, false, not,
  ◌&&◌, Option, none, some, arith, leb, ◌==◌, if◌then◌else◌, Bool-cases, eqb→eq, eqb→ne, eqb_of_ne,
  eqb_refl,
}
use kernelpanic.Common.Outcome.{Outcome, ok}
use kernelpanic.Common.Store.{update, update_ne}
use kernelpanic.Utils.Heap.{
  Nodes, Heap, is_null, set_left, set_right, set_parent, attach, as_leaf, new_head,
}
use kernelpanic.Utils.Heap.Places.{Linked}
use kernelpanic.Utils.Heap.Order.{Places, Ordered, OrderedBut, Below, Settled}

-- A heap whose nodes stand at the places of `at`.
pub record IsHeap (at : ℕ → Option ℕ) (h : Heap) : Type 0 where
  pub places : Places h.size at h.nodes
  pub ordered : Ordered at h.nodes.weight
  pub head : h.head ≡ at 1

-- A node that the heap does not hold.
abbrev pub IsAway : ℕ → (ℕ → Option ℕ) → Type 0
IsAway i at = (m : ℕ) → at m ≢ some i

-- The array with a node behind the last.
abbrev pub with_tail : (ℕ → Option ℕ) → ℕ → ℕ → ℕ → Option ℕ
with_tail at n i m = if m == n + 1 then some i else at m

attach-left :
    (p i : ℕ) (s : Nodes) (j : ℕ)
    → (attach p i s).left j ≡ (if j == p && is_null (s.left p) then some i else s.left j)
unfolding attach set_left set_right set_parent update
attach-left p i s j = elim (Bool-cases (is_null (s.left p))) [
  | inl h ↦ rw h (elim (Bool-cases (j == p)) [ inl e ↦ rw e refl | inr e ↦ rw e refl ])
  | inr h ↦ rw h (elim (Bool-cases (j == p)) [ inl e ↦ rw e refl | inr e ↦ rw e refl ])
]

attach-right :
    (p i : ℕ) (s : Nodes) (j : ℕ)
    → (attach p i s).right j ≡ (if j == p && not (is_null (s.left p)) then some i else s.right j)
unfolding attach set_left set_right set_parent update
attach-right p i s j = elim (Bool-cases (is_null (s.left p))) [
  | inl h ↦ rw h (elim (Bool-cases (j == p)) [ inl e ↦ rw e refl | inr e ↦ rw e refl ])
  | inr h ↦ rw h (elim (Bool-cases (j == p)) [ inl e ↦ rw e refl | inr e ↦ rw e refl ])
]

attach-parent :
    (p i : ℕ) (s : Nodes) (j : ℕ)
    → (attach p i s).parent j ≡ (if j == i then some p else s.parent j)
unfolding attach set_left set_right set_parent update
attach-parent p i s j = elim (Bool-cases (is_null (s.left p))) [
  | inl h ↦ rw h refl
  | inr h ↦ rw h refl
]

pub attach-weight : (p i : ℕ) (s : Nodes) → (attach p i s).weight ≡ s.weight
unfolding attach set_left set_right set_parent
attach-weight p i s = elim (Bool-cases (is_null (s.left p))) [
  | inl h ↦ rw h refl
  | inr h ↦ rw h refl
]

-- The writes to a node outside leave the places as they are.
pub outside-Linked :
    (at : ℕ → Option ℕ) (i w : ℕ) (s : Nodes)
    → IsAway i at
    → Linked at s
    → Linked at (as_leaf w i s)
unfolding as_leaf set_left set_right
outside-Linked at i w s away v = record {
  none_at = v.none_at;
  once = v.once;
  left = λ m j h. update_ne s.left i j none (other m j h) ∙ v.left m j h;
  right = λ m j h. update_ne s.right i j none (other m j h) ∙ v.right m j h;
  parent = v.parent;
}
  where
    other : (m j : ℕ) → at m ≡ some j → j ≢ i
    other m j h e = away m (h ∙ ap some e)

pub at_tail : (at : ℕ → Option ℕ) (n i m : ℕ) → m ≡ n + 1 → with_tail at n i m ≡ some i
at_tail at n i m e = let t : (m == n + 1) ≡ true = ground arith in rw t refl

pub not_tail : (at : ℕ → Option ℕ) (n i m : ℕ) → m ≢ n + 1 → with_tail at n i m ≡ at m
not_tail at n i m e = rw (eqb_of_ne m (n + 1) e) refl

pub some-inj : {i j : ℕ} → some i ≡ some j → i ≡ j
some-inj h = cc

pub none-ne-some : {i : ℕ} → none ≢ some i
none-ne-some h = cc

pub null_of_some : (o : Option ℕ) (j : ℕ) → o ≡ some j → is_null o ≡ false
unfolding is_null
null_of_some none j h = absurd (none-ne-some h)
null_of_some (some i) j h = refl

module _ {n : ℕ} {at : ℕ → Option ℕ} {s : Nodes} (i p : ℕ) (v : Places n at s) (low : 1 ≤ n)
    (no_left : s.left i ≡ none) (no_right : s.right i ≡ none) (away : IsAway i at)
    (at_q : at ((n + 1) / 2) ≡ some p) where
  abbrev half : ℕ
  half = (n + 1) / 2

  abbrev grown : ℕ → Option ℕ
  grown = with_tail at n i

  within : (m j : ℕ) → at m ≡ some j → m ≤ n
  within m j h = elim (Bool-cases (leb m n)) [
    | inl e ↦ ground arith
    | inr e ↦ absurd (none-ne-some (sym (v.beyond m (ground arith)) ∙ h))
  ]

  pub room : is_null (s.left p) ≡ (2 * half == n + 1)
  room = rw (v.linked.left half p at_q) (elim (Bool-cases (2 * half == n + 1)) [
    | inl e ↦
        rw (e, v.beyond (2 * half) (omega (arith, eqb→eq (2 * half) (n + 1) e)))
          (unfold is_null in refl)
    | inr e ↦
        let (j, h) =
          v.filled (2 * half) (omega arith) (omega (arith, eqb→ne (2 * half) (n + 1) e)) in
        null_of_some (at (2 * half)) j h ∙ sym e
  ])

  i_ne_p : (i == p) ≡ false
  i_ne_p = eqb_of_ne i p (λ e. away half (at_q ∙ ap some (sym e)))

  is_parent : (m j : ℕ) → at m ≡ some j → (j == p) ≡ (m == half)
  is_parent m j h = elim (Bool-cases (m == half)) [
    | inl e ↦
        let j_p : j ≡ p = some-inj (sym h ∙ ap at (eqb→eq m half e) ∙ at_q) in
        ap (λ x. x == p) j_p ∙ eqb_refl p ∙ sym e
    | inr e ↦
        eqb_of_ne j p
          (λ same. eqb→ne m half e (v.linked.once m half j h (at_q ∙ ap some (sym same))))
        ∙ sym e
  ]

  grown-left : (m j : ℕ) → grown m ≡ some j → (attach p i s).left j ≡ grown (2 * m)
  grown-left m j h = attach-left p i s j ∙ elim (Bool-cases (m == n + 1)) [
    | inl e ↦
        let last = eqb→eq m (n + 1) e in
        let j_i : i ≡ j = some-inj (sym (at_tail at n i m last) ∙ h) in
        subst (λ j. (if j == p && is_null (s.left p) then some i else s.left j) ≡ grown (2 * m)) j_i
          (rw i_ne_p (
            no_left
            ∙ sym (not_tail at n i (2 * m) (λ e. omega arith) ∙ v.beyond (2 * m) (omega arith))))
    | inr e ↦
        let here : at m ≡ some j = sym (not_tail at n i m (eqb→ne m (n + 1) e)) ∙ h in
        let b : (m == half && 2 * half == n + 1) ≡ (2 * m == n + 1) = ground arith in
        rw (is_parent m j here, room, v.linked.left m j here, b) refl
  ]

  grown-right : (m j : ℕ) → grown m ≡ some j → (attach p i s).right j ≡ grown (2 * m + 1)
  grown-right m j h = attach-right p i s j ∙ elim (Bool-cases (m == n + 1)) [
    | inl e ↦
        let last = eqb→eq m (n + 1) e in
        let j_i : i ≡ j = some-inj (sym (at_tail at n i m last) ∙ h) in
        subst
          (λ j.
            (if j == p && not (is_null (s.left p)) then some i else s.right j) ≡ grown (2 * m + 1))
          j_i
          (rw i_ne_p (
            no_right
            ∙ sym (
                not_tail at n i (2 * m + 1) (λ e. omega arith)
                ∙ v.beyond (2 * m + 1) (omega arith))))
    | inr e ↦
        let here : at m ≡ some j = sym (not_tail at n i m (eqb→ne m (n + 1) e)) ∙ h in
        let b : (m == half && not (2 * half == n + 1)) ≡ (2 * m + 1 == n + 1) = ground arith in
        rw (is_parent m j here, room, v.linked.right m j here, b) refl
  ]

  grown-parent : (m j : ℕ) → grown m ≡ some j → (attach p i s).parent j ≡ grown (m / 2)
  grown-parent m j h = attach-parent p i s j ∙ elim (Bool-cases (m == n + 1)) [
    | inl e ↦
        let last = eqb→eq m (n + 1) e in
        let j_i : j ≡ i = some-inj (sym h ∙ at_tail at n i m last) in
        let same : (j == i) ≡ true = ap (λ x. x == i) j_i ∙ eqb_refl i in
        rw same
          (sym (not_tail at n i (m / 2) (λ e. omega arith) ∙ ap (λ m. at (m / 2)) last ∙ at_q))
    | inr e ↦
        let here : at m ≡ some j = sym (not_tail at n i m (eqb→ne m (n + 1) e)) ∙ h in
        let other = eqb_of_ne j i (λ same. away m (here ∙ ap some same)) in
        let in_heap = within m j here in
        rw (other, v.linked.parent m j here) (sym (not_tail at n i (m / 2) (λ e. omega arith)))
  ]

  grown-once : (m m' j : ℕ) → grown m ≡ some j → grown m' ≡ some j → m ≡ m'
  grown-once m m' j h h' = elim (Bool-cases (m == n + 1)) [
    | inl e ↦ elim (Bool-cases (m' == n + 1)) [
      | inl f ↦ eqb→eq m (n + 1) e ∙ sym (eqb→eq m' (n + 1) f)
      | inr f ↦ absurd (
          away m' (
            sym (not_tail at n i m' (eqb→ne m' (n + 1) f))
            ∙ h'
            ∙ sym h
            ∙ at_tail at n i m (eqb→eq m (n + 1) e)))
    ]
    | inr e ↦ elim (Bool-cases (m' == n + 1)) [
      | inl f ↦ absurd (
          away m (
            sym (not_tail at n i m (eqb→ne m (n + 1) e))
            ∙ h
            ∙ sym h'
            ∙ at_tail at n i m' (eqb→eq m' (n + 1) f)))
      | inr f ↦
          v.linked.once m m' j (sym (not_tail at n i m (eqb→ne m (n + 1) e)) ∙ h)
            (sym (not_tail at n i m' (eqb→ne m' (n + 1) f)) ∙ h')
    ]
  ]

  pub grown-Places : Places (n + 1) grown (attach p i s)
  grown-Places = record {
    linked = record {
      none_at = not_tail at n i 0 (λ e. omega arith) ∙ v.linked.none_at;
      once = grown-once;
      left = grown-left;
      right = grown-right;
      parent = grown-parent;
    };
    filled = λ m a b. elim (Bool-cases (m == n + 1)) [
      | inl e ↦ (i, at_tail at n i m (eqb→eq m (n + 1) e))
      | inr e ↦
          let (j, h) = v.filled m a (omega (arith, eqb→ne m (n + 1) e)) in
          (j, not_tail at n i m (eqb→ne m (n + 1) e) ∙ h)
    ];
    beyond = λ m b. not_tail at n i m (λ e. omega arith) ∙ v.beyond m (omega arith);
  }

-- What HeapAdd does with a heap.
pub record Added (weight i : ℕ) (at : ℕ → Option ℕ) (h : Heap) (done : Outcome (Option Heap))
    : Type 0 where
  pub last : ℕ → Option ℕ
  pub heap : Heap
  pub returns : done ≡ ok (some heap)
  pub is_heap : IsHeap last heap
  pub size : heap.size ≡ h.size + 1
  pub inside : (m : ℕ) × (last m ≡ some i)
  pub kept : (m j : ℕ) → at m ≡ some j → (n : ℕ) × (last n ≡ some j)
  pub no_more : (m j : ℕ) → last m ≡ some j → (j ≡ i) ⊎ ((n : ℕ) × (at n ≡ some j))
  pub weights : heap.nodes.weight ≡ update h.nodes.weight i weight

pub Settled-head :
    {i n : ℕ} {at : ℕ → Option ℕ} {s : Nodes} {done : Outcome (Option Nodes)} (head : Option ℕ)
    (size : ℕ)
    → (v : Settled i n at s done) → 1 ≤ n
    → head ≡ at 1
    → (m : ℕ) × (at m ≡ some i)
    → new_head i (record { head = head; size = size; nodes = v.nodes })
      ≡ record { head = v.last 1; size = size; nodes = v.nodes }
unfolding new_head
Settled-head {i} {n} head size v low e (m, here) =
    let (k, now) = v.moved.kept m i here in
    let up = v.places.linked.parent k i now in
    elim (Bool-cases (k == 1)) [
      | inl one ↦
          let k_1 = eqb→eq k 1 one in
          let null : is_null (v.nodes.parent i) ≡ true =
            rw (up, ap (λ k. v.last (k / 2)) k_1, v.places.linked.none_at)
              (unfold is_null in refl) in
          rw null
            (ap (λ o. record { head = o; size = size; nodes = v.nodes }) (sym now ∙ ap v.last k_1))
      | inr more ↦
          let k_ne = eqb→ne k 1 more in
          let in_heap = place_in_heap k now in
          let (g, h) = v.places.filled (k / 2) (omega arith) (omega (arith, in_heap.1)) in
          let null : is_null (v.nodes.parent i) ≡ false =
            null_of_some (v.nodes.parent i) g (up ∙ h) in
          rw null (elim v.first [
            | inl same ↦ ap (λ o. record { head = o; size = size; nodes = v.nodes }) (e ∙ sym same)
            | inr first ↦ absurd (k_ne (v.places.linked.once k 1 i now first))
          ])
    ]
  where
    place_in_heap : (k : ℕ) → v.last k ≡ some i → (1 ≤ k) × (k ≤ n)
    place_in_heap k now = (
      elim (Bool-cases (k == 0)) [
        | inl z ↦
            absurd (none-ne-some (sym (ap v.last (eqb→eq k 0 z) ∙ v.places.linked.none_at) ∙ now))
        | inr nz ↦ omega (arith, eqb→ne k 0 nz)
      ],
      elim (Bool-cases (leb k n)) [
        | inl b ↦ ground arith
        | inr b ↦ absurd (none-ne-some (sym (v.places.beyond k (ground arith)) ∙ now))
      ],
    )

pub Below-update :
    (at : ℕ → Option ℕ) (w : ℕ → ℕ) (i weight a b : ℕ)
    → IsAway i at
    → Below at w a b
    → Below at (update w i weight) a b
Below-update at w i weight a b away h x y hx hy = omega (
  arith,
  h x y hx hy,
  update_ne w i x weight (λ e. away a (hx ∙ ap some e)),
  update_ne w i y weight (λ e. away b (hy ∙ ap some e)),
)

-- The order but for the node at the new last place.
pub grown-OrderedBut :
    (n : ℕ) (at : ℕ → Option ℕ) (w : ℕ → ℕ) (i : ℕ)
    → ((m : ℕ) → n < m → at m ≡ none)
    → Ordered at w
    → OrderedBut (n + 1) (with_tail at n i) w
grown-OrderedBut n at w i beyond v = record {
  others = λ m two ne a b ha hb.
      let here : at m ≡ some a = sym (not_tail at n i m ne) ∙ ha in
      let small = in_heap m a here in
      v m two a b here (sym (not_tail at n i (m / 2) (λ e. omega arith)) ∙ hb);
  across = λ m four half a b ha hb.
      absurd
        (none-ne-some (sym (not_tail at n i m (λ e. omega arith) ∙ beyond m (omega arith)) ∙ ha));
}
  where
    in_heap : (m a : ℕ) → at m ≡ some a → m ≤ n
    in_heap m a h = elim (Bool-cases (leb m n)) [
      | inl b ↦ ground arith
      | inr b ↦ absurd (none-ne-some (sym (beyond m (ground arith)) ∙ h))
    ]

-- What holds after the loop of HeapAdd.
pub Added-Settled :
    (weight i : ℕ) (at : ℕ → Option ℕ) (h : Heap) (s : Nodes) (done : Outcome (Option Nodes))
    → IsHeap at h
    → 1 ≤ h.size
    → s.weight ≡ update h.nodes.weight i weight
    → (v : Settled i (h.size + 1) (with_tail at h.size i) s done)
    → Added weight i at h
        (ok (some (new_head i (record { head = h.head; size = h.size + 1; nodes = v.nodes }))))
Added-Settled weight i at h s done heap low w v =
    let grown = with_tail at h.size i in
    let head =
      Settled-head h.head (h.size + 1) v (omega arith)
        (heap.head ∙ sym (not_tail at h.size i 1 (λ e. omega arith)))
        (h.size + 1, at_tail at h.size i (h.size + 1) refl) in
    record {
      last = v.last;
      heap = record { head = v.last 1; size = h.size + 1; nodes = v.nodes };
      returns = ap (λ h. ok (some h)) head;
      is_heap = record {
        places = v.places;
        ordered = subst (Ordered v.last) (sym v.same_weight) v.ordered;
        head = refl;
      };
      size = refl;
      inside = v.moved.kept (h.size + 1) i (at_tail at h.size i (h.size + 1) refl);
      kept =
          λ m j here. v.moved.kept m j (not_tail at h.size i m (λ e. not_behind m j here e) ∙ here);
      no_more = λ m j here.
          let (n, there) = v.moved.no_more m j here in
          elim (Bool-cases (n == h.size + 1)) [
            | inl e ↦ inl (some-inj (sym there ∙ at_tail at h.size i n (eqb→eq n (h.size + 1) e)))
            | inr e ↦ inr (n, sym (not_tail at h.size i n (eqb→ne n (h.size + 1) e)) ∙ there)
          ];
      weights = v.same_weight ∙ w;
    }
  where
    not_behind : (m j : ℕ) → at m ≡ some j → m ≢ h.size + 1
    not_behind m j here e = none-ne-some (sym (heap.places.beyond m (omega arith)) ∙ here)
