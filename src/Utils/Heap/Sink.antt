-- ===== src/Utils/Heap/Sink.antt =====
-- The loop of HeapPop.
use kernelpanic.Common.{
  ℕ, zero, suc, ◌+◌, ◌*◌, ◌/◌, ◌^◌, ◌≤◌, ◌<◌, ◌≡◌, refl, sym, ap, ◌∙◌, subst, ◌≢◌, ◌⊎◌, inl, inr,
  true, false, ◌&&◌, Option, none, some, arith, leb, ◌==◌, Bool-cases, eqb→eq, eqb→ne, eqb_of_ne,
  eqb_refl,
}
use kernelpanic.Common.Outcome.{Outcome, ok}
use kernelpanic.Utils.Heap.{
  Nodes, Heap, points, is_null, deref, weight_of, smallest, promote_over, new_head, percolate_down,
}
use kernelpanic.Utils.Heap.Places.{Linked, swap_places, promote_lem}
use kernelpanic.Utils.Heap.Writes.{promote_over-weight}
use kernelpanic.Utils.Heap.Order.{
  Places, Ordered, Below, Moved, Moved-refl, Moved-trans, at_unique, moved_to, at_place, at_parent,
  elsewhere, swap-Moved, swap-Places,
}
use kernelpanic.Utils.Heap.Add.{none-ne-some, null_of_some}

-- The order with the exception of the node at place k, whose parent is no heavier than its children.
pub record OrderedAbove (k : ℕ) (at : ℕ → Option ℕ) (w : ℕ → ℕ) : Type 0 where
  pub others : (m : ℕ) → 2 ≤ m → m / 2 ≢ k → Below at w m (m / 2)
  pub across : (m : ℕ) → 2 ≤ k → m / 2 ≡ k → Below at w m (k / 2)

module _ {at : ℕ → Option ℕ} {w : ℕ → ℕ} (c i t : ℕ) (low : 2 ≤ c) (at_c : at c ≡ some i)
    (at_k : at (c / 2) ≡ some t) (lighter : w i < w t) (v : OrderedAbove (c / 2) at w)
    (least : (m : ℕ) → m / 2 ≡ c / 2 → Below at w m c) where
  under_it : Below at w (c / 2) c
  under_it a b ha hb =
      omega (arith, ap w (at_unique at (c / 2) ha at_k), ap w (at_unique at c hb at_c), lighter)

  sink-others : (m : ℕ) → 2 ≤ m → m / 2 ≢ c → Below (swap_places at c) w m (m / 2)
  sink-others m two ne = elim (Bool-cases (m == c)) [
    | inl e ↦
        let m_c = eqb→eq m c e in
        moved_to at w (c / 2) c (at_place c m m_c) (at_parent c (m / 2) low (ap (λ m. m / 2) m_c))
          under_it
    | inr e ↦ elim (Bool-cases (m == c / 2)) [
      | inl f ↦
          let m_k = eqb→eq m (c / 2) f in
          moved_to at w c (c / 2 / 2) (at_parent c m low m_k)
            (elsewhere c (m / 2) ne (λ e. omega arith) ∙ ap (λ m. m / 2) m_k)
            (v.across c (omega arith) refl)
      | inr f ↦
          let stays = elsewhere c m (eqb→ne m c e) (eqb→ne m (c / 2) f) in
          elim (Bool-cases (m / 2 == c / 2)) [
            | inl g ↦
                let half = eqb→eq (m / 2) (c / 2) g in
                moved_to at w m c stays (at_parent c (m / 2) low half) (least m half)
            | inr g ↦
                let other = eqb→ne (m / 2) (c / 2) g in
                moved_to at w m (m / 2) stays (elsewhere c (m / 2) ne other) (v.others m two other)
          ]
    ]
  ]

  sink-OrderedAbove : OrderedAbove c (swap_places at c) w
  sink-OrderedAbove = record {
    others = sink-others;
    across = λ m two half.
        moved_to at w m c (elsewhere c m (λ e. omega arith) (λ e. omega arith))
          (at_parent c (c / 2) low refl)
          (subst (λ n. Below at w m n) half (v.others m (omega arith) (λ e. omega arith)));
  }

-- What HeapSmallest returns for a node and its children.
pub smallest_lem :
    (t : ℕ) (l r : Option ℕ) (s : Nodes)
    → (smallest (some t) l r s ≡ some t)
        × (s.weight t ≤ weight_of l s)
        × (s.weight t ≤ weight_of r s)
      ⊎ ((smallest (some t) l r s ≡ l)
            × (weight_of l s < s.weight t)
            × (weight_of l s ≤ weight_of r s)
          ⊎ (smallest (some t) l r s ≡ r)
            × (weight_of r s < s.weight t)
            × (weight_of r s ≤ weight_of l s))
unfolding smallest
smallest_lem t l r s =
    let a = s.weight t in
    let b = weight_of l s in
    let c = weight_of r s in
    elim (Bool-cases (leb a b && leb a c)) [
      | inl h ↦ inl (rw h refl, ground arith, ground arith)
      | inr h ↦ elim (Bool-cases (leb b a && leb b c)) [
        | inl h2 ↦ inr (inl (rw (h, h2) refl, ground arith, ground arith))
        | inr h2 ↦
            let h3 : (leb c a && leb c b) ≡ true = ground arith in
            inr (inr (rw (h, h2, h3) refl, ground arith, ground arith))
      ]
    ]

-- What the loop of HeapPop leaves.
pub record Sunk (n : ℕ) (at : ℕ → Option ℕ) (h : Heap) (done : Outcome (Option Heap)) : Type 0 where
  pub last : ℕ → Option ℕ
  pub heap : Heap
  pub returns : done ≡ ok (some heap)
  pub places : Places n last heap.nodes
  pub ordered : Ordered last h.nodes.weight
  pub moved : Moved at last
  pub same_weight : heap.nodes.weight ≡ h.nodes.weight
  pub head : heap.head ≡ last 1
  pub size : heap.size ≡ h.size

weight_at :
    (at : ℕ → Option ℕ) (s : Nodes) (m j : ℕ) → at m ≡ some j → weight_of (at m) s ≡ s.weight j
weight_at at s m j h = rw h (unfold weight_of in refl)

real : (o : Option ℕ) (s : Nodes) (w : ℕ) → weight_of o s < w → w < 2 ^ 64 → (i : ℕ) × (o ≡ some i)
unfolding weight_of
real none s w h b = absurd (omega arith)
real (some i) s w h b = (i, refl)

lower_head :
    {n : ℕ} (at : ℕ → Option ℕ) {s : Nodes} (c i : ℕ) (head : Option ℕ) (size : ℕ)
    → Places n (swap_places at c) s
    → 2 ≤ c
    → c ≤ n
    → at c ≡ some i
    → head ≡ at 1
    → new_head i (record { head = head; size = size; nodes = s })
      ≡ record { head = swap_places at c 1; size = size; nodes = s }
unfolding new_head
lower_head {n} at {s} c i head size v low high at_c e =
    let here : swap_places at c (c / 2) ≡ some i = ap at (at_parent c (c / 2) low refl) ∙ at_c in
    let up = v.linked.parent (c / 2) i here in
    elim (Bool-cases (c / 2 == 1)) [
      | inl one ↦
          let k_1 = eqb→eq (c / 2) 1 one in
          let null : is_null (s.parent i) ≡ true =
            rw (up, ap (λ k. swap_places at c (k / 2)) k_1, v.linked.none_at)
              (unfold is_null in refl) in
          rw null (
            ap (λ o. record { head = o; size = size; nodes = s })
              (sym here ∙ ap (swap_places at c) k_1))
      | inr more ↦
          let k_ne = eqb→ne (c / 2) 1 more in
          let (g, h) = v.filled (c / 2 / 2) (omega arith) (omega arith) in
          let null = null_of_some (s.parent i) g (up ∙ h) in
          rw null (
            ap (λ o. record { head = o; size = size; nodes = s })
              (e ∙ sym (ap at (elsewhere c 1 (λ e. omega arith) (λ h. k_ne (sym h))))))
    ]

-- A turn of the loop, and the turns after it.
Sunk-lower :
    {n : ℕ} {at : ℕ → Option ℕ} {h : Heap} (c i t : ℕ)
    → 2 ≤ c
    → (now later : Outcome (Option Heap))
    → Sunk n
        (swap_places at c)
        (record { head = swap_places at c 1; size = h.size; nodes = promote_over t i h.nodes })
        later
    → now ≡ later
    → Sunk n at h now
Sunk-lower {n} {at} {h} c i t two now later next e = record {
  last = next.last;
  heap = next.heap;
  returns = e ∙ next.returns;
  places = next.places;
  ordered = subst (Ordered next.last) (promote_over-weight t i h.nodes) next.ordered;
  moved = Moved-trans (swap-Moved at c two) next.moved;
  same_weight = next.same_weight ∙ promote_over-weight t i h.nodes;
  head = next.head;
  size = next.size;
}

-- A child that HeapSmallest chooses.
record Chosen (at : ℕ → Option ℕ) (w : ℕ → ℕ) (t c i : ℕ) : Type 0 where
  at_c : at c ≡ some i
  lighter : w i < w t
  least : (m : ℕ) → m / 2 ≡ c / 2 → Below at w m c

choose :
    (at : ℕ → Option ℕ) (s : Nodes) (t k c d i : ℕ)
    → c / 2 ≡ k
    → ((m : ℕ) → m / 2 ≡ k → (m ≡ c) ⊎ (m ≡ d))
    → at c ≡ some i
    → weight_of (at c) s < s.weight t
    → weight_of (at c) s ≤ weight_of (at d) s
    → Chosen at s.weight t c i
choose at s t k c d i half only at_c light le = record {
  at_c = at_c;
  lighter = omega (arith, light, weight_at at s c i at_c);
  least = λ m e a b ha hb. elim (only m (e ∙ half)) [
    | inl m_c ↦ omega (arith, ap s.weight (at_unique at c (ap at (sym m_c) ∙ ha) hb))
    | inr m_d ↦ omega (arith, le, weight_at at s c b hb, weight_at at s d a (ap at (sym m_d) ∙ ha))
  ];
}

either_child : (k m : ℕ) → m / 2 ≡ k → (m ≡ 2 * k) ⊎ (m ≡ 2 * k + 1)
either_child k m h = elim (Bool-cases (m == 2 * k)) [
  | inl e ↦ inl (eqb→eq m (2 * k) e)
  | inr e ↦ inr (omega (arith, eqb→ne m (2 * k) e))
]

either_other : (k m : ℕ) → m / 2 ≡ k → (m ≡ 2 * k + 1) ⊎ (m ≡ 2 * k)
either_other k m h = elim (either_child k m h) [ inl e ↦ inr e | inr e ↦ inl e ]

-- No child is chosen, or one.
least_child :
    (at : ℕ → Option ℕ) (s : Nodes) (k t : ℕ)
    → Linked at s
    → at k ≡ some t
    → s.weight t < 2 ^ 64
    → (smallest (some t) (s.left t) (s.right t) s ≡ some t)
        × ((m : ℕ) → m / 2 ≡ k → Below at s.weight m k)
      ⊎ (c i : ℕ) × (c / 2 ≡ k)
        × (smallest (some t) (s.left t) (s.right t) s ≡ some i)
        × Chosen at s.weight t c i
least_child at s k t v at_k bound =
    rw (v.left k t at_k, v.right k t at_k)
      (elim (smallest_lem t (at (2 * k)) (at (2 * k + 1)) s) [
        | inl stop ↦ inl (
          stop.0,
          λ m half a b ha hb. elim (either_child k m half) [
            | inl e ↦ omega (
              arith,
              stop.1,
              weight_at at s (2 * k) a (ap at (sym e) ∙ ha),
              ap s.weight (at_unique at k hb at_k),
            )
            | inr e ↦ omega (
              arith,
              stop.2,
              weight_at at s (2 * k + 1) a (ap at (sym e) ∙ ha),
              ap s.weight (at_unique at k hb at_k),
            )
          ],
        )
        | inr down ↦ elim down [
          | inl l ↦
              let (i, here) = real (at (2 * k)) s (s.weight t) l.1 bound in
              inr (
                2 * k,
                i,
                omega arith,
                l.0 ∙ here,
                choose at s t k (2 * k) (2 * k + 1) i (omega arith) (either_child k) here l.1 l.2,
              )
          | inr r ↦
              let (i, here) = real (at (2 * k + 1)) s (s.weight t) r.1 bound in
              inr (
                2 * k + 1,
                i,
                omega arith,
                r.0 ∙ here,
                choose at s t k (2 * k + 1) (2 * k) i (omega arith) (either_other k) here r.1 r.2,
              )
        ]
      ])

finished_order :
    {at : ℕ → Option ℕ} {w : ℕ → ℕ} (k : ℕ)
    → OrderedAbove k at w
    → ((m : ℕ) → m / 2 ≡ k → Below at w m k)
    → Ordered at w
finished_order {at} {w} k v b m two = elim (Bool-cases (m / 2 == k)) [
  | inl e ↦ let half = eqb→eq (m / 2) k e in subst (λ n. Below at w m n) (sym half) (b m half)
  | inr e ↦ v.others m two (eqb→ne (m / 2) k e)
]

pub in_heap :
    {n : ℕ} {at : ℕ → Option ℕ} {s : Nodes} (m j : ℕ) → Places n at s → at m ≡ some j → m ≤ n
in_heap {n} m j v h = elim (Bool-cases (leb m n)) [
  | inl e ↦ ground arith
  | inr e ↦ absurd (none-ne-some (sym (v.beyond m (ground arith)) ∙ h))
]

-- With fuel for the places below it the loop of HeapPop comes to an end.
pub percolate_down_lem :
    (fuel n : ℕ) (at : ℕ → Option ℕ) (h : Heap) (k t : ℕ)
    → Places n at h.nodes
    → h.head ≡ at 1
    → OrderedAbove k at h.nodes.weight
    → ((j : ℕ) → h.nodes.weight j < 2 ^ 64)
    → at k ≡ some t
    → 1 ≤ k
    → n < fuel + k
    → Sunk n at h (percolate_down fuel t h)
unfolding percolate_down deref
percolate_down_lem zero n at h k t v head b bound at_k low f =
    absurd (omega (arith, in_heap k t v at_k))
percolate_down_lem (suc fuel) n at h k t v head b bound at_k low f =
    elim (least_child at h.nodes k t v.linked at_k (bound t)) [
      | inl stop ↦
          let same : points (some t) t ≡ true = unfold points in eqb_refl t in
          record {
            last = at;
            heap = h;
            returns = rw (stop.0, percolate_down) (rw same refl);
            places = v;
            ordered = finished_order k b stop.1;
            moved = Moved-refl at;
            same_weight = refl;
            head = head;
            size = refl;
          }
      | inr (c, i, half, is, down) ↦
          let two : 2 ≤ c = omega (arith, half) in
          let at_h : at (c / 2) ≡ some t = ap at half ∙ at_k in
          let high = in_heap c i v down.at_c in
          let new = swap-Places c i t v two high down.at_c at_h in
          let (passes, linked) = promote_lem at h.nodes c i t v.linked two down.at_c at_h in
          let apart : points (some i) t ≡ false =
            unfold points in eqb_of_ne i t (lighter_ne i t down.lighter) in
          Sunk-lower c i t two (percolate_down (suc fuel) t h) _
            (percolate_down_lem fuel n (swap_places at c)
              (record {
                head = swap_places at c 1;
                size = h.size;
                nodes = promote_over t i h.nodes;
              })
              c t new refl
              (subst (OrderedAbove c (swap_places at c)) (sym (promote_over-weight t i h.nodes)) (
                sink-OrderedAbove c i t two down.at_c at_h down.lighter
                  (subst (λ k. OrderedAbove k at h.nodes.weight) (sym half) b) down.least))
              (subst (λ (w : ℕ → ℕ). (j : ℕ) → w j < 2 ^ 64) (sym (promote_over-weight t i h.nodes))
                bound)
              (ap at (at_place c c refl) ∙ at_h) (omega arith) (omega (arith, half)))
            (rw (is, percolate_down)
              (rw (apart, is, passes)
                (ap (percolate_down fuel t)
                  (lower_head at c i h.head h.size new two high down.at_c head))))
    ]
  where
    lighter_ne : (i t : ℕ) → h.nodes.weight i < h.nodes.weight t → i ≢ t
    lighter_ne i t lt e = omega (arith, lt, ap h.nodes.weight e)
