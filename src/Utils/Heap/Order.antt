-- ===== src/Utils/Heap/Order.antt =====
-- The order of a heap, and the loop of HeapAdd.
use kernelpanic.Common.{
  ℕ, zero, suc, ◌/◌, ◌≤◌, ◌<◌, ◌≡◌, refl, sym, ap, ◌∙◌, subst, ◌≢◌, ◌⊎◌, inl, inr, false, Option,
  none, some, arith, ltb, ◌==◌, Bool-cases, ltb→lt, eqb→eq, eqb→ne,
}
use kernelpanic.Common.Outcome.{Outcome, ok}
use kernelpanic.Utils.Heap.{Nodes, promote_over, percolate_up}
use kernelpanic.Utils.Heap.Places.{Linked, swap_place, swap_places, promote_lem}
use kernelpanic.Utils.Heap.Find.{Filled}
use kernelpanic.Utils.Heap.Writes.{promote_over-weight}

-- The node at place n, if any, is no heavier than the one at place m.
abbrev pub Below : (ℕ → Option ℕ) → (ℕ → ℕ) → ℕ → ℕ → Type 0
Below at w m n = (i p : ℕ) → at m ≡ some i → at n ≡ some p → w p ≤ w i

-- No node weighs less than its parent.
abbrev pub Ordered : (ℕ → Option ℕ) → (ℕ → ℕ) → Type 0
Ordered at w = (m : ℕ) → 2 ≤ m → Below at w m (m / 2)

-- The order with the exception of the node at place k, whose children are no lighter than its parent.
pub record OrderedBut (k : ℕ) (at : ℕ → Option ℕ) (w : ℕ → ℕ) : Type 0 where
  pub others : (m : ℕ) → 2 ≤ m → m ≢ k → Below at w m (m / 2)
  pub across : (m : ℕ) → 4 ≤ m → m / 2 ≡ k → Below at w m (k / 2)

-- The same nodes, at other places.
pub record Moved (at at' : ℕ → Option ℕ) : Type 0 where
  pub kept : (m j : ℕ) → at m ≡ some j → (n : ℕ) × (at' n ≡ some j)
  pub no_more : (m j : ℕ) → at' m ≡ some j → (n : ℕ) × (at n ≡ some j)

-- The places of a heap of n nodes.
pub record Places (n : ℕ) (at : ℕ → Option ℕ) (s : Nodes) : Type 0 where
  pub linked : Linked at s
  pub filled : Filled at n
  pub beyond : (m : ℕ) → n < m → at m ≡ none

pub Moved-refl : (at : ℕ → Option ℕ) → Moved at at
Moved-refl at = record { kept = λ m j h. (m, h); no_more = λ m j h. (m, h) }

pub Moved-trans : {a b c : ℕ → Option ℕ} → Moved a b → Moved b c → Moved a c
Moved-trans v w = record {
  kept = λ m j h. let (n, e) = v.kept m j h in w.kept n j e;
  no_more = λ m j h. let (n, e) = w.no_more m j h in v.no_more n j e;
}

swap-swap : (k m : ℕ) → 2 ≤ k → swap_place k (swap_place k m) ≡ m
unfolding swap_place
swap-swap k m h = ground arith

pub swap-Moved : (at : ℕ → Option ℕ) (k : ℕ) → 2 ≤ k → Moved at (swap_places at k)
swap-Moved at k h = record {
  kept = λ m j e. (swap_place k m, ap at (swap-swap k m h) ∙ e);
  no_more = λ m j e. (swap_place k m, e);
}

swap_within :
    (k m n : ℕ) → 2 ≤ k → k ≤ n → 1 ≤ m → m ≤ n → (1 ≤ swap_place k m) × (swap_place k m ≤ n)
unfolding swap_place
swap_within k m n a b c d = (ground arith, ground arith)

swap_beyond : (k m n : ℕ) → 2 ≤ k → k ≤ n → n < m → swap_place k m ≡ m
unfolding swap_place
swap_beyond k m n a b c = ground arith

pub swap-Places :
    {n : ℕ} {at : ℕ → Option ℕ} {s : Nodes} (k i p : ℕ)
    → Places n at s
    → 2 ≤ k
    → k ≤ n
    → at k ≡ some i
    → at (k / 2) ≡ some p
    → Places n (swap_places at k) (promote_over p i s)
swap-Places {n} {at} {s} k i p v low high at_k at_q = record {
  linked = (promote_lem at s k i p v.linked low at_k at_q).1;
  filled = λ m a b. let w = swap_within k m n low high a b in v.filled (swap_place k m) w.0 w.1;
  beyond = λ m b. ap at (swap_beyond k m n low high b) ∙ v.beyond m b;
}

pub at_unique : (at : ℕ → Option ℕ) (m : ℕ) {i j : ℕ} → at m ≡ some i → at m ≡ some j → i ≡ j
at_unique at m a b = some-inj (sym a ∙ b)
  where
    some-inj : {i j : ℕ} → some i ≡ some j → i ≡ j
    some-inj h = cc

pub Below-trans :
    (at : ℕ → Option ℕ) (w : ℕ → ℕ) (a b c j : ℕ)
    → at b ≡ some j
    → Below at w a b
    → Below at w b c
    → Below at w a c
Below-trans at w a b c j h x y i p hi hp = omega (arith, x i j hi h, y j p h hp)

pub moved_to :
    (at : ℕ → Option ℕ) (w : ℕ → ℕ) {m n : ℕ} (x y : ℕ)
    → m ≡ x
    → n ≡ y
    → Below at w x y
    → Below at w m n
moved_to at w {m} {n} x y e f b =
    subst (λ m. Below at w m n) (sym e) (subst (λ n. Below at w x n) (sym f) b)

pub at_place : (k m : ℕ) → m ≡ k → swap_place k m ≡ k / 2
unfolding swap_place
at_place k m e = ground arith

pub at_parent : (k m : ℕ) → 2 ≤ k → m ≡ k / 2 → swap_place k m ≡ k
unfolding swap_place
at_parent k m h e = ground arith

pub elsewhere : (k m : ℕ) → m ≢ k → m ≢ k / 2 → swap_place k m ≡ m
unfolding swap_place
elsewhere k m a b = ground arith

module _ {at : ℕ → Option ℕ} {w : ℕ → ℕ} (k i p : ℕ) (low : 2 ≤ k) (at_k : at k ≡ some i)
    (at_q : at (k / 2) ≡ some p) (lighter : w i < w p) (v : OrderedBut k at w) where
  above_it : Below at w (k / 2) k
  above_it a b ha hb =
      omega (arith, ap w (at_unique at (k / 2) ha at_q), ap w (at_unique at k hb at_k), lighter)

  swap-others : (m : ℕ) → 2 ≤ m → m ≢ k / 2 → Below (swap_places at k) w m (m / 2)
  swap-others m h ne = elim (Bool-cases (m == k)) [
    | inl e ↦
        let m_k = eqb→eq m k e in
        moved_to at w (k / 2) k (at_place k m m_k) (at_parent k (m / 2) low (ap (λ m. m / 2) m_k))
          above_it
    | inr e ↦
        let not_k = eqb→ne m k e in
        let stays = elsewhere k m not_k ne in
        elim (Bool-cases (m / 2 == k)) [
          | inl f ↦
              let half = eqb→eq (m / 2) k f in
              moved_to at w m (k / 2) stays (at_place k (m / 2) half)
                (v.across m (omega arith) half)
          | inr f ↦ elim (Bool-cases (m / 2 == k / 2)) [
            | inl g ↦
                let half = eqb→eq (m / 2) (k / 2) g in
                moved_to at w m k stays (at_parent k (m / 2) low half) (
                  Below-trans at w m (k / 2) k p at_q
                    (subst (λ n. Below at w m n) half (v.others m h not_k)) above_it)
            | inr g ↦
                moved_to at w m (m / 2) stays
                  (elsewhere k (m / 2) (eqb→ne (m / 2) k f) (eqb→ne (m / 2) (k / 2) g))
                  (v.others m h not_k)
          ]
        ]
  ]

  swap-across : (m : ℕ) → 4 ≤ m → m / 2 ≡ k / 2 → Below (swap_places at k) w m (k / 2 / 2)
  swap-across m h half =
      let grand = elsewhere k (k / 2 / 2) (λ e. omega arith) (λ e. omega arith) in
      let upper : Below at w (k / 2) (k / 2 / 2) =
        v.others (k / 2) (omega arith) (λ e. omega arith) in
      elim (Bool-cases (m == k)) [
        | inl e ↦ moved_to at w (k / 2) (k / 2 / 2) (at_place k m (eqb→eq m k e)) grand upper
        | inr e ↦
            let not_k = eqb→ne m k e in
            moved_to at w m (k / 2 / 2) (elsewhere k m not_k (λ e. omega arith)) grand (
              Below-trans at w m (k / 2) (k / 2 / 2) p at_q
                (subst (λ n. Below at w m n) half (v.others m (omega arith) not_k)) upper)
      ]

  swap-OrderedBut : OrderedBut (k / 2) (swap_places at k) w
  swap-OrderedBut = record { others = swap-others; across = swap-across }

-- What the loop of HeapAdd leaves.
pub record Settled (i n : ℕ) (at : ℕ → Option ℕ) (s : Nodes) (done : Outcome (Option Nodes))
    : Type 0 where
  pub last : ℕ → Option ℕ
  pub nodes : Nodes
  pub returns : done ≡ ok (some nodes)
  pub places : Places n last nodes
  pub ordered : Ordered last s.weight
  pub moved : Moved at last
  pub same_weight : nodes.weight ≡ s.weight
  pub first : (last 1 ≡ at 1) ⊎ (last 1 ≡ some i)

complete :
    {at : ℕ → Option ℕ} {w : ℕ → ℕ} (k : ℕ)
    → OrderedBut k at w
    → (2 ≤ k → Below at w k (k / 2))
    → Ordered at w
complete {at} {w} k v b m h = elim (Bool-cases (m == k)) [
  | inl e ↦ let m_k = eqb→eq m k e in subst (λ m. Below at w m (m / 2)) (sym m_k) (b (omega arith))
  | inr e ↦ v.others m h (eqb→ne m k e)
]

pub not_below : (a b : ℕ) → ltb a b ≡ false → b ≤ a
not_below a b h = ground arith

-- A turn of the loop, and the turns after it.
Settled-raise :
    {n : ℕ} {at : ℕ → Option ℕ} {s : Nodes} (k i p : ℕ)
    → Places n at s
    → 2 ≤ k
    → at k ≡ some i
    → at (k / 2) ≡ some p
    → (now later : Outcome (Option Nodes))
    → Settled i n (swap_places at k) (promote_over p i s) later
    → now ≡ later
    → Settled i n at s now
Settled-raise {n} {at} {s} k i p v two at_k at_q now later next e = record {
  last = next.last;
  nodes = next.nodes;
  returns = e ∙ next.returns;
  places = next.places;
  ordered = subst (Ordered next.last) (promote_over-weight p i s) next.ordered;
  moved = Moved-trans (swap-Moved at k two) next.moved;
  same_weight = next.same_weight ∙ promote_over-weight p i s;
  first = elim next.first [
    | inr here ↦ inr here
    | inl kept ↦ elim (Bool-cases (k / 2 == 1)) [
      | inl e ↦ inr (kept ∙ ap at (at_parent k 1 two (sym (eqb→eq (k / 2) 1 e))) ∙ at_k)
      | inr e ↦
          inl (kept ∙ ap at (elsewhere k 1 (λ e. omega arith) (λ h. eqb→ne (k / 2) 1 e (sym h))))
    ]
  ];
}

-- With as much fuel as its place the loop of HeapAdd settles.
pub percolate_up_lem :
    (fuel n : ℕ) (at : ℕ → Option ℕ) (s : Nodes) (k i : ℕ)
    → Places n at s
    → OrderedBut k at s.weight
    → at k ≡ some i
    → 1 ≤ k
    → k ≤ n
    → k ≤ fuel
    → Settled i n at s (percolate_up fuel i s)
unfolding percolate_up
percolate_up_lem zero n at s k i v b at_k low high f = absurd (omega arith)
percolate_up_lem (suc fuel) n at s k i v b at_k low high f = elim (Bool-cases (k == 1)) [
  | inl e ↦
      let top : s.parent i ≡ none =
        v.linked.parent k i at_k ∙ ap at (omega (arith, eqb→eq k 1 e)) ∙ v.linked.none_at in
      record {
        last = at;
        nodes = s;
        returns = rw (top, percolate_up) refl;
        places = v;
        ordered = complete k b (λ two. absurd (omega (arith, eqb→eq k 1 e)));
        moved = Moved-refl at;
        same_weight = refl;
        first = inl refl;
      }
  | inr e ↦
      let two : 2 ≤ k = omega (arith, eqb→ne k 1 e) in
      let (p, at_q) = v.filled (k / 2) (omega arith) (omega arith) in
      let up : s.parent i ≡ some p = v.linked.parent k i at_k ∙ at_q in
      elim (Bool-cases (ltb (s.weight i) (s.weight p))) [
        | inl light ↦
            let (passes, linked) = promote_lem at s k i p v.linked two at_k at_q in
            Settled-raise k i p v two at_k at_q (percolate_up (suc fuel) i s)
              (percolate_up fuel i (promote_over p i s))
              (percolate_up_lem fuel n (swap_places at k) (promote_over p i s) (k / 2) i
                (swap-Places k i p v two high at_k at_q)
                (subst (OrderedBut (k / 2) (swap_places at k)) (sym (promote_over-weight p i s))
                  (swap-OrderedBut k i p two at_k at_q (ltb→lt (s.weight i) (s.weight p) light) b))
                (ap at (at_parent k (k / 2) two refl) ∙ at_k) (omega arith) (omega arith)
                (omega arith))
              (rw (up, percolate_up) (rw (light, passes) refl))
        | inr heavy ↦ record {
          last = at;
          nodes = s;
          returns = rw (up, percolate_up) (rw heavy refl);
          places = v;
          ordered = complete k b (λ two i' p' hi hp. omega (
            arith,
            ap s.weight (at_unique at k hi at_k),
            ap s.weight (at_unique at (k / 2) hp at_q),
            not_below (s.weight i) (s.weight p) heavy,
          ));
          moved = Moved-refl at;
          same_weight = refl;
          first = inl refl;
        }
      ]
]
