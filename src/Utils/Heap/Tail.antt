-- ===== src/Utils/Heap/Tail.antt =====
-- HeapPop puts the last node in the place of the head.
use kernelpanic.Common.{
  ℕ, ◌+◌, ◌-◌, ◌*◌, ◌/◌, ◌≤◌, ◌<◌, ◌≡◌, refl, sym, ap, ap₂, ◌∙◌, subst, ◌≢◌, ◌⊎◌, inl, inr, true,
  false, not, ◌&&◌, Option, none, some, arith, ◌==◌, if◌then◌else◌, Bool-cases, eqb→eq, eqb→ne,
  eqb_of_ne, eqb_refl,
}
use kernelpanic.Common.Store.{update, update_self}
use kernelpanic.Utils.Heap.{Nodes, points, adopt, set_left, set_right, set_parent, detach, replace}
use kernelpanic.Utils.Heap.Places.{Linked, points_at, same_at}
use kernelpanic.Utils.Heap.Writes.{adopt-left, adopt-right, adopt-parent, adopt-weight}
use kernelpanic.Utils.Heap.Order.{Places, Ordered}
use kernelpanic.Utils.Heap.Sink.{OrderedAbove, in_heap}
use kernelpanic.Utils.Heap.Add.{none-ne-some, some-inj}

detach-left :
    (p t : ℕ) (s : Nodes) (j : ℕ)
    → (detach p t s).left j ≡ (if j == p && not (points (s.right p) t) then none else s.left j)
unfolding detach set_left set_right update
detach-left p t s j = elim (Bool-cases (points (s.right p) t)) [
  | inl h ↦ rw h (elim (Bool-cases (j == p)) [ inl e ↦ rw e refl | inr e ↦ rw e refl ])
  | inr h ↦ rw h (elim (Bool-cases (j == p)) [ inl e ↦ rw e refl | inr e ↦ rw e refl ])
]

detach-right :
    (p t : ℕ) (s : Nodes) (j : ℕ)
    → (detach p t s).right j ≡ (if j == p && points (s.right p) t then none else s.right j)
unfolding detach set_left set_right update
detach-right p t s j = elim (Bool-cases (points (s.right p) t)) [
  | inl h ↦ rw h (elim (Bool-cases (j == p)) [ inl e ↦ rw e refl | inr e ↦ rw e refl ])
  | inr h ↦ rw h (elim (Bool-cases (j == p)) [ inl e ↦ rw e refl | inr e ↦ rw e refl ])
]

detach-parent : (p t : ℕ) (s : Nodes) → (detach p t s).parent ≡ s.parent
unfolding detach set_left set_right
detach-parent p t s = elim (Bool-cases (points (s.right p) t)) [
  | inl h ↦ rw h refl
  | inr h ↦ rw h refl
]

pub detach-weight : (p t : ℕ) (s : Nodes) → (detach p t s).weight ≡ s.weight
unfolding detach set_left set_right
detach-weight p t s = elim (Bool-cases (points (s.right p) t)) [
  | inl h ↦ rw h refl
  | inr h ↦ rw h refl
]

module _ (r t : ℕ) (s : Nodes) where
  abbrev placed : Nodes
  placed = set_right t (s.right r) (set_left t (s.left r) (set_parent t none s))

  replace-left : (j : ℕ) → (replace r t s).left j ≡ (if j == t then s.left r else s.left j)
  unfolding replace
  replace-left j =
      ap (λ (f : ℕ → Option ℕ). f j)
        (adopt-left (placed.right t) t (adopt (placed.left t) t placed)
          ∙ adopt-left (placed.left t) t placed)
      ∙ (unfold set_left set_right set_parent update in refl)

  replace-right : (j : ℕ) → (replace r t s).right j ≡ (if j == t then s.right r else s.right j)
  unfolding replace
  replace-right j =
      ap (λ (f : ℕ → Option ℕ). f j)
        (adopt-right (placed.right t) t (adopt (placed.left t) t placed)
          ∙ adopt-right (placed.left t) t placed)
      ∙ (unfold set_left set_right set_parent update in refl)

  replace-parent :
      (j : ℕ)
      → (replace r t s).parent j ≡ (
          if points (s.right r) j
          then some t
          else if points (s.left r) j
          then some t
          else if j == t
          then none
          else s.parent j)
  unfolding replace set_left set_right set_parent
  replace-parent j =
      adopt-parent (placed.right t) t (adopt (placed.left t) t placed) j
      ∙ ap (λ x. if points (placed.right t) j then some t else x)
          (adopt-parent (placed.left t) t placed j)
      ∙ ap₂
          (λ a b.
            if points a j
            then some t
            else if points b j
            then some t
            else (if j == t then none else s.parent j))
          (update_self s.right t (s.right r)) (update_self s.left t (s.left r))

  pub replace-weight : (replace r t s).weight ≡ s.weight
  unfolding replace set_left set_right set_parent
  replace-weight =
      adopt-weight (placed.right t) t (adopt (placed.left t) t placed)
      ∙ adopt-weight (placed.left t) t placed

-- The array with the last node at the place of the first.
abbrev pub tail_first : (ℕ → Option ℕ) → ℕ → ℕ → ℕ → Option ℕ
tail_first at n t m = if m == n then none else if m == 1 then some t else at m

module _ {n : ℕ} {at : ℕ → Option ℕ} {s : Nodes} (r t p : ℕ) (v : Places n at s) (low : 2 ≤ n)
    (at_1 : at 1 ≡ some r) (at_n : at n ≡ some t) (at_q : at (n / 2) ≡ some p) where
  abbrev cut : ℕ → Option ℕ
  cut = tail_first at n t

  abbrev moved_up : Nodes
  moved_up = replace r t (detach p t s)

  pub cut_first : cut 1 ≡ some t
  cut_first = rw (eqb_of_ne 1 n (λ e. omega arith)) refl

  cut_last : (m : ℕ) → m ≡ n → cut m ≡ none
  cut_last m e = let b : (m == n) ≡ true = ground arith in rw b refl

  pub cut_other : (m : ℕ) → m ≢ n → m ≢ 1 → cut m ≡ at m
  cut_other m a b = rw (eqb_of_ne m n a, eqb_of_ne m 1 b) refl

  right_of_p : points (s.right p) t ≡ (2 * (n / 2) + 1 == n)
  right_of_p =
      points_at (2 * (n / 2) + 1) n t (s.right p) v.linked (sym (v.linked.right (n / 2) p at_q))
        at_n

  -- The links of a node after its parent forgot tail.
  cut_left : (m j : ℕ) → 1 ≤ m → at m ≡ some j → (detach p t s).left j ≡ cut (2 * m)
  cut_left m j a h =
      let b : (m == n / 2 && not (2 * (n / 2) + 1 == n)) ≡ (2 * m == n) = ground arith in
      let c : (2 * m == 1) ≡ false = ground arith in
      detach-left p t s j
      ∙ rw (same_at m (n / 2) j p v.linked h at_q, right_of_p, v.linked.left m j h, b, c) refl

  cut_right : (m j : ℕ) → 1 ≤ m → at m ≡ some j → (detach p t s).right j ≡ cut (2 * m + 1)
  cut_right m j a h =
      let b : (m == n / 2 && (2 * (n / 2) + 1 == n)) ≡ (2 * m + 1 == n) = ground arith in
      let c : (2 * m + 1 == 1) ≡ false = ground arith in
      detach-right p t s j
      ∙ rw (same_at m (n / 2) j p v.linked h at_q, right_of_p, v.linked.right m j h, b, c) refl

  points-cut : (x m j : ℕ) → 2 ≤ x → at m ≡ some j → points (cut x) j ≡ (x == m && not (x == n))
  points-cut x m j two h = elim (Bool-cases (x == n)) [
    | inl e ↦
        rw (cut_last x (eqb→eq x n e), e)
          (unfold points in (elim (Bool-cases (x == m)) [ inl f ↦ rw f refl | inr f ↦ rw f refl ]))
    | inr e ↦
        rw (cut_other x (eqb→ne x n e) (λ e. omega arith), e)
          (points_at x m j (at x) v.linked refl h
            ∙ (elim (Bool-cases (x == m)) [ inl f ↦ rw f refl | inr f ↦ rw f refl ]))
  ]

  -- A node of the new array: the tail at the first place, or one that stays.
  stands :
      (m j : ℕ)
      → cut m ≡ some j
      → (m ≡ 1) × (j ≡ t) ⊎ (m ≢ n) × (m ≢ 1) × (at m ≡ some j) × (1 ≤ m) × ((j == t) ≡ false)
  stands m j h = elim (Bool-cases (m == n)) [
    | inl e ↦ absurd (none-ne-some (sym (cut_last m (eqb→eq m n e)) ∙ h))
    | inr e ↦ elim (Bool-cases (m == 1)) [
      | inl f ↦ let m_1 = eqb→eq m 1 f in inl (m_1, some-inj (sym h ∙ ap cut m_1 ∙ cut_first))
      | inr f ↦
          let here : at m ≡ some j = sym (cut_other m (eqb→ne m n e) (eqb→ne m 1 f)) ∙ h in
          let not_zero = λ (z : m ≡ 0). none-ne-some (sym (ap at z ∙ v.linked.none_at) ∙ here) in
          inr (
            eqb→ne m n e,
            eqb→ne m 1 f,
            here,
            positive m not_zero,
            same_at m n j t v.linked here at_n ∙ e,
          )
    ]
  ]
    where
      positive : (m : ℕ) → m ≢ 0 → 1 ≤ m
      positive m h = omega (arith, h)

  cut-parent : (m j : ℕ) → cut m ≡ some j → moved_up.parent j ≡ cut (m / 2)
  cut-parent m j h =
      replace-parent r t (detach p t s) j
      ∙ rw
          (
            cut_right 1 r (omega arith) at_1,
            cut_left 1 r (omega arith) at_1,
            ap (λ (f : ℕ → Option ℕ). f j) (detach-parent p t s),
          )
          (elim (stands m j h) [
            | inl first ↦
                let no3 : (3 == n && not (3 == n)) ≡ false = ground arith in
                let no2 : (2 == n && not (2 == n)) ≡ false = ground arith in
                let zero : cut (m / 2) ≡ none =
                  ap (λ m. cut (m / 2)) first.0
                  ∙ cut_other 0 (λ e. omega arith) (λ e. omega arith)
                  ∙ v.linked.none_at in
                subst
                  (λ j.
                    (if points (cut 3) j
                      then some t
                      else if points (cut 2) j
                      then some t
                      else if j == t
                      then none
                      else s.parent j)
                    ≡ cut (m / 2))
                  (sym first.1)
                  (rw
                    (
                      points-cut 3 n t (omega arith) at_n,
                      points-cut 2 n t (omega arith) at_n,
                      no3,
                      no2,
                      eqb_refl t,
                      zero,
                    )
                    refl)
            | inr (not_n, not_1, here, pos, other) ↦
                let inside = in_heap m j v here in
                rw
                  (
                    points-cut 3 m j (omega arith) here,
                    points-cut 2 m j (omega arith) here,
                    other,
                    v.linked.parent m j here,
                  )
                  (below m not_n not_1 pos inside)
          ])
    where
      below :
          (m : ℕ)
          → m ≢ n
          → m ≢ 1
          → 1 ≤ m
          → m ≤ n
          → (if 3 == m && not (3 == n)
              then some t
              else if 2 == m && not (2 == n)
              then some t
              else at (m / 2))
            ≡ cut (m / 2)
      below m not_n not_1 pos inside =
          let last : (m / 2 == n) ≡ false = ground arith in
          rw last (elim (Bool-cases (m / 2 == 1)) [
            | inl e ↦ rw e (elim (Bool-cases (3 == m && not (3 == n))) [
              | inl f ↦ rw f refl
              | inr f ↦ let g : (2 == m && not (2 == n)) ≡ true = ground arith in rw (f, g) refl
            ])
            | inr e ↦
                let f : (3 == m && not (3 == n)) ≡ false = ground arith in
                let g : (2 == m && not (2 == n)) ≡ false = ground arith in rw (e, f, g) refl
          ])

  cut-once : (m m' j : ℕ) → cut m ≡ some j → cut m' ≡ some j → m ≡ m'
  cut-once m m' j h h' = elim (stands m j h) [
    | inl first ↦ elim (stands m' j h') [
      | inl also ↦ first.0 ∙ sym also.0
      | inr rest ↦ absurd (rest.0 (v.linked.once m' n j rest.2 (at_n ∙ ap some (sym first.1))))
    ]
    | inr rest ↦ elim (stands m' j h') [
      | inl first ↦ absurd (rest.0 (v.linked.once m n j rest.2 (at_n ∙ ap some (sym first.1))))
      | inr also ↦ v.linked.once m m' j rest.2 also.2
    ]
  ]

  cut-Linked : Linked cut moved_up
  cut-Linked = record {
    none_at = cut_other 0 (λ e. omega arith) (λ e. omega arith) ∙ v.linked.none_at;
    once = cut-once;
    left = λ m j h. replace-left r t (detach p t s) j ∙ elim (stands m j h) [
      | inl first ↦
          let same : (j == t) ≡ true = ap (λ x. x == t) first.1 ∙ eqb_refl t in
          rw same (cut_left 1 r (omega arith) at_1 ∙ ap (λ m. cut (2 * m)) (sym first.0))
      | inr (not_n, not_1, here, pos, other) ↦ rw other (cut_left m j pos here)
    ];
    right = λ m j h. replace-right r t (detach p t s) j ∙ elim (stands m j h) [
      | inl first ↦
          let same : (j == t) ≡ true = ap (λ x. x == t) first.1 ∙ eqb_refl t in
          rw same (cut_right 1 r (omega arith) at_1 ∙ ap (λ m. cut (2 * m + 1)) (sym first.0))
      | inr (not_n, not_1, here, pos, other) ↦ rw other (cut_right m j pos here)
    ];
    parent = cut-parent;
  }

  pub cut-Places : Places (n - 1) cut moved_up
  cut-Places = record {
    linked = cut-Linked;
    filled = λ m a b. elim (Bool-cases (m == 1)) [
      | inl e ↦ (t, ap cut (eqb→eq m 1 e) ∙ cut_first)
      | inr e ↦
          let (j, h) = v.filled m a (omega arith) in
          (j, cut_other m (λ e. omega arith) (eqb→ne m 1 e) ∙ h)
    ];
    beyond = λ m b. elim (Bool-cases (m == n)) [
      | inl e ↦ cut_last m (eqb→eq m n e)
      | inr e ↦
          let far : n < m = omega (arith, eqb→ne m n e) in
          cut_other m (eqb→ne m n e) (λ e. omega arith) ∙ v.beyond m far
    ];
  }

  pub cut-OrderedAbove : (w : ℕ → ℕ) → Ordered at w → OrderedAbove 1 cut w
  cut-OrderedAbove w o = record {
    others = λ m two ne a b ha hb. elim (stands m a ha) [
      | inl first ↦ absurd (omega (arith, first.0))
      | inr rest ↦
          let inside = in_heap m a v rest.2 in
          o m two a b rest.2 (sym (cut_other (m / 2) (λ e. omega arith) ne) ∙ hb)
    ];
    across = λ m two half. absurd (omega arith);
  }

  pub cut_kept : (m j : ℕ) → at m ≡ some j → (j ≡ r) ⊎ ((x : ℕ) × (cut x ≡ some j))
  cut_kept m j h = elim (Bool-cases (m == 1)) [
    | inl e ↦ inl (some-inj (sym h ∙ ap at (eqb→eq m 1 e) ∙ at_1))
    | inr e ↦ elim (Bool-cases (m == n)) [
      | inl f ↦ inr (1, cut_first ∙ sym at_n ∙ ap at (sym (eqb→eq m n f)) ∙ h)
      | inr f ↦ inr (m, cut_other m (eqb→ne m n f) (eqb→ne m 1 e) ∙ h)
    ]
  ]

  pub cut_no_more : (m j : ℕ) → cut m ≡ some j → (j ≢ r) × ((x : ℕ) × (at x ≡ some j))
  cut_no_more m j h = elim (stands m j h) [
    | inl first ↦ (
      (λ e. absurd (omega (arith, v.linked.once n 1 r (at_n ∙ ap some (sym first.1 ∙ e)) at_1))),
      (n, at_n ∙ ap some (sym first.1)),
    )
    | inr (not_n, not_1, here, pos, other) ↦
        ((λ e. not_1 (v.linked.once m 1 r (here ∙ ap some e) at_1)), (m, here))
  ]
