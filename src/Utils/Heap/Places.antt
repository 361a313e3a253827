-- ===== src/Utils/Heap/Places.antt =====
-- A heap as an array of nodes: the head has place 1, and the children of place m have places 2 * m
-- and 2 * m + 1. HeapPromote exchanges a node with its parent.
use kernelpanic.Common.{
  ℕ, ◌+◌, ◌*◌, ◌/◌, ◌≤◌, ◌≡◌, refl, sym, ap, ◌∙◌, ◌≢◌, inl, inr, Bool, true, false, not, ◌&&◌,
  Option, none, some, arith, ◌==◌, if◌then◌else◌, Bool-cases, eqb→eq, eqb→ne, eqb_of_ne, eqb_refl,
}
use kernelpanic.Common.Outcome.{ok}
use kernelpanic.Utils.Heap.{Nodes, points, sibling_of, promote, promote_over, deref}
use kernelpanic.Utils.Heap.Writes.{promote_over-parent, promote_over-left, promote_over-right}

-- The links of the nodes are those of an array, in which no node stands twice.
pub record Linked (at : ℕ → Option ℕ) (s : Nodes) : Type 0 where
  pub none_at : at 0 ≡ none
  pub once : (m n j : ℕ) → at m ≡ some j → at n ≡ some j → m ≡ n
  pub left : (m j : ℕ) → at m ≡ some j → s.left j ≡ at (2 * m)
  pub right : (m j : ℕ) → at m ≡ some j → s.right j ≡ at (2 * m + 1)
  pub parent : (m j : ℕ) → at m ≡ some j → s.parent j ≡ at (m / 2)

-- The exchange of the places k and k / 2.
unfoldable pub swap_place : ℕ → ℕ → ℕ
swap_place k m = if m == k then k / 2 else if m == k / 2 then k else m

abbrev pub swap_places : (ℕ → Option ℕ) → ℕ → ℕ → Option ℕ
swap_places at k m = at (swap_place k m)

zero_place : (k : ℕ) → 2 ≤ k → swap_place k 0 ≡ 0
unfolding swap_place
zero_place k h = ground arith

swap_place-inj : (k m n : ℕ) → 2 ≤ k → swap_place k m ≡ swap_place k n → m ≡ n
unfolding swap_place
swap_place-inj k m n h e = ground arith

pull_child :
    (at : ℕ → Option ℕ) (a b c d : Bool) (x1 x2 x3 x4 x5 : ℕ)
    → (if a then at x1 else if b then (if c then at x2 else at x3) else if d then at x4 else at x5)
      ≡ at (if a then x1 else if b then (if c then x2 else x3) else if d then x4 else x5)
pull_child at true b c d x1 x2 x3 x4 x5 = refl
pull_child at false true true d x1 x2 x3 x4 x5 = refl
pull_child at false true false d x1 x2 x3 x4 x5 = refl
pull_child at false false c true x1 x2 x3 x4 x5 = refl
pull_child at false false c false x1 x2 x3 x4 x5 = refl

pull_parent :
    (at : ℕ → Option ℕ) (a b c d e : Bool) (x1 x2 x3 x4 x5 x6 : ℕ)
    → (if a
        then at x1
        else if b
        then at x2
        else if c
        then at x3
        else if d
        then at x4
        else if e
        then at x5
        else at x6)
      ≡ at (
          if a
          then x1
          else if b
          then x2
          else if c
          then x3
          else if d
          then x4
          else if e
          then x5
          else x6)
pull_parent at true b c d e x1 x2 x3 x4 x5 x6 = refl
pull_parent at false true c d e x1 x2 x3 x4 x5 x6 = refl
pull_parent at false false true d e x1 x2 x3 x4 x5 x6 = refl
pull_parent at false false false true e x1 x2 x3 x4 x5 x6 = refl
pull_parent at false false false false true x1 x2 x3 x4 x5 x6 = refl
pull_parent at false false false false false x1 x2 x3 x4 x5 x6 = refl

-- The place of the other child of k / 2.
abbrev sibling_place : ℕ → ℕ
sibling_place k = if 2 * (k / 2) == k then 2 * (k / 2) + 1 else 2 * (k / 2)

left_place :
    (k n m : ℕ)
    → 2 ≤ k
    → n ≡ swap_place k m
    → (if n == k / 2
        then 2 * k
        else if n == k
        then (if 2 * (k / 2) == k then k / 2 else sibling_place k)
        else if k / 2 / 2 == n && 2 * n == k / 2
        then k
        else 2 * n)
      ≡ swap_place k (2 * m)
unfolding swap_place
left_place k n m h e = ground arith

right_place :
    (k n m : ℕ)
    → 2 ≤ k
    → n ≡ swap_place k m
    → (if n == k / 2
        then 2 * k + 1
        else if n == k
        then (if 2 * (k / 2) == k then sibling_place k else k / 2)
        else if k / 2 / 2 == n && not (2 * n == k / 2)
        then k
        else 2 * n + 1)
      ≡ swap_place k (2 * m + 1)
unfolding swap_place
right_place k n m h e = ground arith

parent_place :
    (k n m : ℕ)
    → 2 ≤ k
    → n ≡ swap_place k m
    → (if 2 * k + 1 == n
        then k / 2
        else if 2 * k == n
        then k / 2
        else if (sibling_place k) == n
        then k
        else if n == k / 2
        then k
        else if n == k
        then k / 2 / 2
        else n / 2)
      ≡ swap_place k (m / 2)
unfolding swap_place
parent_place k n m h e = ground arith

none-ne-some : {j : ℕ} → none ≢ some j
none-ne-some h = cc

some-inj : {i j : ℕ} → some i ≡ some j → i ≡ j
some-inj h = cc

pub points_at :
    {at : ℕ → Option ℕ} {s : Nodes} (m n j : ℕ) (o : Option ℕ)
    → Linked at s
    → at m ≡ o
    → at n ≡ some j
    → points o j ≡ (m == n)
unfolding points
points_at {at} m n j none v e h =
    sym (eqb_of_ne m n (λ same. none-ne-some (sym e ∙ ap at same ∙ h)))
points_at {at} m n j (some i) v e h = elim (Bool-cases (i == j)) [
  | inl same ↦
      same ∙ sym (ap (λ x. x == n) (v.once m n j (e ∙ ap some (eqb→eq i j same)) h) ∙ eqb_refl n)
  | inr ne ↦ ne ∙ sym (eqb_of_ne m n (λ same. eqb→ne i j ne (some-inj (sym e ∙ ap at same ∙ h))))
]

pub same_at :
    {at : ℕ → Option ℕ} {s : Nodes} (m n i j : ℕ)
    → Linked at s
    → at m ≡ some i
    → at n ≡ some j
    → (i == j) ≡ (m == n)
same_at m n i j v e h = unfold points in points_at m n j (some i) v e h

module _ {at : ℕ → Option ℕ} {s : Nodes} (k i p : ℕ) (v : Linked at s) (above : 2 ≤ k)
    (at_k : at k ≡ some i) (at_q : at (k / 2) ≡ some p) where
  left_side : points (s.left p) i ≡ (2 * (k / 2) == k)
  left_side = points_at (2 * (k / 2)) k i (s.left p) v (sym (v.left (k / 2) p at_q)) at_k

  sibling_at : sibling_of p i s ≡ at (sibling_place k)
  unfolding sibling_of
  sibling_at =
      rw (left_side, v.left (k / 2) p at_q, v.right (k / 2) p at_q)
        (elim (Bool-cases (2 * (k / 2) == k)) [ inl e ↦ rw e refl | inr e ↦ rw e refl ])

  not_own_parent : points (s.parent p) p ≡ false
  not_own_parent =
      points_at (k / 2 / 2) (k / 2) p (s.parent p) v (sym (v.parent (k / 2) p at_q)) at_q
      ∙ eqb_of_ne (k / 2 / 2) (k / 2) (λ e. omega arith)

  -- The fields of the node that comes to place m, from place n.
  module _ (n m j : ℕ) (e : n ≡ swap_place k m) (h : at n ≡ some j) where
    is_p : (j == p) ≡ (n == k / 2)
    is_p = same_at n (k / 2) j p v h at_q

    is_i : (j == i) ≡ (n == k)
    is_i = same_at n k j i v h at_k

    is_grand_parent : points (s.parent p) j ≡ (k / 2 / 2 == n)
    is_grand_parent = points_at (k / 2 / 2) n j (s.parent p) v (sym (v.parent (k / 2) p at_q)) h

    is_left_parent : points (s.left j) p ≡ (2 * n == k / 2)
    is_left_parent = points_at (2 * n) (k / 2) p (s.left j) v (sym (v.left n j h)) at_q

    new_left : (promote_over p i s).left j ≡ at (swap_place k (2 * m))
    new_left =
        promote_over-left p i s not_own_parent j
        ∙ rw
            (
              is_p,
              is_i,
              left_side,
              sibling_at,
              is_grand_parent,
              is_left_parent,
              v.left n j h,
              v.left k i at_k,
              sym at_k,
              sym at_q,
            )
            (pull_child at (n == k / 2) (n == k) (2 * (k / 2) == k)
              (k / 2 / 2 == n && 2 * n == k / 2) (2 * k) (k / 2) (sibling_place k) k (2 * n))
        ∙ ap at (left_place k n m above e)

    new_right : (promote_over p i s).right j ≡ at (swap_place k (2 * m + 1))
    new_right =
        promote_over-right p i s not_own_parent j
        ∙ rw
            (
              is_p,
              is_i,
              left_side,
              sibling_at,
              is_grand_parent,
              is_left_parent,
              v.right n j h,
              v.right k i at_k,
              sym at_k,
              sym at_q,
            )
            (pull_child at (n == k / 2) (n == k) (2 * (k / 2) == k)
              (k / 2 / 2 == n && not (2 * n == k / 2)) (2 * k + 1) (sibling_place k) (k / 2) k
              (2 * n + 1))
        ∙ ap at (right_place k n m above e)

    new_parent : (promote_over p i s).parent j ≡ at (swap_place k (m / 2))
    new_parent =
        promote_over-parent p i s j
        ∙ rw
            (
              points_at (2 * k + 1) n j (s.right i) v (sym (v.right k i at_k)) h,
              points_at (2 * k) n j (s.left i) v (sym (v.left k i at_k)) h,
              points_at (sibling_place k) n j (sibling_of p i s) v (sym sibling_at) h,
              is_p,
              is_i,
              v.parent (k / 2) p at_q,
              v.parent n j h,
              sym at_k,
              sym at_q,
            )
            (pull_parent at (2 * k + 1 == n) (2 * k == n) (sibling_place k == n) (n == k / 2)
              (n == k) (k / 2) (k / 2) k k (k / 2 / 2) (n / 2))
        ∙ ap at (parent_place k n m above e)

-- On links that are those of an array, HeapPromote of the node at a place k of at least 2 passes
-- its check, and makes them those of the array with the places k and k / 2 exchanged.
pub promote_lem :
    (at : ℕ → Option ℕ) (s : Nodes) (k i p : ℕ)
    → Linked at s
    → 2 ≤ k
    → at k ≡ some i
    → at (k / 2) ≡ some p
    → (promote i s ≡ ok (promote_over p i s)) × Linked (swap_places at k) (promote_over p i s)
unfolding promote deref
promote_lem at s k i p v above at_k at_q = (
  rw (v.parent k i at_k, at_q) refl,
  record {
    none_at = ap at (zero_place k above) ∙ v.none_at;
    once = λ m n j hm hn.
        swap_place-inj k m n above (v.once (swap_place k m) (swap_place k n) j hm hn);
    left = λ m j h. new_left k i p v above at_k at_q (swap_place k m) m j refl h;
    right = λ m j h. new_right k i p v above at_k at_q (swap_place k m) m j refl h;
    parent = λ m j h. new_parent k i p v above at_k at_q (swap_place k m) m j refl h;
  },
)
