-- ===== src/Utils/LinkedList/Circle.antt =====
-- Chains of links, and what the writes of LinkedListInsert and LinkedListRemove make of them.
use kernelpanic.Common.{
  ℕ, ◌≡◌, sym, ap, ◌∙◌, subst, ◌≢◌, Option, none, some, List, [], ◌∷◌, ◌++◌, All, Distinct,
}
use kernelpanic.Utils.LinkedList.{Links}

-- `a` is followed by `b`, in both directions.
abbrev pub Linked : Links → ℕ → ℕ → Type 0
Linked s a b = (s.next a ≡ b) × (s.prev b ≡ a)

-- From `a` on stand the links of `q`, and then `z`.
abbrev pub Chain : Links → ℕ → List ℕ → ℕ → Type 0
Chain s a [] z = Linked s a z
Chain s a (b ∷ q) z = Linked s a b × Chain s b q z

-- The link before `z` is one of the chain's.
pub Chain-last :
    (P : ℕ → Type 0) (s : Links) (a : ℕ) (q : List ℕ) (z : ℕ)
    → Chain s a q z
    → All P (a ∷ q)
    → P (s.prev z)
Chain-last P s a [] z c h = subst P (sym c.1) h.0
Chain-last P s a (b ∷ q) z c h = Chain-last P s b q z c.1 h.1

-- Other links change: the chain still ends where its last link points.
pub Chain-retarget :
    (s s' : Links) (a : ℕ) (q : List ℕ) (z w : ℕ)
    → Chain s a q z
    → Distinct (a ∷ q)
    → Linked s' (s.prev z) w
    → All (λ x. x ≢ s.prev z → s'.next x ≡ s.next x) (a ∷ q)
    → All (λ x. s'.prev x ≡ s.prev x) q
    → Chain s' a q w
Chain-retarget s s' a [] z w c d l n p = ((ap s'.next (sym c.1) ∙ l.0), (l.1 ∙ c.1))
Chain-retarget s s' a (b ∷ q) z w c d l n p =
    let other : s.prev z ≢ a = Chain-last (λ x. x ≢ a) s b q z c.1 d.0 in
    ((n.0 (λ e. other (sym e)) ∙ c.0.0, p.0 ∙ c.0.1), Chain-retarget s s' b q z w c.1 d.1 l n.1 p.1)

pub Chain-snoc :
    (s : Links) (a : ℕ) (q : List ℕ) (b z : ℕ)
    → Chain s a q b
    → Linked s b z
    → Chain s a (q ++ b ∷ []) z
Chain-snoc s a [] b z c l = (c, l)
Chain-snoc s a (x ∷ q) b z c l = (c.0, Chain-snoc s x q b z c.1 l)

-- The list with this head holds the links of `q`, in a circle.
abbrev pub Holds : Links → Option ℕ → List ℕ → Type 0
Holds s head [] = head ≡ none
Holds s head (c ∷ q) = (head ≡ some c) × Distinct (c ∷ q) × Chain s c q c

-- Only the links of `q` are written.
abbrev pub Keeps : List ℕ → Links → Links → Type 0
Keeps q s s' = (x : ℕ) → All (λ y. y ≢ x) q → (s'.next x ≡ s.next x) × (s'.prev x ≡ s.prev x)

Chain-keep :
    (s s' : Links) (a : ℕ) (q : List ℕ) (z : ℕ) (w : List ℕ)
    → Keeps w s s'
    → All (λ x. All (λ y. y ≢ x) w) (a ∷ q)
    → All (λ y. y ≢ z) w
    → Chain s a q z
    → Chain s' a q z
Chain-keep s s' a [] z w k h hz c = ((k a h.0).0 ∙ c.0, (k z hz).1 ∙ c.1)
Chain-keep s s' a (b ∷ q) z w k h hz c =
    (((k a h.0).0 ∙ c.0.0, (k b h.1.0).1 ∙ c.0.1), Chain-keep s s' b q z w k h.1 hz c.1)

-- A list that shares no link with those written stays as it is.
pub Holds-keep :
    (s s' : Links) (head : Option ℕ) (q w : List ℕ)
    → Keeps w s s'
    → All (λ x. All (λ y. y ≢ x) w) q
    → Holds s head q
    → Holds s' head q
Holds-keep s s' head [] w k h e = e
Holds-keep s s' head (c ∷ q) w k h e = (e.0, e.1, Chain-keep s s' c q c w k h h.0 e.2)
