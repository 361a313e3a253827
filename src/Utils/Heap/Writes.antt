-- ===== src/Utils/Heap/Writes.antt =====
-- What each field of a node is after HeapPromote.
use kernelpanic.Common.{
  ℕ, ◌≡◌, refl, sym, ap, ap₂, ◌∙◌, inl, inr, Bool, true, false, not, ◌&&◌, Option, none, some,
  arith, ◌==◌, if◌then◌else◌, Bool-cases, eqb→eq, eqb→ne,
}
use kernelpanic.Common.Store.{update, update_self, update_ne}
use kernelpanic.Utils.Heap.{
  Nodes, points, adopt, relink, set_left, set_right, set_parent, promote_over, raise, hang,
  take_over, sibling_of,
}

pub adopt-left : (o : Option ℕ) (n : ℕ) (s : Nodes) → (adopt o n s).left ≡ s.left
unfolding adopt set_parent
adopt-left none n s = refl
adopt-left (some i) n s = refl

pub adopt-right : (o : Option ℕ) (n : ℕ) (s : Nodes) → (adopt o n s).right ≡ s.right
unfolding adopt set_parent
adopt-right none n s = refl
adopt-right (some i) n s = refl

pub adopt-parent :
    (o : Option ℕ) (n : ℕ) (s : Nodes) (j : ℕ)
    → (adopt o n s).parent j ≡ (if points o j then some n else s.parent j)
unfolding adopt set_parent update points
adopt-parent none n s j = refl
adopt-parent (some i) n s j = ground arith

relink-parent : (o : Option ℕ) (p i : ℕ) (s : Nodes) → (relink o p i s).parent ≡ s.parent
unfolding relink set_left set_right
relink-parent none p i s = refl
relink-parent (some g) p i s = elim (Bool-cases (points (s.left g) p)) [
  | inl h ↦ rw h refl
  | inr h ↦ rw h refl
]

relink-left :
    (o : Option ℕ) (p i : ℕ) (s : Nodes) (j : ℕ)
    → (relink o p i s).left j ≡ (if points o j && points (s.left j) p then some i else s.left j)
unfolding relink set_left set_right points
relink-left none p i s j = refl
relink-left (some g) p i s j = elim (Bool-cases (points (s.left g) p)) [
  | inl h ↦ rw h (elim (Bool-cases (g == j)) [
    | inl e ↦
        let here : points (s.left j) p ≡ true =
          ap (λ j. points (s.left j) p) (sym (eqb→eq g j e)) ∙ h in
        rw (e, here)
          (ap (update s.left g (some i)) (sym (eqb→eq g j e)) ∙ update_self s.left g (some i))
    | inr e ↦ rw e (update_ne s.left g j (some i) (λ h. eqb→ne g j e (sym h)))
  ])
  | inr h ↦ rw h (elim (Bool-cases (g == j)) [
    | inl e ↦
        let here : points (s.left j) p ≡ false =
          ap (λ j. points (s.left j) p) (sym (eqb→eq g j e)) ∙ h in
        rw (e, here) refl
    | inr e ↦ rw e refl
  ])
]

relink-right :
    (o : Option ℕ) (p i : ℕ) (s : Nodes) (j : ℕ)
    → (relink o p i s).right j
      ≡ (if points o j && not (points (s.left j) p) then some i else s.right j)
unfolding relink set_left set_right points
relink-right none p i s j = refl
relink-right (some g) p i s j = elim (Bool-cases (points (s.left g) p)) [
  | inl h ↦ rw h (elim (Bool-cases (g == j)) [
    | inl e ↦
        let here : points (s.left j) p ≡ true =
          ap (λ j. points (s.left j) p) (sym (eqb→eq g j e)) ∙ h in
        rw (e, here) refl
    | inr e ↦ rw e refl
  ])
  | inr h ↦ rw h (elim (Bool-cases (g == j)) [
    | inl e ↦
        let here : points (s.left j) p ≡ false =
          ap (λ j. points (s.left j) p) (sym (eqb→eq g j e)) ∙ h in
        rw (e, here)
          (ap (update s.right g (some i)) (sym (eqb→eq g j e)) ∙ update_self s.right g (some i))
    | inr e ↦ rw e (update_ne s.right g j (some i) (λ h. eqb→ne g j e (sym h)))
  ])
]

hang-parent : (o : Option ℕ) (p i : ℕ) (s : Nodes) → (hang o p i s).parent ≡ s.parent
unfolding hang set_left set_right
hang-parent o p i s = elim (Bool-cases (points (s.left p) i)) [
  | inl h ↦ rw h refl
  | inr h ↦ rw h refl
]

hang-left :
    (o : Option ℕ) (p i : ℕ) (s : Nodes) (j : ℕ)
    → (hang o p i s).left j
      ≡ (if j == i then (if points (s.left p) i then some p else o) else s.left j)
unfolding hang set_left set_right update
hang-left o p i s j = elim (Bool-cases (points (s.left p) i)) [
  | inl h ↦ rw h refl
  | inr h ↦ rw h refl
]

hang-right :
    (o : Option ℕ) (p i : ℕ) (s : Nodes) (j : ℕ)
    → (hang o p i s).right j
      ≡ (if j == i then (if points (s.left p) i then o else some p) else s.right j)
unfolding hang set_left set_right update
hang-right o p i s j = elim (Bool-cases (points (s.left p) i)) [
  | inl h ↦ rw h refl
  | inr h ↦ rw h refl
]

take_over-parent :
    (l r : Option ℕ) (p : ℕ) (s : Nodes) (j : ℕ)
    → (take_over l r p s).parent j
      ≡ (if points r j then some p else if points l j then some p else s.parent j)
unfolding take_over
take_over-parent l r p s j =
    let below = set_right p r (set_left p l s) in
    adopt-parent r p (adopt l p below) j
    ∙ ap (λ x. if points r j then some p else x) (adopt-parent l p below j)
    ∙ unfold set_right set_left in refl

take_over-left :
    (l r : Option ℕ) (p : ℕ) (s : Nodes) (j : ℕ)
    → (take_over l r p s).left j ≡ (if j == p then l else s.left j)
unfolding take_over
take_over-left l r p s j =
    let below = set_right p r (set_left p l s) in
    ap (λ (f : ℕ → Option ℕ). f j) (adopt-left r p (adopt l p below) ∙ adopt-left l p below)
    ∙ unfold set_right set_left update in refl

take_over-right :
    (l r : Option ℕ) (p : ℕ) (s : Nodes) (j : ℕ)
    → (take_over l r p s).right j ≡ (if j == p then r else s.right j)
unfolding take_over
take_over-right l r p s j =
    let below = set_right p r (set_left p l s) in
    ap (λ (f : ℕ → Option ℕ). f j) (adopt-right r p (adopt l p below) ∙ adopt-right l p below)
    ∙ unfold set_right set_left update in refl

raise-parent :
    (g : Option ℕ) (p i : ℕ) (s : Nodes) (j : ℕ)
    → (raise g p i s).parent j ≡ (if j == p then some i else if j == i then g else s.parent j)
unfolding raise set_parent update
raise-parent g p i s j = refl

pub promote_over-parent :
    (p i : ℕ) (s : Nodes) (j : ℕ)
    → (promote_over p i s).parent j ≡ (
        if points (s.right i) j
        then some p
        else if points (s.left i) j
        then some p
        else if points (sibling_of p i s) j
        then some i
        else if j == p
        then some i
        else if j == i
        then s.parent p
        else s.parent j)
unfolding promote_over
promote_over-parent p i s j =
    let o = sibling_of p i s in
    let linked = relink (s.parent p) p i s in
    let up = raise (s.parent p) p i linked in
    take_over-parent (s.left i) (s.right i) p (hang o p i (adopt o i up)) j
    ∙ ap (λ x. if points (s.right i) j then some p else if points (s.left i) j then some p else x)
        (ap (λ (f : ℕ → Option ℕ). f j) (hang-parent o p i (adopt o i up))
          ∙ adopt-parent o i up j
          ∙ ap (λ x. if points o j then some i else x)
              (raise-parent (s.parent p) p i linked j
                ∙ ap
                    (λ (f : ℕ → Option ℕ).
                      if j == p then some i else if j == i then s.parent p else f j)
                    (relink-parent (s.parent p) p i s)))

-- The left field of p at the test of hang, when p is not its own parent.
module _ (p i : ℕ) (s : Nodes) (h : points (s.parent p) p ≡ false) where
  abbrev adopted : Nodes
  adopted = adopt (sibling_of p i s) i (raise (s.parent p) p i (relink (s.parent p) p i s))

  adopted-left :
      (j : ℕ)
      → adopted.left j ≡ (if points (s.parent p) j && points (s.left j) p then some i else s.left j)
  adopted-left j =
      ap (λ (f : ℕ → Option ℕ). f j)
        (adopt-left (sibling_of p i s) i (raise (s.parent p) p i (relink (s.parent p) p i s)))
      ∙ (unfold raise set_parent in relink-left (s.parent p) p i s j)

  adopted-right :
      (j : ℕ)
      → adopted.right j
        ≡ (if points (s.parent p) j && not (points (s.left j) p) then some i else s.right j)
  adopted-right j =
      ap (λ (f : ℕ → Option ℕ). f j)
        (adopt-right (sibling_of p i s) i (raise (s.parent p) p i (relink (s.parent p) p i s)))
      ∙ (unfold raise set_parent in relink-right (s.parent p) p i s j)

  test : points (adopted.left p) i ≡ points (s.left p) i
  test = ap (λ o. points o i) (adopted-left p ∙ rw h refl)

  pub promote_over-left :
      (j : ℕ)
      → (promote_over p i s).left j ≡ (
          if j == p
          then s.left i
          else if j == i
          then (if points (s.left p) i then some p else sibling_of p i s)
          else if points (s.parent p) j && points (s.left j) p
          then some i
          else s.left j)
  unfolding promote_over
  promote_over-left j =
      take_over-left (s.left i) (s.right i) p (hang (sibling_of p i s) p i adopted) j
      ∙ ap (λ x. if j == p then s.left i else x)
          (hang-left (sibling_of p i s) p i adopted j
            ∙ ap₂ (λ (b : Bool) x. if j == i then (if b then some p else sibling_of p i s) else x)
                test (adopted-left j))

  pub promote_over-right :
      (j : ℕ)
      → (promote_over p i s).right j ≡ (
          if j == p
          then s.right i
          else if j == i
          then (if points (s.left p) i then sibling_of p i s else some p)
          else if points (s.parent p) j && not (points (s.left j) p)
          then some i
          else s.right j)
  unfolding promote_over
  promote_over-right j =
      take_over-right (s.left i) (s.right i) p (hang (sibling_of p i s) p i adopted) j
      ∙ ap (λ x. if j == p then s.right i else x)
          (hang-right (sibling_of p i s) p i adopted j
            ∙ ap₂ (λ (b : Bool) x. if j == i then (if b then sibling_of p i s else some p) else x)
                test (adopted-right j))

pub adopt-weight : (o : Option ℕ) (n : ℕ) (s : Nodes) → (adopt o n s).weight ≡ s.weight
unfolding adopt set_parent
adopt-weight none n s = refl
adopt-weight (some i) n s = refl

relink-weight : (o : Option ℕ) (p i : ℕ) (s : Nodes) → (relink o p i s).weight ≡ s.weight
unfolding relink set_left set_right
relink-weight none p i s = refl
relink-weight (some g) p i s = elim (Bool-cases (points (s.left g) p)) [
  | inl h ↦ rw h refl
  | inr h ↦ rw h refl
]

hang-weight : (o : Option ℕ) (p i : ℕ) (s : Nodes) → (hang o p i s).weight ≡ s.weight
unfolding hang set_left set_right
hang-weight o p i s = elim (Bool-cases (points (s.left p) i)) [
  | inl h ↦ rw h refl
  | inr h ↦ rw h refl
]

take_over-weight : (l r : Option ℕ) (p : ℕ) (s : Nodes) → (take_over l r p s).weight ≡ s.weight
unfolding take_over set_left set_right
take_over-weight l r p s =
    let below = set_right p r (set_left p l s) in
    adopt-weight r p (adopt l p below) ∙ adopt-weight l p below

pub promote_over-weight : (p i : ℕ) (s : Nodes) → (promote_over p i s).weight ≡ s.weight
unfolding promote_over
promote_over-weight p i s =
    let o = sibling_of p i s in
    let linked = relink (s.parent p) p i s in
    let up = raise (s.parent p) p i linked in
    take_over-weight (s.left i) (s.right i) p (hang o p i (adopt o i up))
    ∙ hang-weight o p i (adopt o i up)
    ∙ adopt-weight o i up
    ∙ (unfold raise set_parent in relink-weight (s.parent p) p i s)
