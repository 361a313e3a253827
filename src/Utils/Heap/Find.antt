-- ===== src/Utils/Heap/Find.antt =====
-- HeapFindElement finds the node at a place.
use kernelpanic.Common.{
  ℕ, zero, suc, ◌*◌, ◌/◌, ◌%◌, ◌^◌, ◌≤◌, ◌≡◌, sym, ap, ◌∙◌, inl, inr, true, not, ◌&&◌, Option, some,
  arith, leb, ltb, ◌<◌, ◌==◌, if◌then◌else◌, Bool-cases, eqb→eq, eqb→ne,
}
use kernelpanic.Common.Outcome.{ok}
use kernelpanic.Utils.Heap.{Nodes, Heap, deref, count_steps, shift_one, descend, find_element}
use native.Mathlib.Nat.{div-div-eq-div-mul, div-le_self}
use kernelpanic.Utils.Heap.Places.{Linked}

halve_pow : (index k : ℕ) → index / 2 ^ suc k ≡ index / 2 ^ k / 2
halve_pow index k = ap (λ x. index / x) (pow_suc k) ∙ sym (div-div-eq-div-mul index (2 ^ k) 2)
  where
    pow_suc : (k : ℕ) → 2 ^ suc k ≡ 2 ^ k * 2
    pow_suc k = omega arith

halve_first : (index k : ℕ) → index / 2 ^ suc k ≡ index / 2 / 2 ^ k
halve_first index k = ap (λ x. index / x) (pow_suc k) ∙ sym (div-div-eq-div-mul index 2 (2 ^ k))
  where
    pow_suc : (k : ℕ) → 2 ^ suc k ≡ 2 * 2 ^ k
    pow_suc k = omega arith

one_div : (index : ℕ) → index / 2 ^ 0 ≡ index
one_div index = omega arith

-- The places 1 to size are those of nodes.
abbrev pub Filled : (ℕ → Option ℕ) → ℕ → Type 0
Filled at size = (m : ℕ) → 1 ≤ m → m ≤ size → (j : ℕ) × (at m ≡ some j)

count_steps-top :
    (fuel index : ℕ) → 1 ≤ index → index ≤ fuel → index / 2 ^ count_steps fuel index ≡ 1
unfolding count_steps
count_steps-top zero index h f = absurd (omega arith)
count_steps-top (suc fuel) index h f = elim (Bool-cases (index == 1)) [
  | inl e ↦ rw e (one_div index ∙ eqb→eq index 1 e)
  | inr e ↦
      let more : 2 ≤ index = omega (arith, eqb→ne index 1 e) in
      rw e (
        halve_first index (count_steps fuel (index / 2))
        ∙ count_steps-top fuel (index / 2) (omega arith) (omega arith))
]

-- An index below 2 ^ suc k is fewer than suc k steps from the head.
count_steps-lt : (k fuel index : ℕ) → 1 ≤ index → index < 2 ^ suc k → count_steps fuel index < suc k
unfolding count_steps
count_steps-lt k zero index h b = omega arith
count_steps-lt zero (suc fuel) index h b =
    let one : (index == 1) ≡ true = ground arith in rw one (omega arith)
count_steps-lt (suc k) (suc fuel) index h b = elim (Bool-cases (index == 1)) [
  | inl e ↦ rw e (omega arith)
  | inr e ↦ rw e (
      omega
        (arith, count_steps-lt k fuel (index / 2) (omega (arith, eqb→ne index 1 e)) (omega arith)))
]

mask_halves : (k : ℕ) → 2 ^ suc k / 2 ≡ 2 ^ k
mask_halves k = omega arith

descend_lem :
    (at : ℕ → Option ℕ) (s : Nodes) (size turns index : ℕ)
    → Linked at s
    → Filled at size
    → 1 ≤ index / 2 ^ turns
    → index ≤ size
    → descend turns (2 ^ turns / 2) index (at (index / 2 ^ turns)) s ≡ ok (at index)
unfolding descend deref
descend_lem at s size zero index v f top h = ap (λ m. ok (at m)) (one_div index)
descend_lem at s size (suc turns) index v f top h =
    let (j, here) = f (index / 2 ^ suc turns) top (below (suc turns)) in
    let next : (if index / 2 ^ turns % 2 == 1 then s.right j else s.left j)
        ≡ at (index / 2 ^ turns) =
      rw
        (
          v.left (index / 2 ^ suc turns) j here,
          v.right (index / 2 ^ suc turns) j here,
          halve_pow index turns,
        )
        (elim (Bool-cases (index / 2 ^ turns % 2 == 1)) [
          | inl e ↦ rw e (ap at (omega (arith, eqb→eq (index / 2 ^ turns % 2) 1 e)))
          | inr e ↦ rw e (ap at (omega (arith, eqb→ne (index / 2 ^ turns % 2) 1 e)))
        ]) in
    rw (here, mask_halves turns, next)
      (descend_lem at s size turns index v f (omega (arith, top, halve_pow index turns)) h)
  where
    below : (k : ℕ) → index / 2 ^ k ≤ size
    below k = omega (arith, div-le_self index (2 ^ k), h)

-- On links that are those of an array whose places 1 to n hold nodes, HeapFindElement of such a
-- place below 2 ^ 31, within the size, passes its check and returns the node there.
pub find_element_lem :
    (at : ℕ → Option ℕ) (h : Heap) (n index : ℕ)
    → Linked at h.nodes
    → Filled at n
    → h.head ≡ at 1
    → 1 ≤ index
    → index < 2 ^ 31
    → index ≤ n
    → n ≤ h.size
    → find_element index h ≡ ok (at index)
unfolding find_element shift_one
find_element_lem at h n index v f head low narrow high fits =
    let steps = count_steps index index in
    let top = count_steps-top index index low (omega arith) in
    let in_range : (leb index h.size && not (index == 0)) ≡ true = ground arith in
    let short : ltb steps 31 ≡ true =
      ltb_of_lt steps 31 (count_steps-lt 30 index index low narrow) in
    elim (Bool-cases (steps == 0)) [
      | inl e ↦
          rw (in_range, e)
            (rw head (
              ap (λ m. ok (at m))
                (sym top ∙ ap (λ k. index / 2 ^ k) (eqb→eq steps 0 e) ∙ one_div index)))
      | inr e ↦
          rw (in_range, e, short, head)
            (rw (sym top) (descend_lem at h.nodes n steps index v f (omega (arith, top)) high))
    ]
  where
    ltb_of_lt : (a b : ℕ) → a < b → ltb a b ≡ true
    ltb_of_lt a b h = ground arith
