-- ===== src/Utils/Bitmap/Flags.antt =====
-- The search for the first flag.
use kernelpanic.Common.{
  ℕ, zero, suc, ◌+◌, ◌*◌, ◌/◌, ◌^◌, ◌≤◌, ◌<◌, ◌≡◌, refl, sym, ap, ◌∙◌, subst, ◌≢◌, ◌⊎◌, inl, inr,
  Bool, true, false, none, some, List, arith, ltb, ◌==◌, Bool-cases, ltb→lt, eqb→eq, eqb→ne,
}
use kernelpanic.Utils.Bitmap.{
  word_size, size, get, minus_one, minus_two, word_is_set, offset_loop, word_loop, get_first_flag,
}

-- No flag is set among some, from a first one on.
abbrev Clear : (map : List Bool) (first count : ℕ) → Type 0
Clear map first count = (j : ℕ) → first ≤ j → j < first + count → get map j ≡ false

-- The first flag that is set among these.
record First (map : List Bool) (first count found : ℕ) : Type 0 where
  low : first ≤ found
  high : found < first + count
  set : get map found ≡ true
  before : (j : ℕ) → first ≤ j → j < found → get map j ≡ false

Clear-more :
    (map : List Bool) (first count : ℕ)
    → get map first ≡ false
    → Clear map (first + 1) count
    → Clear map first (suc count)
Clear-more map first count here rest j low high = elim (Bool-cases (j == first)) [
  | inl e ↦ ap (get map) (eqb→eq j first e) ∙ here
  | inr e ↦ rest j (omega (arith, eqb→ne j first e)) (omega arith)
]

First-more :
    (map : List Bool) (first count found : ℕ)
    → get map first ≡ false
    → First map (first + 1) count found
    → First map first (suc count) found
First-more map first count found here rest = record {
  low = omega (arith, rest.low);
  high = omega (arith, rest.high);
  set = rest.set;
  before = λ j low high. elim (Bool-cases (j == first)) [
    | inl e ↦ ap (get map) (eqb→eq j first e) ∙ here
    | inr e ↦ rest.before j (omega (arith, eqb→ne j first e)) high
  ];
}

here-First :
    (map : List Bool) (first count : ℕ) → get map first ≡ true → First map first (suc count) first
here-First map first count h = record {
  low = omega arith;
  high = omega arith;
  set = h;
  before = λ j low high. absurd (omega arith);
}

-- A word that is 0 has no flag.
word_is_set-Clear :
    (bits first : ℕ) (map : List Bool) → word_is_set bits first map ≡ false → Clear map first bits
unfolding word_is_set
word_is_set-Clear zero first map h = λ j low high. absurd (omega arith)
word_is_set-Clear (suc bits) first map h = elim (Bool-cases (get map first)) [
  | inl e ↦ absurd (true-ne-false (sym (rw (e, word_is_set) at h)))
  | inr e ↦
      Clear-more map first bits e
        (word_is_set-Clear bits (first + 1) map (rw (e, word_is_set) at h))
]
  where
    true-ne-false : false ≢ true
    true-ne-false h = cc

-- The loop over the offsets finds the first flag, or ends if there is none.
offset_loop_lem :
    (turns index offset : ℕ) (map : List Bool)
    → (offset_loop turns index offset map ≡ none) × Clear map (index * word_size + offset) turns
      ⊎ (found : ℕ) × (offset_loop turns index offset map ≡ some found)
        × First map (index * word_size + offset) turns found
unfolding offset_loop
offset_loop_lem zero index offset map = inl (refl, λ j low high. absurd (omega arith))
offset_loop_lem (suc turns) index offset map =
    let at = index * word_size + offset in
    elim (Bool-cases (get map at)) [
      | inl e ↦ inr (at, rw e refl, here-First map at turns e)
      | inr e ↦ elim (offset_loop_lem turns index (offset + 1) map) [
        | inl rest ↦ inl (
          rw e rest.0,
          Clear-more map at turns e (subst (λ n. Clear map n turns) (next index offset) rest.1),
        )
        | inr (found, is, rest) ↦ inr (
          found,
          rw e is,
          First-more map at turns found e
              (subst (λ n. First map n turns found) (next index offset) rest),
        )
      ]
    ]
  where
    next : (i o : ℕ) → i * word_size + (o + 1) ≡ i * word_size + o + 1
    next i o = omega arith

-- A word that is not 0 has a flag.
word_is_set-any :
    (bits first : ℕ) (map : List Bool) → word_is_set bits first map ≡ true → ¬ Clear map first bits
unfolding word_is_set
word_is_set-any zero first map h clear = false-ne-true h
  where
    false-ne-true : false ≢ true
    false-ne-true h = cc
word_is_set-any (suc bits) first map h clear =
    let here = clear first (omega arith) (omega arith) in
    word_is_set-any bits (first + 1) map (rw (here, word_is_set) at h)
      (λ j low high. clear j (omega arith) (omega arith))

-- The reply of a search: -1 if no flag is set, and otherwise the first one.
abbrev pub Searched : (reply : ℕ) → (map : List Bool) → (count : ℕ) → Type 0
Searched reply map count =
    (reply ≡ minus_one) × ((j : ℕ) → j < count → get map j ≡ false)
    ⊎ (reply < count) × (get map reply ≡ true) × ((j : ℕ) → j < reply → get map j ≡ false)

word_loop_lem :
    (turns index : ℕ) (map : List Bool)
    → ((j : ℕ) → j < index * word_size → get map j ≡ false)
    → Searched (word_loop turns index map) map ((index + turns) * word_size)
unfolding word_loop
word_loop_lem zero index map clear = inl (refl, λ j high. clear j (omega arith))
word_loop_lem (suc turns) index map clear =
    elim (Bool-cases (word_is_set word_size (index * word_size) map)) [
      | inr e ↦ rw e (
          subst (λ n. Searched (word_loop turns (index + 1) map) map (n * word_size))
            (next index turns)
            (word_loop_lem turns (index + 1) map
              (λ j high. past j high (word_is_set-Clear word_size (index * word_size) map e))))
      | inl e ↦ elim (offset_loop_lem word_size index 0 map) [
        | inl ends ↦ absurd (
            word_is_set-any word_size (index * word_size) map e
              (λ j low high. ends.1 j (omega arith) (omega arith)))
        | inr (found, is, first) ↦
            rw (e, is)
              (inr (
                omega (arith, first.high),
                first.set,
                λ j high. elim (Bool-cases (ltb j (index * word_size))) [
                  | inl l ↦ clear j (ltb→lt j (index * word_size) l)
                  | inr l ↦ first.before j (not_below j (index * word_size) l) high
                ],
              ))
      ]
    ]
  where
    next : (i t : ℕ) → i + 1 + t ≡ i + suc t
    next i t = omega arith

    not_below : (a b : ℕ) → ltb a b ≡ false → b + 0 ≤ a
    not_below a b h = ground arith

    past :
        (j : ℕ)
        → j < (index + 1) * word_size
        → Clear map (index * word_size) word_size
        → get map j ≡ false
    past j high word = elim (Bool-cases (ltb j (index * word_size))) [
      | inl l ↦ clear j (ltb→lt j (index * word_size) l)
      | inr l ↦ word j (omega (arith, not_below j (index * word_size) l)) (omega arith)
    ]

pub get_first_flag-Searched :
    (map : List Bool) (num_bits : ℕ)
    → Searched (get_first_flag map num_bits) map (size num_bits * word_size)
unfolding get_first_flag
get_first_flag-Searched map num_bits =
    subst (λ n. Searched (word_loop (size num_bits) 0 map) map (n * word_size))
      (zero_plus (size num_bits))
      (word_loop_lem (size num_bits) 0 map (λ j high. absurd (omega arith)))
  where
    zero_plus : (n : ℕ) → 0 + n ≡ n
    zero_plus n = omega arith

-- For fewer than 2 ^ 63 bits BitmapGetFirstFlag returns the first flag that is set in the words that
-- hold the bits asked for, or -1 if no flag of them is set; it never returns -2.
pub get_first_flag_lem :
    (map : List Bool) (num_bits : ℕ)
    → num_bits < 2 ^ 63
    → Searched (get_first_flag map num_bits) map (size num_bits * word_size)
      × (get_first_flag map num_bits ≢ minus_two)
get_first_flag_lem map num_bits few =
    let found = get_first_flag-Searched map num_bits in
    (
      found,
      elim found [
        | inl h ↦ λ e. absurd (omega (arith, h.0, e))
        | inr h ↦ λ e. absurd (omega (arith, h.0, e, size_below num_bits))
      ],
    )
  where
    size_below : (n : ℕ) → size n ≤ n / 32 + 1
    size_below n = ground arith
