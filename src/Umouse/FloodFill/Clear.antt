-- ===== src/Umouse/FloodFill/Clear.antt =====
-- FloodFillClear sets every value to 255 and takes every event off.
use kernelpanic.Common.{
  ℕ, zero, suc, ◌+◌, ◌*◌, ◌/◌, ◌%◌, ◌≤◌, ◌<◌, ◌≡◌, refl, sym, ap, ap₂, ◌∙◌, subst, ◌⊎◌, inl, inr,
  Bool, false, List, [], ◌∷◌, arith, ltb, ◌==◌, Bool-cases, ltb→lt, ltb→le, eqb→eq, eqb→ne, length,
  get_or, set, length-set,
}
use native.Mathlib.Nat.{mod-lt, div-lt_iff_lt-mul, div-add-mod'}
use kernelpanic.Utils.Bitmap
use kernelpanic.Umouse.FloodFill.{FloodMap, set_value, clear_rows, clear_columns, clear, is_outside}
use kernelpanic.Umouse.FloodFill.Grid.{Cell, at, IsSized, value, has_event}

-- The buffers that FloodFillInit is given: a value for every cell, and a flag in whole words.
pub record Buffers (n : ℕ) (s : FloodMap) : Type 0 where
  pub width : s.width ≡ n
  pub height : s.height ≡ n
  pub values : length s.flood_map ≡ n * n
  pub events : length s.event_map ≡ Bitmap.size (n * n) * Bitmap.word_size

-- One value cleared: the others are as before, or cleared too.
record Clears (n : ℕ) (Done : ℕ → ℕ → Type 0) (s s' : FloodMap) : Type 0 where
  buffers : Buffers n s'
  cleared : (x y : ℕ) → Done x y → Cell n x y → value s' (at n x y) ≡ 255
  kept : (i : ℕ) → value s i ≡ 255 → value s' i ≡ 255

set_inside :
    (n x y v : ℕ) (s : FloodMap)
    → Buffers n s
    → Cell n x y
    → set_value x y v s ≡ record s { flood_map = set s.flood_map (at n x y) v }
unfolding set_value
set_inside n x y v s z c =
    let inside : is_outside x y s ≡ false = ground (arith, z.width, z.height) in
    rw inside (ap (λ w. record s { flood_map = set s.flood_map (y * w + x) v }) z.width)

set-Clears :
    (n x y : ℕ) (s : FloodMap)
    → Buffers n s
    → Cell n x y
    → Clears n (λ a b. (a ≡ x) × (b ≡ y)) s (set_value x y 255 s)
set-Clears n x y s z c =
    subst (Clears n (λ a b. (a ≡ x) × (b ≡ y)) s) (sym (set_inside n x y 255 s z c)) (record {
      buffers = record {
        width = z.width;
        height = z.height;
        values = length-set s.flood_map (at n x y) 255 ∙ z.values;
        events = z.events;
      };
      cleared = λ a b is ab.
          ap₂ (λ a b. get_or (set s.flood_map (at n x y) 255) (at n a b) 255) is.0 is.1
          ∙ set_default s.flood_map (at n x y);
      kept = λ i h. keep s.flood_map (at n x y) i h;
    })
  where
    set_default : (vs : List ℕ) (i : ℕ) → get_or (set vs i 255) i 255 ≡ 255
    set_default [] i = refl
    set_default (v ∷ vs) zero = refl
    set_default (v ∷ vs) (suc i) = set_default vs i

    keep : (vs : List ℕ) (i j : ℕ) → get_or vs j 255 ≡ 255 → get_or (set vs i 255) j 255 ≡ 255
    keep [] i j h = h
    keep (v ∷ vs) zero zero h = refl
    keep (v ∷ vs) zero (suc j) h = h
    keep (v ∷ vs) (suc i) zero h = h
    keep (v ∷ vs) (suc i) (suc j) h = keep vs i j h

Clears-then :
    {n : ℕ} {P Q R : ℕ → ℕ → Type 0} {s s' s'' : FloodMap}
    → ((a b : ℕ) → R a b → P a b ⊎ Q a b)
    → Clears n P s s'
    → Clears n Q s' s''
    → Clears n R s s''
Clears-then {n} {P} {Q} {R} {s} {s'} {s''} split p q = record {
  buffers = q.buffers;
  cleared = λ a b r c. elim (split a b r) [
    | inl h ↦ q.kept (at n a b) (p.cleared a b h c)
    | inr h ↦ q.cleared a b h c
  ];
  kept = λ i h. q.kept i (p.kept i h);
}

rows-Clears :
    (n left x y : ℕ) (s : FloodMap)
    → Buffers n s
    → x < n
    → left + y ≡ n
    → Clears n (λ a b. (a ≡ x) × (y ≤ b)) s (clear_rows left x y s)
unfolding clear_rows
rows-Clears n zero x y s z h e = record {
  buffers = z;
  cleared = λ a b is c. absurd (omega arith);
  kept = λ i h. h;
}
rows-Clears n (suc left) x y s z h e =
    let one = set-Clears n x y s z (h, omega arith) in
    let rest = rows-Clears n left x (y + 1) (set_value x y 255 s) one.buffers h (omega arith) in
    Clears-then (λ a b is. this_or_later a b is) one rest
  where
    this_or_later : (a b : ℕ) → (a ≡ x) × (y ≤ b) → ((a ≡ x) × (b ≡ y)) ⊎ ((a ≡ x) × (y + 1 ≤ b))
    this_or_later a b is = elim (Bool-cases (b == y)) [
      | inl same ↦ inl (is.0, eqb→eq b y same)
      | inr other ↦ inr (is.0, omega (arith, eqb→ne b y other))
    ]

columns-Clears :
    (n left x : ℕ) (s : FloodMap)
    → Buffers n s
    → left + x ≡ n
    → Clears n (λ a b. x ≤ a) s (clear_columns left x s)
unfolding clear_columns
columns-Clears n zero x s z e = record {
  buffers = z;
  cleared = λ a b is c. absurd (omega arith);
  kept = λ i h. h;
}
columns-Clears n (suc left) x s z e =
    let one = rows-Clears n s.height x 0 s z (omega arith) (omega (arith, z.height)) in
    let rest =
      columns-Clears n left (x + 1) (clear_rows s.height x 0 s) one.buffers (omega arith) in
    Clears-then (λ a b is. this_or_later a b is) one rest
  where
    this_or_later : (a b : ℕ) → x ≤ a → ((a ≡ x) × (0 ≤ b)) ⊎ (x + 1 ≤ a)
    this_or_later a b is = elim (Bool-cases (a == x)) [
      | inl same ↦ inl (eqb→eq a x same, omega arith)
      | inr other ↦ inr (omega (arith, eqb→ne a x other))
    ]

-- What FloodFillClear leaves: 255 everywhere, and no event.
pub record Blank (n : ℕ) (s : FloodMap) : Type 0 where
  pub sized : IsSized n s
  pub far : (i : ℕ) → value s i ≡ 255
  pub quiet : (i : ℕ) → has_event s i ≡ false

bits_off :
    (k : ℕ) (es : List Bool) (i : ℕ)
    → length es ≤ k
    → get_or (Bitmap.clear_bits k es) i false ≡ false
bits_off zero [] i h = refl
bits_off zero (b ∷ es) i h = absurd (omega arith)
bits_off (suc k) [] i h = refl
bits_off (suc k) (b ∷ es) zero h = refl
bits_off (suc k) (b ∷ es) (suc i) h = bits_off k es i (omega arith)

bits_length : (k : ℕ) (es : List Bool) → length (Bitmap.clear_bits k es) ≡ length es
bits_length zero es = refl
bits_length (suc k) [] = refl
bits_length (suc k) (b ∷ es) = ap suc (bits_length k es)

past_end {ℓ} : {A : Type ℓ} (xs : List A) (i : ℕ) (d : A) → length xs ≤ i → get_or xs i d ≡ d
past_end [] i d h = refl
past_end (x ∷ xs) zero d h = absurd (omega arith)
past_end (x ∷ xs) (suc i) d h = past_end xs i d (omega arith)

-- Every index below n * n is that of a cell.
Cell-of : (n i : ℕ) → i < n * n → Cell n (i % n) (i / n) × (i ≡ at n (i % n) (i / n))
Cell-of zero i h = absurd (omega arith)
Cell-of (suc n) i h =
    let pos : 0 < suc n = omega arith in
    ((mod-lt i pos, (div-lt_iff_lt-mul pos).1 h), sym (div-add-mod' i (suc n)))

pub clear-Blank : (n : ℕ) (s : FloodMap) → Buffers n s → Blank n (clear s)
unfolding clear Bitmap.clear
clear-Blank n s z =
    let t = columns-Clears n s.width 0 s z (omega (arith, z.width)) in
    let after = clear_columns s.width 0 s in
    let words = Bitmap.size (after.width * after.height) * Bitmap.word_size in
    let items : after.width * after.height ≡ n * n =
      ap₂ (λ a b. a * b) t.buffers.width t.buffers.height in
    let holds : length after.event_map ≡ words =
      t.buffers.events ∙ ap (λ k. Bitmap.size k * Bitmap.word_size) (sym items) in
    let quiet = λ (i : ℕ). bits_off words after.event_map i (omega arith) in
    record {
      sized = record {
        width = t.buffers.width;
        height = t.buffers.height;
        values = t.buffers.values;
        events = bits_length words after.event_map ∙ t.buffers.events;
        no_others = λ i l. quiet i;
      };
      far = λ i. elim (Bool-cases (ltb i (n * n))) [
        | inl l ↦
            let (cell, is) = Cell-of n i (ltb→lt i (n * n) l) in
            ap (value after) is ∙ t.cleared (i % n) (i / n) (omega arith) cell
        | inr g ↦
            past_end after.flood_map i 255 (omega (arith, t.buffers.values, ltb→le i (n * n) g))
      ];
      quiet = quiet;
    }
