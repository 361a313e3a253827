-- ===== src/Utils/RingBuffer/Slice.antt =====
-- `n` bytes of an array from index `i` on.
use kernelpanic.Common.{
  ◌∙◌, ℕ, zero, suc, ◌+◌, ◌≤◌, ◌<◌, ◌≡◌, refl, ap, ap₂, ◌⊎◌, List, [], ◌∷◌, ◌++◌, arith, length,
  get_or, set, get_or-set_ne, take, drop, sym,
}

abbrev pub slice : List ℕ → ℕ → ℕ → List ℕ
slice b i zero = []
slice b i (suc n) = get_or b i 0 ∷ slice b (i + 1) n

pub length-slice : (b : List ℕ) (i n : ℕ) → length (slice b i n) ≡ n
length-slice b i zero = refl
length-slice b i (suc n) = ap suc (length-slice b (i + 1) n)

pub slice-split :
    (b : List ℕ) (i m k n : ℕ) → n ≡ m + k → slice b i n ≡ slice b i m ++ slice b (i + m) k
slice-split b i zero k n e = ap₂ (slice b) {x = i} (omega arith) (omega arith)
slice-split b i (suc m) k zero e = absurd (omega arith)
slice-split b i (suc m) k (suc n) e =
    ap (λ r. get_or b i 0 ∷ r)
      (slice-split b (i + 1) m k n (omega arith)
        ∙ ap (λ j. slice b (i + 1) m ++ slice b j k) (omega arith))

-- A write outside the slice leaves it alone.
pub slice-set :
    (b : List ℕ) (j v i n : ℕ) → (j < i) ⊎ (i + n ≤ j) → slice (set b j v) i n ≡ slice b i n
slice-set b j v i zero h = refl
slice-set b j v i (suc n) h =
    ap₂ ◌∷◌ (get_or-set_ne b j i v 0 (omega arith)) (slice-set b j v (i + 1) n (omega arith))

slice_of_nil : (i j n : ℕ) → slice [] i n ≡ slice [] j n
slice_of_nil i j zero = refl
slice_of_nil i j (suc n) = ap (λ r. 0 ∷ r) (slice_of_nil (i + 1) (j + 1) n)

get_or-cons : (x : ℕ) (b : List ℕ) (i : ℕ) → get_or b i 0 ≡ get_or (x ∷ b) (i + 1) 0
get_or-cons x b i = let e : suc i ≡ i + 1 = omega arith in ap (λ j. get_or (x ∷ b) j 0) e

slice-cons : (x : ℕ) (b : List ℕ) (i n : ℕ) → slice b i n ≡ slice (x ∷ b) (i + 1) n
slice-cons x b i zero = refl
slice-cons x b i (suc n) = ap₂ ◌∷◌ (get_or-cons x b i) (slice-cons x b (i + 1) n)

pub slice-drop : (b : List ℕ) (w i n : ℕ) → slice (drop w b) i n ≡ slice b (w + i) n
slice-drop b zero i n = ap (λ j. slice b j n) (omega arith)
slice-drop [] (suc w) i n = slice_of_nil i (suc w + i) n
slice-drop (x ∷ b) (suc w) i n =
    slice-drop b w i n ∙ slice-cons x b (w + i) n ∙ ap (λ j. slice (x ∷ b) j n) (omega arith)

pub slice-take : (b : List ℕ) (n : ℕ) → n ≤ length b → slice b 0 n ≡ take n b
slice-take b zero h = refl
slice-take [] (suc n) h = absurd (omega arith)
slice-take (x ∷ b) (suc n) h =
    ap (λ r. x ∷ r) (sym (slice-cons x b 0 n) ∙ slice-take b n (omega arith))
