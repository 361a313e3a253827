-- ===== src/Umouse/FloodFill/Invariant.antt =====
-- What holds between the turns of FloodFillCalculate.
use kernelpanic.Common.{
  ℕ, suc, ◌+◌, ◌*◌, ◌≤◌, ◌<◌, ◌≡◌, refl, sym, ap, ◌∙◌, ◌≢◌, ◌⊎◌, inl, inr, true, false, arith, ◌==◌,
  if◌then◌else◌, Bool-cases, eqb→eq, eqb→ne, length-set, get_or-set_self, get_or-set_ne,
}
use kernelpanic.Umouse.Map.{Map}
use kernelpanic.Umouse.FloodFill.{FloodMap}
use kernelpanic.Umouse.FloodFill.Grid.{Edge, IsSized, value, has_event, put, size-le}

-- A way of `k` open steps, counted on from what a cell starts with: a destination with 0.
pub data Way (n : ℕ) (m : Map) (dest : ℕ → ℕ → Type 0) : ℕ → ℕ → Type 0 where
  here : {i k : ℕ} → dest i k → Way n m dest i k
  step : {i j k : ℕ} → Way n m dest i k → Edge n m i j → Way n m dest j (suc k)

module _ (n : ℕ) (m : Map) (dest : ℕ → ℕ → Type 0) where
  -- Every value below 255 is the length of a way, and a cell without an event has told its
  -- neighbours, but for those that `Pending` names.
  pub record Inv (pending : ℕ → Type 0) (s : FloodMap) : Type 0 where
    pub sized : IsSized n s
    pub bounded : (i : ℕ) → value s i ≤ 255
    pub real : (i : ℕ) → value s i < 255 → Way n m dest i (value s i)
    pub start_at : (i k : ℕ) → dest i k → value s i ≤ k
    pub told :
        (i j : ℕ) → Edge n m i j → has_event s i ≡ false → (value s j ≤ value s i + 1) ⊎ pending i

pub value-put :
    {n : ℕ} {s : FloodMap} (i v : ℕ)
    → IsSized n s
    → i < n * n
    → (j : ℕ) → value (put s i v) j ≡ (if j == i then v else value s j)
value-put {n} {s} i v z h j = elim (Bool-cases (j == i)) [
  | inl same ↦ rw same (
      ap (λ j. value (put s i v) j) (eqb→eq j i same)
      ∙ get_or-set_self s.flood_map i v 255 (omega (arith, z.values)))
  | inr other ↦ rw other (get_or-set_ne s.flood_map i j v 255 (λ e. eqb→ne j i other (sym e)))
]

pub put-le :
    {n : ℕ} {s : FloodMap} (i v : ℕ)
    → IsSized n s
    → i < n * n
    → v ≤ value s i
    → (j : ℕ) → value (put s i v) j ≤ value s j
put-le {n} {s} i v z h le j = elim (Bool-cases (j == i)) [
  | inl same ↦
      let is : value (put s i v) j ≡ v = value-put i v z h j ∙ rw same refl in
      omega (arith, is, ap (value s) (eqb→eq j i same))
  | inr other ↦
      let is : value (put s i v) j ≡ value s j = value-put i v z h j ∙ rw other refl in
      omega (arith, is)
]

-- A flag that is off after a `put` was off before, at another cell.
pub put_event :
    {n : ℕ} {s : FloodMap} (i v : ℕ)
    → IsSized n s
    → i < n * n
    → (j : ℕ) → has_event (put s i v) j ≡ false
    → (j ≢ i) × (has_event s j ≡ false)
put_event {n} {s} i v z h j off = elim (Bool-cases (j == i)) [
  | inl same ↦ absurd (
      true-ne-false (
        sym (get_or-set_self s.event_map i true false (omega (arith, z.events, size-le (n * n))))
        ∙ ap (λ j. has_event (put s i v) j) (sym (eqb→eq j i same))
        ∙ off))
  | inr other ↦ (
    eqb→ne j i other,
    sym (get_or-set_ne s.event_map i j true false (λ e. eqb→ne j i other (sym e))) ∙ off,
  )
]
  where
    true-ne-false : true ≢ false
    true-ne-false h = cc

pub put-IsSized : {n : ℕ} {s : FloodMap} (i v : ℕ) → IsSized n s → i < n * n → IsSized n (put s i v)
put-IsSized {n} {s} i v z h = record {
  width = z.width;
  height = z.height;
  values = length-set s.flood_map i v ∙ z.values;
  events = length-set s.event_map i true ∙ z.events;
  no_others = λ j l.
      get_or-set_ne s.event_map i j true false (λ (e : i ≡ j). omega arith) ∙ z.no_others j l;
}
