-- ===== src/Kernel/Isr/Masks.antt =====
-- The mask is that of the highest level that is disabled, and pairs of disable and enable nest.
use kernelpanic.Common.{
  ℕ, zero, suc, ◌+◌, ◌-◌, ◌≤◌, ◌<◌, ◌≡◌, refl, sym, ap, ◌∙◌, subst, ◌⊎◌, inl, inr, Bool, true,
  false, not, ◌&&◌, ◌||◌, arith, ltb, leb, ◌==◌, if◌then◌else◌, Bool-cases, ltb→lt, ltb→le, eqb→eq,
  eqb→ne, ◌^◌, ◌%◌,
}
use kernelpanic.Common.Outcome.{ok}
use kernelpanic.Common.Store.{update, update_self}
use kernelpanic.Kernel.Isr.{
  Isr, level_count, hal_is_irq_atomic, hal_set_irq, check_level, defer_loop, defer, disable, enable,
  count_up, count_down,
}

-- The mask is that of the highest level that is disabled.
pub record IsValid (s : Isr) : Type 0 where
  pub below : s.mask < level_count
  pub holds : (s.mask ≡ 0) ⊎ (0 < s.disabled_count s.mask)
  pub zero_above : (l : ℕ) → s.mask < l → l < level_count → s.disabled_count l ≡ 0

-- The test of `IsrCheckLevel`.
abbrev asks : (level : ℕ) → (e : Bool) → Isr → ℕ → Bool
asks level e s j = ltb 0 (s.disabled_count j) || (j == level && not e)

-- The mask that IsrDefer sets is that of the highest level, up to `l`, that asks.
record Deferred (l level : ℕ) (e : Bool) (s r : Isr) : Type 0 where
  same_count : r.disabled_count ≡ s.disabled_count
  below : r.mask ≤ l
  holds : (r.mask ≡ 0) ⊎ (asks level e s r.mask ≡ true)
  none_above : (j : ℕ) → r.mask < j → j ≤ l → asks level e s j ≡ false

-- What IsrCheckLevel gives for either answer of its test.
abbrev checked : ℕ → Isr → Bool → Bool × Isr
checked l s b = if b then (true, record s { mask = l }) else (false, s)

check_level-checked :
    (level l : ℕ) (e : Bool) (s : Isr) → check_level level l e s ≡ checked l s (asks level e s l)
unfolding check_level hal_set_irq
check_level-checked level l e s = refl

-- One turn of the loop of IsrDefer, for what IsrCheckLevel gives.
defer_loop-turn :
    (l level : ℕ) (e : Bool) (s : Isr) (r : Bool)
    → asks level e s (suc l) ≡ r
    → defer_loop (suc l) level e s
      ≡ (if r then record s { mask = suc l } else defer_loop l level e s)
unfolding defer_loop
defer_loop-turn l level e s r h =
    ap (λ (p : Bool × Isr). elim p.0 [ true ↦ p.1 | false ↦ defer_loop l level e s ])
      (check_level-checked level (suc l) e s ∙ ap (checked (suc l) s) h)
    ∙ turn r
  where
    turn :
        (b : Bool)
        → elim (checked (suc l) s b).0 [
          | true ↦ (checked (suc l) s b).1
          | false ↦ defer_loop l level e s
        ]
          ≡ (if b then record s { mask = suc l } else defer_loop l level e s)
    turn true = refl
    turn false = refl

defer_loop-Deferred :
    (l level : ℕ) (e : Bool) (s : Isr) → Deferred l level e s (defer_loop l level e s)
unfolding defer_loop hal_set_irq
defer_loop-Deferred zero level e s = record {
  same_count = refl;
  below = omega arith;
  holds = inl refl;
  none_above = λ j a b. absurd (omega arith);
}
defer_loop-Deferred (suc l) level e s = elim (Bool-cases (asks level e s (suc l))) [
  | inl h ↦ subst (Deferred (suc l) level e s) (sym (defer_loop-turn l level e s true h)) (record {
    same_count = refl;
    below = omega arith;
    holds = inr h;
    none_above = λ j a b. absurd (omega arith);
  })
  | inr h ↦
      let is = defer_loop-Deferred l level e s in
      subst (Deferred (suc l) level e s) (sym (defer_loop-turn l level e s false h)) (record {
        same_count = is.same_count;
        below = omega (arith, is.below);
        holds = is.holds;
        none_above = λ j a b. elim (Bool-cases (ltb l j)) [
          | inl g ↦ subst (λ x. asks level e s x ≡ false) (omega (arith, ltb→lt l j g)) h
          | inr g ↦ is.none_above j a (ltb→le l j g)
        ];
      })
]

mask_not_less :
    (s t : Isr) → IsValid s → IsValid t → s.disabled_count ≡ t.disabled_count → s.mask < t.mask → ⊥
mask_not_less s t v w e h =
    let none_here : t.disabled_count t.mask ≡ 0 =
      ap (λ f. f t.mask) (sym e) ∙ v.zero_above t.mask h w.below in
    ground (arith, w.holds)

-- The mask is determined by the counts.
pub mask_unique :
    (s t : Isr) → IsValid s → IsValid t → s.disabled_count ≡ t.disabled_count → s.mask ≡ t.mask
mask_unique s t v w e = elim (Bool-cases (ltb s.mask t.mask)) [
  | inl a ↦ absurd (mask_not_less s t v w e (ltb→lt s.mask t.mask a))
  | inr a ↦ elim (Bool-cases (ltb t.mask s.mask)) [
    | inl b ↦ absurd (mask_not_less t s w v (sym e) (ltb→lt t.mask s.mask b))
    | inr b ↦ omega (arith, ltb→le s.mask t.mask a, ltb→le t.mask s.mask b)
  ]
]

module _ (s : Isr) (level : ℕ) (v : IsValid s) (b : level < level_count) where
  let_in : Deferred (level_count - 1) level false s (defer level false s)
  unfolding defer
  let_in = defer_loop-Deferred (level_count - 1) level false s

  let_out : (t : Isr) → Deferred (level_count - 1) level true t (defer level true t)
  unfolding defer
  let_out t = defer_loop-Deferred (level_count - 1) level true t

  -- A level that is disabled is not above the mask.
  pub counted-le : 0 < s.disabled_count level → level ≤ s.mask
  counted-le p = elim (Bool-cases (ltb s.mask level)) [
    | inl h ↦ absurd (omega (arith, v.zero_above level (ltb→lt s.mask level h) b))
    | inr h ↦ ltb→le s.mask level h
  ]

  -- Counting up a level that is disabled already.
  again :
      0 < s.disabled_count level → s.disabled_count level + 1 < 2 ^ 64 → IsValid (count_up level s)
  unfolding update
  again p few =
      let le = counted-le p in
      record {
        below = v.below;
        holds = ground (arith, v.holds);
        zero_above = λ l g h. let z = v.zero_above l g h in ground arith;
      }

  -- IsrDefer lets in the mask of the level that is now counted.
  first : s.disabled_count level ≡ 0 → IsValid (count_up level (defer level false s))
  unfolding update
  first z =
      let is = let_in in
      let same = λ (j : ℕ). ap (λ (f : ℕ → ℕ). f j) is.same_count in
      record {
        below = omega (arith, is.below);
        holds =
            let here = same (defer level false s).mask in
            let there = same level in ground (arith, is.holds);
        zero_above = λ j g h.
            let none = is.none_above j g (omega arith) in let here = same j in ground arith;
      }

  -- IsrDefer with nothing to let in sets the mask of the counts.
  last : (t : Isr) → IsValid (defer level true t)
  last t =
      let is = let_out t in
      let same = λ (j : ℕ). ap (λ (f : ℕ → ℕ). f j) is.same_count in
      record {
        below = omega (arith, is.below);
        holds = let here = same (defer level true t).mask in ground (arith, is.holds);
        zero_above = λ j g h.
            let none = is.none_above j g (omega arith) in let here = same j in ground arith;
      }

  fewer : 1 < s.disabled_count level → IsValid (count_down level s)
  unfolding update
  fewer p =
      let le = counted-le (omega arith) in
      record {
        below = v.below;
        holds = ground (arith, v.holds);
        zero_above = λ l g h. let z = v.zero_above l g h in ground arith;
      }

one_more :
    (f : ℕ → ℕ) (a : ℕ) → f a + 1 < 2 ^ 64 → update f a ((f a + 1) % 2 ^ 64) ≡ update f a (f a + 1)
one_more f a few = ap (update f a) (omega arith)

-- IsrDisable on a valid state leaves it valid, with one more count for the level, where the count can
-- go up.
pub disable_lem :
    (s : Isr) (level : ℕ)
    → IsValid s
    → level < level_count
    → s.disabled_count level + 1 < 2 ^ 64
    → IsValid (disable level s)
      × ((disable level s).disabled_count
          ≡ update s.disabled_count level (s.disabled_count level + 1))
unfolding disable
disable_lem s level v b few = elim (Bool-cases (s.disabled_count level == 0)) [
  | inl h ↦ rw h (
    first s level v b (eqb→eq (s.disabled_count level) 0 h),
    ap (λ (f : ℕ → ℕ). update f level ((f level + 1) % 2 ^ 64)) (let_in s level v b).same_count
        ∙ one_more s.disabled_count level few,
  )
  | inr h ↦ rw h (
    again s level v b (omega (arith, eqb→ne (s.disabled_count level) 0 h)) few,
    one_more s.disabled_count level few,
  )
]

enable-runs :
    (s : Isr) (level : ℕ) (c : Bool)
    → level ≤ s.mask
    → 0 < s.disabled_count level
    → (s.disabled_count level - 1 == 0) ≡ c
    → enable level s ≡ ok (if c then defer level true (count_down level s) else count_down level s)
unfolding enable hal_is_irq_atomic
enable-runs s level c le p h =
    let now = update_self s.disabled_count level (s.disabled_count level - 1) in
    let a : leb level s.mask ≡ true = ground arith in
    let d : ltb 0 (s.disabled_count level) ≡ true = ground arith in rw (a, d, now, h) refl

-- IsrEnable on a valid state in which the level is disabled returns without panic, to a valid state
-- with one count less for the level.
pub enable_lem :
    (s : Isr) (level : ℕ)
    → IsValid s
    → level < level_count
    → 0 < s.disabled_count level
    → (t : Isr) × (enable level s ≡ ok t)
      × IsValid t
      × (t.disabled_count ≡ update s.disabled_count level (s.disabled_count level - 1))
enable_lem s level v b p = elim (Bool-cases (s.disabled_count level - 1 == 0)) [
  | inl h ↦ (
    defer level true (count_down level s),
    enable-runs s level true (counted-le s level v b p) p h,
    last s level v b (count_down level s),
    (let_out s level v b (count_down level s)).same_count,
  )
  | inr h ↦ (
    count_down level s,
    enable-runs s level false (counted-le s level v b p) p h,
    fewer s level v b (omega (arith, eqb→ne _ 0 h)),
    refl,
  )
]
