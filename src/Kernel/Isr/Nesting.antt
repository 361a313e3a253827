-- ===== src/Kernel/Isr/Nesting.antt =====
-- Pairs of IsrDisable and IsrEnable nest, and the sanity checks of kernel/isr.c tell the mask.
use kernelpanic.Common.{
  ℕ, zero, suc, ◌+◌, ◌-◌, ◌≤◌, ◌<◌, ◌≡◌, ap, ap₂, ◌∙◌, inl, inr, arith, leb, ◌==◌, Bool-cases,
  eqb→eq, eqb→ne, eqb_of_ne, ◌^◌,
}
use mathlib.Core.Path.{fun_ext}
use kernelpanic.Common.Outcome.{Outcome, ok}
use kernelpanic.Common.Store.{update, update_self}
use kernelpanic.Kernel.Isr.{
  Isr, level_count, hal_is_irq_atomic, disable, enable, is_atomic_loop, is_atomic, handler_wrapper,
}
use kernelpanic.Kernel.Isr.Masks.{IsValid, mask_unique, disable_lem, enable_lem, counted-le}

-- One more and one less leave a count as it was.
count_back : (f : ℕ → ℕ) (a : ℕ) → update (update f a (f a + 1)) a (update f a (f a + 1) a - 1) ≡ f
unfolding update
count_back f a = fun_ext (λ j. ground arith)

same_state : (s t : Isr) → IsValid s → IsValid t → t.disabled_count ≡ s.disabled_count → t ≡ s
same_state s t v w e =
    ap₂ (λ (f : ℕ → ℕ) (m : ℕ). record { disabled_count = f; mask = m }) e (mask_unique t s w v e)

-- On a valid state IsrEnable after IsrDisable of the same level gives the state back, the mask
-- included, where the count of the level can go up.
pub enable-disable :
    (s : Isr) (level : ℕ)
    → IsValid s
    → level < level_count
    → s.disabled_count level + 1 < 2 ^ 64
    → enable level (disable level s) ≡ ok s
enable-disable s level v b few =
    let (w, up) = disable_lem s level v b few in
    let here : (disable level s).disabled_count level ≡ s.disabled_count level + 1 =
      ap (λ (f : ℕ → ℕ). f level) up ∙ update_self _ level _ in
    let (t, runs, vt, down) = enable_lem (disable level s) level w b (omega arith) in
    let back : t.disabled_count ≡ s.disabled_count =
      down
      ∙ ap (λ (f : ℕ → ℕ). update f level (f level - 1)) up
      ∙ count_back s.disabled_count level in
    runs ∙ ap ok (same_state s t v vt back)

-- An interrupt handler that leaves the state as it finds it is transparent to what it interrupts,
-- where the count of its level can go up.
pub handler_wrapper_lem :
    (handler : Isr → Outcome Isr) (s : Isr) (level : ℕ)
    → IsValid s
    → level < level_count
    → s.disabled_count level + 1 < 2 ^ 64
    → handler (disable level s) ≡ ok (disable level s)
    → handler_wrapper handler level s ≡ ok s
unfolding handler_wrapper
handler_wrapper_lem handler s level v b few h = rw h (enable-disable s level v b few)

-- A level with count 0 is not the mask's.
not_here :
    (l : ℕ) (s : Isr) → IsValid s → s.mask ≤ suc l → s.disabled_count (suc l) ≡ 0 → s.mask ≤ l
not_here l s v h z = elim (Bool-cases (s.mask == suc l)) [
  | inl e ↦
      let at : s.disabled_count s.mask ≡ 0 = ap s.disabled_count (eqb→eq s.mask (suc l) e) ∙ z in
      ground (arith, v.holds)
  | inr e ↦ omega (arith, eqb→ne s.mask (suc l) e)
]

-- The loop of IsrIsAtomic, from any level that is not below the mask's.
loop-runs :
    (l level : ℕ) (s : Isr)
    → IsValid s
    → 0 < level
    → l < level_count
    → s.mask ≤ l
    → is_atomic_loop l level s ≡ ok (leb level s.mask)
unfolding is_atomic_loop hal_is_irq_atomic
loop-runs zero level s v p b h = ground arith
loop-runs (suc l) level s v p b h = elim (Bool-cases (s.disabled_count (suc l) == 0)) [
  | inl e ↦
      let zero_here = eqb→eq (s.disabled_count (suc l)) 0 e in
      let less : s.mask ≤ l = not_here l s v h zero_here in
      let ih = loop-runs l level s v p (omega arith) less in ground arith
  | inr e ↦
      let le : suc l ≤ s.mask =
        counted-le s (suc l) v b (omega (arith, eqb→ne (s.disabled_count (suc l)) 0 e)) in
      ground arith
]

-- On a valid state IsrIsAtomic fails none of its checks, and tells exactly whether the mask blocks
-- the level.
pub is_atomic_lem :
    (s : Isr) (level : ℕ) → IsValid s → 0 < level → is_atomic level s ≡ ok (leb level s.mask)
unfolding is_atomic
is_atomic_lem s level v p =
    rw (eqb_of_ne level 0 (omega arith))
      (loop-runs (level_count - 1) level s v p (omega arith) (omega (arith, v.below)))
