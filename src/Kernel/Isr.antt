-- ===== src/Kernel/Isr.antt =====
-- kernel/isr.c: counted interrupt levels over the mask of the hardware layer.
pub mod Masks
pub mod Nesting
mod Tests
use kernelpanic.Common.{
  ℕ, zero, suc, ◌+◌, ◌-◌, ◌*◌, ◌/◌, ◌%◌, ◌^◌, ◌≤◌, ◌<◌, min, ◌≡◌, refl, sym, ap, ap₂, ◌∙◌, subst,
  ◌≢◌, ◌⊎◌, inl, inr, Bool, true, false, not, ◌&&◌, ◌||◌, Option, none, some, List, [], ◌∷◌, ◌++◌,
  append-nil, append_assoc, arith, ltb, leb, ◌==◌, if◌then◌else◌, Bool-cases, ltb→lt, ltb→le,
  eqb→eq, eqb→ne, eqb_of_ne, eqb_refl, length, get_or, set, take, drop, replicate, length-append,
  length-set, length-replicate, length-take, length-drop, take-append-drop, get_or-set_self,
  get_or-set_ne, length-snoc, prefix_of_append, All, All-append, All-front, All-map, All-zip,
  Distinct, Distinct-snoc,
}
use kernelpanic.Common.Outcome.{Outcome, ok, panic, ◌>>=◌, ◌>>◌, assert}
use kernelpanic.Common.Store.{update}

-- `IRQ_LEVEL_COUNT`; the levels are 0, IRQ_LEVEL_NONE, to 7, IRQ_LEVEL_RESET.
abbrev pub level_count : ℕ
level_count = 8

-- `IsrDisabledCount`, and the level whose mask the hardware layer has set. HalRegisterIsrHandler
-- (hal/unix_hal.c) blocks the signal of a level in the mask of that level and of all above.
pub record Isr : Type 0 where
  pub disabled_count : ℕ → ℕ
  pub mask : ℕ

-- `HalIsIrqAtomic`: every signal that the level blocks is blocked.
unfoldable pub hal_is_irq_atomic : ℕ → Isr → Bool
hal_is_irq_atomic level s = leb level s.mask

-- `HalSetIrq`
unfoldable pub hal_set_irq : ℕ → Isr → Isr
hal_set_irq level s = record s { mask = level }

-- `IsrStartup`: the counts, after HalIsrInit.
unfoldable pub startup : Isr → Isr
startup s = record s { disabled_count = λ i. 0 }

-- `IsrCheckLevel`: the value returned, and the state.
unfoldable pub check_level : (changing candidate : ℕ) → (enable : Bool) → Isr → Bool × Isr
unfolding hal_set_irq
check_level changing candidate enable s =
    if ltb 0 (s.disabled_count candidate) || (candidate == changing && not enable)
    then (true, hal_set_irq candidate s)
    else (false, s)

-- The loop of `IsrDefer`, from level `l` down, and what follows it.
unfoldable pub defer_loop : (l : ℕ) → (level : ℕ) → (enable : Bool) → Isr → Isr
unfolding hal_set_irq check_level
defer_loop zero level enable s = hal_set_irq 0 s
defer_loop (suc l) level enable s = elim (check_level level (suc l) enable s).0 [
  | true ↦ (check_level level (suc l) enable s).1
  | false ↦ defer_loop l level enable s
]

-- `IsrDefer`
unfoldable pub defer : (level : ℕ) → (enable : Bool) → Isr → Isr
unfolding defer_loop
defer level enable s = defer_loop (level_count - 1) level enable s

-- `IsrDisabledCount[level]++` and `--`, where no caller counts down from 0.
abbrev pub count_up : ℕ → Isr → Isr
count_up level s = record s {
  disabled_count = update s.disabled_count level ((s.disabled_count level + 1) % 2 ^ 64);
}

abbrev pub count_down : ℕ → Isr → Isr
count_down level s = record s {
  disabled_count = update s.disabled_count level (s.disabled_count level - 1);
}

-- `IsrDisable`
unfoldable pub disable : ℕ → Isr → Isr
unfolding defer
disable level s =
    let s' = if s.disabled_count level == 0 then defer level false s else s in count_up level s'

-- `IsrEnable`
unfoldable pub enable : ℕ → Isr → Outcome Isr
unfolding defer hal_is_irq_atomic
enable level s = do
  assert (hal_is_irq_atomic level s)
  assert (ltb 0 (s.disabled_count level))
  let s' = count_down level s
  ok (if s'.disabled_count level == 0 then defer level true s' else s')

-- `IsrIncrement`
unfoldable pub increment : ℕ → Isr → Outcome Isr
unfolding hal_is_irq_atomic
increment level s = do
  assert (hal_is_irq_atomic level s)
  assert (s.disabled_count level == 0)
  ok (count_up level s)

-- `IsrDecrement`
unfoldable pub decrement : ℕ → Isr → Outcome Isr
unfolding hal_is_irq_atomic
decrement level s = do
  assert (hal_is_irq_atomic level s)
  assert (s.disabled_count level == 1)
  ok (count_down level s)

-- The loop of `IsrIsAtomic`, from level `l` down to `level`.
unfoldable pub is_atomic_loop : (l level : ℕ) → Isr → Outcome Bool
unfolding hal_is_irq_atomic
is_atomic_loop zero level s = ok false
is_atomic_loop (suc l) level s = elim (leb level (suc l)) [
  | false ↦ ok false
  | true ↦ elim (s.disabled_count (suc l) == 0) [
    | true ↦ assert (not (hal_is_irq_atomic (suc l) s)) >> is_atomic_loop l level s
    | false ↦ assert (hal_is_irq_atomic (suc l) s) >> ok true
  ]
]

-- `IsrIsAtomic`. The level is not IRQ_LEVEL_NONE, so that the loop ends above 0.
unfoldable pub is_atomic : ℕ → Isr → Outcome Bool
unfolding is_atomic_loop
is_atomic level s = do assert (not (level == 0)); is_atomic_loop (level_count - 1) level s

-- `IsrIsEdge`
unfoldable pub is_edge : ℕ → Isr → Bool
unfolding hal_is_irq_atomic
is_edge level s = hal_is_irq_atomic level s && (s.disabled_count level == 0)

-- `IsrHandlerWrapper`, around a registered handler.
unfoldable pub handler_wrapper : (Isr → Outcome Isr) → ℕ → Isr → Outcome Isr
unfolding disable enable
handler_wrapper handler level s = do s' ← handler (disable level s); enable level s'
