-- ===== src/Kernel/Isr/Tests.antt =====
-- Runs of kernel/isr.c with IRQ_LEVEL_CRIT (1) and IRQ_LEVEL_TIMER (5) disabled.
use kernelpanic.Common.{ℕ, ◌≡◌, inr, arith, ◌==◌, if◌then◌else◌}
use kernelpanic.Common.Outcome.{ok}
use kernelpanic.Kernel.Isr.{Isr, disable, enable}
use kernelpanic.Kernel.Isr.Masks.{IsValid}
use kernelpanic.Kernel.Isr.Nesting.{enable-disable}

abbrev counts : ℕ → ℕ
counts l = if l == 1 then 2 else (if l == 5 then 1 else 0)

abbrev in_timer : Isr
in_timer = record { disabled_count = counts; mask = 5 }

in_timer-IsValid : IsValid in_timer
in_timer-IsValid = record {
  below = omega arith;
  holds = inr (omega arith);
  zero_above = λ l g h. ground arith;
}

enable-disable_example : enable 3 (disable 3 in_timer) ≡ ok in_timer
enable-disable_example = enable-disable in_timer 3 in_timer-IsValid (omega arith) (omega arith)
