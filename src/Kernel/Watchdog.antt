-- ===== src/Kernel/Watchdog.antt =====
-- kernel/watchdog.c, with the macros of utils/flags.h on a FLAG as the sequence of its 32 bits. The
-- times that a debug kernel keeps, which nothing reads, are left out.
pub mod Notify
mod Tests
use kernelpanic.Common.{
  ℕ, zero, suc, ◌+◌, ◌-◌, ◌*◌, ◌/◌, ◌%◌, ◌^◌, ◌≤◌, ◌<◌, min, ◌≡◌, refl, sym, ap, ap₂, ◌∙◌, subst,
  ◌≢◌, ◌⊎◌, inl, inr, Bool, true, false, not, ◌&&◌, ◌||◌, Option, none, some, List, [], ◌∷◌, ◌++◌,
  append-nil, append_assoc, arith, ltb, leb, ◌==◌, if◌then◌else◌, Bool-cases, ltb→lt, ltb→le,
  eqb→eq, eqb→ne, eqb_of_ne, eqb_refl, length, get_or, set, take, drop, replicate, length-append,
  length-set, length-replicate, length-take, length-drop, take-append-drop, get_or-set_self,
  get_or-set_ne, length-snoc, prefix_of_append, All, All-append, All-front, All-map, All-zip,
  Distinct, Distinct-snoc,
}
use kernelpanic.Common.Outcome.{Outcome, ok, panic, ◌>>=◌, ◌>>◌, assert}
use kernelpanic.Kernel.Isr
use kernelpanic.Kernel.Isr.{Isr}

-- `sizeof(FLAG)*8`, and `FLAG_MAX_INDEX`
abbrev pub flag_bits : ℕ
flag_bits = 32

abbrev pub flag_max_index : ℕ
flag_max_index = flag_bits - 1

-- `FLAG_NONE`
abbrev pub flag_none : List Bool
flag_none = replicate flag_bits false

-- `FlagGetBit`
abbrev pub flag_get_bit : ℕ → List Bool
flag_get_bit index = set flag_none index true

-- `FlagOn`: the bitwise or.
unfoldable pub flag_on : (field flag : List Bool) → List Bool
flag_on [] flag = []
flag_on (a ∷ field) [] = a ∷ field
flag_on (a ∷ field) (b ∷ flag) = (a || b) ∷ flag_on field flag

-- `FlagGet`, as a test: the bitwise and is not 0.
unfoldable pub flag_get : (field flag : List Bool) → Bool
flag_get [] flag = false
flag_get (a ∷ field) [] = false
flag_get (a ∷ field) (b ∷ flag) = (a && b) || flag_get field flag

-- `FlagsEqual`
abbrev pub bit_equal : Bool → Bool → Bool
bit_equal true b = b
bit_equal false b = not b

unfoldable pub flags_equal : (field_a field_b : List Bool) → Bool
flags_equal [] [] = true
flags_equal [] (b ∷ field_b) = false
flags_equal (a ∷ field_a) [] = false
flags_equal (a ∷ field_a) (b ∷ field_b) = bit_equal a b && flags_equal field_a field_b

-- `IRQ_LEVEL_WATCHDOG`
abbrev pub watchdog_level : ℕ
watchdog_level = 6

-- WatchdogDesiredMask, WatchdogCurMask, Timeout, and the interrupt levels.
pub record Watchdog : Type 0 where
  pub desired_mask : List Bool
  pub cur_mask : List Bool
  pub timeout : ℕ
  pub isr : Isr

-- `WatchdogEnable`, whose last act pets the watchdog.
unfoldable pub enable : (timeout : ℕ) → Watchdog → Watchdog
enable timeout w = record w { timeout = timeout; desired_mask = flag_none; cur_mask = flag_none }

-- `WatchdogNotify`: the state, and whether HalPetWatchdog was called.
unfoldable pub notify : (index : ℕ) → Watchdog → Outcome (Watchdog × Bool)
unfolding flag_get flag_on flags_equal Isr.disable Isr.enable
notify index w = do
  assert (leb index flag_max_index)
  let flag = flag_get_bit index
  let isr = Isr.disable watchdog_level w.isr
  assert (flag_get flag w.desired_mask)
  let cur = flag_on w.cur_mask flag
  let pet = flags_equal cur w.desired_mask
  isr' ← Isr.enable watchdog_level isr
  ok (record w { cur_mask = if pet then flag_none else cur; isr = isr' }, pet)

-- `WatchdogAddFlag`
unfoldable pub add_flag : (index : ℕ) → Watchdog → Outcome Watchdog
unfolding flag_on Isr.disable Isr.enable
add_flag index w = do
  assert (leb index flag_max_index)
  let flag = flag_get_bit index
  let isr = Isr.disable watchdog_level w.isr
  isr' ← Isr.enable watchdog_level isr
  ok (record w { desired_mask = flag_on w.desired_mask flag; isr = isr' })

-- `WatchdogInterrupt`
abbrev pub watchdog_interrupt : Watchdog → Outcome Watchdog
watchdog_interrupt w = panic
