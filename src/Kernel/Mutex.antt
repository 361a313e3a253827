-- ===== src/Kernel/Mutex.antt =====
-- kernel/mutex.c: a flag that is tested and set at once.
pub mod Exclusion
use kernelpanic.Common.{
  ℕ, zero, suc, ◌+◌, ◌-◌, ◌*◌, ◌/◌, ◌%◌, ◌^◌, ◌≤◌, ◌<◌, min, ◌≡◌, refl, sym, ap, ap₂, ◌∙◌, subst,
  ◌≢◌, ◌⊎◌, inl, inr, Bool, true, false, not, ◌&&◌, ◌||◌, Option, none, some, List, [], ◌∷◌, ◌++◌,
  append-nil, append_assoc, arith, ltb, leb, ◌==◌, if◌then◌else◌, Bool-cases, ltb→lt, ltb→le,
  eqb→eq, eqb→ne, eqb_of_ne, eqb_refl, length, get_or, set, take, drop, replicate, length-append,
  length-set, length-replicate, length-take, length-drop, take-append-drop, get_or-set_self,
  get_or-set_ne, length-snoc, prefix_of_append, All, All-append, All-front, All-map, All-zip,
  Distinct, Distinct-snoc,
}
use kernelpanic.Common.Outcome.{Outcome, ok, panic, ◌>>=◌, ◌>>◌, assert}

-- `struct MUTEX`: `Locked`.
pub record Mutex : Type 0 where
  pub locked : ℕ

-- `MutexLock`, by AtomicGetAndSet, which sets the lowest bit: whether the mutex was acquired.
unfoldable pub lock : Mutex → Bool × Mutex
lock m = (m.locked == 0, record m { locked = if m.locked % 2 == 0 then m.locked + 1 else m.locked })

-- `MutexUnlock`, by AtomicGetAndClear: the CHECK fails if the mutex was not locked.
unfoldable pub unlock : Mutex → Outcome Mutex
unlock m = do assert (not (m.locked == 0)); ok (record m { locked = 0 })

-- `MutexIsLocked`
unfoldable pub is_locked : Mutex → Bool
is_locked m = not (m.locked == 0)

-- `MutexInit`
unfoldable pub init : Bool → Mutex
init initial_state = record { locked = if initial_state then 1 else 0 }
