-- ===== src/Kernel/Mutex/Exclusion.antt =====
-- A mutex is held at most once at a time.
mod Tests
use kernelpanic.Common.{
  ℕ, zero, suc, ◌+◌, ◌-◌, ◌*◌, ◌/◌, ◌%◌, ◌^◌, ◌≤◌, ◌<◌, min, ◌≡◌, refl, sym, ap, ap₂, ◌∙◌, subst,
  ◌≢◌, ◌⊎◌, inl, inr, Bool, true, false, not, ◌&&◌, ◌||◌, Option, none, some, List, [], ◌∷◌, ◌++◌,
  append-nil, append_assoc, arith, ltb, leb, ◌==◌, if◌then◌else◌, Bool-cases, ltb→lt, ltb→le,
  eqb→eq, eqb→ne, eqb_of_ne, eqb_refl, length, get_or, set, take, drop, replicate, length-append,
  length-set, length-replicate, length-take, length-drop, take-append-drop, get_or-set_self,
  get_or-set_ne, length-snoc, prefix_of_append, All, All-append, All-front, All-map, All-zip,
  Distinct, Distinct-snoc,
}
use kernelpanic.Common.Outcome.{Outcome, ok, panic}
use kernelpanic.Kernel.Mutex.{Mutex, lock, unlock, is_locked, init}

-- The next `n` calls of MutexLock: how many of them acquire the mutex, and the mutex.
unfoldable pub lock_times : ℕ → Mutex → ℕ × Mutex
unfolding lock
lock_times zero m = (0, m)
lock_times (suc n) m =
    let (won, m') = lock m in
    let (rest, m'') = lock_times n m' in ((if won then 1 else 0) + rest, m'')

lock-held : (m : Mutex) → is_locked m ≡ true → ((lock m).0 ≡ false) × (is_locked (lock m).1 ≡ true)
unfolding lock is_locked
lock-held m h = ground arith

lock-free : (m : Mutex) → is_locked m ≡ false → ((lock m).0 ≡ true) × (is_locked (lock m).1 ≡ true)
unfolding lock is_locked
lock-free m h = ground arith

nobody :
    (n : ℕ) (m : Mutex)
    → is_locked m ≡ true
    → ((lock_times n m).0 ≡ 0) × (is_locked (lock_times n m).1 ≡ true)
unfolding lock_times
nobody zero m h = (refl, h)
nobody (suc n) m h =
    let (won, after) = lock-held m h in
    let (none_won, last) = nobody n (lock m).1 after in
    (ap₂ (λ (b : Bool) (r : ℕ). (if b then 1 else 0) + r) won none_won ∙ omega arith, last)

unlock-held : (m : Mutex) → is_locked m ≡ true → unlock m ≡ ok (init false)
unfolding unlock is_locked init
unlock-held m h = ground arith

-- Of any number of calls of MutexLock on a mutex that is not locked, without an unlock between them,
-- exactly one acquires it; MutexUnlock after them passes its check and leaves the mutex unlocked.
pub lock_times_lem :
    (n : ℕ) (m : Mutex)
    → is_locked m ≡ false
    → ((lock_times (suc n) m).0 ≡ 1) × (unlock (lock_times (suc n) m).1 ≡ ok (init false))
unfolding lock_times
lock_times_lem n m h =
    let (won, after) = lock-free m h in
    let (none_won, last) = nobody n (lock m).1 after in
    (
      ap₂ (λ (b : Bool) (r : ℕ). (if b then 1 else 0) + r) won none_won ∙ omega arith,
      unlock-held (lock_times n (lock m).1).1 last,
    )
