-- ===== src/Kernel/Mutex/Exclusion/Tests.antt =====
-- Three threads lock a mutex.
use kernelpanic.Common.{◌≡◌, refl, false}
use kernelpanic.Common.Outcome.{ok}
use kernelpanic.Kernel.Mutex.{unlock, is_locked, init}
use kernelpanic.Kernel.Mutex.Exclusion.{lock_times}

unlocked : is_locked (init false) ≡ false
unfolding is_locked init
unlocked = refl

first_locks :
    ((lock_times 3 (init false)).0 ≡ 1) × (unlock (lock_times 3 (init false)).1 ≡ ok (init false))
unfolding lock_times init unlock
first_locks = (refl, refl)
