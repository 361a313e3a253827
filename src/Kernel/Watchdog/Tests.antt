-- ===== src/Kernel/Watchdog/Tests.antt =====
-- A watchdog that wants the flags 0 and 3.
use kernelpanic.Common.{
  ℕ, zero, suc, ◌≡◌, refl, ◌≢◌, ◌⊎◌, inl, Bool, true, false, ◌∷◌, arith, get_or, replicate,
}
use kernelpanic.Common.Outcome.{Outcome, ok, panic}
use kernelpanic.Common.Store.{update}
use kernelpanic.Kernel.Isr
use kernelpanic.Kernel.Isr.Masks
use kernelpanic.Kernel.Watchdog.{Watchdog, flag_none, notify}
use kernelpanic.Kernel.Watchdog.Notify.{IsValid, Pets, Notes, notify_lem}

abbrev quiet : Isr.Isr
quiet = record { disabled_count = λ l. 0; mask = 0 }

quiet-IsValid : Masks.IsValid quiet
quiet-IsValid = record { below = omega arith; holds = inl refl; zero_above = λ l g h. refl }

abbrev two_players : Watchdog
two_players = record {
  desired_mask = true ∷ false ∷ false ∷ true ∷ replicate 28 false;
  cur_mask = flag_none;
  timeout = 1;
  isr = quiet;
}

none_on : (n j : ℕ) → get_or (replicate n false) j false ≢ true
none_on zero j h = cc
none_on (suc n) zero h = cc
none_on (suc n) (suc j) h = none_on n j h

two_players-IsValid : IsValid two_players
two_players-IsValid = record {
  desired_bits = refl;
  cur_bits = refl;
  within = λ j on. absurd (none_on 32 j on);
  isr = quiet-IsValid;
  few = omega arith;
}

notify_lem_example : Pets 3 two_players ⊎ Notes 3 two_players
notify_lem_example = notify_lem 3 two_players two_players-IsValid (omega arith) refl

abbrev petted : Outcome (Watchdog × Bool) → Bool
petted panic = false
petted (ok (w, pet)) = pet

first_only : petted (notify 3 two_players) ≡ false
unfolding notify update
first_only = refl

both_ran : petted (notify 3 (record two_players { cur_mask = true ∷ replicate 31 false })) ≡ true
unfolding notify update
both_ran = refl

not_wanted : notify 1 two_players ≡ panic
unfolding notify
not_wanted = refl
