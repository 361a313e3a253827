-- ===== src/Utils/Counter/Sums/Tests.antt =====
-- A counter that wraps.
use kernelpanic.Common.{◌-◌, ◌^◌, ◌≡◌, [], ◌∷◌, refl}
use kernelpanic.Utils.Counter
use kernelpanic.Utils.Counter.{Counter, context_init, check}
use kernelpanic.Utils.Counter.Sums.{add_all}

abbrev full : Counter
full = record { val = 2 ^ 64 - 2 }

wraps : (check (add_all (3 ∷ 4 ∷ []) full) (context_init full)).0 ≡ 7
unfolding check Counter.add context_init
wraps = refl
