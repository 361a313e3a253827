-- ===== src/Utils/BHam/Tests.antt =====
-- Three signals for every seven ticks.
use kernelpanic.Common.{◌+◌, ◌*◌, ◌≤◌, ◌<◌, ◌≡◌, arith}
use kernelpanic.Common.Outcome.{ok}
use kernelpanic.Utils.BHam.{BHam, init}
use kernelpanic.Utils.BHam.Slope.{ticks, ticks_lem}

ticks_lem_example :
    (b : BHam) × (init 7 3 ≡ ok b) × ((ticks 20 b).0 * 7 < 60) × (60 ≤ ((ticks 20 b).0 + 1) * 7)
ticks_lem_example = ticks_lem 7 3 20 (omega arith) (omega arith) (omega arith) (omega arith)
