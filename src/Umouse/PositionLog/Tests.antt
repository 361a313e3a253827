-- ===== src/Umouse/PositionLog/Tests.antt =====
-- A log of 16 by 16 cells over a buffer of flags that are on.
use kernelpanic.Common.{◌≡◌, refl, Bool, true, List, replicate}
use kernelpanic.Umouse.PositionLog.{get_flag, set_flag, init}

abbrev dirty : List Bool
dirty = replicate 256 true

scanned : get_flag 1 1 (set_flag 1 1 true (init 16 16 dirty)) ≡ true
unfolding get_flag set_flag init
scanned = refl
