-- ===== src/Umouse/PositionLog.antt =====
-- umouse/positionlog.c: which cells of the maze were scanned. A write outside of the buffer changes
-- nothing here.
mod Tests
use kernelpanic.Common.{
  ℕ, ◌+◌, ◌-◌, ◌*◌, ◌/◌, ◌%◌, ◌^◌, min, sym, ap, ap₂, ◌∙◌, subst, ◌≢◌, ◌⊎◌, inl, inr, Bool, true,
  false, not, ◌&&◌, ◌||◌, Option, none, some, List, ◌++◌, append-nil, append_assoc, ltb, leb, ◌==◌,
  if◌then◌else◌, Bool-cases, ltb→lt, ltb→le, eqb→eq, eqb→ne, eqb_of_ne, eqb_refl, length, set, take,
  drop, replicate, length-append, length-set, length-replicate, length-take, length-drop,
  take-append-drop, get_or-set_self, get_or-set_ne, length-snoc, prefix_of_append, All, All-append,
  All-front, All-map, All-zip, Distinct, Distinct-snoc,
}
use kernelpanic.Utils.Bitmap

-- `struct SCAN_LOG`, with the buffer that Flags points to.
pub record ScanLog : Type 0 where
  pub width : ℕ
  pub height : ℕ
  pub flags : List Bool

-- `SCAN_LOG_SIZE`, whose product wraps.
abbrev pub scan_log_size : (width height : ℕ) → ℕ
scan_log_size width height = Bitmap.size ((width * height) % 2 ^ 64)

-- `XY_TO_INDEX`, which wraps too.
abbrev pub xy_to_index : (x y : ℕ) → ScanLog → ℕ
xy_to_index x y log = (y * log.width + x) % 2 ^ 64

-- `ScanLogInit`
unfoldable pub init : (width height : ℕ) → (buff : List Bool) → ScanLog
unfolding Bitmap.clear
init width height buff = record {
  width = width;
  height = height;
  flags = Bitmap.clear buff (scan_log_size width height);
}

-- `ScanLogSet`
unfoldable pub set_flag : (x y : ℕ) → (flag_state : Bool) → ScanLog → ScanLog
set_flag x y flag_state log =
    if flag_state
    then record log { flags = Bitmap.on log.flags (xy_to_index x y log) }
    else record log { flags = Bitmap.off log.flags (xy_to_index x y log) }

-- `ScanLogGet`
unfoldable pub get_flag : (x y : ℕ) → ScanLog → Bool
get_flag x y log =
    if leb log.width x || leb log.height y
    then false
    else Bitmap.get log.flags (xy_to_index x y log)
