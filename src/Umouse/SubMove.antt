-- ===== src/Umouse/SubMove.antt =====
-- umouse/submove.c: the moves of half a cell that the mouse is driven by, when each is legal, and
-- which is best. Coordinates count half cells: the middle of a cell has two odd ones, a wall one,
-- a peg none.
pub mod Best
mod Tests
pub mod Places
pub mod Choice
use kernelpanic.Common.{
  ℕ, zero, suc, ◌+◌, ◌-◌, ◌*◌, ◌/◌, ◌%◌, ◌^◌, ◌≤◌, ◌<◌, min, ◌≡◌, refl, sym, ap, ap₂, ◌∙◌, subst,
  ◌≢◌, ◌⊎◌, inl, inr, Bool, true, false, not, ◌&&◌, ◌||◌, Option, none, some, List, [], ◌∷◌, ◌++◌,
  append-nil, append_assoc, arith, ltb, leb, ◌==◌, if◌then◌else◌, Bool-cases, ltb→lt, ltb→le,
  eqb→eq, eqb→ne, eqb_of_ne, eqb_refl, length, get_or, set, take, drop, replicate, length-append,
  length-set, length-replicate, length-take, length-drop, take-append-drop, get_or-set_self,
  get_or-set_ne, length-snoc, prefix_of_append, All, All-append, All-front, All-map, All-zip,
  Distinct, Distinct-snoc,
}
use kernelpanic.Common.Outcome.{Outcome, ok, panic, ◌>>=◌, ◌>>◌}
use kernelpanic.Umouse.Map
use kernelpanic.Umouse.Map.{Map, Direction, north, east, south, west}
use kernelpanic.Umouse.FloodFill
use kernelpanic.Umouse.FloodFill.{FloodMap}
use kernelpanic.Umouse.PositionLog
use kernelpanic.Umouse.PositionLog.{ScanLog}

-- `enum ANGLE`
pub data Angle : Type 0 where
  straight right back left : Angle

-- `enum SUB_MOVE`
pub data Move : Type 0 where
  done start forward stop : Move
  turn_right turn_left turn_around : Move
  integrate_right integrate_left : Move

-- Where the mouse is, its heading, and whether it moves: the locals of the callers.
pub record Mouse : Type 0 where
  pub x : ℕ
  pub y : ℕ
  pub dir : Direction
  pub moving : Bool

-- What the mouse knows of the maze.
pub record Maze : Type 0 where
  pub map : Map
  pub scan : ScanLog
  pub flood : FloodMap

-- `SubMoveMovingEndState`
abbrev pub moving_end_state : Move → Bool
moving_end_state done = false
moving_end_state start = true
moving_end_state forward = true
moving_end_state stop = false
moving_end_state turn_right = false
moving_end_state turn_left = false
moving_end_state turn_around = false
moving_end_state integrate_right = true
moving_end_state integrate_left = true

-- `SubMovesRotates`
abbrev pub rotates : Move → Bool
rotates done = false
rotates start = false
rotates forward = false
rotates stop = false
rotates turn_right = true
rotates turn_left = true
rotates turn_around = true
rotates integrate_right = true
rotates integrate_left = true

-- `SubMoveTranslate`, the two coordinates. An INDEX wraps.
abbrev pub translate_x : (x : ℕ) → Direction → (dist : ℕ) → ℕ
translate_x x north dist = x
translate_x x south dist = x
translate_x x east dist = (x + dist) % 2 ^ 64
translate_x x west dist = (x + 2 ^ 64 - dist) % 2 ^ 64

abbrev pub translate_y : (y : ℕ) → Direction → (dist : ℕ) → ℕ
translate_y y north dist = (y + dist) % 2 ^ 64
translate_y y south dist = (y + 2 ^ 64 - dist) % 2 ^ 64
translate_y y east dist = y
translate_y y west dist = y

abbrev pub translate : Mouse → (dist : ℕ) → Mouse
translate s dist = record s { x = translate_x s.x s.dir dist; y = translate_y s.y s.dir dist }

-- `TURN` of umouse/compass.h, with the numbers of the two enumerations.
abbrev dir_number : Direction → ℕ
dir_number north = 0
dir_number east = 1
dir_number south = 2
dir_number west = 3

abbrev angle_number : Angle → ℕ
angle_number straight = 0
angle_number right = 1
angle_number back = 2
angle_number left = 3

abbrev dir_of : ℕ → Direction
dir_of zero = north
dir_of (suc zero) = east
dir_of (suc (suc zero)) = south
dir_of (suc (suc (suc n))) = west

unfoldable pub turn : Direction → Angle → Direction
turn dir angle = dir_of ((dir_number dir + angle_number angle) % 4)

-- `SubMoveRotate`
abbrev pub rotate : Mouse → Angle → Mouse
rotate s angle = record s { dir = turn s.dir angle }

-- `SubMoveApply`
unfoldable pub apply : Mouse → Move → Mouse
unfolding turn
apply s0 move =
    let s = record s0 { moving = moving_end_state move } in
    elim move [
      | done ↦ s
      | start ↦ translate s 1
      | stop ↦ translate s 1
      | forward ↦ translate s 1
      | turn_right ↦ rotate s right
      | turn_left ↦ rotate s left
      | turn_around ↦ rotate s back
      | integrate_right ↦ translate (rotate (translate s 1) right) 1
      | integrate_left ↦ translate (rotate (translate s 1) left) 1
    ]

-- `IS_CENTERED`, `IS_EDGED`, `IS_PEGED`
abbrev pub is_centered : (x y : ℕ) → Bool
is_centered x y = (x % 2 == 1) && (y % 2 == 1)

abbrev pub is_edged : (x y : ℕ) → Bool
is_edged x y = (x % 2 == 0) || (y % 2 == 0)

abbrev pub is_peged : (x y : ℕ) → Bool
is_peged x y = (x % 2 == 0) && (y % 2 == 0)

-- `GetCell`
unfoldable pub get_cell : (x y : ℕ) → Direction → ℕ × ℕ
get_cell x y dir =
    if is_centered x y then (x / 2, y / 2) else (translate_x x dir 1 / 2, translate_y y dir 1 / 2)

-- `MoveStartCentered`
abbrev pub move_start_centered : (x y : ℕ) → Move → Bool
move_start_centered x y start = is_centered x y
move_start_centered x y turn_right = is_centered x y
move_start_centered x y turn_left = is_centered x y
move_start_centered x y turn_around = is_centered x y
move_start_centered x y _ = true

-- `MoveStartEdge`
abbrev pub move_start_edge : (x y : ℕ) → Move → Bool
move_start_edge x y stop = is_edged x y
move_start_edge x y integrate_right = is_edged x y
move_start_edge x y integrate_left = is_edged x y
move_start_edge x y _ = true

-- `MoveStartMoving`
abbrev pub move_start_moving : (moving : Bool) → Move → Bool
move_start_moving moving start = not moving
move_start_moving moving turn_right = not moving
move_start_moving moving turn_left = not moving
move_start_moving moving turn_around = not moving
move_start_moving moving stop = moving
move_start_moving moving forward = moving
move_start_moving moving integrate_right = moving
move_start_moving moving integrate_left = moving
move_start_moving moving done = true

-- `MoveStartStraightAway`
unfoldable pub move_start_straight_away : (x y : ℕ) → Direction → Move → FloodMap → Bool
unfolding get_cell FloodFill.get
move_start_straight_away start_x start_y dir forward flood =
    let (x, y) = get_cell start_x start_y dir in
    ltb (FloodFill.get (translate_x x dir 1) (translate_y y dir 1) flood) (FloodFill.get x y flood)
move_start_straight_away start_x start_y dir _ flood = true

-- `MoveEndOnWall`: what the moves that translate share.
unfoldable pub end_on_open_wall : (x y : ℕ) → Map → Bool
unfolding Map.get_wall
end_on_open_wall x y map =
    if (x % 2 == 1) && (y % 2 == 1)
    then true
    else if x % 2 == 1
    then not (Map.get_wall (x / 2) (y / 2) south map)
    else if y % 2 == 1
    then not (Map.get_wall (x / 2) (y / 2) west map)
    else false

abbrev pub move_end_on_wall : (x y : ℕ) → Map → Move → Bool
move_end_on_wall x y map start = end_on_open_wall x y map
move_end_on_wall x y map stop = end_on_open_wall x y map
move_end_on_wall x y map forward = end_on_open_wall x y map
move_end_on_wall x y map integrate_right = end_on_open_wall x y map
move_end_on_wall x y map integrate_left = end_on_open_wall x y map
move_end_on_wall x y map _ = true

-- `MoveEndOnPeg`
abbrev pub move_end_on_peg : (x y : ℕ) → Bool
move_end_on_peg x y = if (x % 2 == 0) && (y % 2 == 0) then false else true

-- `MoveEndInScanned`
unfoldable pub move_end_in_scanned : (x y : ℕ) → Direction → ScanLog → Bool
unfolding get_cell PositionLog.get_flag
move_end_in_scanned x y dir scan =
    let (x', y') = get_cell x y dir in PositionLog.get_flag x' y' scan

-- `MoveNextScanned`: what three moves share.
unfoldable pub facing_scanned : (x y : ℕ) → Direction → ScanLog → Bool
unfolding get_cell PositionLog.get_flag
facing_scanned x y dir scan =
    let (x', y') = get_cell (translate_x x dir 1) (translate_y y dir 1) dir in
    PositionLog.get_flag x' y' scan

abbrev pub move_next_scanned : (x y : ℕ) → Direction → Move → ScanLog → Bool
move_next_scanned x y dir forward scan = facing_scanned x y dir scan
move_next_scanned x y dir integrate_right scan = facing_scanned x y dir scan
move_next_scanned x y dir integrate_left scan = facing_scanned x y dir scan
move_next_scanned x y dir _ scan = true

-- `MoveNextLessFloodFill`: the comparison, and the moves that it is for.
unfoldable pub facing_less : (x y : ℕ) → Direction → FloodMap → Bool
unfolding FloodFill.get
facing_less x y dir flood =
    let cur_fill = FloodFill.get (x / 2) (y / 2) flood in
    let facing_fill = FloodFill.get (translate_x x dir 2 / 2) (translate_y y dir 2 / 2) flood in
    ltb facing_fill cur_fill

abbrev pub move_next_less_flood_fill : (x y : ℕ) → Direction → Move → FloodMap → Bool
move_next_less_flood_fill x y dir turn_right flood = facing_less x y dir flood
move_next_less_flood_fill x y dir turn_left flood = facing_less x y dir flood
move_next_less_flood_fill x y dir turn_around flood = facing_less x y dir flood
move_next_less_flood_fill x y dir _ flood = true

-- `MoveEndFacingWall`: the test, and the moves that it is not for.
unfoldable pub facing_open : (x y : ℕ) → Direction → Map → Bool
unfolding Map.get_wall
facing_open x y dir map =
    if not (is_centered x y) then true else not (Map.get_wall (x / 2) (y / 2) dir map)

abbrev pub move_end_facing_wall : (x y : ℕ) → Direction → Map → Move → Bool
move_end_facing_wall x y dir map done = true
move_end_facing_wall x y dir map start = true
move_end_facing_wall x y dir map stop = true
move_end_facing_wall x y dir map _ = facing_open x y dir map

-- `SubMoveLegal`
unfoldable pub legal : Mouse → Move → Maze → Bool
unfolding apply move_start_straight_away end_on_open_wall move_end_in_scanned facing_scanned
    facing_less facing_open
legal s move m =
    if not (move_start_centered s.x s.y move)
    then false
    else if not (move_start_edge s.x s.y move)
    then false
    else if not (move_start_moving s.moving move)
    then false
    else if not (move_start_straight_away s.x s.y s.dir move m.flood)
    then false
    else (let t = apply s move in
        if not (move_end_on_wall t.x t.y m.map move)
        then false
        else if not (move_end_on_peg t.x t.y)
        then false
        else if not (move_end_in_scanned t.x t.y t.dir m.scan)
        then false
        else if not (move_end_facing_wall t.x t.y t.dir m.map move)
        then false
        else if not (move_next_scanned t.x t.y t.dir move m.scan)
        then false
        else if not (move_next_less_flood_fill t.x t.y t.dir move m.flood)
        then false
        else true)
