-- ===== src/Umouse/FloodFill.antt =====
-- umouse/floodfill.c and umouse/floodfill.h: the distance of every cell of a maze from its
-- destinations. A cell's index is below the size of the buffers, so its arithmetic does not wrap.
pub mod Weight
pub mod Grid
pub mod Invariant
pub mod Turns
pub mod Distance
pub mod Clear
pub mod Start
pub mod Shortest
mod Tests
use kernelpanic.Common.{
  ℕ, zero, suc, ◌+◌, ◌-◌, ◌*◌, ◌/◌, ◌%◌, ◌^◌, ◌≤◌, ◌<◌, min, ◌≡◌, refl, sym, ap, ap₂, ◌∙◌, subst,
  ◌≢◌, ◌⊎◌, inl, inr, Bool, true, false, not, ◌&&◌, ◌||◌, Option, none, some, List, [], ◌∷◌, ◌++◌,
  append-nil, append_assoc, arith, ltb, leb, ◌==◌, if◌then◌else◌, Bool-cases, ltb→lt, ltb→le,
  eqb→eq, eqb→ne, eqb_of_ne, eqb_refl, length, get_or, set, take, drop, replicate, length-append,
  length-set, length-replicate, length-take, length-drop, take-append-drop, get_or-set_self,
  get_or-set_ne, length-snoc, prefix_of_append, All, All-append, All-front, All-map, All-zip,
  Distinct, Distinct-snoc,
}
use kernelpanic.Utils.Bitmap
use kernelpanic.Umouse.Map
use kernelpanic.Umouse.Map.{Map, Direction, north, east, south, west}

-- `struct FLOOD_MAP`, with the buffers that its pointers lead to. A value is an unsigned char.
pub record FloodMap : Type 0 where
  pub width : ℕ
  pub height : ℕ
  pub flood_map : List ℕ
  pub event_map : List Bool

-- `FLOOD_MAP_ITEMS_NEEDED`
abbrev pub items_needed : (width height : ℕ) → ℕ
items_needed width height = width * height

-- `FloodFillGetIndex`, and the macros for the way back.
abbrev pub index : (x y : ℕ) → FloodMap → ℕ
index x y s = y * s.width + x

abbrev pub index_x : ℕ → FloodMap → ℕ
index_x i s = i % s.height

abbrev pub index_y : ℕ → FloodMap → ℕ
index_y i s = i / s.width

-- The guard `x >= map->Width || y >= map->Height`.
abbrev pub is_outside : (x y : ℕ) → FloodMap → Bool
is_outside x y s = leb s.width x || leb s.height y

-- `FloodFillSet`
unfoldable pub set_value : (x y value : ℕ) → FloodMap → FloodMap
set_value x y value s =
    if is_outside x y s then s else record s { flood_map = set s.flood_map (index x y s) value }

-- `FloodNewEvent`
unfoldable pub new_event : (x y : ℕ) → FloodMap → FloodMap
new_event x y s =
    if is_outside x y s then s else record s { event_map = Bitmap.on s.event_map (index x y s) }

-- `FloodGetEvent`: the cell, whose flag is turned off; none where the code stores -1 in both.
unfoldable pub get_event : FloodMap → Option (ℕ × ℕ × FloodMap)
unfolding Bitmap.get_first_flag
get_event s =
    let i = Bitmap.get_first_flag s.event_map (items_needed s.width s.height) in
    elim (i == Bitmap.minus_one) [
      | true ↦ none
      | false ↦ some (index_x i s, index_y i s, record s { event_map = Bitmap.off s.event_map i })
    ]

-- `FloodFillGet`, whose return value is cut to an unsigned char.
unfoldable pub get : (x y : ℕ) → FloodMap → ℕ
get x y s = if is_outside x y s then 255 else get_or s.flood_map (index x y s) 255 % 2 ^ 8

-- `FloodFillInit`
unfoldable pub init : (width height : ℕ) → (map_buff : List ℕ) → (event_buff : List Bool) → FloodMap
init width height map_buff event_buff = record {
  width = width;
  height = height;
  flood_map = map_buff;
  event_map = event_buff;
}

-- The cell that FloodFillCalculate looks at in a direction; an INDEX wraps.
abbrev pub beside_x : ℕ → Direction → ℕ
beside_x x north = x
beside_x x east = (x + 1) % 2 ^ 64
beside_x x south = x
beside_x x west = (x + 2 ^ 64 - 1) % 2 ^ 64

abbrev pub beside_y : ℕ → Direction → ℕ
beside_y y north = (y + 1) % 2 ^ 64
beside_y y east = y
beside_y y south = (y + 2 ^ 64 - 1) % 2 ^ 64
beside_y y west = y

-- One of the four tests of `FloodFillCalculate`, and what it guards.
unfoldable pub look : Map → (x y cur_value : ℕ) → Direction → FloodMap → FloodMap
unfolding get set_value new_event Map.get_wall
look m x y cur_value dir s =
    let x' = beside_x x dir in
    let y' = beside_y y dir in
    if not (Map.get_wall x y dir m) && ltb cur_value (get x' y' s)
    then new_event x' y' (set_value x' y' ((cur_value + 1) % 2 ^ 8) s)
    else s

-- The body of the loop of `FloodFillCalculate`, for the event at a cell.
unfoldable pub spread : Map → (x y : ℕ) → FloodMap → FloodMap
unfolding look
spread m x y s =
    let cur_value = get x y s in
    look m x y cur_value south
      (look m x y cur_value north (look m x y cur_value west (look m x y cur_value east s)))

-- `FloodFillCalculate`, on fuel.
unfoldable pub calculate : (fuel : ℕ) → Map → FloodMap → Option FloodMap
unfolding get_event spread
calculate zero m s = none
calculate (suc fuel) m s = elim (get_event s) [
  | none ↦ some s
  | some (x, y, s') ↦ calculate fuel m (spread m x y s')
]

-- `FloodFillClear`: its two loops, with the turns that are left.
unfoldable pub clear_rows : (left x y : ℕ) → FloodMap → FloodMap
unfolding set_value
clear_rows zero x y s = s
clear_rows (suc left) x y s = clear_rows left x (y + 1) (set_value x y 255 s)

unfoldable pub clear_columns : (left x : ℕ) → FloodMap → FloodMap
unfolding clear_rows
clear_columns zero x s = s
clear_columns (suc left) x s = clear_columns left (x + 1) (clear_rows s.height x 0 s)

unfoldable pub clear : FloodMap → FloodMap
unfolding clear_columns Bitmap.clear
clear s =
    let s' = clear_columns s.width 0 s in
    record s' { event_map = Bitmap.clear s'.event_map (s'.width * s'.height) }

-- `FloodFillSetDestination`
unfoldable pub set_destination : (x y : ℕ) → FloodMap → FloodMap
unfolding set_value new_event
set_destination x y s = new_event x y (set_value x y 0 s)
