-- ===== src/Umouse/Map.antt =====
-- umouse/map.c: the walls of a maze. The index of a bit in the buffer is taken not to wrap.
pub mod Walls
pub mod Layout
mod Tests
use kernelpanic.Common.{
  ℕ, zero, suc, ◌+◌, ◌-◌, ◌*◌, ◌/◌, ◌%◌, ◌^◌, ◌≤◌, ◌<◌, min, ◌≡◌, refl, sym, ap, ap₂, ◌∙◌, subst,
  ◌≢◌, ◌⊎◌, inl, inr, Bool, true, false, not, ◌&&◌, ◌||◌, Option, none, some, List, [], ◌∷◌, ◌++◌,
  append-nil, append_assoc, arith, ltb, leb, ◌==◌, if◌then◌else◌, Bool-cases, ltb→lt, ltb→le,
  eqb→eq, eqb→ne, eqb_of_ne, eqb_refl, length, get_or, set, take, drop, replicate, length-append,
  length-set, length-replicate, length-take, length-drop, take-append-drop, get_or-set_self,
  get_or-set_ne, length-snoc, prefix_of_append, All, All-append, All-front, All-map, All-zip,
  Distinct, Distinct-snoc,
}
use kernelpanic.Utils.Bitmap

-- `enum DIRECTION`
pub data Direction : Type 0 where
  north east south west : Direction

-- `struct MAP`, with the buffer that VWalls and HWalls point into: VWalls at its start and HWalls at
-- the word `h_walls`.
pub record Map : Type 0 where
  pub wall_buff : List Bool
  pub h_walls : ℕ
  pub height : ℕ
  pub width : ℕ

-- `MapBitsNeeded`, of two size_t: `minor - 1` wraps, and so does the product.
abbrev pub bits_needed : (major minor : ℕ) → ℕ
bits_needed major minor = (major * ((minor + 2 ^ 64 - 1) % 2 ^ 64)) % 2 ^ 64

-- `MapDimensionSizeNeeded`
abbrev pub dimension_size_needed : (major minor : ℕ) → ℕ
dimension_size_needed major minor = Bitmap.size (bits_needed major minor)

-- `MapSizeNeeded`
abbrev pub size_needed : (width height : ℕ) → ℕ
size_needed width height =
    (dimension_size_needed width height + dimension_size_needed height width) % 2 ^ 64

-- `MapAdjustX`, `MapAdjustY`. Where a size_t wraps to 0 this is 2 ^ 64: both are out of bounds.
abbrev pub adjust_x : ℕ → Direction → ℕ
adjust_x x north = x
adjust_x x east = x + 1
adjust_x x south = x
adjust_x x west = x

abbrev pub adjust_y : ℕ → Direction → ℕ
adjust_y y north = y + 1
adjust_y y east = y
adjust_y y south = y
adjust_y y west = y

-- `MapOutOfBoundsMinor`
abbrev pub out_of_bounds_minor : (minor minor_size : ℕ) → Bool
out_of_bounds_minor minor minor_size = (minor == 0) || leb minor_size minor

-- `MapOutOfBoundsMajor`
abbrev pub out_of_bounds_major : (major major_size : ℕ) → Bool
out_of_bounds_major major major_size = leb major_size major

-- `MapGetIndex`, which is called for a minor above 0.
abbrev pub get_index : (major minor_size minor : ℕ) → ℕ
get_index major minor_size minor = major * (minor_size - 1) + minor - 1

-- `MapGetFlag`, in the walls that start at the bit `walls`.
unfoldable pub get_flag : (major major_size minor minor_size walls : ℕ) → (buff : List Bool) → Bool
get_flag major major_size minor minor_size walls buff =
    if out_of_bounds_minor minor minor_size || out_of_bounds_major major major_size
    then true
    else Bitmap.get buff (walls + get_index major minor_size minor)

-- `MapSetFlag`
unfoldable pub set_flag :
    (major major_size minor minor_size walls : ℕ) → (state : Bool) → (buff : List Bool) → List Bool
set_flag major major_size minor minor_size walls state buff =
    if not (out_of_bounds_minor minor minor_size || out_of_bounds_major major major_size)
    then (let index = walls + get_index major minor_size minor in
        if state then Bitmap.on buff index else Bitmap.off buff index)
    else buff

-- `MapInit`: the map, if the buffer has enough words. All words are cleared.
unfoldable pub init : (buff_len width height : ℕ) → Option Map
init buff_len width height =
    if leb (size_needed width height) buff_len
    then some (record {
      wall_buff = replicate (buff_len * Bitmap.word_size) false;
      h_walls = dimension_size_needed width height;
      height = height;
      width = width;
    })
    else none

-- The bit at which the walls of HWalls start.
abbrev pub h_start : Map → ℕ
h_start m = m.h_walls * Bitmap.word_size

-- `MapGetWall`
unfoldable pub get_wall : (x y : ℕ) → Direction → Map → Bool
unfolding get_flag
get_wall x0 y0 dir m =
    let x = adjust_x x0 dir in
    let y = adjust_y y0 dir in
    elim dir [
      | north ↦ get_flag x m.width y m.height (h_start m) m.wall_buff
      | south ↦ get_flag x m.width y m.height (h_start m) m.wall_buff
      | east ↦ get_flag y m.height x m.width 0 m.wall_buff
      | west ↦ get_flag y m.height x m.width 0 m.wall_buff
    ]

-- `MapSetWall`
unfoldable pub set_wall : (x y : ℕ) → Direction → (state : Bool) → Map → Map
unfolding set_flag
set_wall x0 y0 dir state m =
    let x = adjust_x x0 dir in
    let y = adjust_y y0 dir in
    record m {
      wall_buff = elim dir [
        | north ↦ set_flag x m.width y m.height (h_start m) state m.wall_buff
        | south ↦ set_flag x m.width y m.height (h_start m) state m.wall_buff
        | east ↦ set_flag y m.height x m.width 0 state m.wall_buff
        | west ↦ set_flag y m.height x m.width 0 state m.wall_buff
      ];
    }
