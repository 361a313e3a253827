-- ===== src/Umouse/SubMove/Places.antt =====
-- Where the mouse can be.
use kernelpanic.Common.{ℕ, ◌*◌, ◌%◌, ◌^◌, ◌≤◌, ◌<◌, ◌≡◌, ◌⊎◌, inl, inr, Bool, true, false, arith}
use kernelpanic.Umouse.Map
use kernelpanic.Umouse.Map.{Map, Direction, north, east, south, west}
use kernelpanic.Umouse.SubMove.{
  Move, done, start, forward, stop, turn_right, turn_left, turn_around, integrate_right,
  integrate_left, Mouse, Maze, translate_x, translate_y, apply, legal, move_start_centered,
  move_start_edge, move_end_on_wall, is_centered, is_edged, end_on_open_wall, turn, right, left,
  back,
}

-- In the middle of a cell.
abbrev pub Centered : ℕ → ℕ → Type 0
Centered x y = (x % 2 ≡ 1) × (y % 2 ≡ 1)

-- On the edge between two cells, across its wall.
abbrev pub Crossing : ℕ → ℕ → Direction → Type 0
Crossing x y north = (x % 2 ≡ 1) × (y % 2 ≡ 0)
Crossing x y south = (x % 2 ≡ 1) × (y % 2 ≡ 0)
Crossing x y east = (x % 2 ≡ 0) × (y % 2 ≡ 1)
Crossing x y west = (x % 2 ≡ 0) × (y % 2 ≡ 1)

-- Inside the border of the maze.
pub record IsInside (m : Map) (s : Mouse) : Type 0 where
  pub left : 0 < s.x
  pub right : s.x < 2 * m.width
  pub bottom : 0 < s.y
  pub top : s.y < 2 * m.height

abbrev pub Placed : Mouse → Type 0
Placed s = Centered s.x s.y ⊎ Crossing s.x s.y s.dir

-- The tests of SubMoveLegal that place the mouse.
pub record Passes (s : Mouse) (move : Move) (m : Maze) : Type 0 where
  pub centered : move_start_centered s.x s.y move ≡ true
  pub edge : move_start_edge s.x s.y move ≡ true
  pub on_wall : move_end_on_wall (apply s move).x (apply s move).y m.map move ≡ true

pub legal-Passes : (s : Mouse) (move : Move) (m : Maze) → legal s move m ≡ true → Passes s move m
unfolding legal
legal-Passes s move m h = ground arith

abbrev at : ℕ → ℕ → Direction → Bool → Mouse
at x y dir moving = record { x = x; y = y; dir = dir; moving = moving }

-- An edge without a wall has cells on both sides.
open-IsInside :
    (m : Map) (x y : ℕ) (dir : Direction) (moving : Bool)
    → end_on_open_wall x y m ≡ true
    → Crossing x y dir
    → IsInside m (at x y dir moving)
unfolding end_on_open_wall Map.get_wall Map.get_flag
open-IsInside m x y north moving o c = ground arith
open-IsInside m x y south moving o c = ground arith
open-IsInside m x y east moving o c = ground arith
open-IsInside m x y west moving o c = ground arith

-- Half a cell on from the middle of a cell.
from_middle :
    (x y : ℕ) (dir : Direction)
    → Centered x y
    → Crossing (translate_x x dir 1) (translate_y y dir 1) dir
from_middle x y north c = omega arith
from_middle x y south c = omega arith
from_middle x y east c = omega arith
from_middle x y west c = omega arith

-- Half a cell on from an edge.
from_edge :
    (m : Map) (x y : ℕ) (dir : Direction) (moving moving' : Bool)
    → m.width ≤ 2 ^ 63
    → m.height ≤ 2 ^ 63
    → IsInside m (at x y dir moving)
    → Crossing x y dir
    → Centered (translate_x x dir 1) (translate_y y dir 1)
      × IsInside m (at (translate_x x dir 1) (translate_y y dir 1) dir moving')
from_edge m x y north moving moving' w h i c = omega arith
from_edge m x y south moving moving' w h i c = omega arith
from_edge m x y east moving moving' w h i c = omega arith
from_edge m x y west moving moving' w h i c = omega arith

not_centered : (x y : ℕ) (dir : Direction) → Crossing x y dir → is_centered x y ≡ false
not_centered x y north c = ground arith
not_centered x y south c = ground arith
not_centered x y east c = ground arith
not_centered x y west c = ground arith

-- Both.
abbrev pub Kept : Maze → Mouse → Type 0
Kept m s = Placed s × IsInside m.map s

module _ (m : Maze) (small_width : m.map.width ≤ 2 ^ 63)
    (small_height : m.map.height ≤ 2 ^ 63) where
  ahead :
      (x y : ℕ) (dir : Direction) (moving : Bool)
      → Kept m (at x y dir moving)
      → end_on_open_wall (translate_x x dir 1) (translate_y y dir 1) m.map ≡ true
      → Kept m (at (translate_x x dir 1) (translate_y y dir 1) dir true)
  ahead x y dir moving (inl c, i) o =
      let e = from_middle x y dir c in (inr e, open-IsInside m.map _ _ dir true o e)
  ahead x y dir moving (inr e, i) o =
      let is = from_edge m.map x y dir moving true small_width small_height i e in (inl is.0, is.1)

  around :
      (x y : ℕ) (dir : Direction) (angle : Direction → Direction)
      → Crossing x y dir
      → IsInside m.map (at x y dir true)
      → let x' = translate_x x dir 1 in
        let y' = translate_y y dir 1 in
        end_on_open_wall (translate_x x' (angle dir) 1) (translate_y y' (angle dir) 1) m.map ≡ true
        → Kept m (at (translate_x x' (angle dir) 1) (translate_y y' (angle dir) 1) (angle dir) true)
  around x y dir angle e i o =
      let is = from_edge m.map x y dir true true small_width small_height i e in
      ahead (translate_x x dir 1) (translate_y y dir 1) (angle dir) true
        (
          inl is.0,
          record { left = is.1.left; right = is.1.right; bottom = is.1.bottom; top = is.1.top },
        )
        o

  -- A mouse that is not in the middle of a cell crosses an edge.
  edge_of : (s : Mouse) → Placed s → is_edged s.x s.y ≡ true → Crossing s.x s.y s.dir
  edge_of s (inl c) e = absurd (ground arith)
  edge_of s (inr c) e = c

  -- The same place with another heading or state.
  IsInside-at :
      (s : Mouse) (dir : Direction) (moving : Bool)
      → IsInside m.map s
      → IsInside m.map (at s.x s.y dir moving)
  IsInside-at s dir moving i = record {
    left = i.left;
    right = i.right;
    bottom = i.bottom;
    top = i.top;
  }

  Centered-of : (x y : ℕ) → is_centered x y ≡ true → Centered x y
  Centered-of x y h = ground arith

  apply-Kept : (s : Mouse) (move : Move) → Kept m s → Passes s move m → Kept m (apply s move)
  unfolding apply
  apply-Kept s done k p = (k.0, IsInside-at s s.dir false k.1)
  apply-Kept s start k p = ahead s.x s.y s.dir s.moving k p.on_wall
  apply-Kept s forward k p = ahead s.x s.y s.dir s.moving k p.on_wall
  apply-Kept s stop k p =
      let is =
        from_edge m.map s.x s.y s.dir true false small_width small_height
          (IsInside-at s s.dir true k.1) (edge_of s k.0 p.edge) in
      (inl is.0, is.1)
  apply-Kept s turn_right k p =
      (inl (Centered-of s.x s.y p.centered), IsInside-at s (turn s.dir right) false k.1)
  apply-Kept s turn_left k p =
      (inl (Centered-of s.x s.y p.centered), IsInside-at s (turn s.dir left) false k.1)
  apply-Kept s turn_around k p =
      (inl (Centered-of s.x s.y p.centered), IsInside-at s (turn s.dir back) false k.1)
  apply-Kept s integrate_right k p =
      around s.x s.y s.dir (λ d. turn d right) (edge_of s k.0 p.edge) (IsInside-at s s.dir true k.1)
        p.on_wall
  apply-Kept s integrate_left k p =
      around s.x s.y s.dir (λ d. turn d left) (edge_of s k.0 p.edge) (IsInside-at s s.dir true k.1)
        p.on_wall

  -- From the middle of a cell, or an edge that the mouse crosses, inside the border of a maze of at
  -- most 2 ^ 63 cells a side, a move that SubMoveLegal allows ends in such a place again.
  pub legal-Kept :
      (s : Mouse) (move : Move) → Kept m s → legal s move m ≡ true → Kept m (apply s move)
  legal-Kept s move k h = apply-Kept s move k (legal-Passes s move m h)
