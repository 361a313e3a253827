-- ===== src/Umouse/SubMove/Best.antt =====
-- `SubMoveFindBest` of umouse/submove.c.
use kernelpanic.Common.{
  ℕ, ◌+◌, ◌-◌, ◌*◌, ◌/◌, ◌%◌, ◌^◌, ◌<◌, ◌≡◌, Bool, true, false, not, ◌&&◌, List, [], ◌∷◌, arith,
  ltb, ◌==◌, if◌then◌else◌,
}
use kernelpanic.Common.Outcome.{Outcome, ok, panic, ◌>>=◌}
use kernelpanic.Umouse.Map
use kernelpanic.Umouse.Map.{Map, Direction, north, east, south, west}
use kernelpanic.Umouse.FloodFill
use kernelpanic.Umouse.SubMove.{
  Move, done, start, forward, stop, turn_right, turn_left, turn_around, integrate_right,
  integrate_left, Mouse, Maze, rotates, translate_x, translate_y, apply, legal,
}

-- A move and what it is judged by: the locals best and cur with their four variables each.
pub record Candidate : Type 0 where
  pub move : Move
  pub flood : ℕ
  pub facing_flood : ℕ
  pub facing_wall : Bool
  pub rotated : Bool

-- What a move is measured against at first.
abbrev pub standard : Candidate
standard = record {
  move = done;
  flood = 255;
  facing_flood = 255;
  facing_wall = true;
  rotated = true;
}

-- Which cell the mouse is in; on an edge, the one that it heads for. ASSERT(0) is a panic.
abbrev pub cell_x : (x : ℕ) → Direction → Outcome ℕ
cell_x x dir = if x % 2 == 1 then ok (x / 2) else elim dir [
  | east ↦ ok (x / 2)
  | west ↦ ok ((x / 2 + 2 ^ 64 - 1) % 2 ^ 64)
  | north ↦ panic
  | south ↦ panic
]

abbrev pub cell_y : (y : ℕ) → Direction → Outcome ℕ
cell_y y dir = if y % 2 == 1 then ok (y / 2) else elim dir [
  | north ↦ ok (y / 2)
  | south ↦ ok ((y / 2 + 2 ^ 64 - 1) % 2 ^ 64)
  | east ↦ panic
  | west ↦ panic
]

-- The results of a move, from the cell that it ends in.
unfoldable pub judge : (x y : ℕ) → Direction → Move → Maze → Candidate
unfolding FloodFill.get Map.get_wall
judge x y dir move m = record {
  move = move;
  flood = FloodFill.get x y m.flood;
  facing_flood = FloodFill.get (translate_x x dir 1) (translate_y y dir 1) m.flood;
  facing_wall = Map.get_wall x y dir m.map;
  rotated = rotates move;
}

unfoldable pub gather : Mouse → Move → Maze → Outcome Candidate
unfolding judge apply
gather s move m =
    let t = apply s move in
    cell_x t.x t.dir >>= λ x. cell_y t.y t.dir >>= λ y. ok (judge x y t.dir move m)

-- The comparisons: whether the move takes the lead.
unfoldable pub takes_lead : (cur best : Candidate) → Bool
takes_lead cur best =
    if ltb best.flood cur.flood
    then false
    else if ltb cur.flood best.flood
    then true
    else if ltb best.facing_flood cur.facing_flood
    then false
    else if ltb cur.facing_flood best.facing_flood
    then true
    else if cur.facing_wall && not best.facing_wall
    then false
    else if not cur.facing_wall && best.facing_wall
    then true
    else if not cur.rotated && best.rotated
    then false
    else if not best.rotated && cur.rotated
    then true
    else false

-- The body of the loop.
unfoldable pub consider : Mouse → Maze → Move → Candidate → Outcome Candidate
unfolding legal gather takes_lead
consider s m cur best =
    if not (legal s cur m)
    then ok best
    else (gather s cur m >>= λ c. ok (if takes_lead c best then c else best))

-- The loop, over the moves from SUB_MOVE_START to SUB_MOVE_INTEGRATE_LEFT.
unfoldable pub try_moves : Mouse → Maze → List Move → Candidate → Outcome Candidate
unfolding consider
try_moves s m [] best = ok best
try_moves s m (cur ∷ moves) best = consider s m cur best >>= λ best'. try_moves s m moves best'

abbrev pub all_moves : List Move
all_moves =
    start ∷ forward ∷ stop ∷ turn_right ∷ turn_left ∷ turn_around ∷ integrate_right ∷ integrate_left
    ∷ []

unfoldable pub find_best : Mouse → Maze → Outcome Move
unfolding try_moves
find_best s m = try_moves s m all_moves standard >>= λ best. ok best.move

-- The preferences as one number, least first.
abbrev pub score : Candidate → ℕ
score c =
    ((c.flood * 256 + c.facing_flood) * 2 + (if c.facing_wall then 1 else 0)) * 2
    + (if c.rotated then 0 else 1)

pub record IsByte (c : Candidate) : Type 0 where
  pub flood : c.flood < 256
  pub facing_flood : c.facing_flood < 256

-- On flood values that are bytes the comparisons of SubMoveFindBest are one strict order: the flood value counts first, then the
-- flood value that the mouse faces, then that it faces no wall, and then that the move rotates.
pub takes_lead-score :
    (cur best : Candidate)
    → IsByte cur
    → IsByte best
    → takes_lead cur best ≡ ltb (score cur) (score best)
unfolding takes_lead
takes_lead-score cur best b b' = ground (arith, b, b')
