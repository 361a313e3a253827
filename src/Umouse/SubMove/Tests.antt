-- ===== src/Umouse/SubMove/Tests.antt =====
-- A mouse in a maze of two by two cells without inner walls, all scanned, with the destination in
-- the cell (0, 1).
use kernelpanic.Common.{zero, suc, ◌≡◌, refl, inl, true, false, [], ◌∷◌, arith, ltb, replicate}
use kernelpanic.Common.Outcome.{ok}
use kernelpanic.Umouse.Map
use kernelpanic.Umouse.Map.{Map, north, east, south, west}
use kernelpanic.Umouse.Map.Layout.{cleared}
use kernelpanic.Umouse.SubMove.{start, turn_left, Mouse, Maze, apply, legal}
use kernelpanic.Umouse.SubMove.Best.{
  Candidate, standard, find_best, takes_lead, score, takes_lead-score,
}
use kernelpanic.Umouse.SubMove.Places.{Kept, legal-Kept, IsInside}
use kernelpanic.Umouse.SubMove.Choice.{Chosen, find_best_lem, Bytes}

abbrev maze : Maze
maze = record {
  map = cleared 2 2 2;
  scan = record { width = 2; height = 2; flags = true ∷ true ∷ true ∷ true ∷ [] };
  flood = record {
    width = 2;
    height = 2;
    flood_map = 1 ∷ 2 ∷ 0 ∷ 1 ∷ [];
    event_map = replicate 32 false;
  };
}

-- In the middle of the cell (0, 0).
abbrev heading : Map.Direction → Mouse
heading dir = record { x = 1; y = 1; dir = dir; moving = false }

goes_north : find_best (heading north) maze ≡ ok start
unfolding find_best
goes_north = refl

turns_left : find_best (heading east) maze ≡ ok turn_left
unfolding find_best
turns_left = refl

byte_values : Bytes maze
byte_values zero = omega arith
byte_values (suc zero) = omega arith
byte_values (suc (suc zero)) = omega arith
byte_values (suc (suc (suc zero))) = omega arith
byte_values (suc (suc (suc (suc i)))) = omega arith

inside : IsInside maze.map (heading north)
inside = record { left = omega arith; right = omega arith; bottom = omega arith; top = omega arith }

find_best_lem_example : Chosen (heading north) maze
find_best_lem_example =
    find_best_lem (heading north) maze (omega arith) (omega arith) byte_values (inl (refl, refl))
      inside

start_is_legal : legal (heading north) start maze ≡ true
unfolding legal
start_is_legal = refl

legal-Kept_example : Kept maze (apply (heading north) start)
legal-Kept_example =
    legal-Kept maze (omega arith) (omega arith) (heading north) start (inl (refl, refl), inside)
      start_is_legal

abbrev turned : Candidate
turned = record standard { flood = 1 }

takes_lead-score_example : takes_lead turned standard ≡ ltb (score turned) (score standard)
takes_lead-score_example =
    takes_lead-score turned standard (record { flood = omega arith; facing_flood = omega arith })
      (record { flood = omega arith; facing_flood = omega arith })
