-- ===== src/Umouse/FloodFill/Tests.antt =====
-- A maze of two by two cells.
use kernelpanic.Common.{
  ℕ, zero, suc, ◌+◌, ◌*◌, ◌^◌, ◌≤◌, ◌≡◌, refl, true, false, Option, none, some, List, [], ◌∷◌,
  arith, get_or, replicate,
}
use kernelpanic.Umouse.Map
use kernelpanic.Umouse.Map.{Map, north, east, south, west}
use kernelpanic.Umouse.Map.Layout.{cleared}
use kernelpanic.Umouse.FloodFill.Grid.{Cell, IsSquare}
use kernelpanic.Umouse.FloodFill.Start.{set_destinations}
use kernelpanic.Umouse.FloodFill.Shortest.{IsDistance, calculate_ends, shortest}
use kernelpanic.Umouse.FloodFill.{get, FloodMap, calculate, clear, set_destination}

abbrev maze : Map
maze = cleared 2 2 2

abbrev blank : FloodMap
blank = record {
  width = 2;
  height = 2;
  flood_map = 9 ∷ 9 ∷ 9 ∷ 9 ∷ [];
  event_map = true ∷ true ∷ true ∷ true ∷ replicate 28 false;
}

abbrev values : Option FloodMap → List ℕ
values none = []
values (some s) = s.flood_map

walled :
    values (calculate 60 (Map.set_wall 0 0 east true maze) (set_destination 0 0 (clear blank)))
    ≡ 0 ∷ 3 ∷ 1 ∷ 2 ∷ []
unfolding calculate clear set_destination Map.set_wall
walled = refl

maze-IsSquare : IsSquare 2 maze
maze-IsSquare = record { width = refl; height = refl; small = omega arith; cells = omega arith }

none_behind : (k i : ℕ) → get_or (replicate k false) i false ≡ false
none_behind zero i = refl
none_behind (suc k) zero = refl
none_behind (suc k) (suc i) = none_behind k i

no_others : (i : ℕ) → 4 ≤ i → get_or blank.event_map i false ≡ false
no_others zero l = absurd (omega arith)
no_others (suc zero) l = absurd (omega arith)
no_others (suc (suc zero)) l = absurd (omega arith)
no_others (suc (suc (suc zero))) l = absurd (omega arith)
no_others (suc (suc (suc (suc i)))) l = none_behind 28 i

bytes : (i : ℕ) → get_or blank.flood_map i 255 ≤ 255
bytes zero = omega arith
bytes (suc zero) = omega arith
bytes (suc (suc zero)) = omega arith
bytes (suc (suc (suc zero))) = omega arith
bytes (suc (suc (suc (suc i)))) = omega arith

calculate_ends_example : (last : FloodMap) × (calculate (4 * 5 ^ 255 + 1) maze blank ≡ some last)
calculate_ends_example =
    calculate_ends 2 maze blank (4 * 5 ^ 255 + 1) maze-IsSquare
      (record { width = refl; height = refl; values = refl; events = refl; no_others = no_others })
      bytes (omega arith)

shortest_example :
    (last : FloodMap) × (calculate (5 ^ 255 + 1) maze (set_destinations ((1, 0) ∷ []) (clear blank))
      ≡ some last)
    × ((x y : ℕ) → Cell 2 x y → IsDistance 2 maze ((1, 0) ∷ []) x y (get x y last))
shortest_example =
    shortest 2 maze ((1, 0) ∷ []) blank (5 ^ 255 + 1) maze-IsSquare
      (record { width = refl; height = refl; values = refl; events = refl }) (omega arith)
      (omega arith)
