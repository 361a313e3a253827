-- ===== src/Umouse/Map/Tests.antt =====
-- A maze of four by four cells, and one of forty by two whose walls overlap.
use kernelpanic.Common.{ℕ, ◌≡◌, refl, true, some, arith}
use kernelpanic.Umouse.Map.{Map, north, east, get_wall, set_wall, init}
use kernelpanic.Umouse.Map.Walls.{
  wall_of, IsInner, IsSound, get_wall-set_wall, get_wall-set_wall_ne,
}
use kernelpanic.Umouse.Map.Layout.{cleared, init-IsSound, walls_overlap}

abbrev square : Map
square = cleared 2 4 4

square-IsSound : IsSound square
square-IsSound = record { apart = omega arith; fits = omega arith }

init-IsSound_example : (m : Map) × (init 2 4 4 ≡ some m) × IsSound m
init-IsSound_example =
    init-IsSound 2 4 4 (omega arith) (omega arith) (omega arith) (omega arith) (omega arith)
      (omega arith) refl

get_wall-set_wall_example : get_wall 1 2 east (set_wall 1 2 east true square) ≡ true
get_wall-set_wall_example =
    get_wall-set_wall 1 2 east true square square-IsSound
      (record { above = omega arith; below = omega arith; inside = omega arith })

get_wall-set_wall_ne_example :
    get_wall 1 2 north (set_wall 1 2 east true square) ≡ get_wall 1 2 north square
get_wall-set_wall_ne_example =
    get_wall-set_wall_ne 1 2 east true 1 2 north square square-IsSound (λ e. cc)

abbrev wide : Map
wide = cleared 5 40 2

walls_overlap_example :
    (x : ℕ) × (y : ℕ) × IsInner wide (wall_of x y east)
    × (get_wall 0 0 north (set_wall x y east true wide) ≡ true)
walls_overlap_example = walls_overlap wide (omega arith) (omega arith) (omega arith) (omega arith)
