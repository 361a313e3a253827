-- ===== src/Umouse/FloodFill/Shortest.antt =====
-- FloodFillClear, FloodFillSetDestination and FloodFillCalculate in a row.
use kernelpanic.Common.{
  ℕ, ◌*◌, ◌^◌, ◌≤◌, ◌<◌, ◌≡◌, refl, sym, ap, subst, inr, some, List, arith, length, get_or,
}
use kernelpanic.Umouse.Map.{Map}
use kernelpanic.Umouse.FloodFill.{FloodMap, calculate, clear, get}
use kernelpanic.Umouse.FloodFill.Grid.{Cell, at, IsSquare, IsSized, value, get-value}
use kernelpanic.Umouse.FloodFill.Weight.{weigh-le}
use kernelpanic.Umouse.FloodFill.Invariant.{Way, here}
use kernelpanic.Umouse.FloodFill.Distance.{calculate_lem, value-le}
use kernelpanic.Umouse.FloodFill.Clear.{Buffers, clear-Blank}
use kernelpanic.Umouse.FloodFill.Start.{
  set_destinations, IsDestination, Cells, set_destinations-Ready,
}

-- The distance of a cell from the destinations, where 255 stands for all that is 255 or more.
pub record IsDistance (n : ℕ) (m : Map) (cells : List (ℕ × ℕ)) (x y d : ℕ) : Type 0 where
  pub at_most : (k : ℕ) → Way n m (IsDestination n cells) (at n x y) k → d ≤ k
  pub bounded : d ≤ 255
  pub way : d < 255 → Way n m (IsDestination n cells) (at n x y) d

-- In a square maze of fewer than 2 ^ 64 cells FloodFillCalculate ends, whatever values and events it
-- starts from: the buffers have the size of the maze, with no event behind the last cell, and
-- 5 ^ 255 turns for each cell are more than it takes.
pub calculate_ends :
    (n : ℕ) (m : Map) (s : FloodMap) (fuel : ℕ)
    → IsSquare n m
    → IsSized n s
    → ((i : ℕ) → get_or s.flood_map i 255 ≤ 255)
    → n * n * 5 ^ 255 < fuel
    → (last : FloodMap) × (calculate fuel m s ≡ some last)
calculate_ends n m s fuel sq z byte h =
    let run =
      calculate_lem n m (λ i k. k ≡ value s i) (λ i. Unit {0}) fuel s sq
        (record {
          sized = z;
          bounded = byte;
          real = λ i below. here refl;
          start_at = λ i k e. omega arith;
          told = λ i j e off. inr tt;
        })
        (omega (arith, weigh-le s.event_map s.flood_map, ap (λ (k : ℕ). k * 5 ^ 255) z.values)) in
    (run.last, run.returns)

-- In a square maze of fewer than 2 ^ 64 cells, from buffers of its size that hold anything:
-- FloodFillClear, FloodFillSetDestination of cells of the maze, and FloodFillCalculate end within any fuel above
-- 5 ^ 255 for each destination. Then FloodFillGet of a cell is the length of a shortest way to it
-- from a destination over steps without a wall, or 255 if no way is shorter than that.
pub shortest :
    (n : ℕ) (m : Map) (cells : List (ℕ × ℕ)) (s : FloodMap) (fuel : ℕ)
    → IsSquare n m
    → Buffers n s
    → Cells n cells
    → length cells * 5 ^ 255 < fuel
    → (last : FloodMap) × (calculate fuel m (set_destinations cells (clear s)) ≡ some last)
      × ((x y : ℕ) → Cell n x y → IsDistance n m cells x y (get x y last))
shortest n m cells s fuel sq b c h =
    let ready = set_destinations-Ready n m cells (clear s) (clear-Blank n s b) c in
    let run =
      calculate_lem n m (IsDestination n cells) (λ i. ⊥) fuel (set_destinations cells (clear s)) sq
        ready.inv (omega (arith, ready.weighs)) in
    (
      run.last,
      run.returns,
      λ x y cell.
          subst (IsDistance n m cells x y)
            (sym (get-value n x y run.last run.inv.sized run.inv.bounded cell))
            (record {
              at_most = λ k w. value-le run.inv run.quiet w;
              bounded = run.inv.bounded (at n x y);
              way = run.inv.real (at n x y);
            }),
    )
