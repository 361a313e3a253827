-- ===== src/Umouse/FloodFill/Grid.antt =====
-- The cells of a square maze by their indices, and the open steps between them.
use kernelpanic.Common.{
  ℕ, ◌+◌, ◌*◌, ◌%◌, ◌^◌, ◌≤◌, ◌<◌, ◌≡◌, refl, sym, ap, ◌∙◌, ◌≢◌, ◌⊎◌, inl, inr, Bool, true, false,
  arith, ltb, Bool-cases, ltb→lt, ltb→le, length, get_or, set,
}
use kernelpanic.Utils.Bitmap
use kernelpanic.Umouse.Map
use kernelpanic.Umouse.Map.{Map, Direction, north, east, south, west}
use kernelpanic.Umouse.Map.Walls.{index-lt}
use kernelpanic.Umouse.FloodFill.{
  FloodMap, beside_x, beside_y, get, set_value, new_event, look, is_outside, index,
}

abbrev pub Cell : ℕ → ℕ → ℕ → Type 0
Cell n x y = (x < n) × (y < n)

abbrev pub at : ℕ → ℕ → ℕ → ℕ
at n x y = y * n + x

-- A maze of n by n cells that an INDEX can count, with -1 to spare.
pub record IsSquare (n : ℕ) (m : Map) : Type 0 where
  pub width : m.width ≡ n
  pub height : m.height ≡ n
  pub small : n < 2 ^ 64
  pub cells : n * n < 2 ^ 64

-- Where no wall is, there is a cell.
pub open-Cell :
    (n x y : ℕ) (dir : Direction) (m : Map)
    → IsSquare n m
    → Cell n x y
    → Map.get_wall x y dir m ≡ false
    → Cell n (beside_x x dir) (beside_y y dir)
unfolding Map.get_wall Map.get_flag
open-Cell n x y north m sq c o = ground arith
open-Cell n x y east m sq c o = ground arith
open-Cell n x y south m sq c o = ground arith
open-Cell n x y west m sq c o = ground arith

-- One can step from a cell to the other.
pub record Edge (n : ℕ) (m : Map) (i j : ℕ) : Type 0 where
  pub x : ℕ
  pub y : ℕ
  pub dir : Direction
  pub cell : Cell n x y
  pub is_open : Map.get_wall x y dir m ≡ false
  pub from : i ≡ at n x y
  pub to : j ≡ at n (beside_x x dir) (beside_y y dir)

pub Edge-lt : {n : ℕ} {m : Map} {i j : ℕ} → IsSquare n m → Edge n m i j → j < n * n
Edge-lt {n} {m} sq e =
    let c = open-Cell n e.x e.y e.dir m sq e.cell e.is_open in
    omega (arith, e.to, index-lt n n (beside_y e.y e.dir) (beside_x e.x e.dir) c.0 c.1)

-- The buffers for a maze of n by n cells, with no flag behind the last cell.
pub record IsSized (n : ℕ) (s : FloodMap) : Type 0 where
  pub width : s.width ≡ n
  pub height : s.height ≡ n
  pub values : length s.flood_map ≡ n * n
  pub events : length s.event_map ≡ Bitmap.size (n * n) * Bitmap.word_size
  pub no_others : (i : ℕ) → n * n ≤ i → get_or s.event_map i false ≡ false

abbrev pub value : FloodMap → ℕ → ℕ
value s i = get_or s.flood_map i 255

abbrev pub has_event : FloodMap → ℕ → Bool
has_event s i = get_or s.event_map i false

-- A value stored, with an event.
abbrev pub put : FloodMap → ℕ → ℕ → FloodMap
put s i v = record s { flood_map = set s.flood_map i v; event_map = set s.event_map i true }

pub size-le : (k : ℕ) → k ≤ Bitmap.size k * Bitmap.word_size
size-le k = ground arith

pub get-value :
    (n x y : ℕ) (s : FloodMap)
    → IsSized n s
    → ((i : ℕ) → value s i ≤ 255)
    → Cell n x y
    → get x y s ≡ value s (at n x y)
unfolding get
get-value n x y s z byte c = let le = byte (at n x y) in rw (z.width, z.height) (ground arith)

inside_put :
    (x y v : ℕ) (s : FloodMap)
    → is_outside x y s ≡ false
    → new_event x y (set_value x y v s) ≡ put s (index x y s) v
unfolding new_event set_value
inside_put x y v s h = rw (h, h) refl

pub Cell-inside : (n x y : ℕ) (s : FloodMap) → IsSized n s → Cell n x y → is_outside x y s ≡ false
Cell-inside n x y s z c = ground (arith, z.width, z.height)

pub put_lem :
    (n x y v : ℕ) (s : FloodMap)
    → IsSized n s
    → Cell n x y
    → new_event x y (set_value x y v s) ≡ put s (at n x y) v
put_lem n x y v s z c =
    inside_put x y v s (Cell-inside n x y s z c) ∙ ap (λ w. put s (y * w + x) v) z.width

-- A look to one side: nothing, since there is a wall or no higher value, or a new value and an
-- event where it looked.
pub record Stays (n : ℕ) (m : Map) (x y cur : ℕ) (dir : Direction) (s : FloodMap) : Type 0 where
  pub same : look m x y cur dir s ≡ s
  pub low : Map.get_wall x y dir m ≡ false → value s (at n (beside_x x dir) (beside_y y dir)) ≤ cur

pub record Lowers (n : ℕ) (m : Map) (x y cur : ℕ) (dir : Direction) (s : FloodMap) : Type 0 where
  pub is_open : Map.get_wall x y dir m ≡ false
  pub higher : cur < value s (at n (beside_x x dir) (beside_y y dir))
  pub puts :
      look m x y cur dir s ≡ put s (at n (beside_x x dir) (beside_y y dir)) ((cur + 1) % 2 ^ 8)

pub look_lem :
    (n x y cur : ℕ) (dir : Direction) (m : Map) (s : FloodMap)
    → IsSquare n m
    → IsSized n s
    → ((i : ℕ) → value s i ≤ 255)
    → Cell n x y
    → Stays n m x y cur dir s ⊎ Lowers n m x y cur dir s
unfolding look
look_lem n x y cur dir m s sq z byte c = elim (Bool-cases (Map.get_wall x y dir m)) [
  | inl wall ↦
      inl (record { same = rw wall refl; low = λ o. absurd (true-ne-false (sym wall ∙ o)) })
  | inr o ↦
      let there = open-Cell n x y dir m sq c o in
      let is = get-value n (beside_x x dir) (beside_y y dir) s z byte there in
      elim (Bool-cases (ltb cur (get (beside_x x dir) (beside_y y dir) s))) [
        | inl higher ↦ inr (record {
          is_open = o;
          higher = omega (arith, is, ltb→lt cur _ higher);
          puts =
              rw (o, higher)
                (put_lem n (beside_x x dir) (beside_y y dir) ((cur + 1) % 2 ^ 8) s z there);
        })
        | inr lower ↦
            inl (record {
              same = rw (o, lower) refl;
              low = λ p. omega (arith, is, ltb→le cur _ lower);
            })
      ]
]
  where
    true-ne-false : true ≢ false
    true-ne-false h = cc
