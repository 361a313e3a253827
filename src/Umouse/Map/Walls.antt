-- ===== src/Umouse/Map/Walls.antt =====
-- Every inner wall has a bit of its own, if the two lists of walls do not overlap.
use kernelpanic.Common.{
  ℕ, zero, suc, ◌+◌, ◌-◌, ◌*◌, ◌≤◌, ◌<◌, ◌≡◌, refl, sym, ap, ap₂, ◌∙◌, ◌≢◌, inl, inr, Bool, true,
  false, ◌||◌, arith, Bool-cases, length, get_or, set, get_or-set_self, get_or-set_ne,
}
use native.Mathlib.Nat.{suc-mul}
use kernelpanic.Umouse.Map.{
  Map, Direction, north, east, south, west, out_of_bounds_minor, out_of_bounds_major, get_index,
  get_flag, set_flag, h_start, get_wall, set_wall,
}

pub more : (n a : ℕ) → suc a * n ≡ n + a * n
more n a = omega (arith, suc-mul a n)

-- A row and a column give one number each.
row-le : (n a b c d : ℕ) → b < n → d < n → a * n + b ≡ c * n + d → a ≤ c
row-le n zero b c d h g e = omega arith
row-le n (suc a) b zero d h g e = absurd (omega (arith, more n a))
row-le n (suc a) b (suc c) d h g e =
    omega (arith, row-le n a b c d h g (omega (arith, more n a, more n c)))

pub index-lt : (n m a b : ℕ) → b < n → a < m → a * n + b < m * n
index-lt n zero a b h g = absurd (omega arith)
index-lt n (suc m) zero b h g = omega (arith, more n m)
index-lt n (suc m) (suc a) b h g =
    omega (arith, more n a, more n m, index-lt n m a b h (omega arith))

pub place_unique : (n a b c d : ℕ) → b < n → d < n → a * n + b ≡ c * n + d → (a ≡ c) × (b ≡ d)
place_unique n a b c d h g e =
    let rows : a ≡ c = omega (arith, row-le n a b c d h g e, row-le n c d a b g h (sym e)) in
    let same = ap (λ (r : ℕ). r * n) rows in (rows, omega arith)

-- A wall: whether it is a horizontal one, and its place on the major and the minor axis.
pub record Wall : Type 0 where
  pub horizontal : Bool
  pub major : ℕ
  pub minor : ℕ

-- The wall of a cell in a direction.
abbrev pub wall_of : (x y : ℕ) → Direction → Wall
wall_of x y north = record { horizontal = true; major = x; minor = y + 1 }
wall_of x y east = record { horizontal = false; major = y; minor = x + 1 }
wall_of x y south = record { horizontal = true; major = x; minor = y }
wall_of x y west = record { horizontal = false; major = y; minor = x }

abbrev pub major_size : Map → Bool → ℕ
major_size m true = m.width
major_size m false = m.height

abbrev pub minor_size : Map → Bool → ℕ
minor_size m true = m.height
minor_size m false = m.width

abbrev pub start : Map → Bool → ℕ
start m true = h_start m
start m false = 0

-- Not on or outside of the border.
pub record IsInner (m : Map) (w : Wall) : Type 0 where
  pub above : 0 < w.minor
  pub below : w.minor < minor_size m w.horizontal
  pub inside : w.major < major_size m w.horizontal

abbrev pub get_at : Map → Wall → Bool
get_at m w =
    get_flag w.major (major_size m w.horizontal) w.minor (minor_size m w.horizontal)
      (start m w.horizontal) m.wall_buff

abbrev pub set_at : Map → Wall → Bool → Map
set_at m w b = record m {
  wall_buff =
      set_flag w.major (major_size m w.horizontal) w.minor (minor_size m w.horizontal)
        (start m w.horizontal) b m.wall_buff;
}

pub get_wall-get_at :
    (x y : ℕ) (d : Direction) (m : Map) → get_wall x y d m ≡ get_at m (wall_of x y d)
unfolding get_wall
get_wall-get_at x y north m = refl
get_wall-get_at x y east m = refl
get_wall-get_at x y south m = refl
get_wall-get_at x y west m = refl

pub set_wall-set_at :
    (x y : ℕ) (d : Direction) (b : Bool) (m : Map) → set_wall x y d b m ≡ set_at m (wall_of x y d) b
unfolding set_wall
set_wall-set_at x y north b m = refl
set_wall-set_at x y east b m = refl
set_wall-set_at x y south b m = refl
set_wall-set_at x y west b m = refl

-- The bit of a wall.
abbrev pub bit_of : Map → Wall → ℕ
bit_of m w = start m w.horizontal + get_index w.major (minor_size m w.horizontal) w.minor

pub get_at-inner :
    (m : Map) (w : Wall) → IsInner m w → get_at m w ≡ get_or m.wall_buff (bit_of m w) false
unfolding get_flag
get_at-inner m w i = ground (arith, i.above, i.below, i.inside)

pub set_at-inner :
    (m : Map) (w : Wall) (b : Bool)
    → IsInner m w
    → set_at m w b ≡ record m { wall_buff = set m.wall_buff (bit_of m w) b }
unfolding set_flag
set_at-inner m w true i = ground (arith, i.above, i.below, i.inside)
set_at-inner m w false i = ground (arith, i.above, i.below, i.inside)

-- The inner walls of one direction.
abbrev pub wall_count : (major minor : ℕ) → ℕ
wall_count major minor = major * (minor - 1)

-- The vertical walls end before the horizontal ones start, and these end in the buffer.
pub record IsSound (m : Map) : Type 0 where
  pub apart : wall_count m.height m.width ≤ h_start m
  pub fits : h_start m + wall_count m.width m.height ≤ length m.wall_buff

abbrev wall : Bool → ℕ → ℕ → Wall
wall h a b = record { horizontal = h; major = a; minor = b }

index_inside :
    (m : Map) (w : Wall)
    → IsInner m w
    → get_index w.major (minor_size m w.horizontal) w.minor
      < wall_count (major_size m w.horizontal) (minor_size m w.horizontal)
index_inside m w i =
    let lt =
      index-lt (minor_size m w.horizontal - 1) (major_size m w.horizontal) w.major (w.minor - 1)
        (omega (arith, i.above, i.below)) i.inside in
    omega (arith, i.above)

bit_unique :
    (m : Map) (h h' : Bool) (a b c d : ℕ)
    → IsSound m
    → IsInner m (wall h a b)
    → IsInner m (wall h' c d)
    → bit_of m (wall h a b) ≡ bit_of m (wall h' c d)
    → wall h a b ≡ wall h' c d
bit_unique m true true a b c d v i j e =
    let at =
      place_unique (m.height - 1) a (b - 1) c (d - 1) (omega (arith, i.above, i.below))
        (omega (arith, j.above, j.below)) (omega (arith, i.above, j.above)) in
    ap₂ (λ (r s : ℕ). wall true r s) at.0 (omega (arith, at.1, i.above, j.above))
bit_unique m false false a b c d v i j e =
    let at =
      place_unique (m.width - 1) a (b - 1) c (d - 1) (omega (arith, i.above, i.below))
        (omega (arith, j.above, j.below)) (omega (arith, i.above, j.above)) in
    ap₂ (λ (r s : ℕ). wall false r s) at.0 (omega (arith, at.1, i.above, j.above))
bit_unique m true false a b c d v i j e =
    absurd (omega (arith, index_inside m (wall false c d) j, v.apart))
bit_unique m false true a b c d v i j e =
    absurd (omega (arith, index_inside m (wall false a b) i, v.apart))

bit_in :
    (m : Map) (h : Bool) (a b : ℕ)
    → IsSound m
    → IsInner m (wall h a b)
    → bit_of m (wall h a b) < length m.wall_buff
bit_in m true a b v i = omega (arith, index_inside m (wall true a b) i, v.fits)
bit_in m false a b v i = omega (arith, index_inside m (wall false a b) i, v.fits, v.apart)

-- The test that leaves the border out.
abbrev is_outer : Map → Wall → Bool
is_outer m w =
    out_of_bounds_minor w.minor (minor_size m w.horizontal)
    || out_of_bounds_major w.major (major_size m w.horizontal)

inner : (m : Map) (w : Wall) → is_outer m w ≡ false → IsInner m w
inner m w h = record { above = ground arith; below = ground arith; inside = ground arith }

outer-get : (m : Map) (w : Wall) → is_outer m w ≡ true → get_at m w ≡ true
unfolding get_flag
outer-get m w h = rw h refl

outer-set : (m : Map) (w : Wall) (b : Bool) → is_outer m w ≡ true → set_at m w b ≡ m
unfolding set_flag
outer-set m w b h = rw h refl

other_at :
    (m : Map) (w u : Wall) (b : Bool) → IsSound m → w ≢ u → get_at (set_at m w b) u ≡ get_at m u
other_at m w u b v n = elim (Bool-cases (is_outer m u)) [
  | inl o ↦ outer-get (set_at m w b) u o ∙ sym (outer-get m u o)
  | inr o ↦ elim (Bool-cases (is_outer m w)) [
    | inl p ↦ ap (λ r. get_at r u) (outer-set m w b p)
    | inr p ↦
        let i = inner m w p in
        let j = inner m u o in
        let differ : bit_of m w ≢ bit_of m u =
          λ e. n (bit_unique m w.horizontal u.horizontal w.major w.minor u.major u.minor v i j e) in
        ap (λ r. get_at r u) (set_at-inner m w b i)
        ∙ get_at-inner (record m { wall_buff = set m.wall_buff (bit_of m w) b }) u
            (record { above = j.above; below = j.below; inside = j.inside })
        ∙ get_or-set_ne m.wall_buff (bit_of m w) (bit_of m u) b false differ
        ∙ sym (get_at-inner m u j)
  ]
]

-- On a sound map, a wall that is not on the border is as it was set.
pub get_wall-set_wall :
    (x y : ℕ) (d : Direction) (b : Bool) (m : Map)
    → IsSound m
    → IsInner m (wall_of x y d)
    → get_wall x y d (set_wall x y d b m) ≡ b
get_wall-set_wall x y d b m v i =
    let w = wall_of x y d in
    get_wall-get_at x y d (set_wall x y d b m)
    ∙ ap (λ r. get_at r w) (set_wall-set_at x y d b m ∙ set_at-inner m w b i)
    ∙ get_at-inner (record m { wall_buff = set m.wall_buff (bit_of m w) b }) w
        (record { above = i.above; below = i.below; inside = i.inside })
    ∙ get_or-set_self m.wall_buff (bit_of m w) b false (bit_in m w.horizontal w.major w.minor v i)

-- On a sound map, setting a wall changes no other wall, seen from any cell.
pub get_wall-set_wall_ne :
    (x y : ℕ) (d : Direction) (b : Bool) (x' y' : ℕ) (d' : Direction) (m : Map)
    → IsSound m
    → wall_of x y d ≢ wall_of x' y' d'
    → get_wall x' y' d' (set_wall x y d b m) ≡ get_wall x' y' d' m
get_wall-set_wall_ne x y d b x' y' d' m v n =
    get_wall-get_at x' y' d' (set_wall x y d b m)
    ∙ ap (λ r. get_at r (wall_of x' y' d')) (set_wall-set_at x y d b m)
    ∙ other_at m (wall_of x y d) (wall_of x' y' d') b v n
    ∙ sym (get_wall-get_at x' y' d' m)
