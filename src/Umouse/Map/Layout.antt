-- ===== src/Umouse/Map/Layout.antt =====
-- Where MapInit puts the horizontal walls.
use kernelpanic.Common.{
  ℕ, zero, suc, ◌-◌, ◌*◌, ◌/◌, ◌%◌, ◌≤◌, ◌<◌, ◌≡◌, refl, ap, ap₂, ◌∙◌, true, false, some, arith,
  leb, length, get_or, set, replicate, length-replicate, get_or-set_self, ◌^◌, ◌+◌,
}
use native.Mathlib.Nat.{mod-lt, div-lt_iff_lt-mul, div-add-mod}
use kernelpanic.Utils.Bitmap
use kernelpanic.Umouse.Map.{
  Map, north, east, bits_needed, dimension_size_needed, size_needed, h_start, get_wall, set_wall,
  init,
}
use kernelpanic.Umouse.Map.Walls.{
  wall_count, wall_of, IsInner, IsSound, bit_of, get_at, get_at-inner, set_at-inner,
  get_wall-get_at, set_wall-set_at,
}

-- BitmapSize rounds up.
size-le : (n : ℕ) → n ≤ Bitmap.size n * 32
size-le n = ground arith

size_below : (n : ℕ) → Bitmap.size n ≤ n / 32 + 1
size_below n = ground arith

leb_of_le : (a b : ℕ) → a ≤ b → leb a b ≡ true
leb_of_le a b h = ground arith

-- The map that MapInit makes.
abbrev pub cleared : (len w h : ℕ) → Map
cleared len w h = record {
  wall_buff = replicate (len * 32) false;
  h_walls = dimension_size_needed w h;
  height = h;
  width = w;
}

init-cleared : (len w h : ℕ) → size_needed w h ≤ len → init len w h ≡ some (cleared len w h)
unfolding init
init-cleared len w h b =
    let enough : leb (size_needed w h) len ≡ true = leb_of_le (size_needed w h) len b in
    rw enough refl

-- In a maze of some rows and fewer than 2 ^ 64 cells the count of the walls does not wrap.
bits_needed-wall_count :
    (major minor : ℕ)
    → 0 < minor
    → minor < 2 ^ 64
    → major * minor < 2 ^ 64
    → bits_needed major minor ≡ wall_count major minor
bits_needed-wall_count major minor some_row narrow few =
    let less : (minor + 2 ^ 64 - 1) % 2 ^ 64 ≡ minor - 1 = omega arith in
    let fewer : major * (minor - 1) ≤ major * minor =
      mul_le major (minor - 1) minor (omega arith) in
    rw less (omega (arith, fewer))
  where
    mul_le : (k a b : ℕ) → a ≤ b → k * a ≤ k * b
    mul_le k a b h = grind arith

-- For a maze of some rows and columns and fewer than 2 ^ 64 cells, MapInit with a buffer of
-- MapSizeNeeded words gives a sound map if both directions need the same number of words, as in a
-- square maze.
pub init-IsSound :
    (len w h : ℕ)
    → 0 < w
    → 0 < h
    → w < 2 ^ 64
    → h < 2 ^ 64
    → w * h < 2 ^ 64
    → size_needed w h ≤ len
    → dimension_size_needed w h ≡ dimension_size_needed h w
    → (m : Map) × (init len w h ≡ some m) × IsSound m
init-IsSound len w h columns_pos rows_pos narrow low few room same =
    let long = length-replicate (len * 32) false in
    let no_wrap : size_needed w h ≡ dimension_size_needed w h + dimension_size_needed h w =
      omega (arith, size_below (bits_needed w h), size_below (bits_needed h w)) in
    let across = bits_needed-wall_count w h rows_pos low few in
    let down = bits_needed-wall_count h w columns_pos narrow (omega (arith, few, mul_comm w h)) in
    (
      cleared len w h,
      init-cleared len w h room,
      record {
        apart = omega (arith, size-le (bits_needed h w), down, same);
        fits = omega (
          arith,
          size-le (bits_needed h w),
          size-le (bits_needed w h),
          across,
          down,
          same,
          room,
          no_wrap,
          long,
        );
      },
    )
  where
    mul_comm : (a b : ℕ) → a * b ≡ b * a
    mul_comm a b = grind arith

-- Something is less than a product only if its second factor is not 0.
columns : (h n s : ℕ) → s < h * n → 0 < n
columns h zero s l = absurd (omega arith)
columns h (suc n) s l = omega arith

-- On a map of more than one row and of some columns, whose vertical walls need more bits than stand
-- before the horizontal ones, and whose horizontal walls start in the buffer, setting a certain inner
-- vertical wall makes the horizontal wall north of the cell (0, 0) read as set.
pub walls_overlap :
    (m : Map)
    → h_start m < wall_count m.height m.width
    → h_start m < length m.wall_buff
    → 1 < m.height
    → 0 < m.width
    → (x : ℕ) × (y : ℕ) × IsInner m (wall_of x y east)
      × (get_wall 0 0 north (set_wall x y east true m) ≡ true)
walls_overlap m more_bits in_buff two one =
    let n = m.width - 1 in
    let s = h_start m in
    let n_pos : 0 < n = columns m.height n s more_bits in
    let x = s % n in
    let y = s / n in
    let x_in : x < n = mod-lt s n_pos in
    let y_in : y < m.height = (div-lt_iff_lt-mul n_pos).1 more_bits in
    let i : IsInner m (wall_of x y east) = record {
      above = omega arith;
      below = omega arith;
      inside = y_in;
    } in
    let at : bit_of m (wall_of x y east) ≡ s = omega (arith, div-add-mod s n) in
    let north_at : bit_of m (wall_of 0 0 north) ≡ s = omega arith in
    let buff = set m.wall_buff (bit_of m (wall_of x y east)) true in
    (
      x,
      y,
      i,
      get_wall-get_at 0 0 north (set_wall x y east true m)
          ∙ ap (λ r. get_at r (wall_of 0 0 north))
              (set_wall-set_at x y east true m ∙ set_at-inner m (wall_of x y east) true i)
          ∙ get_at-inner (record m { wall_buff = buff }) (wall_of 0 0 north)
              (record { above = omega arith; below = two; inside = one })
          ∙ ap₂ (λ (a b : ℕ). get_or (set m.wall_buff a true) b false) at north_at
          ∙ get_or-set_self m.wall_buff s true false in_buff,
    )
