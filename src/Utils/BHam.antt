-- ===== src/Utils/BHam.antt =====
-- utils/bham.c: a signal for a part of the ticks, after Bresenham.
pub mod Slope
mod Tests
use kernelpanic.Common.{
  ℕ, zero, suc, ◌+◌, ◌-◌, ◌*◌, ◌/◌, ◌%◌, ◌^◌, ◌≤◌, ◌<◌, min, ◌≡◌, refl, sym, ap, ap₂, ◌∙◌, subst,
  ◌≢◌, ◌⊎◌, inl, inr, Bool, true, false, not, ◌&&◌, ◌||◌, Option, none, some, List, [], ◌∷◌, ◌++◌,
  append-nil, append_assoc, arith, ltb, leb, ◌==◌, if◌then◌else◌, Bool-cases, ltb→lt, ltb→le,
  eqb→eq, eqb→ne, eqb_of_ne, eqb_refl, length, get_or, set, take, drop, replicate, length-append,
  length-set, length-replicate, length-take, length-drop, take-append-drop, get_or-set_self,
  get_or-set_ne, length-snoc, prefix_of_append, All, All-append, All-front, All-map, All-zip,
  Distinct, Distinct-snoc,
}
use kernelpanic.Common.Outcome.{Outcome, ok, panic, ◌>>=◌, ◌>>◌, assert}

-- `struct BHAM`. `Error` is an int of 32 bits, in two's complement; a sum with a size_t is cut to it.
pub record BHam : Type 0 where
  pub x : ℕ
  pub y : ℕ
  pub error : ℕ

-- The int is greater than 0.
abbrev pub is_positive : ℕ → Bool
is_positive e = ltb 0 e && ltb e (2 ^ 31)

-- The int that is left of `a - b`.
abbrev pub sub_int : ℕ → ℕ → ℕ
sub_int a b = (a + 2 ^ 32 - b % 2 ^ 32) % 2 ^ 32

-- `BHamInit`
unfoldable pub init : (x y : ℕ) → Outcome BHam
init x y = do assert (leb y x); ok (record { x = x; y = y; error = sub_int 0 x })

-- `BHamTick`: whether to signal.
unfoldable pub tick : BHam → Bool × BHam
tick b =
    let e = (b.error + b.y) % 2 ^ 32 in
    if is_positive e
    then (true, record b { error = sub_int e b.x })
    else (false, record b { error = e })
