-- ===== src/Umouse/FloodFill/Weight.antt =====
-- The measure of FloodFillCalculate: an event at a value v weighs 5 ^ (255 - v). Its turn takes it
-- off and puts at most four events at v + 1 in its place.
use kernelpanic.Common.{
  ℕ, zero, suc, ◌+◌, ◌-◌, ◌*◌, ◌^◌, ◌≤◌, ◌<◌, ◌≡◌, refl, Bool, true, false, List, [], ◌∷◌, arith,
  if◌then◌else◌, length, get_or, set,
}
use native.Mathlib.Nat.{pow-suc, suc-mul}
use kernelpanic.Umouse.FloodFill.{FloodMap}

abbrev pub event_weight : ℕ → ℕ
event_weight v = 5 ^ (255 - v)

-- Over the cells whose value is in the buffer.
pub weigh : List Bool → List ℕ → ℕ
weigh [] vs = 0
weigh (b ∷ es) [] = 0
weigh (b ∷ es) (v ∷ vs) = (if b then event_weight v else 0) + weigh es vs

abbrev pub weight : FloodMap → ℕ
weight s = weigh s.event_map s.flood_map

pow5_pos : (k : ℕ) → 0 < 5 ^ k
pow5_pos zero = omega arith
pow5_pos (suc k) = omega (arith, pow-suc 5 k, pow5_pos k)

pub event_weight_pos : (v : ℕ) → 0 < event_weight v
event_weight_pos v = pow5_pos (255 - v)

-- Four events further out weigh less than the one that they come from.
pub four_less : (v : ℕ) → v < 255 → 4 * event_weight (v + 1) < event_weight v
four_less v h =
    let k : ℕ = 254 - v in
    let here : 255 - v ≡ suc (254 - v) = omega arith in
    let next : 255 - (v + 1) ≡ 254 - v = omega arith in
    rw (here, next) (omega (arith, pow-suc 5 (254 - v), pow5_pos (254 - v)))

pub weigh-put :
    (es : List Bool) (vs : List ℕ) (i v : ℕ)
    → weigh (set es i true) (set vs i v) ≤ weigh es vs + event_weight v
unfolding weigh
weigh-put [] vs i v = omega arith
weigh-put (b ∷ es) [] zero v = omega arith
weigh-put (b ∷ es) [] (suc i) v = omega arith
weigh-put (b ∷ es) (w ∷ vs) zero v = omega arith
weigh-put (b ∷ es) (w ∷ vs) (suc i) v = omega (arith, weigh-put es vs i v)

pub weigh-off :
    (es : List Bool) (vs : List ℕ) (i : ℕ)
    → get_or es i false ≡ true
    → i < length vs
    → weigh (set es i false) vs + event_weight (get_or vs i 255) ≡ weigh es vs
unfolding weigh
weigh-off [] vs i on h = absurd (cc)
weigh-off (b ∷ es) [] i on h = absurd (omega arith)
weigh-off (b ∷ es) (w ∷ vs) zero on h = rw on (omega arith)
weigh-off (b ∷ es) (w ∷ vs) (suc i) on h = omega (arith, weigh-off es vs i on (omega arith))

pub weigh-quiet :
    (es : List Bool) (vs : List ℕ) → ((i : ℕ) → get_or es i false ≡ false) → weigh es vs ≡ 0
unfolding weigh
weigh-quiet [] vs h = refl
weigh-quiet (b ∷ es) [] h = refl
weigh-quiet (b ∷ es) (v ∷ vs) h = rw (h 0) (omega (arith, weigh-quiet es vs (λ i. h (suc i))))

pow5_mono : (a b : ℕ) → a ≤ b → 5 ^ a ≤ 5 ^ b
pow5_mono a zero h = let z : a ≡ 0 = omega arith in rw z (omega arith)
pow5_mono zero (suc b) h = omega (arith, pow5_pos (suc b))
pow5_mono (suc a) (suc b) h = omega (arith, pow-suc 5 a, pow-suc 5 b, pow5_mono a b (omega arith))

-- The measure has a bound that the size of the maze gives.
pub weigh-le : (es : List Bool) (vs : List ℕ) → weigh es vs ≤ length vs * 5 ^ 255
unfolding weigh
weigh-le [] vs = omega arith
weigh-le (b ∷ es) [] = omega arith
weigh-le (b ∷ es) (v ∷ vs) =
    ground
      (arith, weigh-le es vs, suc-mul (length vs) (5 ^ 255), pow5_mono (255 - v) 255 (omega arith))
