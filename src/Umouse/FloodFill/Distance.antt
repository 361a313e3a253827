-- ===== src/Umouse/FloodFill/Distance.antt =====
-- FloodFillCalculate ends, and its values are the distances from the destinations.
use kernelpanic.Common.{
  ℕ, zero, suc, ◌*◌, ◌/◌, ◌%◌, ◌^◌, ◌≤◌, ◌<◌, ◌≡◌, refl, sym, ap, ap₂, ◌∙◌, ◌≢◌, ◌⊎◌, inl, inr,
  Bool, true, false, none, some, List, [], ◌∷◌, arith, ltb, ◌==◌, Bool-cases, ltb→lt, ltb→le,
  eqb→eq, eqb→ne, eqb_of_ne, get_or, set, length-set, get_or-set_ne,
}
use native.Mathlib.Nat.{mod-lt, div-lt_iff_lt-mul, div-add-mod'}
use kernelpanic.Utils.Bitmap
use kernelpanic.Utils.Bitmap.Flags.{get_first_flag-Searched}
use kernelpanic.Umouse.Map.{Map}
use kernelpanic.Umouse.FloodFill.{FloodMap, get_event, spread, calculate}
use kernelpanic.Umouse.FloodFill.Grid.{Cell, at, IsSquare, IsSized, value, has_event, size-le}
use kernelpanic.Umouse.FloodFill.Weight.{
  weight, event_weight, event_weight_pos, four_less, weigh-off,
}
use kernelpanic.Umouse.FloodFill.Invariant.{Way, here, step, Inv}
use kernelpanic.Umouse.FloodFill.Turns.{Turning, spread_from, extra, extra_lem}

-- The flag of a cell turned off.
abbrev flag_off : FloodMap → ℕ → FloodMap
flag_off s i = record s { event_map = set s.event_map i false }

event_at :
    (s : FloodMap) (i : ℕ)
    → Bitmap.get_first_flag s.event_map (s.width * s.height) ≡ i
    → (i == Bitmap.minus_one) ≡ false
    → get_event s ≡ some (i % s.height, i / s.width, flag_off s i)
unfolding get_event
event_at s i e ne =
    rw (get_event, ap (λ j. j == Bitmap.minus_one) e ∙ ne)
      (ap (λ j. some (j % s.height, j / s.width, flag_off s j)) e)

no_event :
    (s : FloodMap)
    → Bitmap.get_first_flag s.event_map (s.width * s.height) ≡ Bitmap.minus_one
    → get_event s ≡ none
unfolding get_event
no_event s e = rw (e, get_event) refl

-- Turning a flag off turns none on.
set_off :
    (es : List Bool) (j i : ℕ) → get_or es j false ≡ false → get_or (set es i false) j false ≡ false
set_off [] j i h = refl
set_off (b ∷ es) zero zero h = refl
set_off (b ∷ es) zero (suc i) h = h
set_off (b ∷ es) (suc j) zero h = h
set_off (b ∷ es) (suc j) (suc i) h = set_off es j i h

-- What FloodGetEvent finds.
Found : ℕ → FloodMap → Type 0
Found n s =
    (get_event s ≡ none) × ((j : ℕ) → has_event s j ≡ false)
    ⊎ (i : ℕ) × (get_event s ≡ some (i % n, i / n, flag_off s i)) × (has_event s i ≡ true)

get_event_lem : (n : ℕ) (s : FloodMap) → n * n < 2 ^ 64 → IsSized n s → Found n s
unfolding Found
get_event_lem n s few z =
    let first = Bitmap.get_first_flag s.event_map (n * n) in
    let items : s.width * s.height ≡ n * n = ap₂ (λ a b. a * b) z.width z.height in
    elim (get_first_flag-Searched s.event_map (n * n)) [
      | inl (is, clear) ↦ inl (
        no_event s (ap (Bitmap.get_first_flag s.event_map) items ∙ is),
        λ j. elim (Bool-cases (ltb j (n * n))) [
          | inl l ↦ clear j (omega (arith, ltb→lt j (n * n) l, size-le (n * n)))
          | inr g ↦ z.no_others j (ltb→le j (n * n) g)
        ],
      )
      | inr (low, on, before) ↦
          let lt : first < n * n = elim (Bool-cases (ltb first (n * n))) [
            | inl l ↦ ltb→lt first (n * n) l
            | inr g ↦ absurd (true-ne-false (sym on ∙ z.no_others first (ltb→le first (n * n) g)))
          ] in
          inr (
            first,
            event_at s first (ap (Bitmap.get_first_flag s.event_map) items)
                  (eqb_of_ne first Bitmap.minus_one (λ e. absurd (omega (arith, e, lt, few))))
                ∙ ap₂ (λ a b. some (first % a, first / b, flag_off s first)) z.height z.width,
            on,
          )
    ]
  where
    true-ne-false : true ≢ false
    true-ne-false h = cc

module _ (n : ℕ) (m : Map) (dest : ℕ → ℕ → Type 0) (others : ℕ → Type 0) where
  off-Turning :
      {s : FloodMap} (i : ℕ)
      → Inv n m dest others s
      → Turning n m dest others i (value s i) (flag_off s i)
  off-Turning {s} i v = record {
    inv = record {
      sized = record {
        width = v.sized.width;
        height = v.sized.height;
        values = v.sized.values;
        events = length-set s.event_map i false ∙ v.sized.events;
        no_others = λ j l. still_off j (v.sized.no_others j l);
      };
      bounded = v.bounded;
      real = v.real;
      start_at = v.start_at;
      told = λ a b e h. elim (Bool-cases (a == i)) [
        | inl same ↦ inr (inl (eqb→eq a i same))
        | inr other ↦
            elim (v.told a b e (
              sym (get_or-set_ne s.event_map i a false false (λ e. eqb→ne a i other (sym e)))
              ∙ h)) [ inl le ↦ inl le | inr before ↦ inr (inr before) ]
      ];
    };
    at_c = refl;
  }
    where
      still_off : (j : ℕ) → has_event s j ≡ false → get_or (set s.event_map i false) j false ≡ false
      still_off j h = set_off s.event_map j i h

  record TurnDone (i : ℕ) (s : FloodMap) : Type 0 where
    inv : Inv n m dest others (spread m (i % n) (i / n) (flag_off s i))
    lighter : weight (spread m (i % n) (i / n) (flag_off s i)) < weight s

  turn_done :
      (s : FloodMap) (i : ℕ)
      → IsSquare n m
      → Inv n m dest others s
      → has_event s i ≡ true
      → TurnDone i s
  turn_done s i sq v on =
      let lt : i < n * n = elim (Bool-cases (ltb i (n * n))) [
        | inl l ↦ ltb→lt i (n * n) l
        | inr g ↦ absurd (true-ne-false (sym on ∙ v.sized.no_others i (ltb→le i (n * n) g)))
      ] in
      let pos : 0 < n = some_side n lt in
      let cell : Cell n (i % n) (i / n) = (mod-lt i pos, (div-lt_iff_lt-mul pos).1 lt) in
      let is : i ≡ at n (i % n) (i / n) = sym (div-add-mod' i n) in
      let done =
        spread_from n m dest others i (value s i) (flag_off s i) (i % n) (i / n) sq cell is
          (off-Turning i v) in
      record {
        inv = done.inv;
        lighter = omega (
          arith,
          done.weighs,
          weigh-off s.event_map s.flood_map i on (omega (arith, v.sized.values)),
          four_extra (value s i),
        );
      }
    where
      true-ne-false : true ≢ false
      true-ne-false h = cc

      some_side : (k : ℕ) → i < k * k → 0 < k
      some_side zero h = absurd (omega arith)
      some_side (suc k) h = omega arith

      four_extra : (cur : ℕ) → 4 * extra cur < event_weight cur
      four_extra cur = elim (Bool-cases (ltb cur 255)) [
        | inl l ↦ omega (arith, extra_lem (ltb→lt cur 255 l), four_less cur (ltb→lt cur 255 l))
        | inr g ↦ rw g (event_weight_pos cur)
      ]

  -- The run of FloodFillCalculate with enough fuel.
  pub record Calculated (fuel : ℕ) (s : FloodMap) : Type 0 where
    pub last : FloodMap
    pub returns : calculate fuel m s ≡ some last
    pub inv : Inv n m dest others last
    pub quiet : (j : ℕ) → has_event last j ≡ false

  pub calculate_lem :
      (fuel : ℕ) (s : FloodMap)
      → IsSquare n m
      → Inv n m dest others s
      → weight s < fuel
      → Calculated fuel s
  unfolding calculate Found
  calculate_lem zero s sq v h = absurd (omega arith)
  calculate_lem (suc fuel) s sq v h = elim (get_event_lem n s sq.cells v.sized) [
    | inl none_left ↦ record {
      last = s;
      returns = rw (none_left.0, calculate) refl;
      inv = v;
      quiet = none_left.1;
    }
    | inr found ↦
        let done = turn_done s found.0 sq v found.2 in
        let rest =
          calculate_lem fuel (spread m (found.0 % n) (found.0 / n) (flag_off s found.0)) sq done.inv
            (omega (arith, done.lighter)) in
        record {
          last = rest.last;
          returns = rw (found.1, calculate) rest.returns;
          inv = rest.inv;
          quiet = rest.quiet;
        }
  ]

-- With no event left, and every cell's neighbours told, a value is at most the length of any way.
pub value-le :
    {n : ℕ} {m : Map} {dest : ℕ → ℕ → Type 0} {s : FloodMap} {i k : ℕ}
    → Inv n m dest (λ i. ⊥) s
    → ((j : ℕ) → has_event s j ≡ false)
    → Way n m dest i k
    → value s i ≤ k
value-le {s} v quiet (here {i} {k} d) = v.start_at i k d
value-le {s} v quiet (step {i} {j} w e) = elim (v.told i j e (quiet i)) [
  | inl le ↦ omega (arith, value-le v quiet w)
  | inr never ↦ absurd never
]
