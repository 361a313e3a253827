-- ===== src/Utils/BHam/Slope.antt =====
-- How many of the first ticks signal.
use kernelpanic.Common.{
  ℕ, zero, suc, ◌+◌, ◌-◌, ◌*◌, ◌^◌, ◌≤◌, ◌<◌, ◌≡◌, refl, sym, ap, ◌∙◌, subst, inl, inr, Bool, true,
  false, arith, leb, if◌then◌else◌, Bool-cases,
}
use native.Mathlib.Nat.{suc-mul}
use kernelpanic.Common.Outcome.{ok}
use kernelpanic.Utils.BHam.{BHam, init, tick, sub_int}

-- The signals of the next `n` ticks, and the state.
unfoldable pub ticks : ℕ → BHam → ℕ × BHam
unfolding tick
ticks zero b = (0, b)
ticks (suc n) b = ((if (tick b).0 then 1 else 0) + (ticks n (tick b).1).0, (ticks n (tick b).1).1)

-- The error stands `d` below 0.
record IsBelow (x y d : ℕ) (b : BHam) : Type 0 where
  same_x : b.x ≡ x
  same_y : b.y ≡ y
  at : b.error ≡ sub_int 0 d

stays :
    (x y d : ℕ) (b : BHam)
    → y ≤ d
    → d ≤ x
    → x < 2 ^ 31
    → IsBelow x y d b
    → ((tick b).0 ≡ false) × IsBelow x y (d - y) (tick b).1
unfolding tick
stays x y d b l m h i = (
  ground (arith, i.same_x, i.same_y, i.at),
  record {
    same_x = ground (arith, i.same_x, i.same_y, i.at);
    same_y = ground (arith, i.same_x, i.same_y, i.at);
    at = ground (arith, i.same_x, i.same_y, i.at);
  },
)

steps :
    (x y d : ℕ) (b : BHam)
    → d < y
    → y ≤ x
    → x < 2 ^ 31
    → IsBelow x y d b
    → ((tick b).0 ≡ true) × IsBelow x y (d + x - y) (tick b).1
unfolding tick
steps x y d b l m h i = (
  ground (arith, i.same_x, i.same_y, i.at),
  record {
    same_x = ground (arith, i.same_x, i.same_y, i.at);
    same_y = ground (arith, i.same_x, i.same_y, i.at);
    at = ground (arith, i.same_x, i.same_y, i.at);
  },
)

-- After `n` ticks from `d` below 0 the signals `k` make up for what was added.
record Ran (x y d n k : ℕ) (b : BHam) : Type 0 where
  below : ℕ
  is_below : IsBelow x y below b
  sum : n * y + below ≡ d + k * x
  in_range : below < x

module _ (x y : ℕ) (flat : y ≤ x) (small : x < 2 ^ 31) where
  zero_more : (k : ℕ) → (0 + k) * x ≡ k * x
  zero_more k = ap (λ (t : ℕ). t * x) (omega arith)

  one_more : (k : ℕ) → (1 + k) * x ≡ k * x + x
  one_more k = ap (λ (t : ℕ). t * x) (omega arith) ∙ suc-mul k x

  run : (n d : ℕ) (b : BHam) → d < x → IsBelow x y d b → Ran x y d n (ticks n b).0 (ticks n b).1
  unfolding ticks
  run zero d b l i = record { below = d; is_below = i; sum = omega arith; in_range = l }
  run (suc n) d b l i = elim (Bool-cases (leb y d)) [
    | inl h ↦
        let (quiet, next) = stays x y d b (ground arith) (omega arith) small i in
        let r = run n (d - y) (tick b).1 (omega arith) next in
        let k = (ticks n (tick b).1).0 in
        subst (λ w. Ran x y d (suc n) ((if w then 1 else 0) + k) (ticks n (tick b).1).1) (sym quiet)
          (record {
            below = r.below;
            is_below = r.is_below;
            sum = let le : y ≤ d = ground arith in omega (arith, r.sum, suc-mul n y, zero_more k);
            in_range = r.in_range;
          })
    | inr h ↦
        let (signal, next) = steps x y d b (ground arith) flat small i in
        let r = run n (d + x - y) (tick b).1 (ground arith) next in
        let k = (ticks n (tick b).1).0 in
        subst (λ w. Ran x y d (suc n) ((if w then 1 else 0) + k) (ticks n (tick b).1).1)
          (sym signal)
          (record {
            below = r.below;
            is_below = r.is_below;
            sum = let gt : d < y = ground arith in omega (arith, r.sum, suc-mul n y, one_more k);
            in_range = r.in_range;
          })
  ]

init-runs : (x y : ℕ) → y ≤ x → init x y ≡ ok (record { x = x; y = y; error = sub_int 0 x })
unfolding init
init-runs x y h = ground arith

-- After any number of ticks, at least one, the signals are the part y / x of them, less than one
-- signal short: for 0 < y ≤ x < 2 ^ 31, BHamInit passes its check, and the k signals of the
-- first n ticks have k * x < n * y ≤ (k + 1) * x.
pub ticks_lem :
    (x y n : ℕ)
    → 0 < y
    → y ≤ x
    → x < 2 ^ 31
    → 0 < n
    → (b : BHam) × (init x y ≡ ok b)
      × ((ticks n b).0 * x < n * y)
      × (n * y ≤ ((ticks n b).0 + 1) * x)
ticks_lem x y zero p flat small pos = absurd (omega arith)
ticks_lem x y (suc n) p flat small pos =
    let b : BHam = record { x = x; y = y; error = sub_int 0 x } in
    let (quiet, next) =
      stays x y x b flat (omega arith) small (record { same_x = refl; same_y = refl; at = refl }) in
    let r = run x y flat small n (x - y) (tick b).1 (omega arith) next in
    let k = (ticks n (tick b).1).0 in
    let first : (ticks (suc n) b).0 ≡ k =
      unfold ticks in ap (λ (w : Bool). (if w then 1 else 0) + k) quiet ∙ omega arith in
    (
      b,
      init-runs x y flat,
      subst (λ (t : ℕ). t * x < suc n * y) (sym first)
          (omega (arith, r.sum, r.in_range, suc-mul n y)),
      subst (λ (t : ℕ). suc n * y ≤ (t + 1) * x) (sym first)
          (omega (arith, r.sum, suc-mul n y, last x k)),
    )
  where
    last : (w k : ℕ) → (k + 1) * w ≡ k * w + w
    last w k = ap (λ (t : ℕ). t * w) (omega arith) ∙ suc-mul k w
