-- ===== src/Umouse/FloodFill/Start.antt =====
-- FloodFillSetDestination, on cleared buffers, sets up the invariant.
use kernelpanic.Common.{
  ℕ, ◌*◌, ◌≤◌, ◌<◌, ◌≡◌, refl, sym, ap, ◌∙◌, subst, ◌⊎◌, inl, inr, List, [], ◌∷◌, arith, ◌==◌,
  Bool-cases, eqb→eq, eqb_refl, length,
}
use native.Mathlib.Nat.{suc-mul}
use kernelpanic.Umouse.FloodFill.Weight.{weight, event_weight, weigh-put, weigh-quiet}
use kernelpanic.Umouse.Map.{Map}
use kernelpanic.Umouse.Map.Walls.{index-lt}
use kernelpanic.Umouse.FloodFill.{FloodMap, set_destination}
use kernelpanic.Umouse.FloodFill.Grid.{Cell, at, value, put, put_lem}
use kernelpanic.Umouse.FloodFill.Invariant.{
  Way, here, step, Inv, value-put, put-le, put_event, put-IsSized,
}
use kernelpanic.Umouse.FloodFill.Clear.{Blank}

-- FloodFillSetDestination for each cell of a list, the last first.
unfoldable pub set_destinations : List (ℕ × ℕ) → FloodMap → FloodMap
unfolding set_destination
set_destinations [] s = s
set_destinations ((x, y) ∷ cells) s = set_destination x y (set_destinations cells s)

abbrev pub IsDestination : ℕ → List (ℕ × ℕ) → (i k : ℕ) → Type 0
IsDestination n [] i k = ⊥
IsDestination n ((x, y) ∷ cells) i k = (i ≡ at n x y) × (k ≡ 0) ⊎ IsDestination n cells i k

abbrev pub Cells : ℕ → List (ℕ × ℕ) → Type 0
Cells n [] = Unit
Cells n ((x, y) ∷ cells) = Cell n x y × Cells n cells

Way-more :
    {n : ℕ} {m : Map} {P Q : ℕ → ℕ → Type 0} {i k : ℕ}
    → ((i k : ℕ) → P i k → Q i k)
    → Way n m P i k
    → Way n m Q i k
Way-more f (here {i} {k} p) = here (f i k p)
Way-more f (step w e) = step (Way-more f w) e

module _ (n : ℕ) (m : Map) where
  Blank-Inv : {s : FloodMap} → Blank n s → Inv n m (IsDestination n []) (λ i. ⊥) s
  Blank-Inv {s} b = record {
    sized = b.sized;
    bounded = λ i. omega (arith, b.far i);
    real = λ i h. absurd (omega (arith, b.far i));
    start_at = λ i k d. absurd d;
    told = λ i j e h. inl (omega (arith, b.far i, b.far j));
  }

  IsDestination-Inv :
      {s : FloodMap} (x y : ℕ) (cells : List (ℕ × ℕ))
      → Cell n x y
      → Inv n m (IsDestination n cells) (λ i. ⊥) s
      → Inv n m (IsDestination n ((x, y) ∷ cells)) (λ i. ⊥) (put s (at n x y) 0)
  IsDestination-Inv {s} x y cells c v =
      let i = at n x y in
      let lt : i < n * n = index-lt n n y x c.0 c.1 in
      let now = value-put i 0 v.sized lt in
      record {
        sized = put-IsSized i 0 v.sized lt;
        bounded = λ j. ground (arith, now j, v.bounded j);
        real = λ j below. elim (Bool-cases (j == i)) [
          | inl same ↦ here (inl (eqb→eq j i same, now j ∙ rw same refl))
          | inr apart ↦
              let is : value (put s i 0) j ≡ value s j = now j ∙ rw apart refl in
              subst (Way n m (IsDestination n ((x, y) ∷ cells)) j) (sym is)
                (Way-more (λ i k d. inr d) (v.real j (omega arith)))
        ];
        start_at = λ j k d. elim d [
          | inl (same, z) ↦
              let is : value (put s i 0) j ≡ 0 =
                now j ∙ rw (ap (λ k. k == i) same ∙ eqb_refl i) refl in
              omega (arith, is)
          | inr old ↦ omega (arith, put-le i 0 v.sized lt (omega arith) j, v.start_at j k old)
        ];
        told = λ a b e off.
            let before = put_event i 0 v.sized lt a off in
            elim (v.told a b e before.1) [
              | inl le ↦ inl (ground (arith, now a, now b, before.0))
              | inr never ↦ absurd never
            ];
      }

  -- The set-up for a flood: the invariant, and a measure that grows with the destinations.
  pub record Ready (cells : List (ℕ × ℕ)) (s : FloodMap) : Type 0 where
    pub inv : Inv n m (IsDestination n cells) (λ i. ⊥) s
    pub weighs : weight s ≤ length cells * event_weight 0

  pub set_destinations-Ready :
      (cells : List (ℕ × ℕ)) (s : FloodMap)
      → Blank n s
      → Cells n cells
      → Ready cells (set_destinations cells s)
  unfolding set_destinations set_destination
  set_destinations-Ready [] s b c = record {
    inv = Blank-Inv b;
    weighs = omega (arith, weigh-quiet s.event_map s.flood_map b.quiet);
  }
  set_destinations-Ready ((x, y) ∷ cells) s b c =
      let old = set_destinations-Ready cells s b c.1 in
      let t = set_destinations cells s in
      subst (Ready ((x, y) ∷ cells)) (sym (put_lem n x y 0 t old.inv.sized c.0)) (record {
        inv = IsDestination-Inv x y cells c.0 old.inv;
        weighs = omega (
          arith,
          old.weighs,
          weigh-put t.event_map t.flood_map (at n x y) 0,
          suc-mul (length cells) (event_weight 0),
        );
      })
