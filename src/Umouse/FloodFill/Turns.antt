-- ===== src/Umouse/FloodFill/Turns.antt =====
-- The turns of FloodFillCalculate: what they keep, and that they lower the measure.
use kernelpanic.Common.{
  ℕ, suc, ◌+◌, ◌*◌, ◌%◌, ◌^◌, ◌≤◌, ◌<◌, ◌≡◌, refl, sym, ap, ap₂, ◌∙◌, subst, ◌≢◌, ◌⊎◌, inl, inr,
  true, false, arith, ltb, ◌==◌, if◌then◌else◌, Bool-cases, eqb→eq, eqb_of_ne, eqb_refl,
}
use kernelpanic.Umouse.Map
use kernelpanic.Umouse.Map.{Map, Direction, north, east, south, west}
use kernelpanic.Umouse.Map.Walls.{place_unique}
use kernelpanic.Umouse.FloodFill.{FloodMap, beside_x, beside_y, get, look, spread}
use kernelpanic.Umouse.FloodFill.Grid.{
  Cell, at, IsSquare, Edge, Edge-lt, value, put, get-value, look_lem,
}
use kernelpanic.Umouse.FloodFill.Weight.{weight, event_weight, weigh-put}
use kernelpanic.Umouse.FloodFill.Invariant.{
  Way, step, Inv, value-put, put-le, put_event, put-IsSized,
}

spread_lem :
    (m : Map) (x y cur : ℕ) (s : FloodMap)
    → get x y s ≡ cur
    → spread m x y s
      ≡ look m x y cur south (look m x y cur north (look m x y cur west (look m x y cur east s)))
unfolding spread
spread_lem m x y cur s e = rw e refl

-- What one look adds to the measure at most.
abbrev pub extra : ℕ → ℕ
extra cur = if ltb cur 255 then event_weight (cur + 1) else 0

pub extra_lem : {cur : ℕ} → cur < 255 → extra cur ≡ event_weight (cur + 1)
extra_lem {cur} h = let test : ltb cur 255 ≡ true = ground arith in rw test refl

-- The turn for the cell `c` of value `cur` is under way.
module _ (n : ℕ) (m : Map) (dest : ℕ → ℕ → Type 0) (others : ℕ → Type 0) (c cur : ℕ) where
  pub record Turning (s : FloodMap) : Type 0 where
    pub inv : Inv n m dest (λ i. (i ≡ c) ⊎ others i) s
    pub at_c : value s c ≡ cur

  put-Turning :
      {s : FloodMap} (i : ℕ)
      → IsSquare n m
      → Turning s
      → Edge n m c i
      → cur < value s i
      → Turning (put s i (cur + 1))
  put-Turning {s} i sq t e h =
      let v = t.inv in
      let lt = Edge-lt sq e in
      let now = value-put i (cur + 1) v.sized lt in
      let top : value s i ≤ 255 = v.bounded i in
      let other : c ≢ i = λ same. omega (arith, t.at_c, ap (value s) same) in
      record {
        inv = record {
          sized = put-IsSized i (cur + 1) v.sized lt;
          bounded = λ j. ground (arith, now j, v.bounded j);
          real = λ j below. elim (Bool-cases (j == i)) [
            | inl same ↦
                let is : value (put s i (cur + 1)) j ≡ suc cur = now j ∙ rw same (omega arith) in
                subst (Way n m dest j) (sym is) (
                  subst (λ j. Way n m dest j (suc cur)) (sym (eqb→eq j i same))
                    (step (subst (Way n m dest c) t.at_c (v.real c (omega (arith, t.at_c)))) e))
            | inr apart ↦
                let is : value (put s i (cur + 1)) j ≡ value s j = now j ∙ rw apart refl in
                subst (Way n m dest j) (sym is) (v.real j (omega arith))
          ];
          start_at = λ j k d.
              omega (arith, put-le i (cur + 1) v.sized lt (omega arith) j, v.start_at j k d);
          told = λ a b ab off.
              let before = put_event i (cur + 1) v.sized lt a off in
              elim (v.told a b ab before.1) [
                | inr mine ↦ inr mine
                | inl le ↦ inl (ground (arith, now a, now b, before.0))
              ];
        };
        at_c = now c ∙ rw (eqb_of_ne c i other) t.at_c;
      }

  -- What a look in one direction leaves.
  record Looked (x y : ℕ) (dir : Direction) (s s' : FloodMap) : Type 0 where
    turning : Turning s'
    told :
        Map.get_wall x y dir m ≡ false → value s' (at n (beside_x x dir) (beside_y y dir)) ≤ cur + 1
    keeps : (j : ℕ) → value s j ≤ cur + 1 → value s' j ≤ cur + 1
    weighs : weight s' ≤ weight s + extra cur

  looked :
      {s : FloodMap} (x y : ℕ) (dir : Direction)
      → IsSquare n m
      → Cell n x y
      → c ≡ at n x y
      → Turning s
      → Looked x y dir s (look m x y cur dir s)
  looked {s} x y dir sq cell is t =
      elim (look_lem n x y cur dir m s sq t.inv.sized t.inv.bounded cell) [
        | inl stays ↦ subst (Looked x y dir s) (sym stays.same) (record {
          turning = t;
          told = λ o. omega (arith, stays.low o);
          keeps = λ j h. h;
          weighs = omega arith;
        })
        | inr lowers ↦
            let there = at n (beside_x x dir) (beside_y y dir) in
            let e : Edge n m c there = record {
              x = x;
              y = y;
              dir = dir;
              cell = cell;
              is_open = lowers.is_open;
              from = is;
              to = refl;
            } in
            let now = value-put there (cur + 1) t.inv.sized (Edge-lt sq e) in
            let stored : value (put s there (cur + 1)) there ≡ cur + 1 =
              now there ∙ rw (eqb_refl there) refl in
            let below : cur < 255 = omega (arith, t.inv.bounded there, lowers.higher) in
            let byte : (cur + 1) % 2 ^ 8 ≡ cur + 1 = omega arith in
            subst (Looked x y dir s) (ap (put s there) (sym byte) ∙ sym lowers.puts) (record {
              turning = put-Turning there sq t e lowers.higher;
              told = λ o. omega (arith, stored);
              keeps = λ j h. ground (arith, now j);
              weighs =
                  omega (arith, weigh-put s.event_map s.flood_map there (cur + 1), extra_lem below);
            })
      ]

  pub record Spread (x y : ℕ) (s s' : FloodMap) : Type 0 where
    pub inv : Inv n m dest others s'
    pub weighs : weight s' ≤ weight s + 4 * extra cur

  four-Looked :
      (x y : ℕ) (s s1 s2 s3 s4 : FloodMap)
      → Cell n x y
      → c ≡ at n x y
      → Looked x y east s s1
      → Looked x y west s1 s2
      → Looked x y north s2 s3
      → Looked x y south s3 s4
      → Spread x y s s4
  four-Looked x y s s1 s2 s3 s4 cell is a b c' d = record {
    inv = record {
      sized = d.turning.inv.sized;
      bounded = d.turning.inv.bounded;
      real = d.turning.inv.real;
      start_at = d.turning.inv.start_at;
      told = λ i j e off. elim (d.turning.inv.told i j e off) [
        | inl le ↦ inl le
        | inr mine ↦ elim mine [ inl this ↦ inl (own i j e this) | inr other ↦ inr other ]
      ];
    };
    weighs = omega (arith, a.weighs, b.weighs, c'.weighs, d.weighs);
  }
    where
      told :
          (dir : Direction)
          → Map.get_wall x y dir m ≡ false
          → value s4 (at n (beside_x x dir) (beside_y y dir)) ≤ cur + 1
      told north o = d.keeps _ (c'.told o)
      told east o = d.keeps _ (c'.keeps _ (b.keeps _ (a.told o)))
      told south o = d.told o
      told west o = d.keeps _ (c'.keeps _ (b.told o))

      own : (i j : ℕ) → Edge n m i j → i ≡ c → value s4 j ≤ value s4 i + 1
      own i j e mine =
          let (rows, columns) =
            place_unique n e.y e.x y x e.cell.0 cell.0 (sym e.from ∙ mine ∙ is) in
          let here_open : Map.get_wall x y e.dir m ≡ false =
            ap₂ (λ x y. Map.get_wall x y e.dir m) (sym columns) (sym rows) ∙ e.is_open in
          let there : j ≡ at n (beside_x x e.dir) (beside_y y e.dir) =
            e.to ∙ ap₂ (λ x y. at n (beside_x x e.dir) (beside_y y e.dir)) columns rows in
          omega
            (arith, told e.dir here_open, ap (value s4) there, ap (value s4) mine, d.turning.at_c)

  pub spread_from :
      (s : FloodMap) (x y : ℕ)
      → IsSquare n m
      → Cell n x y
      → c ≡ at n x y
      → Turning s
      → Spread x y s (spread m x y s)
  spread_from s x y sq cell is t =
      let same : get x y s ≡ cur =
        get-value n x y s t.inv.sized t.inv.bounded cell ∙ ap (value s) (sym is) ∙ t.at_c in
      let a = looked x y east sq cell is t in
      let b = looked x y west sq cell is a.turning in
      let c' = looked x y north sq cell is b.turning in
      let d = looked x y south sq cell is c'.turning in
      let done = four-Looked x y s _ _ _ _ cell is a b c' d in
      subst (Spread x y s) (sym (spread_lem m x y cur s same)) done
