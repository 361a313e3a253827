-- ===== src/Umouse/SubMove/Choice.antt =====
-- What SubMoveFindBest chooses.
use kernelpanic.Common.{
  ℕ, ◌+◌, ◌-◌, ◌/◌, ◌%◌, ◌^◌, ◌≤◌, ◌<◌, ◌≡◌, refl, sym, ap, ◌∙◌, ◌≢◌, ◌⊎◌, inl, inr, true, false,
  List, [], ◌∷◌, arith, Bool-cases, ltb→lt, ltb→le, get_or, All,
}
use kernelpanic.Common.Outcome.{ok}
use kernelpanic.Umouse.Map.{Direction, north, east, south, west}
use kernelpanic.Umouse.FloodFill
use kernelpanic.Umouse.SubMove.{
  Move, done, start, forward, stop, turn_right, turn_left, turn_around, integrate_right,
  integrate_left, Mouse, Maze, translate_x, translate_y, apply, legal,
}
use kernelpanic.Umouse.SubMove.Best.{
  Candidate, standard, cell_x, cell_y, judge, gather, takes_lead, consider, try_moves, all_moves,
  find_best, score, IsByte, takes_lead-score,
}
use kernelpanic.Umouse.SubMove.Places.{Centered, Crossing, Placed, IsInside, legal-Kept}

-- From a place where the mouse can be, the cell is found.
cell_found :
    (x y : ℕ) (dir : Direction)
    → Centered x y ⊎ Crossing x y dir
    → (a : ℕ) × (b : ℕ) × (cell_x x dir ≡ ok a) × (cell_y y dir ≡ ok b)
cell_found x y dir (inl c) = (x / 2, y / 2, ground arith, ground arith)
cell_found x y north (inr c) = (x / 2, y / 2, ground arith, ground arith)
cell_found x y south (inr c) = (x / 2, (y / 2 + 2 ^ 64 - 1) % 2 ^ 64, ground arith, ground arith)
cell_found x y east (inr c) = (x / 2, y / 2, ground arith, ground arith)
cell_found x y west (inr c) = ((x / 2 + 2 ^ 64 - 1) % 2 ^ 64, y / 2, ground arith, ground arith)

-- The flood map of bytes.
abbrev pub Bytes : Maze → Type 0
Bytes m = (i : ℕ) → get_or m.flood.flood_map i 255 ≤ 255

get-le : (x y : ℕ) (m : Maze) → Bytes m → FloodFill.get x y m.flood ≤ 255
unfolding FloodFill.get
get-le x y m b = ground (arith, b (FloodFill.index x y m.flood))

-- What is gathered about a move after which the mouse is in such a place.
pub record Gathered (s : Mouse) (move : Move) (m : Maze) : Type 0 where
  pub candidate : Candidate
  pub returns : gather s move m ≡ ok candidate
  pub is_move : candidate.move ≡ move
  pub is_byte : IsByte candidate

gathered :
    (s : Mouse) (move : Move) (m : Maze) → Bytes m → Placed (apply s move) → Gathered s move m
unfolding gather judge
gathered s move m b p =
    let t = apply s move in
    let (x, y, ex, ey) = cell_found t.x t.y t.dir p in
    record {
      candidate = judge x y t.dir move m;
      returns = rw (ex, ey) refl;
      is_move = refl;
      is_byte = record {
        flood = omega (arith, get-le x y m b);
        facing_flood = omega (arith, get-le (translate_x x t.dir 1) (translate_y y t.dir 1) m b);
      };
    }

module _ (s : Mouse) (m : Maze) where
  -- What is known of the leader: it is the standard, or what is gathered about a legal move.
  pub record IsLeader (c : Candidate) : Type 0 where
    pub is_byte : IsByte c
    pub comes_from : (c ≡ standard) ⊎ (legal s c.move m ≡ true) × (gather s c.move m ≡ ok c)

  -- A move does not beat it.
  abbrev pub Unbeaten : Candidate → Move → Type 0
  Unbeaten best move =
      legal s move m ≡ true → (c : Candidate) × (gather s move m ≡ ok c) × (score best ≤ score c)

  record Considered (move : Move) (best : Candidate) : Type 0 where
    next : Candidate
    returns : consider s m move best ≡ ok next
    leads : IsLeader next
    no_worse : score next ≤ score best
    unbeaten : Unbeaten next move

  considered :
      (move : Move) (best : Candidate)
      → Bytes m
      → (legal s move m ≡ true → Placed (apply s move))
      → IsLeader best
      → Considered move best
  unfolding consider
  considered move best b placed lead = elim (Bool-cases (legal s move m)) [
    | inr no_move ↦ record {
      next = best;
      returns = rw no_move refl;
      leads = lead;
      no_worse = omega arith;
      unbeaten = λ h. absurd (true-ne-false (sym h ∙ no_move));
    }
    | inl allowed ↦
        let g = gathered s move m b (placed allowed) in
        let c = g.candidate in
        let same = takes_lead-score c best g.is_byte lead.is_byte in
        elim (Bool-cases (takes_lead c best)) [
          | inl wins ↦
              let less : score c < score best = ltb→lt _ _ (sym same ∙ wins) in
              record {
                next = c;
                returns = rw (allowed, g.returns, wins) refl;
                leads = record {
                  is_byte = g.is_byte;
                  comes_from = inr (
                    ap (λ mv. legal s mv m) g.is_move ∙ allowed,
                    ap (λ mv. gather s mv m) g.is_move ∙ g.returns,
                  );
                };
                no_worse = omega arith;
                unbeaten = λ h. (c, g.returns, omega arith);
              }
          | inr loses ↦
              let le : score best ≤ score c = ltb→le _ _ (sym same ∙ loses) in
              record {
                next = best;
                returns = rw (allowed, g.returns, loses) refl;
                leads = lead;
                no_worse = omega arith;
                unbeaten = λ h. (c, g.returns, le);
              }
        ]
  ]
    where
      true-ne-false : true ≢ false
      true-ne-false h = cc

  record Tried (moves : List Move) (best : Candidate) : Type 0 where
    last : Candidate
    returns : try_moves s m moves best ≡ ok last
    leads : IsLeader last
    no_worse : score last ≤ score best
    unbeaten : All (Unbeaten last) moves

  tried :
      (moves : List Move) (best : Candidate)
      → Bytes m
      → ((move : Move) → legal s move m ≡ true → Placed (apply s move))
      → IsLeader best
      → Tried moves best
  unfolding try_moves
  tried [] best b placed lead = record {
    last = best;
    returns = refl;
    leads = lead;
    no_worse = omega arith;
    unbeaten = tt;
  }
  tried (move ∷ moves) best b placed lead =
      let one = considered move best b (placed move) lead in
      let rest = tried moves one.next b placed one.leads in
      record {
        last = rest.last;
        returns = rw one.returns rest.returns;
        leads = rest.leads;
        no_worse = omega (arith, one.no_worse, rest.no_worse);
        unbeaten = (
          λ h. let is = one.unbeaten h in (is.0, is.1, omega (arith, is.2, rest.no_worse)),
          rest.unbeaten,
        );
      }

-- The choice of SubMoveFindBest.
pub record Chosen (s : Mouse) (m : Maze) : Type 0 where
  pub best : Candidate
  pub returns : find_best s m ≡ ok best.move
  pub leads : IsLeader s m best
  pub no_worse : score best ≤ score standard
  pub unbeaten : (move : Move) → move ≢ done → Unbeaten s m best move

of_all : (P : Move → Type 0) → All P all_moves → (move : Move) → move ≢ done → P move
of_all P a done ne = absurd (ne refl)
of_all P a start ne = a.0
of_all P a forward ne = a.1.0
of_all P a stop ne = a.1.1.0
of_all P a turn_right ne = a.1.1.1.0
of_all P a turn_left ne = a.1.1.1.1.0
of_all P a turn_around ne = a.1.1.1.1.1.0
of_all P a integrate_right ne = a.1.1.1.1.1.1.0
of_all P a integrate_left ne = a.1.1.1.1.1.1.1.0

-- From the middle of a cell, or an edge that the mouse crosses, inside the border of a maze of at
-- most 2 ^ 63 cells a side, and with a flood map of bytes, SubMoveFindBest fails no ASSERT. It
-- returns SUB_MOVE_DONE or a legal move, and no legal move has a lower score, nor has the standard
-- that it starts from.
pub find_best_lem :
    (s : Mouse) (m : Maze)
    → m.map.width ≤ 2 ^ 63
    → m.map.height ≤ 2 ^ 63
    → Bytes m
    → Placed s
    → IsInside m.map s
    → Chosen s m
unfolding find_best
find_best_lem s m w h b p i =
    let run =
      tried s m all_moves standard b (λ move allowed. (legal-Kept m w h s move (p, i) allowed).0)
        (record {
          is_byte = record { flood = omega arith; facing_flood = omega arith };
          comes_from = inl refl;
        }) in
    record {
      best = run.last;
      returns = rw run.returns refl;
      leads = run.leads;
      no_worse = run.no_worse;
      unbeaten = λ move ne. of_all (Unbeaten s m run.last) run.unbeaten move ne;
    }
