-- ===== src/Kernel/Pipe/Reader.antt =====
-- The turns of a reader keep the invariant.
mod Ring
use kernelpanic.Common.{
  ℕ, zero, suc, ◌+◌, ◌-◌, ◌*◌, ◌/◌, ◌%◌, ◌^◌, ◌≤◌, ◌<◌, min, ◌≡◌, refl, sym, ap, ap₂, ◌∙◌, subst,
  ◌≢◌, ◌⊎◌, inl, inr, Bool, true, false, not, ◌&&◌, ◌||◌, Option, none, some, List, [], ◌∷◌, ◌++◌,
  append-nil, append_assoc, arith, ltb, leb, ◌==◌, if◌then◌else◌, Bool-cases, ltb→lt, ltb→le,
  eqb→eq, eqb→ne, eqb_of_ne, eqb_refl, length, get_or, set, take, drop, replicate, length-append,
  length-set, length-replicate, length-take, length-drop, take-append-drop, get_or-set_self,
  get_or-set_ne, length-snoc, prefix_of_append, All, All-append, All-front, All-map, All-zip,
  Distinct, Distinct-snoc,
}
use kernelpanic.Kernel.Pipe.{
  Pipe, Call, Phase, down_side, down_own, down_mutex, in_ring, up_mutex, up_other, up_own, up_side,
  Turn, goes, blocked, count_up, reading, outside, read_turn, enter, again, counted,
}
use kernelpanic.Kernel.Pipe.Invariant.{
  ReaderGoes, lane_at, ReaderBegins, awaited, Lane, free, busy, Reading, Writing, InLane, Tokens,
  Inv, Progress, IsCall, moved_of, occupied, enter_cases, again_cases,
}
use Ring.{reads_ring}

-- The bytes stored so far, at a point with nothing left to count.
settled :
    {c : Call} {received : List ℕ} (ph ph' : Phase)
    → Reading c ph received
    → moved_of ph' ≡ moved_of ph
    → Progress c ph'
    → Reading c ph' received
settled ph ph' r same progress = record {
  is_call = r.is_call;
  progress = progress;
  stored = omega (arith, r.stored);
  before = r.before;
  tail = r.tail;
}

module _ {p : Pipe} {writer : Lane} where
  -- A turn on one of the three inner semaphores.
  inner_goes :
      (c : Call) (ph ph' : Phase) (m e f : ℕ)
      → let next = record p { mutex = m; empty_lock = e; full_lock = f } in
        read_turn c ph p ≡ goes (reading c ph') next
        → Inv p (busy c ph) writer
        → lane_at c ph' ≡ busy c ph'
        → ReaderBegins (reading c ph')
        → moved_of ph' ≡ moved_of ph
        → Progress c ph'
        → Tokens next (busy c ph') writer
        → ReaderGoes (read_turn c ph p) p (busy c ph) writer
  inner_goes c ph ph' m e f returns i lane begins same progress tokens = record {
    pc = reading c ph';
    next = record p { mutex = m; empty_lock = e; full_lock = f };
    returns = returns;
    inv =
        subst (λ l. Inv (record p { mutex = m; empty_lock = e; full_lock = f }) l writer) (sym lane)
          (record {
            tokens = tokens;
            reads = settled ph ph' i.reads same progress;
            writes = i.writes;
          });
    side = ap (λ l. p.read_lock + occupied l) lane;
    other_side = refl;
    reader = refl;
    reader_begins = begins;
    writer_begins = tt;
  }

  -- A call that has let its locks go: it leaves, or its loop goes round again.
  between_goes :
      (turn : Turn) (old : Lane) (c : Call) (next : Pipe) (ph : Phase)
      → turn ≡ goes (reading c ph) next
      → (ph ≡ down_own) × (c.done < c.size) ⊎ (ph ≡ up_side) × Progress c up_side
      → IsCall c
      → length c.buff ≡ c.done
      → (before : List ℕ) × (next.received ≡ before ++ c.buff)
      → Tokens next free writer
      → InLane (λ c ph. Writing c ph next.sent) writer
      → next.write_lock ≡ p.write_lock
      → next.read_lock + 1 ≡ p.read_lock + occupied old
      → ReaderGoes turn p old writer
  between_goes turn old c next ph returns (inl (e, progress)) call stored (before, tail) t writes
        same one =
      record {
        pc = reading c down_own;
        next = next;
        returns = returns ∙ ap (λ ph. goes (reading c ph) next) e;
        inv = record {
          tokens = ground (arith, t);
          reads = record {
            is_call = call;
            progress = progress;
            stored = ground (arith, stored);
            before = before;
            tail = tail;
          };
          writes = writes;
        };
        side = one;
        other_side = same;
        reader = refl;
        reader_begins = tt;
        writer_begins = tt;
      }
  between_goes turn old c next ph returns (inr (e, progress)) call stored (before, tail) t writes
        same one =
      record {
        pc = reading c up_side;
        next = next;
        returns = returns ∙ ap (λ ph. goes (reading c ph) next) e;
        inv = record {
          tokens = ground (arith, t);
          reads = record {
            is_call = call;
            progress = progress;
            stored = ground (arith, stored);
            before = before;
            tail = tail;
          };
          writes = writes;
        };
        side = one;
        other_side = same;
        reader = refl;
        reader_begins = tt;
        writer_begins = tt;
      }

module _ {p : Pipe} {writer : Lane} where
  enter_goes :
      (c : Call)
      → Inv p free writer
      → ReaderBegins (reading c down_side)
      → 0 < p.read_lock
      → ReaderGoes (read_turn c down_side p) p free writer
  unfolding read_turn
  enter_goes c i b l =
      between_goes (read_turn c down_side p) free c (record p { read_lock = p.read_lock - 1 })
        (enter c) (ground arith) (enter_cases c b.0 b.1) b.0 (ground arith)
        (p.received, rw b.2 (sym (append-nil p.received))) (ground (arith, i.tokens)) i.writes refl
        (omega arith)

  token_goes :
      (c : Call)
      → Inv p (busy c down_own) writer
      → 0 < p.empty_lock
      → ReaderGoes (read_turn c down_own p) p (busy c down_own) writer
  unfolding read_turn
  token_goes c i l =
      inner_goes c down_own down_mutex p.mutex (p.empty_lock - 1) p.full_lock (ground arith) i refl
        tt refl i.reads.progress (ground (arith, i.tokens))

  mutex_goes :
      (c : Call)
      → Inv p (busy c down_mutex) writer
      → 0 < p.mutex
      → ReaderGoes (read_turn c down_mutex p) p (busy c down_mutex) writer
  unfolding read_turn
  mutex_goes c i l =
      inner_goes c down_mutex in_ring (p.mutex - 1) p.empty_lock p.full_lock (ground arith) i refl
        tt refl i.reads.progress (ground (arith, i.tokens))

  ring_goes :
      (c : Call)
      → Inv p (busy c in_ring) writer
      → ReaderGoes (read_turn c in_ring p) p (busy c in_ring) writer
  unfolding read_turn
  ring_goes c i =
      let is = reads_ring c p writer i.tokens i.reads.is_call.fits i.reads.progress in
      record {
        pc = reading (record c { buff = c.buff ++ is.bytes }) (up_mutex is.was is.left is.moved);
        next = is.next;
        returns = is.returns;
        inv = record {
          tokens = is.tokens;
          reads = record {
            is_call = record { fits = i.reads.is_call.fits; asks = i.reads.is_call.asks };
            progress = (is.some_moved, omega (arith, is.at_most, i.reads.progress));
            stored = omega (arith, length-append c.buff is.bytes, is.number, i.reads.stored);
            before = i.reads.before;
            tail =
                is.history
                ∙ ap (λ l. l ++ is.bytes) i.reads.tail
                ∙ append_assoc i.reads.before c.buff is.bytes;
          };
          writes = subst (λ l. InLane (λ c ph. Writing c ph l) writer) (sym is.same_sent) i.writes;
        };
        side = ap (λ k. k + 1) is.same_lock;
        other_side = is.same_other;
        reader = refl;
        reader_begins = tt;
        writer_begins = tt;
      }

  up_mutex_goes :
      (c : Call) (was left : Bool) (moved : ℕ)
      → Inv p (busy c (up_mutex was left moved)) writer
      → ReaderGoes
          (read_turn c (up_mutex was left moved) p)
          p
          (busy c (up_mutex was left moved))
          writer
  unfolding read_turn
  up_mutex_goes c was left moved i =
      inner_goes c _ (up_other was left moved) (count_up p.mutex) p.empty_lock p.full_lock
        (ground arith) i refl tt refl i.reads.progress (ground (arith, i.tokens))

  up_other_goes :
      (c : Call) (was left : Bool) (moved : ℕ)
      → Inv p (busy c (up_other was left moved)) writer
      → ReaderGoes
          (read_turn c (up_other was left moved) p)
          p
          (busy c (up_other was left moved))
          writer
  unfolding read_turn
  up_other_goes c was left moved i =
      inner_goes c _ (up_own left moved) p.mutex p.empty_lock
        (if was then count_up p.full_lock else p.full_lock) (ground (arith, i.reads.progress)) i
        refl tt refl i.reads.progress (ground (arith, i.tokens))

  up_own_goes :
      (c : Call) (left : Bool) (moved : ℕ)
      → Inv p (busy c (up_own left moved)) writer
      → ReaderGoes (read_turn c (up_own left moved) p) p (busy c (up_own left moved)) writer
  unfolding read_turn
  up_own_goes c left moved i =
      let done_eq : (c.done + moved) % 2 ^ 64 ≡ c.done + moved =
        omega (arith, i.reads.progress, i.reads.is_call.fits) in
      between_goes (read_turn c (up_own left moved) p) (busy c (up_own left moved))
        (counted c moved)
        (record p { empty_lock = if left then count_up p.empty_lock else p.empty_lock })
        (again (counted c moved)) (ground arith)
        (again_cases (counted c moved) (omega (arith, i.reads.progress))
          (omega (arith, i.reads.progress)))
        (record { fits = i.reads.is_call.fits; asks = i.reads.is_call.asks })
        (omega (arith, i.reads.stored)) (i.reads.before, i.reads.tail) (ground (arith, i.tokens))
        i.writes refl refl

  leave_goes :
      (c : Call)
      → Inv p (busy c up_side) writer
      → p.read_lock ≡ 0
      → ReaderGoes (read_turn c up_side p) p (busy c up_side) writer
  unfolding read_turn
  leave_goes c i l = record {
    pc = outside;
    next = record p { read_lock = count_up p.read_lock };
    returns = ground (arith, i.reads.progress);
    inv = record { tokens = ground (arith, i.tokens); reads = tt; writes = i.writes };
    side = omega arith;
    other_side = refl;
    reader = refl;
    reader_begins = tt;
    writer_begins = tt;
  }

  -- A reader's turn never panics: it waits for a semaphore whose count is 0, or it goes on.
  pub read_turn_lem :
      (c : Call) (ph : Phase)
      → Inv p (lane_at c ph) writer
      → ReaderBegins (reading c ph)
      → p.read_lock + occupied (lane_at c ph) ≤ 1
      → (read_turn c ph p ≡ blocked) × (awaited p.read_lock p.empty_lock p.mutex ph ≡ 0)
        ⊎ ReaderGoes (read_turn c ph p) p (lane_at c ph) writer
  read_turn_lem c down_side i b l = elim (Bool-cases (p.read_lock == 0)) [
    | inl z ↦ inl (unfold read_turn in rw z refl, eqb→eq _ _ z)
    | inr nz ↦ inr (enter_goes c i b (ground arith))
  ]
  read_turn_lem c down_own i b l = elim (Bool-cases (p.empty_lock == 0)) [
    | inl z ↦ inl (unfold read_turn in rw z refl, eqb→eq _ _ z)
    | inr nz ↦ inr (token_goes c i (ground arith))
  ]
  read_turn_lem c down_mutex i b l = elim (Bool-cases (p.mutex == 0)) [
    | inl z ↦ inl (unfold read_turn in rw z refl, eqb→eq _ _ z)
    | inr nz ↦ inr (mutex_goes c i (ground arith))
  ]
  read_turn_lem c in_ring i b l = inr (ring_goes c i)
  read_turn_lem c (up_mutex was left moved) i b l = inr (up_mutex_goes c was left moved i)
  read_turn_lem c (up_other was left moved) i b l = inr (up_other_goes c was left moved i)
  read_turn_lem c (up_own left moved) i b l = inr (up_own_goes c left moved i)
  read_turn_lem c up_side i b l = inr (leave_goes c i (omega arith))
