-- ===== src/Kernel/Pipe/Writer.antt =====
-- The turns of a writer keep the invariant.
mod Ring
use kernelpanic.Common.{
  take-split, take, drop, ℕ, zero, suc, ◌+◌, ◌-◌, ◌*◌, ◌/◌, ◌%◌, ◌^◌, ◌≤◌, ◌<◌, min, ◌≡◌, refl, sym,
  ap, ap₂, ◌∙◌, subst, ◌≢◌, ◌⊎◌, inl, inr, Bool, true, false, not, ◌&&◌, ◌||◌, Option, none, some,
  List, [], ◌∷◌, ◌++◌, append-nil, append_assoc, arith, ltb, leb, ◌==◌, if◌then◌else◌, Bool-cases,
  ltb→lt, ltb→le, eqb→eq, eqb→ne, eqb_of_ne, eqb_refl, length, get_or, set, take, drop, replicate,
  length-append, length-set, length-replicate, length-take, length-drop, take-append-drop,
  get_or-set_self, get_or-set_ne, length-snoc, prefix_of_append, All, All-append, All-front,
  All-map, All-zip, Distinct, Distinct-snoc,
}
use kernelpanic.Kernel.Pipe.{
  Pipe, Call, Phase, down_side, down_own, down_mutex, in_ring, up_mutex, up_other, up_own, up_side,
  Turn, goes, blocked, count_up, writing, outside, write_turn, enter, again, counted,
}
use kernelpanic.Kernel.Pipe.Invariant.{
  WriterGoes, lane_at, WriterBegins, awaited, Lane, free, busy, Writing, Reading, InLane, Tokens,
  Inv, Progress, IsCall, moved_of, occupied, enter_cases, again_cases,
}
use Ring.{writes_ring}

-- The bytes sent so far, with the same number counted and moved.
settled :
    {c : Call} {sent : List ℕ} (ph ph' : Phase)
    → Writing c ph sent
    → moved_of ph' ≡ moved_of ph
    → Progress c ph'
    → Writing c ph' sent
settled {c} ph ph' r same progress = record {
  is_call = r.is_call;
  progress = progress;
  holds = r.holds;
  small = r.small;
  before = r.before;
  tail = r.tail ∙ ap (λ k. r.before ++ take k c.buff) (omega arith);
}

module _ {p : Pipe} {reader : Lane} where
  -- A turn on one of the three inner semaphores.
  inner_goes :
      (c : Call) (ph ph' : Phase) (m e f : ℕ)
      → let next = record p { mutex = m; full_lock = e; empty_lock = f } in
        write_turn c ph p ≡ goes (writing c ph') next
        → Inv p reader (busy c ph)
        → lane_at c ph' ≡ busy c ph'
        → WriterBegins (writing c ph')
        → moved_of ph' ≡ moved_of ph
        → Progress c ph'
        → Tokens next reader (busy c ph')
        → WriterGoes (write_turn c ph p) p reader (busy c ph)
  inner_goes c ph ph' m e f returns i lane begins same progress tokens = record {
    pc = writing c ph';
    next = record p { mutex = m; full_lock = e; empty_lock = f };
    returns = returns;
    inv =
        subst (λ l. Inv (record p { mutex = m; full_lock = e; empty_lock = f }) reader l) (sym lane)
          (record {
            tokens = tokens;
            writes = settled ph ph' i.writes same progress;
            reads = i.reads;
          });
    side = ap (λ l. p.write_lock + occupied l) lane;
    other_side = refl;
    writer = refl;
    writer_begins = begins;
    reader_begins = tt;
  }

  -- A call that has let its locks go: it leaves, or its loop goes round again.
  between_goes :
      (turn : Turn) (old : Lane) (c : Call) (next : Pipe) (ph : Phase)
      → turn ≡ goes (writing c ph) next
      → (ph ≡ down_own) × (c.done < c.size) ⊎ (ph ≡ up_side) × Progress c up_side
      → IsCall c
      → (c.size ≤ length c.buff) × (length c.buff ≤ 2 ^ 62)
      → (before : List ℕ) × (next.sent ≡ before ++ take c.done c.buff)
      → Tokens next reader free
      → InLane (λ c ph. Reading c ph next.received) reader
      → next.read_lock ≡ p.read_lock
      → next.write_lock + 1 ≡ p.write_lock + occupied old
      → WriterGoes turn p reader old
  between_goes turn old c next ph returns (inl (e, progress)) call (holds, small) (before, tail) t
        reads same one =
      record {
        pc = writing c down_own;
        next = next;
        returns = returns ∙ ap (λ ph. goes (writing c ph) next) e;
        inv = record {
          tokens = ground (arith, t);
          writes = record {
            is_call = call;
            progress = progress;
            holds = holds;
            small = small;
            before = before;
            tail = tail ∙ ap (λ k. before ++ take k c.buff) (omega arith);
          };
          reads = reads;
        };
        side = one;
        other_side = same;
        writer = refl;
        writer_begins = tt;
        reader_begins = tt;
      }
  between_goes turn old c next ph returns (inr (e, progress)) call (holds, small) (before, tail) t
        reads same one =
      record {
        pc = writing c up_side;
        next = next;
        returns = returns ∙ ap (λ ph. goes (writing c ph) next) e;
        inv = record {
          tokens = ground (arith, t);
          writes = record {
            is_call = call;
            progress = progress;
            holds = holds;
            small = small;
            before = before;
            tail = tail ∙ ap (λ k. before ++ take k c.buff) (omega arith);
          };
          reads = reads;
        };
        side = one;
        other_side = same;
        writer = refl;
        writer_begins = tt;
        reader_begins = tt;
      }

module _ {p : Pipe} {reader : Lane} where
  enter_goes :
      (c : Call)
      → Inv p reader free
      → WriterBegins (writing c down_side)
      → 0 < p.write_lock
      → WriterGoes (write_turn c down_side p) p reader free
  unfolding write_turn
  enter_goes c i b l =
      between_goes (write_turn c down_side p) free c (record p { write_lock = p.write_lock - 1 })
        (enter c) (ground arith) (enter_cases c b.0 b.1) b.0 (b.2, b.3)
        (p.sent, rw b.1 (sym (append-nil p.sent))) (ground (arith, i.tokens)) i.reads refl
        (omega arith)

  token_goes :
      (c : Call)
      → Inv p reader (busy c down_own)
      → 0 < p.full_lock
      → WriterGoes (write_turn c down_own p) p reader (busy c down_own)
  unfolding write_turn
  token_goes c i l =
      inner_goes c down_own down_mutex p.mutex (p.full_lock - 1) p.empty_lock (ground arith) i refl
        tt refl i.writes.progress (ground (arith, i.tokens))

  mutex_goes :
      (c : Call)
      → Inv p reader (busy c down_mutex)
      → 0 < p.mutex
      → WriterGoes (write_turn c down_mutex p) p reader (busy c down_mutex)
  unfolding write_turn
  mutex_goes c i l =
      inner_goes c down_mutex in_ring (p.mutex - 1) p.full_lock p.empty_lock (ground arith) i refl
        tt refl i.writes.progress (ground (arith, i.tokens))

  ring_goes :
      (c : Call)
      → Inv p reader (busy c in_ring)
      → WriterGoes (write_turn c in_ring p) p reader (busy c in_ring)
  unfolding write_turn
  ring_goes c i =
      let is = writes_ring c p reader i.tokens i.writes.holds i.writes.small i.writes.progress in
      record {
        pc = writing c (up_mutex is.was is.left is.moved);
        next = is.next;
        returns = is.returns;
        inv = record {
          tokens = is.tokens;
          reads =
              subst (λ l. InLane (λ c ph. Reading c ph l) reader) (sym is.same_received) i.reads;
          writes = record {
            is_call = i.writes.is_call;
            progress = (is.some_moved, omega (arith, is.at_most, i.writes.progress));
            holds = i.writes.holds;
            small = i.writes.small;
            before = i.writes.before;
            tail = tail_of is.moved is.next i.writes.tail is.history;
          };
        };
        side = ap (λ k. k + 1) is.same_lock;
        other_side = is.same_other;
        writer = refl;
        reader_begins = tt;
        writer_begins = tt;
      }
    where
      tail_of :
          (n : ℕ) (next : Pipe)
          → p.sent ≡ i.writes.before ++ take (c.done + 0) c.buff
          → next.sent ≡ p.sent ++ take n (drop c.done c.buff)
          → next.sent ≡ i.writes.before ++ take (c.done + n) c.buff
      tail_of n next e h =
          h
          ∙ ap (λ l. l ++ take n (drop c.done c.buff))
              (e ∙ ap (λ k. i.writes.before ++ take k c.buff) (omega arith))
          ∙ append_assoc i.writes.before (take c.done c.buff) (take n (drop c.done c.buff))
          ∙ ap (λ l. i.writes.before ++ l) (sym (take-split c.done n c.buff))

  up_mutex_goes :
      (c : Call) (was left : Bool) (moved : ℕ)
      → Inv p reader (busy c (up_mutex was left moved))
      → WriterGoes
          (write_turn c (up_mutex was left moved) p)
          p
          reader
          (busy c (up_mutex was left moved))
  unfolding write_turn
  up_mutex_goes c was left moved i =
      inner_goes c _ (up_other was left moved) (count_up p.mutex) p.full_lock p.empty_lock
        (ground arith) i refl tt refl i.writes.progress (ground (arith, i.tokens))

  up_other_goes :
      (c : Call) (was left : Bool) (moved : ℕ)
      → Inv p reader (busy c (up_other was left moved))
      → WriterGoes
          (write_turn c (up_other was left moved) p)
          p
          reader
          (busy c (up_other was left moved))
  unfolding write_turn
  up_other_goes c was left moved i =
      inner_goes c _ (up_own left moved) p.mutex p.full_lock
        (if was then count_up p.empty_lock else p.empty_lock) (ground (arith, i.writes.progress)) i
        refl tt refl i.writes.progress (ground (arith, i.tokens))

  up_own_goes :
      (c : Call) (left : Bool) (moved : ℕ)
      → Inv p reader (busy c (up_own left moved))
      → WriterGoes (write_turn c (up_own left moved) p) p reader (busy c (up_own left moved))
  unfolding write_turn
  up_own_goes c left moved i =
      let done_eq : (c.done + moved) % 2 ^ 64 ≡ c.done + moved =
        omega (arith, i.writes.progress, i.writes.is_call.fits) in
      between_goes (write_turn c (up_own left moved) p) (busy c (up_own left moved))
        (counted c moved)
        (record p { full_lock = if left then count_up p.full_lock else p.full_lock })
        (again (counted c moved)) (ground arith)
        (again_cases (counted c moved) (omega (arith, i.writes.progress))
          (omega (arith, i.writes.progress)))
        (record { fits = i.writes.is_call.fits; asks = i.writes.is_call.asks })
        (i.writes.holds, i.writes.small)
        (i.writes.before, i.writes.tail ∙ ap (λ k. i.writes.before ++ take k c.buff) (omega arith))
        (ground (arith, i.tokens)) i.reads refl refl

  leave_goes :
      (c : Call)
      → Inv p reader (busy c up_side)
      → p.write_lock ≡ 0
      → WriterGoes (write_turn c up_side p) p reader (busy c up_side)
  unfolding write_turn
  leave_goes c i l = record {
    pc = outside;
    next = record p { write_lock = count_up p.write_lock };
    returns = ground (arith, i.writes.progress);
    inv = record { tokens = ground (arith, i.tokens); writes = tt; reads = i.reads };
    side = omega arith;
    other_side = refl;
    writer = refl;
    writer_begins = tt;
    reader_begins = tt;
  }

  -- A reader's turn never panics: it waits for a semaphore whose count is 0, or it goes on.
  pub write_turn_lem :
      (c : Call) (ph : Phase)
      → Inv p reader (lane_at c ph)
      → WriterBegins (writing c ph)
      → p.write_lock + occupied (lane_at c ph) ≤ 1
      → (write_turn c ph p ≡ blocked) × (awaited p.write_lock p.full_lock p.mutex ph ≡ 0)
        ⊎ WriterGoes (write_turn c ph p) p reader (lane_at c ph)
  write_turn_lem c down_side i b l = elim (Bool-cases (p.write_lock == 0)) [
    | inl z ↦ inl (unfold write_turn in rw z refl, eqb→eq _ _ z)
    | inr nz ↦ inr (enter_goes c i b (ground arith))
  ]
  write_turn_lem c down_own i b l = elim (Bool-cases (p.full_lock == 0)) [
    | inl z ↦ inl (unfold write_turn in rw z refl, eqb→eq _ _ z)
    | inr nz ↦ inr (token_goes c i (ground arith))
  ]
  write_turn_lem c down_mutex i b l = elim (Bool-cases (p.mutex == 0)) [
    | inl z ↦ inl (unfold write_turn in rw z refl, eqb→eq _ _ z)
    | inr nz ↦ inr (mutex_goes c i (ground arith))
  ]
  write_turn_lem c in_ring i b l = inr (ring_goes c i)
  write_turn_lem c (up_mutex was left moved) i b l = inr (up_mutex_goes c was left moved i)
  write_turn_lem c (up_other was left moved) i b l = inr (up_other_goes c was left moved i)
  write_turn_lem c (up_own left moved) i b l = inr (up_own_goes c left moved i)
  write_turn_lem c up_side i b l = inr (leave_goes c i (omega arith))
