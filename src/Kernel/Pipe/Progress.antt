-- ===== src/Kernel/Pipe/Progress.antt =====
-- A pipe with a reader and a writer never comes to a standstill.
use kernelpanic.Common.{
  ℕ, ◌≡◌, refl, sym, ap, ◌∙◌, subst, ◌≢◌, ◌⊎◌, inl, inr, List, arith, ◌==◌, Bool-cases, eqb→eq,
  eqb→ne,
}
use kernelpanic.Utils.RingBuffer
use kernelpanic.Kernel.Pipe.{
  Pipe, Call, Phase, down_side, down_own, down_mutex, in_ring, up_mutex, up_other, up_own, up_side,
  Pc, outside, reading, writing, blocked,
}
use kernelpanic.Kernel.Pipe.Invariant.{
  Lane, free, busy, Tokens, lane_at, read_lane, write_lane, occupied, awaited,
}
use kernelpanic.Kernel.Pipe.System.{System, Event, turn_of}
use kernelpanic.Kernel.Pipe.Lanes.{IsValid, Inv-lanes}
use kernelpanic.Kernel.Pipe.Turns.{turn_reads, turn_writes, ReaderWaits, WriterWaits}
use kernelpanic.Kernel.Pipe.Stream.{Runs, Runs-Reached}

-- The calls in the two lanes cannot both wait: a token is in a semaphore, or the other call is on
-- its way to put one there.
one_moves :
    (p : Pipe) (c d : Call) (ph ph' : Phase) (side : ℕ)
    → Tokens p (busy c ph) (busy d ph')
    → ph ≢ down_side
    → ph' ≢ down_side
    → (awaited side p.empty_lock p.mutex ph ≢ 0) ⊎ (awaited side p.full_lock p.mutex ph' ≢ 0)
unfolding RingBuffer.is_full
one_moves p c d down_side ph' side t a b = absurd (a refl)
one_moves p c d down_own down_side side t a b = absurd (b refl)
one_moves p c d down_mutex down_side side t a b = absurd (b refl)
one_moves p c d down_own down_own side t a b = elim (Bool-cases (p.empty_lock == 0)) [
  | inr h ↦ inl (eqb→ne _ 0 h)
  | inl z ↦ inr (λ f. ground (arith, t.empty_lock, t.full_lock))
]
one_moves p c d down_own down_mutex side t a b = inr (λ f. omega (arith, t.mutex))
one_moves p c d down_mutex down_own side t a b = inl (λ f. omega (arith, t.mutex))
one_moves p c d down_mutex down_mutex side t a b = inl (λ f. omega (arith, t.mutex))
one_moves p c d down_own in_ring side t a b = inr (omega arith)
one_moves p c d down_own (up_mutex was left moved) side t a b = inr (omega arith)
one_moves p c d down_own (up_other was left moved) side t a b = inr (omega arith)
one_moves p c d down_own (up_own left moved) side t a b = inr (omega arith)
one_moves p c d down_own up_side side t a b = inr (omega arith)
one_moves p c d down_mutex in_ring side t a b = inr (omega arith)
one_moves p c d down_mutex (up_mutex was left moved) side t a b = inr (omega arith)
one_moves p c d down_mutex (up_other was left moved) side t a b = inr (omega arith)
one_moves p c d down_mutex (up_own left moved) side t a b = inr (omega arith)
one_moves p c d down_mutex up_side side t a b = inr (omega arith)
one_moves p c d in_ring ph' side t a b = inl (omega arith)
one_moves p c d (up_mutex was left moved) ph' side t a b = inl (omega arith)
one_moves p c d (up_other was left moved) ph' side t a b = inl (omega arith)
one_moves p c d (up_own left moved) ph' side t a b = inl (omega arith)
one_moves p c d up_side ph' side t a b = inl (omega arith)

module _ {s : System} {reader writer : ℕ} (v : IsValid s reader writer) (t : ℕ) (c : Call) where
  -- If a call waits, somebody is inside its side.
  read_side_taken :
      (ph : Phase)
      → s.pc t ≡ reading c ph
      → ReaderWaits s t ph
      → occupied (read_lane (s.pc reader)) ≡ 1
  read_side_taken ph e w = elim (Bool-cases (t == reader)) [
    | inl same ↦
        subst (λ l. occupied (read_lane l) ≡ 1) (sym e ∙ ap s.pc (eqb→eq t reader same))
          (taken ph e w (ap (λ u. read_lane (s.pc u)) (eqb→eq t reader same)))
    | inr other ↦ elsewhere ph w (ap read_lane (sym e) ∙ v.other_readers t (eqb→ne t reader other))
  ]
    where
      elsewhere :
          (ph : Phase)
          → ReaderWaits s t ph
          → lane_at c ph ≡ free
          → occupied (read_lane (s.pc reader)) ≡ 1
      elsewhere down_side w l = omega (arith, v.read_lock, w.zero_count)
      elsewhere _ w l = absurd (cc)

      taken :
          (ph : Phase)
          → s.pc t ≡ reading c ph
          → ReaderWaits s t ph
          → read_lane (s.pc t) ≡ read_lane (s.pc reader)
          → occupied (lane_at c ph) ≡ 1
      taken down_side e w same =
          absurd
            (omega (arith, v.read_lock, w.zero_count, ap occupied (ap read_lane (sym e) ∙ same)))
      taken _ e w same = refl

  write_side_taken :
      (ph : Phase)
      → s.pc t ≡ writing c ph
      → WriterWaits s t ph
      → occupied (write_lane (s.pc writer)) ≡ 1
  write_side_taken ph e w = elim (Bool-cases (t == writer)) [
    | inl same ↦
        subst (λ l. occupied (write_lane l) ≡ 1) (sym e ∙ ap s.pc (eqb→eq t writer same))
          (taken ph e w (ap (λ u. write_lane (s.pc u)) (eqb→eq t writer same)))
    | inr other ↦ elsewhere ph w (ap write_lane (sym e) ∙ v.other_writers t (eqb→ne t writer other))
  ]
    where
      elsewhere :
          (ph : Phase)
          → WriterWaits s t ph
          → lane_at c ph ≡ free
          → occupied (write_lane (s.pc writer)) ≡ 1
      elsewhere down_side w l = omega (arith, v.write_lock, w.zero_count)
      elsewhere _ w l = absurd (cc)

      taken :
          (ph : Phase)
          → s.pc t ≡ writing c ph
          → WriterWaits s t ph
          → write_lane (s.pc t) ≡ write_lane (s.pc writer)
          → occupied (lane_at c ph) ≡ 1
      taken down_side e w same =
          absurd
            (omega (arith, v.write_lock, w.zero_count, ap occupied (ap write_lane (sym e) ∙ same)))
      taken _ e w same = refl

-- The call of the thread inside.
record Busy (sort : Call → Phase → Pc) (pc : Pc) (lane : Lane) : Type 0 where
  call : Call
  phase : Phase
  at : pc ≡ sort call phase
  is : lane ≡ busy call phase
  past : phase ≢ down_side

past_side :
    (c : Call) (ph : Phase)
    → occupied (lane_at c ph) ≡ 1
    → (lane_at c ph ≡ busy c ph) × (ph ≢ down_side)
past_side c down_side h = absurd (omega arith)
past_side c down_own h = (refl, λ e. cc)
past_side c down_mutex h = (refl, λ e. cc)
past_side c in_ring h = (refl, λ e. cc)
past_side c (up_mutex was left moved) h = (refl, λ e. cc)
past_side c (up_other was left moved) h = (refl, λ e. cc)
past_side c (up_own left moved) h = (refl, λ e. cc)
past_side c up_side h = (refl, λ e. cc)

Busy-reader : (pc : Pc) → occupied (read_lane pc) ≡ 1 → Busy reading pc (read_lane pc)
Busy-reader outside h = absurd (omega arith)
Busy-reader (writing c ph) h = absurd (omega arith)
Busy-reader (reading c ph) h = record {
  call = c;
  phase = ph;
  at = refl;
  is = (past_side c ph h).0;
  past = (past_side c ph h).1;
}

Busy-writer : (pc : Pc) → occupied (write_lane pc) ≡ 1 → Busy writing pc (write_lane pc)
Busy-writer outside h = absurd (omega arith)
Busy-writer (reading c ph) h = absurd (omega arith)
Busy-writer (writing c ph) h = record {
  call = c;
  phase = ph;
  at = refl;
  is = (past_side c ph h).0;
  past = (past_side c ph h).1;
}

abbrev pub Moves : System → Type 0
Moves s = (x : ℕ) × (turn_of (s.pc x) s.pipe ≢ blocked)

Moves-inside :
    {s : System} {reader writer : ℕ}
    → IsValid s reader writer
    → Busy reading (s.pc reader) (read_lane (s.pc reader))
    → Busy writing (s.pc writer) (write_lane (s.pc writer))
    → Moves s
Moves-inside {s} {reader} {writer} v r w =
    elim (one_moves s.pipe r.call w.call r.phase w.phase 1 (Inv-lanes r.is w.is v.inv).tokens r.past
      w.past) [
        | inl open_lock ↦ elim (turn_reads reader r.call r.phase v r.at) [
          | inl waits ↦ absurd (
              open_lock (
                at_side s.pipe.read_lock s.pipe.empty_lock s.pipe.mutex r.phase r.past
                  waits.zero_count))
          | inr steps ↦ (reader, steps.goes_on)
        ]
        | inr open_lock ↦ elim (turn_writes writer w.call w.phase v w.at) [
          | inl waits ↦ absurd (
              open_lock (
                at_side s.pipe.write_lock s.pipe.full_lock s.pipe.mutex w.phase w.past
                  waits.zero_count))
          | inr steps ↦ (writer, steps.goes_on)
        ]
      ]
  where
    at_side :
        (a b m : ℕ) (ph : Phase) → ph ≢ down_side → awaited a b m ph ≡ 0 → awaited 1 b m ph ≡ 0
    at_side a b m down_side ne h = absurd (ne refl)
    at_side a b m down_own ne h = h
    at_side a b m down_mutex ne h = h
    at_side a b m in_ring ne h = h
    at_side a b m (up_mutex was left moved) ne h = h
    at_side a b m (up_other was left moved) ne h = h
    at_side a b m (up_own left moved) ne h = h
    at_side a b m up_side ne h = h

-- After any legal calls on a new pipe, in any interleaving: while one thread is in a call that
-- reads and another in a call that writes, some thread is not blocked.
pub no_deadlock :
    (buff : List ℕ) (size : ℕ) (es : List Event) (s : System)
    → Runs buff size es s
    → (t u : ℕ) (c d : Call) (ph ph' : Phase) → s.pc t ≡ reading c ph
    → s.pc u ≡ writing d ph'
    → Moves s
no_deadlock buff size es s r t u c d ph ph' e f =
    let is = Runs-Reached r in
    elim (turn_reads t c ph is.is_valid e) [
      | inr steps ↦ (t, steps.goes_on)
      | inl waits ↦ elim (turn_writes u d ph' is.is_valid f) [
        | inr steps ↦ (u, steps.goes_on)
        | inl waits' ↦
            Moves-inside is.is_valid
              (Busy-reader (s.pc is.reader) (read_side_taken is.is_valid t c ph e waits))
              (Busy-writer (s.pc is.writer) (write_side_taken is.is_valid u d ph' f waits'))
      ]
    ]
