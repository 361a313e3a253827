-- ===== src/Kernel/Pipe/Turns.antt =====
-- A turn of any thread keeps the invariant of the pipe.
use kernelpanic.Common.{
  ℕ, ◌≡◌, refl, sym, ap, ◌∙◌, subst, ◌≢◌, ◌⊎◌, inl, inr, arith, ◌==◌, Bool-cases, eqb→eq, eqb→ne,
}
use kernelpanic.Common.Outcome.{ok}
use kernelpanic.Common.Store.{update}
use kernelpanic.Kernel.Pipe.{
  Pipe, Call, Phase, down_side, Pc, reading, writing, goes, blocked, read_turn, write_turn,
}
use kernelpanic.Kernel.Pipe.Invariant.{
  free, lane_at, read_lane, write_lane, occupied, ReaderBegins, WriterBegins, awaited,
}
use kernelpanic.Kernel.Pipe.Reader.{read_turn_lem}
use kernelpanic.Kernel.Pipe.Writer.{write_turn_lem}
use kernelpanic.Kernel.Pipe.Lanes.{
  IsValid, Inv-lanes, to_reader, to_writer, reader_next, writer_next,
}
use kernelpanic.Kernel.Pipe.System.{System, turn_of, take_turn}

-- What a turn of a thread does to the system: nothing, since the semaphore that the thread waits
-- for has count 0, or a step to a valid system.
pub record Waits (s : System) (t : ℕ) (semaphore : ℕ) : Type 0 where
  pub returns : turn_of (s.pc t) s.pipe ≡ blocked
  pub zero_count : semaphore ≡ 0

pub record Steps (s : System) (t : ℕ) : Type 0 where
  pub next : System
  pub reader : ℕ
  pub writer : ℕ
  pub goes_on : turn_of (s.pc t) s.pipe ≢ blocked
  pub returns : take_turn t (turn_of (s.pc t) s.pipe) s ≡ ok next
  pub is_valid : IsValid next reader writer

abbrev pub ReaderWaits : System → ℕ → Phase → Type 0
ReaderWaits s t ph = Waits s t (awaited s.pipe.read_lock s.pipe.empty_lock s.pipe.mutex ph)

abbrev pub WriterWaits : System → ℕ → Phase → Type 0
WriterWaits s t ph = Waits s t (awaited s.pipe.write_lock s.pipe.full_lock s.pipe.mutex ph)

goes-ne-blocked : {pc : Pc} {p : Pipe} → goes pc p ≢ blocked
goes-ne-blocked h = cc

-- A call outside of its lane waits for the first semaphore.
read_side_lem :
    (c : Call) (ph : Phase) (p : Pipe)
    → lane_at c ph ≡ free
    → p.read_lock ≡ 0
    → (read_turn c ph p ≡ blocked) × (awaited p.read_lock p.empty_lock p.mutex ph ≡ 0)
unfolding read_turn
read_side_lem c down_side p e z = (ground arith, z)
read_side_lem c _ p e z = absurd (cc)

write_side_lem :
    (c : Call) (ph : Phase) (p : Pipe)
    → lane_at c ph ≡ free
    → p.write_lock ≡ 0
    → (write_turn c ph p ≡ blocked) × (awaited p.write_lock p.full_lock p.mutex ph ≡ 0)
unfolding write_turn
write_side_lem c down_side p e z = (ground arith, z)
write_side_lem c _ p e z = absurd (cc)

module _ {s : System} (t : ℕ) (c : Call) (ph : Phase) where
  inside_reads :
      {writer : ℕ} → IsValid s t writer → s.pc t ≡ reading c ph → ReaderWaits s t ph ⊎ Steps s t
  unfolding turn_of take_turn
  inside_reads {writer} v e =
      let lane : lane_at c ph ≡ read_lane (s.pc t) = ap read_lane (sym e) in
      let now : read_turn c ph s.pipe ≡ turn_of (s.pc t) s.pipe =
        ap (λ pc. turn_of pc s.pipe) (sym e) in
      elim (read_turn_lem c ph (Inv-lanes (sym lane) refl v.inv)
        (subst ReaderBegins e (v.reader_begins t)) (omega (arith, v.read_lock, ap occupied lane))) [
          | inl w ↦ inl (record { returns = sym now ∙ w.0; zero_count = w.1 })
          | inr g ↦ inr (record {
            next = record { pipe = g.next; pc = update s.pc t g.pc };
            reader = t;
            writer = writer;
            goes_on = λ b. goes-ne-blocked (sym g.returns ∙ now ∙ b);
            returns = ap (λ u. take_turn t u s) (sym now ∙ g.returns);
            is_valid = reader_next v (ap write_lane e) lane g;
          })
        ]

  inside_writes :
      {reader : ℕ} → IsValid s reader t → s.pc t ≡ writing c ph → WriterWaits s t ph ⊎ Steps s t
  unfolding turn_of take_turn
  inside_writes {reader} v e =
      let lane : lane_at c ph ≡ write_lane (s.pc t) = ap write_lane (sym e) in
      let now : write_turn c ph s.pipe ≡ turn_of (s.pc t) s.pipe =
        ap (λ pc. turn_of pc s.pipe) (sym e) in
      elim (write_turn_lem c ph (Inv-lanes refl (sym lane) v.inv)
        (subst WriterBegins e (v.writer_begins t))
        (omega (arith, v.write_lock, ap occupied lane))) [
          | inl w ↦ inl (record { returns = sym now ∙ w.0; zero_count = w.1 })
          | inr g ↦ inr (record {
            next = record { pipe = g.next; pc = update s.pc t g.pc };
            reader = reader;
            writer = t;
            goes_on = λ b. goes-ne-blocked (sym g.returns ∙ now ∙ b);
            returns = ap (λ u. take_turn t u s) (sym now ∙ g.returns);
            is_valid = writer_next v (ap read_lane e) lane g;
          })
        ]

  module _ {reader writer : ℕ} (v : IsValid s reader writer) where
    pub turn_reads : s.pc t ≡ reading c ph → ReaderWaits s t ph ⊎ Steps s t
    unfolding turn_of
    turn_reads e = elim (Bool-cases (t == reader)) [
      | inl same ↦ inside_reads (subst (λ r. IsValid s r writer) (sym (eqb→eq t reader same)) v) e
      | inr other ↦
          let mine = v.other_readers t (eqb→ne t reader other) in
          elim (Bool-cases (s.pipe.read_lock == 0)) [
            | inl z ↦
                let is = read_side_lem c ph s.pipe (ap read_lane (sym e) ∙ mine) (eqb→eq _ 0 z) in
                inl (record { returns = ap (λ pc. turn_of pc s.pipe) e ∙ is.0; zero_count = is.1 })
            | inr nz ↦ inside_reads (to_reader v t mine (eqb→ne _ 0 nz)) e
          ]
    ]

    pub turn_writes : s.pc t ≡ writing c ph → WriterWaits s t ph ⊎ Steps s t
    unfolding turn_of
    turn_writes e = elim (Bool-cases (t == writer)) [
      | inl same ↦ inside_writes (subst (λ w. IsValid s reader w) (sym (eqb→eq t writer same)) v) e
      | inr other ↦
          let mine = v.other_writers t (eqb→ne t writer other) in
          elim (Bool-cases (s.pipe.write_lock == 0)) [
            | inl z ↦
                let is = write_side_lem c ph s.pipe (ap write_lane (sym e) ∙ mine) (eqb→eq _ 0 z) in
                inl (record { returns = ap (λ pc. turn_of pc s.pipe) e ∙ is.0; zero_count = is.1 })
            | inr nz ↦ inside_writes (to_writer v t mine (eqb→ne _ 0 nz)) e
          ]
    ]
