-- ===== src/Kernel/Pipe/Safety.antt =====
-- The invariant of a pipe with any number of threads, kept by every event.
use kernelpanic.Common.{
  ℕ, ◌^◌, ◌≤◌, ◌<◌, ◌≡◌, refl, sym, ap, ◌∙◌, inl, inr, false, List, [], ◌∷◌, arith, length, All,
}
use kernelpanic.Common.Outcome.{ok}
use kernelpanic.Utils.RingBuffer.Fifo.{init-IsValid}
use kernelpanic.Utils.RingBuffer
use kernelpanic.Kernel.Pipe.{down_side, Pc, outside, reading, writing}
use kernelpanic.Kernel.Pipe.Invariant.{free, read_lane, write_lane, ReaderBegins, WriterBegins}
use kernelpanic.Kernel.Pipe.Lanes.{IsValid, same_lanes}
use kernelpanic.Kernel.Pipe.Turns.{turn_reads, turn_writes}
use kernelpanic.Kernel.Pipe.System.{
  System, Event, calls_read, calls_write, turn, begin, turn_of, take_turn, play, play_all, start,
}

-- The events that the C code allows: sizes that memory can hold, and not 0 for PipeRead and
-- PipeWrite.
abbrev pub Legal : Event → Type 0
Legal (calls_read t whole size) = (size ≤ 2 ^ 62) × (whole ≡ false → 0 < size)
Legal (calls_write t whole buff size) =
    (size ≤ length buff) × (length buff ≤ 2 ^ 62) × (whole ≡ false → 0 < size)
Legal (turn t) = Unit

-- The systems that an event can lead to.
pub record Next (s : System) (e : Event) : Type 0 where
  pub next : System
  pub reader : ℕ
  pub writer : ℕ
  pub returns : play e s ≡ ok next
  pub is_valid : IsValid next reader writer

begin_lem :
    {s : System} {reader writer : ℕ} (t : ℕ) (to pc : Pc)
    → IsValid s reader writer
    → s.pc t ≡ pc
    → read_lane to ≡ free
    → write_lane to ≡ free
    → ReaderBegins to
    → WriterBegins to
    → IsValid (begin t to s) reader writer
unfolding begin
begin_lem t to outside v e r w rb wb =
    rw (e, begin) (same_lanes v t to (r ∙ ap read_lane (sym e)) (w ∙ ap write_lane (sym e)) rb wb)
begin_lem t to (reading c ph) v e r w rb wb = rw (e, begin) v
begin_lem t to (writing c ph) v e r w rb wb = rw (e, begin) v

turn-Next :
    {s : System} {reader writer : ℕ} (t : ℕ) (pc : Pc)
    → IsValid s reader writer
    → s.pc t ≡ pc
    → Next s (turn t)
unfolding play
turn-Next {s} {reader} {writer} t outside v e = record {
  next = s;
  reader = reader;
  writer = writer;
  returns = unfold turn_of take_turn in rw e refl;
  is_valid = v;
}
turn-Next {s} {reader} {writer} t (reading c ph) v e = elim (turn_reads t c ph v e) [
  | inl w ↦ record {
    next = s;
    reader = reader;
    writer = writer;
    returns = unfold take_turn in rw w.returns refl;
    is_valid = v;
  }
  | inr g ↦ record {
    next = g.next;
    reader = g.reader;
    writer = g.writer;
    returns = g.returns;
    is_valid = g.is_valid;
  }
]
turn-Next {s} {reader} {writer} t (writing c ph) v e = elim (turn_writes t c ph v e) [
  | inl w ↦ record {
    next = s;
    reader = reader;
    writer = writer;
    returns = unfold take_turn in rw w.returns refl;
    is_valid = v;
  }
  | inr g ↦ record {
    next = g.next;
    reader = g.reader;
    writer = g.writer;
    returns = g.returns;
    is_valid = g.is_valid;
  }
]

pub play-Next :
    {s : System} {reader writer : ℕ} (e : Event) → IsValid s reader writer → Legal e → Next s e
unfolding play
play-Next {s} {reader} {writer} (calls_read t whole size) v l = record {
  next = begin t (reading (record { whole = whole; size = size; done = 0; buff = [] }) down_side) s;
  reader = reader;
  writer = writer;
  returns = refl;
  is_valid =
      begin_lem t _ (s.pc t) v refl refl refl (record { fits = l.0; asks = l.1 }, refl, refl) tt;
}
play-Next {s} {reader} {writer} (calls_write t whole buff size) v l = record {
  next =
      begin t (writing (record { whole = whole; size = size; done = 0; buff = buff }) down_side) s;
  reader = reader;
  writer = writer;
  returns = refl;
  is_valid =
      begin_lem t _ (s.pc t) v refl refl refl tt
        (record { fits = omega arith; asks = l.2 }, refl, l.0, l.1);
}
play-Next {s} (turn t) v l = turn-Next t (s.pc t) v refl

-- A system that a new pipe can get to.
pub record Reached (s : System) : Type 0 where
  pub reader : ℕ
  pub writer : ℕ
  pub is_valid : IsValid s reader writer

play_all_from :
    (es : List Event) {s : System} {reader writer : ℕ}
    → IsValid s reader writer
    → All Legal es
    → (s' : System) × (play_all es s ≡ ok s') × Reached s'
unfolding play_all
play_all_from [] {s} {reader} {writer} v l =
    (s, refl, record { reader = reader; writer = writer; is_valid = v })
play_all_from (e ∷ es) v l =
    let one = play-Next e v l.0 in
    let (s', runs, is) = play_all_from es one.is_valid l.1 in (s', rw one.returns runs, is)

start-IsValid :
    (buff : List ℕ) (size : ℕ)
    → 0 < size
    → size ≤ length buff
    → length buff ≤ 2 ^ 62
    → IsValid (start buff size) 0 0
unfolding start RingBuffer.is_full RingBuffer.init
start-IsValid buff size pos holds small = record {
  inv = record {
    tokens = record {
      mutex = refl;
      empty_lock = refl;
      full_lock = refl;
      ring = init-IsValid buff size pos holds small;
      stream = refl;
    };
    reads = tt;
    writes = tt;
  };
  read_lock = refl;
  write_lock = refl;
  other_readers = λ u ne. refl;
  other_writers = λ u ne. refl;
  reader_begins = λ u. tt;
  writer_begins = λ u. tt;
}

-- No interleaving of legal calls on a new pipe fails an ASSERT.
pub play_all_lem :
    (buff : List ℕ) (size : ℕ) (es : List Event)
    → 0 < size
    → size ≤ length buff
    → length buff ≤ 2 ^ 62
    → All Legal es
    → (s : System) × (play_all es (start buff size) ≡ ok s) × Reached s
play_all_lem buff size es pos holds small legal =
    play_all_from es (start-IsValid buff size pos holds small) legal
