-- ===== src/Kernel/Pipe/Tests.antt =====
-- Runs of a pipe of two bytes, with a thread 1 that reads and a thread 2 that writes.
use kernelpanic.Common.{ℕ, zero, suc, ◌≡◌, refl, true, false, List, [], ◌∷◌, ◌++◌, arith}
use kernelpanic.Common.Outcome.{Outcome, ok, panic}
use kernelpanic.Common.Store.{update}
use kernelpanic.Utils.RingBuffer
use kernelpanic.Utils.RingBuffer.Contents.{IsValid, contents}
use kernelpanic.Kernel.Pipe
use kernelpanic.Kernel.Pipe.{
  Call, up_side, down_own, down_side, reading, writing, panics, read_ring, write_ring,
}
use kernelpanic.Kernel.Pipe.System.{System, Event, calls_read, calls_write, turn, play_all, start}
use kernelpanic.Kernel.Pipe.Safety.{Reached, play_all_lem}
use kernelpanic.Kernel.Pipe.Stream.{Runs, Got, stream_in_order}
use kernelpanic.Kernel.Pipe.Progress.{Moves, no_deadlock}
use kernelpanic.Kernel.Pipe.Zero.{zero_size_panics}

abbrev turns : ℕ → ℕ → List Event
turns zero t = []
turns (suc n) t = turn t ∷ turns n t

-- Thread 1 wants three bytes by PipeReadStruct; thread 2 writes three by PipeWriteStruct.
abbrev three_bytes : List Event
three_bytes =
    calls_read 1 true 3
    ∷ (turns 2 1
        ++ calls_write 2 true (7 ∷ 8 ∷ 9 ∷ []) 3
          ∷ (turns 8 2 ++ turns 9 1 ++ turns 9 2 ++ turns 6 1))

abbrev storage : List ℕ
storage = 0 ∷ 0 ∷ []

-- What the reader has stored at the end.
abbrev stored : Outcome System → List ℕ
stored panic = []
stored (ok s) = elim (s.pc 1) [ reading c ph ↦ c.buff | _ ↦ [] ]

reads_three : stored (play_all three_bytes (start storage 2)) ≡ 7 ∷ 8 ∷ 9 ∷ []
unfolding play_all start RingBuffer.copy_out RingBuffer.copy_in RingBuffer.read_small
    RingBuffer.write_small RingBuffer.read_loop RingBuffer.write_loop RingBuffer.read
    RingBuffer.write RingBuffer.mark_empty RingBuffer.is_full RingBuffer.is_empty
reads_three = refl

abbrev some_calls : List Event
some_calls =
    calls_read 1 false 5 ∷ turn 1 ∷ turn 1 ∷ calls_write 2 false (7 ∷ 8 ∷ 9 ∷ []) 3 ∷ turns 8 2
    ++ turns 7 1

play_all_lem_example : (s : System) × (play_all some_calls (start storage 2) ≡ ok s) × Reached s
play_all_lem_example =
    play_all_lem storage 2 some_calls (omega arith) (omega arith) (omega arith) (omega arith)

-- A state in the middle of both calls: the first blocked on EmptyLock, the second at its start.
abbrev early : List Event
early = calls_read 1 false 5 ∷ turn 1 ∷ turn 1 ∷ calls_write 2 false (7 ∷ 8 ∷ 9 ∷ []) 3 ∷ []

abbrev early_system : System
early_system = record {
  pipe = record (Pipe.init storage 2) { read_lock = 0 };
  pc =
      update
        (update
          (update (λ t. Pipe.outside) 1
            (reading (record { whole = false; size = 5; done = 0; buff = [] }) down_side))
          1 (reading (record { whole = false; size = 5; done = 0; buff = [] }) down_own))
        2 (writing (record { whole = false; size = 3; done = 0; buff = 7 ∷ 8 ∷ 9 ∷ [] }) down_side);
}

early-Runs : Runs storage 2 early early_system
unfolding play_all start
early-Runs = record {
  pos = omega arith;
  holds = omega arith;
  small = omega arith;
  allowed = omega arith;
  ends = refl;
}

stream_in_order_example :
    (early_system.pipe.sent ≡ early_system.pipe.received ++ contents early_system.pipe.ring)
    × ((t : ℕ) (c : Call) → early_system.pc t ≡ reading c up_side → Got early_system c)
stream_in_order_example = stream_in_order storage 2 early early_system early-Runs

at_reader :
    early_system.pc 1 ≡ reading (record { whole = false; size = 5; done = 0; buff = [] }) down_own
unfolding update
at_reader = refl

at_writer :
    early_system.pc 2
    ≡ writing (record { whole = false; size = 3; done = 0; buff = 7 ∷ 8 ∷ 9 ∷ [] }) down_side
unfolding update
at_writer = refl

no_deadlock_example : Moves early_system
no_deadlock_example =
    no_deadlock storage 2 early early_system early-Runs 1 2
      (record { whole = false; size = 5; done = 0; buff = [] })
      (record { whole = false; size = 3; done = 0; buff = 7 ∷ 8 ∷ 9 ∷ [] }) down_own down_side
      at_reader at_writer

abbrev nothing : Call
nothing = record { whole = false; size = 0; done = 0; buff = [] }

new_ring : IsValid (Pipe.init storage 2).ring
unfolding Pipe.init RingBuffer.init
new_ring = record {
  storage = omega arith;
  small = omega arith;
  read_in = omega arith;
  write_in = omega arith;
  empty_at = λ e. refl;
}

zero_size_panics_example :
    (read_ring nothing (Pipe.init storage 2) ≡ panics)
    × (write_ring nothing (Pipe.init storage 2) ≡ panics)
zero_size_panics_example =
    zero_size_panics nothing (Pipe.init storage 2) new_ring refl (omega arith)
