-- ===== src/Kernel/Pipe/System.antt =====
-- Any number of threads that call PipeRead, PipeReadStruct, PipeWrite and PipeWriteStruct on one
-- pipe, in any interleaving.
use kernelpanic.Common.{ℕ, Bool, List, [], ◌∷◌}
use kernelpanic.Common.Outcome.{Outcome, ok, panic, ◌>>=◌}
use kernelpanic.Common.Store.{update}
use kernelpanic.Kernel.Pipe
use kernelpanic.Kernel.Pipe.{
  Pipe, Call, Phase, down_side, Pc, outside, reading, writing, Turn, goes, blocked, panics,
  read_turn, write_turn,
}

pub record System : Type 0 where
  pub pipe : Pipe
  pub pc : ℕ → Pc

-- What happens next: a thread in no call begins one, or a thread takes a turn.
pub data Event : Type 0 where
  calls_read : (thread : ℕ) → (whole : Bool) → (size : ℕ) → Event
  calls_write : (thread : ℕ) → (whole : Bool) → (buff : List ℕ) → (size : ℕ) → Event
  turn : (thread : ℕ) → Event

unfoldable pub begin : ℕ → Pc → System → System
unfolding update
begin t pc s = elim (s.pc t) [
  | outside ↦ record s { pc = update s.pc t pc }
  | reading c ph ↦ s
  | writing c ph ↦ s
]

unfoldable pub turn_of : Pc → Pipe → Turn
unfolding read_turn write_turn
turn_of outside p = blocked
turn_of (reading c ph) p = read_turn c ph p
turn_of (writing c ph) p = write_turn c ph p

unfoldable pub take_turn : ℕ → Turn → System → Outcome System
unfolding update
take_turn t (goes pc p) s = ok (record { pipe = p; pc = update s.pc t pc })
take_turn t blocked s = ok s
take_turn t panics s = panic

unfoldable pub play : Event → System → Outcome System
unfolding begin turn_of take_turn
play (calls_read t whole size) s =
    ok (begin t (reading (record { whole = whole; size = size; done = 0; buff = [] }) down_side) s)
play (calls_write t whole buff size) s =
    ok
      (begin t (writing (record { whole = whole; size = size; done = 0; buff = buff }) down_side) s)
play (turn t) s = take_turn t (turn_of (s.pc t) s.pipe) s

unfoldable pub play_all : List Event → System → Outcome System
unfolding play
play_all [] s = ok s
play_all (e ∷ es) s = play e s >>= λ s'. play_all es s'

-- A new pipe that no thread has called.
unfoldable pub start : (buff : List ℕ) → (size : ℕ) → System
unfolding Pipe.init
start buff size = record { pipe = Pipe.init buff size; pc = λ t. outside }
