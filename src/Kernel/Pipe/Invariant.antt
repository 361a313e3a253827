-- ===== src/Kernel/Pipe/Invariant.antt =====
-- What holds in a pipe between any two turns, given who is inside its two sides.
use kernelpanic.Common.{
  ℕ, ◌+◌, ◌^◌, ◌≤◌, ◌<◌, ◌≡◌, ◌⊎◌, inl, inr, Bool, true, false, not, ◌&&◌, List, [], ◌++◌, arith,
  ltb, if◌then◌else◌, Bool-cases, length, take,
}
use kernelpanic.Utils.RingBuffer
use kernelpanic.Utils.RingBuffer.{Ring}
use kernelpanic.Utils.RingBuffer.Contents.{IsValid, contents}
use kernelpanic.Kernel.Pipe.{
  enter, again, Pipe, Call, Pc, Turn, goes, reading, writing, Phase, down_side, down_own,
  down_mutex, in_ring, up_mutex, up_other, up_own, up_side,
}

-- A side of the pipe, reading or writing: nobody is past its first semaphore, or one call is.
pub data Lane : Type 0 where
  free : Lane
  busy : Call → Phase → Lane

-- What a call holds: the ring, the token of its own side (a reader's is that of EmptyLock), the
-- token of the other side.
abbrev pub holds_ring : Phase → ℕ
holds_ring in_ring = 1
holds_ring (up_mutex was left moved) = 1
holds_ring _ = 0

abbrev pub bit : Bool → ℕ
bit true = 1
bit false = 0

abbrev pub holds_own : Phase → ℕ
holds_own down_mutex = 1
holds_own in_ring = 1
holds_own (up_mutex was left moved) = bit left
holds_own (up_other was left moved) = bit left
holds_own (up_own left moved) = bit left
holds_own _ = 0

abbrev pub holds_other : Phase → ℕ
holds_other (up_mutex was left moved) = bit was
holds_other (up_other was left moved) = bit was
holds_other _ = 0

abbrev pub in_lane : (Phase → ℕ) → Lane → ℕ
in_lane f free = 0
in_lane f (busy c ph) = f ph

-- The bytes moved that are not in `done` yet.
abbrev pub moved_of : Phase → ℕ
moved_of (up_mutex was left moved) = moved
moved_of (up_other was left moved) = moved
moved_of (up_own left moved) = moved
moved_of _ = 0

-- The arguments a call may have: PipeRead and PipeWrite fail an ASSERT for a size of 0.
pub record IsCall (c : Call) : Type 0 where
  pub fits : c.size ≤ 2 ^ 62
  pub asks : c.whole ≡ false → 0 < c.size

-- How far a call is at each point.
abbrev pub Progress : Call → Phase → Type 0
Progress c down_side = c.done ≡ 0
Progress c down_own = c.done < c.size
Progress c down_mutex = c.done < c.size
Progress c in_ring = c.done < c.size
Progress c (up_mutex was left moved) = (0 < moved) × (c.done + moved ≤ c.size)
Progress c (up_other was left moved) = (0 < moved) × (c.done + moved ≤ c.size)
Progress c (up_own left moved) = (0 < moved) × (c.done + moved ≤ c.size)
Progress c up_side =
    (c.done ≤ c.size) × (c.whole ≡ true → c.done ≡ c.size) × (c.whole ≡ false → 0 < c.done)

-- A reader's buffer is the last bytes received.
pub record Reading (c : Call) (ph : Phase) (received : List ℕ) : Type 0 where
  pub is_call : IsCall c
  pub progress : Progress c ph
  pub stored : length c.buff ≡ c.done + moved_of ph
  pub before : List ℕ
  pub tail : received ≡ before ++ c.buff

-- The first bytes of a writer's buffer are the last bytes sent.
pub record Writing (c : Call) (ph : Phase) (sent : List ℕ) : Type 0 where
  pub is_call : IsCall c
  pub progress : Progress c ph
  pub holds : c.size ≤ length c.buff
  pub small : length c.buff ≤ 2 ^ 62
  pub before : List ℕ
  pub tail : sent ≡ before ++ take (c.done + moved_of ph) c.buff

abbrev pub InLane : (Call → Phase → Type 0) → Lane → Type 0
InLane P free = Unit
InLane P (busy c ph) = P c ph

-- The tokens: one for the ring; one of EmptyLock if the ring is not empty and one of FullLock if it
-- is not full, held by calls or left in the semaphores. And no byte is lost or reordered.
pub record Tokens (p : Pipe) (reader writer : Lane) : Type 0 where
  pub mutex : p.mutex + in_lane holds_ring reader + in_lane holds_ring writer ≡ 1
  pub empty_lock :
      p.empty_lock + in_lane holds_own reader + in_lane holds_other writer
      ≡ (if p.ring.empty then 0 else 1)
  pub full_lock :
      p.full_lock + in_lane holds_own writer + in_lane holds_other reader
      ≡ (if RingBuffer.is_full p.ring then 0 else 1)
  pub ring : IsValid p.ring
  pub stream : p.sent ≡ p.received ++ contents p.ring

pub record Inv (p : Pipe) (reader writer : Lane) : Type 0 where
  pub tokens : Tokens p reader writer
  pub reads : InLane (λ c ph. Reading c ph p.received) reader
  pub writes : InLane (λ c ph. Writing c ph p.sent) writer

-- The lane of a thread at each point.
abbrev pub lane_at : Call → Phase → Lane
lane_at c down_side = free
lane_at c ph = busy c ph

abbrev pub read_lane : Pc → Lane
read_lane (reading c ph) = lane_at c ph
read_lane _ = free

abbrev pub write_lane : Pc → Lane
write_lane (writing c ph) = lane_at c ph
write_lane _ = free

abbrev pub occupied : Lane → ℕ
occupied free = 0
occupied (busy c ph) = 1

-- A call that has not begun.
abbrev pub ReaderBegins : Pc → Type 0
ReaderBegins (reading c down_side) = IsCall c × (c.done ≡ 0) × (c.buff ≡ [])
ReaderBegins _ = Unit

abbrev pub WriterBegins : Pc → Type 0
WriterBegins (writing c down_side) =
    IsCall c × (c.done ≡ 0) × (c.size ≤ length c.buff) × (length c.buff ≤ 2 ^ 62)
WriterBegins _ = Unit

-- A reader's turn that goes on: the invariant holds again, ReadLock counts who is inside, and the
-- writing side is untouched.
pub record ReaderGoes (turn : Turn) (p : Pipe) (old writer : Lane) : Type 0 where
  pub pc : Pc
  pub next : Pipe
  pub returns : turn ≡ goes pc next
  pub inv : Inv next (read_lane pc) writer
  pub side : next.read_lock + occupied (read_lane pc) ≡ p.read_lock + occupied old
  pub other_side : next.write_lock ≡ p.write_lock
  pub reader : write_lane pc ≡ free
  pub reader_begins : ReaderBegins pc
  pub writer_begins : WriterBegins pc

pub record WriterGoes (turn : Turn) (p : Pipe) (reader old : Lane) : Type 0 where
  pub pc : Pc
  pub next : Pipe
  pub returns : turn ≡ goes pc next
  pub inv : Inv next reader (write_lane pc)
  pub side : next.write_lock + occupied (write_lane pc) ≡ p.write_lock + occupied old
  pub other_side : next.read_lock ≡ p.read_lock
  pub writer : read_lane pc ≡ free
  pub reader_begins : ReaderBegins pc
  pub writer_begins : WriterBegins pc

-- The semaphore that a call waits for, as seen from its own side.
abbrev pub awaited : (side own mutex : ℕ) → Phase → ℕ
awaited side own mutex down_side = side
awaited side own mutex down_own = own
awaited side own mutex down_mutex = mutex
awaited side own mutex _ = 1

-- Where the loop test sends a call.
pub enter_cases :
    (c : Call)
    → IsCall c
    → c.done ≡ 0
    → (enter c ≡ down_own) × (c.done < c.size) ⊎ (enter c ≡ up_side) × Progress c up_side
enter_cases c call z = elim (Bool-cases (c.whole && not (ltb c.done c.size))) [
  | inl nothing ↦ inr (ground arith, ground arith)
  | inr begins ↦ inl (ground arith, ground (arith, call.asks))
]

pub again_cases :
    (c : Call)
    → 0 < c.done
    → c.done ≤ c.size
    → (again c ≡ down_own) × (c.done < c.size) ⊎ (again c ≡ up_side) × Progress c up_side
again_cases c some_done le = elim (Bool-cases (c.whole && ltb c.done c.size)) [
  | inl more ↦ inl (ground arith, ground arith)
  | inr over ↦ inr (ground arith, ground arith)
]
