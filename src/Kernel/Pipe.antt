-- ===== src/Kernel/Pipe.antt =====
-- kernel/pipe.c: a bounded stream of bytes between threads, from a ring and five semaphores. A call
-- is cut at the points where its thread can block or another thread can see a semaphore, so that
-- any interleaving of threads is a sequence of turns. Of a semaphore the model has the count: a
-- thread whose SemaphoreDown blocks takes no turn until the count is above 0. The work on the ring is
-- one turn: the Mutex keeps other threads out of it.
pub mod Invariant
pub mod Reader
pub mod Writer
pub mod System
pub mod Lanes
pub mod Turns
pub mod Safety
pub mod Stream
pub mod Zero
mod Tests
pub mod Progress
use kernelpanic.Common.{
  ℕ, zero, suc, ◌+◌, ◌-◌, ◌*◌, ◌/◌, ◌%◌, ◌^◌, ◌≤◌, ◌<◌, min, ◌≡◌, refl, sym, ap, ap₂, ◌∙◌, subst,
  ◌≢◌, ◌⊎◌, inl, inr, Bool, true, false, not, ◌&&◌, ◌||◌, Option, none, some, List, [], ◌∷◌, ◌++◌,
  append-nil, append_assoc, arith, ltb, leb, ◌==◌, if◌then◌else◌, Bool-cases, ltb→lt, ltb→le,
  eqb→eq, eqb→ne, eqb_of_ne, eqb_refl, length, get_or, set, take, drop, replicate, length-append,
  length-set, length-replicate, length-take, length-drop, take-append-drop, get_or-set_self,
  get_or-set_ne, length-snoc, prefix_of_append, All, All-append, All-front, All-map, All-zip,
  Distinct, Distinct-snoc,
}
use kernelpanic.Utils.RingBuffer
use kernelpanic.Utils.RingBuffer.{Ring}

-- `struct PIPE`, the counts of its semaphores, and the history: all bytes that were put into the
-- ring, and all that were taken out.
pub record Pipe : Type 0 where
  pub ring : Ring
  pub mutex : ℕ
  pub empty_lock : ℕ
  pub full_lock : ℕ
  pub read_lock : ℕ
  pub write_lock : ℕ
  pub sent : List ℕ
  pub received : List ℕ

-- `PipeInit`
unfoldable pub init : (buff : List ℕ) → (size : ℕ) → Pipe
unfolding RingBuffer.init
init buff size = record {
  ring = RingBuffer.init buff size;
  mutex = 1;
  empty_lock = 0;
  full_lock = 1;
  read_lock = 1;
  write_lock = 1;
  sent = [];
  received = [];
}

-- A call of PipeRead or PipeWrite, or with `whole` of PipeReadStruct or PipeWriteStruct: its
-- arguments, the count in its local `read` or `write`, and its buffer. A reader's buffer is what it
-- has stored so far.
pub record Call : Type 0 where
  pub whole : Bool
  pub size : ℕ
  pub done : ℕ
  pub buff : List ℕ

-- Where a call stands: before a SemaphoreDown of ReadLock (WriteLock), of EmptyLock (FullLock), of
-- Mutex; before the work on the ring; before a SemaphoreUp of Mutex, of FullLock (EmptyLock), of
-- EmptyLock (FullLock), of ReadLock (WriteLock). The locals are wasFull and dataLeft (wasEmpty and
-- spaceLeft) and the inner `read` (`write`).
pub data Phase : Type 0 where
  down_side down_own down_mutex in_ring : Phase
  up_mutex : (was left : Bool) → (moved : ℕ) → Phase
  up_other : (was left : Bool) → (moved : ℕ) → Phase
  up_own : (left : Bool) → (moved : ℕ) → Phase
  up_side : Phase

-- A thread is in no call, or in one of the two sorts.
pub data Pc : Type 0 where
  outside : Pc
  reading : Call → Phase → Pc
  writing : Call → Phase → Pc

-- What a turn does: it goes on, it does not since the semaphore's count is 0, or an ASSERT fails.
pub data Turn : Type 0 where
  goes : Pc → Pipe → Turn
  blocked : Turn
  panics : Turn

-- The `Count++` of a SemaphoreUp.
abbrev pub count_up : ℕ → ℕ
count_up count = (count + 1) % 2 ^ 64

-- Into the function: the test of the loop of PipeReadStruct (PipeWriteStruct), which PipeRead does
-- not have.
abbrev pub enter : Call → Phase
enter c = if c.whole && not (ltb c.done c.size) then up_side else down_own

-- Back from the inner function: its count is added, and the loop tested.
abbrev pub counted : Call → ℕ → Call
counted c moved = record c { done = (c.done + moved) % 2 ^ 64 }

abbrev pub again : Call → Phase
again c = if c.whole && ltb c.done c.size then down_own else up_side

-- The middle of `PipeReadInner`, under the Mutex.
unfoldable pub read_ring : Call → Pipe → Turn
unfolding RingBuffer.is_full RingBuffer.is_empty
read_ring c p =
    let was_full = RingBuffer.is_full p.ring in
    if not was_full || p.full_lock == 0
    then (elim (RingBuffer.read (c.size - c.done) p.ring) [
      | none ↦ panics
      | some (n, bytes, ring') ↦
          if ltb 0 n
          then goes
              (reading (record c { buff = c.buff ++ bytes })
                (up_mutex was_full (not (RingBuffer.is_empty ring')) n))
              (record p { ring = ring'; received = p.received ++ bytes })
          else panics
    ])
    else panics

-- The middle of `PipeWriteInner`, under the Mutex.
unfoldable pub write_ring : Call → Pipe → Turn
unfolding RingBuffer.is_full RingBuffer.is_empty
write_ring c p =
    let was_empty = RingBuffer.is_empty p.ring in
    if not was_empty || p.empty_lock == 0
    then (elim (RingBuffer.write (drop c.done c.buff) (c.size - c.done) p.ring) [
      | none ↦ panics
      | some (n, ring') ↦
          if ltb 0 n
          then goes (writing c (up_mutex was_empty (not (RingBuffer.is_full ring')) n))
              (record p { ring = ring'; sent = p.sent ++ take n (drop c.done c.buff) })
          else panics
    ])
    else panics

-- One turn of `PipeRead` or `PipeReadStruct`, with `PipeReadInner`.
unfoldable pub read_turn : Call → Phase → Pipe → Turn
unfolding read_ring
read_turn c down_side p =
    if p.read_lock == 0
    then blocked
    else goes (reading c (enter c)) (record p { read_lock = p.read_lock - 1 })
read_turn c down_own p =
    if p.empty_lock == 0
    then blocked
    else goes (reading c down_mutex) (record p { empty_lock = p.empty_lock - 1 })
read_turn c down_mutex p =
    if p.mutex == 0 then blocked else goes (reading c in_ring) (record p { mutex = p.mutex - 1 })
read_turn c in_ring p = read_ring c p
read_turn c (up_mutex was left moved) p =
    goes (reading c (up_other was left moved)) (record p { mutex = count_up p.mutex })
read_turn c (up_other was left moved) p =
    goes (reading c (up_own left moved))
      (if was && ltb 0 moved then record p { full_lock = count_up p.full_lock } else p)
read_turn c (up_own left moved) p =
    let c' = counted c moved in
    goes (reading c' (again c'))
      (if left then record p { empty_lock = count_up p.empty_lock } else p)
read_turn c up_side p =
    if not c.whole || c.done == c.size
    then goes outside (record p { read_lock = count_up p.read_lock })
    else panics

-- One turn of `PipeWrite` or `PipeWriteStruct`, with `PipeWriteInner`.
unfoldable pub write_turn : Call → Phase → Pipe → Turn
unfolding write_ring
write_turn c down_side p =
    if p.write_lock == 0
    then blocked
    else goes (writing c (enter c)) (record p { write_lock = p.write_lock - 1 })
write_turn c down_own p =
    if p.full_lock == 0
    then blocked
    else goes (writing c down_mutex) (record p { full_lock = p.full_lock - 1 })
write_turn c down_mutex p =
    if p.mutex == 0 then blocked else goes (writing c in_ring) (record p { mutex = p.mutex - 1 })
write_turn c in_ring p = write_ring c p
write_turn c (up_mutex was left moved) p =
    goes (writing c (up_other was left moved)) (record p { mutex = count_up p.mutex })
write_turn c (up_other was left moved) p =
    goes (writing c (up_own left moved))
      (if was && ltb 0 moved then record p { empty_lock = count_up p.empty_lock } else p)
write_turn c (up_own left moved) p =
    let c' = counted c moved in
    goes (writing c' (again c')) (if left then record p { full_lock = count_up p.full_lock } else p)
write_turn c up_side p =
    if not c.whole || c.done == c.size
    then goes outside (record p { write_lock = count_up p.write_lock })
    else panics
