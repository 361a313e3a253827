-- ===== src/Utils/RingBuffer.antt =====
-- utils/ringbuffer.c: a byte ring over storage that the caller provides, read and written in
-- contiguous chunks.
pub mod Slice
pub mod Copy
pub mod Contents
pub mod ReadChunk
pub mod Read
pub mod WriteChunk
pub mod Write
pub mod Fifo
mod Tests
use kernelpanic.Common.{
  ℕ, zero, suc, ◌+◌, ◌-◌, ◌%◌, ◌^◌, Bool, true, false, not, ◌&&◌, Option, none, some, List, [], ◌∷◌,
  ◌++◌, ltb, leb, ◌==◌, if◌then◌else◌, length, get_or, set, drop,
}

-- `struct RING_BUFFER`. Bytes are only moved, so a byte is any number.
pub record Ring : Type 0 where
  pub buffer : List ℕ
  pub size : ℕ
  pub read_index : ℕ
  pub write_index : ℕ
  pub empty : Bool

-- `size_t` addition
abbrev pub add_size : ℕ → ℕ → ℕ
add_size a b = (a + b) % 2 ^ 64

-- The copy loops. `none` is an access outside an array, or fuel that ran out.
unfoldable pub copy_out : ℕ → List ℕ → (cur end : ℕ) → Option (List ℕ)
copy_out zero b cur end = none
copy_out (suc f) b cur end = elim (cur == end) [
  | true ↦ some []
  | false ↦ elim (ltb cur (length b)) [
    | false ↦ none
    | true ↦ elim (copy_out f b (add_size cur 1) end) [
      | none ↦ none
      | some rest ↦ some (get_or b cur 0 ∷ rest)
    ]
  ]
]

-- `index` counts the bytes taken from `buff`.
unfoldable pub copy_in : ℕ → List ℕ → (cur end : ℕ) → List ℕ → (index : ℕ) → Option (ℕ × List ℕ)
copy_in zero b cur end buff index = none
copy_in (suc f) b cur end buff index = elim (cur == end) [
  | true ↦ some (index, b)
  | false ↦ elim (ltb cur (length b) && ltb index (length buff)) [
    | false ↦ none
    | true ↦
        copy_in f (set b cur (get_or buff index 0)) (add_size cur 1) end buff (add_size index 1)
  ]
]

-- Where a chunk stops, and where the index goes that moves over it: up to `other` if that lies
-- ahead, else up to the end of the storage, where the index wraps.
unfoldable pub chunk_end : (cur other size limit : ℕ) → ℕ × ℕ
chunk_end cur other size limit =
    let end = add_size cur size in
    if ltb cur other
    then (if ltb other end then (other, other) else (end, end))
    else (if leb limit end then (limit, 0) else (end, end))

-- `RingBufferReadSmall`: the bytes stored from `buff` on, and the ring. The count returned is
-- their number.
unfoldable pub read_small : (size : ℕ) → Ring → Option (List ℕ × Ring)
unfolding copy_out chunk_end
read_small size r =
    let (end, next) = chunk_end r.read_index r.write_index size r.size in
    elim (copy_out (r.size + 1) r.buffer r.read_index end) [
      | none ↦ none
      | some bytes ↦ some (bytes, record r { read_index = next })
    ]

-- `RingBufferWriteSmall`
unfoldable pub write_small : (buff : List ℕ) → (size : ℕ) → Ring → Option (ℕ × Ring)
unfolding copy_in chunk_end
write_small buff size r =
    let (end, next) = chunk_end r.write_index r.read_index size r.size in
    elim (copy_in (r.size + 1) r.buffer r.write_index end buff 0) [
      | none ↦ none
      | some (index, b) ↦ some (index, record r { buffer = b; write_index = next })
    ]

-- `RingBufferIsEmpty`
unfoldable pub is_empty : Ring → Bool
is_empty r = r.empty

-- `RingBufferIsFull`
unfoldable pub is_full : Ring → Bool
is_full r = not r.empty && (r.write_index == r.read_index)

-- `RingBufferPeak`: the byte put into `*out`, if the call returns true.
unfoldable pub peak : Ring → Option ℕ
unfolding is_empty
peak r = if is_empty r then none else some (get_or r.buffer r.read_index 0)

-- `if (ring->ReadIndex == ring->WriteIndex) ring->Empty = true;`
unfoldable pub mark_empty : Ring → Ring
mark_empty r = if r.read_index == r.write_index then record r { empty = true } else r

-- The loop of `RingBufferRead`: `read` bytes are already stored.
unfoldable pub read_loop : (fuel : ℕ) → (size read : ℕ) → Ring → Option (ℕ × List ℕ × Ring)
read_loop zero size read r = none
read_loop (suc f) size read r = elim (ltb read size && not (is_empty r)) [
  | false ↦ some (read, [], r)
  | true ↦ elim (read_small (size - read) r) [
    | none ↦ none
    | some (bytes, r') ↦ elim (read_loop f size (add_size read (length bytes)) (mark_empty r')) [
      | none ↦ none
      | some (n, rest, r'') ↦ some (n, bytes ++ rest, r'')
    ]
  ]
]

-- `RingBufferRead`: the count returned, the bytes stored from `buff` on, and the ring.
unfoldable pub read : (size : ℕ) → Ring → Option (ℕ × List ℕ × Ring)
unfolding read_loop
read size r = read_loop (size + 1) size 0 r

-- The loop of `RingBufferWrite`: `write` bytes of `buff` are already stored.
unfoldable pub write_loop :
    (fuel : ℕ) → (buff : List ℕ) → (size write : ℕ) → Ring → Option (ℕ × Ring)
write_loop zero buff size write r = none
write_loop (suc f) buff size write r = elim (ltb write size && not (is_full r)) [
  | false ↦ some (write, r)
  | true ↦ elim (write_small (drop write buff) (size - write) r) [
    | none ↦ none
    | some (n, r') ↦ write_loop f buff size (add_size write n) (record r' { empty = false })
  ]
]

-- `RingBufferWrite`
unfoldable pub write : (buff : List ℕ) → (size : ℕ) → Ring → Option (ℕ × Ring)
unfolding write_loop
write buff size r = write_loop (size + 1) buff size 0 r

-- `RingBufferInit`
unfoldable pub init : (buff : List ℕ) → (size : ℕ) → Ring
init buff size = record {
  buffer = buff;
  size = size;
  read_index = 0;
  write_index = 0;
  empty = true;
}
