-- ===== src/Utils/RingBuffer/Tests.antt =====
-- Runs of utils/ringbuffer.c, and the theorems at concrete rings.
use kernelpanic.Common.{◌≡◌, refl, false, some, List, [], ◌∷◌, arith}
use kernelpanic.Utils.RingBuffer.{
  Ring, copy_out, copy_in, chunk_end, read_small, write_small, is_empty, is_full, mark_empty,
  read_loop, read, write_loop, write,
}
use kernelpanic.Utils.RingBuffer.Contents.{IsValid, contents}
use kernelpanic.Utils.RingBuffer.Fifo.{Call, get, put, run, queue_run, run_refines}

-- Bytes 3, 4, 5 round the end of five bytes of storage.
abbrev wrapped : Ring
wrapped = record {
  buffer = 4 ∷ 5 ∷ 0 ∷ 0 ∷ 3 ∷ [];
  size = 5;
  read_index = 4;
  write_index = 2;
  empty = false;
}

wrapped-IsValid : IsValid wrapped
wrapped-IsValid = record {
  storage = omega arith;
  small = omega arith;
  read_in = omega arith;
  write_in = omega arith;
  empty_at = λ e. cc;
}

contents-wrapped : contents wrapped ≡ 3 ∷ 4 ∷ 5 ∷ []
contents-wrapped = refl

-- A read that goes round the end takes two chunks.
read_round : read 2 wrapped ≡ some (2, 3 ∷ 4 ∷ [], record wrapped { read_index = 1 })
unfolding read read_loop read_small copy_out chunk_end mark_empty is_empty
read_round = refl

-- A write that fills the ring stops at the read index.
write_full :
    write (6 ∷ 7 ∷ 8 ∷ []) 3 wrapped
    ≡ some (2, record wrapped { buffer = 4 ∷ 5 ∷ 6 ∷ 7 ∷ 3 ∷ []; write_index = 4 })
unfolding write write_loop write_small copy_in chunk_end is_full
write_full = refl

abbrev script : List Call
script = put (6 ∷ 7 ∷ 8 ∷ []) ∷ get 4 ∷ get 4 ∷ get 1 ∷ []

run_refines_example : run wrapped script ≡ some (queue_run 5 (3 ∷ 4 ∷ 5 ∷ []) script)
run_refines_example = run_refines script wrapped wrapped-IsValid (omega arith)
