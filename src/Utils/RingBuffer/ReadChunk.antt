-- ===== src/Utils/RingBuffer/ReadChunk.antt =====
-- `RingBufferReadSmall`: what one chunk delivers.
use kernelpanic.Common.{
  ℕ, ◌+◌, ◌^◌, ◌≤◌, ◌<◌, min, ◌≡◌, false, some, List, ◌++◌, arith, ap, append-nil, suc, zero, ◌-◌,
  ◌∙◌, append_assoc, refl,
}
use kernelpanic.Utils.RingBuffer.{Ring, read_small, chunk_end, mark_empty}
use kernelpanic.Utils.RingBuffer.Slice.{slice, slice-split}
use kernelpanic.Utils.RingBuffer.Copy.{copy_out-slice}
use kernelpanic.Utils.RingBuffer.Contents.{IsValid, contents, first_run, second_run}

-- The bytes that one chunk moves.
abbrev pub chunk : ℕ → Ring → ℕ
chunk n r = min n (first_run r)

pub record ReadSmall (n : ℕ) (r : Ring) (bytes : List ℕ) (r' : Ring) : Type 0 where
  pub is_valid : IsValid (mark_empty r')
  pub same_buffer : r'.buffer ≡ r.buffer
  pub same_size : r'.size ≡ r.size
  pub is_slice : bytes ≡ slice r.buffer r.read_index (chunk n r)
  pub first :
      first_run r + second_run r
      ≡ chunk n r + first_run (mark_empty r') + second_run (mark_empty r')
  pub delivers : contents r ≡ bytes ++ contents (mark_empty r')

abbrev pub after_read : ℕ → Ring → Ring
after_read n r = record r { read_index = (chunk_end r.read_index r.write_index n r.size).1 }

pub read_small-runs :
    (n : ℕ) (r : Ring)
    → IsValid r
    → r.empty ≡ false
    → 0 < n
    → n ≤ 2 ^ 62
    → read_small n r ≡ some (slice r.buffer r.read_index (chunk n r), after_read n r)
unfolding read_small chunk_end
read_small-runs n r v e pos small = ground (
  arith,
  copy_out-slice (r.size + 1) r.buffer r.read_index
      (chunk_end r.read_index r.write_index n r.size).0 (chunk n r),
)

pub after_read-contents :
    (n : ℕ) (r : Ring) (k : ℕ)
    → IsValid r
    → r.empty ≡ false
    → 0 < n
    → n ≤ 2 ^ 62
    → first_run r ≡ chunk n r + k
    → slice r.buffer (r.read_index + chunk n r) k ++ slice r.buffer 0 (second_run r)
      ≡ contents (mark_empty (after_read n r))
unfolding mark_empty chunk_end
after_read-contents n r zero v e pos small s =
    ground (arith, append-nil (slice r.buffer 0 r.write_index))
after_read-contents n r (suc k) v e pos small s = ground arith

pub ReadSmall-chunk :
    (n : ℕ) (r : Ring)
    → IsValid r
    → r.empty ≡ false
    → 0 < n
    → n ≤ 2 ^ 62
    → ReadSmall n r (slice r.buffer r.read_index (chunk n r)) (after_read n r)
unfolding mark_empty chunk_end
ReadSmall-chunk n r v e pos small = record {
  is_valid = ground arith;
  same_buffer = refl;
  same_size = refl;
  is_slice = refl;
  first = ground arith;
  delivers =
      ap (λ l. l ++ slice r.buffer 0 (second_run r))
        (slice-split r.buffer r.read_index (chunk n r) (first_run r - chunk n r) (first_run r)
          (omega arith))
      ∙ append_assoc (slice r.buffer r.read_index (chunk n r)) _ _
      ∙ ap (λ l. slice r.buffer r.read_index (chunk n r) ++ l)
          (after_read-contents n r (first_run r - chunk n r) v e pos small (omega arith));
}
