-- ===== src/Utils/RingBuffer/WriteChunk.antt =====
-- `RingBufferWriteSmall`: what one chunk stores.
use kernelpanic.Common.{
  ℕ, ◌+◌, ◌-◌, ◌^◌, ◌≤◌, ◌<◌, min, ◌≡◌, refl, ap, ◌∙◌, inl, inr, false, some, List, ◌++◌,
  append-nil, append_assoc, arith, ltb, if◌then◌else◌, Bool-cases, ltb→lt, ltb→le, length,
}
use kernelpanic.Utils.RingBuffer.{Ring, write_small, chunk_end, is_full}
use kernelpanic.Utils.RingBuffer.Slice.{slice, slice-split}
use kernelpanic.Utils.RingBuffer.Copy.{CopiedIn, copy_in-CopiedIn}
use kernelpanic.Utils.RingBuffer.Contents.{IsValid, contents, count, first_run, second_run}

-- The room in front of the write index, in a ring that is not full.
abbrev pub room : Ring → ℕ
room r =
    if ltb r.write_index r.read_index then r.read_index - r.write_index else r.size - r.write_index

abbrev pub chunk : ℕ → Ring → ℕ
chunk n r = min n (room r)

abbrev pub after_write : ℕ → Ring → List ℕ → Ring
after_write n r b = record r {
  buffer = b;
  write_index = (chunk_end r.write_index r.read_index n r.size).1;
  empty = false;
}

module _ (n : ℕ) (r : Ring) (v : IsValid r) (not_full : is_full r ≡ false) (pos : 0 < n)
    (small : n ≤ 2 ^ 62) where
  pub write_small-runs :
      (buff : List ℕ)
      → n ≤ length buff
      → length buff ≤ 2 ^ 62
      → (b : List ℕ) × (write_small buff n r
          ≡ some (
            chunk n r,
            record r {
              buffer = b;
              write_index = (chunk_end r.write_index r.read_index n r.size).1;
            },
          ))
        × CopiedIn r.buffer b r.write_index (chunk n r) buff 0
  unfolding write_small chunk_end is_full
  write_small-runs buff h hb =
      let end = (chunk_end r.write_index r.read_index n r.size).0 in
      let (b, runs, is) =
        copy_in-CopiedIn (r.size + 1) r.buffer r.write_index end (chunk n r) buff 0 (ground arith)
          (ground arith) (omega arith) (omega arith) (omega arith) (ground arith) in
      (b, ground arith, is)

  pub after_write-IsValid : (b : List ℕ) → length b ≡ length r.buffer → IsValid (after_write n r b)
  unfolding chunk_end is_full
  after_write-IsValid b h = ground arith

  pub count-after_write : (b : List ℕ) → count (after_write n r b) ≡ count r + chunk n r
  unfolding chunk_end is_full
  count-after_write b = ground arith

  -- Behind the data that lie in one run from the read index.
  pub contents_behind :
      (b buff : List ℕ)
      → CopiedIn r.buffer b r.write_index (chunk n r) buff 0
      → r.read_index ≤ r.write_index
      → contents (after_write n r b) ≡ contents r ++ slice b r.write_index (chunk n r)
  unfolding chunk_end is_full
  contents_behind b buff is h =
      let split =
        slice-split b r.read_index (r.write_index - r.read_index) (chunk n r)
          (r.write_index - r.read_index + chunk n r) refl in
      let at : r.read_index + (r.write_index - r.read_index) ≡ r.write_index = omega arith in
      let new_first : first_run (after_write n r b) ≡ r.write_index - r.read_index + chunk n r =
        ground arith in
      let new_second : second_run (after_write n r b) ≡ 0 = ground arith in
      let old_first : first_run r ≡ r.write_index - r.read_index = ground arith in
      let old_second : second_run r ≡ 0 = ground arith in
      let same = is.outside r.read_index (r.write_index - r.read_index) (omega arith) in
      ground (
        arith,
        append-nil (slice b r.read_index (r.write_index - r.read_index + chunk n r)),
        append-nil (slice r.buffer r.read_index (r.write_index - r.read_index)),
      )

  -- Behind the data that go round the end of the storage.
  pub contents_round :
      (b buff : List ℕ)
      → CopiedIn r.buffer b r.write_index (chunk n r) buff 0
      → r.write_index < r.read_index
      → contents (after_write n r b) ≡ contents r ++ slice b r.write_index (chunk n r)
  unfolding chunk_end is_full
  contents_round b buff is h =
      let split = slice-split b 0 r.write_index (chunk n r) (r.write_index + chunk n r) refl in
      let at : 0 + r.write_index ≡ r.write_index = omega arith in
      let new_first : first_run (after_write n r b) ≡ r.size - r.read_index = ground arith in
      let new_second : second_run (after_write n r b) ≡ r.write_index + chunk n r = ground arith in
      let old_first : first_run r ≡ r.size - r.read_index = ground arith in
      let old_second : second_run r ≡ r.write_index = ground arith in
      let room_eq : room r ≡ r.read_index - r.write_index = ground arith in
      let same = is.outside r.read_index (r.size - r.read_index) (omega arith) in
      let same' = is.outside 0 r.write_index (omega arith) in
      ground (
        arith,
        append_assoc (slice r.buffer r.read_index (r.size - r.read_index))
            (slice r.buffer 0 r.write_index) (slice b r.write_index (chunk n r)),
      )

  -- One chunk appends the bytes from the front of `buff`.
  pub after_write-contents :
      (b buff : List ℕ)
      → CopiedIn r.buffer b r.write_index (chunk n r) buff 0
      → contents (after_write n r b) ≡ contents r ++ slice buff 0 (chunk n r)
  after_write-contents b buff is = elim (Bool-cases (ltb r.write_index r.read_index)) [
    | inl h ↦
        contents_round b buff is (ltb→lt r.write_index r.read_index h)
        ∙ ap (λ l. contents r ++ l) is.inside
    | inr h ↦
        contents_behind b buff is (ltb→le r.write_index r.read_index h)
        ∙ ap (λ l. contents r ++ l) is.inside
  ]
