-- ===== src/Utils/RingBuffer/Read.antt =====
-- `RingBufferRead`: what the loop over the chunks does.
use kernelpanic.Common.{
  ℕ, ◌+◌, ◌^◌, ◌≤◌, ◌<◌, min, ◌≡◌, false, some, List, ◌++◌, arith, ap, suc, zero, ◌-◌, ◌∙◌,
  append_assoc, refl, length, ◌⊎◌, Bool-cases, true, ltb, inl, length-append, sym, inr, [], ltb→lt,
  ltb→le, prefix_of_append, subst, take, ap₂, drop, length-take,
}
use kernelpanic.Utils.RingBuffer.{Ring, mark_empty, read_loop, is_empty, add_size, read}
use kernelpanic.Utils.RingBuffer.Slice.{slice, length-slice}
use kernelpanic.Utils.RingBuffer.Contents.{length-contents, IsValid, contents, first_run, count}
use kernelpanic.Utils.RingBuffer.ReadChunk.{chunk, after_read, read_small-runs, ReadSmall-chunk}

-- What the loop has done when it stops, started with `k` bytes still wanted.
pub record Reads (k : ℕ) (r : Ring) (bytes : List ℕ) (r' : Ring) : Type 0 where
  pub is_valid : IsValid r'
  pub same_size : r'.size ≡ r.size
  pub splits : contents r ≡ bytes ++ contents r'
  pub at_most : length bytes ≤ k
  pub stops : (length bytes ≡ k) ⊎ (r'.empty ≡ true)

mark_empty-fields : (r : Ring) → (mark_empty r).size ≡ r.size
unfolding mark_empty
mark_empty-fields r = ground arith

read_loop-step :
    (f size n : ℕ) (r : Ring) (k : ℕ) (rest : List ℕ) (last : Ring)
    → IsValid r
    → r.empty ≡ false
    → size ≤ 2 ^ 62
    → n < size
    → let bytes = slice r.buffer r.read_index (chunk (size - n) r) in
      read_loop f size (n + length bytes) (mark_empty (after_read (size - n) r))
        ≡ some (k, rest, last)
      → read_loop (suc f) size n r ≡ some (k, bytes ++ rest, last)
unfolding read_loop is_empty
read_loop-step f size n r k rest last v e s l h =
    let bytes = slice r.buffer r.read_index (chunk (size - n) r) in
    let len : length bytes ≡ chunk (size - n) r =
      length-slice r.buffer r.read_index (chunk (size - n) r) in
    let next : add_size n (length bytes) ≡ n + length bytes = omega arith in
    ground (arith, read_small-runs (size - n) r v e)

read_loop-stop :
    (f size n : ℕ) (r : Ring)
    → (size ≤ n) ⊎ (r.empty ≡ true)
    → read_loop (suc f) size n r ≡ some (n, [], r)
unfolding read_loop is_empty
read_loop-stop f size n r h = ground arith

-- One more chunk before what the rest of the loop does.
Reads-chunk :
    (size n : ℕ) (r : Ring) (rest : List ℕ) (last : Ring)
    → IsValid r
    → r.empty ≡ false
    → size ≤ 2 ^ 62
    → n < size
    → let bytes = slice r.buffer r.read_index (chunk (size - n) r) in
      Reads (size - (n + length bytes)) (mark_empty (after_read (size - n) r)) rest last
      → Reads (size - n) r (bytes ++ rest) last
Reads-chunk size n r rest last v e s l done =
    let bytes = slice r.buffer r.read_index (chunk (size - n) r) in
    let is = ReadSmall-chunk (size - n) r v e (omega arith) (omega arith) in
    let len : length bytes ≡ chunk (size - n) r =
      length-slice r.buffer r.read_index (chunk (size - n) r) in
    record {
      is_valid = done.is_valid;
      same_size = done.same_size ∙ mark_empty-fields (after_read (size - n) r);
      splits =
          is.delivers
          ∙ ap (λ l. bytes ++ l) done.splits
          ∙ sym (append_assoc bytes rest (contents last));
      at_most = omega (arith, done.at_most, length-append bytes rest);
      stops = stop_at bytes len done.stops;
    }
  where
    stop_at :
        (bytes : List ℕ)
        → length bytes ≡ chunk (size - n) r
        → (length rest ≡ size - (n + length bytes)) ⊎ (last.empty ≡ true)
        → (length (bytes ++ rest) ≡ size - n) ⊎ (last.empty ≡ true)
    stop_at bytes len (inl h) = inl (omega (arith, length-append bytes rest))
    stop_at bytes len (inr h) = inr h

read_loop-Reads :
    (f size n : ℕ) (r : Ring)
    → IsValid r
    → size ≤ 2 ^ 62
    → n ≤ size
    → size - n < f
    → (bytes : List ℕ) × (r' : Ring) × (k : ℕ) × (read_loop f size n r ≡ some (k, bytes, r'))
      × (k ≡ n + length bytes)
      × Reads (size - n) r bytes r'
read_loop-Reads zero size n r v s l h = absurd (omega arith)
read_loop-Reads (suc f) size n r v s l h = elim (Bool-cases (ltb n size)) [
  | inl go ↦ elim (Bool-cases r.empty) [
    | inl e ↦ (
      [],
      r,
      n,
      read_loop-stop f size n r (inr e),
      omega arith,
      record {
        is_valid = v;
        same_size = refl;
        splits = refl;
        at_most = omega arith;
        stops = inr e;
      },
    )
    | inr e ↦
        let lt : n < size = ltb→lt n size go in
        let bytes = slice r.buffer r.read_index (chunk (size - n) r) in
        let is = ReadSmall-chunk (size - n) r v e (omega arith) (omega arith) in
        let len : length bytes ≡ chunk (size - n) r =
          length-slice r.buffer r.read_index (chunk (size - n) r) in
        let some_first : 0 < first_run r = ground arith in
        let (rest, last, k, runs, sum, done) =
          read_loop-Reads f size (n + length bytes) (mark_empty (after_read (size - n) r))
            is.is_valid s (omega arith) (omega arith) in
        (
          bytes ++ rest,
          last,
          k,
          read_loop-step f size n r k rest last v e s lt runs,
          omega (arith, length-append bytes rest),
          Reads-chunk size n r rest last v e s lt done,
        )
  ]
  | inr stop ↦ (
    [],
    r,
    n,
    read_loop-stop f size n r (inl (ltb→le n size stop)),
    omega arith,
    record {
      is_valid = v;
      same_size = refl;
      splits = refl;
      at_most = omega arith;
      stops = inl (omega (arith, ltb→le n size stop));
    },
  )
]

read-Reads :
    (size : ℕ) (r : Ring)
    → IsValid r
    → size ≤ 2 ^ 62
    → (bytes : List ℕ) × (r' : Ring) × (read size r ≡ some (length bytes, bytes, r'))
      × Reads size r bytes r'
unfolding read
read-Reads size r v s =
    let (bytes, r', k, runs, sum, done) =
      read_loop-Reads (size + 1) size 0 r v s (omega arith) (omega arith) in
    (
      bytes,
      r',
      runs ∙ ap (λ (k : ℕ). some (k, bytes, r')) (omega arith),
      subst (λ n. Reads n r bytes r') (omega arith) done,
    )

contents_of_empty : (r : Ring) → r.empty ≡ true → contents r ≡ []
contents_of_empty r e = ground arith

-- What `RingBufferRead` promises, against the contents of the ring as a queue.
pub record ReadPrefix (size : ℕ) (r r' : Ring) : Type 0 where
  pub returns : read size r ≡ some (min size (count r), take size (contents r), r')
  pub leaves : contents r' ≡ drop size (contents r)
  pub is_valid : IsValid r'
  pub same_size : r'.size ≡ r.size

-- RingBufferRead on a valid ring returns the number of bytes stored, or `size` if that is less; it
-- delivers that many first bytes of the contents and leaves the others, in a valid ring.
pub read-ReadPrefix :
    (size : ℕ) (r : Ring) → IsValid r → size ≤ 2 ^ 62 → (r' : Ring) × ReadPrefix size r r'
read-ReadPrefix size r v s =
    let (bytes, r', runs, done) = read-Reads size r v s in
    let cut = prefix_of_append size bytes (contents r') done.at_most (stop r' done.stops) in
    let bytes_eq : take size (contents r) ≡ bytes = ap (take size) done.splits ∙ cut.0 in
    (
      r',
      record {
        returns =
            runs
            ∙ ap₂ (λ (k : ℕ) l. some (k, l, r'))
                (ap length (sym bytes_eq)
                  ∙ length-take size (contents r)
                  ∙ ap (λ k. min size k) (length-contents r))
                (sym bytes_eq);
        leaves = sym cut.1 ∙ ap (drop size) (sym done.splits);
        is_valid = done.is_valid;
        same_size = done.same_size;
      },
    )
  where
    stop :
        {n : ℕ} (last : Ring) → (n ≡ size) ⊎ (last.empty ≡ true) → (n ≡ size) ⊎ (contents last ≡ [])
    stop last (inl h) = inl h
    stop last (inr h) = inr (contents_of_empty last h)
