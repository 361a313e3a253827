-- ===== src/Utils/RingBuffer/Write.antt =====
-- `RingBufferWrite`: what the loop over the chunks does.
use kernelpanic.Common.{
  ℕ, zero, suc, ◌+◌, ◌-◌, ◌^◌, ◌≤◌, ◌<◌, min, ◌≡◌, refl, sym, ap, ap₂, ◌∙◌, ◌⊎◌, inl, inr, true,
  false, some, List, ◌++◌, append-nil, append_assoc, arith, ltb, Bool-cases, ltb→lt, ltb→le, length,
  take, drop, length-append, length-drop,
}
use kernelpanic.Utils.RingBuffer.{
  Ring, add_size, write_small, chunk_end, is_full, write_loop, write,
}
use kernelpanic.Utils.RingBuffer.Slice.{slice, slice-split, slice-drop, slice-take, length-slice}
use kernelpanic.Utils.RingBuffer.Contents.{
  IsValid, contents, count, length-contents, is_full_iff, count-le-size,
}
use kernelpanic.Utils.RingBuffer.WriteChunk.{
  room, chunk, after_write, write_small-runs, after_write-IsValid, after_write-contents,
}

-- What the loop has done when it stops, started with `n` of `size` bytes stored.
pub record Writes (size n : ℕ) (buff : List ℕ) (r : Ring) (k : ℕ) (r' : Ring) : Type 0 where
  pub is_valid : IsValid r'
  pub same_size : r'.size ≡ r.size
  pub appends : contents r' ≡ contents r ++ slice buff n k
  pub at_most : n + k ≤ size
  pub stops : (n + k ≡ size) ⊎ (is_full r' ≡ true)

write_loop-stop :
    (f : ℕ) (buff : List ℕ) (size n : ℕ) (r : Ring)
    → (size ≤ n) ⊎ (is_full r ≡ true)
    → write_loop (suc f) buff size n r ≡ some (n, r)
unfolding write_loop
write_loop-stop f buff size n r h = ground arith

write_loop-step :
    (f : ℕ) (buff : List ℕ) (size n : ℕ) (r : Ring) (b : List ℕ) (m k : ℕ) (last : Ring)
    → n < size
    → is_full r ≡ false
    → n + m ≤ 2 ^ 62
    → write_small (drop n buff) (size - n) r
      ≡ some (
        m,
        record r {
          buffer = b;
          write_index = (chunk_end r.write_index r.read_index (size - n) r.size).1;
        },
      )
    → write_loop f buff size (n + m) (after_write (size - n) r b) ≡ some (k, last)
    → write_loop (suc f) buff size n r ≡ some (k, last)
unfolding write_loop
write_loop-step f buff size n r b m k last lt full small runs rest =
    let next : add_size n m ≡ n + m = omega arith in ground arith

Writes-chunk :
    (buff : List ℕ) (size n : ℕ) (r : Ring) (b : List ℕ) (m k : ℕ) (last : Ring)
    → contents (after_write (size - n) r b) ≡ contents r ++ slice buff n m
    → Writes size (n + m) buff (after_write (size - n) r b) k last
    → Writes size n buff r (m + k) last
Writes-chunk buff size n r b m k last ap_one done = record {
  is_valid = done.is_valid;
  same_size = done.same_size;
  appends =
      done.appends
      ∙ ap (λ l. l ++ slice buff (n + m) k) ap_one
      ∙ append_assoc (contents r) (slice buff n m) (slice buff (n + m) k)
      ∙ ap (λ l. contents r ++ l) (sym (slice-split buff n m k (m + k) refl));
  at_most = omega (arith, done.at_most);
  stops = stop done.stops;
}
  where
    stop : (n + m + k ≡ size) ⊎ (is_full last ≡ true) → (n + (m + k) ≡ size) ⊎ (is_full last ≡ true)
    stop (inl h) = inl (omega arith)
    stop (inr h) = inr h

Writes-nothing :
    (size n : ℕ) (buff : List ℕ) (r : Ring)
    → IsValid r
    → n ≤ size
    → (size ≤ n) ⊎ (is_full r ≡ true)
    → Writes size n buff r 0 r
Writes-nothing size n buff r v l h = record {
  is_valid = v;
  same_size = refl;
  appends = sym (append-nil (contents r));
  at_most = omega arith;
  stops = stop h;
}
  where
    stop : (size ≤ n) ⊎ (is_full r ≡ true) → (n + 0 ≡ size) ⊎ (is_full r ≡ true)
    stop (inl p) = inl (omega arith)
    stop (inr p) = inr p

room_pos : {r : Ring} → IsValid r → is_full r ≡ false → 0 < room r
unfolding is_full
room_pos v h = ground arith

write_loop-Writes :
    (f : ℕ) (buff : List ℕ) (size n : ℕ) (r : Ring)
    → IsValid r
    → size ≤ length buff
    → length buff ≤ 2 ^ 62
    → n ≤ size
    → size - n < f
    → (k : ℕ) × (r' : Ring) × (write_loop f buff size n r ≡ some (n + k, r'))
      × Writes size n buff r k r'
write_loop-Writes zero buff size n r v hs hb l h = absurd (omega arith)
write_loop-Writes (suc f) buff size n r v hs hb l h = elim (Bool-cases (ltb n size)) [
  | inr stop ↦
      let le = ltb→le n size stop in
      (
        0,
        r,
        write_loop-stop f buff size n r (inl le) ∙ ap (λ (k : ℕ). some (k, r)) (omega arith),
        Writes-nothing size n buff r v l (inl le),
      )
  | inl go ↦ elim (Bool-cases (is_full r)) [
    | inl full ↦ (
      0,
      r,
      write_loop-stop f buff size n r (inr full) ∙ ap (λ (k : ℕ). some (k, r)) (omega arith),
      Writes-nothing size n buff r v l (inr full),
    )
    | inr full ↦
        let lt : n < size = ltb→lt n size go in
        let left : size - n ≤ length (drop n buff) = omega (arith, length-drop n buff) in
        let small : length (drop n buff) ≤ 2 ^ 62 = omega (arith, length-drop n buff) in
        let (b, runs, is) =
          write_small-runs (size - n) r v full (omega arith) (omega arith) (drop n buff) left
            small in
        let m = chunk (size - n) r in
        let m_pos : 0 < m = omega (arith, room_pos v full) in
        let v' =
          after_write-IsValid (size - n) r v full (omega arith) (omega arith) b is.same_length in
        let one : contents (after_write (size - n) r b) ≡ contents r ++ slice buff n m =
          after_write-contents (size - n) r v full (omega arith) (omega arith) b (drop n buff) is
          ∙ ap (λ l. contents r ++ l)
              (slice-drop buff n 0 m ∙ ap (λ j. slice buff j m) (omega arith)) in
        let (k, last, rest, done) =
          write_loop-Writes f buff size (n + m) (after_write (size - n) r b) v' hs hb (omega arith)
            (omega arith) in
        (
          m + k,
          last,
          write_loop-step f buff size n r b m (n + m + k) last lt full (omega arith) runs rest
              ∙ ap (λ (k : ℕ). some (k, last)) (omega arith),
          Writes-chunk buff size n r b m k last one done,
        )
  ]
]

-- What `RingBufferWrite` promises, against the contents of the ring as a queue.
pub record WriteSuffix (buff : List ℕ) (size : ℕ) (r r' : Ring) : Type 0 where
  pub returns : write buff size r ≡ some (min size (r.size - count r), r')
  pub appends : contents r' ≡ contents r ++ take (min size (r.size - count r)) buff
  pub is_valid : IsValid r'
  pub same_size : r'.size ≡ r.size

written :
    (buff : List ℕ) (size : ℕ) (r : Ring) (k : ℕ) (r' : Ring)
    → IsValid r
    → Writes size 0 buff r k r'
    → k ≡ min size (r.size - count r)
written buff size r k r' v w =
    let lens : count r' ≡ count r + k =
      sym (length-contents r')
      ∙ ap length w.appends
      ∙ length-append (contents r) (slice buff 0 k)
      ∙ ap₂ (λ a b. a + b) (length-contents r) (length-slice buff 0 k) in
    go lens (count-le-size v) (count-le-size w.is_valid) w.at_most w.same_size (full w.stops)
  where
    full : (0 + k ≡ size) ⊎ (is_full r' ≡ true) → (0 + k ≡ size) ⊎ (count r' ≡ r'.size)
    full (inl h) = inl h
    full (inr h) = inr ((is_full_iff w.is_valid).0 h)

    go :
        count r' ≡ count r + k
        → count r ≤ r.size
        → count r' ≤ r'.size
        → 0 + k ≤ size
        → r'.size ≡ r.size
        → (0 + k ≡ size) ⊎ (count r' ≡ r'.size)
        → k ≡ min size (r.size - count r)
    go a b c d e (inl h) = omega arith
    go a b c d e (inr h) = omega arith

-- RingBufferWrite on a valid ring returns the number of bytes that still fit, or `size` if that is
-- less; the contents grow at their end by that many first bytes of `buff`, and the ring is valid.
pub write-WriteSuffix :
    (buff : List ℕ) (size : ℕ) (r : Ring)
    → IsValid r
    → size ≤ length buff
    → length buff ≤ 2 ^ 62
    → (r' : Ring) × WriteSuffix buff size r r'
unfolding write
write-WriteSuffix buff size r v hs hb =
    let (k, r', runs, w) =
      write_loop-Writes (size + 1) buff size 0 r v hs hb (omega arith) (omega arith) in
    let k_eq = written buff size r k r' v w in
    let k_le : k ≤ length buff = omega (arith, w.at_most) in
    (
      r',
      record {
        returns = runs ∙ ap (λ (k : ℕ). some (k, r')) (omega arith);
        appends =
            w.appends
            ∙ ap (λ l. contents r ++ l) (slice-take buff k k_le ∙ ap (λ j. take j buff) k_eq);
        is_valid = w.is_valid;
        same_size = w.same_size;
      },
    )
