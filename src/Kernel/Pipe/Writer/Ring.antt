-- ===== src/Kernel/Pipe/Writer/Ring.antt =====
-- The work on the ring in PipeWriteInner.
use kernelpanic.Common.{
  ℕ, ◌-◌, ◌^◌, ◌≤◌, ◌<◌, min, ◌≡◌, refl, sym, ap, ◌∙◌, inl, inr, Bool, true, false, not, ◌||◌, List,
  ◌++◌, append_assoc, arith, ltb, ◌==◌, Bool-cases, length, take, drop, length-append, length-take,
  length-drop,
}
use kernelpanic.Utils.RingBuffer
use kernelpanic.Utils.RingBuffer.{Ring}
use kernelpanic.Utils.RingBuffer.Contents.{
  contents, count, count-zero, is_full_iff, length-contents, count-le-size,
}
use kernelpanic.Utils.RingBuffer.Write.{WriteSuffix, write-WriteSuffix}
use kernelpanic.Kernel.Pipe.{Pipe, Call, in_ring, up_mutex, goes, writing, write_ring}
use kernelpanic.Kernel.Pipe.Invariant.{Lane, busy, Tokens}

-- What the ring's turn does when the tokens are right: no ASSERT fails, and at least one byte moves.
pub record WritesRing (c : Call) (p : Pipe) (reader : Lane) : Type 0 where
  pub was : Bool
  pub left : Bool
  pub moved : ℕ
  pub next : Pipe
  pub returns : write_ring c p ≡ goes (writing c (up_mutex was left moved)) next
  pub some_moved : 0 < moved
  pub at_most : moved ≤ c.size - c.done
  pub same_lock : next.write_lock ≡ p.write_lock
  pub same_other : next.read_lock ≡ p.read_lock
  pub same_received : next.received ≡ p.received
  pub history : next.sent ≡ p.sent ++ take moved (drop c.done c.buff)
  pub tokens : Tokens next reader (busy c (up_mutex was left moved))

-- A ring that got a byte is not empty.
not_empty :
    {buff : List ℕ} {size : ℕ} {r r' : Ring}
    → size ≤ length buff
    → 0 < size
    → count r < r.size
    → WriteSuffix buff size r r'
    → r'.empty ≡ false
not_empty {buff} {size} {r} {r'} le h space is = elim (Bool-cases r'.empty) [
  | inr no_more ↦ no_more
  | inl empty ↦ absurd (
      omega (
        arith,
        (count-zero is.is_valid).0 empty,
        sym (length-contents r')
            ∙ ap length is.appends
            ∙ length-append (contents r) (take (min size (r.size - count r)) buff),
        length-take (min size (r.size - count r)) buff,
      ))
]

module _ (c : Call) (p : Pipe) (reader : Lane) (t : Tokens p reader (busy c in_ring)) where
  WritesRing-to :
      (r' : Ring)
      → c.size ≤ length c.buff
      → c.done < c.size
      → WriteSuffix (drop c.done c.buff) (c.size - c.done) p.ring r'
      → WritesRing c p reader
  unfolding write_ring RingBuffer.is_empty
  WritesRing-to r' holds more is =
      let n = min (c.size - c.done) (p.ring.size - count p.ring) in
      let bytes = take n (drop c.done c.buff) in
      let not_full : RingBuffer.is_full p.ring ≡ false = ground (arith, t.full_lock) in
      let empty_free : (not p.ring.empty || p.empty_lock == 0) ≡ true =
        ground (arith, t.empty_lock) in
      let space : count p.ring < p.ring.size =
        ground (arith, (is_full_iff t.ring).1, count-le-size t.ring) in
      let after : r'.empty ≡ false =
        not_empty (omega (arith, length-drop c.done c.buff)) (omega arith) space is in
      let some_moved : 0 < n = omega arith in
      let test : ltb 0 n ≡ true = ground arith in
      record {
        was = p.ring.empty;
        left = not (RingBuffer.is_full r');
        moved = n;
        next = record p { ring = r'; sent = p.sent ++ bytes };
        returns = rw (empty_free, is.returns, test) refl;
        some_moved = some_moved;
        at_most = omega arith;
        same_lock = refl;
        same_other = refl;
        same_received = refl;
        history = refl;
        tokens = record {
          mutex = t.mutex;
          empty_lock = rw after (ground (arith, t.empty_lock));
          full_lock = ground (arith, t.full_lock);
          ring = is.is_valid;
          stream =
              ap (λ l. l ++ bytes) t.stream
              ∙ append_assoc p.received (contents p.ring) bytes
              ∙ ap (λ l. p.received ++ l) (sym is.appends);
        };
      }

  pub writes_ring :
      c.size ≤ length c.buff → length c.buff ≤ 2 ^ 62 → c.done < c.size → WritesRing c p reader
  writes_ring holds small more =
      let (r', is) =
        write-WriteSuffix (drop c.done c.buff) (c.size - c.done) p.ring t.ring
          (omega (arith, length-drop c.done c.buff)) (omega (arith, length-drop c.done c.buff)) in
      WritesRing-to r' holds more is
