-- ===== src/Kernel/Pipe/Reader/Ring.antt =====
-- The work on the ring in PipeReadInner.
use kernelpanic.Common.{
  ℕ, ◌-◌, ◌^◌, ◌≤◌, ◌<◌, min, ◌≡◌, refl, sym, ap, ◌∙◌, inl, inr, Bool, true, false, not, ◌||◌, List,
  ◌++◌, append_assoc, arith, ltb, ◌==◌, Bool-cases, length, take, length-take, length-drop,
  take-append-drop,
}
use kernelpanic.Utils.RingBuffer
use kernelpanic.Utils.RingBuffer.{Ring}
use kernelpanic.Utils.RingBuffer.Contents.{
  IsValid, contents, count, count-zero, count-le-size, is_full_iff, length-contents,
}
use kernelpanic.Utils.RingBuffer.Read.{ReadPrefix, read-ReadPrefix}
use kernelpanic.Kernel.Pipe.{Pipe, Call, in_ring, up_mutex, goes, reading, read_ring}
use kernelpanic.Kernel.Pipe.Invariant.{Lane, busy, Tokens}

-- What the ring's turn does when the tokens are right: no ASSERT fails, and at least one byte moves.
pub record ReadsRing (c : Call) (p : Pipe) (writer : Lane) : Type 0 where
  pub was : Bool
  pub left : Bool
  pub moved : ℕ
  pub bytes : List ℕ
  pub next : Pipe
  pub returns :
      read_ring c p
      ≡ goes (reading (record c { buff = c.buff ++ bytes }) (up_mutex was left moved)) next
  pub some_moved : 0 < moved
  pub at_most : moved ≤ c.size - c.done
  pub number : length bytes ≡ moved
  pub same_lock : next.read_lock ≡ p.read_lock
  pub same_other : next.write_lock ≡ p.write_lock
  pub same_sent : next.sent ≡ p.sent
  pub history : next.received ≡ p.received ++ bytes
  pub tokens :
      Tokens next (busy (record c { buff = c.buff ++ bytes }) (up_mutex was left moved)) writer

-- A ring that lost a byte is not full.
not_full :
    {size : ℕ} {r r' : Ring}
    → IsValid r
    → 0 < size
    → 0 < count r
    → ReadPrefix size r r'
    → RingBuffer.is_full r' ≡ false
not_full {size} {r} {r'} v h held is = elim (Bool-cases (RingBuffer.is_full r')) [
  | inr no_more ↦ no_more
  | inl full ↦ absurd (
      omega (
        arith,
        (is_full_iff is.is_valid).0 full,
        is.same_size,
        count-le-size v,
        sym (length-contents r')
            ∙ ap length is.leaves
            ∙ length-drop size (contents r)
            ∙ ap (λ (k : ℕ). k - size) (length-contents r),
      ))
]

module _ (c : Call) (p : Pipe) (writer : Lane) (t : Tokens p (busy c in_ring) writer) where
  ReadsRing-to :
      (r' : Ring)
      → c.size ≤ 2 ^ 62
      → c.done < c.size
      → ReadPrefix (c.size - c.done) p.ring r'
      → ReadsRing c p writer
  unfolding read_ring RingBuffer.is_empty
  ReadsRing-to r' fits more is =
      let n = min (c.size - c.done) (count p.ring) in
      let bytes = take (c.size - c.done) (contents p.ring) in
      let not_empty : p.ring.empty ≡ false = ground (arith, t.empty_lock) in
      let full_free : (not (RingBuffer.is_full p.ring) || p.full_lock == 0) ≡ true =
        ground (arith, t.full_lock) in
      let held : 0 < count p.ring = ground (arith, (count-zero t.ring).1) in
      let after : RingBuffer.is_full r' ≡ false = not_full t.ring (omega arith) held is in
      let cut : contents p.ring ≡ bytes ++ contents r' =
        sym (take-append-drop (c.size - c.done) (contents p.ring))
        ∙ ap (λ l. bytes ++ l) (sym is.leaves) in
      let some_moved : 0 < n = omega arith in
      let test : ltb 0 n ≡ true = ground arith in
      record {
        was = RingBuffer.is_full p.ring;
        left = not r'.empty;
        moved = n;
        bytes = bytes;
        next = record p { ring = r'; received = p.received ++ bytes };
        returns = rw (full_free, is.returns, test) refl;
        some_moved = some_moved;
        at_most = omega arith;
        number =
            omega (arith, length-take (c.size - c.done) (contents p.ring), length-contents p.ring);
        same_lock = refl;
        same_other = refl;
        same_sent = refl;
        history = refl;
        tokens = record {
          mutex = t.mutex;
          empty_lock = ground (arith, t.empty_lock);
          full_lock = rw after (ground (arith, t.full_lock));
          ring = is.is_valid;
          stream =
              t.stream
              ∙ ap (λ l. p.received ++ l) cut
              ∙ sym (append_assoc p.received bytes (contents r'));
        };
      }

  pub reads_ring : c.size ≤ 2 ^ 62 → c.done < c.size → ReadsRing c p writer
  reads_ring fits more =
      let (r', is) = read-ReadPrefix (c.size - c.done) p.ring t.ring (omega arith) in
      ReadsRing-to r' fits more is
