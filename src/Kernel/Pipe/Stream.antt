-- ===== src/Kernel/Pipe/Stream.antt =====
-- What threads can rely on in a pipe: the order of bytes, exclusion, and no deadlock.
use kernelpanic.Common.{
  ℕ, ◌^◌, ◌≤◌, ◌<◌, ◌≡◌, refl, sym, ap, ◌∙◌, subst, ◌≢◌, inl, inr, true, false, List, ◌++◌, arith,
  ◌==◌, Bool-cases, eqb→eq, eqb→ne, length, All,
}
use kernelpanic.Common.Outcome.{ok}
use kernelpanic.Utils.RingBuffer.Contents.{contents}
use kernelpanic.Kernel.Pipe.{Call, Phase, up_side, reading}
use kernelpanic.Kernel.Pipe.Invariant.{free, busy, Inv, lane_at, read_lane, write_lane}
use kernelpanic.Kernel.Pipe.System.{System, Event, play_all, start}
use kernelpanic.Kernel.Pipe.Lanes.{IsValid, Inv-lanes}
use kernelpanic.Kernel.Pipe.Safety.{Legal, Reached, play_all_lem}

-- The states that legal calls on a new pipe lead to.
pub record Runs (buff : List ℕ) (size : ℕ) (es : List Event) (s : System) : Type 0 where
  pub pos : 0 < size
  pub holds : size ≤ length buff
  pub small : length buff ≤ 2 ^ 62
  pub allowed : All Legal es
  pub ends : play_all es (start buff size) ≡ ok s

ok-inj : {s s' : System} → ok s ≡ ok s' → s ≡ s'
ok-inj h = cc

pub Runs-Reached :
    {buff : List ℕ} {size : ℕ} {es : List Event} {s : System} → Runs buff size es s → Reached s
Runs-Reached {buff} {size} {es} r =
    let (s', runs, is) = play_all_lem buff size es r.pos r.holds r.small r.allowed in
    subst Reached (ok-inj (sym runs ∙ r.ends)) is

-- A call that holds bytes: `t` is the one inside.
inside :
    {s : System} {reader writer : ℕ} (t : ℕ) (c : Call) (ph : Phase)
    → IsValid s reader writer
    → s.pc t ≡ reading c ph
    → lane_at c ph ≡ busy c ph
    → Inv s.pipe (busy c ph) (write_lane (s.pc writer))
inside {s} {reader} t c ph v e lane =
    let mine : read_lane (s.pc t) ≡ busy c ph = ap read_lane e ∙ lane in
    elim (Bool-cases (t == reader)) [
      | inl same ↦
          Inv-lanes (ap (λ u. read_lane (s.pc u)) (sym (eqb→eq t reader same)) ∙ mine) refl v.inv
      | inr other ↦ absurd (free-ne-busy (sym (v.other_readers t (eqb→ne t reader other)) ∙ mine))
    ]
  where
    free-ne-busy : free ≢ busy c ph
    free-ne-busy h = cc

-- What a reader that is about to return got.
pub record Got (s : System) (c : Call) : Type 0 where
  pub before : List ℕ
  pub tail : s.pipe.received ≡ before ++ c.buff
  pub stored : length c.buff ≡ c.done
  pub at_most : c.done ≤ c.size
  pub all : c.whole ≡ true → c.done ≡ c.size
  pub something : c.whole ≡ false → 0 < c.done

-- After any legal calls on a new pipe, in any interleaving, the bytes taken out so far and the
-- bytes in the ring are the bytes written, in order; and a reader that is about to release the
-- ReadLock holds the last of the bytes taken out, as many as it counts: all that it asked for if it
-- is PipeReadStruct, at least one if it is PipeRead.
pub stream_in_order :
    (buff : List ℕ) (size : ℕ) (es : List Event) (s : System)
    → Runs buff size es s
    → (s.pipe.sent ≡ s.pipe.received ++ contents s.pipe.ring)
      × ((t : ℕ) (c : Call) → s.pc t ≡ reading c up_side → Got s c)
stream_in_order buff size es s r =
    let is = Runs-Reached r in
    (
      is.is_valid.inv.tokens.stream,
      λ t c e.
          (let i = inside t c up_side is.is_valid e refl in
            record {
              before = i.reads.before;
              tail = i.reads.tail;
              stored = omega (arith, i.reads.stored);
              at_most = i.reads.progress.0;
              all = i.reads.progress.1;
              something = i.reads.progress.2;
            }),
    )
