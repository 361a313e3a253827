-- ===== src/Utils/RingBuffer/Fifo.antt =====
-- The ring of utils/ringbuffer.c against a bounded queue of bytes: no client can tell them apart.
use kernelpanic.Common.{
  ℕ, ◌-◌, ◌^◌, ◌≤◌, ◌<◌, min, ◌≡◌, refl, ap₂, ◌∙◌, Option, none, some, List, [], ◌∷◌, ◌++◌, arith,
  length, take, drop,
}
use kernelpanic.Utils.RingBuffer.{Ring, read, write, init}
use kernelpanic.Utils.RingBuffer.Contents.{IsValid, contents, count, length-contents}
use kernelpanic.Utils.RingBuffer.Read.{read-ReadPrefix}
use kernelpanic.Utils.RingBuffer.Write.{write-WriteSuffix}

-- A client's calls, and what each returns: a count, and the bytes delivered.
pub data Call : Type 0 where
  get : ℕ → Call
  put : List ℕ → Call

abbrev pub Reply : Type 0
Reply = ℕ × List ℕ

-- The calls of utils/ringbuffer.c in order; `none` if one of them does not return.
pub run : Ring → List Call → Option (List Reply)
run r [] = some []
run r (get n ∷ calls) = elim (read n r) [
  | none ↦ none
  | some (k, bytes, r') ↦ elim (run r' calls) [
    | none ↦ none
    | some replies ↦ some ((k, bytes) ∷ replies)
  ]
]
run r (put buff ∷ calls) = elim (write buff (length buff) r) [
  | none ↦ none
  | some (k, r') ↦ elim (run r' calls) [ none ↦ none | some replies ↦ some ((k, []) ∷ replies) ]
]

-- The queue of at most `cap` bytes.
pub queue_run : (cap : ℕ) → List ℕ → List Call → List Reply
queue_run cap q [] = []
queue_run cap q (get n ∷ calls) = (min n (length q), take n q) ∷ queue_run cap (drop n q) calls
queue_run cap q (put buff ∷ calls) =
    let k = min (length buff) (cap - length q) in (k, []) ∷ queue_run cap (q ++ take k buff) calls

-- Buffers of sizes that can exist in memory.
abbrev pub Fits : List Call → Type 0
Fits [] = Unit
Fits (get n ∷ calls) = (n ≤ 2 ^ 62) × Fits calls
Fits (put buff ∷ calls) = (length buff ≤ 2 ^ 62) × Fits calls

run-get :
    (n k : ℕ) (bytes : List ℕ) (r r' : Ring) (calls : List Call) (replies : List Reply)
    → read n r ≡ some (k, bytes, r')
    → run r' calls ≡ some replies
    → run r (get n ∷ calls) ≡ some ((k, bytes) ∷ replies)
unfolding run
run-get n k bytes r r' calls replies h rest = ground arith

run-put :
    (buff : List ℕ) (k : ℕ) (r r' : Ring) (calls : List Call) (replies : List Reply)
    → write buff (length buff) r ≡ some (k, r')
    → run r' calls ≡ some replies
    → run r (put buff ∷ calls) ≡ some ((k, []) ∷ replies)
unfolding run
run-put buff k r r' calls replies h rest = ground arith

-- From a valid ring every sequence of reads and writes of at most 2 ^ 62 bytes each returns, with the
-- replies of the queue of its contents.
pub run_refines :
    (calls : List Call) (r : Ring)
    → IsValid r
    → Fits calls
    → run r calls ≡ some (queue_run r.size (contents r) calls)
unfolding queue_run
run_refines [] r v f = unfold run in refl
run_refines (get n ∷ calls) r v f =
    let (r', is) = read-ReadPrefix n r v f.0 in
    rw (length-contents r) (
      run-get n (min n (count r)) (take n (contents r)) r r' calls _ is.returns (
        run_refines calls r' is.is_valid f.1
        ∙ ap₂ (λ (k : ℕ) q. some (queue_run k q calls)) is.same_size is.leaves))
run_refines (put buff ∷ calls) r v f =
    let (r', is) = write-WriteSuffix buff (length buff) r v (omega arith) f.0 in
    rw (length-contents r) (
      run-put buff (min (length buff) (r.size - count r)) r r' calls _ is.returns (
        run_refines calls r' is.is_valid f.1
        ∙ ap₂ (λ (k : ℕ) q. some (queue_run k q calls)) is.same_size is.appends))

pub init-IsValid :
    (buff : List ℕ) (size : ℕ)
    → 0 < size
    → size ≤ length buff
    → length buff ≤ 2 ^ 62
    → IsValid (init buff size)
unfolding init
init-IsValid buff size p h s = record {
  storage = h;
  small = s;
  read_in = p;
  write_in = p;
  empty_at = λ e. refl;
}

-- A ring that `RingBufferInit` made is an empty queue.
pub run-init :
    (buff : List ℕ) (size : ℕ) (calls : List Call)
    → 0 < size
    → size ≤ length buff
    → length buff ≤ 2 ^ 62
    → Fits calls
    → run (init buff size) calls ≡ some (queue_run size [] calls)
run-init buff size calls p h s f =
    unfold init in run_refines calls (init buff size) (init-IsValid buff size p h s) f
