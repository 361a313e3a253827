-- ===== src/Utils/LinkedList/Tests.antt =====
-- Two lists in one memory, from empty.
use kernelpanic.Common.{
  ℕ, ◌≡◌, refl, ◌≢◌, inl, inr, Option, none, some, List, [], ◌∷◌, arith, ◌==◌, Bool-cases,
}
use kernelpanic.Common.Store.{update}
use kernelpanic.Utils.Fifo
use kernelpanic.Utils.LinkedList.Queue.{Fresh}
use kernelpanic.Utils.LinkedList.{init}
use kernelpanic.Utils.LinkedList.Lists.{
  Memory, Call, enqueue_to, push_to, pop_from, peek_at, run, queue_run, queue_call, IsValid,
  AreAllowed, calls_refine,
}

abbrev start : Memory
start = record { heads = λ i. init; links = record { next = λ a. 0; prev = λ a. 0 } }

abbrev no_links : ℕ → List ℕ
no_links i = []

start-IsValid : IsValid start no_links
unfolding init
start-IsValid = record { holds = λ i. refl; apart = λ i j d. tt }

abbrev calls : List Call
calls = pop_from 0 ∷ peek_at 0 ∷ pop_from 1 ∷ pop_from 1 ∷ pop_from 0 ∷ []

abbrev script : List Call
script = enqueue_to 7 0 ∷ enqueue_to 8 0 ∷ push_to 9 1 ∷ push_to 6 0 ∷ calls

-- What the queues reply.
abbrev replies : List (Option ℕ)
replies = none ∷ none ∷ none ∷ none ∷ some 6 ∷ some 7 ∷ some 9 ∷ none ∷ some 7 ∷ []

queues_reply : queue_run script no_links ≡ replies
unfolding queue_run queue_call update
queues_reply = refl

Fresh-update :
    (node a : ℕ) (f : ℕ → List ℕ) (q : List ℕ)
    → Fresh node q
    → ((i : ℕ) → Fresh node (f i))
    → (i : ℕ) → Fresh node (update f a q i)
unfolding update
Fresh-update node a f q h k i = elim (Bool-cases (i == a)) [ inl e ↦ rw e h | inr e ↦ rw e (k i) ]

abbrev first : ℕ → List ℕ
first = update no_links 0 (7 ∷ [])

abbrev second : ℕ → List ℕ
second = update first 0 (7 ∷ 8 ∷ [])

free_in_second : (n : ℕ) → 7 ≢ n → 8 ≢ n → (i : ℕ) → Fresh n (second i)
free_in_second n a b =
    Fresh-update n 0 first (7 ∷ 8 ∷ []) (a, (b, tt))
      (Fresh-update n 0 no_links (7 ∷ []) (a, tt) (λ i. tt))

script_allowed : AreAllowed script no_links
unfolding queue_call Fifo.push Fifo.enqueue update
script_allowed = (
  (λ i. tt),
  (
    Fresh-update 8 0 no_links (7 ∷ []) (cc, tt) (λ i. tt),
    (
      free_in_second 9 (omega arith) (omega arith),
      (
        Fresh-update 6 1 second (9 ∷ []) (cc, tt) (free_in_second 6 (omega arith) (omega arith)),
        (tt, (tt, (tt, (tt, (tt, tt))))),
      ),
    ),
  ),
)

calls_refine_example : run script start ≡ queue_run script no_links
calls_refine_example = calls_refine script start no_links start-IsValid script_allowed
