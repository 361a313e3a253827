-- ===== src/Utils/AtomicList/Interrupted.antt =====
-- An AtomicListPop that an interrupt comes into.
use kernelpanic.Common.{ℕ, suc, ◌+◌, ◌%◌, ◌^◌, ◌≡◌, sym, subst, ◌≢◌, ◌⊎◌, List, [], ◌∷◌, All}
use kernelpanic.Utils.AtomicList.{Memory, push, pop}
use kernelpanic.Utils.AtomicList.Stack.{Hangs, popped}

-- What an interrupt does with the list.
pub data Call : Type 0 where
  pops : Call
  pushes : ℕ → Call

-- The calls of an interrupt, on the memory, and on the stack that the list is.
unfoldable pub play : List Call → Memory → Memory
unfolding push pop
play [] m = m
play (pops ∷ calls) m = play calls (pop [] m).1
play (pushes node ∷ calls) m = play calls (push [] node m)

abbrev pub stack_play : List Call → List ℕ → List ℕ
stack_play [] q = q
stack_play (pops ∷ calls) q = stack_play calls (popped q).1
stack_play (pushes node ∷ calls) q = stack_play calls (node ∷ q)

-- A link is pushed only while it is not in the list.
abbrev pub IsLegal : List Call → List ℕ → Type 0
IsLegal [] q = Unit
IsLegal (pops ∷ calls) q = IsLegal calls (popped q).1
IsLegal (pushes node ∷ calls) q = All (λ y. y ≢ node) q × IsLegal calls (node ∷ q)

-- How many links the calls take off the list.
abbrev pub taken : List Call → List ℕ → ℕ
taken [] q = 0
taken (pops ∷ calls) [] = taken calls []
taken (pops ∷ calls) (c ∷ q) = suc (taken calls q)
taken (pushes node ∷ calls) q = taken calls (node ∷ q)

-- The list after the calls, and its generation.
record Played (calls : List Call) (m : Memory) (q : List ℕ) : Type 0 where
  hangs : Hangs (play calls m).next (play calls m).pointer (stack_play calls q)
  counted : (play calls m).generation ≡ (m.generation + taken calls q) % 2 ^ 64

Played-from :
    {calls : List Call} {m m' : Memory} {q : List ℕ} → m ≡ m' → Played calls m' q → Played calls m q
Played-from {calls} {m} {m'} {q} e v = subst (λ m. Played calls m q) (sym e) v

Has : ℕ → List ℕ → Type 0
Has c [] = ⊥
Has c (x ∷ q) = (x ≡ c) ⊎ Has c q

-- An AtomicListPop that comes back from an interrupt.
pub record PoppedAfter (calls : List Call) (m : Memory) (q : List ℕ) : Type 0 where
  pub returns : (pop (play calls ∷ []) m).0 ≡ (popped (stack_play calls q)).0
  pub hangs :
      Hangs
        (pop (play calls ∷ []) m).1.next
        (pop (play calls ∷ []) m).1.pointer
        (popped (stack_play calls q)).1
