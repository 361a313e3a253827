-- ===== src/Utils/AtomicList/Tests.antt =====
-- Runs of utils/atomiclist.c on a list of the links 4 and 6.
use kernelpanic.Common.{ℕ, ◌≡◌, refl, Option, none, some, [], ◌∷◌, arith, ◌==◌, if◌then◌else◌}
use kernelpanic.Utils.AtomicList.{
  Memory, compare_and_swap, double_compare_and_swap, push_turn, push, pop_turn, pop,
}
use kernelpanic.Utils.AtomicList.Stack.{push_over_push}
use kernelpanic.Utils.AtomicList.Interrupted.{Call, pops, pushes, play}
use kernelpanic.Common.{List}

abbrev next_link : ℕ → Option ℕ
next_link a = if a == 4 then some 6 else none

abbrev two : Memory
two = record { pointer = some 4; generation = 7; next = next_link }

-- An interrupt that pops both links and pushes the first one again.
abbrev aba : List Call
aba = pops ∷ pops ∷ pushes 4 ∷ []

aba_reply : (pop (play aba ∷ []) two).1.pointer ≡ none
unfolding play push push_turn compare_and_swap pop pop_turn double_compare_and_swap
aba_reply = refl

push_over_push_example :
    ((push ((push [] 3, λ x. x) ∷ []) 9 two).pointer ≡ some 9)
    × ((push ((push [] 3, λ x. x) ∷ []) 9 two).next 9 ≡ some 9)
push_over_push_example = push_over_push 9 3 two (omega arith) (λ e. cc)
