-- ===== src/Utils/Fifo.antt =====
-- The sequence of links that a LINKED_LIST (utils/linkedlist.c) stands for, first link first, with
-- the operations as the kernel units see them. A link is named by the number of its owner.
use kernelpanic.Common.{ℕ, Bool, true, false, Option, none, some, List, [], ◌∷◌, ◌++◌}

-- `LinkedListEnqueue`: at the end.
unfoldable pub enqueue : ℕ → List ℕ → List ℕ
enqueue x q = q ++ x ∷ []

-- `LinkedListPush`: at the front.
unfoldable pub push : ℕ → List ℕ → List ℕ
push x q = x ∷ q

-- `LinkedListPop`: NULL on an empty list.
unfoldable pub pop : List ℕ → Option (ℕ × List ℕ)
pop [] = none
pop (x ∷ q) = some (x, q)

-- `LinkedListPeek`
unfoldable pub peek : List ℕ → Option ℕ
peek [] = none
peek (x ∷ q) = some x

-- `LinkedListIsEmpty`
unfoldable pub is_empty : List ℕ → Bool
is_empty [] = true
is_empty (x ∷ q) = false
