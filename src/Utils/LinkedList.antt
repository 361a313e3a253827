-- ===== src/Utils/LinkedList.antt =====
-- utils/linkedlist.c: circular lists of links, linked both ways.
pub mod Circle
pub mod Queue
pub mod Lists
mod Tests
use kernelpanic.Common.{
  ℕ, zero, suc, ◌+◌, ◌-◌, ◌*◌, ◌/◌, ◌%◌, ◌^◌, ◌≤◌, ◌<◌, min, ◌≡◌, refl, sym, ap, ap₂, ◌∙◌, subst,
  ◌≢◌, ◌⊎◌, inl, inr, Bool, true, false, not, ◌&&◌, ◌||◌, Option, none, some, List, [], ◌∷◌, ◌++◌,
  append-nil, append_assoc, arith, ltb, leb, ◌==◌, if◌then◌else◌, Bool-cases, ltb→lt, ltb→le,
  eqb→eq, eqb→ne, eqb_of_ne, eqb_refl, length, get_or, set, take, drop, replicate, length-append,
  length-set, length-replicate, length-take, length-drop, take-append-drop, get_or-set_self,
  get_or-set_ne, length-snoc, prefix_of_append, All, All-append, All-front, All-map, All-zip,
  Distinct, Distinct-snoc,
}
use kernelpanic.Common.Store.{update}

-- `struct LINKED_LIST_LINK`: the fields of every link, by the link's address.
pub record Links : Type 0 where
  pub next : ℕ → ℕ
  pub prev : ℕ → ℕ

-- `a->Next = b`
abbrev pub set_next : Links → ℕ → ℕ → Links
set_next s a b = record s { next = update s.next a b }

-- `a->Prev = b`
abbrev pub set_prev : Links → ℕ → ℕ → Links
set_prev s a b = record s { prev = update s.prev a b }

-- `LinkedListInsert`. The head of an empty list is NULL, here none.
unfoldable pub insert : ℕ → Option ℕ → Links → Links
unfolding update
insert node none s = set_prev (set_next s node node) node node
insert node (some list) s =
    let s1 = set_next s node list in
    let s2 = set_prev s1 node (s1.prev list) in
    let s3 = set_next s2 (s2.prev list) node in set_prev s3 list node

-- `LinkedListRemove`
unfoldable pub remove : ℕ → Links → Links
unfolding update
remove node s =
    let s1 = set_next s (s.prev node) (s.next node) in
    let s2 = set_prev s1 (s1.next node) (s1.prev node) in
    let s3 = set_next s2 node node in set_prev s3 node node

-- `LinkedListPush`: the new head, and the links.
unfoldable pub push : ℕ → Option ℕ → Links → Option ℕ × Links
unfolding insert
push node head s = (some node, insert node head s)

-- `LinkedListPop`: the link returned, the new head, and the links.
unfoldable pub pop : Option ℕ → Links → Option ℕ × Option ℕ × Links
unfolding remove
pop none s = (none, none, s)
pop (some top) s =
    if top == s.next top then (some top, none, s) else (some top, some (s.next top), remove top s)

-- `LinkedListEnqueue`: the new head, and the links.
unfoldable pub enqueue : ℕ → Option ℕ → Links → Option ℕ × Links
unfolding insert
enqueue node head s = let s' = insert node head s in (some (s'.next node), s')

-- `LinkedListIsEmpty`
unfoldable pub is_empty : Option ℕ → Bool
is_empty none = true
is_empty (some top) = false

-- `LinkedListInit`
unfoldable pub init : Option ℕ
init = none

-- `LinkedListPeek`
unfoldable pub peek : Option ℕ → Option ℕ
peek head = head
