-- ===== src/Utils/Heap.antt =====
-- utils/heap.c, on a store of nodes (struct WEIGHTED_LINK of utils/link.h) that are named by
-- numbers. A NULL pointer is none, and a read through one panics. A loop
-- runs on fuel, the size that the heap has when the operation places a node; every turn moves the
-- node by a level.
pub mod Writes
pub mod Places
pub mod Find
pub mod Order
pub mod Add
pub mod Insert
pub mod Sink
pub mod Tail
pub mod Extract
mod Tests
use kernelpanic.Common.{
  ℕ, zero, suc, ◌+◌, ◌-◌, ◌*◌, ◌/◌, ◌%◌, ◌^◌, ◌≤◌, ◌<◌, min, ◌≡◌, refl, sym, ap, ap₂, ◌∙◌, subst,
  ◌≢◌, ◌⊎◌, inl, inr, Bool, true, false, not, ◌&&◌, ◌||◌, Option, none, some, List, [], ◌∷◌, ◌++◌,
  append-nil, append_assoc, arith, ltb, leb, ◌==◌, if◌then◌else◌, Bool-cases, ltb→lt, ltb→le,
  eqb→eq, eqb→ne, eqb_of_ne, eqb_refl, length, get_or, set, take, drop, replicate, length-append,
  length-set, length-replicate, length-take, length-drop, take-append-drop, get_or-set_self,
  get_or-set_ne, length-snoc, prefix_of_append, All, All-append, All-front, All-map, All-zip,
  Distinct, Distinct-snoc,
}
use kernelpanic.Common.Outcome.{Outcome, ok, panic, ◌>>=◌, ◌>>◌, assert}
use kernelpanic.Common.Store.{update}
use mathlib.Core.Option.{map}

-- The fields of all `struct WEIGHTED_LINK`.
pub record Nodes : Type 0 where
  pub left : ℕ → Option ℕ
  pub right : ℕ → Option ℕ
  pub parent : ℕ → Option ℕ
  pub weight : ℕ → ℕ

-- `struct HEAP`, with the store.
pub record Heap : Type 0 where
  pub head : Option ℕ
  pub size : ℕ
  pub nodes : Nodes

-- The comparison of a pointer with the address of a node, and of two pointers with NULL.
unfoldable pub points : Option ℕ → ℕ → Bool
points none j = false
points (some i) j = i == j

unfoldable pub is_null : Option ℕ → Bool
is_null none = true
is_null (some i) = false

-- A read through a pointer.
unfoldable pub deref : Option ℕ → Outcome ℕ
deref none = panic
deref (some i) = ok i

-- The writes to a field.
unfoldable pub set_left : ℕ → Option ℕ → Nodes → Nodes
unfolding update
set_left i v s = record s { left = update s.left i v }

unfoldable pub set_right : ℕ → Option ℕ → Nodes → Nodes
unfolding update
set_right i v s = record s { right = update s.right i v }

unfoldable pub set_parent : ℕ → Option ℕ → Nodes → Nodes
unfolding update
set_parent i v s = record s { parent = update s.parent i v }

-- `if( child != NULL ) child->Parent = node`
unfoldable pub adopt : (child : Option ℕ) → (node : ℕ) → Nodes → Nodes
unfolding set_parent
adopt none node s = s
adopt (some i) node s = set_parent i (some node) s

-- `HeapPromote`: the write to the grandparent.
unfoldable pub relink : (grand_parent : Option ℕ) → (parent node : ℕ) → Nodes → Nodes
unfolding points set_left set_right
relink none parent node s = s
relink (some g) parent node s =
    if points (s.left g) parent then set_left g (some node) s else set_right g (some node) s

-- `HeapPromote`: the writes to the parents of node and parent.
unfoldable pub raise : (grand_parent : Option ℕ) → (parent node : ℕ) → Nodes → Nodes
unfolding set_parent
raise grand_parent parent node s = set_parent parent (some node) (set_parent node grand_parent s)

-- `HeapPromote`: parent and sibling become the children of node.
unfoldable pub hang : (sibling : Option ℕ) → (parent node : ℕ) → Nodes → Nodes
unfolding points set_left set_right
hang sibling parent node s =
    if points (s.left parent) node
    then set_right node sibling (set_left node (some parent) s)
    else set_right node (some parent) (set_left node sibling s)

-- `HeapPromote`: parent takes over the children of node.
unfoldable pub take_over : (node_left node_right : Option ℕ) → (parent : ℕ) → Nodes → Nodes
unfolding adopt set_left set_right
take_over node_left node_right parent s =
    let below = set_right parent node_right (set_left parent node_left s) in
    adopt node_right parent (adopt node_left parent below)

-- `HeapPromote`: the sibling that it reads.
unfoldable pub sibling_of : (parent node : ℕ) → Nodes → Option ℕ
unfolding points
sibling_of parent node s =
    if not (points (s.left parent) node) then s.left parent else s.right parent

-- `HeapPromote`, from the reads on.
unfoldable pub promote_over : (parent node : ℕ) → Nodes → Nodes
unfolding sibling_of relink raise adopt hang take_over
promote_over parent node s =
    let grand_parent = s.parent parent in
    let sibling = sibling_of parent node s in
    let linked = relink grand_parent parent node s in
    let adopted = adopt sibling node (raise grand_parent parent node linked) in
    take_over (s.left node) (s.right node) parent (hang sibling parent node adopted)

-- `HeapPromote`
unfoldable pub promote : (node : ℕ) → Nodes → Outcome Nodes
unfolding deref promote_over
promote node s = do parent ← deref (s.parent node); ok (promote_over parent node s)

-- The weight that `HeapSmallest` takes; `-1` is the largest WEIGHT.
unfoldable pub weight_of : Option ℕ → Nodes → ℕ
weight_of none s = 2 ^ 64 - 1
weight_of (some i) s = s.weight i

-- `HeapSmallest`
unfoldable pub smallest : (n1 n2 n3 : Option ℕ) → Nodes → Option ℕ
unfolding weight_of
smallest n1 n2 n3 s =
    let w1 = weight_of n1 s in
    let w2 = weight_of n2 s in
    let w3 = weight_of n3 s in
    if leb w1 w2 && leb w1 w3
    then n1
    else if leb w2 w1 && leb w2 w3
    then n2
    else if leb w3 w1 && leb w3 w2
    then n3
    else none

-- `HeapFindElement`: the steps from the head, on fuel; the index itself is enough.
unfoldable pub count_steps : (fuel index : ℕ) → ℕ
count_steps zero index = 0
count_steps (suc fuel) index =
    let rest = count_steps fuel (index / 2) in if index == 1 then 0 else suc rest

-- `1 << steps`, of an int of 32 bits: C defines it below 31 only, and the model panics from there on.
unfoldable pub shift_one : (steps : ℕ) → Outcome ℕ
shift_one steps = if ltb steps 31 then ok (2 ^ steps) else panic

-- `HeapFindElement`: the loop, on the turns left. The mask has one bit, so that `mask & index` tests
-- that bit of the index.
unfoldable pub descend :
    (turns : ℕ) → (mask index : ℕ) → (cur : Option ℕ) → Nodes → Outcome (Option ℕ)
unfolding deref
descend zero mask index cur s = ok cur
descend (suc turns) mask index cur s = do
  node ← deref cur
  descend turns (mask / 2) index (if (index / mask) % 2 == 1 then s.right node else s.left node) s

-- `HeapFindElement`. A mask of 2 ^ (steps - 1) is 0 after as many turns as there are steps.
unfoldable pub find_element : (index : ℕ) → Heap → Outcome (Option ℕ)
unfolding count_steps shift_one descend
find_element index h = do
  assert (leb index h.size && not (index == 0))
  let steps = count_steps index index
  if steps == 0
      then ok h.head
      else (do bit ← shift_one steps; descend steps (bit / 2) index h.head h.nodes)

-- `HeapAdd`: the loop. None is a run out of fuel.
unfoldable pub percolate_up : (fuel : ℕ) → (node : ℕ) → Nodes → Outcome (Option Nodes)
unfolding promote
percolate_up zero node s = ok none
percolate_up (suc fuel) node s = elim (s.parent node) [
  | none ↦ ok (some s)
  | some parent ↦ elim (ltb (s.weight node) (s.weight parent)) [
    | false ↦ ok (some s)
    | true ↦ (do s' ← promote node s; percolate_up fuel node s')
  ]
]

-- `HeapAdd`: node becomes a child of parent.
unfoldable pub attach : (parent node : ℕ) → Nodes → Nodes
unfolding is_null set_left set_right set_parent
attach parent node s = set_parent node (some parent) (
    if is_null (s.left parent)
    then set_left parent (some node) s
    else set_right parent (some node) s)

-- `HeapAdd`: the writes to the node.
unfoldable pub as_leaf : (weight node : ℕ) → Nodes → Nodes
unfolding update set_left set_right
as_leaf weight node s =
    set_right node none (set_left node none (record s { weight = update s.weight node weight }))

-- `HeapAdd`: the last test.
unfoldable pub new_head : (node : ℕ) → Heap → Heap
unfolding is_null
new_head node h = if is_null (h.nodes.parent node) then record h { head = some node } else h

-- `HeapAdd` to a heap that is not empty.
unfoldable pub add_at_tail : (node : ℕ) → Heap → Outcome (Option Heap)
unfolding deref find_element is_null attach percolate_up new_head
add_at_tail node h = do
  found ← find_element (h.size / 2) h
  parent ← deref found
  assert (is_null (h.nodes.left parent) || is_null (h.nodes.right parent))
  done ← percolate_up h.size node (attach parent node h.nodes)
  ok (map (λ s. new_head node (record h { nodes = s })) done)

-- `HeapAdd`
unfoldable pub add : (weight node : ℕ) → Heap → Outcome (Option Heap)
unfolding set_parent as_leaf add_at_tail
add weight node h =
    let size = (h.size + 1) % 2 ^ 64 in
    let nodes = as_leaf weight node h.nodes in
    elim (size == 1) [
      | true ↦
          ok (some (record { head = some node; size = size; nodes = set_parent node none nodes }))
      | false ↦ add_at_tail node (record h { size = size; nodes = nodes })
    ]

-- `HeapPop`: the loop. None is a run out of fuel.
unfoldable pub percolate_down : (fuel : ℕ) → (tail : ℕ) → Heap → Outcome (Option Heap)
unfolding points smallest deref promote new_head
percolate_down zero tail h = ok none
percolate_down (suc fuel) tail h =
    let least = smallest (some tail) (h.nodes.left tail) (h.nodes.right tail) h.nodes in
    elim (points least tail) [
      | true ↦ ok (some h)
      | false ↦ (do
        node ← deref least
        s ← promote node h.nodes
        percolate_down fuel tail (new_head node (record h { nodes = s })))
    ]

-- `HeapPop`: the parent of tail forgets it.
unfoldable pub detach : (parent tail : ℕ) → Nodes → Nodes
unfolding points set_left set_right
detach parent tail s =
    if points (s.right parent) tail then set_right parent none s else set_left parent none s

-- `HeapPop`: tail takes the place of head.
unfoldable pub replace : (popped tail : ℕ) → Nodes → Nodes
unfolding set_left set_right set_parent adopt
replace popped tail s =
    let placed =
      set_right tail (s.right popped) (set_left tail (s.left popped) (set_parent tail none s)) in
    adopt (placed.right tail) tail (adopt (placed.left tail) tail placed)

-- `HeapPop`, from the end of the heap on.
unfoldable pub pop_from : (tail : ℕ) → Heap → Outcome (Option (ℕ × Heap))
unfolding deref percolate_down detach replace
pop_from tail h = elim (h.nodes.parent tail) [
  | none ↦ ok (some (tail, record h { head = none; size = 0 }))
  | some parent ↦ (do
    let s = detach parent tail h.nodes
    popped ← deref h.head
    let raised : Heap = record {
      head = some tail;
      size = h.size - 1;
      nodes = replace popped tail s;
    }
    done ← percolate_down h.size tail raised
    ok (map (λ h'. (popped, h')) done))
]

-- `HeapPop`: NULL if the heap is empty, and otherwise the node popped.
unfoldable pub pop : Heap → Outcome (Option (Option ℕ × Heap))
unfolding deref is_null find_element pop_from
pop h = elim (h.size == 0) [
  | true ↦ ok (some (none, h))
  | false ↦ (do
    found ← find_element h.size h
    tail ← deref found
    assert (is_null (h.nodes.left tail) && is_null (h.nodes.right tail))
    done ← pop_from tail h
    ok (map (λ p. (some p.0, p.1)) done))
]

-- `HeapHeadWeight`
unfoldable pub head_weight : Heap → Outcome ℕ
unfolding deref
head_weight h = do head ← deref h.head; ok (h.nodes.weight head)

-- `HeapSize`
abbrev pub heap_size : Heap → ℕ
heap_size h = h.size

-- `HeapInit`
unfoldable pub init : Nodes → Heap
init s = record { head = none; size = 0; nodes = s }
