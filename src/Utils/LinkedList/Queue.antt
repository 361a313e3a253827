-- ===== src/Utils/LinkedList/Queue.antt =====
-- The operations of utils/linkedlist.c against the sequence of links that the list holds.
use kernelpanic.Common.{
  ℕ, ◌≡◌, refl, sym, ap, ◌∙◌, subst, ◌≢◌, Option, none, some, List, [], ◌∷◌, ◌++◌, arith, All,
  All-map, All-zip, Distinct, Distinct-snoc,
}
use kernelpanic.Common.Store.{update}
use kernelpanic.Utils.Fifo
use kernelpanic.Utils.LinkedList.{Links, insert, remove, push, pop, enqueue}
use kernelpanic.Utils.LinkedList.Circle.{
  Linked, Chain, Chain-last, Chain-retarget, Chain-snoc, Holds, Keeps,
}

-- What LinkedListInsert writes before a head: the new link stands between the last and the head.
record Inserted (node head : ℕ) (s s' : Links) : Type 0 where
  before : Linked s' (s.prev head) node
  after : Linked s' node head
  same_next : (x : ℕ) → x ≢ node → x ≢ s.prev head → s'.next x ≡ s.next x
  same_prev : (x : ℕ) → x ≢ node → x ≢ head → s'.prev x ≡ s.prev x

insert-Inserted :
    (node head : ℕ) (s : Links)
    → head ≢ node
    → s.prev head ≢ node
    → Inserted node head s (insert node (some head) s)
unfolding insert update
insert-Inserted node head s h l = record {
  before = ground arith;
  after = ground arith;
  same_next = λ x a b. ground arith;
  same_prev = λ x a b. ground arith;
}

-- What LinkedListRemove writes when other links remain.
record Removed (node : ℕ) (s s' : Links) : Type 0 where
  closed : Linked s' (s.prev node) (s.next node)
  alone : Linked s' node node
  same_next : (x : ℕ) → x ≢ node → x ≢ s.prev node → s'.next x ≡ s.next x
  same_prev : (x : ℕ) → x ≢ node → x ≢ s.next node → s'.prev x ≡ s.prev x

remove-Removed :
    (node : ℕ) (s : Links)
    → s.next node ≢ node
    → s.prev node ≢ node
    → Removed node s (remove node s)
unfolding remove update
remove-Removed node s h l = record {
  closed = ground arith;
  alone = ground arith;
  same_next = λ x a b. ground arith;
  same_prev = λ x a b. ground arith;
}

-- A link that is in no list now.
abbrev pub Fresh : ℕ → List ℕ → Type 0
Fresh node q = All (λ y. y ≢ node) q

module _ (s : Links) (node c : ℕ) (q : List ℕ) (d : Distinct (c ∷ q)) (ch : Chain s c q c)
    (f : Fresh node (c ∷ q)) where
  into : Inserted node c s (insert node (some c) s)
  into = insert-Inserted node c s f.0 (Chain-last (λ y. y ≢ node) s c q c ch f)

  -- The old links, up to the new one.
  insert-Chain : Chain (insert node (some c) s) c q node
  insert-Chain =
      Chain-retarget s (insert node (some c) s) c q c node ch d into.before
        (All-map (λ x. x ≢ node) (λ x. x ≢ s.prev c → (insert node (some c) s).next x ≡ s.next x)
          (c ∷ q) (λ x n l. into.same_next x n l) f)
        (All-map (λ x. x ≢ node × x ≢ c) (λ x. (insert node (some c) s).prev x ≡ s.prev x) q
          (λ x n. into.same_prev x n.0 n.1) (All-zip (λ x. x ≢ node) (λ x. x ≢ c) q f.1 d.0))

  insert-Keeps : Keeps (node ∷ c ∷ q) s (insert node (some c) s)
  insert-Keeps x n =
      let last : s.prev c ≢ x = Chain-last (λ y. y ≢ x) s c q c ch n.1 in
      (
        into.same_next x (λ e. n.0 (sym e)) (λ e. last (sym e)),
        into.same_prev x (λ e. n.0 (sym e)) (λ e. n.1.0 (sym e)),
      )

alone_now : (s : Links) (node : ℕ) → Linked (insert node none s) node node
unfolding insert update
alone_now s node = ground arith

alone-Keeps : (s : Links) (node : ℕ) → Keeps (node ∷ []) s (insert node none s)
unfolding insert update
alone-Keeps s node x n = ground arith

-- What a call that links a node into a list gives: the links, and a head that holds `q'`.
abbrev pub LinksIn : Option ℕ × Links → Links → List ℕ → List ℕ → Type 0
LinksIn run s touched q' =
    (head' : Option ℕ) × (s' : Links) × (run ≡ (head', s')) × Holds s' head' q' × Keeps touched s s'

-- LinkedListEnqueue puts a link that is in no list at the end of the list, and writes no link of
-- another list.
pub enqueue_lem :
    (node : ℕ) (head : Option ℕ) (s : Links) (q : List ℕ)
    → Holds s head q
    → Fresh node q
    → LinksIn (enqueue node head s) s (node ∷ q) (Fifo.enqueue node q)
unfolding enqueue Fifo.enqueue
enqueue_lem node head s [] h f =
    subst (λ hd. LinksIn (enqueue node hd s) s (node ∷ []) (node ∷ [])) (sym h)
      (_, _, refl, (ap some (alone_now s node).0, (tt, tt), alone_now s node), alone-Keeps s node)
enqueue_lem node head s (c ∷ q) h f =
    let new = into s node c q h.1 h.2 f in
    subst (λ hd. LinksIn (enqueue node hd s) s (node ∷ c ∷ q) (c ∷ q ++ node ∷ [])) (sym h.0)
      (
        _,
        _,
        refl,
        (
          ap some new.after.0,
          Distinct-snoc (c ∷ q) node h.1 f,
          Chain-snoc _ c q node c (insert-Chain s node c q h.1 h.2 f) new.after,
        ),
        insert-Keeps s node c q h.1 h.2 f,
      )

-- LinkedListPush puts a link that is in no list at the front of the list, and writes no link of
-- another list.
pub push_lem :
    (node : ℕ) (head : Option ℕ) (s : Links) (q : List ℕ)
    → Holds s head q
    → Fresh node q
    → LinksIn (push node head s) s (node ∷ q) (Fifo.push node q)
unfolding push Fifo.push
push_lem node head s [] h f =
    subst (λ hd. LinksIn (push node hd s) s (node ∷ []) (node ∷ [])) (sym h)
      (_, _, refl, (refl, (tt, tt), alone_now s node), alone-Keeps s node)
push_lem node head s (c ∷ q) h f =
    let new = into s node c q h.1 h.2 f in
    subst (λ hd. LinksIn (push node hd s) s (node ∷ c ∷ q) (node ∷ c ∷ q)) (sym h.0)
      (
        _,
        _,
        refl,
        (refl, (f, h.1), (new.after, insert-Chain s node c q h.1 h.2 f)),
        insert-Keeps s node c q h.1 h.2 f,
      )

-- What a pop of the first link `c` gives.
abbrev pub Popped : Option ℕ × Option ℕ × Links → Links → ℕ → List ℕ → Type 0
Popped run s c q' =
    (head' : Option ℕ) × (s' : Links) × (run ≡ (some c, head', s'))
    × Holds s' head' q'
    × Keeps (c ∷ q') s s'

pop_last : (s : Links) (c : ℕ) → s.next c ≡ c → pop (some c) s ≡ (some c, none, s)
unfolding pop
pop_last s c e = ground arith

pop_more :
    (s : Links) (c : ℕ) → s.next c ≢ c → pop (some c) s ≡ (some c, some (s.next c), remove c s)
unfolding pop
pop_more s c e = ground arith

-- LinkedListPop takes the first link off a list that has one, and writes no link of another list.
pub pop_lem :
    (head : Option ℕ) (s : Links) (c : ℕ) (q : List ℕ)
    → Holds s head (c ∷ q)
    → Popped (pop head s) s c q
pop_lem head s c [] h =
    subst (λ hd. Popped (pop hd s) s c []) (sym h.0)
      (none, s, pop_last s c h.2.0, refl, λ x n. (refl, refl))
pop_lem head s c (b ∷ q) h =
    let next_ne : s.next c ≢ c = λ e. h.1.0.0 (sym h.2.0.0 ∙ e) in
    let last_ne : s.prev c ≢ c = Chain-last (λ y. y ≢ c) s b q c h.2.1 h.1.0 in
    let done = remove-Removed c s next_ne last_ne in
    let closed : Linked (remove c s) (s.prev c) b =
      subst (λ x. Linked (remove c s) (s.prev c) x) h.2.0.0 done.closed in
    subst (λ hd. Popped (pop hd s) s c (b ∷ q)) (sym h.0)
      (
        some (s.next c),
        remove c s,
        pop_more s c next_ne,
        (
          ap some h.2.0.0,
          h.1.1,
          Chain-retarget s (remove c s) b q c b h.2.1 h.1.1 closed
              (All-map (λ x. x ≢ c) (λ x. x ≢ s.prev c → (remove c s).next x ≡ s.next x) (b ∷ q)
                (λ x n l. done.same_next x n l) h.1.0)
              (All-map (λ x. x ≢ c × x ≢ b) (λ x. (remove c s).prev x ≡ s.prev x) q
                (λ x n. done.same_prev x n.0 (λ e. n.1 (e ∙ h.2.0.0)))
                (All-zip (λ x. x ≢ c) (λ x. x ≢ b) q h.1.0.1 h.1.1.0)),
        ),
        λ x n.
            let last : s.prev c ≢ x = Chain-last (λ y. y ≢ x) s b q c h.2.1 n.1 in
            (
              done.same_next x (λ e. n.0 (sym e)) (λ e. last (sym e)),
              done.same_prev x (λ e. n.0 (sym e)) (λ e. n.1.0 (sym (e ∙ h.2.0.0))),
            ),
      )
