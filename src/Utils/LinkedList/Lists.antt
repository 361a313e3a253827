-- ===== src/Utils/LinkedList/Lists.antt =====
-- Lists that share one store of links, driven by any sequence of calls, against a queue for each.
use kernelpanic.Common.{
  ℕ, ◌≡◌, refl, sym, ap, ap₂, ◌∙◌, subst, ◌≢◌, ◌⊎◌, inl, inr, Option, none, some, List, [], ◌∷◌,
  ◌++◌, arith, ◌==◌, Bool-cases, eqb→eq, eqb→ne, All, All-append, All-map, All-zip,
}
use mathlib.Core.Path.{fun_ext}
use kernelpanic.Common.Store.{update, update_self, update_ne}
use kernelpanic.Utils.Fifo
use kernelpanic.Utils.LinkedList.{Links, push, pop, enqueue, peek}
use kernelpanic.Utils.LinkedList.Circle.{Holds, Keeps, Holds-keep}
use kernelpanic.Utils.LinkedList.Queue.{Fresh, enqueue_lem, push_lem, pop_lem}

-- The heads of the lists, by number, and the links.
pub record Memory : Type 0 where
  pub heads : ℕ → Option ℕ
  pub links : Links

-- A call on the list `on`.
pub data Call : Type 0 where
  enqueue_to push_to : (node on : ℕ) → Call
  pop_from peek_at : (on : ℕ) → Call

-- The reply of a call that returns a link, and the memory.
unfoldable pub call : Call → Memory → Option ℕ × Memory
unfolding enqueue push pop peek
call (enqueue_to node on) m =
    let (h, s) = enqueue node (m.heads on) m.links in
    (none, record { heads = update m.heads on h; links = s })
call (push_to node on) m =
    let (h, s) = push node (m.heads on) m.links in
    (none, record { heads = update m.heads on h; links = s })
call (pop_from on) m =
    let (top, h, s) = pop (m.heads on) m.links in
    (top, record { heads = update m.heads on h; links = s })
call (peek_at on) m = (peek (m.heads on), m)

unfoldable pub queue_call : Call → (ℕ → List ℕ) → Option ℕ × (ℕ → List ℕ)
unfolding Fifo.enqueue Fifo.push Fifo.pop Fifo.peek
queue_call (enqueue_to node on) qs = (none, update qs on (Fifo.enqueue node (qs on)))
queue_call (push_to node on) qs = (none, update qs on (Fifo.push node (qs on)))
queue_call (pop_from on) qs = elim (Fifo.pop (qs on)) [
  | none ↦ (none, qs)
  | some (c, q) ↦ (some c, update qs on q)
]
queue_call (peek_at on) qs = (Fifo.peek (qs on), qs)

unfoldable pub run : List Call → Memory → List (Option ℕ)
run [] m = []
run (c ∷ cs) m = let (reply, m') = call c m in reply ∷ run cs m'

unfoldable pub queue_run : List Call → (ℕ → List ℕ) → List (Option ℕ)
queue_run [] qs = []
queue_run (c ∷ cs) qs = let (reply, qs') = queue_call c qs in reply ∷ queue_run cs qs'

-- No link of `q` is in `w`.
abbrev pub Apart : List ℕ → List ℕ → Type 0
Apart q w = All (λ x. Fresh x w) q

-- Every list holds its queue, and no link is in two lists.
pub record IsValid (m : Memory) (qs : ℕ → List ℕ) : Type 0 where
  pub holds : (i : ℕ) → Holds m.links (m.heads i) (qs i)
  pub apart : (i j : ℕ) → i ≢ j → Apart (qs i) (qs j)

-- A link that is put into a list is in none.
abbrev pub IsAllowed : Call → (ℕ → List ℕ) → Type 0
IsAllowed (enqueue_to node on) qs = (i : ℕ) → Fresh node (qs i)
IsAllowed (push_to node on) qs = (i : ℕ) → Fresh node (qs i)
IsAllowed (pop_from on) qs = Unit
IsAllowed (peek_at on) qs = Unit

-- Each call is allowed where it stands.
abbrev pub AreAllowed : List Call → (ℕ → List ℕ) → Type 0
AreAllowed [] qs = Unit
AreAllowed (c ∷ cs) qs = IsAllowed c qs × AreAllowed cs (queue_call c qs).1

at-cases : (i j : ℕ) → (i ≡ j) ⊎ (i ≢ j)
at-cases i j = elim (Bool-cases (i == j)) [
  | inl e ↦ inl (eqb→eq i j e)
  | inr e ↦ inr (eqb→ne i j e)
]

Apart-sym : (q w : List ℕ) → Apart q w → Apart w q
Apart-sym q [] h = tt
Apart-sym q (y ∷ w) h = (
  All-map (λ x. Fresh x (y ∷ w)) (λ x. x ≢ y) q (λ x f e. f.0 (sym e)) h,
  Apart-sym q w (All-map (λ x. Fresh x (y ∷ w)) (λ x. Fresh x w) q (λ x f. f.1) h),
)

-- List `on` gets a new head and queue, the links of `touched` are written, and no other list has
-- one of them.
update-IsValid :
    (m : Memory) (qs : ℕ → List ℕ) (on : ℕ) (h : Option ℕ) (s : Links) (q touched : List ℕ)
    → IsValid m qs
    → Holds s h q
    → Keeps touched m.links s
    → ((i : ℕ) → i ≢ on → Apart (qs i) touched)
    → ((i : ℕ) → i ≢ on → Apart (qs i) q)
    → IsValid (record { heads = update m.heads on h; links = s }) (update qs on q)
update-IsValid m qs on h s q touched v new keeps far away = record {
  holds = λ i. elim (at-cases i on) [
    | inl e ↦ rw (e, update_self m.heads on h, update_self qs on q) new
    | inr ne ↦
        rw (update_ne m.heads on i h ne, update_ne qs on i q ne)
          (Holds-keep m.links s (m.heads i) (qs i) touched keeps (far i ne) (v.holds i))
  ];
  apart = λ i j d. elim (at-cases i on) [
    | inl e ↦
        let other : j ≢ on = λ x. d (e ∙ sym x) in
        rw (e, update_self qs on q, update_ne qs on j q other) (Apart-sym (qs j) q (away j other))
    | inr ne ↦ elim (at-cases j on) [
      | inl e ↦ rw (e, update_self qs on q, update_ne qs on i q ne) (away i ne)
      | inr nf ↦ rw (update_ne qs on i q ne, update_ne qs on j q nf) (v.apart i j d)
    ]
  ];
}

-- Links of other lists are apart from a list with a new link.
Apart-new : (node : ℕ) (q w : List ℕ) → Fresh node w → Apart w q → Apart w (node ∷ q)
Apart-new node q w f a =
    All-map (λ x. x ≢ node × Fresh x q) (λ x. Fresh x (node ∷ q)) w
      (λ x h. ((λ e. h.0 (sym e)), h.1)) (All-zip (λ x. x ≢ node) (λ x. Fresh x q) w f a)

Apart-snoc : (node : ℕ) (q w : List ℕ) → Fresh node w → Apart w q → Apart w (q ++ node ∷ [])
Apart-snoc node q w f a =
    All-map (λ x. x ≢ node × Fresh x q) (λ x. Fresh x (q ++ node ∷ [])) w
      (λ x h. All-append (λ y. y ≢ x) q (node ∷ []) h.1 ((λ e. h.0 (sym e)), tt))
      (All-zip (λ x. x ≢ node) (λ x. Fresh x q) w f a)

-- One call gives the reply of the queue and keeps the lists valid.
abbrev Agrees : Option ℕ × Memory → Option ℕ × (ℕ → List ℕ) → Type 0
Agrees a b = (a.0 ≡ b.0) × IsValid a.1 b.1

pop-none : (s : Links) → pop none s ≡ (none, none, s)
unfolding pop
pop-none s = refl

queue_pop-none : (on : ℕ) (qs : ℕ → List ℕ) → qs on ≡ [] → queue_call (pop_from on) qs ≡ (none, qs)
unfolding queue_call Fifo.pop
queue_pop-none on qs e = ground arith

queue_pop-some :
    (on : ℕ) (qs : ℕ → List ℕ) (c : ℕ) (q : List ℕ)
    → qs on ≡ c ∷ q
    → queue_call (pop_from on) qs ≡ (some c, update qs on q)
unfolding queue_call Fifo.pop
queue_pop-some on qs c q e = ground arith

-- The memory in which list `on` has a new head.
abbrev with_head : Memory → ℕ → Option ℕ → Links → Memory
with_head m on h s = record { heads = update m.heads on h; links = s }

with_head-same : (m : Memory) (on : ℕ) → m.heads on ≡ none → with_head m on none m.links ≡ m
unfolding update
with_head-same m on e = ap (λ f. record m { heads = f }) (fun_ext (λ i. same i))
  where
    same : (i : ℕ) → update m.heads on none i ≡ m.heads i
    same i = ground arith

call-pop :
    (on : ℕ) (m : Memory) (qs : ℕ → List ℕ) (q : List ℕ)
    → qs on ≡ q
    → IsValid m qs
    → Agrees (call (pop_from on) m) (queue_call (pop_from on) qs)
unfolding call queue_call
call-pop on m qs [] e v =
    let none_left : m.heads on ≡ none = subst (Holds m.links (m.heads on)) e (v.holds on) in
    let popped : pop (m.heads on) m.links ≡ (none, none, m.links) =
      ap (λ h. pop h m.links) none_left ∙ pop-none m.links in
    let replied : queue_call (pop_from on) qs ≡ (none, qs) = queue_pop-none on qs e in
    subst (λ r. Agrees (call (pop_from on) m) r) (sym replied)
      (subst (λ r. Agrees (r.0, with_head m on r.1 r.2) (none, qs)) (sym popped)
        (refl, subst (λ n. IsValid n qs) (sym (with_head-same m on none_left)) v))
call-pop on m qs (c ∷ q) e v =
    let (h, s, runs, new, keeps) =
      pop_lem (m.heads on) m.links c q (subst (Holds m.links (m.heads on)) e (v.holds on)) in
    let replied : queue_call (pop_from on) qs ≡ (some c, update qs on q) =
      queue_pop-some on qs c q e in
    let far : (i : ℕ) → i ≢ on → Apart (qs i) (c ∷ q) =
      λ i ne. subst (Apart (qs i)) e (v.apart i on ne) in
    subst (λ r. Agrees (call (pop_from on) m) r) (sym replied)
      (subst (λ r. Agrees (r.0, with_head m on r.1 r.2) (some c, update qs on q)) (sym runs)
        (
          refl,
          update-IsValid m qs on h s q (c ∷ q) v new keeps far (λ i ne.
              All-map (λ x. Fresh x (c ∷ q)) (λ x. Fresh x q) (qs i) (λ x f. f.1) (far i ne)),
        ))

-- The head is the first link.
peek-Holds : (s : Links) (h : Option ℕ) (q : List ℕ) → Holds s h q → peek h ≡ Fifo.peek q
unfolding peek Fifo.peek
peek-Holds s h [] e = e
peek-Holds s h (c ∷ q) e = e.0

call_lem :
    (c : Call) (m : Memory) (qs : ℕ → List ℕ)
    → IsValid m qs
    → IsAllowed c qs
    → Agrees (call c m) (queue_call c qs)
unfolding call queue_call
call_lem (enqueue_to node on) m qs v f =
    let (h, s, runs, new, keeps) =
      enqueue_lem node (m.heads on) m.links (qs on) (v.holds on) (f on) in
    let q = Fifo.enqueue node (qs on) in
    subst (λ r. Agrees (none, with_head m on r.0 r.1) (none, update qs on q)) (sym runs)
      (
        refl,
        update-IsValid m qs on h s q (node ∷ qs on) v new keeps
            (λ i ne. Apart-new node (qs on) (qs i) (f i) (v.apart i on ne))
            (λ i ne. unfold Fifo.enqueue in Apart-snoc node (qs on) (qs i) (f i) (v.apart i on ne)),
      )
call_lem (push_to node on) m qs v f =
    let (h, s, runs, new, keeps) = push_lem node (m.heads on) m.links (qs on) (v.holds on) (f on) in
    let q = Fifo.push node (qs on) in
    subst (λ r. Agrees (none, with_head m on r.0 r.1) (none, update qs on q)) (sym runs)
      (
        refl,
        update-IsValid m qs on h s q (node ∷ qs on) v new keeps
            (λ i ne. Apart-new node (qs on) (qs i) (f i) (v.apart i on ne))
            (λ i ne. unfold Fifo.push in Apart-new node (qs on) (qs i) (f i) (v.apart i on ne)),
      )
call_lem (pop_from on) m qs v f = call-pop on m qs (qs on) refl v
call_lem (peek_at on) m qs v f = (peek-Holds m.links (m.heads on) (qs on) (v.holds on), v)

-- Lists in one memory, each a circle of its own links, reply to every sequence of enqueue, push,
-- pop and peek calls as queues do, provided that a link is put into a list only when it is in none.
pub calls_refine :
    (cs : List Call) (m : Memory) (qs : ℕ → List ℕ)
    → IsValid m qs
    → AreAllowed cs qs
    → run cs m ≡ queue_run cs qs
unfolding run queue_run
calls_refine [] m qs v f = refl
calls_refine (c ∷ cs) m qs v f =
    let step = call_lem c m qs v f.0 in
    ap₂ (λ r rs. r ∷ rs) step.0 (calls_refine cs (call c m).1 (queue_call c qs).1 step.1 f.1)
