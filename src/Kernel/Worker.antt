-- ===== src/Kernel/Worker.antt =====
-- kernel/worker.c: a queue of work items and the thread that runs them. A call is cut where another
-- thread or an interrupt can come in between: at SemaphoreDown and SemaphoreUp, and at the sections
-- in which the crit interrupt is disabled. Of the queue's Lock the model has the count; the thread
-- takes no turn while it is blocked there. The code behind Foo is a parameter, which chooses what
-- a run returns.
pub mod Safety
mod Tests
use kernelpanic.Common.{
  ℕ, zero, suc, ◌+◌, ◌-◌, ◌*◌, ◌/◌, ◌%◌, ◌^◌, ◌≤◌, ◌<◌, min, ◌≡◌, refl, sym, ap, ap₂, ◌∙◌, subst,
  ◌≢◌, ◌⊎◌, inl, inr, Bool, true, false, not, ◌&&◌, ◌||◌, Option, none, some, List, [], ◌∷◌, ◌++◌,
  append-nil, append_assoc, arith, ltb, leb, ◌==◌, if◌then◌else◌, Bool-cases, ltb→lt, ltb→le,
  eqb→eq, eqb→ne, eqb_of_ne, eqb_refl, length, get_or, set, take, drop, replicate, length-append,
  length-set, length-replicate, length-take, length-drop, take-append-drop, get_or-set_self,
  get_or-set_ne, length-snoc, prefix_of_append, All, All-append, All-front, All-map, All-zip,
  Distinct, Distinct-snoc,
}
use kernelpanic.Common.Outcome.{Outcome, ok, panic}
use kernelpanic.Common.Store.{update}
use kernelpanic.Utils.Fifo
use kernelpanic.Kernel.State.{LockingState, ready, blocking, acquired}

-- `enum WORKER_RETURN`
pub data WorkerReturn : Type 0 where
  pended blocked finished : WorkerReturn

-- `struct WORKER_ITEM`: the state of its locking context, and whether it is finished.
pub record Item : Type 0 where
  pub state : LockingState
  pub is_finished : Bool

-- Where the loop of `WorkerThreadMain` stands: before SemaphoreDown, before LinkedListPop, or in
-- the function of an item.
pub data Pc : Type 0 where
  before_down before_pop : Pc
  running : ℕ → Pc

-- `struct WORKER_QUEUE`, its thread and the items, named by numbers.
pub record Queue : Type 0 where
  pub list : List ℕ
  pub lock : ℕ
  pub items : ℕ → Item
  pub pc : Pc

-- What a turn of the thread does: it goes on, it is blocked, or an ASSERT fails.
pub data Turn : Type 0 where
  goes : Queue → Turn
  waits panics : Turn

-- `WorkerCreateWorker`: the queue that the new thread starts on.
unfoldable pub create_worker : (items : ℕ → Item) → Queue
create_worker items = record { list = []; lock = 0; items = items; pc = before_down }

-- `WorkerAddItem`, up to the section.
unfoldable pub add_up : Queue → Queue
add_up q = record q { lock = (q.lock + 1) % 2 ^ 64 }

-- `WorkerAddItem`, the section.
unfoldable pub add_enqueue : ℕ → Queue → Queue
unfolding update Fifo.enqueue
add_enqueue i q = record q {
  items = update q.items i (record (q.items i) { is_finished = false });
  list = Fifo.enqueue i q.list;
}

-- `WorkerAddItem`, when nothing comes in between.
unfoldable pub add_item : ℕ → Queue → Queue
unfolding add_up add_enqueue
add_item i q = add_enqueue i (add_up q)

-- `WorkerInitItem`
unfoldable pub init_item : ℕ → Queue → Queue
unfolding add_item update
init_item i q =
    add_item i (record q { items = update q.items i (record (q.items i) { state = ready }) })

abbrev set_state : ℕ → LockingState → Queue → Queue
set_state i state q = record q { items = update q.items i (record (q.items i) { state = state }) }

-- `WorkerWakeOnLock`
unfoldable pub wake_on_lock : ℕ → Queue → Outcome Queue
unfolding add_item update
wake_on_lock i q = elim (q.items i).state [
  | ready ↦ ok (set_state i acquired q)
  | blocking ↦ ok (set_state i acquired (add_item i q))
  | acquired ↦ panic
]

-- `WorkerGetItem` and the check of the item, from LinkedListPop on.
unfoldable pub pop_item : Queue → Turn
unfolding Fifo.pop
pop_item q = elim (Fifo.pop q.list) [
  | none ↦ panics
  | some (i, rest) ↦
      if not (q.items i).is_finished
      then goes (record q { list = rest; pc = running i })
      else panics
]

-- What `WorkerThreadMain` does with an item that ran.
unfoldable pub after_run : ℕ → WorkerReturn → Queue → Queue
unfolding update Fifo.enqueue
after_run i finished q = record q {
  items = update q.items i (record (q.items i) { is_finished = true });
  pc = before_down;
}
after_run i blocked q = record q { pc = before_down }
after_run i pended q = record q { list = Fifo.enqueue i q.list; pc = before_down }

-- A turn of `WorkerThreadMain`; `result` is what Foo returns if it ran.
unfoldable pub worker_turn : WorkerReturn → Queue → Turn
unfolding pop_item after_run
worker_turn result q = elim q.pc [
  | before_down ↦
      if q.lock == 0 then waits else goes (record q { lock = q.lock - 1; pc = before_pop })
  | before_pop ↦ pop_item q
  | running i ↦ goes (after_run i result q)
]

-- `WorkerItemIsFinished`
unfoldable pub item_is_finished : ℕ → Queue → Bool
item_is_finished i q = (q.items i).is_finished
