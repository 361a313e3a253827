-- ===== src/Kernel/Worker/Tests.antt =====
-- A queue with one worker thread, and two items.
use kernelpanic.Common.{ℕ, ◌≡◌, refl, ◌≢◌, true, [], ◌∷◌}
use kernelpanic.Kernel.State.{ready}
use kernelpanic.Kernel.Worker.{
  pended, finished, Item, before_down, before_pop, running, Queue, goes, waits, panics,
  create_worker, add_item, add_up, worker_turn,
}
use kernelpanic.Kernel.Worker.Safety.{
  Reach, created, added, worker_turn-ne-panics, add_up_race, pended_waits,
}

abbrev items : ℕ → Item
items i = record { state = ready; is_finished = true }

abbrev empty : Queue
empty = record { list = []; lock = 0; items = items; pc = before_down }

empty-Reach : Reach empty
unfolding create_worker
empty-Reach = created items

two_items-Reach : Reach (add_item 5 empty)
two_items-Reach = added empty-Reach 5 (record { not_queued = tt; not_running = λ e. cc })

worker_turn-ne-panics_example : worker_turn finished (add_item 5 empty) ≢ panics
worker_turn-ne-panics_example = worker_turn-ne-panics (add_item 5 empty) finished two_items-Reach

add_up_race_example :
    (worker_turn finished empty ≡ waits)
    × (q' : Queue) × (worker_turn finished (add_up empty) ≡ goes q')
    × (worker_turn finished q' ≡ panics)
add_up_race_example = add_up_race empty finished refl refl refl

abbrev at_work : Queue
at_work = record empty { pc = running 5 }

pended_waits_example :
    (q' : Queue) × (worker_turn pended at_work ≡ goes q')
    × (q'.list ≡ 5 ∷ [])
    × (worker_turn finished q' ≡ waits)
pended_waits_example = pended_waits at_work 5 finished refl refl

runs_item :
    worker_turn finished (add_item 5 empty)
    ≡ goes (record (add_item 5 empty) { lock = 0; pc = before_pop })
unfolding worker_turn add_item
runs_item = refl
