-- ===== src/Kernel/Interrupt/Tests.antt =====
-- Runs of kernel/softinterrupt.c with handlers that write down what runs.
use kernelpanic.Common.{
  ℕ, ◌+◌, ◌≡◌, refl, true, none, some, List, [], ◌∷◌, ◌++◌, arith, ltb, ◌==◌, if◌then◌else◌,
}
use kernelpanic.Common.Outcome.{ok}
use kernelpanic.Common.Store.{update}
use kernelpanic.Common.{Bool, not}
use kernelpanic.Kernel.Handler.{Handler, ready, queued, running}
use kernelpanic.Kernel.Interrupt.{Pending, Functions, interrupt}
use kernelpanic.Kernel.Interrupt.Drain.{IsPlain, IsValid, drained, interrupt_lem}

-- A function writes down itself, its handler and the context; 11 returns false.
abbrev write_call : ℕ → ℕ → Handler → List ℕ → List ℕ
write_call f h x w = w ++ f ∷ h ∷ (elim x.context [ none ↦ 0 | some c ↦ c ]) ∷ []

abbrev not_11 : ℕ → ℕ → Handler → List ℕ → Bool
not_11 f h x w = not (f == 11)

abbrev writers : Functions (List ℕ)
writers = record {
  call = λ f h q. ok (
    not_11 f h (q.handlers h) q.world,
    record q { world = write_call f h (q.handlers h) q.world },
  );
  complete = λ f h q. ok (record q { world = write_call f h (q.handlers h) q.world });
}

writers-IsPlain : IsPlain writers write_call write_call not_11
writers-IsPlain = record { called = λ f h q. refl; completed = λ f h q. refl }

-- Handlers 1 and 2 wait, with contexts; both have a completion function.
abbrev handler_at : ℕ → Handler
handler_at h = record {
  state = if ltb h 3 then queued else ready;
  function = some (h + 10);
  complete_function = some 7;
  context = some (h + 20);
}

abbrev two_wait : Pending (List ℕ)
two_wait = record { handlers = handler_at; list = 2 ∷ 1 ∷ []; raised = true; world = [] }

two_wait-IsValid : IsValid two_wait
two_wait-IsValid = record {
  waiting = (
    record { is_queued = refl; code_at = (12, refl) },
    (record { is_queued = refl; code_at = (11, refl) }, tt),
  );
  distinct = ((omega arith, tt), (tt, tt));
}

abbrev drained_pair : Pending (List ℕ)
drained_pair = drained writers write_call write_call not_11 writers-IsPlain two_wait

-- The function of 2, its completion function, the function of 1, which is not complete.
calls_made : drained_pair.world ≡ 12 ∷ 2 ∷ 22 ∷ 7 ∷ 2 ∷ 22 ∷ 11 ∷ 1 ∷ 21 ∷ []
calls_made = refl

stays_running : (drained_pair.handlers 1).state ≡ running
unfolding update
stays_running = refl

interrupt_lem_example : interrupt writers 3 two_wait ≡ some (ok drained_pair)
interrupt_lem_example =
    interrupt_lem writers write_call write_call not_11 writers-IsPlain two_wait 3
      two_wait-IsValid.waiting two_wait-IsValid.distinct (omega arith)
