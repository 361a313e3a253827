-- ===== src/Kernel/Interrupt.antt =====
-- kernel/softinterrupt.c and kernel/critinterrupt.c: the handlers that wait for an interrupt level.
pub mod Drain
mod Tests
use kernelpanic.Common.{
  ℕ, zero, suc, ◌+◌, ◌-◌, ◌*◌, ◌/◌, ◌%◌, ◌^◌, ◌≤◌, ◌<◌, min, ◌≡◌, refl, sym, ap, ap₂, ◌∙◌, subst,
  ◌≢◌, ◌⊎◌, inl, inr, Bool, true, false, not, ◌&&◌, ◌||◌, Option, none, some, List, [], ◌∷◌, ◌++◌,
  append-nil, append_assoc, arith, ltb, leb, ◌==◌, if◌then◌else◌, Bool-cases, ltb→lt, ltb→le,
  eqb→eq, eqb→ne, eqb_of_ne, eqb_refl, length, get_or, set, take, drop, replicate, length-append,
  length-set, length-replicate, length-take, length-drop, take-append-drop, get_or-set_self,
  get_or-set_ne, length-snoc, prefix_of_append, All, All-append, All-front, All-map, All-zip,
  Distinct, Distinct-snoc,
}
use kernelpanic.Common.Outcome.{Outcome, ok, panic, ◌>>=◌, ◌>>◌, assert}
use kernelpanic.Common.Store.{update}
use kernelpanic.Kernel.Handler.{Handler, register, run, finish}

-- The handlers by address, the list SoftInterruptHandlerList or CritInterruptHandlerList as the
-- stack that an atomic list is, whether HalRaiseInterrupt has raised the level, and what else the
-- handlers' functions change.
pub record Pending (W : Type 0) : Type 0 where
  pub handlers : ℕ → Handler
  pub list : List ℕ
  pub raised : Bool
  pub world : W

-- The code behind the function pointers: a HANDLER_FUNCTION, and a HANDLER_COMPLETE_FUNCTION.
pub record Functions (W : Type 0) : Type 0 where
  pub call : (f h : ℕ) → Pending W → Outcome (Bool × Pending W)
  pub complete : (f h : ℕ) → Pending W → Outcome (Pending W)

module _ {W : Type 0} (code : Functions W) where
  abbrev set_handler : ℕ → Handler → Pending W → Pending W
  set_handler h x q = record q { handlers = update q.handlers h x }

  -- `SoftInterruptRegisterHandler`, `CritInterruptRegisterHandler`
  unfoldable pub register_handler :
      (handler foo : ℕ) → (context : Option ℕ) → Pending W → Outcome (Pending W)
  unfolding register
  register_handler handler foo context q = do
    let given = record (q.handlers handler) { function = some foo; context = context }
    x ← register given
    ok (record q { handlers = update q.handlers handler x; list = handler ∷ q.list; raised = true })

  -- `HandlerFinish` and the completion function that it calls.
  unfoldable pub finish_handler : ℕ → Pending W → Outcome (Pending W)
  unfolding finish
  finish_handler h q = do
    (x, done) ← finish (q.handlers h)
    elim done [ none ↦ ok (set_handler h x q) | some f ↦ code.complete f h (set_handler h x q) ]

  -- One turn of the loop, for the handler popped. A call of NULL does not return.
  unfoldable pub serve : ℕ → Pending W → Outcome (Pending W)
  unfolding run finish_handler
  serve h q = do
    x ← run (q.handlers h)
    let q1 = set_handler h x q
    elim x.function [
      | none ↦ panic
      | some f ↦ do
        (is_complete, q2) ← code.call f h q1
        if is_complete then finish_handler h q2 else ok q2
    ]

  -- `SoftInterrupt`, `CritInterrupt`, on fuel: none if it is not enough.
  unfoldable pub interrupt : (fuel : ℕ) → Pending W → Option (Outcome (Pending W))
  unfolding serve
  interrupt zero q = none
  interrupt (suc fuel) q = elim q.list [
    | [] ↦ some (ok q)
    | h ∷ rest ↦ elim (serve h (record q { list = rest })) [
      | panic ↦ some panic
      | ok q' ↦ interrupt fuel q'
    ]
  ]
