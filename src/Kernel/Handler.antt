-- ===== src/Kernel/Handler.antt =====
-- kernel/handler.c: the life cycle of a callback.
use kernelpanic.Common.{ℕ, Bool, true, false, ◌||◌, Option, none, some}
use kernelpanic.Common.Outcome.{Outcome, ok, ◌>>◌, assert}

-- `enum HANDLER_STATE`
pub data HandlerState : Type 0 where
  ready queued running : HandlerState

-- `struct HANDLER_OBJECT`. Functions and contexts are their addresses, and none is NULL.
pub record Handler : Type 0 where
  pub state : HandlerState
  pub function : Option ℕ
  pub complete_function : Option ℕ
  pub context : Option ℕ

abbrev pub is_ready : HandlerState → Bool
is_ready ready = true
is_ready queued = false
is_ready running = false

abbrev pub is_queued : HandlerState → Bool
is_queued ready = false
is_queued queued = true
is_queued running = false

abbrev pub is_running : HandlerState → Bool
is_running ready = false
is_running queued = false
is_running running = true

abbrev pub is_null : Option ℕ → Bool
is_null none = true
is_null (some f) = false

-- `HandlerInit`
unfoldable pub init : Handler
init = record { state = ready; function = none; complete_function = none; context = none }

-- `HandlerCompetion`
unfoldable pub completion : ℕ → Handler → Outcome Handler
completion f h = do
  assert (is_ready h.state)
  assert (is_null h.complete_function)
  ok (record h { complete_function = some f })

-- `HandlerRegister`
unfoldable pub register : Handler → Outcome Handler
register h = do assert (is_ready h.state || is_running h.state); ok (record h { state = queued })

-- `HandlerRun`
unfoldable pub run : Handler → Outcome Handler
run h = do assert (is_queued h.state); ok (record h { state = running })

-- `HandlerFinish`: the handler, and the completion function that is called, if there is one.
unfoldable pub finish : Handler → Outcome (Handler × Option ℕ)
finish h = do assert (is_running h.state); ok (record h { state = ready }, h.complete_function)

-- `HandlerIsFinished`
unfoldable pub is_finished : Handler → Bool
is_finished h = is_ready h.state
