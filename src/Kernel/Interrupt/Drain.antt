-- ===== src/Kernel/Interrupt/Drain.antt =====
-- An interrupt runs every handler that waits.
use kernelpanic.Common.{
  ℕ, zero, suc, ◌<◌, ◌≡◌, refl, sym, ap, ◌∙◌, subst, ◌≢◌, inl, inr, Bool, Bool-cases, if◌then◌else◌,
  true, false, ◌||◌, Option, none, some, List, [], ◌∷◌, arith, length, All, All-map, All-zip,
  Distinct,
}
use kernelpanic.Common.Outcome.{ok}
use kernelpanic.Common.Store.{update, update_self, update_ne, update-twice}
use kernelpanic.Kernel.Handler.{
  Handler, HandlerState, ready, queued, running, is_ready, is_running, register, run, finish,
}
use kernelpanic.Kernel.Interrupt.{
  Pending, Functions, register_handler, finish_handler, serve, interrupt,
}

-- Functions that register no handler and change none, but only the rest of the state, as `act` and
-- `done` say. They may read the handler that they are called with, so its context; `finishes` is what
-- a handler's function returns.
pub record IsPlain {W : Type 0} (code : Functions W) (act done : ℕ → ℕ → Handler → W → W)
    (finishes : ℕ → ℕ → Handler → W → Bool) : Type 0 where
  pub called :
      (f h : ℕ) (q : Pending W)
      → code.call f h q
        ≡ ok (
          finishes f h (q.handlers h) q.world,
          record q { world = act f h (q.handlers h) q.world },
        )
  pub completed :
      (f h : ℕ) (q : Pending W)
      → code.complete f h q ≡ ok (record q { world = done f h (q.handlers h) q.world })

-- The handler waits, and has a function.
pub record IsWaiting (x : Handler) : Type 0 where
  pub is_queued : x.state ≡ queued
  pub code_at : (f : ℕ) × (x.function ≡ some f)

-- A handler that is ready again.
abbrev pub ready_again : Handler → Handler
ready_again x = record x { state = ready }

-- A handler whose function runs.
abbrev pub in_call : Handler → Handler
in_call x = record x { state = running }

-- What a function pointer does: nothing if it is NULL.
abbrev pub apply : {W : Type 0} → (ℕ → ℕ → Handler → W → W) → Option ℕ → ℕ → Handler → W → W
apply g none h x w = w
apply g (some f) h x w = g f h x w

module _ {W : Type 0} (act done : ℕ → ℕ → Handler → W → W)
    (finishes : ℕ → ℕ → Handler → W → Bool) where
  -- Whether the function of a handler returns true.
  abbrev pub is_complete : Option ℕ → ℕ → Handler → W → Bool
  is_complete none h x w = false
  is_complete (some f) h x w = finishes f h x w

  -- What running the handler does: its function and, if that returns true, its completion function.
  abbrev pub effect : Handler → ℕ → W → W
  effect x h w =
      if is_complete x.function h (in_call x) w
      then apply done x.complete_function h (ready_again x) (apply act x.function h (in_call x) w)
      else apply act x.function h (in_call x) w

  -- The handler after that: ready if its function returns true, and running otherwise.
  abbrev pub after : Handler → ℕ → W → Handler
  after x h w = if is_complete x.function h (in_call x) w then ready_again x else in_call x

  -- All handlers of a list, the first one first.
  abbrev pub effects : (ℕ → Handler) → List ℕ → W → W
  effects hs [] w = w
  effects hs (h ∷ l) w = effects hs l (effect (hs h) h w)

  abbrev pub all_after : List ℕ → (ℕ → Handler) → W → ℕ → Handler
  all_after [] hs w = hs
  all_after (h ∷ l) hs w = all_after l (update hs h (after (hs h) h w)) (effect (hs h) h w)

effects-same :
    {W : Type 0} (act done : ℕ → ℕ → Handler → W → W) (finishes : ℕ → ℕ → Handler → W → Bool)
    (hs ks : ℕ → Handler) (l : List ℕ) (w : W)
    → All (λ c. ks c ≡ hs c) l
    → effects act done finishes ks l w ≡ effects act done finishes hs l w
effects-same act done finishes hs ks [] w h = refl
effects-same act done finishes hs ks (c ∷ l) w h =
    effects-same act done finishes hs ks l (effect act done finishes (ks c) c w) h.1
    ∙ ap (λ x. effects act done finishes hs l (effect act done finishes x c w)) h.0

module _ {W : Type 0} (code : Functions W) (act done : ℕ → ℕ → Handler → W → W)
    (finishes : ℕ → ℕ → Handler → W → Bool) (plain : IsPlain code act done finishes) where
  finish-runs :
      (h : ℕ) (q : Pending W) (x : Handler) (c : Option ℕ)
      → q.handlers h ≡ x
      → x.state ≡ running
      → x.complete_function ≡ c
      → finish_handler code h q
        ≡ ok (record q {
          handlers = update q.handlers h (ready_again x);
          world = apply done c h (ready_again x) q.world;
        })
  unfolding finish_handler finish
  finish-runs h q x none a b e = ground arith
  finish-runs h q x (some f) a b e =
      let fine =
        plain.completed f h (record q { handlers = update q.handlers h (ready_again x) }) in
      let here = update_self q.handlers h (ready_again x) in ground arith

  -- The state after the handler `h` has run.
  abbrev served : ℕ → Pending W → Pending W
  served h q = record q {
    handlers = update q.handlers h (after act done finishes (q.handlers h) h q.world);
    world = effect act done finishes (q.handlers h) h q.world;
  }

  -- A turn, by what the handler's function returns.
  serve-call :
      (f h : ℕ) (q q' : Pending W) (b : Bool)
      → IsWaiting (q.handlers h)
      → (q.handlers h).function ≡ some f
      → code.call f h (record q { handlers = update q.handlers h (in_call (q.handlers h)) })
        ≡ ok (b, q')
      → serve code h q ≡ (if b then finish_handler code h q' else ok q')
  unfolding serve run
  serve-call f h q q' b i e called = rw (i.is_queued, e, called) refl

  serve-served :
      (h : ℕ) (q : Pending W) → IsWaiting (q.handlers h) → serve code h q ≡ ok (served h q)
  serve-served h q i =
      let x = q.handlers h in
      let (f, e) = i.code_at in
      let y : Handler = in_call x in
      let q1 : Pending W = record q { handlers = update q.handlers h y } in
      let q2 : Pending W = record q1 { world = act f h y q.world } in
      let called = plain.called f h q1 in
      let here = update_self q.handlers h y in
      let fin = finish-runs h q2 y x.complete_function here refl refl in
      let twice = update-twice q.handlers h y (ready_again x) in
      let which : is_complete act done finishes x.function h y q.world ≡ finishes f h y q.world =
        ap (λ o. is_complete act done finishes o h y q.world) e in
      let acts : apply act x.function h y q.world ≡ act f h y q.world =
        ap (λ o. apply act o h y q.world) e in
      elim (Bool-cases (finishes f h y q.world)) [
        | inl b ↦
            let called_true : code.call f h q1 ≡ ok (true, q2) = called ∙ rw (here, b) refl in
            let runs : serve code h q ≡ finish_handler code h q2 =
              serve-call f h q q2 true i e called_true in
            let complete = which ∙ b in runs ∙ fin ∙ rw (twice, complete, acts) refl
        | inr b ↦
            let called_false : code.call f h q1 ≡ ok (false, q2) = called ∙ rw (here, b) refl in
            let runs : serve code h q ≡ ok q2 = serve-call f h q q2 false i e called_false in
            let complete = which ∙ b in runs ∙ rw (complete, acts) refl
      ]

  interrupt-turn :
      (f h : ℕ) (l : List ℕ) (q q' : Pending W)
      → q.list ≡ h ∷ l
      → serve code h (record q { list = l }) ≡ ok q'
      → interrupt code (suc f) q ≡ interrupt code f q'
  unfolding interrupt
  interrupt-turn f h l q q' a b = ground arith

  interrupt-end : (f : ℕ) (q : Pending W) → q.list ≡ [] → interrupt code (suc f) q ≡ some (ok q)
  unfolding interrupt
  interrupt-end f q a = ground arith

  -- The state after all handlers of the list have run.
  abbrev pub drained : Pending W → Pending W
  drained q = record q {
    handlers = all_after act done finishes q.list q.handlers q.world;
    list = [];
    world = effects act done finishes q.handlers q.list q.world;
  }

  drain :
      (l : List ℕ) (q : Pending W) (fuel : ℕ)
      → q.list ≡ l
      → All (λ h. IsWaiting (q.handlers h)) l
      → Distinct l
      → length l < fuel
      → interrupt code fuel q
        ≡ some (
            ok (record q {
              handlers = all_after act done finishes l q.handlers q.world;
              list = [];
              world = effects act done finishes q.handlers l q.world;
            }))
  drain l q zero a i d b = absurd (omega arith)
  drain [] q (suc f) a i d b = interrupt-end f q a ∙ ap (λ l. some (ok (record q { list = l }))) a
  drain (h ∷ l) q (suc f) a i d b =
      let q' = served h (record q { list = l }) in
      let kept = λ (c : ℕ) (n : c ≢ h).
        update_ne q.handlers h c (after act done finishes (q.handlers h) h q.world) n in
      let waiting : All (λ c. IsWaiting (q'.handlers c)) l =
        All-map (λ c. c ≢ h × IsWaiting (q.handlers c)) (λ c. IsWaiting (q'.handlers c)) l
          (λ c n. subst IsWaiting (sym (kept c n.0)) n.1)
          (All-zip (λ c. c ≢ h) (λ c. IsWaiting (q.handlers c)) l d.0 i.1) in
      let same_handlers : All (λ c. q'.handlers c ≡ q.handlers c) l =
        All-map (λ c. c ≢ h) (λ c. q'.handlers c ≡ q.handlers c) l kept d.0 in
      interrupt-turn f h l q q' a (serve-served h (record q { list = l }) i.0)
      ∙ drain l q' f refl waiting d.1 (omega arith)
      ∙ ap
          (λ w. some (
            ok (record q {
              handlers = all_after act done finishes l q'.handlers q'.world;
              list = [];
              world = w;
            })))
          (effects-same act done finishes q.handlers q'.handlers l q'.world same_handlers)

  -- When the functions of its handlers register no handler and change none, the interrupt of a level
  -- runs each handler that waits once, the one registered last first, with its completion function if
  -- its function returns true. It leaves the list empty, a handler whose function returned true ready,
  -- and the others running.
  pub interrupt_lem :
      (q : Pending W) (fuel : ℕ)
      → All (λ h. IsWaiting (q.handlers h)) q.list
      → Distinct q.list
      → length q.list < fuel
      → interrupt code fuel q ≡ some (ok (drained q))
  interrupt_lem q fuel i d b = drain q.list q fuel refl i d b

-- Every handler of the list waits, and none stands twice.
pub record IsValid {W : Type 0} (q : Pending W) : Type 0 where
  pub waiting : All (λ h. IsWaiting (q.handlers h)) q.list
  pub distinct : Distinct q.list

-- A handler that is not queued is not in the list.
not_listed :
    (hs : ℕ → Handler) (h : ℕ) (l : List ℕ)
    → All (λ c. IsWaiting (hs c)) l
    → (hs h).state ≢ queued
    → All (λ c. c ≢ h) l
not_listed hs h l i n =
    All-map (λ c. IsWaiting (hs c)) (λ c. c ≢ h) l
      (λ c w e. n (ap (λ d. (hs d).state) (sym e) ∙ w.is_queued)) i

may_register : (s : HandlerState) → s ≢ queued → (is_ready s || is_running s) ≡ true
may_register ready n = refl
may_register queued n = absurd (n refl)
may_register running n = refl

register-runs :
    {W : Type 0} (code : Functions W) (h foo : ℕ) (context : Option ℕ) (q : Pending W) (x : Handler)
    → (is_ready (q.handlers h).state || is_running (q.handlers h).state) ≡ true
    → x ≡ record (q.handlers h) { function = some foo; context = context; state = queued }
    → register_handler code h foo context q
      ≡ ok (record q { handlers = update q.handlers h x; list = h ∷ q.list; raised = true })
unfolding register_handler register
register-runs code h foo context q x r e = ground arith

-- Registering a handler that is not queued already is never refused: it comes to the front of the
-- list, and the list stays valid.
pub register_handler_lem :
    {W : Type 0} (code : Functions W) (h foo : ℕ) (context : Option ℕ) (q : Pending W)
    → IsValid q
    → (q.handlers h).state ≢ queued
    → (q' : Pending W) × (register_handler code h foo context q ≡ ok q')
      × (q'.list ≡ h ∷ q.list)
      × IsValid q'
register_handler_lem code h foo context q v n =
    let x : Handler = record (q.handlers h) {
      function = some foo;
      context = context;
      state = queued;
    } in
    let fresh = not_listed q.handlers h q.list v.waiting n in
    (
      record q { handlers = update q.handlers h x; list = h ∷ q.list; raised = true },
      register-runs code h foo context q x (may_register (q.handlers h).state n) refl,
      refl,
      record {
        waiting = (
          subst IsWaiting (sym (update_self q.handlers h x))
              (record { is_queued = refl; code_at = (foo, refl) }),
          All-map (λ c. c ≢ h × IsWaiting (q.handlers c)) (λ c. IsWaiting (update q.handlers h x c))
              q.list (λ c w. subst IsWaiting (sym (update_ne q.handlers h c x w.0)) w.1)
              (All-zip (λ c. c ≢ h) (λ c. IsWaiting (q.handlers c)) q.list fresh v.waiting),
        );
        distinct = (fresh, v.distinct);
      },
    )
