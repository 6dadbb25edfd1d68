-- ===== src/Reprocessing/Resume.antt =====
-- Where the list of decorated jobs takes up a message that failed before.
use nodejs_template.Text.Equality.{text_eq_iff, text_eq_refl}
use nodejs_template.Text.{Text, text}
use nodejs_template.Reprocessing.Decorator.{
  Handled, Settings, handle, Options, mark_or, Handler, Ran, mark_of, Body, again, skipped,
  normalize_reprocessing_payload, returned, swallowed, resent, clear_middleware, settle,
  skip_middleware,
}
use mathlib.Core.List.{head?}
use nodejs_template.Prelude.{All, ap, sym, arith, ◌++◌, ◌∙◌, List, Option, false, true}
use nodejs_template.Reprocessing.Send.{Reprocessing, State, Payload, Mark, QueueOptions}
use nodejs_template.Prelude.{◌≡◌, ◌≢◌, ◌∷◌, none, some, [], List, if◌then◌else◌}

skip-other :
    (mark : Mark) (name middleware : Text)
    → mark.middleware ≡ some middleware
    → middleware ≢ []
    → name ≢ middleware
    → skip_middleware (some mark) name ≡ true
unfolding skip_middleware
skip-other mark name middleware e full other =
    ground (arith, text_eq_iff middleware [], text_eq_iff middleware name)

skip-same :
    (mark : Mark) (name : Text)
    → mark.middleware ≡ some name
    → skip_middleware (some mark) name ≡ false
unfolding skip_middleware
skip-same mark name e = ground (arith, text_eq_refl name)

-- The jobs of a consumer in order, each with the name of its class: the names of those whose
-- handlers run. Every job gets the message anew and shares the state; the next one comes when
-- `next` was called, which a handler may do before it throws.
module _ {H B V : Type 0} where
  abbrev run_of : Handled H B V → Option (Ran H B V)
  run_of (skipped state) = none
  run_of (returned ran) = some ran
  run_of (swallowed ran) = some ran
  run_of (resent ran outcome) = some ran

  abbrev state_of : Handled H B V → State V
  state_of (skipped state) = state
  state_of (returned ran) = ran.state
  state_of (swallowed ran) = ran.state
  state_of (resent ran outcome) = ran.state

  unfoldable pub handlers_run :
      Settings
      → Options
      → List (Text × Handler H B V)
      → Payload H (Body H B V)
      → State V
      → List Text
  unfolding handle
  handlers_run settings options [] payload state = []
  handlers_run settings options ((name, handler) ∷ jobs) payload state =
      let handled = handle settings options name handler payload state in
      let rest = handlers_run settings options jobs payload (state_of handled) in
      elim (run_of handled) [
        | none ↦ rest
        | some ran ↦ name ∷ (if ran.next_was_called then rest else [])
      ]

  run_of-settle :
      (settings : Settings) (options : Options) (name : Text) (fields : QueueOptions)
      (ran : Ran H B V)
      → run_of (settle settings options name fields ran) ≡ some ran
  unfolding settle
  run_of-settle settings options name fields ran = ground arith

  -- The state is marked with the name of the class that failed.
  abbrev IsMarked : Reprocessing H B V → State V → Type 0
  IsMarked message state =
      (mark_or state.reprocessing (mark_of message)).middleware ≡ some message.middleware

  handle-skips :
      (settings : Settings) (options : Options) (name : Text) (handler : Handler H B V)
      (message : Reprocessing H B V) (payload : Payload H (Body H B V)) (state : State V)
      → settings.mode ≡ text "STOPPED_MIDDLEWARE"
      → payload.body ≡ again message
      → message.middleware ≢ []
      → name ≢ message.middleware
      → IsMarked message state
      → (state' : State V) × (handle settings options name handler payload state ≡ skipped state')
        × IsMarked message state'
  unfolding handle mark_or
  handle-skips settings options name handler message payload state mode body full other marked = (
    (normalize_reprocessing_payload payload state).1,
    ground (
      arith,
      skip-other (mark_or state.reprocessing (mark_of message)) name message.middleware marked full
          other,
      text_eq_refl settings.mode,
    ),
    ground arith,
  )

  handle-runs :
      (settings : Settings) (options : Options) (name : Text) (handler : Handler H B V)
      (message : Reprocessing H B V) (payload : Payload H (Body H B V)) (state : State V)
      → payload.body ≡ again message
      → name ≡ message.middleware
      → IsMarked message state
      → (ran : Ran H B V) × (run_of (handle settings options name handler payload state) ≡ some ran)
  unfolding handle
  handle-runs settings options name handler message payload state body same marked =
      let normal = normalize_reprocessing_payload payload state in
      let ran =
        handler normal.0
          (record (normal.1) { reprocessing = some (clear_middleware normal.1.reprocessing) }) in
      (
        ran,
        ground (
          arith,
          skip-same (mark_or state.reprocessing (mark_of message)) name
              (marked ∙ ap (λ n. some n) (sym same)),
          run_of-settle settings options name payload.fields ran,
        ),
      )

  from_marked :
      (settings : Settings) (options : Options) (before after : List (Text × Handler H B V))
      (name : Text) (handler : Handler H B V) (message : Reprocessing H B V)
      (payload : Payload H (Body H B V)) (state : State V)
      → settings.mode ≡ text "STOPPED_MIDDLEWARE"
      → payload.body ≡ again message
      → message.middleware ≢ []
      → name ≡ message.middleware
      → All (λ job. job.0 ≢ message.middleware) before
      → IsMarked message state
      → head? (handlers_run settings options (before ++ (name, handler) ∷ after) payload state)
        ≡ some message.middleware
  unfolding handlers_run
  from_marked settings options [] after name handler message payload state mode body full same
        others marked =
      let (ran, e) =
        handle-runs settings options name handler message payload state body same marked in
      ground (arith, e, same)
  from_marked settings options ((other, job) ∷ before) after name handler message payload state mode
        body full same others marked =
      let (state', e, marked') =
        handle-skips settings options other job message payload state mode body full others.0
          marked in
      ground (
        arith,
        e,
        from_marked settings options before after name handler message payload state' mode body full
            same others.1 marked',
      )

  -- A message that failed in one class and comes back, with the skipping of middlewares switched
  -- on, to a state that is not marked yet: the handlers of the classes before that one do not run,
  -- and the first handler to run is that of the class that failed.
  pub handlers_run-head :
      (settings : Settings) (options : Options) (before after : List (Text × Handler H B V))
      (name : Text) (handler : Handler H B V) (message : Reprocessing H B V)
      (payload : Payload H (Body H B V)) (state : State V)
      → settings.mode ≡ text "STOPPED_MIDDLEWARE"
      → payload.body ≡ again message
      → message.middleware ≢ []
      → name ≡ message.middleware
      → All (λ job. job.0 ≢ message.middleware) before
      → state.reprocessing ≡ none
      → head? (handlers_run settings options (before ++ (name, handler) ∷ after) payload state)
        ≡ some message.middleware
  handlers_run-head settings options before after name handler message payload state mode body full
        same others bare =
      from_marked settings options before after name handler message payload state mode body full
        same others (unfold mark_or mark_of in ground arith)
