-- ===== src/Reprocessing/Decorator.antt =====
-- src/job/util/reprocessing.ts and src/job/util/override-state.ts: the decorator of a job's
-- handler. Its two variants differ in waiting for the handler alone, so that one definition models
-- both; a promise that a handler which is not async returns is not followed.
use nodejs_template.Prelude.{
  ℕ, Bool, false, not, ◌&&◌, ◌||◌, Option, none, some, List, [], ◌∷◌, map_set, if◌then◌else◌,
}
use nodejs_template.Text.{Text, text, text_eq}
use nodejs_template.Reprocessing.Send.{
  QueueOptions, Payload, Mark, State, Progress, Reprocessing, Call, reprocess,
}

-- A body is the producer's own, or that of a message that failed before.
pub data Body (H B V : Type 0) : Type 0 where
  plain : B → Body H B V
  again : Reprocessing H B V → Body H B V

-- What a run of the original handler leaves: the payload and the state that it mutated, whether it
-- called `next`, and the error that it threw.
pub record Ran (H B V : Type 0) : Type 0 where
  pub payload : Payload H B
  pub state : State V
  pub next_was_called : Bool
  pub thrown : Option Progress

abbrev pub Handler : Type 0 → Type 0 → Type 0 → Type 0
Handler H B V = Payload H B → State V → Ran H B V

-- `REPROCESSING` of src/util/constants/environment.ts
pub record Settings : Type 0 where
  pub enabled : Bool
  pub max_tries : ℕ
  pub delays : List (Option ℕ)
  pub mode : Text

-- The options of the decorator; `queue_options` has an exchange and perhaps a routing key.
pub record Options : Type 0 where
  pub max_tries : Option ℕ
  pub delays : Option (List (Option ℕ))
  pub normalize_only : Bool
  pub queue_options : Option (Text × Option Text)

pub data Handled (H B V : Type 0) : Type 0 where
  -- `next` is called in place of the handler
  skipped : State V → Handled H B V
  returned : Ran H B V → Handled H B V
  -- the error is dropped
  swallowed : Ran H B V → Handled H B V
  -- `reprocess` was called: the array of delays and the call
  resent : Ran H B V → List (Option ℕ) × Option (Call H B V) → Handled H B V

unfoldable pub or_default {ℓ} : {A : Type ℓ} → Option A → A → A
or_default none default = default
or_default (some value) default = value

-- `state[key] = data[key]` for each key of `data`.
unfoldable pub override_state : {V : Type 0} → List (Text × V) → List (Text × V) → List (Text × V)
override_state state [] = state
override_state state ((key, value) ∷ rest) = override_state (map_set text_eq state key value) rest

unfoldable pub skip_middleware : Option Mark → Text → Bool
skip_middleware none name = false
skip_middleware (some mark) name = elim mark.middleware [
  | none ↦ false
  | some middleware ↦ not (text_eq middleware []) && not (text_eq middleware name)
]

-- `{ ...state.reprocessing, middleware: null }`
unfoldable pub clear_middleware : Option Mark → Mark
clear_middleware none = record { middleware = none; tries = none }
clear_middleware (some mark) = record mark { middleware = none }

unfoldable pub queue_options_of : Options → QueueOptions → QueueOptions
queue_options_of options fields = elim options.queue_options [
  | none ↦ fields
  | some (exchange, routing_key) ↦ record {
    queue = fields.queue;
    exchange = some exchange;
    routing_key = routing_key;
  }
]

-- A mark that is there is kept.
unfoldable pub mark_or : Option Mark → Mark → Mark
mark_or none mark = mark
mark_or (some held) mark = held

module _ {H B V : Type 0} where
  -- `payload.body.reprocessing` becomes `state.reprocessing`.
  unfoldable pub mark_of : Reprocessing H B V → Mark
  mark_of message = record { middleware = some message.middleware; tries = some message.tries }

  unfoldable pub normalize_reprocessing_payload :
      Payload H (Body H B V) → State V → Payload H B × State V
  unfolding mark_of mark_or override_state
  normalize_reprocessing_payload payload state = elim payload.body [
    | plain body ↦
        (record { headers = payload.headers; body = body; fields = payload.fields }, state)
    | again message ↦ (
      record {
        headers = message.payload.headers;
        body = message.payload.body;
        fields = payload.fields;
      },
      record {
        reprocessing = some (mark_or state.reprocessing (mark_of message));
        rest = override_state state.rest message.state;
      },
    )
  ]

  -- The end of the handler, and the `catch`; the fields are those that the message came with.
  unfoldable pub settle : Settings → Options → Text → QueueOptions → Ran H B V → Handled H B V
  unfolding reprocess queue_options_of or_default
  settle settings options name fields ran = elim ran.thrown [
    | none ↦ returned ran
    | some progress ↦
        if not settings.enabled || options.normalize_only
        then swallowed ran
        else resent ran (
            reprocess (queue_options_of options fields)
              (or_default options.max_tries settings.max_tries)
              (or_default options.delays settings.delays)
              (record {
                middleware = name;
                progress = progress;
                tries = elim ran.state.reprocessing [ none ↦ none | some mark ↦ mark.tries ];
                payload = ran.payload;
                state = ran.state;
              }))
  ]

  -- The decorated handler of the class `name`.
  unfoldable pub handle :
      Settings → Options → Text → Handler H B V → Payload H (Body H B V) → State V → Handled H B V
  unfolding normalize_reprocessing_payload skip_middleware clear_middleware settle
  handle settings options name handler payload state =
      let (payload', state') = normalize_reprocessing_payload payload state in
      if skip_middleware state'.reprocessing name
        && text_eq settings.mode (text "STOPPED_MIDDLEWARE")
      then skipped state'
      else settle settings options name payload.fields (
          handler payload'
            (record state' { reprocessing = some (clear_middleware state'.reprocessing) }))
