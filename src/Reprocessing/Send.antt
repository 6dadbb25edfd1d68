-- ===== src/Reprocessing/Send.antt =====
-- src/data/usecases/mq/mq-send-reprocessing.ts: `MqSendReprocessing`. The publishing services and
-- the repository are outside, so that the call of one is the result. A delay that is not a number
-- or not there is `none`. Headers, bodies and the values of the state are of any type.
use nodejs_template.Prelude.{
  ℕ, zero, suc, ◌+◌, ◌-◌, ◌*◌, Option, none, some, List, [], ◌∷◌, ◌++◌, length, ltb, if◌then◌else◌,
}
use nodejs_template.Text.{Text}

pub record Tries : Type 0 where
  pub current : ℕ
  pub max : ℕ
  pub delays : List (Option ℕ)

-- `queueOptions`, and the `fields` of a message.
pub record QueueOptions : Type 0 where
  pub queue : Text
  pub exchange : Option Text
  pub routing_key : Option Text

pub record Payload (H B : Type 0) : Type 0 where
  pub headers : H
  pub body : B
  pub fields : QueueOptions

-- `state.reprocessing`: the fields of it that the code reads.
pub record Mark : Type 0 where
  pub middleware : Option Text
  pub tries : Option Tries

pub record State (V : Type 0) : Type 0 where
  pub reprocessing : Option Mark
  pub rest : List (Text × V)

-- The step and the total that an error may carry.
abbrev pub Progress : Type 0
Progress = Option ℕ × Option ℕ

-- `newPayload.reprocessing`
pub record Reprocessing (H B V : Type 0) : Type 0 where
  pub middleware : Text
  pub progress : Progress
  pub tries : Tries
  pub payload : Payload H B
  pub state : List (Text × V)

pub data Call (H B V : Type 0) : Type 0 where
  -- the queue, the message and the headers
  publish_in_queue : Text → Reprocessing H B V → H → Call H B V
  -- the exchange, the message, the routing key, the headers and `x-delay`
  publish_in_exchange : Text → Reprocessing H B V → Text → H → Option ℕ → Call H B V
  -- the exchange, the message, the routing key and the queue
  save : Option Text → Reprocessing H B V → Text → Text → Call H B V

-- `DELAYS[DELAYS.length - 1] * MINIMUM_DELAY_MULTIPLIER`
unfoldable pub double : Option ℕ → Option ℕ
double none = none
double (some delay) = some (delay * 2)

unfoldable pub last_delay : List (Option ℕ) → Option ℕ
last_delay [] = none
last_delay (d ∷ []) = d
last_delay (d ∷ e ∷ rest) = last_delay (e ∷ rest)

-- The rounds of the loop that are still to come.
unfoldable pub push_delays : ℕ → List (Option ℕ) → List (Option ℕ)
unfolding double last_delay
push_delays zero delays = delays
push_delays (suc missing) delays = push_delays missing (delays ++ double (last_delay delays) ∷ [])

-- The array is filled up to the number of tries.
unfoldable pub fill_delays : ℕ → List (Option ℕ) → List (Option ℕ)
unfolding push_delays
fill_delays max_tries delays = push_delays (max_tries - length delays) delays

-- An index past the end is `undefined`.
unfoldable pub delay_at : List (Option ℕ) → ℕ → Option ℕ
delay_at [] i = none
delay_at (d ∷ rest) zero = d
delay_at (d ∷ rest) (suc i) = delay_at rest i

-- `routingKey ?? ''`
unfoldable pub or_empty : Option Text → Text
or_empty none = []
or_empty (some t) = t

-- An empty text is false.
unfoldable pub exchange_of : Option Text → Option Text
exchange_of none = none
exchange_of (some []) = none
exchange_of (some (c ∷ t)) = some (c ∷ t)

-- `params.tries ?? { … }`
unfoldable pub tries_or : Option Tries → Tries → Tries
tries_or none initial = initial
tries_or (some tries) initial = tries

pub record Params (H B V : Type 0) : Type 0 where
  pub middleware : Text
  pub progress : Progress
  pub tries : Option Tries
  pub payload : Payload H B
  pub state : State V

module _ {H B V : Type 0} where
  -- Both pairs of publications.
  unfoldable pub publish : QueueOptions → Reprocessing H B V → Option ℕ → Call H B V
  unfolding exchange_of or_empty
  publish options message delay = elim (exchange_of options.exchange) [
    | none ↦ publish_in_queue options.queue message message.payload.headers
    | some exchange ↦
        publish_in_exchange exchange message (or_empty options.routing_key) message.payload.headers
          delay
  ]

  -- The part of `reprocess` behind `tries.current += TRIES_SCALE`; `newPayload` holds the object
  -- `tries` itself.
  unfoldable pub publish_or_save : QueueOptions → Reprocessing H B V → Call H B V
  unfolding publish delay_at or_empty
  publish_or_save options message =
      let tries = message.tries in
      if ltb tries.max tries.current
      then save options.exchange message (or_empty options.routing_key) options.queue
      else publish options message (delay_at tries.delays (tries.current - 1))

  unfoldable pub new_message : Params H B V → Tries → Reprocessing H B V
  new_message params tries = record {
    middleware = params.middleware;
    progress = params.progress;
    tries = tries;
    payload = params.payload;
    state = params.state.rest;
  }

  -- The call that is made; `none` is the TypeError where the state has no `reprocessing`.
  unfoldable pub send :
      QueueOptions → List (Option ℕ) → Params H B V → Tries → Option Mark → Option (Call H B V)
  unfolding publish publish_or_save new_message delay_at
  send options delays params tries none = none
  send options delays params tries (some mark) = elim mark.tries [
    | none ↦ some (publish options (new_message params tries) (delay_at delays 0))
    | some _ ↦ some (
        publish_or_save options (new_message params (record tries { current = tries.current + 1 })))
  ]

  -- `reprocess`: the array `delays` as it is afterwards, and the call.
  unfoldable pub reprocess :
      QueueOptions → ℕ → List (Option ℕ) → Params H B V → List (Option ℕ) × Option (Call H B V)
  unfolding send fill_delays tries_or
  reprocess options max_tries delays params =
      let filled = fill_delays max_tries delays in
      let initial : Tries = record { current = 1; max = max_tries; delays = filled } in
      (filled, send options filled params (tries_or params.tries initial) params.state.reprocessing)
