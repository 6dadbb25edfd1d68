-- ===== src/Reprocessing/Restore.antt =====
-- A message that failed, when it comes back.
use nodejs_template.Prelude.{
  ℕ, ◌≡◌, refl, Option, none, some, List, [], ◌∷◌, map_get, map_set, arith,
}
use nodejs_template.Text.{Text, text_eq}
use nodejs_template.Text.Equality.{text_eq_iff, map_get-map_set}
use nodejs_template.Reprocessing.Send.{
  QueueOptions, Payload, State, Reprocessing, Call, publish_in_queue, publish_in_exchange, save,
  send, reprocess,
}
use nodejs_template.Reprocessing.Decorator.{
  Body, again, Ran, Settings, Options, resent, override_state, normalize_reprocessing_payload,
  settle,
}

-- No key stands twice, as in an object.
abbrev pub Distinct : {V : Type 0} → List (Text × V) → Type 0
Distinct [] = Unit
Distinct ((key, value) ∷ rest) = (map_get text_eq rest key ≡ none) × Distinct rest

abbrev pub first_some {ℓ} : {A : Type ℓ} → Option A → Option A → Option A
first_some (some a) other = some a
first_some none other = other

map_get-override_state :
    {V : Type 0} (state entries : List (Text × V)) (j : Text)
    → Distinct entries
    → map_get text_eq (override_state state entries) j
      ≡ first_some (map_get text_eq entries j) (map_get text_eq state j)
unfolding override_state
map_get-override_state state [] j h = refl
map_get-override_state state ((key, value) ∷ rest) j h = ground (
  arith,
  map_get-override_state (map_set text_eq state key value) rest j h.1,
  map_get-map_set state key j value,
  text_eq_iff key j,
)

module _ {H B V : Type 0} where
  -- The message of a call.
  abbrev pub message_of : Call H B V → Reprocessing H B V
  message_of (publish_in_queue queue message headers) = message
  message_of (publish_in_exchange exchange message routing_key headers delay) = message
  message_of (save exchange message routing_key queue) = message

  -- `ran` is the run that failed, and `normal` what the next job is given.
  pub record Restores (ran : Ran H B V) (state : State V) (normal : Payload H B × State V)
      : Type 0 where
    pub headers : normal.0.headers ≡ ran.payload.headers
    pub body : normal.0.body ≡ ran.payload.body
    pub entries :
        (key : Text)
        → map_get text_eq normal.1.rest key
          ≡ first_some (map_get text_eq ran.state.rest key) (map_get text_eq state.rest key)

  abbrev Carries : Ran H B V → Reprocessing H B V → Type 0
  Carries ran m =
      (m.payload.headers ≡ ran.payload.headers)
      × (m.payload.body ≡ ran.payload.body)
      × (m.state ≡ ran.state.rest)

  settle-Carries :
      (settings : Settings) (options : Options) (name : Text) (fields : QueueOptions)
      (ran : Ran H B V) (delays : List (Option ℕ)) (call : Call H B V)
      → settle settings options name fields ran ≡ resent ran (delays, some call)
      → Carries ran (message_of call)
  unfolding settle reprocess send
  settle-Carries settings options name fields ran delays call h = ground arith

  -- A message that is published or saved after a failure restores it when it comes back: whatever
  -- the state is at that time, the next job is given the headers and the body of the run that
  -- failed, and every key that the state had then has its old value, while the other keys keep
  -- theirs.
  pub settle-Restores :
      (settings : Settings) (options : Options) (name : Text) (fields : QueueOptions)
      (ran : Ran H B V) (delays : List (Option ℕ)) (call : Call H B V)
      (back : Payload H (Body H B V)) (state : State V)
      → settle settings options name fields ran ≡ resent ran (delays, some call)
      → back.body ≡ again (message_of call)
      → Distinct ran.state.rest
      → Restores ran state (normalize_reprocessing_payload back state)
  unfolding normalize_reprocessing_payload
  settle-Restores settings options name fields ran delays call back state h e d =
      let (headers, body, entries) =
        settle-Carries settings options name fields ran delays call h in
      rw e (record {
        headers = headers;
        body = body;
        entries = λ key. rw entries (map_get-override_state state.rest ran.state.rest key d);
      })
