-- ===== src/Sockets.antt =====
-- src/infra/http/util/websocket-server/websocket-server.ts with socket-handler.ts: which
-- middlewares an event of a socket has, and what a message of a client comes to. A handler is a
-- function from the request and its state to what one awaited call of it does; the two symbols beside
-- the fields of the request are left out.
pub mod Messages
pub mod Repeater
mod Tests
use nodejs_template.Prelude.{
  Bool, true, false, Option, none, some, List, [], ◌∷◌, ◌++◌, map, if◌then◌else◌,
}
use nodejs_template.Text.{Text, text, text_eq}
use nodejs_template.Value.{Value, str, arr, obj, Items, nil, cons, Fields, end, field}
use nodejs_template.Modify.{item_fields}
use nodejs_template.Keys.{
  set_field, convert_snake_case_keys_to_camel_case, convert_camel_case_keys_to_snake_case,
}
use nodejs_template.Flow.{Ran, Callback, Flow, Settled, resolved, rejected, make_flow}

-- The response without its `options`, whose `close` is here; `data` are its other fields.
pub record SocketResponse : Type 0 where
  pub status_code : Value
  pub payload : Fields
  pub close : Bool

pub data SocketOutcome (E : Type 0) : Type 0 where
  returned : Option SocketResponse → SocketOutcome E
  threw : E → SocketOutcome E

-- The calls of `emit`, whether or not the client is still there, and whether it is connected.
pub record Socket : Type 0 where
  pub emitted : List (Text × Value)
  pub connected : Bool

pub record SocketRequest : Type 0 where
  pub request : Value
  pub state : Fields

-- The socket that the middleware itself leaves is not here: it answers by its response.
pub record SocketRun (E : Type 0) : Type 0 where
  pub request_after : SocketRequest
  pub next_was_called : Bool
  pub outcome : SocketOutcome E

abbrev pub RouteMiddlewareSocket : Type 0 → Type 0
RouteMiddlewareSocket E = SocketRequest → SocketRun E

pub record SocketPayload : Type 0 where
  pub given : SocketRequest
  pub socket : Socket

-- `SocketHandler`: the map of callbacks; a method that has one keeps it.
module _ {E : Type 0} where
  unfoldable pub handlers_get :
      List (Text × List (RouteMiddlewareSocket E)) → Text → Option (List (RouteMiddlewareSocket E))
  handlers_get [] method = none
  handlers_get ((m, middlewares) ∷ rest) method =
      let others = handlers_get rest method in if text_eq m method then some middlewares else others

  unfoldable pub set_socket_handlers_callbacks :
      Text
      → List (RouteMiddlewareSocket E)
      → List (Text × List (RouteMiddlewareSocket E))
      → List (Text × List (RouteMiddlewareSocket E))
  unfolding handlers_get
  set_socket_handlers_callbacks method middlewares handlers = elim (handlers_get handlers method) [
    | none ↦ handlers ++ (method, middlewares) ∷ []
    | some there ↦ handlers
  ]

  -- Calls of `on`, `open`, `message` and the others, in order.
  unfoldable pub register :
      List (Text × List (RouteMiddlewareSocket E))
      → List (Text × List (RouteMiddlewareSocket E))
      → List (Text × List (RouteMiddlewareSocket E))
  unfolding set_socket_handlers_callbacks
  register [] handlers = handlers
  register ((method, middlewares) ∷ calls) handlers =
      register calls (set_socket_handlers_callbacks method middlewares handlers)

-- `{ ...built, ...fields }`
unfoldable pub spread : Fields → Fields → Fields
unfolding set_field
spread built end = built
spread built (field key value rest) = spread (set_field key value built) rest

unfoldable pub disconnect : Socket → Socket
disconnect socket = record socket { connected = false }

unfoldable pub message_of : SocketResponse → Value
unfolding spread convert_camel_case_keys_to_snake_case
message_of response =
    convert_camel_case_keys_to_snake_case
      (obj (spread (field (text "httpStatusCode") response.status_code end) response.payload))

unfoldable pub respond_socket : Text → Option SocketResponse → Socket → Socket
unfolding message_of disconnect
respond_socket method none socket = socket
respond_socket method (some response) socket =
    let told = record socket { emitted = socket.emitted ++ (method, message_of response) ∷ [] } in
    if response.close then disconnect told else told

unfoldable pub units : Text → Items
units [] = nil
units (c ∷ s) = cons (str (c ∷ [])) (units s)

-- `{ ...value }`: the fields of an object, the items of an array and the units of a text by their
-- positions, and nothing of any other value.
unfoldable pub spread_value : Value → Fields
unfolding item_fields units
spread_value (obj fields) = fields
spread_value (arr items) = item_fields 0 items
spread_value (str s) = item_fields 0 (units s)
spread_value value = end

module _ {E : Type 0} where
  unfoldable pub after_outcome :
      Text → SocketOutcome E → SocketRun E → SocketPayload → Ran SocketPayload E
  unfolding respond_socket
  after_outcome method (returned response) run p = record {
    after = record { given = run.request_after; socket = respond_socket method response p.socket };
    next_was_called = run.next_was_called;
    thrown = none;
  }
  after_outcome method (threw error) run p = record {
    after = record { given = run.request_after; socket = p.socket };
    next_was_called = run.next_was_called;
    thrown = some error;
  }

  unfoldable pub socket_adapter : Text → RouteMiddlewareSocket E → Callback SocketPayload E
  unfolding after_outcome
  socket_adapter method middleware p =
      let run = middleware p.given in after_outcome method run.outcome run p

  -- The `catch` around the flow.
  unfoldable pub after_flow : Option (Settled E) → Socket → Socket
  unfolding disconnect
  after_flow (some (rejected error)) socket = disconnect socket
  after_flow how socket = socket

  unfoldable pub on_message : Text → List (RouteMiddlewareSocket E) → Value → Socket → Socket
  unfolding make_flow socket_adapter after_flow spread_value convert_snake_case_keys_to_camel_case
  on_message method middlewares request socket =
      let flow =
        make_flow
          (record {
            given = record {
              request = obj (spread_value (convert_snake_case_keys_to_camel_case request));
              state = end;
            };
            socket = socket;
          })
          (map (socket_adapter method) middlewares) in
      after_flow flow.settled flow.shared.socket

  -- A message of a client; an event without a handler is not listened to.
  unfoldable pub receive :
      List (Text × List (RouteMiddlewareSocket E)) → Text → Value → Socket → Socket
  unfolding handlers_get on_message
  receive handlers method request socket = elim (handlers_get handlers method) [
    | none ↦ socket
    | some middlewares ↦ on_message method middlewares request socket
  ]
