-- ===== src/Sockets/Messages.antt =====
-- A message against the middlewares of its event, one after the other.
use nodejs_template.Prelude.{
  inl, inr, Option-cases, ◌≡◌, refl, Option, none, some, List, [], ◌∷◌, ◌++◌, map, arith,
  if◌then◌else◌,
}
use nodejs_template.Text.{Text, text_eq}
use nodejs_template.Text.Equality.{text_eq_iff}
use nodejs_template.Value.{Value, obj, end}
use nodejs_template.Keys.{convert_snake_case_keys_to_camel_case}
use nodejs_template.Flow.Reference.{chain, make_flow-chain}
use nodejs_template.Sockets.{
  Socket, spread_value, returned, threw, SocketPayload, RouteMiddlewareSocket, handlers_get,
  set_socket_handlers_callbacks, register, disconnect, after_outcome, socket_adapter, after_flow,
  on_message, receive,
}

abbrev pub arriving : Value → Socket → SocketPayload
arriving request socket = record {
  given = record {
    request = obj (spread_value (convert_snake_case_keys_to_camel_case request));
    state = end;
  };
  socket = socket;
}

module _ {E : Type 0} where
  -- The socket behind the middlewares: each response is emitted under the method, and an error
  -- disconnects the client.
  pub serve_socket : Text → SocketPayload → List (RouteMiddlewareSocket E) → Socket
  serve_socket method p [] = p.socket
  serve_socket method p (m ∷ ms) =
      let run = m p.given in
      let after = (after_outcome method run.outcome run p).after in
      let rest = serve_socket method after ms in
      elim run.outcome [
        | threw error ↦ disconnect p.socket
        | returned response ↦ if run.next_was_called then rest else after.socket
      ]

  serve_socket-chain :
      (method : Text) (p : SocketPayload) (ms : List (RouteMiddlewareSocket E))
      → let (d, how) = chain p (map (socket_adapter method) ms) in
        after_flow (some how) d.socket ≡ serve_socket method p ms
  unfolding chain serve_socket after_flow socket_adapter after_outcome
  serve_socket-chain method p [] = refl
  serve_socket-chain method p (m ∷ ms) =
      ground (arith, serve_socket-chain method (socket_adapter method m p).after ms)

  handlers_get-concat :
      (handlers : List (Text × List (RouteMiddlewareSocket E))) (key method : Text)
      (middlewares : List (RouteMiddlewareSocket E))
      → handlers_get (handlers ++ (key, middlewares) ∷ []) method
        ≡ elim (handlers_get handlers method) as (λ o. Option (List (RouteMiddlewareSocket E))) [
          | none ↦ (if text_eq key method then some middlewares else none)
          | some there ↦ some there
        ]
  unfolding handlers_get
  handlers_get-concat [] key method middlewares = ground arith
  handlers_get-concat ((k, ms) ∷ rest) key method middlewares =
      ground (arith, handlers_get-concat rest key method middlewares)

  handlers_get-register_onto :
      (calls handlers : List (Text × List (RouteMiddlewareSocket E))) (method : Text)
      → handlers_get (register calls handlers) method
        ≡ elim (handlers_get handlers method) as (λ o. Option (List (RouteMiddlewareSocket E))) [
          | none ↦ handlers_get calls method
          | some there ↦ some there
        ]
  unfolding register handlers_get set_socket_handlers_callbacks
  handlers_get-register_onto [] handlers method = ground arith
  handlers_get-register_onto ((key, ms) ∷ calls) handlers method = ground (
    arith,
    handlers_get-register_onto calls (set_socket_handlers_callbacks key ms handlers) method,
    handlers_get-concat handlers key method ms,
    text_eq_iff key method,
  )

  handlers_get-register :
      (calls : List (Text × List (RouteMiddlewareSocket E))) (method : Text)
      → handlers_get (register calls []) method ≡ handlers_get calls method
  unfolding handlers_get
  handlers_get-register calls method = handlers_get-register_onto calls [] method

  on_message-serve_socket :
      (method : Text) (ms : List (RouteMiddlewareSocket E)) (request : Value) (socket : Socket)
      → on_message method ms request socket ≡ serve_socket method (arriving request socket) ms
  unfolding on_message
  on_message-serve_socket method ms request socket =
      let (shared, how) =
        make_flow-chain (arriving request socket) (map (socket_adapter method) ms) in
      rw (shared, how) (serve_socket-chain method (arriving request socket) ms)

  -- An event has the middlewares of its first registration, and any later one is ignored; a message
  -- of it runs those in order, emits each response under the name of the event, and disconnects the
  -- client where one throws.
  pub receive-register :
      (calls : List (Text × List (RouteMiddlewareSocket E))) (method : Text) (request : Value)
      (socket : Socket)
      → receive (register calls []) method request socket
        ≡ elim (handlers_get calls method) as (λ o. Socket) [
          | none ↦ socket
          | some middlewares ↦ serve_socket method (arriving request socket) middlewares
        ]
  unfolding receive
  receive-register calls method request socket =
      let e = handlers_get-register calls method in
      elim (Option-cases (handlers_get calls method)) [
        | inl f ↦ ground (arith, e, f)
        | inr (ms, f) ↦ ground (arith, e, f, on_message-serve_socket method ms request socket)
      ]
