-- ===== src/Web.antt =====
-- src/infra/http/util/web-server/web-server.ts: what a request comes to. The reply of the HTTP
-- library takes the first body that is sent and ignores any other; a middleware is a function from
-- the request and the reply to what one awaited call of it does. Left out are a middleware whose
-- promise never settles, which leaves the request without an answer if it has not called `next`, a
-- status code that the HTTP library refuses, and spans.
pub mod Answers
pub mod Server
pub mod Events
pub mod Lifecycle
mod Tests
use nodejs_template.Prelude.{
  Bool, true, false, not, ◌&&◌, ◌||◌, ◌==◌, ℕ, Option, none, some, List, [], ◌∷◌, map,
  if◌then◌else◌,
}
use nodejs_template.Text.{Text}
use nodejs_template.Value.{Value, Fields, end}
use nodejs_template.Keys.{
  convert_snake_case_keys_to_camel_case, convert_camel_case_keys_to_snake_case,
}
use nodejs_template.Flow.{Ran, Callback, Flow, Settled, resolved, rejected, make_flow}
use nodejs_template.Paths.{is_truthy}

-- What a middleware returns; a status code that is missing is 0.
pub record Response : Type 0 where
  pub status_code : ℕ
  pub body : Value
  pub headers : Option Fields

pub data Body (E : Type 0) : Type 0 where
  response_body : Value → Body E
  implementation_error : Body E
  bad_gateway : Body E
  server_error : E → Body E

pub record Reply (E : Type 0) : Type 0 where
  pub status : ℕ
  pub header_sets : List Fields
  pub sent : Option (ℕ × Body E)

-- `state` is what stands at `STATE_KEY`.
pub record Request : Type 0 where
  pub body : Value
  pub params : Value
  pub query : Value
  pub state : Option Fields

-- What a call of a middleware returns or throws.
pub data Outcome (E : Type 0) : Type 0 where
  returned : Option Response → Outcome E
  threw : E → Outcome E

-- `replied` is what it sends by the reply itself.
pub record Run (E : Type 0) : Type 0 where
  pub request_after : Request
  pub replied : List (ℕ × Value)
  pub next_was_called : Bool
  pub outcome : Outcome E

abbrev pub RouteMiddleware : Type 0 → Type 0
RouteMiddleware E = Request → Reply E → Run E

-- The payload of the flow: `REQUEST_KEY` with `STATE_KEY`, and `REPLY_KEY`.
pub record Payload (E : Type 0) : Type 0 where
  pub request : Request
  pub reply : Reply E

unfoldable pub normalize_request_casing : Request → Request
unfolding convert_snake_case_keys_to_camel_case
normalize_request_casing request = record request {
  body = convert_snake_case_keys_to_camel_case request.body;
  params = convert_snake_case_keys_to_camel_case request.params;
  query = convert_snake_case_keys_to_camel_case request.query;
}

-- `if (!request[STATE_KEY]) request[STATE_KEY] = {}`
unfoldable pub with_state : Option Fields → Option Fields
with_state none = some end
with_state (some fields) = some fields

module _ {E : Type 0} where
  unfoldable pub set_status : ℕ → Reply E → Reply E
  set_status code r = record r { status = code }

  unfoldable pub send : Body E → Reply E → Reply E
  send body r = elim r.sent [ none ↦ record r { sent = some (r.status, body) } | some answer ↦ r ]

  unfoldable pub set_headers : Option Fields → Reply E → Reply E
  set_headers none r = r
  set_headers (some fields) r = record r { header_sets = fields ∷ r.header_sets }

  unfoldable pub reply_all : List (ℕ × Value) → Reply E → Reply E
  unfolding set_status send
  reply_all [] r = r
  reply_all ((code, body) ∷ rest) r = reply_all rest (send (response_body body) (set_status code r))

  -- The end of the adapted middleware, after its call.
  unfoldable pub respond : Option Response → Reply E → Reply E
  unfolding set_status send set_headers is_truthy convert_camel_case_keys_to_snake_case
  respond none r = r
  respond (some response) r =
      let with_headers = set_headers response.headers r in
      if response.status_code == 0 || not (is_truthy response.body)
      then send implementation_error (set_status 500 with_headers)
      else send (response_body (convert_camel_case_keys_to_snake_case response.body))
          (set_status response.status_code with_headers)

  -- What the flow sees of an adapted middleware.
  unfoldable pub adapted : Outcome E → Run E → Payload E → Ran (Payload E) E
  unfolding respond reply_all
  adapted (returned response) run p = record {
    after = record {
      request = run.request_after;
      reply = respond response (reply_all run.replied p.reply);
    };
    next_was_called = run.next_was_called;
    thrown = none;
  }
  adapted (threw error) run p = record {
    after = record { request = run.request_after; reply = reply_all run.replied p.reply };
    next_was_called = run.next_was_called;
    thrown = some error;
  }

  unfoldable pub adapt_middleware : RouteMiddleware E → Callback (Payload E) E
  unfolding adapted
  adapt_middleware m p = let run = m p.request p.reply in adapted run.outcome run p

  unfoldable pub run_flow : List (RouteMiddleware E) → Request → Reply E → Flow (Payload E) E
  unfolding make_flow adapt_middleware normalize_request_casing with_state
  run_flow middlewares request reply =
      make_flow
        (record {
          request = normalize_request_casing (record request { state = with_state request.state });
          reply = reply;
        })
        (map adapt_middleware middlewares)

  -- What follows the awaited flow; a flow that never settles leaves the reply as it is.
  unfoldable pub after_hook : Option (Settled E) → Reply E → Reply E
  unfolding send set_status
  after_hook none r = r
  after_hook (some resolved) r = r
  after_hook (some (rejected error)) r = send (server_error error) (set_status 500 r)

  unfoldable pub after_route : Option (Settled E) → Reply E → Reply E
  unfolding send set_status
  after_route none r = r
  after_route (some resolved) r = elim r.sent [
    | some answer ↦ r
    | none ↦ send bad_gateway (set_status 502 r)
  ]
  after_route (some (rejected error)) r = send (server_error error) (set_status 500 r)

  unfoldable pub adapter_hook_with_flow : List (RouteMiddleware E) → Request → Reply E → Payload E
  unfolding run_flow after_hook
  adapter_hook_with_flow middlewares request reply =
      let flow = run_flow middlewares request reply in
      record flow.shared { reply = after_hook flow.settled flow.shared.reply }

  unfoldable pub adapter_with_flow : List (RouteMiddleware E) → Request → Reply E → Payload E
  unfolding run_flow after_route
  adapter_with_flow middlewares request reply =
      let flow = run_flow middlewares request reply in
      record flow.shared { reply = after_route flow.settled flow.shared.reply }
