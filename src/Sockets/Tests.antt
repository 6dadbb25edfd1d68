-- ===== src/Sockets/Tests.antt =====
-- Messages and repeaters, and the theorems at concrete ones.
use nodejs_template.Prelude.{◌≡◌, refl, ℕ, true, false, none, some, List, [], ◌∷◌}
use nodejs_template.Text.{Text, text}
use nodejs_template.Value.{num, str, obj, end, field}
use nodejs_template.Keys.{set_field}
use nodejs_template.Sockets.{
  Socket, returned, threw, RouteMiddlewareSocket, handlers_get, register, receive,
}
use nodejs_template.Sockets.Messages.{serve_socket, arriving, receive-register}
use nodejs_template.Sockets.Repeater.{
  RepeaterEvent, each_passed, flow_resolved, timeout_passed, use_timed_repeater, repeater_step,
  run_repeater, run_repeater-timeout,
}

abbrev fresh : Socket
fresh = record { emitted = []; connected = true }

abbrev pong : RouteMiddlewareSocket ℕ
pong request = record {
  request_after = request;
  next_was_called = true;
  outcome = returned (
      some (record {
        status_code = num (text "200");
        payload = field (text "body") (str (text "pong")) end;
        close = false;
      }));
}

abbrev failing : RouteMiddlewareSocket ℕ
failing request = record { request_after = request; next_was_called = false; outcome = threw 3 }

-- The second registration of `ping` is ignored.
abbrev calls : List (Text × List (RouteMiddlewareSocket ℕ))
calls = (text "ping", pong ∷ failing ∷ []) ∷ (text "ping", failing ∷ []) ∷ []

answered : receive (register calls []) (text "ping") (obj end) fresh ≡ record {
  emitted =
      (
        text "ping",
        obj (
            field
              (text "http_status_code")
              (num (text "200"))
              (field (text "body") (str (text "pong")) end)),
      )
      ∷ [];
  connected = false;
}
unfolding receive register set_field
answered = refl

receive-register_example :
    receive (register calls []) (text "ping") (obj end) fresh
    ≡ elim (handlers_get calls (text "ping")) as (λ o. Socket) [
      | none ↦ fresh
      | some middlewares ↦ serve_socket (text "ping") (arriving (obj end) fresh) middlewares
    ]
receive-register_example = receive-register calls (text "ping") (obj end) fresh

abbrev before : List RepeaterEvent
before = each_passed ∷ flow_resolved ∷ each_passed ∷ []

abbrev after : List RepeaterEvent
after = flow_resolved ∷ each_passed ∷ timeout_passed ∷ []

run_repeater-timeout_example :
    let s = repeater_step timeout_passed (run_repeater before (use_timed_repeater false)) in
    ((run_repeater after s).finish_calls ≡ 1) × ((run_repeater after s).started ≡ s.started)
run_repeater-timeout_example = run_repeater-timeout false before after

twice_started : (run_repeater before (use_timed_repeater false)).started ≡ 2
unfolding run_repeater use_timed_repeater
twice_started = refl
