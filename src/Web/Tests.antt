-- ===== src/Web/Tests.antt =====
-- Requests and starts, and the theorems at concrete ones.
use nodejs_template.Prelude.{
  ◌≡◌, ◌≢◌, ◌≤◌, ◌<◌, ◌+◌, refl, ℕ, true, false, none, some, [], ◌∷◌, length, arith,
}
use nodejs_template.Text.{text}
use nodejs_template.Value.{str, obj, end, field}
use nodejs_template.Keys.{set_field}
use nodejs_template.Web.{
  Body, response_body, bad_gateway, server_error, Reply, Request, returned, threw, RouteMiddleware,
  adapter_with_flow,
}
use nodejs_template.Web.Answers.{serve, prepared, adapter_with_flow-serve}
use nodejs_template.Web.Server.{
  get, Bootstrap, waiting_for_routes, listening, WebServer, Route, is_ws,
}
use nodejs_template.Web.Events.{
  called_listen, called_routes_directory, directory_loaded, checked, became_ready, called_refresh,
  closed, run_events, new_web_server,
}
use nodejs_template.Web.Lifecycle.{run_events-bootstraps, run_events-directories}

abbrev request : Request
request = record {
  body = obj (field (text "first_name") (str (text "a")) end);
  params = obj end;
  query = obj end;
  state = none;
}

abbrev fresh : Reply ℕ
fresh = record { status = 200; header_sets = []; sent = none }

-- Goes on.
abbrev passes : RouteMiddleware ℕ
passes request reply = record {
  request_after = request;
  replied = [];
  next_was_called = true;
  outcome = returned none;
}

-- Answers with the body of the request.
abbrev answers : RouteMiddleware ℕ
answers request reply = record {
  request_after = request;
  replied = [];
  next_was_called = true;
  outcome = returned (some (record { status_code = 201; body = request.body; headers = none }));
}

abbrev throws : RouteMiddleware ℕ
throws request reply = record {
  request_after = request;
  replied = [];
  next_was_called = false;
  outcome = threw 7;
}

answered :
    (adapter_with_flow (passes ∷ answers ∷ []) request fresh).reply.sent
    ≡ some (201, response_body (obj (field (text "first_name") (str (text "a")) end)))
unfolding adapter_with_flow set_field
answered = refl

no_answer : (adapter_with_flow (passes ∷ []) request fresh).reply.sent ≡ some (502, bad_gateway)
unfolding adapter_with_flow
no_answer = refl

an_error :
    (adapter_with_flow (passes ∷ throws ∷ []) request fresh).reply.sent ≡ some (500, server_error 7)
unfolding adapter_with_flow
an_error = refl

abbrev body_sent : Body ℕ
body_sent = response_body (obj (field (text "first_name") (str (text "a")) end))

adapter_with_flow-serve_example :
    (adapter_with_flow (passes ∷ answers ∷ []) request fresh).reply
    ≡ serve (prepared request fresh) (passes ∷ answers ∷ [])
adapter_with_flow-serve_example = adapter_with_flow-serve (passes ∷ answers ∷ []) request fresh

body_sent-ne : body_sent ≢ bad_gateway
body_sent-ne = ground arith

run_events-bootstraps_example :
    length
      (run_events
        (called_listen (some 3000) none ∷ called_refresh ∷ closed ∷ [])
        new_web_server).bootstraps
    ≤ 1
      + (run_events
          (called_listen (some 3000) none ∷ called_refresh ∷ closed ∷ [])
          new_web_server).refreshes
run_events-bootstraps_example =
    run_events-bootstraps (called_listen (some 3000) none ∷ called_refresh ∷ closed ∷ [])

abbrev waiting : Bootstrap
waiting = record { port = 3000; callback = none; phase = waiting_for_routes }

abbrev started : WebServer
started = record new_web_server { is_started = true; bootstraps = waiting ∷ [] }

run_events-directories_example :
    let s' =
      run_events
        (called_routes_directory
          ∷ called_routes_directory
          ∷ directory_loaded
          ∷ checked 0
          ∷ became_ready 0
          ∷ [])
        started in
    (s'.bootstraps ≡ record waiting { phase = listening } ∷ []) × (0 < s'.directories)
run_events-directories_example = run_events-directories started waiting [] refl refl

abbrev route : Route
route = record { base_path = text "/api"; path = []; callbacks = [] }

get-is_ws : is_ws get ≡ false
unfolding is_ws
get-is_ws = refl

base-ne : route.base_path ≢ []
base-ne = ground arith
