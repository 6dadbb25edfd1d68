-- ===== src/Web/Events.antt =====
-- src/infra/http/util/web-server/web-server.ts: the server from its start to its port, as a machine
-- whose events are the calls of its methods and what its environment does: the timers, the HTTP
-- library, the files of a directory of routes. A port that is no number is `none`.
use nodejs_template.Prelude.{
  Bool, true, false, ℕ, zero, suc, ◌+◌, ◌-◌, Option, none, some, List, [], ◌∷◌, ◌++◌, if◌then◌else◌,
}
use nodejs_template.Text.{Text}
use nodejs_template.Web.Server.{
  Route, Phase, scheduled, waiting_for_routes, timed_out, getting_ready, listening, Bootstrap,
  Exceptions, invalid_port_value, WebServer, run_callbacks, refresh_endpoints,
}

unfoldable pub schedule : ℕ → Option ℕ → WebServer → WebServer
schedule port callback s = record s {
  listener_options = some (port, callback);
  bootstraps =
      s.bootstraps ++ (record { port = port; callback = callback; phase = scheduled }) ∷ [];
}

unfoldable pub listen : Option ℕ → Option ℕ → WebServer → WebServer × Option Exceptions
unfolding schedule
listen none callback s = (s, some invalid_port_value)
listen (some port) callback s =
    if s.is_started
    then (s, none)
    else (schedule port callback (record s { is_started = true }), none)

-- `listenAsync` up to its `await`, and from there.
unfoldable pub listen_async : Option ℕ → Option ℕ → WebServer → WebServer × Option Exceptions
listen_async none callback s = (s, some invalid_port_value)
listen_async (some port) callback s =
    if s.is_started
    then (s, none)
    else (record s { is_started = true; starting = s.starting ++ (port, callback) ∷ [] }, none)

-- Whether every startup callback of the first call that awaits them succeeded.
unfoldable pub startup_ended : Bool → WebServer → WebServer
unfolding schedule
startup_ended succeeded s = elim s.starting [
  | [] ↦ s
  | (port, callback) ∷ rest ↦
      let left = record s { starting = rest } in
      if succeeded then schedule port callback left else left
]

-- What becomes of the bootstraps at an event of theirs.
unfoldable pub at_index : (Phase → Phase) → ℕ → List Bootstrap → List Bootstrap
at_index f i [] = []
at_index f zero (b ∷ bs) = record b { phase = f b.phase } ∷ bs
at_index f (suc i) (b ∷ bs) = b ∷ at_index f i bs

-- `setImmediate` calls the bootstrap.
unfoldable pub begin : Phase → Phase
begin scheduled = waiting_for_routes
begin phase = phase

-- The interval, every 100 ms.
unfoldable pub check : Bool → Phase → Phase
check loading waiting_for_routes = if loading then waiting_for_routes else getting_ready
check loading phase = phase

-- The timeout, after 30 s.
unfoldable pub time_out : Phase → Phase
time_out waiting_for_routes = timed_out
time_out phase = phase

-- `fastify.ready` calls back, and the port is listened on.
unfoldable pub get_ready : Phase → Phase
get_ready getting_ready = listening
get_ready phase = phase

unfoldable pub refresh : WebServer → WebServer
unfolding refresh_endpoints
refresh s =
    if s.is_started
    then record s {
      registered = s.registered ++ refresh_endpoints s.endpoints;
      closing_servers = s.closing_servers + 1;
      refreshes = s.refreshes + 1;
    }
    else s

-- The callback of `server.close`; without listener options it throws.
unfoldable pub server_closed : WebServer → WebServer
unfolding listen
server_closed s = elim s.closing_servers [
  | zero ↦ s
  | suc n ↦
      let stopped = record s { closing_servers = n; is_started = false } in
      elim s.listener_options [
        | none ↦ stopped
        | some (port, callback) ↦ (listen (some port) callback stopped).0
      ]
]

unfoldable pub set_base_url : Text → WebServer → WebServer
set_base_url url s = if s.is_started then s else record s { base_url = url }

unfoldable pub on_start : List ℕ → WebServer → WebServer
on_start callbacks s = record s { startup_callbacks = callbacks }

-- `routesDirectory` up to its `await`, and its end, with the callbacks that the files added.
unfoldable pub directory_begins : WebServer → WebServer
directory_begins s = record s { is_loading_routes = true; directories = s.directories + 1 }

unfoldable pub directory_ends : WebServer → WebServer
directory_ends s = record s { is_loading_routes = false; directories = s.directories - 1 }

pub data ServerEvent : Type 0 where
  called_listen : Option ℕ → Option ℕ → ServerEvent
  called_listen_async : Option ℕ → Option ℕ → ServerEvent
  startup_settled : Bool → ServerEvent
  began : ℕ → ServerEvent
  checked : ℕ → ServerEvent
  timeout_passed : ℕ → ServerEvent
  became_ready : ℕ → ServerEvent
  called_refresh : ServerEvent
  closed : ServerEvent
  called_set_base_url : Text → ServerEvent
  called_on_start : List ℕ → ServerEvent
  called_routes_directory : ServerEvent
  directory_loaded : ServerEvent
  plugin_runs : Route → ServerEvent

unfoldable pub step : ServerEvent → WebServer → WebServer
unfolding listen listen_async startup_ended at_index begin check time_out get_ready refresh
    server_closed set_base_url on_start directory_begins directory_ends run_callbacks
step (called_listen port callback) s = (listen port callback s).0
step (called_listen_async port callback) s = (listen_async port callback s).0
step (startup_settled succeeded) s = startup_ended succeeded s
step (began i) s = record s { bootstraps = at_index begin i s.bootstraps }
step (checked i) s = record s { bootstraps = at_index (check s.is_loading_routes) i s.bootstraps }
step (timeout_passed i) s = record s { bootstraps = at_index time_out i s.bootstraps }
step (became_ready i) s = record s { bootstraps = at_index get_ready i s.bootstraps }
step called_refresh s = refresh s
step closed s = server_closed s
step (called_set_base_url url) s = set_base_url url s
step (called_on_start callbacks) s = on_start callbacks s
step called_routes_directory s = directory_begins s
step directory_loaded s = directory_ends s
step (plugin_runs route) s = run_callbacks route route.callbacks s

unfoldable pub run_events : List ServerEvent → WebServer → WebServer
unfolding step
run_events [] s = s
run_events (event ∷ events) s = run_events events (step event s)

unfoldable pub new_web_server : WebServer
new_web_server = record {
  endpoints = [];
  registered = [];
  hooks = [];
  is_loading_routes = false;
  listener_options = none;
  base_url = [];
  startup_callbacks = [];
  is_started = false;
  bootstraps = [];
  starting = [];
  directories = 0;
  closing_servers = 0;
  refreshes = 0;
}
