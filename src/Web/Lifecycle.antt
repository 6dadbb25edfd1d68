-- ===== src/Web/Lifecycle.antt =====
-- How often the server starts, what a started server may miss, and where refreshed routes are.
use nodejs_template.Prelude.{
  ◌≡◌, ◌≢◌, ◌≤◌, ◌<◌, refl, ap, Bool, true, false, ℕ, zero, suc, ◌+◌, Option, none, some, List, [],
  ◌∷◌, ◌++◌, length, length-append, arith, if◌then◌else◌, Option-cases, inl, inr,
}
use nodejs_template.Text.{Text}
use nodejs_template.Web.Server.{
  Method, Registered, is_ws, refresh_endpoints, waiting_for_routes, listening, Route, Phase,
  scheduled, Bootstrap, WebServer, RouteCallback, hook, handle, run_callback, run_callbacks,
  save_endpoint, get_full_path_route,
}
use nodejs_template.Web.Events.{
  at_index, begin, check, time_out, get_ready, ServerEvent, schedule, listen, listen_async,
  startup_ended, refresh, server_closed, set_base_url, on_start, directory_begins, directory_ends,
  step, run_events, new_web_server, called_listen, called_listen_async, startup_settled, began,
  checked, timeout_passed, became_ready, called_refresh, closed, called_set_base_url,
  called_on_start, called_routes_directory, directory_loaded, plugin_runs,
}

-- One start, which a server that is not started may still make.
abbrev to_come : Bool → ℕ
to_come started = if started then 0 else 1

-- The starts that happened, that are under way, and that may come.
abbrev starts : WebServer → ℕ
starts s = length s.bootstraps + length s.starting + to_come s.is_started + s.closing_servers

abbrev IsBounded : WebServer → Type 0
IsBounded s = starts s ≤ 1 + s.refreshes

length-at_index :
    (f : Phase → Phase) (i : ℕ) (bs : List Bootstrap) → length (at_index f i bs) ≡ length bs
unfolding at_index
length-at_index f i [] = refl
length-at_index f zero (b ∷ bs) = refl
length-at_index f (suc i) (b ∷ bs) = ap suc (length-at_index f i bs)

run_callbacks-IsBounded :
    (route : Route) (callbacks : List RouteCallback) (s : WebServer)
    → IsBounded s
    → IsBounded (run_callbacks route callbacks s)
unfolding run_callbacks run_callback save_endpoint
run_callbacks-IsBounded route [] s h = h
run_callbacks-IsBounded route (hook m ∷ rest) s h =
    run_callbacks-IsBounded route rest (run_callback route (hook m) s) h
run_callbacks-IsBounded route (handle method endpoint m ∷ rest) s h =
    run_callbacks-IsBounded route rest (run_callback route (handle method endpoint m) s) h

starts-schedule :
    (port : ℕ) (callback : Option ℕ) (s : WebServer)
    → (starts (schedule port callback s) ≡ starts s + 1)
      × ((schedule port callback s).refreshes ≡ s.refreshes)
unfolding schedule
starts-schedule port callback s = (
  omega (
    arith,
    length-append s.bootstraps
        (record { port = port; callback = callback; phase = scheduled } ∷ []),
  ),
  refl,
)

listen-IsBounded :
    (port callback : Option ℕ) (s : WebServer) → IsBounded s → IsBounded (listen port callback s).0
unfolding listen
listen-IsBounded none callback s h = h
listen-IsBounded (some port) callback s h =
    ground (arith, starts-schedule port callback (record s { is_started = true }))

startup_ended-IsBounded :
    (succeeded : Bool) (pending : List (ℕ × Option ℕ)) (s : WebServer)
    → s.starting ≡ pending
    → IsBounded s
    → IsBounded (startup_ended succeeded s)
unfolding startup_ended
startup_ended-IsBounded succeeded [] s e h = ground (arith, e)
startup_ended-IsBounded succeeded ((port, callback) ∷ rest) s e h =
    ground (arith, e, ap length e, starts-schedule port callback (record s { starting = rest }))

server_closed-IsBounded :
    (closing : ℕ) (s : WebServer)
    → s.closing_servers ≡ closing
    → IsBounded s
    → IsBounded (server_closed s)
unfolding server_closed
server_closed-IsBounded zero s e h = ground (arith, e)
server_closed-IsBounded (suc n) s e h =
    let stopped = record s { closing_servers = n; is_started = false } in
    elim (Option-cases s.listener_options) [
      | inl f ↦ ground (arith, e, f)
      | inr ((port, callback), f) ↦
          ground (arith, e, f, listen-IsBounded (some port) callback stopped)
    ]

step-IsBounded : (event : ServerEvent) (s : WebServer) → IsBounded s → IsBounded (step event s)
unfolding step listen_async refresh set_base_url on_start directory_begins directory_ends
step-IsBounded (called_listen port callback) s h = listen-IsBounded port callback s h
step-IsBounded (called_listen_async none callback) s h = h
step-IsBounded (called_listen_async (some port) callback) s h =
    ground (arith, length-append s.starting ((port, callback) ∷ []))
step-IsBounded (startup_settled succeeded) s h =
    startup_ended-IsBounded succeeded s.starting s refl h
step-IsBounded (began i) s h = omega (arith, length-at_index begin i s.bootstraps)
step-IsBounded (checked i) s h =
    omega (arith, length-at_index (check s.is_loading_routes) i s.bootstraps)
step-IsBounded (timeout_passed i) s h = omega (arith, length-at_index time_out i s.bootstraps)
step-IsBounded (became_ready i) s h = omega (arith, length-at_index get_ready i s.bootstraps)
step-IsBounded called_refresh s h = ground arith
step-IsBounded closed s h = server_closed-IsBounded s.closing_servers s refl h
step-IsBounded (called_set_base_url url) s h = ground arith
step-IsBounded (called_on_start callbacks) s h = h
step-IsBounded called_routes_directory s h = h
step-IsBounded directory_loaded s h = h
step-IsBounded (plugin_runs route) s h = run_callbacks-IsBounded route route.callbacks s h

run_events-IsBounded :
    (events : List ServerEvent) (s : WebServer) → IsBounded s → IsBounded (run_events events s)
unfolding run_events
run_events-IsBounded [] s h = h
run_events-IsBounded (event ∷ events) s h =
    run_events-IsBounded events (step event s) (step-IsBounded event s h)

-- Whatever is called, in any order, the server is bootstrapped once and at most once more for each
-- call of `refresh`, so that it never listens twice otherwise.
pub run_events-bootstraps :
    (events : List ServerEvent)
    → let s = run_events events new_web_server in length s.bootstraps ≤ 1 + s.refreshes
unfolding new_web_server
run_events-bootstraps events =
    omega (arith, run_events-IsBounded events new_web_server (omega arith))

-- Two directories of routes are read at once, and one ends: a bootstrap that waits for the routes
-- then listens, while the files of the other directory are still to come.
pub run_events-directories :
    (s : WebServer) (b : Bootstrap) (rest : List Bootstrap)
    → s.bootstraps ≡ b ∷ rest
    → b.phase ≡ waiting_for_routes
    → let s' =
        run_events
          (called_routes_directory
            ∷ called_routes_directory
            ∷ directory_loaded
            ∷ checked 0
            ∷ became_ready 0
            ∷ [])
          s in
      (s'.bootstraps ≡ record b { phase = listening } ∷ rest) × (0 < s'.directories)
unfolding run_events directory_begins directory_ends at_index check get_ready
run_events-directories s b rest e f = ground (arith, e, f)

append-ne_right : (xs ys : Text) → xs ≢ [] → xs ++ ys ≢ ys
append-ne_right [] ys h e = absurd (h refl)
append-ne_right (x ∷ xs) ys h e = absurd (omega (arith, ap length e, length-append xs ys))

-- A route with a base path: what `refresh` registers for an endpoint is not the address at which
-- the endpoint was served, which begins with the base path.
refresh_endpoints-address :
    (route : Route) (method : Method) (endpoint : Text) (handler : ℕ)
    → is_ws method ≡ false
    → route.base_path ≢ []
    → let s = run_callback route (handle method endpoint handler) new_web_server in
      (r : Registered) × (again : Registered) × (s.registered ≡ r ∷ [])
      × (refresh_endpoints s.endpoints ≡ again ∷ [])
      × (r.address ≡ route.base_path ++ again.address)
      × (r.address ≢ again.address)
unfolding new_web_server run_callback refresh_endpoints
refresh_endpoints-address route method endpoint handler w n =
    let uri = get_full_path_route route endpoint in
    (
      record { method = method; address = route.base_path ++ uri; handler = handler },
      record { method = method; address = uri; handler = handler },
      refl,
      ground (arith, w),
      refl,
      append-ne_right route.base_path uri n,
    )
