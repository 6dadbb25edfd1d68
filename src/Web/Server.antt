-- ===== src/Web/Server.antt =====
-- src/infra/http/util/web-server/web-server.ts and route.ts: the state of the server and its routes.
use nodejs_template.Prelude.{
  ◌⊎◌, inl, inr, Bool, true, false, ℕ, Option, none, some, List, [], ◌∷◌, ◌++◌, if◌then◌else◌,
}
use nodejs_template.Text.{Text}

pub data Method : Type 0 where
  post : Method
  get : Method
  put : Method
  delete : Method
  options : Method
  patch : Method
  ws : Method

-- A handler stands for the adapted middlewares.
pub record Endpoint : Type 0 where
  pub method : Method
  pub uri : Text
  pub handler : ℕ

-- One callback of a route: the middlewares of `use`, or an endpoint.
pub data RouteCallback : Type 0 where
  hook : ℕ → RouteCallback
  handle : Method → Text → ℕ → RouteCallback

pub record Route : Type 0 where
  pub base_path : Text
  pub path : Text
  pub callbacks : List RouteCallback

-- What the HTTP library was told to serve, with the prefix of the instance.
pub record Registered : Type 0 where
  pub method : Method
  pub address : Text
  pub handler : ℕ

pub data Phase : Type 0 where
  scheduled : Phase
  waiting_for_routes : Phase
  timed_out : Phase
  getting_ready : Phase
  listening : Phase

-- One run of `serverBootstrap`.
pub record Bootstrap : Type 0 where
  pub port : ℕ
  pub callback : Option ℕ
  pub phase : Phase

pub data Exceptions : Type 0 where
  invalid_port_value : Exceptions
  register_route_after_bootstrap_server : Exceptions

pub record WebServer : Type 0 where
  pub endpoints : List Endpoint
  pub registered : List Registered
  pub hooks : List (Text × ℕ)
  pub is_loading_routes : Bool
  pub listener_options : Option (ℕ × Option ℕ)
  pub base_url : Text
  pub startup_callbacks : List ℕ
  pub is_started : Bool
  pub bootstraps : List Bootstrap
  -- calls of `listenAsync` that await the startup callbacks
  pub starting : List (ℕ × Option ℕ)
  -- directories that are read, and calls of `server.close` whose callback is to come
  pub directories : ℕ
  pub closing_servers : ℕ
  -- calls of `refresh` on a server that is started
  pub refreshes : ℕ

-- `Route`: the constructor, and its methods.
unfoldable pub new_route : Text → Text → Route
new_route base path = record { base_path = base; path = path; callbacks = [] }

unfoldable pub add_callback : RouteCallback → Route → Route
add_callback callback route = record route { callbacks = route.callbacks ++ callback ∷ [] }

unfoldable pub get_full_path_route : Route → Text → Text
get_full_path_route route endpoint = route.path ++ endpoint

unfoldable pub save_endpoint : Endpoint → WebServer → WebServer
save_endpoint endpoint s = record s { endpoints = s.endpoints ++ endpoint ∷ [] }

-- A call of a callback with the instance, whose prefix is the base path.
unfoldable pub run_callback : Route → RouteCallback → WebServer → WebServer
unfolding get_full_path_route save_endpoint
run_callback route (hook middlewares) s = record s {
  hooks = s.hooks ++ (route.base_path, middlewares) ∷ [];
}
run_callback route (handle method endpoint handler) s =
    let uri = get_full_path_route route endpoint in
    let saved = save_endpoint (record { method = method; uri = uri; handler = handler }) s in
    record saved {
      registered =
          saved.registered
          ++ (record { method = method; address = route.base_path ++ uri; handler = handler }) ∷ [];
    }

unfoldable pub run_callbacks : Route → List RouteCallback → WebServer → WebServer
unfolding run_callback
run_callbacks route [] s = s
run_callbacks route (callback ∷ rest) s = run_callbacks route rest (run_callback route callback s)

-- `?? ''` and `?? this.baseUrl` are in the arguments.
unfoldable pub router : Option Text → Option Text → WebServer → Exceptions ⊎ Route
unfolding new_route
router base path s =
    let base_path : Text = elim base [ none ↦ s.base_url | some given ↦ given ] in
    let own_path : Text = elim path [ none ↦ [] | some given ↦ given ] in
    if s.is_started
    then inl register_route_after_bootstrap_server
    else inr (new_route base_path own_path)

unfoldable pub is_ws : Method → Bool
is_ws ws = true
is_ws method = false

-- The endpoints on the instance of the server itself.
unfoldable pub refresh_endpoints : List Endpoint → List Registered
unfolding is_ws
refresh_endpoints [] = []
refresh_endpoints (endpoint ∷ rest) =
    let others = refresh_endpoints rest in
    if is_ws endpoint.method
    then others
    else (record { method = endpoint.method; address = endpoint.uri; handler = endpoint.handler })
      ∷ others
