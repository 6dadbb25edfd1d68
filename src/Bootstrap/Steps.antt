-- ===== src/Bootstrap/Steps.antt =====
-- What each step of the start leaves when it does not fail.
use nodejs_template.Prelude.{
  append-nil, ◌≡◌, Bool, true, false, List, [], ◌∷◌, ◌++◌, arith, if◌then◌else◌,
}
use nodejs_template.Bootstrap.{
  Action, connect_to_mongoose, connect_to_rabbit, connect_to_memcached, start_consumers,
  start_worker, start_agenda_dashboard, World, Services, call, when, mongoose_connected,
  rabbit_connected, memcached_connected, consumers_started, worker_started, dashboard_started,
}

abbrev pub if_enabled : Bool → Action → List Action
if_enabled enabled action = if enabled then action ∷ [] else []

-- A step that did not fail, and what it leaves: the calls, and which services there are.
abbrev pub Left : Bool → Action → Services → Services → Bool → Bool → Bool → Bool → Bool → Type 0
Left enabled action s t rabbit worker cache mongoose dashboard =
    (s.failed ≡ false)
    × (t.called ≡ s.called ++ if_enabled enabled action)
    × (t.rabbit_server ≡ rabbit)
    × (t.worker ≡ worker)
    × (t.cache_server ≡ cache)
    × (t.mongoose ≡ mongoose)
    × (t.agenda_dashboard ≡ dashboard)

pub if-true : (b : Bool) → (if b then true else false) ≡ b
if-true b = ground arith

module _ (world : World) (s : Services) where
  pub call-Left :
      (enabled : Bool) (action : Action)
      → (when enabled (call world action) s).failed ≡ false
      → Left enabled action s
          (when enabled (call world action) s)
          s.rabbit_server
          s.worker
          s.cache_server
          s.mongoose
          s.agenda_dashboard
  unfolding when call
  call-Left enabled action h = ground (arith, append-nil s.called)

  pub mongoose-Left :
      (enabled : Bool)
      → (when enabled (mongoose_connected world) s).failed ≡ false
      → Left enabled connect_to_mongoose s
          (when enabled (mongoose_connected world) s)
          s.rabbit_server
          s.worker
          s.cache_server
          (if enabled then true else s.mongoose)
          s.agenda_dashboard
  unfolding when mongoose_connected
  mongoose-Left enabled h = ground (arith, append-nil s.called)

  pub rabbit-Left :
      (enabled : Bool)
      → (when enabled (rabbit_connected world) s).failed ≡ false
      → Left enabled connect_to_rabbit s
          (when enabled (rabbit_connected world) s)
          (if enabled then true else s.rabbit_server)
          s.worker
          s.cache_server
          s.mongoose
          s.agenda_dashboard
  unfolding when rabbit_connected
  rabbit-Left enabled h = ground (arith, append-nil s.called)

  pub memcached-Left :
      (enabled : Bool)
      → (when enabled (memcached_connected world) s).failed ≡ false
      → Left enabled connect_to_memcached s
          (when enabled (memcached_connected world) s)
          s.rabbit_server
          s.worker
          (if enabled then true else s.cache_server)
          s.mongoose
          s.agenda_dashboard
  unfolding when memcached_connected
  memcached-Left enabled h = ground (arith, append-nil s.called)

  pub consumers-Left :
      (enabled : Bool)
      → (when enabled (consumers_started world) s).failed ≡ false
      → Left enabled start_consumers s
          (when enabled (consumers_started world) s)
          s.rabbit_server
          s.worker
          s.cache_server
          s.mongoose
          s.agenda_dashboard
        × (enabled ≡ true → s.rabbit_server ≡ true)
  unfolding when consumers_started
  consumers-Left enabled h = ground (arith, append-nil s.called)

  pub worker-Left :
      (enabled : Bool)
      → (when enabled (worker_started world) s).failed ≡ false
      → Left enabled start_worker s
          (when enabled (worker_started world) s)
          s.rabbit_server
          (if enabled then true else s.worker)
          s.cache_server
          s.mongoose
          s.agenda_dashboard
  unfolding when worker_started
  worker-Left enabled h = ground (arith, append-nil s.called)

  pub dashboard-Left :
      (enabled : Bool)
      → (when enabled (dashboard_started world) s).failed ≡ false
      → Left enabled start_agenda_dashboard s
          (when enabled (dashboard_started world) s)
          s.rabbit_server
          s.worker
          s.cache_server
          s.mongoose
          (if enabled then true else s.agenda_dashboard)
  unfolding when dashboard_started
  dashboard-Left enabled h = ground (arith, append-nil s.called)
