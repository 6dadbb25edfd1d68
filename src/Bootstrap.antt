-- ===== src/Bootstrap.antt =====
-- src/main/bootstrap.ts: the start of the services, and their end at a signal. Whether a call
-- succeeds is the world's; what is logged, and the exit after 30 seconds of shutting down, are left
-- out.
pub mod Steps
pub mod Online
pub mod Shutdown
mod Tests
use nodejs_template.Prelude.{Bool, true, false, not, ◌&&◌, ◌||◌, List, [], ◌∷◌, ◌++◌, if◌then◌else◌}

-- The calls, in the order of the source.
pub data Action : Type 0 where
  connect_to_mongoose : Action
  connect_to_sql : Action
  connect_to_rabbit : Action
  connect_to_memcached : Action
  start_consumers : Action
  start_worker : Action
  start_agenda_dashboard : Action
  start_server : Action
  close_server : Action
  stop_worker : Action
  close_dashboard : Action
  stop_rabbit : Action
  flush_logs : Action
  disconnect_mongoose : Action
  disconnect_memcached : Action

abbrev pub World : Type 0
World = Action → Bool

-- `ENABLED_SERVICES`, and the connections.
pub record Settings : Type 0 where
  pub server : Bool
  pub consumer : Bool
  pub worker : Bool
  pub dashboard : Bool
  pub memcached : Bool
  pub mongo : Bool
  pub db : Bool
  pub rabbit : Bool

-- Which of the variables are not null, what was called, and whether a call failed.
pub record Services : Type 0 where
  pub rabbit_server : Bool
  pub worker : Bool
  pub cache_server : Bool
  pub mongoose : Bool
  pub agenda_dashboard : Bool
  pub called : List Action
  pub failed : Bool

unfoldable pub no_services : Services
no_services = record {
  rabbit_server = false;
  worker = false;
  cache_server = false;
  mongoose = false;
  agenda_dashboard = false;
  called = [];
  failed = false;
}

-- A call whose failure fails the whole; those beside it are made nevertheless.
unfoldable pub call : World → Action → Services → Services
call world action s = record s {
  called = s.called ++ action ∷ [];
  failed = s.failed || not (world action);
}

-- A call behind an `await`: it is not made after a failure.
unfoldable pub then_call : World → Action → Services → Services
unfolding call
then_call world action s = if s.failed then s else call world action s

unfoldable pub when : Bool → (Services → Services) → Services → Services
when enabled f s = if enabled then f s else s

unfoldable pub mongoose_connected : World → Services → Services
unfolding call
mongoose_connected world s = record (call world connect_to_mongoose s) {
  mongoose = world connect_to_mongoose;
}

unfoldable pub rabbit_connected : World → Services → Services
unfolding call
rabbit_connected world s = record (call world connect_to_rabbit s) {
  rabbit_server = world connect_to_rabbit;
}

-- The cache server is set before it connects.
unfoldable pub memcached_connected : World → Services → Services
unfolding call
memcached_connected world s = record (call world connect_to_memcached s) { cache_server = true }

-- Without the connection the function throws.
unfoldable pub consumers_started : World → Services → Services
unfolding call
consumers_started world s =
    if s.rabbit_server then call world start_consumers s else record s { failed = true }

unfoldable pub worker_started : World → Services → Services
unfolding call
worker_started world s = record (call world start_worker s) { worker = true }

unfoldable pub dashboard_started : World → Services → Services
unfolding call
dashboard_started world s = record (call world start_agenda_dashboard s) {
  agenda_dashboard = world start_agenda_dashboard;
}

unfoldable pub connected : World → Settings → Services
unfolding when mongoose_connected rabbit_connected memcached_connected call no_services
connected world settings =
    let mongo = when settings.mongo (mongoose_connected world) no_services in
    if mongo.failed
    then mongo
    else when settings.memcached (memcached_connected world) (
        when settings.rabbit (rabbit_connected world)
          (when settings.db (call world connect_to_sql) mongo))

unfoldable pub started : World → Settings → Services → Services
unfolding when consumers_started worker_started dashboard_started call
started world settings s =
    if s.failed
    then s
    else when settings.server (call world start_server) (
        when settings.dashboard (dashboard_started world) (
          when settings.worker (worker_started world)
            (when settings.consumer (consumers_started world) s)))

pub data Bootstrapped : Type 0 where
  exited : Bootstrapped
  rejected : Services → Bootstrapped
  online : Services → Bootstrapped

unfoldable pub no_service_enabled : Settings → Bool
no_service_enabled settings =
    not settings.server
    && (not settings.consumer
        && (not settings.worker && (not settings.dashboard && not settings.memcached)))

unfoldable pub bootstrap : World → Settings → Bootstrapped
unfolding no_service_enabled connected started
bootstrap world settings =
    let s = started world settings (connected world settings) in
    if no_service_enabled settings then exited else if s.failed then rejected s else online s

-- What is called, and the exit code.
pub record Exit : Type 0 where
  pub closed : List Action
  pub failed_code : Bool

unfoldable pub mongoose_closed : World → Services → Services
unfolding then_call
mongoose_closed world s = then_call world disconnect_mongoose (then_call world flush_logs s)

unfoldable pub services_closed : World → Settings → Services → Services
unfolding when then_call mongoose_closed no_services
services_closed world settings s = when s.cache_server (then_call world disconnect_memcached) (
    when s.mongoose (mongoose_closed world) (
      when s.rabbit_server (then_call world stop_rabbit) (
        when s.agenda_dashboard (then_call world close_dashboard) (
          when s.worker (then_call world stop_worker)
            (when settings.server (then_call world close_server) no_services)))))

unfoldable pub graceful_shutdown : World → Bool → Settings → Services → Exit
unfolding services_closed
graceful_shutdown world production settings s =
    let r = services_closed world settings s in
    if production
    then record { closed = r.called; failed_code = r.failed }
    else record { closed = []; failed_code = false }
