-- ===== src/Bootstrap/Tests.antt =====
-- Starts and ends of concrete settings, and the theorems at them.
use nodejs_template.Prelude.{◌≡◌, refl, true, false, not, ◌&&◌, [], ◌∷◌, if◌then◌else◌}
use nodejs_template.Bootstrap.{
  connect_to_mongoose, connect_to_sql, connect_to_rabbit, start_consumers, start_server,
  close_server, stop_rabbit, World, Settings, Services, rejected, online, bootstrap,
  graceful_shutdown,
}
use nodejs_template.Bootstrap.Online.{IsOnline, bootstrap-IsOnline}
use nodejs_template.Bootstrap.Shutdown.{
  closings, until_failure, every_succeeds, graceful_shutdown-online,
}

abbrev settings : Settings
settings = record {
  server = true;
  consumer = true;
  worker = false;
  dashboard = false;
  memcached = false;
  mongo = true;
  db = true;
  rabbit = true;
}

abbrev succeeding : World
succeeding action = true

-- The queue cannot be stopped.
unfoldable stuck : World
stuck stop_rabbit = false
stuck action = true

abbrev services : Services
services = record {
  rabbit_server = true;
  worker = false;
  cache_server = false;
  mongoose = true;
  agenda_dashboard = false;
  called =
      connect_to_mongoose ∷ connect_to_sql ∷ connect_to_rabbit ∷ start_consumers ∷ start_server
      ∷ [];
  failed = false;
}

started : bootstrap succeeding settings ≡ online services
unfolding bootstrap
started = refl

-- A consumer without the queue.
no_queue :
    bootstrap succeeding (record settings { rabbit = false })
    ≡ rejected (record services {
      rabbit_server = false;
      called = connect_to_mongoose ∷ connect_to_sql ∷ start_server ∷ [];
      failed = true;
    })
unfolding bootstrap
no_queue = refl

-- The logs are not flushed after a failure before it.
not_flushed :
    graceful_shutdown stuck true settings services
    ≡ record { closed = close_server ∷ stop_rabbit ∷ []; failed_code = true }
unfolding graceful_shutdown stuck
not_flushed = refl

bootstrap-IsOnline_example : IsOnline settings services
bootstrap-IsOnline_example = bootstrap-IsOnline succeeding settings services started

graceful_shutdown-online_example :
    let exit = graceful_shutdown stuck true settings services in
    (exit.closed ≡ (if true then until_failure stuck (closings settings) else []))
    × (exit.failed_code ≡ (true && not (every_succeeds stuck (closings settings))))
graceful_shutdown-online_example =
    graceful_shutdown-online succeeding stuck true settings services started
