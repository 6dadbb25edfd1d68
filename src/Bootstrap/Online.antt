-- ===== src/Bootstrap/Online.antt =====
-- What was called when the services are online.
use nodejs_template.Prelude.{◌≡◌, ap, sym, ◌∙◌, true, false, List, ◌++◌, arith, if◌then◌else◌}
use nodejs_template.Bootstrap.{
  Action, connect_to_mongoose, connect_to_sql, connect_to_rabbit, connect_to_memcached,
  start_consumers, start_worker, start_agenda_dashboard, start_server, World, Settings, Services,
  no_services, call, when, mongoose_connected, rabbit_connected, memcached_connected,
  consumers_started, worker_started, dashboard_started, connected, started, online, bootstrap,
}
use nodejs_template.Bootstrap.Steps.{
  if_enabled, if-true, call-Left, mongoose-Left, rabbit-Left, memcached-Left, consumers-Left,
  worker-Left, dashboard-Left,
}

-- The calls of the settings, in their order.
abbrev pub opened : Settings → List Action
opened settings =
    (((((((if_enabled settings.mongo connect_to_mongoose ++ if_enabled settings.db connect_to_sql)
                ++ if_enabled settings.rabbit connect_to_rabbit)
              ++ if_enabled settings.memcached connect_to_memcached)
            ++ if_enabled settings.consumer start_consumers)
          ++ if_enabled settings.worker start_worker)
        ++ if_enabled settings.dashboard start_agenda_dashboard)
      ++ if_enabled settings.server start_server)

-- The services of the settings, and nothing else.
pub record IsOnline (settings : Settings) (s : Services) : Type 0 where
  pub calls : s.called ≡ opened settings
  pub has_rabbit : s.rabbit_server ≡ settings.rabbit
  pub has_worker : s.worker ≡ settings.worker
  pub has_cache : s.cache_server ≡ settings.memcached
  pub has_mongoose : s.mongoose ≡ settings.mongo
  pub has_dashboard : s.agenda_dashboard ≡ settings.dashboard
  pub consumes : settings.consumer ≡ true → settings.rabbit ≡ true

module _ (world : World) (settings : Settings) where
  started-open :
      (s : Services)
      → (started world settings s).failed ≡ false
      → (s.failed ≡ false)
        × (started world settings s
            ≡ when settings.server (call world start_server) (
                when settings.dashboard (dashboard_started world) (
                  when settings.worker
                    (worker_started world)
                    (when settings.consumer (consumers_started world) s))))
  unfolding started
  started-open s h = ground (arith, h)

  -- The second part, from the services that are connected.
  started-Left :
      (s : Services)
      → (started world settings s).failed ≡ false
      → let t = started world settings s in
        (s.failed ≡ false)
        × (t.called
            ≡ (((s.called ++ if_enabled settings.consumer start_consumers)
                  ++ if_enabled settings.worker start_worker)
                ++ if_enabled settings.dashboard start_agenda_dashboard)
              ++ if_enabled settings.server start_server)
        × (t.rabbit_server ≡ s.rabbit_server)
        × (t.worker ≡ (if settings.worker then true else s.worker))
        × (t.cache_server ≡ s.cache_server)
        × (t.mongoose ≡ s.mongoose)
        × (t.agenda_dashboard ≡ (if settings.dashboard then true else s.agenda_dashboard))
        × (settings.consumer ≡ true → s.rabbit_server ≡ true)
  started-Left s h =
      let a = when settings.consumer (consumers_started world) s in
      let b = when settings.worker (worker_started world) a in
      let c = when settings.dashboard (dashboard_started world) b in
      let (still, e) = started-open s h in
      let (f1, c1, r1, w1, k1, m1, d1) =
        call-Left world c settings.server start_server
          (ap (λ (t : Services). t.failed) (sym e) ∙ h) in
      let (f2, c2, r2, w2, k2, m2, d2) = dashboard-Left world b settings.dashboard f1 in
      let (f3, c3, r3, w3, k3, m3, d3) = worker-Left world a settings.worker f2 in
      let ((f4, c4, r4, w4, k4, m4, d4), consumes) = consumers-Left world s settings.consumer f3 in
      rw e (
        f4,
        c1
            ∙ ap (λ l. l ++ if_enabled settings.server start_server)
                (c2
                  ∙ ap (λ l. l ++ if_enabled settings.dashboard start_agenda_dashboard)
                      (c3 ∙ ap (λ l. l ++ if_enabled settings.worker start_worker) c4)),
        r1 ∙ r2 ∙ r3 ∙ r4,
        w1 ∙ w2 ∙ w3 ∙ ap (λ w. if settings.worker then true else w) w4,
        k1 ∙ k2 ∙ k3 ∙ k4,
        m1 ∙ m2 ∙ m3 ∙ m4,
        d1 ∙ d2 ∙ ap (λ d. if settings.dashboard then true else d) (d3 ∙ d4),
        consumes,
      )

  connected-open :
      (connected world settings).failed ≡ false
      → let mongo = when settings.mongo (mongoose_connected world) no_services in
        connected world settings
        ≡ when settings.memcached (memcached_connected world) (
            when settings.rabbit
              (rabbit_connected world)
              (when settings.db (call world connect_to_sql) mongo))
  unfolding connected
  connected-open h = ground (arith, h)

  -- The first part, from nothing.
  connected-Left :
      (connected world settings).failed ≡ false
      → let t = connected world settings in
        (t.called
          ≡ ((if_enabled settings.mongo connect_to_mongoose
                ++ if_enabled settings.db connect_to_sql)
              ++ if_enabled settings.rabbit connect_to_rabbit)
            ++ if_enabled settings.memcached connect_to_memcached)
        × (t.rabbit_server ≡ settings.rabbit)
        × (t.worker ≡ false)
        × (t.cache_server ≡ settings.memcached)
        × (t.mongoose ≡ settings.mongo)
        × (t.agenda_dashboard ≡ false)
  unfolding no_services
  connected-Left h =
      let a = when settings.mongo (mongoose_connected world) no_services in
      let b = when settings.db (call world connect_to_sql) a in
      let c = when settings.rabbit (rabbit_connected world) b in
      let e = connected-open h in
      let (f1, c1, r1, w1, k1, m1, d1) =
        memcached-Left world c settings.memcached (ap (λ (t : Services). t.failed) (sym e) ∙ h) in
      let (f2, c2, r2, w2, k2, m2, d2) = rabbit-Left world b settings.rabbit f1 in
      let (f3, c3, r3, w3, k3, m3, d3) = call-Left world a settings.db connect_to_sql f2 in
      let (f4, c4, r4, w4, k4, m4, d4) = mongoose-Left world no_services settings.mongo f3 in
      rw e (
        c1
            ∙ ap (λ l. l ++ if_enabled settings.memcached connect_to_memcached)
                (c2
                  ∙ ap (λ l. l ++ if_enabled settings.rabbit connect_to_rabbit)
                      (c3 ∙ ap (λ l. l ++ if_enabled settings.db connect_to_sql) c4)),
        r1 ∙ r2 ∙ ap (λ r. if settings.rabbit then true else r) (r3 ∙ r4) ∙ if-true settings.rabbit,
        w1 ∙ w2 ∙ w3 ∙ w4,
        k1
            ∙ ap (λ k. if settings.memcached then true else k) (k2 ∙ k3 ∙ k4)
            ∙ if-true settings.memcached,
        m1 ∙ m2 ∙ m3 ∙ m4 ∙ if-true settings.mongo,
        d1 ∙ d2 ∙ d3 ∙ d4,
      )

  bootstrap-online :
      (s : Services)
      → bootstrap world settings ≡ online s
      → let t = started world settings (connected world settings) in (t.failed ≡ false) × (t ≡ s)
  unfolding bootstrap
  bootstrap-online s h = ground (arith, h)

  -- When the start reports that the services are online, for whatever the calls did, each
  -- connection and each service of the settings was called once, the connections first, no other
  -- call was made, and the variables that the end of the process reads are set for exactly the
  -- services of the settings; and a consumer is not enabled without the queue.
  pub bootstrap-IsOnline :
      (s : Services) → bootstrap world settings ≡ online s → IsOnline settings s
  bootstrap-IsOnline s h =
      let (f, e) = bootstrap-online s h in
      let (g, c2, r2, w2, k2, m2, d2, consumes) = started-Left (connected world settings) f in
      let (c1, r1, w1, k1, m1, d1) = connected-Left g in
      rw (sym e) (record {
        calls =
            c2
            ∙ ap
                (λ l.
                  (((l ++ if_enabled settings.consumer start_consumers)
                      ++ if_enabled settings.worker start_worker)
                    ++ if_enabled settings.dashboard start_agenda_dashboard)
                  ++ if_enabled settings.server start_server)
                c1;
        has_rabbit = r2 ∙ r1;
        has_worker =
            w2 ∙ ap (λ w. if settings.worker then true else w) w1 ∙ if-true settings.worker;
        has_cache = k2 ∙ k1;
        has_mongoose = m2 ∙ m1;
        has_dashboard =
            d2 ∙ ap (λ d. if settings.dashboard then true else d) d1 ∙ if-true settings.dashboard;
        consumes = λ k. sym r1 ∙ consumes k;
      })
