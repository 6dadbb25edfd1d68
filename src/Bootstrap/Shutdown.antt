-- ===== src/Bootstrap/Shutdown.antt =====
-- What the end of the process closes, of the services that the start left online.
use nodejs_template.Prelude.{
  Bool-cases, inl, inr, append-nil, append_assoc, ◌≡◌, refl, ap, ◌∙◌, Bool, true, false, not, ◌&&◌,
  List, [], ◌∷◌, ◌++◌, arith, if◌then◌else◌,
}
use nodejs_template.Bootstrap.{
  Action, close_server, stop_worker, close_dashboard, stop_rabbit, flush_logs, disconnect_mongoose,
  disconnect_memcached, World, Settings, Services, no_services, call, then_call, when,
  mongoose_closed, services_closed, graceful_shutdown, online, bootstrap,
}
use nodejs_template.Bootstrap.Online.{IsOnline, bootstrap-IsOnline}
use nodejs_template.Bootstrap.Steps.{if_enabled}

-- Calls one after the other.
then_calls : World → List Action → Services → Services
then_calls world [] s = s
then_calls world (action ∷ actions) s = then_calls world actions (then_call world action s)

-- The calls up to the first that fails, with it.
unfoldable pub until_failure : World → List Action → List Action
until_failure world [] = []
until_failure world (action ∷ actions) =
    let rest = until_failure world actions in action ∷ (if world action then rest else [])

unfoldable pub every_succeeds : World → List Action → Bool
every_succeeds world [] = true
every_succeeds world (action ∷ actions) = world action && every_succeeds world actions

-- The closings of the settings, in their order.
abbrev pub closings : Settings → List Action
closings settings =
    if_enabled settings.server close_server
    ++ (if_enabled settings.worker stop_worker
        ++ (if_enabled settings.dashboard close_dashboard
            ++ (if_enabled settings.rabbit stop_rabbit
                ++ ((if settings.mongo then flush_logs ∷ disconnect_mongoose ∷ [] else [])
                    ++ if_enabled settings.memcached disconnect_memcached))))

no_services-open : no_services.failed ≡ false
unfolding no_services
no_services-open = refl

no_services-called : no_services.called ≡ []
unfolding no_services
no_services-called = refl

module _ (world : World) where
  then_calls-append :
      (left right : List Action) (s : Services)
      → then_calls world (left ++ right) s ≡ then_calls world right (then_calls world left s)
  unfolding then_calls
  then_calls-append [] right s = refl
  then_calls-append (action ∷ left) right s =
      then_calls-append left right (then_call world action s)

  when-then_calls :
      (enabled : Bool) (action : Action) (s : Services)
      → when enabled (then_call world action) s ≡ then_calls world (if_enabled enabled action) s
  unfolding when then_calls
  when-then_calls enabled action s = ground arith

  when-mongoose_closed :
      (enabled : Bool) (s : Services)
      → when enabled (mongoose_closed world) s
        ≡ then_calls world (if enabled then flush_logs ∷ disconnect_mongoose ∷ [] else []) s
  unfolding when mongoose_closed then_calls
  when-mongoose_closed enabled s = ground arith

  then_calls-failed :
      (actions : List Action) (s : Services) → s.failed ≡ true → then_calls world actions s ≡ s
  unfolding then_calls then_call
  then_calls-failed [] s h = refl
  then_calls-failed (action ∷ actions) s h = ground (arith, h, then_calls-failed actions s h)

  then_calls-until_failure :
      (actions : List Action) (s : Services)
      → s.failed ≡ false
      → let t = then_calls world actions s in
        (t.called ≡ s.called ++ until_failure world actions)
        × (t.failed ≡ not (every_succeeds world actions))
  unfolding then_calls then_call call until_failure every_succeeds
  then_calls-until_failure [] s h = ground (arith, append-nil s.called)
  then_calls-until_failure (action ∷ actions) s h =
      let t = call world action s in
      elim (Bool-cases (world action)) [
        | inl e ↦ ground (
          arith,
          e,
          h,
          then_calls-until_failure actions t (ground (arith, e, h)),
          append_assoc s.called (action ∷ []) (until_failure world actions),
        )
        | inr e ↦ ground (arith, e, h, then_calls-failed actions t (ground (arith, e)))
      ]

  -- The end, as one list of calls.
  then_calls-closings :
      (settings : Settings) (s : Services)
      → IsOnline settings s
      → services_closed world settings s ≡ then_calls world (closings settings) no_services
  unfolding services_closed
  then_calls-closings settings s is =
      rw (is.has_cache, is.has_mongoose, is.has_rabbit, is.has_dashboard, is.has_worker)
        (simp (when-then_calls, when-mongoose_closed, then_calls-append))

-- When the start has left the services online, the end of a process in production, for whatever
-- its calls do, closes the services of the settings, in the order of the list, up to the first
-- call that fails, with it, and its exit code is 0 exactly when none fails; outside production it
-- closes nothing and the code is 0.
pub graceful_shutdown-online :
    (opening closing : World) (production : Bool) (settings : Settings) (s : Services)
    → bootstrap opening settings ≡ online s
    → let exit = graceful_shutdown closing production settings s in
      (exit.closed ≡ (if production then until_failure closing (closings settings) else []))
      × (exit.failed_code ≡ (production && not (every_succeeds closing (closings settings))))
unfolding graceful_shutdown
graceful_shutdown-online opening closing true settings s h =
    let e = then_calls-closings closing settings s (bootstrap-IsOnline opening settings s h) in
    let (called, failed) =
      then_calls-until_failure closing (closings settings) no_services no_services-open in
    (
      ap (λ (t : Services). t.called) e
          ∙ called
          ∙ ap (λ l. l ++ until_failure closing (closings settings)) no_services-called,
      ap (λ (t : Services). t.failed) e ∙ failed,
    )
graceful_shutdown-online opening closing false settings s h = (refl, refl)
