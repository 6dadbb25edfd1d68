-- ===== src/Sockets/Repeater.antt =====
-- src/main/adapters/socket/use-timed-repeater.ts: a flow that is repeated until its time is over, as
-- a machine whose events are the timers and the ends of the flows.
use nodejs_template.Prelude.{
  ◌≡◌, refl, Bool, true, false, ℕ, zero, suc, ◌+◌, ◌||◌, not, List, [], ◌∷◌, arith, if◌then◌else◌,
}

pub record TimedRepeater : Type 0 where
  pub finished : Bool
  -- whether the two timers are set
  pub repeater : Bool
  pub timer : Bool
  -- flows that were started and have not ended
  pub running : ℕ
  pub started : ℕ
  -- calls of `finish`
  pub finish_calls : ℕ
  pub disconnected : Bool

pub data RepeaterEvent : Type 0 where
  each_passed : RepeaterEvent
  flow_resolved : RepeaterEvent
  flow_rejected : RepeaterEvent
  timeout_passed : RepeaterEvent
  client_left : RepeaterEvent

unfoldable pub use_timed_repeater : Bool → TimedRepeater
use_timed_repeater disconnected = record {
  finished = false;
  repeater = true;
  timer = true;
  running = 0;
  started = 0;
  finish_calls = 0;
  disconnected = disconnected;
}

unfoldable pub clear_all : TimedRepeater → TimedRepeater
clear_all s = if s.finished then s else record s {
  finished = true;
  timer = false;
  repeater = false;
  finish_calls = s.finish_calls + 1;
}

-- The end of a flow that runs.
unfoldable pub flow_ended : Bool → TimedRepeater → TimedRepeater
unfolding clear_all
flow_ended failed s = elim s.running [
  | zero ↦ s
  | suc n ↦
      let left = record s { running = n } in
      if failed || s.disconnected then clear_all left else left
]

unfoldable pub repeater_step : RepeaterEvent → TimedRepeater → TimedRepeater
unfolding clear_all flow_ended
repeater_step each_passed s =
    if s.repeater then record s { running = s.running + 1; started = s.started + 1 } else s
repeater_step flow_resolved s = flow_ended false s
repeater_step flow_rejected s = flow_ended true s
repeater_step timeout_passed s =
    if s.timer then clear_all (record s { disconnected = true; timer = false }) else s
repeater_step client_left s = record s { disconnected = true }

unfoldable pub run_repeater : List RepeaterEvent → TimedRepeater → TimedRepeater
unfolding repeater_step
run_repeater [] s = s
run_repeater (event ∷ events) s = run_repeater events (repeater_step event s)

-- `finish` is called once, when both timers are cleared, and until then both are set.
pub record IsSound (s : TimedRepeater) : Type 0 where
  pub calls : s.finish_calls ≡ (if s.finished then 1 else 0)
  pub repeats : s.repeater ≡ not s.finished
  pub times : s.timer ≡ not s.finished

flow_ended-IsSound :
    (failed : Bool) (running : ℕ) (s : TimedRepeater)
    → s.running ≡ running
    → IsSound s
    → IsSound (flow_ended failed s)
unfolding flow_ended clear_all
flow_ended-IsSound failed zero s e h = ground (arith, e)
flow_ended-IsSound failed (suc n) s e h = ground (arith, e)

repeater_step-IsSound :
    (event : RepeaterEvent) (s : TimedRepeater) → IsSound s → IsSound (repeater_step event s)
unfolding repeater_step clear_all
repeater_step-IsSound each_passed s h = ground arith
repeater_step-IsSound flow_resolved s h = flow_ended-IsSound false s.running s refl h
repeater_step-IsSound flow_rejected s h = flow_ended-IsSound true s.running s refl h
repeater_step-IsSound timeout_passed s h = ground arith
repeater_step-IsSound client_left s h = ground arith

run_repeater-IsSound_from :
    (events : List RepeaterEvent) (s : TimedRepeater) → IsSound s → IsSound (run_repeater events s)
unfolding run_repeater
run_repeater-IsSound_from [] s h = h
run_repeater-IsSound_from (event ∷ events) s h =
    run_repeater-IsSound_from events (repeater_step event s) (repeater_step-IsSound event s h)

-- Whatever happens, in any order, `finish` is called at most once: it is called exactly when both
-- timers are cleared, and until then both are set.
pub run_repeater-IsSound :
    (disconnected : Bool) (events : List RepeaterEvent)
    → IsSound (run_repeater events (use_timed_repeater disconnected))
unfolding use_timed_repeater
run_repeater-IsSound disconnected events =
    run_repeater-IsSound_from events (use_timed_repeater disconnected) (ground arith)

-- A repeater that has finished starts nothing.
abbrev IsOver : ℕ → TimedRepeater → Type 0
IsOver n s = IsSound s × (s.finished ≡ true) × (s.started ≡ n)

flow_ended-IsOver :
    (failed : Bool) (running n : ℕ) (s : TimedRepeater)
    → s.running ≡ running
    → IsOver n s
    → IsOver n (flow_ended failed s)
unfolding flow_ended clear_all
flow_ended-IsOver failed running n s e (h, f, g) =
    (flow_ended-IsSound failed s.running s refl h, ground (arith, f), ground (arith, f, g))

repeater_step-IsOver :
    (event : RepeaterEvent) (n : ℕ) (s : TimedRepeater)
    → IsOver n s
    → IsOver n (repeater_step event s)
unfolding repeater_step clear_all
repeater_step-IsOver each_passed n s (h, f, g) = (
  repeater_step-IsSound each_passed s h,
  ground (arith, h.repeats),
  ground (arith, h.repeats, f, g),
)
repeater_step-IsOver flow_resolved n s o = flow_ended-IsOver false s.running n s refl o
repeater_step-IsOver flow_rejected n s o = flow_ended-IsOver true s.running n s refl o
repeater_step-IsOver timeout_passed n s (h, f, g) =
    (repeater_step-IsSound timeout_passed s h, ground (arith, f), ground (arith, f, g))
repeater_step-IsOver client_left n s (h, f, g) = (repeater_step-IsSound client_left s h, f, g)

run_repeater-IsOver :
    (events : List RepeaterEvent) (n : ℕ) (s : TimedRepeater)
    → IsOver n s
    → IsOver n (run_repeater events s)
unfolding run_repeater
run_repeater-IsOver [] n s o = o
run_repeater-IsOver (event ∷ events) n s o =
    run_repeater-IsOver events n (repeater_step event s) (repeater_step-IsOver event n s o)

timeout-IsOver :
    (s : TimedRepeater)
    → IsSound s
    → IsOver (repeater_step timeout_passed s).started (repeater_step timeout_passed s)
unfolding repeater_step clear_all
timeout-IsOver s h = (repeater_step-IsSound timeout_passed s h, ground (arith, h.times), refl)

-- Once the timeout has passed, whatever happened before and happens afterwards, `finish` was called
-- exactly once and no further flow starts.
pub run_repeater-timeout :
    (disconnected : Bool) (before after : List RepeaterEvent)
    → let s =
        repeater_step timeout_passed (run_repeater before (use_timed_repeater disconnected)) in
      ((run_repeater after s).finish_calls ≡ 1) × ((run_repeater after s).started ≡ s.started)
run_repeater-timeout disconnected before after =
    let s = run_repeater before (use_timed_repeater disconnected) in
    let t = repeater_step timeout_passed s in
    let (h, f, g) =
      run_repeater-IsOver after t.started t
        (timeout-IsOver s (run_repeater-IsSound disconnected before)) in
    (ground (arith, h.calls, f), g)
