-- ===== src/Rabbit/Once/Run.antt =====
-- Runs of any length, from the constructor on.
use nodejs_template.Prelude.{ℕ, ◌≤◌, Bool, List, [], ◌∷◌, refl, inl, inr, arith}
use nodejs_template.Rabbit.State.{Server, no_server}
use nodejs_template.Rabbit.Connection
use nodejs_template.Rabbit.Events.{
  Event, deliver, callback_reject, end_message, start, stop, check_pending, channel_closed, consume,
  cancel_consumers, rebuild_consumer, restart, restart_rest, restart_timeout, step, run,
}
use nodejs_template.Rabbit.Once.Frame.{
  messages_of, start-messages, check_pending-messages, channel_closed-messages, consume-messages,
  rebuild_consumer-messages, restart-messages, restart_rest-messages,
}
use nodejs_template.Rabbit.Once.{
  calls_for, IsSound, frame, end_message-IsSound, deliver-IsSound, callback_reject-IsSound,
}

step-IsSound : (event : Event) (s : Server) → IsSound s → IsSound (step event s)
unfolding step
step-IsSound (deliver tag is_json) s sound = deliver-IsSound s tag is_json sound
step-IsSound (callback_reject m requeue) s sound = callback_reject-IsSound s m requeue sound
step-IsSound (end_message m) s sound = end_message-IsSound s m sound
step-IsSound (start connects created) s sound = frame s _ (start-messages s connects created) sound
step-IsSound stop s sound = frame s _ (unfold Connection.stop messages_of in refl) sound
step-IsSound (check_pending timed_out) s sound =
    frame s _ (check_pending-messages s timed_out) sound
step-IsSound (channel_closed id created) s sound =
    frame s _ (channel_closed-messages s id created) sound
step-IsSound (consume answer queue prefetch) s sound =
    frame s _ (consume-messages s answer queue prefetch) sound
step-IsSound cancel_consumers s sound =
    frame s _ (unfold Connection.cancel_consumers messages_of in refl) sound
step-IsSound (rebuild_consumer tag cancels answer) s sound =
    frame s _ (rebuild_consumer-messages s tag cancels answer) sound
step-IsSound restart s sound = frame s _ (restart-messages s) sound
step-IsSound (restart_rest connects created answer) s sound =
    frame s _ (restart_rest-messages s connects created answer) sound
step-IsSound restart_timeout s sound =
    frame s _ (unfold Connection.restart_timeout messages_of in refl) sound

run-IsSound : (events : List Event) (s : Server) → IsSound s → IsSound (run events s)
unfolding run
run-IsSound [] s sound = sound
run-IsSound (event ∷ rest) s sound = run-IsSound rest (step event s) (step-IsSound event s sound)

no_server-IsSound : (has_url : Bool) → IsSound (no_server has_url)
no_server-IsSound has_url m = record {
  fresh = λ h. (refl, unfold calls_for in refl);
  settles = inl (unfold calls_for in refl);
}

-- Whatever happens, in any order, no message is acknowledged or rejected twice: from the start at
-- most one of the two calls is made for a message, however often its callback rejects it.
pub run-calls_for :
    (events : List Event) (has_url : Bool) (m : ℕ)
    → calls_for m (run events (no_server has_url)).sent ≤ 1
run-calls_for events has_url m =
    elim (run-IsSound events (no_server has_url) (no_server-IsSound has_url) m).settles [
      | inl none_made ↦ omega arith
      | inr (settled, one_made) ↦ omega arith
    ]
