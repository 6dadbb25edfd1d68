-- ===== src/Rabbit/Events.antt =====
-- All that can happen to the server, one at a time.
use nodejs_template.Prelude.{ℕ, Bool, Option, List, [], ◌∷◌}
use nodejs_template.Text.{Text}
use nodejs_template.Rabbit.State.{Server}
use nodejs_template.Rabbit.Delivery
use nodejs_template.Rabbit.Connection

pub data Event : Type 0 where
  deliver : Option Text → Bool → Event
  callback_reject : ℕ → Option Bool → Event
  -- the callback of a message resolves or rejects
  end_message : ℕ → Event
  start : Bool → List (Option (ℕ × ℕ)) → Event
  stop : Event
  check_pending : Bool → Event
  channel_closed : ℕ → List (Option (ℕ × ℕ)) → Event
  consume : Option (ℕ × Text) → Text → Option ℕ → Event
  cancel_consumers : Event
  rebuild_consumer : Text → Bool → Option (ℕ × Text) → Event
  restart : Event
  restart_rest : Bool → List (Option (ℕ × ℕ)) → (Text → Option (ℕ × Text)) → Event
  restart_timeout : Event

unfoldable pub step : Event → Server → Server
unfolding Connection.state_of
step (deliver tag is_json) s = Delivery.deliver s tag is_json
step (callback_reject m requeue) s = Delivery.callback_reject s m requeue
step (end_message m) s = Delivery.end_message s m
step (start connects created) s = Connection.state_of (Connection.start s connects created)
step stop s = Connection.stop s
step (check_pending timed_out) s = Connection.check_pending s timed_out
step (channel_closed id created) s = Connection.channel_closed s id created
step (consume answer queue prefetch) s = Connection.consume s answer queue prefetch
step cancel_consumers s = Connection.cancel_consumers s
step (rebuild_consumer tag cancels answer) s = Connection.rebuild_consumer s tag cancels answer
step restart s = Connection.restart s
step (restart_rest connects created answer) s = Connection.restart_rest s connects created answer
step restart_timeout s = Connection.restart_timeout s

unfoldable pub run : List Event → Server → Server
unfolding step
run [] s = s
run (event ∷ rest) s = run rest (step event s)
