-- ===== src/Rabbit/Tests.antt =====
-- A short run of the server, and the theorems at concrete inputs.
use nodejs_template.Prelude.{
  ℕ, suc, ◌-◌, ◌≤◌, Bool, true, false, none, some, List, [], ◌∷◌, ◌≡◌, refl, arith,
}
use nodejs_template.Text.{Text, text}
use nodejs_template.Loader.{or_else}
use nodejs_template.Rabbit.State.{Consumer, Server, no_server, rejected_with, acked_with}
use nodejs_template.Rabbit.Delivery.{consumer_of}
use nodejs_template.Rabbit.Delivery
use nodejs_template.Rabbit.Connection
use nodejs_template.Rabbit.Connection.{publish_in_queue, publish_in_exchange, sent_on}
use nodejs_template.Rabbit.Events.{
  Event, deliver, callback_reject, end_message, start, stop, consume, run,
}
use nodejs_template.Rabbit.Once.{calls_for}
use nodejs_template.Rabbit.Once.Run.{run-calls_for}
use nodejs_template.Rabbit.Settle.{IsLive, deliver-settles}

abbrev tag : Text
tag = text "tag"

abbrev busy : List Event
busy =
    start true (some (0, 10) ∷ none ∷ some (2, 12) ∷ [])
    ∷ consume (some (20, tag)) (text "orders") (some 5)
    ∷ deliver (some tag) true
    ∷ deliver (some tag) true
    ∷ callback_reject 1 none
    ∷ callback_reject 1 (some false)
    ∷ end_message 1
    ∷ end_message 0
    ∷ stop
    ∷ deliver (some tag) true
    ∷ []

calls_made :
    ((run busy (no_server true)).sent ≡ acked_with 0 ∷ rejected_with 1 (some true) ∷ [])
    × (publish_in_queue (run busy (no_server true)) (λ n. n - 1) ≡ sent_on 12)
unfolding run publish_in_queue Delivery.deliver Delivery.callback_reject Connection.stop
    Connection.consume Connection.start
calls_made = (refl, refl)

run-calls_for_example : calls_for 1 (run busy (no_server true)).sent ≤ 1
run-calls_for_example = run-calls_for busy true 1

last_index : (n : ℕ) → suc n - 1 ≤ n
last_index n = omega arith

abbrev orders : Consumer
orders = record { channel = 20; queue = text "orders"; prefetch = some 5 }

abbrev at_work : Bool → Server
at_work closing = record (no_server true) {
  connected = true;
  closing = closing;
  consumers = (tag, orders) ∷ [];
}

at_work-IsLive : IsLive (at_work false) tag
unfolding consumer_of
at_work-IsLive = record { is_connected = refl; consumer = orders; is_known = refl }

deliver-settles_example :
    ((Delivery.end_message (Delivery.deliver (at_work false) (some tag) true) 0).sent
      ≡ acked_with 0 ∷ [])
    × ((Delivery.deliver (at_work false) (some tag) false).sent ≡ acked_with 0 ∷ [])
    × ((Delivery.end_message
          (Delivery.callback_reject
            (Delivery.deliver (at_work false) (some tag) true)
            0
            (some false))
          0).sent
        ≡ rejected_with 0 (some (or_else (some false) true)) ∷ [])
deliver-settles_example = deliver-settles (at_work false) tag (some false) refl at_work-IsLive refl
