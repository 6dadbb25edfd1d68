-- ===== src/Rabbit/Publish/Run.antt =====
-- The array of channels follows the pool in runs of any length.
use nodejs_template.Prelude.{
  ℕ, suc, ◌≤◌, Bool, true, false, Option, none, some, List, [], ◌∷◌, refl, arith, inl, inr,
  Option-cases, map_get, map_delete,
}
use nodejs_template.Text.{Text, text_eq}
use nodejs_template.Rabbit.State.{Consumer, Sent, rejected_with, acked_with, Server, no_server}
use nodejs_template.Rabbit.Delivery
use nodejs_template.Rabbit.Connection
use nodejs_template.Rabbit.Connection.{StartResult, threw, done, state_of}
use nodejs_template.Rabbit.Events.{
  Event, deliver, callback_reject, end_message, start, stop, check_pending, channel_closed, consume,
  cancel_consumers, rebuild_consumer, restart, restart_rest, restart_timeout, step, run,
}
use nodejs_template.Rabbit.Once.{unless_settled-ends, if-ends}
use nodejs_template.Rabbit.Publish.{
  IsMirrored, start-IsMirrored, channel_closed-IsMirrored, IsPublished, publish_with-IsPublished,
}

call_on-IsMirrored :
    (o : Option Consumer) (s : Server) (call : Sent)
    → IsMirrored s
    → IsMirrored (Delivery.call_on o s call)
unfolding Delivery.call_on
call_on-IsMirrored none s call h = h
call_on-IsMirrored (some c) s call h = h

reject-IsMirrored :
    (s : Server) (m : ℕ) (requeue : Option Bool)
    → IsMirrored s
    → IsMirrored (Delivery.reject s m requeue)
unfolding Delivery.reject Delivery.call_channel Delivery.set_rejected
reject-IsMirrored s m requeue h =
    unless_settled-ends IsMirrored s.connected _ s _ h
      (λ e. call_on-IsMirrored _ (Delivery.set_rejected s m true) (rejected_with m requeue) h)

end_message-IsMirrored : (s : Server) (m : ℕ) → IsMirrored s → IsMirrored (Delivery.end_message s m)
unfolding Delivery.end_message Delivery.ack Delivery.call_channel Delivery.set_acked
end_message-IsMirrored s m h =
    unless_settled-ends IsMirrored s.connected _ s _ h
      (λ e. call_on-IsMirrored _ (Delivery.set_acked s m) (acked_with m) h)

deliver-IsMirrored :
    (s : Server) (tag : Option Text) (is_json : Bool)
    → IsMirrored s
    → IsMirrored (Delivery.deliver s tag is_json)
unfolding Delivery.deliver Delivery.receive Delivery.arrive Delivery.set_rejected
deliver-IsMirrored s none is_json h = h
deliver-IsMirrored s (some tag) is_json h =
    let s' = Delivery.arrive s tag in
    let begun =
      Delivery.set_rejected (record s' { messages = s.delivered ∷ s'.messages }) s.delivered
        false in
    if-ends IsMirrored s.closing _ _
      (end_message-IsMirrored (Delivery.reject s' s.delivered none) s.delivered
        (reject-IsMirrored s' s.delivered none h))
      (if-ends IsMirrored is_json _ _ h (end_message-IsMirrored begun s.delivered h))

callback_reject-IsMirrored :
    (s : Server) (m : ℕ) (requeue : Option Bool)
    → IsMirrored s
    → IsMirrored (Delivery.callback_reject s m requeue)
unfolding Delivery.callback_reject
callback_reject-IsMirrored s m none h = reject-IsMirrored s m (some true) h
callback_reject-IsMirrored s m (some b) h = reject-IsMirrored s m (some b) h

consume-IsMirrored :
    (s : Server) (answer : Option (ℕ × Text)) (queue : Text) (prefetch : Option ℕ)
    → IsMirrored s
    → IsMirrored (Connection.consume s answer queue prefetch)
unfolding Connection.consume
consume-IsMirrored s none queue prefetch h = h
consume-IsMirrored s (some (channel, tag)) queue prefetch h = ground (arith, h)

consume_all-IsMirrored :
    (s : Server) (consumers : List (Text × Consumer)) (answer : Text → Option (ℕ × Text))
    → IsMirrored s
    → IsMirrored (Connection.consume_all s consumers answer)
unfolding Connection.consume_all
consume_all-IsMirrored s [] answer h = h
consume_all-IsMirrored s ((tag, c) ∷ rest) answer h =
    consume_all-IsMirrored (Connection.consume s (answer tag) c.queue c.prefetch) rest answer
      (consume-IsMirrored s (answer tag) c.queue c.prefetch h)

check_pending-IsMirrored :
    (s : Server) (timed_out : Bool)
    → IsMirrored s
    → IsMirrored (Connection.check_pending s timed_out)
unfolding Connection.check_pending
check_pending-IsMirrored s timed_out h = ground (arith, h)

rebuild_consumer-IsMirrored :
    (s : Server) (tag : Text) (cancels : Bool) (answer : Option (ℕ × Text))
    → IsMirrored s
    → IsMirrored (Connection.rebuild_consumer s tag cancels answer)
unfolding Connection.rebuild_consumer
rebuild_consumer-IsMirrored s tag cancels answer h =
    elim (Option-cases (map_get text_eq s.consumers tag)) [
      | inl e ↦ ground (arith, h)
      | inr (c, e) ↦
          let deleted = record s { consumers = map_delete text_eq s.consumers tag } in
          ground (arith, h, consume-IsMirrored deleted answer c.queue c.prefetch h)
    ]

restart-IsMirrored : (s : Server) → IsMirrored s → IsMirrored (Connection.restart s)
unfolding Connection.restart Connection.stop
restart-IsMirrored s h = ground (arith, h)

restart_end-IsMirrored :
    (o : StartResult) (answer : Text → Option (ℕ × Text))
    → IsMirrored (state_of o)
    → IsMirrored (Connection.restart_end o answer)
unfolding Connection.restart_end Connection.rebuild_consumers state_of
restart_end-IsMirrored (threw s) answer h =
    restart-IsMirrored (record s { there_is_a_pending_restart = false }) h
restart_end-IsMirrored (done s) answer h =
    consume_all-IsMirrored (record s { consumers = [] }) s.consumers answer h

step-IsMirrored : (event : Event) (s : Server) → IsMirrored s → IsMirrored (step event s)
unfolding step Connection.stop Connection.cancel_consumers Connection.restart_timeout
    Connection.restart_rest
step-IsMirrored (deliver tag is_json) s h = deliver-IsMirrored s tag is_json h
step-IsMirrored (callback_reject m requeue) s h = callback_reject-IsMirrored s m requeue h
step-IsMirrored (end_message m) s h = end_message-IsMirrored s m h
step-IsMirrored (start connects created) s h = start-IsMirrored s connects created h
step-IsMirrored stop s h = h
step-IsMirrored (check_pending timed_out) s h = check_pending-IsMirrored s timed_out h
step-IsMirrored (channel_closed id created) s h = channel_closed-IsMirrored s id created
step-IsMirrored (consume answer queue prefetch) s h = consume-IsMirrored s answer queue prefetch h
step-IsMirrored cancel_consumers s h = h
step-IsMirrored (rebuild_consumer tag cancels answer) s h =
    rebuild_consumer-IsMirrored s tag cancels answer h
step-IsMirrored restart s h = restart-IsMirrored s h
step-IsMirrored (restart_rest connects created answer) s h =
    restart_end-IsMirrored (Connection.start s connects created) answer
      (start-IsMirrored s connects created h)
step-IsMirrored restart_timeout s h = h

run-IsMirrored : (events : List Event) (s : Server) → IsMirrored s → IsMirrored (run events s)
unfolding run
run-IsMirrored [] s h = h
run-IsMirrored (event ∷ rest) s h = run-IsMirrored rest (step event s) (step-IsMirrored event s h)

no_server-IsMirrored : (has_url : Bool) → IsMirrored (no_server has_url)
unfolding Connection.values
no_server-IsMirrored has_url = refl

-- Whatever happened before, a publication is refused for want of a connection or of channels, or it
-- goes out on a channel of the pool: the index that is drawn never misses the array.
run-IsPublished :
    (events : List Event) (has_url : Bool) (random_int : ℕ → ℕ)
    → ((n : ℕ) → random_int (suc n) ≤ n)
    → let s = run events (no_server has_url) in
      IsPublished s.connected s.channel_pool (Connection.publish_in_queue s random_int)
      × IsPublished s.connected s.channel_pool (Connection.publish_in_exchange s random_int)
unfolding Connection.publish_in_queue Connection.publish_in_exchange
run-IsPublished events has_url random_int bound =
    let s = run events (no_server has_url) in
    let mirrored = run-IsMirrored events (no_server has_url) (no_server-IsMirrored has_url) in
    let published =
      publish_with-IsPublished s.connected s.channel_pool s.channel_array random_int bound
        mirrored in
    (published, published)
