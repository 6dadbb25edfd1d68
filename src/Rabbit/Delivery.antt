-- ===== src/Rabbit/Delivery.antt =====
-- The callback of `channel.consume`, `reject` and `ack`.
use nodejs_template.Prelude.{
  ℕ, ◌+◌, Bool, true, false, ◌||◌, Option, none, some, List, [], ◌∷◌, ◌==◌, if◌then◌else◌, map_get,
}
use nodejs_template.Text.{Text, text_eq}
use nodejs_template.Rabbit.State.{Custom, Consumer, Sent, rejected_with, acked_with, Server, assign}

-- `value ?? null` in a condition
unfoldable pub truthy : Option Bool → Bool
truthy none = false
truthy (some b) = b

abbrev pub no_custom : Custom
no_custom = record { rejected = none; acked = none }

-- `setCustomMessageProperties`: the object is made where it is missing.
unfoldable pub custom_or_new : Option Custom → Custom
custom_or_new none = no_custom
custom_or_new (some c) = c

unfoldable pub set_rejected : Server → ℕ → Bool → Server
unfolding assign custom_or_new
set_rejected s m b =
    let c = custom_or_new (s.custom m) in
    record s { custom = assign s.custom m (some (record c { rejected = some b })) }

unfoldable pub set_acked : Server → ℕ → Server
unfolding assign custom_or_new
set_acked s m =
    let c = custom_or_new (s.custom m) in
    record s { custom = assign s.custom m (some (record c { acked = some true })) }

-- The two calls of `getCustomMessageProperties`: an error where the object is missing.
unfoldable pub already_settled : Option Custom → Option Bool
unfolding truthy
already_settled none = none
already_settled (some c) = some (truthy c.rejected || truthy c.acked)

-- `this.consumers.get(consumerTag)?.channel` is called, unless the tag is missing.
unfoldable pub consumer_of : Server → Text → Option Consumer
consumer_of s [] = none
consumer_of s (c ∷ tag) = map_get text_eq s.consumers (c ∷ tag)

unfoldable pub call_on : Option Consumer → Server → Sent → Server
call_on none s call = s
call_on (some consumer) s call = record s { sent = call ∷ s.sent }

unfoldable pub call_channel : Server → ℕ → Sent → Server
unfolding consumer_of call_on
call_channel s m call = call_on (consumer_of s (s.consumer_tag m)) s call

-- The guard of both: `catch` logs, and the state is as it was when the error was thrown.
unfoldable pub unless_settled : Bool → Option Bool → Server → Server → Server
unless_settled false settled s s' = s
unless_settled true none s s' = s
unless_settled true (some true) s s' = s
unless_settled true (some false) s s' = s'

unfoldable pub reject : Server → ℕ → Option Bool → Server
unfolding unless_settled already_settled set_rejected call_channel
reject s m requeue =
    unless_settled s.connected (already_settled (s.custom m)) s
      (call_channel (set_rejected s m true) m (rejected_with m requeue))

unfoldable pub ack : Server → ℕ → Server
unfolding unless_settled already_settled set_acked call_channel
ack s m =
    unless_settled s.connected (already_settled (s.custom m)) s
      (call_channel (set_acked s m) m (acked_with m))

unfoldable pub without : ℕ → List ℕ → List ℕ
without m [] = []
without m (n ∷ rest) = let others = without m rest in if n == m then others else n ∷ others

-- `finally`
unfoldable pub end_message : Server → ℕ → Server
unfolding ack without
end_message s m = let s' = ack s m in record s' { messages = without m s'.messages }

-- A message object arrives: it is new, and has no custom properties.
unfoldable pub arrive : Server → Text → Server
unfolding assign
arrive s tag = record s {
  delivered = s.delivered + 1;
  consumer_tag = assign s.consumer_tag s.delivered tag;
}

-- The handler up to the end of `JSON.parse`; the callback runs from there on.
unfoldable pub receive : Server → ℕ → Bool → Server
unfolding reject set_rejected end_message
receive s m is_json =
    if s.closing
    then end_message (reject s m none) m
    else let s' = set_rejected (record s { messages = m ∷ s.messages }) m false in
      if is_json then s' else end_message s' m

-- A delivery: the broker's null message is ignored.
unfoldable pub deliver : Server → Option Text → Bool → Server
unfolding arrive receive
deliver s none is_json = s
deliver s (some tag) is_json = receive (arrive s tag) s.delivered is_json

-- `payload.reject`, which the callback may call at any time: `requeue ?? true`.
unfoldable pub callback_reject : Server → ℕ → Option Bool → Server
unfolding reject
callback_reject s m none = reject s m (some true)
callback_reject s m (some requeue) = reject s m (some requeue)
