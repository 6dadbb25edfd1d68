-- ===== src/Rabbit/Once/Frame.antt =====
-- The connection's operations leave the messages alone.
use nodejs_template.Prelude.{
  ℕ, Bool, true, false, Option, none, some, List, [], ◌∷◌, ◌≡◌, refl, ◌∙◌, map_get, map_set,
  map_delete, Option-cases, inl, inr, arith,
}
use nodejs_template.Text.{Text, text_eq}
use nodejs_template.Rabbit.State.{Custom, Consumer, Sent, Server}
use nodejs_template.Rabbit.Connection.{
  values, add_channels, StartResult, threw, done, state_of, create_channel_pool, channel_closed,
  start_with, start, stop, check_pending, consume, consume_all, rebuild_consumers, rebuild_consumer,
  restart, restart_end, restart_rest, same_id,
}

pub record Messages : Type 0 where
  pub delivered : ℕ
  pub custom : ℕ → Option Custom
  pub sent : List Sent

unfoldable pub messages_of : Server → Messages
messages_of s = record { delivered = s.delivered; custom = s.custom; sent = s.sent }

add_channels-messages :
    (s : Server) (created : List (Option (ℕ × ℕ)))
    → messages_of (add_channels s created) ≡ messages_of s
unfolding add_channels messages_of
add_channels-messages s [] = refl
add_channels-messages s (none ∷ rest) = add_channels-messages s rest
add_channels-messages s (some (id, channel) ∷ rest) =
    add_channels-messages
      (record s {
        channel_pool = map_set same_id s.channel_pool id channel;
        channel_array = values (map_set same_id s.channel_pool id channel);
      })
      rest

create-messages :
    (s : Server) (created : List (Option (ℕ × ℕ)))
    → messages_of (state_of (create_channel_pool s created)) ≡ messages_of s
unfolding create_channel_pool state_of messages_of
create-messages s created = ground (arith, add_channels-messages s created)

pub channel_closed-messages :
    (s : Server) (id : ℕ) (created : List (Option (ℕ × ℕ)))
    → messages_of (channel_closed s id created) ≡ messages_of s
unfolding channel_closed messages_of
channel_closed-messages s id created =
    let pool = map_delete same_id s.channel_pool id in
    ground (
      arith,
      create-messages (record s { channel_pool = pool; channel_array = values pool }) created,
    )

start_with-messages :
    (s : Server) (created : List (Option (ℕ × ℕ)))
    → messages_of (state_of (start_with s created)) ≡ messages_of s
unfolding start_with state_of messages_of
start_with-messages s created =
    ground (arith, add_channels-messages (record s { connected = true }) created)

pub start-messages :
    (s : Server) (connects : Bool) (created : List (Option (ℕ × ℕ)))
    → messages_of (state_of (start s connects created)) ≡ messages_of s
unfolding start state_of
start-messages s connects created = ground (arith, start_with-messages s created)

pub consume-messages :
    (s : Server) (answer : Option (ℕ × Text)) (queue : Text) (prefetch : Option ℕ)
    → messages_of (consume s answer queue prefetch) ≡ messages_of s
unfolding consume messages_of
consume-messages s none queue prefetch = refl
consume-messages s (some (channel, tag)) queue prefetch = ground arith

consume_all-messages :
    (s : Server) (consumers : List (Text × Consumer)) (answer : Text → Option (ℕ × Text))
    → messages_of (consume_all s consumers answer) ≡ messages_of s
unfolding consume_all
consume_all-messages s [] answer = refl
consume_all-messages s ((tag, c) ∷ rest) answer =
    consume_all-messages (consume s (answer tag) c.queue c.prefetch) rest answer
    ∙ consume-messages s (answer tag) c.queue c.prefetch

rebuild_consumers-messages :
    (s : Server) (answer : Text → Option (ℕ × Text))
    → messages_of (rebuild_consumers s answer) ≡ messages_of s
unfolding rebuild_consumers messages_of
rebuild_consumers-messages s answer =
    consume_all-messages (record s { consumers = [] }) s.consumers answer

pub check_pending-messages :
    (s : Server) (timed_out : Bool) → messages_of (check_pending s timed_out) ≡ messages_of s
unfolding check_pending messages_of
check_pending-messages s timed_out = ground arith

pub rebuild_consumer-messages :
    (s : Server) (tag : Text) (cancels : Bool) (answer : Option (ℕ × Text))
    → messages_of (rebuild_consumer s tag cancels answer) ≡ messages_of s
unfolding rebuild_consumer messages_of
rebuild_consumer-messages s tag cancels answer =
    elim (Option-cases (map_get text_eq s.consumers tag)) [
      | inl e ↦ ground arith
      | inr (c, e) ↦
          let deleted = record s { consumers = map_delete text_eq s.consumers tag } in
          ground (arith, consume-messages deleted answer c.queue c.prefetch)
    ]

pub restart-messages : (s : Server) → messages_of (restart s) ≡ messages_of s
unfolding restart stop messages_of
restart-messages s = ground arith

restart_end-messages :
    (o : StartResult) (answer : Text → Option (ℕ × Text))
    → messages_of (restart_end o answer) ≡ messages_of (state_of o)
unfolding restart_end state_of messages_of
restart_end-messages (threw s) answer =
    restart-messages (record s { there_is_a_pending_restart = false })
restart_end-messages (done s) answer = rebuild_consumers-messages s answer

pub restart_rest-messages :
    (s : Server) (connects : Bool) (created : List (Option (ℕ × ℕ)))
    (answer : Text → Option (ℕ × Text))
    → messages_of (restart_rest s connects created answer) ≡ messages_of s
unfolding restart_rest
restart_rest-messages s connects created answer =
    restart_end-messages (start s connects created) answer ∙ start-messages s connects created
