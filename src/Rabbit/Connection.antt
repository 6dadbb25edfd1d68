-- ===== src/Rabbit/Connection.antt =====
-- The connection, the pool of channels, the consumers and the two ways to publish.
use nodejs_template.Prelude.{
  ℕ, suc, Bool, true, false, not, ◌&&◌, ◌||◌, Option, none, some, List, [], ◌∷◌, ◌==◌, length,
  get_elem?, if◌then◌else◌, map_get, map_set, map_delete,
}
use nodejs_template.Text.{Text, text_eq}
use nodejs_template.Rabbit.State.{Consumer, Server}

abbrev pub channel_pool_length : ℕ
channel_pool_length = 3

abbrev pub same_id : ℕ → ℕ → Bool
same_id a b = a == b

unfoldable pub values : List (ℕ × ℕ) → List ℕ
values [] = []
values ((id, channel) ∷ rest) = channel ∷ values rest

-- `Promise.allSettled`: a new channel with its random id, or a failure.
unfoldable pub add_channels : Server → List (Option (ℕ × ℕ)) → Server
unfolding values
add_channels s [] = s
add_channels s (none ∷ rest) = add_channels s rest
add_channels s (some (id, channel) ∷ rest) =
    let pool = map_set same_id s.channel_pool id channel in
    add_channels (record s { channel_pool = pool; channel_array = values pool }) rest

-- The error of `createChannelPool` and of `start`, or the new state.
pub data StartResult : Type 0 where
  threw : Server → StartResult
  done : Server → StartResult

unfoldable pub state_of : StartResult → Server
state_of (threw s) = s
state_of (done s) = s

unfoldable pub create_channel_pool : Server → List (Option (ℕ × ℕ)) → StartResult
unfolding add_channels
create_channel_pool s created = if not s.connected then threw s else done (add_channels s created)

-- The listener of a channel's `close`, with `CHECK_CHANNEL_POOL`.
unfoldable pub channel_closed : Server → ℕ → List (Option (ℕ × ℕ)) → Server
unfolding values create_channel_pool state_of
channel_closed s id created =
    let pool = map_delete same_id s.channel_pool id in
    let s' = record s { channel_pool = pool; channel_array = values pool } in
    elim pool [ [] ↦ state_of (create_channel_pool s' created) | _ ∷ _ ↦ s' ]

-- `start`: whether `connect` succeeds, and the channels that are created.
unfoldable pub start_with : Server → List (Option (ℕ × ℕ)) → StartResult
unfolding add_channels
start_with s created =
    let s' = add_channels (record s { connected = true }) created in
    elim s'.channel_pool [ [] ↦ threw s' | _ ∷ _ ↦ done s' ]

unfoldable pub start : Server → Bool → List (Option (ℕ × ℕ)) → StartResult
unfolding start_with
start s connects created =
    if s.connected || (s.has_url && connects) then start_with s created else threw s

-- `stop` up to its wait, and its end: the wait ends with no message pending, or after its time.
unfoldable pub stop : Server → Server
stop s = record s { closing = true }

unfoldable pub check_pending : Server → Bool → Server
check_pending s timed_out =
    let closed = record s { connected = false; closing = false } in
    if not s.closing
    then s
    else elim s.messages [ [] ↦ closed | _ ∷ _ ↦ if timed_out then closed else s ]

-- `consume`: the broker gives a channel and a tag for the consumer, or the call fails.
unfoldable pub consume : Server → Option (ℕ × Text) → Text → Option ℕ → Server
consume s none queue prefetch = s
consume s (some (channel, tag)) queue prefetch = if not s.connected then s else record s {
  consumers =
      map_set text_eq s.consumers tag
        (record { channel = channel; queue = queue; prefetch = prefetch });
}

-- `cancelConsumers` deletes them all, whatever the channels answer.
unfoldable pub cancel_consumers : Server → Server
cancel_consumers s = record s { consumers = [] }

-- `rebuildConsumers(false)`: all are deleted, and each is consumed again.
unfoldable pub consume_all : Server → List (Text × Consumer) → (Text → Option (ℕ × Text)) → Server
unfolding consume
consume_all s [] answer = s
consume_all s ((tag, c) ∷ rest) answer =
    consume_all (consume s (answer tag) c.queue c.prefetch) rest answer

unfoldable pub rebuild_consumers : Server → (Text → Option (ℕ × Text)) → Server
unfolding consume_all
rebuild_consumers s answer = consume_all (record s { consumers = [] }) s.consumers answer

-- `rebuildConsumer`: whether the old channel is cancelled and closed without an error.
unfoldable pub rebuild_consumer : Server → Text → Bool → Option (ℕ × Text) → Server
unfolding consume
rebuild_consumer s tag cancels answer =
    if not s.connected
    then s
    else if s.there_is_a_pending_restart || s.closing
    then s
    else elim (map_get text_eq s.consumers tag) [
      | none ↦ s
      | some c ↦
          let s' = record s { consumers = map_delete text_eq s.consumers tag } in
          if cancels then consume s' answer c.queue c.prefetch else s'
    ]

-- `restart` up to the wait of `stop`, what follows it, and the timer that allows the next one.
unfoldable pub restart : Server → Server
unfolding stop
restart s =
    if s.there_is_a_pending_restart
    then s
    else stop (record s { there_is_a_pending_restart = true })

-- After an error the event is emitted again.
unfoldable pub restart_end : StartResult → (Text → Option (ℕ × Text)) → Server
unfolding rebuild_consumers restart
restart_end (threw s) answer = restart (record s { there_is_a_pending_restart = false })
restart_end (done s) answer = rebuild_consumers s answer

unfoldable pub restart_rest :
    Server → Bool → List (Option (ℕ × ℕ)) → (Text → Option (ℕ × Text)) → Server
unfolding start restart_end
restart_rest s connects created answer = restart_end (start s connects created) answer

unfoldable pub restart_timeout : Server → Server
restart_timeout s = record s { there_is_a_pending_restart = false }

-- What `publishInQueue` and `publishInExchange` end with; `undefined_channel` is the call of a
-- method of `undefined`.
pub data Published : Type 0 where
  connection_not_defined empty_channel_pool undefined_channel : Published
  sent_on : ℕ → Published

-- Both pick a channel by `randomInt(0, this.channelPool.size)`, which is the argument here.
unfoldable pub send_on : Option ℕ → Published
send_on none = undefined_channel
send_on (some channel) = sent_on channel

unfoldable pub publish_with : Bool → List (ℕ × ℕ) → List ℕ → (ℕ → ℕ) → Published
unfolding send_on
publish_with false pool array random_int = connection_not_defined
publish_with true [] array random_int = empty_channel_pool
publish_with true (first ∷ rest) array random_int =
    send_on (get_elem? array (random_int (suc (length rest))))

unfoldable pub publish_in_queue : Server → (ℕ → ℕ) → Published
unfolding publish_with
publish_in_queue s random_int = publish_with s.connected s.channel_pool s.channel_array random_int

unfoldable pub publish_in_exchange : Server → (ℕ → ℕ) → Published
unfolding publish_with
publish_in_exchange s random_int =
    publish_with s.connected s.channel_pool s.channel_array random_int
