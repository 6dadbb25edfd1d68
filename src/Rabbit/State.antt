-- ===== src/Rabbit/State.antt =====
-- The fields of `RabbitMqServer`, and the objects that it shares with the callbacks.
use nodejs_template.Prelude.{ℕ, Bool, false, Option, none, List, [], if◌then◌else◌, ◌==◌}
use nodejs_template.Text.{Text}

-- `message.customProperties`, once it is there; a property that is not set is `none`.
pub record Custom : Type 0 where
  pub rejected : Option Bool
  pub acked : Option Bool

pub record Consumer : Type 0 where
  pub channel : ℕ
  pub queue : Text
  pub prefetch : Option ℕ

-- The calls on the channel of a consumer that settle a message.
pub data Sent : Type 0 where
  rejected_with : ℕ → Option Bool → Sent
  acked_with : ℕ → Sent

pub record Server : Type 0 where
  -- whether there is a connection, and a url to connect to
  pub connected : Bool
  pub has_url : Bool
  -- channels by their random id, and the same channels in an array
  pub channel_pool : List (ℕ × ℕ)
  pub channel_array : List ℕ
  pub consumers : List (Text × Consumer)
  -- the messages whose callbacks run
  pub messages : List ℕ
  pub there_is_a_pending_restart : Bool
  pub closing : Bool
  -- the message objects: how many there are, and what each holds
  pub delivered : ℕ
  pub consumer_tag : ℕ → Text
  pub custom : ℕ → Option Custom
  -- the calls made so far, the last first
  pub sent : List Sent

abbrev pub no_server : Bool → Server
no_server has_url = record {
  connected = false;
  has_url = has_url;
  channel_pool = [];
  channel_array = [];
  consumers = [];
  messages = [];
  there_is_a_pending_restart = false;
  closing = false;
  delivered = 0;
  consumer_tag = λ _. [];
  custom = λ _. none;
  sent = [];
}

-- One field of one object is assigned.
unfoldable pub assign {ℓ} : {A : Type ℓ} → (ℕ → A) → ℕ → A → ℕ → A
assign store i value j = if i == j then value else store j
