-- ===== src/Cache.antt =====
-- src/infra/cache/cache-server.ts: the client of the cache server, as a machine whose events are the
-- calls of its methods and the ends of the first calls of clients. The memjs client is outside: each one that is created has a number, and the
-- calls that it gets are recorded.
pub mod Address
pub mod Calls
pub mod Request
pub mod Twice
mod Tests
use nodejs_template.Prelude.{
  ℕ, zero, suc, ◌+◌, Bool, true, false, not, ◌&&◌, ◌||◌, Option, none, some, List, [], ◌∷◌, ◌++◌,
  map, any, ◌==◌, if◌then◌else◌,
}
use nodejs_template.Text.{Text, text}
use nodejs_template.Rabbit.Delivery.{without}

-- A field that is undefined is `none`; a port is what a template prints of it.
pub record Connection : Type 0 where
  pub host : Option Text
  pub port : Option Text
  pub user : Option Text
  pub password : Option Text

-- The arguments of `setCredentials`, by how many they are and what the first is.
pub data Credentials : Type 0 where
  one_connection : Connection → Credentials
  one_array : List Connection → Credentials
  -- two arguments or more, the first of them an array
  arrays : List Connection → List (List Connection) → Credentials
  -- two connections or more
  connections : Connection → Connection → List Connection → Credentials
  -- host, port, user and password
  separate : Connection → Credentials

unfoldable pub printed : Option Text → Text
printed none = text "undefined"
printed (some t) = t

unfoldable pub is_falsy : Option Text → Bool
is_falsy none = true
is_falsy (some []) = true
is_falsy (some (c ∷ t)) = false

unfoldable pub make_connection_string : Connection → Text
unfolding printed is_falsy
make_connection_string c =
    let server_and_port = printed c.host ++ (b':' ∷ printed c.port) in
    if is_falsy c.user || is_falsy c.password
    then server_and_port
    else printed c.user ++ (b':' ∷ printed c.password ++ (b'@' ∷ server_and_port))

-- `.join(',')`
unfoldable pub join_comma : List Text → Text
join_comma [] = []
join_comma (t ∷ []) = t
join_comma (t ∷ u ∷ ts) = t ++ (b',' ∷ join_comma (u ∷ ts))

-- The fields of a connection, read from an array.
unfoldable pub array_as_connection : List Connection → Connection
array_as_connection cs = record { host = none; port = none; user = none; password = none }

unfoldable pub credentials_string : Credentials → Text
unfolding make_connection_string join_comma array_as_connection
credentials_string (one_connection c) = make_connection_string c
credentials_string (one_array cs) = make_connection_string (array_as_connection cs)
credentials_string (arrays cs rest) = join_comma (map make_connection_string cs)
credentials_string (connections c d rest) = join_comma (map make_connection_string (c ∷ d ∷ rest))
credentials_string (separate c) = make_connection_string c

pub data Method : Type 0 where
  set_key replace_key : Method

-- A value is a text, or an object, of which its JSON is given.
pub data CacheValue : Type 0 where
  plain_text : Text → CacheValue
  json_object : Text → CacheValue

unfoldable pub parse_value_to_string : CacheValue → Text
parse_value_to_string (plain_text t) = t
parse_value_to_string (json_object t) = t

pub record SetOption : Type 0 where
  pub key : Text
  pub value : CacheValue
  pub ttl : Option ℕ

-- `ttl ? { expires: ttl } : undefined`
unfoldable pub expires : Option ℕ → Option ℕ
expires none = none
expires (some zero) = none
expires (some (suc n)) = some (suc n)

-- The calls on a memjs client.
pub data ClientCall : Type 0 where
  called_ping : ClientCall
  called_close : ClientCall
  called_define : Method → Text → Text → Option ℕ → ClientCall
  called_get : Text → ClientCall
  called_delete : Text → ClientCall

pub record CacheServer : Type 0 where
  -- the number of the client in `server`
  pub server : Option ℕ
  pub connection_string : Option Text
  pub connected : Bool
  -- how many clients were created, and the calls on them, the last first
  pub created : ℕ
  pub calls : List (ℕ × ClientCall)
  -- the clients whose first call has not ended, and those whose first call succeeded
  pub pinging : List ℕ
  pub answered : List ℕ

abbrev pub new_server : CacheServer
new_server = record {
  server = none;
  connection_string = none;
  connected = false;
  created = 0;
  calls = [];
  pinging = [];
  answered = [];
}

pub data CacheError : Type 0 where
  connection_error credentials_not_defined ping_failed type_error : CacheError

unfoldable pub set_credentials : Credentials → CacheServer → CacheServer
unfolding credentials_string
set_credentials args s = record s { connection_string = some (credentials_string args) }

-- A client is created and called; `connect` goes on when that call ends.
unfoldable pub open_client : CacheServer → CacheServer
open_client s = record s {
  server = some s.created;
  created = s.created + 1;
  calls = (s.created, called_ping) ∷ s.calls;
  pinging = s.created ∷ s.pinging;
}

-- `connect` up to its `await`.
unfoldable pub connect : CacheServer → CacheServer × Option CacheError
unfolding is_falsy open_client
connect s =
    if is_falsy s.connection_string
    then (s, some credentials_not_defined)
    else if s.connected
    then (s, none)
    else (open_client s, none)

abbrev pub contains : ℕ → List ℕ → Bool
contains n ns = any (λ m. m == n) ns

-- The rest of `connect`, for the client that it created; which client is in `server` by then does not
-- matter.
unfoldable pub ping_ended : ℕ → Bool → CacheServer → CacheServer × Option CacheError
unfolding without
ping_ended client answers s =
    let s' = record s { pinging = without client s.pinging } in
    if contains client s.pinging
    then if answers
      then (record s' { connected = true; answered = client ∷ s.answered }, none)
      else (s', some ping_failed)
    else (s, none)

-- A call on `this.server`.
unfoldable pub call_client : ClientCall → CacheServer → CacheServer × Option CacheError
call_client call s = elim s.server [
  | none ↦ (s, some type_error)
  | some client ↦ (record s { calls = (client, call) ∷ s.calls }, none)
]

unfoldable pub disconnected : CacheServer × Option CacheError → CacheServer × Option CacheError
disconnected (s, some error) = (s, some error)
disconnected (s, none) = (record s { connected = false }, none)

unfoldable pub disconnect : CacheServer → CacheServer × Option CacheError
unfolding call_client disconnected
disconnect s = disconnected (call_client called_close s)

-- `checkConnection`, and the call behind it.
unfoldable pub checked : ClientCall → CacheServer → CacheServer × Option CacheError
unfolding call_client
checked call s = if s.connected then call_client call s else (s, some connection_error)

-- `define`, for `set` and `replace`.
unfoldable pub define : Method → SetOption → CacheServer → CacheServer × Option CacheError
unfolding checked parse_value_to_string expires
define method option s =
    checked
      (called_define method option.key (parse_value_to_string option.value) (expires option.ttl)) s

unfoldable pub get : Text → CacheServer → CacheServer × Option CacheError
unfolding checked
get key s = checked (called_get key) s

unfoldable pub delete : Text → CacheServer → CacheServer × Option CacheError
unfolding checked
delete key s = checked (called_delete key) s

pub data CacheEvent : Type 0 where
  credentials_set : Credentials → CacheEvent
  connect_called : CacheEvent
  first_call_ended : ℕ → Bool → CacheEvent
  disconnect_called : CacheEvent
  define_called : Method → SetOption → CacheEvent
  get_called : Text → CacheEvent
  delete_called : Text → CacheEvent

unfoldable pub step : CacheEvent → CacheServer → CacheServer
unfolding set_credentials connect ping_ended disconnect define get delete
step (credentials_set args) s = set_credentials args s
step connect_called s = (connect s).0
step (first_call_ended client answers) s = (ping_ended client answers s).0
step disconnect_called s = (disconnect s).0
step (define_called method option) s = (define method option s).0
step (get_called key) s = (get key s).0
step (delete_called key) s = (delete key s).0

unfoldable pub run : List CacheEvent → CacheServer → CacheServer
unfolding step
run [] s = s
run (e ∷ es) s = run es (step e s)
