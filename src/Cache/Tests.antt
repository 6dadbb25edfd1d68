-- ===== src/Cache/Tests.antt =====
-- The cache at concrete inputs.
use nodejs_template.Cache.Calls.{IsLive, orderly, run-IsLive}
use nodejs_template.Cache.{
  CacheEvent, Connection, credentials_string, run, connections, credentials_set, new_server,
  one_array, text, called_get, one_connection, called_ping, get_called, connect_called,
  first_call_ended, step,
}
use nodejs_template.Cache.Request.{
  AdapterOptions, CacheService, Codec, Request, World, run_immediates, missing, request_cached,
}
use nodejs_template.Text.{Text, text_eq}
use nodejs_template.Prelude.{
  ℕ, ◌+◌, ltb, Option, if◌then◌else◌, ◌≡◌, refl, true, false, none, some, List, [], ◌∷◌, map_get,
  map_set, length,
}

abbrev local : Connection
local = record { host = some (text "h"); port = some (text "1"); user = none; password = none }

addresses :
    (credentials_string (connections local local []) ≡ text "h:1,h:1")
    × (credentials_string (one_array (local ∷ local ∷ [])) ≡ text "undefined:undefined")
unfolding credentials_string
addresses = (refl, refl)

abbrev events : List CacheEvent
events =
    credentials_set (one_connection local)
    ∷ get_called (text "k")
    ∷ connect_called
    ∷ first_call_ended 0 false
    ∷ get_called (text "k")
    ∷ connect_called
    ∷ first_call_ended 1 true
    ∷ get_called (text "k")
    ∷ []

calls :
    (run events new_server).calls
    ≡ (1, called_get (text "k")) ∷ (1, called_ping) ∷ (0, called_ping) ∷ []
unfolding run
calls = refl

events-orderly : orderly events new_server ≡ true
unfolding orderly
events-orderly = refl

-- The first call of the first client ends when a second one is in use, which has not answered.
overlapping :
    (run
      (credentials_set (one_connection local)
        ∷ connect_called
        ∷ connect_called
        ∷ first_call_ended 0 true
        ∷ get_called (text "k")
        ∷ [])
      new_server).calls
    ≡ (1, called_get (text "k")) ∷ (1, called_ping) ∷ (0, called_ping) ∷ []
unfolding run step
overlapping = refl

run-IsLive_example : IsLive (run events new_server)
run-IsLive_example = run-IsLive events events-orderly

-- A cache that keeps each text until its time, and responses that are texts, with their lengths for
-- keys.
abbrev Store : Type 0
Store = List (Text × (Text × ℕ))

abbrev live_at : ℕ → Option (Text × ℕ) → Option Text
live_at now none = none
live_at now (some (r, until)) = if ltb now until then some r else none

abbrev live_value : Store → ℕ → Text → Option Text
live_value s now key = live_at now (map_get text_eq s key)

abbrev keep_until : Store → ℕ → Text → Text → ℕ → Store
keep_until s now key r ttl = map_set text_eq s key (r, now + ttl)

abbrev memory : CacheService Store Text
memory = record {
  get_response = live_value;
  set_response = keep_until;
  get_text = live_value;
  set_text = keep_until;
}

abbrev plain : Codec Text
plain = record {
  stringify = λ r. r;
  parse = λ t. some t;
  byte_length = λ t. length t;
  count_keys = λ r. length r;
  hash_key = λ key. key.url;
}

abbrev request : Request
request = record { method = some (text "get"); url = text "/a"; headers = none; body = missing }

abbrev no_options : AdapterOptions
no_options = record { cache_service = none; headers_fields = []; ttl = none }

abbrev world : World Store Text
world = record { store = []; now = 0; to_save = []; requested = [] }

abbrev second_world : ℕ → World Store Text
second_world elapsed =
    let w =
      run_immediates memory plain no_options
        (request_cached memory plain no_options (text "one") request world).1 in
    record w { now = w.now + elapsed }

-- After the minute for which it is kept the response is asked for again.
expired :
    (request_cached memory plain no_options (text "two") request (second_world 61)).0 ≡ text "two"
unfolding request_cached run_immediates
expired = refl
