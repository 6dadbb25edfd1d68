-- ===== src/Cache/Request.antt =====
-- src/infra/http/service/adapters/cache-request-adapter.ts: an HTTP client that keeps responses. The
-- client behind it, the cache service, JSON and the hash are outside: they are parameters, and a
-- call of the cache service that throws on reading counts as a miss, as in the code's `catch`.
use nodejs_template.Prelude.{
  ℕ, zero, suc, ◌*◌, Option, none, some, List, [], ◌∷◌, ◌++◌, ltb, if◌then◌else◌, map_get, map_set,
}
use nodejs_template.Text.{Text, text_eq, to_upper_case}

pub data Services : Type 0 where
  memjs node_cache : Services

pub record AdapterOptions : Type 0 where
  pub cache_service : Option Services
  pub headers_fields : List Text
  pub ttl : Option ℕ

-- A body is missing, a value that `String` prints, or an object with its JSON, if it has one.
pub data RequestBody : Type 0 where
  missing : RequestBody
  printed_as : Text → RequestBody
  object_as : Option Text → RequestBody

-- A header that is undefined is `none`, any other is what `String` prints.
pub record Request : Type 0 where
  pub method : Option Text
  pub url : Text
  pub headers : Option (List (Text × Option Text))
  pub body : RequestBody

pub record CacheKey : Type 0 where
  pub method : Text
  pub url : Text
  pub headers : List (Text × Text)
  pub body : Text

abbrev pub max_result_size : ℕ
max_result_size = 1024 * 1024 * 1

unfoldable pub serialize_body : RequestBody → Text
serialize_body missing = []
serialize_body (printed_as t) = t
serialize_body (object_as none) = []
serialize_body (object_as (some json)) = json

unfoldable pub get_cache_service : AdapterOptions → Services
get_cache_service options = elim options.cache_service [
  | none ↦ node_cache
  | some service ↦ service
]

unfoldable pub get_ttl : AdapterOptions → ℕ
get_ttl options = elim options.ttl [ none ↦ 60 | some zero ↦ 60 | some (suc n) ↦ suc n ]

-- `headers[field]`
unfoldable pub header_at : List (Text × Option Text) → Text → Option Text
header_at headers field = elim (map_get text_eq headers field) [ none ↦ none | some value ↦ value ]

-- The loop over the fields.
unfoldable pub pick_headers :
    List (Text × Option Text) → List Text → List (Text × Text) → List (Text × Text)
unfolding header_at
pick_headers headers [] relevant = relevant
pick_headers headers (field ∷ fields) relevant =
    pick_headers headers fields (elim (header_at headers field) [
      | none ↦ relevant
      | some value ↦ map_set text_eq relevant field value
    ])

unfoldable pub get_relevant_headers :
    AdapterOptions → Option (List (Text × Option Text)) → List (Text × Text)
unfolding pick_headers
get_relevant_headers options none = []
get_relevant_headers options (some headers) = pick_headers headers options.headers_fields []

unfoldable pub cache_key : AdapterOptions → Request → CacheKey
unfolding get_relevant_headers serialize_body to_upper_case
cache_key options request = record {
  method = elim request.method [ none ↦ [] | some method ↦ to_upper_case method ];
  url = request.url;
  headers = get_relevant_headers options request.headers;
  body = serialize_body request.body;
}

-- The cache services: what is stored under a key is a response (`node-cache`) or a text (`memjs`). A
-- call has the time at which it is made, in seconds, and a value is set for a number of seconds.
pub record CacheService (S R : Type 0) : Type 0 where
  pub get_response : S → ℕ → Text → Option R
  pub set_response : S → ℕ → Text → R → ℕ → S
  pub get_text : S → ℕ → Text → Option Text
  pub set_text : S → ℕ → Text → Text → ℕ → S

-- `JSON` of a response, the length of a text in bytes, the keys of a response, and the hash of the
-- JSON of a key.
pub record Codec (R : Type 0) : Type 0 where
  pub stringify : R → Text
  pub parse : Text → Option R
  pub byte_length : Text → ℕ
  pub count_keys : R → ℕ
  pub hash_key : CacheKey → Text

-- The adapter's surroundings: the cache, the time, the responses still to be saved (`setImmediate`), and the
-- requests that went through to the client.
pub record World (S R : Type 0) : Type 0 where
  pub store : S
  pub now : ℕ
  pub to_save : List (Text × R)
  pub requested : List Request

module _ {S R : Type 0} (service : CacheService S R) (codec : Codec R)
    (options : AdapterOptions) where
  unfoldable pub generate_cache_key : Request → Text
  unfolding cache_key
  generate_cache_key request = codec.hash_key (cache_key options request)

  unfoldable pub get_cached_response : S → ℕ → Text → Option R
  unfolding get_cache_service
  get_cached_response store now key = elim (get_cache_service options) [
    | node_cache ↦ service.get_response store now key
    | memjs ↦ elim (service.get_text store now key) [ none ↦ none | some json ↦ codec.parse json ]
  ]

  unfoldable pub save_to_cache : S → ℕ → Text → R → S
  unfolding get_cache_service get_ttl
  save_to_cache store now key response =
      let json = codec.stringify response in
      if ltb max_result_size (codec.byte_length json)
      then store
      else elim (get_cache_service options) [
        | node_cache ↦ service.set_response store now key response (get_ttl options)
        | memjs ↦ service.set_text store now key json (get_ttl options)
      ]

  -- A cached response with one key or none is not used.
  unfoldable pub usable : Option R → Option R
  usable none = none
  usable (some response) = if ltb 1 (codec.count_keys response) then some response else none

  -- `request`; `fetched` is what the client answers if it is asked.
  unfoldable pub request_cached : R → Request → World S R → R × World S R
  unfolding generate_cache_key get_cached_response usable
  request_cached fetched request w =
      let key = generate_cache_key request in
      elim (usable (get_cached_response w.store w.now key)) [
        | some response ↦ (response, w)
        | none ↦ (
          fetched,
          record w {
            to_save = w.to_save ++ (key, fetched) ∷ [];
            requested = w.requested ++ request ∷ [];
          },
        )
      ]

  -- The callbacks of `setImmediate`, in order.
  unfoldable pub save_all : S → ℕ → List (Text × R) → S
  unfolding save_to_cache
  save_all store now [] = store
  save_all store now ((key, response) ∷ rest) =
      save_all (save_to_cache store now key response) now rest

  unfoldable pub run_immediates : World S R → World S R
  unfolding save_all
  run_immediates w = record w { store = save_all w.store w.now w.to_save; to_save = [] }
