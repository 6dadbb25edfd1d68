-- ===== src/Helm/Secrets.antt =====
-- Where the values of an environment file end up.
use nodejs_template.Prelude.{
  ◌||◌, ◌≡◌, ap, Bool, true, Option, none, some, List, [], ◌∷◌, map_get, arith, if◌then◌else◌, not,
}
use nodejs_template.Text.{Text, text_eq}
use nodejs_template.Text.Equality.{text_eq_iff}
use nodejs_template.Helm.Distinct.{
  LacksKey, HasDistinctKeys, get_env_values-HasDistinctKeys, map_get-from_env_entries,
}
use nodejs_template.Helm.{
  Env, is_ignored, is_secret, env_entries_filtered, secret_entries, config_map_entries,
  extract_secrets_and_config_maps_from_env, get_env_values,
}

-- A test on keys does not tell equal keys apart.
same-key : (test : Text → Bool) (k key : Text) → text_eq k key ≡ true → test k ≡ test key
same-key test k key e = ap test ((text_eq_iff k key).0 e)

map_get-env_entries_filtered :
    (env : Env) (key : Text)
    → map_get text_eq (env_entries_filtered env) key
      ≡ (if is_ignored key then none else map_get text_eq env key)
unfolding env_entries_filtered
map_get-env_entries_filtered [] key = ground arith
map_get-env_entries_filtered ((k, v) ∷ env) key =
    ground (arith, map_get-env_entries_filtered env key, same-key is_ignored k key)

map_get-config_map_entries :
    (secret_keys : List Text) (env : Env) (key : Text)
    → map_get text_eq (config_map_entries secret_keys env) key
      ≡ (if is_secret secret_keys key then none else map_get text_eq env key)
unfolding config_map_entries
map_get-config_map_entries secret_keys [] key = ground arith
map_get-config_map_entries secret_keys ((k, v) ∷ env) key =
    ground (
      arith,
      map_get-config_map_entries secret_keys env key,
      same-key (is_secret secret_keys) k key,
    )

-- `Option.map`, for the encoding of a value that is there.
abbrev pub encoded : (Text → Text) → Option Text → Option Text
encoded base64 none = none
encoded base64 (some value) = some (base64 value)

map_get-secret_entries :
    (base64 : Text → Text) (secret_keys : List Text) (env : Env) (key : Text)
    → map_get text_eq (secret_entries base64 secret_keys env) key
      ≡ (if is_secret secret_keys key then encoded base64 (map_get text_eq env key) else none)
unfolding secret_entries
map_get-secret_entries base64 secret_keys [] key = ground arith
map_get-secret_entries base64 secret_keys ((k, v) ∷ env) key = ground (
  arith,
  map_get-secret_entries base64 secret_keys env key,
  same-key (is_secret secret_keys) k key,
)

env_entries_filtered-LacksKey :
    (env : Env) (key : Text) → LacksKey key env → LacksKey key (env_entries_filtered env)
unfolding env_entries_filtered
env_entries_filtered-LacksKey [] key h = tt
env_entries_filtered-LacksKey ((k, v) ∷ env) key h =
    ground (arith, env_entries_filtered-LacksKey env key h.1)

env_entries_filtered-HasDistinctKeys :
    (env : Env) → HasDistinctKeys env → HasDistinctKeys (env_entries_filtered env)
unfolding env_entries_filtered
env_entries_filtered-HasDistinctKeys [] h = tt
env_entries_filtered-HasDistinctKeys ((k, v) ∷ env) h =
    ground
      (arith, env_entries_filtered-LacksKey env k h.0, env_entries_filtered-HasDistinctKeys env h.1)

config_map_entries-LacksKey :
    (secret_keys : List Text) (env : Env) (key : Text)
    → LacksKey key env
    → LacksKey key (config_map_entries secret_keys env)
unfolding config_map_entries
config_map_entries-LacksKey secret_keys [] key h = tt
config_map_entries-LacksKey secret_keys ((k, v) ∷ env) key h =
    ground (arith, config_map_entries-LacksKey secret_keys env key h.1)

config_map_entries-HasDistinctKeys :
    (secret_keys : List Text) (env : Env)
    → HasDistinctKeys env
    → HasDistinctKeys (config_map_entries secret_keys env)
unfolding config_map_entries
config_map_entries-HasDistinctKeys secret_keys [] h = tt
config_map_entries-HasDistinctKeys secret_keys ((k, v) ∷ env) h = ground (
  arith,
  config_map_entries-LacksKey secret_keys env k h.0,
  config_map_entries-HasDistinctKeys secret_keys env h.1,
)

secret_entries-LacksKey :
    (base64 : Text → Text) (secret_keys : List Text) (env : Env) (key : Text)
    → LacksKey key env
    → LacksKey key (secret_entries base64 secret_keys env)
unfolding secret_entries
secret_entries-LacksKey base64 secret_keys [] key h = tt
secret_entries-LacksKey base64 secret_keys ((k, v) ∷ env) key h =
    ground (arith, secret_entries-LacksKey base64 secret_keys env key h.1)

secret_entries-HasDistinctKeys :
    (base64 : Text → Text) (secret_keys : List Text) (env : Env)
    → HasDistinctKeys env
    → HasDistinctKeys (secret_entries base64 secret_keys env)
unfolding secret_entries
secret_entries-HasDistinctKeys base64 secret_keys [] h = tt
secret_entries-HasDistinctKeys base64 secret_keys ((k, v) ∷ env) h = ground (
  arith,
  secret_entries-LacksKey base64 secret_keys env k h.0,
  secret_entries-HasDistinctKeys base64 secret_keys env h.1,
)

-- Of the values of an environment file, whatever it contains: a secret, of the default ones or
-- those that are asked for, is in the secrets alone, encoded, and any other value is in the config
-- map alone, as it is; an ignored value is in neither, and nothing else is in either.
pub extract_secrets-get_env_values :
    (base64 : Text → Text) (content : Text) (secret_keys : List Text) (key : Text)
    → let env = get_env_values content in
      let maps = extract_secrets_and_config_maps_from_env base64 env secret_keys in
      (map_get text_eq maps.config_map key
        ≡ (if is_ignored key || is_secret secret_keys key then none else map_get text_eq env key))
      × (map_get text_eq maps.secret key ≡ (
          if is_ignored key || not (is_secret secret_keys key)
          then none
          else encoded base64 (map_get text_eq env key)))
unfolding extract_secrets_and_config_maps_from_env
extract_secrets-get_env_values base64 content secret_keys key =
    let env = get_env_values content in
    let filtered = env_entries_filtered env in
    let distinct =
      env_entries_filtered-HasDistinctKeys env (get_env_values-HasDistinctKeys content) in
    (
      ground (
        arith,
        map_get-from_env_entries (config_map_entries secret_keys filtered) [] key
            (config_map_entries-HasDistinctKeys secret_keys filtered distinct),
        map_get-config_map_entries secret_keys filtered key,
        map_get-env_entries_filtered env key,
      ),
      ground (
        arith,
        map_get-from_env_entries (secret_entries base64 secret_keys filtered) [] key
            (secret_entries-HasDistinctKeys base64 secret_keys filtered distinct),
        map_get-secret_entries base64 secret_keys filtered key,
        map_get-env_entries_filtered env key,
      ),
    )
