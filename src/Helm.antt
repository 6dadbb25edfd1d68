-- ===== src/Helm.antt =====
-- script/helm/util.mjs: what the deployment files are made of. An object is its entries, with
-- distinct keys; the base 64 of a value is a parameter. Of white space `trim` takes what ASCII has.
pub mod Distinct
pub mod Secrets
pub mod Lines
mod Tests
use nodejs_template.Prelude.{
  Bool, true, false, not, ◌&&◌, ◌||◌, ◌==◌, leb, ℕ, Option, none, some, List, [], ◌∷◌, ◌++◌, map,
  map_get, map_set, if◌then◌else◌,
}
use nodejs_template.Text.{Text, text, text_eq, has, includes, starts_with, to_upper_case}
use nodejs_template.Keys.{first_part, other_parts}
use nodejs_template.Modify.Entries.{remove_first}

abbrev pub Env : Type 0
Env = List (Text × Text)

abbrev pub default_secret_values : List Text
default_secret_values =
    text "ENCRYPTION_KEY"
    ∷ text "ENCRYPTION_IV"
    ∷ text "DB_PASSWORD"
    ∷ text "DB_USERNAME"
    ∷ text "RABBIT_USER"
    ∷ text "RABBIT_PASSWORD"
    ∷ text "MONGO_USER"
    ∷ text "MONGO_PASSWORD"
    ∷ text "ELASTICSEARCH_USERNAME"
    ∷ text "ELASTICSEARCH_PASSWORD"
    ∷ text "APM_SECRET_TOKEN"
    ∷ []

abbrev pub environment_values_to_ignore : List Text
environment_values_to_ignore = text "SONAR_TOKEN" ∷ []

unfoldable pub is_space : ℕ → Bool
is_space c = (leb 9 c && leb c 13) || c == 32

unfoldable pub trim_start : Text → Text
unfolding is_space
trim_start [] = []
trim_start (c ∷ s) = let rest = trim_start s in if is_space c then rest else c ∷ s

unfoldable pub trim_end : Text → Text
unfolding is_space
trim_end [] = []
trim_end (c ∷ s) = elim (trim_end s) [ [] ↦ if is_space c then [] else c ∷ [] | d ∷ t ↦ c ∷ d ∷ t ]

-- `item.includes('=')`
unfoldable pub has_unit : ℕ → Text → Bool
has_unit unit [] = false
has_unit unit (c ∷ s) = let rest = has_unit unit s in if c == unit then true else rest

-- The entry of one line; `[key, value]` are the first two parts of it.
unfoldable pub line_entry : Text → Option (Text × Text)
unfolding has_unit trim_start trim_end first_part other_parts
line_entry item =
    let line = trim_start (trim_end item) in
    if has_unit b'=' item
    then elim (other_parts b'=' line) [
      | [] ↦ none
      | value ∷ rest ↦ some (first_part b'=' line, value)
    ]
    else none

unfoldable pub line_entries : List Text → Env
unfolding line_entry
line_entries [] = []
line_entries (line ∷ lines) =
    let rest = line_entries lines in
    elim (line_entry line) [ none ↦ rest | some entry ↦ entry ∷ rest ]

-- `Object.fromEntries`
unfoldable pub from_env_entries : {V : Type 0} → List (Text × V) → List (Text × V) → List (Text × V)
from_env_entries [] built = built
from_env_entries ((key, value) ∷ rest) built =
    from_env_entries rest (map_set text_eq built key value)

-- The values of a file, from its content.
unfoldable pub get_env_values : Text → Env
unfolding line_entries from_env_entries first_part other_parts
get_env_values content =
    from_env_entries (line_entries (first_part 10 content ∷ other_parts 10 content)) []

unfoldable pub is_ignored : Text → Bool
is_ignored key = has environment_values_to_ignore key

-- `[...new Set([...secretKeys, ...DEFAULT_SECRET_VALUES])].includes(key)`
unfoldable pub is_secret : List Text → Text → Bool
is_secret secret_keys key = has (secret_keys ++ default_secret_values) key

unfoldable pub env_entries_filtered : Env → Env
env_entries_filtered [] = []
env_entries_filtered ((key, value) ∷ env) =
    let rest = env_entries_filtered env in if is_ignored key then rest else (key, value) ∷ rest

unfoldable pub secret_entries : (Text → Text) → List Text → Env → Env
secret_entries base64 secret_keys [] = []
secret_entries base64 secret_keys ((key, value) ∷ env) =
    let rest = secret_entries base64 secret_keys env in
    if is_secret secret_keys key then (key, base64 value) ∷ rest else rest

unfoldable pub config_map_entries : List Text → Env → Env
config_map_entries secret_keys [] = []
config_map_entries secret_keys ((key, value) ∷ env) =
    let rest = config_map_entries secret_keys env in
    if is_secret secret_keys key then rest else (key, value) ∷ rest

pub record EnvironmentMaps : Type 0 where
  pub secret : Env
  pub config_map : Env

unfoldable pub extract_secrets_and_config_maps_from_env :
    (Text → Text) → Env → List Text → EnvironmentMaps
unfolding env_entries_filtered secret_entries config_map_entries from_env_entries
extract_secrets_and_config_maps_from_env base64 env secret_keys =
    let filtered = env_entries_filtered env in
    record {
      secret = from_env_entries (secret_entries base64 secret_keys filtered) [];
      config_map = from_env_entries (config_map_entries secret_keys filtered) [];
    }

pub record Variable : Type 0 where
  pub name : Text
  pub ref_name : Text

unfoldable pub generate_helm_required_variables_from_env : Env → Text → List Variable
generate_helm_required_variables_from_env [] app_name = []
generate_helm_required_variables_from_env ((key, value) ∷ env) app_name =
    record { name = key; ref_name = app_name }
    ∷ generate_helm_required_variables_from_env env app_name

pub record EnvironmentConfig : Type 0 where
  pub kind : Text
  pub secret_type : Option Text
  pub name : Text
  pub contents : Env

unfoldable pub generate_environment_config : Env → Text → Text → EnvironmentConfig
generate_environment_config contents app_name kind = record {
  kind = kind;
  secret_type = if text_eq kind (text "Secret") then some (text "Opaque") else none;
  name = app_name;
  contents = contents;
}

-- `find` over the entries of `DOCKER_REGISTER`, by the upper case of the host.
unfoldable pub docker_register : Text → Option Text
unfolding to_upper_case
docker_register host =
    let upper_host = to_upper_case host in
    if includes (text "GITHUB") upper_host
    then some (text "ghcr.io")
    else if includes (text "GITLAB") upper_host
    then some (text "registry.gitlab.com")
    else if includes (text "DEFAULT") upper_host
    then some (text "docker.io")
    else none

unfoldable pub not_empty : List Text → List Text
not_empty [] = []
not_empty ([] ∷ parts) = not_empty parts
not_empty ((c ∷ s) ∷ parts) = (c ∷ s) ∷ not_empty parts

unfoldable pub join_slash : List Text → Text
join_slash [] = []
join_slash (part ∷ []) = part
join_slash (part ∷ next ∷ parts) = part ++ (b'/' ∷ join_slash (next ∷ parts))

-- From the first line that git prints; `none` is a TypeError.
unfoldable pub get_gitlab_container_register_url : Text → Option Text
unfolding remove_first first_part other_parts not_empty docker_register join_slash
get_gitlab_container_register_url line =
    let address = remove_first (text ".git") line in
    elim (not_empty (first_part b'/' address ∷ other_parts b'/' address)) [
      | [] ↦ none
      | scheme ∷ [] ↦ none
      | scheme ∷ host ∷ uri ↦ elim (docker_register host) [
        | none ↦ none
        | some domain ↦ some (join_slash (domain ∷ uri))
      ]
    ]

pub record IngressPath : Type 0 where
  pub path : Text
  pub path_type : Text

unfoldable pub ingress_hosts : Text → List Text
unfolding to_upper_case
ingress_hosts environment =
    let name = to_upper_case environment in
    if text_eq name (text "PRODUCTION")
    then text "api.pagtel.com.br" ∷ []
    else if text_eq name (text "HOMOLOGATION")
    then text "homologation.pagtel.com.br" ∷ []
    else if text_eq name (text "STAGING")
    then text "staging.pagtel.com.br" ∷ []
    else if text_eq name (text "DEVELOPMENT")
    then text "development.pagtel.com.br" ∷ []
    else []

unfoldable pub make_ingress_hosts : List Text → Text → Text → List (Text × List IngressPath)
unfolding ingress_hosts
make_ingress_hosts [] environment base_url = []
make_ingress_hosts (route ∷ routes) environment base_url =
    map
      (λ host. (
        host,
        map (λ path. record { path = base_url ++ path; path_type = text "Exact" }) (route ∷ routes),
      ))
      (ingress_hosts environment)
