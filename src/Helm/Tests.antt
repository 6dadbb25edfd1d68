-- ===== src/Helm/Tests.antt =====
-- Environment files, and the theorems at concrete ones.
use nodejs_template.Prelude.{
  ◌≡◌, refl, ◌||◌, not, none, some, [], ◌∷◌, ◌++◌, map_get, arith, if◌then◌else◌,
}
use nodejs_template.Text.{Text, text, text_eq}
use nodejs_template.Helm.{
  get_env_values, extract_secrets_and_config_maps_from_env, is_ignored, is_secret, is_space,
  line_entry, get_gitlab_container_register_url,
}
use nodejs_template.Helm.Secrets.{encoded, extract_secrets-get_env_values}
use nodejs_template.Helm.Lines.{IsSolid, line_entry-equals}

-- An encoding, for the tests.
abbrev marked : Text → Text
marked value = b'~' ∷ value

abbrev content : Text
content = text "DB_PASSWORD=x" ++ (10 ∷ (text " PORT=80 " ++ (10 ∷ text "SONAR_TOKEN=t")))

sorted : extract_secrets_and_config_maps_from_env marked (get_env_values content) [] ≡ record {
  secret = (text "DB_PASSWORD", text "~x") ∷ [];
  config_map = (text "PORT", text "80") ∷ [];
}
unfolding extract_secrets_and_config_maps_from_env get_env_values is_ignored is_secret
sorted = refl

register :
    get_gitlab_container_register_url (text "https://gitlab.com/team/service.git")
    ≡ some (text "registry.gitlab.com/team/service")
unfolding get_gitlab_container_register_url
register = refl

-- Another host is an error, not the default register.
no_register : get_gitlab_container_register_url (text "https://host.org/team/service.git") ≡ none
unfolding get_gitlab_container_register_url
no_register = refl

extract_secrets-get_env_values_example :
    let env = get_env_values content in
    let maps = extract_secrets_and_config_maps_from_env marked env (text "PORT" ∷ []) in
    (map_get text_eq maps.config_map (text "PORT") ≡ (
      if is_ignored (text "PORT") || is_secret (text "PORT" ∷ []) (text "PORT")
      then none
      else map_get text_eq env (text "PORT")))
    × (map_get text_eq maps.secret (text "PORT") ≡ (
        if is_ignored (text "PORT") || not (is_secret (text "PORT" ∷ []) (text "PORT"))
        then none
        else encoded marked (map_get text_eq env (text "PORT"))))
extract_secrets-get_env_values_example =
    extract_secrets-get_env_values marked content (text "PORT" ∷ []) (text "PORT")

solid : IsSolid (text "KEY=ab==")
unfolding is_space
solid = ground arith

line_entry-equals_example : line_entry (text "KEY=ab==") ≡ some (text "KEY", text "ab")
line_entry-equals_example =
    line_entry-equals (text "KEY") (text "ab") (text "=") solid (ground arith) (ground arith)
