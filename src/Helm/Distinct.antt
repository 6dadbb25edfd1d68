-- ===== src/Helm/Distinct.antt =====
-- Objects of an environment, whose keys are distinct.
use nodejs_template.Prelude.{
  ◌≡◌, refl, false, Option, none, some, List, [], ◌∷◌, map_get, map_set, arith, inl, inr,
  Bool-cases,
}
use nodejs_template.Text.{Text, text_eq}
use nodejs_template.Text.Equality.{text_eq_iff, map_get-map_set}
use nodejs_template.Keys.{first_part, other_parts}
use nodejs_template.Helm.{line_entries, Env, from_env_entries, get_env_values}

abbrev pub LacksKey : {V : Type 0} → Text → List (Text × V) → Type 0
LacksKey key [] = Unit
LacksKey key ((k, v) ∷ rest) = (text_eq k key ≡ false) × LacksKey key rest

abbrev pub HasDistinctKeys : {V : Type 0} → List (Text × V) → Type 0
HasDistinctKeys [] = Unit
HasDistinctKeys ((k, v) ∷ rest) = LacksKey k rest × HasDistinctKeys rest

LacksKey-map_set :
    (m : Env) (j k value : Text)
    → text_eq k j ≡ false
    → LacksKey j m
    → LacksKey j (map_set text_eq m k value)
LacksKey-map_set [] j k value n h = (n, tt)
LacksKey-map_set ((i, v) ∷ rest) j k value n h =
    ground (arith, LacksKey-map_set rest j k value n h.1)

HasDistinctKeys-map_set :
    (m : Env) (k value : Text) → HasDistinctKeys m → HasDistinctKeys (map_set text_eq m k value)
HasDistinctKeys-map_set [] k value h = (tt, tt)
HasDistinctKeys-map_set ((i, v) ∷ rest) k value h = elim (Bool-cases (text_eq i k)) [
  | inl e ↦ rw e h
  | inr e ↦ rw e (
    LacksKey-map_set rest i k value (ground (arith, e, text_eq_iff i k, text_eq_iff k i)) h.0,
    HasDistinctKeys-map_set rest k value h.1,
  )
]

pub HasDistinctKeys-from_env_entries :
    (entries built : Env) → HasDistinctKeys built → HasDistinctKeys (from_env_entries entries built)
unfolding from_env_entries
HasDistinctKeys-from_env_entries [] built h = h
HasDistinctKeys-from_env_entries ((key, value) ∷ rest) built h =
    HasDistinctKeys-from_env_entries rest (map_set text_eq built key value)
      (HasDistinctKeys-map_set built key value h)

pub get_env_values-HasDistinctKeys : (content : Text) → HasDistinctKeys (get_env_values content)
unfolding get_env_values
get_env_values-HasDistinctKeys content =
    HasDistinctKeys-from_env_entries (line_entries (first_part 10 content ∷ other_parts 10 content))
      [] tt

map_get-LacksKey : (key : Text) (m : Env) → LacksKey key m → map_get text_eq m key ≡ none
map_get-LacksKey key [] h = refl
map_get-LacksKey key ((k, v) ∷ rest) h = ground (arith, h.0, map_get-LacksKey key rest h.1)

pub map_get-from_env_entries :
    (entries built : Env) (key : Text)
    → HasDistinctKeys entries
    → map_get text_eq (from_env_entries entries built) key
      ≡ elim (map_get text_eq entries key) as (λ o. Option Text) [
        | none ↦ map_get text_eq built key
        | some value ↦ some value
      ]
unfolding from_env_entries
map_get-from_env_entries [] built key h = refl
map_get-from_env_entries ((k, v) ∷ rest) built key h = ground (
  arith,
  map_get-from_env_entries rest (map_set text_eq built k v) key h.1,
  map_get-map_set built k key v,
  map_get-LacksKey k rest h.0,
  text_eq_iff k key,
)
