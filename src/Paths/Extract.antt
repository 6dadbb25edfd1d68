-- ===== src/Paths/Extract.antt =====
-- src/plugin/extract-values.ts: the object that is made of the values at the configured paths. The
-- entries of an item are in the order in which `Object.entries` gives them; that the object is
-- validated afterwards is not here.
use nodejs_template.Prelude.{
  Bool, true, false, not, ◌&&◌, ◌||◌, Option, none, some, List, [], ◌∷◌, ◌++◌, if◌then◌else◌,
}
use nodejs_template.Value.{Value, undefined, Fields, end}
use nodejs_template.Text.{Text, text, text_eq}
use nodejs_template.Paths.{is_truthy, field_at, get_in}
use nodejs_template.Keys.{first_part, other_parts, set_field}

-- A path, whose last chunk is the key; or the entries of an object, alias and path.
pub data ConfigItem : Type 0 where
  path_item : Text → ConfigItem
  alias_item : List (Text × Text) → ConfigItem

pub record Target : Type 0 where
  pub key_name : Text
  pub target : Text
  pub path : Text

unfoldable pub join_dot : List Text → Text
join_dot [] = []
join_dot (part ∷ []) = part
join_dot (part ∷ next ∷ parts) = part ++ (b'.' ∷ join_dot (next ∷ parts))

unfoldable pub last {ℓ} : {A : Type ℓ} → List A → Option A
last [] = none
last (x ∷ xs) = elim (last xs) [ none ↦ some x | some y ↦ some y ]

-- The arguments of `setKeyValue` for an item, if it is called.
unfoldable pub target_of : ConfigItem → Option Target
unfolding last join_dot first_part other_parts
target_of (path_item value) = elim (last (other_parts b'.' value)) [
  | none ↦ none
  | some [] ↦ none
  | some (c ∷ s) ↦ some (record {
    key_name = c ∷ s;
    target = first_part b'.' value;
    path = join_dot (other_parts b'.' value);
  })
]
target_of (alias_item entries) = elim (last entries) [
  | none ↦ none
  | some (alias, value) ↦ some (record {
    key_name = alias;
    target = first_part b'.' value;
    path = join_dot (other_parts b'.' value);
  })
]

unfoldable pub is_source : Text → Bool
is_source target = text_eq target (text "state") || text_eq target (text "request")

unfoldable pub is_undefined : Value → Bool
is_undefined undefined = true
is_undefined value = false

unfoldable pub set_key_value : Fields → Fields → Target → Fields
unfolding is_source is_undefined is_truthy field_at get_in set_field
set_key_value sources object t =
    let value = get_in (field_at sources t.target) t.path in
    if not (is_source t.target)
    then object
    else if not (is_undefined (field_at object t.key_name)) && not (is_truthy value)
    then object
    else set_field t.key_name value object

unfoldable pub extract_from : Fields → List ConfigItem → Fields → Fields
unfolding target_of set_key_value
extract_from sources [] object = object
extract_from sources (item ∷ items) object =
    extract_from sources items
      (elim (target_of item) [ none ↦ object | some t ↦ set_key_value sources object t ])

unfoldable pub extract_values : Fields → List ConfigItem → Fields
unfolding extract_from
extract_values sources values = extract_from sources values end
