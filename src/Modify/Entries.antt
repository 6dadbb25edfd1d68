-- ===== src/Modify/Entries.antt =====
-- rename-keys.ts, process-value.ts, override-attribute-value.ts and tree-object.ts: objects that
-- are made entry by entry. The manifests are the entries of an object, with distinct keys.
use nodejs_template.Prelude.{
  ◌≡◌, refl, Option, none, some, List, [], ◌∷◌, length, drop, arith, if◌then◌else◌,
}
use nodejs_template.Text.{Text, text_eq, includes, lower, starts_with}
use nodejs_template.Text.Equality.{text_eq_iff}
use nodejs_template.Value.{Value, undefined, arr, obj, Items, nil, cons, Fields, end, field}
use nodejs_template.Keys.{set_field}
use nodejs_template.Paths.{field_at}
use nodejs_template.Paths.Lookup.{IsDistinct, has_field, field_at-set_field, has_field-Lacks}
use nodejs_template.Modify.{from_entries}

-- `new Map(Object.entries(manifest)).get(key)`
unfoldable pub manifest_get : {A : Type 0} → List (Text × A) → Text → Option A
manifest_get [] key = none
manifest_get ((k, a) ∷ rest) key =
    let others = manifest_get rest key in if text_eq k key then some a else others

-- `newKey ? [newKey, value] : [key, value]`
unfoldable pub new_key : List (Text × Text) → Text → Text
unfolding manifest_get
new_key manifest key = elim (manifest_get manifest key) [
  | none ↦ key
  | some [] ↦ key
  | some (c ∷ s) ↦ c ∷ s
]

unfoldable pub renamed_entries : List (Text × Text) → Fields → List (Text × Value)
unfolding new_key
renamed_entries manifest end = []
renamed_entries manifest (field key value rest) =
    (new_key manifest key, value) ∷ renamed_entries manifest rest

unfoldable pub rename_keys : Fields → List (Text × Text) → Fields
unfolding renamed_entries from_entries
rename_keys object manifest = from_entries (renamed_entries manifest object) end

unfoldable pub processed : List (Text × (Value → Value)) → Text → Value → Value
unfolding manifest_get
processed manifest key value = elim (manifest_get manifest key) [
  | none ↦ value
  | some fn ↦ fn value
]

unfoldable pub processed_entries : List (Text × (Value → Value)) → Fields → List (Text × Value)
unfolding processed
processed_entries manifest end = []
processed_entries manifest (field key value rest) =
    (key, processed manifest key value) ∷ processed_entries manifest rest

unfoldable pub process_value : Fields → List (Text × (Value → Value)) → Fields
unfolding processed_entries from_entries
process_value object manifest = from_entries (processed_entries manifest object) end

unfoldable pub overridden_entries : Text → Text → Fields → List (Text × Value)
overridden_entries attribute copy_from end = []
overridden_entries attribute copy_from (field key value rest) =
    let others = overridden_entries attribute copy_from rest in
    if text_eq key attribute
    then others
    else if text_eq key copy_from
    then (attribute, value) ∷ others
    else (key, value) ∷ others

-- `override`; a value that is no object is left as it is.
unfoldable pub override : Text → Text → Value → Value
unfolding overridden_entries from_entries
override attribute copy_from (obj fields) =
    obj (from_entries (overridden_entries attribute copy_from fields) end)
override attribute copy_from value = value

unfoldable pub override_items : Text → Text → Items → Items
unfolding override
override_items attribute copy_from nil = nil
override_items attribute copy_from (cons item rest) =
    cons (override attribute copy_from item) (override_items attribute copy_from rest)

unfoldable pub override_attribute_value : Value → Text → Text → Value
unfolding override_items
override_attribute_value (arr items) attribute copy_from =
    arr (override_items attribute copy_from items)
override_attribute_value value attribute copy_from = override attribute copy_from value

unfoldable pub lowercase_first_character : Text → Text
unfolding lower
lowercase_first_character [] = []
lowercase_first_character (c ∷ s) = lower c ∷ s

-- `key.replace(child, '')`: the first occurrence.
unfoldable pub remove_first : Text → Text → Text
remove_first part [] = []
remove_first part (c ∷ s) =
    let rest = remove_first part s in
    if starts_with part (c ∷ s) then drop (length part) (c ∷ s) else c ∷ rest

unfoldable pub child_entries : Text → Text → Fields → List (Text × Value)
unfolding lowercase_first_character remove_first
child_entries child exception end = []
child_entries child exception (field key value rest) =
    let others = child_entries child exception rest in
    if text_eq key exception
    then others
    else if includes child key
    then (lowercase_first_character (remove_first child key), value) ∷ others
    else others

unfoldable pub rest_entries : Text → Text → Fields → List (Text × Value)
rest_entries child exception end = []
rest_entries child exception (field key value rest) =
    let others = rest_entries child exception rest in
    if text_eq key exception
    then others
    else if includes child key
    then others
    else (key, value) ∷ others

-- `none` is the error of an object without the exception.
unfoldable pub tree_object : Fields → Text → Text → Option Fields
unfolding child_entries rest_entries from_entries set_field has_field field_at
tree_object object child exception =
    if has_field object exception
    then some (
        set_field child (obj (from_entries (child_entries child exception object) end)) (
          set_field exception (field_at object exception)
            (from_entries (rest_entries child exception object) end)))
    else none

field_at-processed_entries :
    (manifest : List (Text × (Value → Value))) (object built : Fields) (key : Text)
    → IsDistinct object
    → field_at (from_entries (processed_entries manifest object) built) key ≡ (
        if has_field object key
        then processed manifest key (field_at object key)
        else field_at built key)
unfolding from_entries processed_entries has_field field_at
field_at-processed_entries manifest end built key h = refl
field_at-processed_entries manifest (field k value rest) built key h =
    let new = processed manifest k value in
    ground (
      arith,
      field_at-processed_entries manifest rest (set_field k new built) key h.1,
      field_at-set_field built k key new,
      has_field-Lacks k rest h.0,
      text_eq_iff k key,
    )

-- A key of a processed object holds what its function in the manifest makes of what the object
-- holds there, or the same where the manifest has none; no key is added.
pub field_at-process_value :
    (object : Fields) (manifest : List (Text × (Value → Value))) (key : Text)
    → IsDistinct object
    → field_at (process_value object manifest) key
      ≡ (if has_field object key then processed manifest key (field_at object key) else undefined)
unfolding process_value field_at
field_at-process_value object manifest key h = field_at-processed_entries manifest object end key h
