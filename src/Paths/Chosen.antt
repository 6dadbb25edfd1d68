-- ===== src/Paths/Chosen.antt =====
-- Which of the values that are configured for a key is in the extracted object.
use nodejs_template.Text.{Text, text_eq}
use nodejs_template.Text.Equality.{text_eq_iff}
use nodejs_template.Prelude.{
  Option-cases, inl, inr, sym, ◌∙◌, refl, not, ◌&&◌, Option, none, some, List, [], ◌∷◌, ◌≡◌, arith,
  if◌then◌else◌,
}
use nodejs_template.Paths.Lookup.{field_at-set_field}
use nodejs_template.Value.{
  null, bool_false, bool_true, num, str, date, arr, obj, Value, undefined, Fields, end,
}
use nodejs_template.Paths.{field_at, is_truthy, get_in}
use nodejs_template.Paths.Extract.{
  is_undefined, ConfigItem, target_of, is_source, extract_from, extract_values, set_key_value,
  Target,
}

-- The values at the paths that are configured for the key, the first first.
pub values_for : Fields → List ConfigItem → Text → List Value
values_for sources [] key = []
values_for sources (item ∷ items) key =
    let rest = values_for sources items key in
    elim (target_of item) [
      | none ↦ rest
      | some t ↦
          if is_source t.target && text_eq t.key_name key
          then get_in (field_at sources t.target) t.path ∷ rest
          else rest
    ]

pub first_defined : List Value → Value
first_defined [] = undefined
first_defined (value ∷ values) =
    let rest = first_defined values in if is_undefined value then rest else value

pub last_truthy : List Value → Option Value
last_truthy [] = none
last_truthy (value ∷ values) = elim (last_truthy values) [
  | none ↦ if is_truthy value then some value else none
  | some later ↦ some later
]

-- The last value that is truthy; without one the first that is not undefined.
unfoldable pub chosen : List Value → Value
chosen values = elim (last_truthy values) [ none ↦ first_defined values | some value ↦ value ]

-- A second value takes the first one's place as `setKeyValue` decides.
chosen-merge :
    (old new : Value) (values : List Value)
    → chosen (old ∷ new ∷ values)
      ≡ chosen ((if not (is_undefined old) && not (is_truthy new) then old else new) ∷ values)
unfolding chosen first_defined last_truthy is_undefined is_truthy
chosen-merge old new values = ground arith

chosen-one : (value : Value) → chosen (value ∷ []) ≡ value
unfolding chosen first_defined last_truthy is_undefined is_truthy
chosen-one undefined = refl
chosen-one null = refl
chosen-one bool_false = refl
chosen-one bool_true = refl
chosen-one (num s) = ground arith
chosen-one (str []) = refl
chosen-one (str (c ∷ s)) = refl
chosen-one (date s) = refl
chosen-one (arr items) = refl
chosen-one (obj fields) = refl

-- `setKeyValue` at each key.
field_at-set_key_value :
    (sources object : Fields) (t : Target) (key : Text)
    → let value = get_in (field_at sources t.target) t.path in
      let old = field_at object key in
      field_at (set_key_value sources object t) key ≡ (
        if is_source t.target && text_eq t.key_name key
        then (if not (is_undefined old) && not (is_truthy value) then old else value)
        else old)
unfolding set_key_value
field_at-set_key_value sources object t key =
    let value = get_in (field_at sources t.target) t.path in
    ground (arith, text_eq_iff t.key_name key, field_at-set_field object t.key_name key value)

chosen-undefined : (values : List Value) → chosen (undefined ∷ values) ≡ chosen values
unfolding chosen first_defined last_truthy is_undefined is_truthy
chosen-undefined values = ground arith

extract_from-chosen :
    (sources : Fields) (items : List ConfigItem) (object : Fields) (key : Text)
    → field_at (extract_from sources items object) key
      ≡ chosen (field_at object key ∷ values_for sources items key)
unfolding extract_from values_for
extract_from-chosen sources [] object key = sym (chosen-one (field_at object key))
extract_from-chosen sources (item ∷ items) object key =
    let values = values_for sources items key in
    elim (Option-cases (target_of item)) [
      | inl e ↦ ground (arith, e, extract_from-chosen sources items object key)
      | inr (t, e) ↦ ground (
        arith,
        e,
        extract_from-chosen sources items (set_key_value sources object t) key,
        field_at-set_key_value sources object t key,
        chosen-merge (field_at object key) (get_in (field_at sources t.target) t.path) values,
      )
    ]

-- The extracted object has at each key, of the values at the paths whose alias or last chunk it is,
-- the last truthy one, and without a truthy one the first that is not undefined; a key without such
-- paths in the state or the request is undefined.
pub extract_values-chosen :
    (sources : Fields) (config : List ConfigItem) (key : Text)
    → field_at (extract_values sources config) key ≡ chosen (values_for sources config key)
unfolding extract_values field_at
extract_values-chosen sources config key =
    extract_from-chosen sources config end key ∙ chosen-undefined (values_for sources config key)
