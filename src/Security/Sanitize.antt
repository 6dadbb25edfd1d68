-- ===== src/Security/Sanitize.antt =====
-- src/util/security/sanitize-object.ts: masking of the sensitive fields of a payload, which builds
-- new objects only around a masked value.
pub mod Reference
pub mod Leaks
use nodejs_template.Prelude.{
  ℕ, Bool, true, false, ◌&&◌, Option, none, some, List, [], ◌∷◌, if◌then◌else◌,
}
use nodejs_template.Text.{Text, text, text_eq, has}
use nodejs_template.Value.{
  Value, undefined, null, bool_false, bool_true, num, str, date, arr, obj, Items, nil, cons, Fields,
  end, field,
}
use nodejs_template.Security.Classify.{KeyType, card, key_type}
use nodejs_template.Security.Pan.{is_pan}
use nodejs_template.Security.Mask.{apply_mask}

unfoldable pub sensitive_sub_values : List Text
sensitive_sub_values = text "number" ∷ text "value" ∷ text "content" ∷ []

-- `isMaskable`, with `String(value)`.
unfoldable pub maskable : Value → Option Text
maskable (str s) = some s
maskable (num s) = some s
maskable _ = none

-- `isPAN` of any value.
unfoldable pub pan_value : Value → Bool
unfolding maskable
pan_value value = elim (maskable value) [ none ↦ false | some s ↦ is_pan s ]

-- `getSensitiveKeyType`; the cache of `classifyKey` answers `key_type`.
unfoldable pub get_sensitive_key_type : Text → Value → Option KeyType
unfolding pan_value
get_sensitive_key_type key value = elim (key_type key) [
  | some type ↦ some type
  | none ↦ if pan_value value then some card else none
]

-- `keyType ?? parentType`
unfoldable pub or_parent : Option KeyType → Option KeyType → Option KeyType
or_parent (some type) parent = some type
or_parent none parent = parent

-- The type by which a field is masked, if it is.
unfoldable pub mask_type : Text → Value → Option KeyType → Option KeyType
unfolding sensitive_sub_values
mask_type key value parent = elim (get_sensitive_key_type key value) [
  | some type ↦ some type
  | none ↦ if has sensitive_sub_values key then parent else none
]

-- `next !== value` for a masked text: texts are compared by value, a number is never a text.
unfoldable pub if_changed : Value → Text → Option Value
if_changed (str s) masked = if text_eq s masked then none else some (str masked)
if_changed value masked = some (str masked)

-- `sanitized ?? obj`
unfoldable pub or_else {ℓ} : {A : Type ℓ} → Option A → A → A
or_else none old = old
or_else (some new) old = new

-- The rest of a loop after one round: `sanitized` stays null while nothing has changed.
unfoldable pub copy_items : Value → Items → Option Value → Option Items → Option Items
copy_items item rest none none = none
copy_items item rest next rest' = some (cons (or_else next item) (or_else rest' rest))

unfoldable pub copy_fields : Text → Value → Fields → Option Value → Option Fields → Option Fields
copy_fields key value rest none none = none
copy_fields key value rest next rest' = some (field key (or_else next value) (or_else rest' rest))

-- `next` of one key; `inner` is the result of the recursive call, which is made for a value that
-- is not masked.
unfoldable pub next_value : Option KeyType → Text → Value → Option Value → Option Value
unfolding maskable mask_type if_changed
next_value parent key value inner = elim (maskable value) [
  | none ↦ inner
  | some s ↦ elim (mask_type key value parent) [
    | none ↦ inner
    | some type ↦ if_changed value (apply_mask s type)
  ]
]

-- `none` stands for an answer that is `===` to the received value. Not a number is not: an array or
-- an object is copied around it.
unfoldable mutual
  pub sanitize : Option KeyType → Value → Option Value
  sanitize parent (arr items) = elim (sanitize_items parent items) [
    | none ↦ none
    | some items' ↦ some (arr items')
  ]
  sanitize parent (obj fields) = elim (sanitize_fields parent fields) [
    | none ↦ none
    | some fields' ↦ some (obj fields')
  ]
  sanitize parent (num s) = if text_eq s (text "NaN") then some (num s) else none
  sanitize parent _ = none

  -- The loop over an array: `sanitized` is a copy once an item has changed.
  pub sanitize_items : Option KeyType → Items → Option Items
  sanitize_items parent nil = none
  sanitize_items parent (cons item rest) =
      copy_items item rest (sanitize parent item) (sanitize_items parent rest)

  -- The loop over the keys of an object.
  pub sanitize_fields : Option KeyType → Fields → Option Fields
  sanitize_fields parent end = none
  sanitize_fields parent (field key value rest) =
      copy_fields key value rest
        (next_value parent key value
          (sanitize (or_parent (get_sensitive_key_type key value) parent) value))
        (sanitize_fields parent rest)
