-- ===== src/Modify.antt =====
-- src/util/object/modifiers: objects made of objects. The keys of an object are distinct, and stand
-- in the order of insertion; `Object.fromEntries` of entries sets one after the other. No object has
-- a key `__proto__` of its own.
pub mod Merge
pub mod Group
pub mod Filter
pub mod Entries
mod Tests
use nodejs_template.Prelude.{
  Bool, true, false, not, ◌&&◌, ◌||◌, ℕ, zero, suc, ◌+◌, Option, none, some, List, [], ◌∷◌, ◌++◌,
  length, if◌then◌else◌,
}
use nodejs_template.Text.{Text, text, text_eq, includes, lower}
use nodejs_template.Value.{
  Value, undefined, null, bool_false, bool_true, num, str, date, arr, obj, Items, nil, cons, Fields,
  end, field,
}
use nodejs_template.Keys.{index_key, set_field}
use nodejs_template.Paths.{field_at}

unfoldable pub from_entries : List (Text × Value) → Fields → Fields
unfolding set_field
from_entries [] built = built
from_entries ((key, value) ∷ rest) built = from_entries rest (set_field key value built)

-- `new Set(values).has(key)`
unfoldable pub has_key : List Text → Text → Bool
has_key [] key = false
has_key (k ∷ keys) key = let rest = has_key keys key in if text_eq k key then true else rest

-- filter-keys.ts
pub data Action : Type 0 where
  allow : Action
  deny : Action

unfoldable pub keeps : Action → List Text → Text → Bool
unfolding has_key
keeps allow keys key = has_key keys key
keeps deny keys key = not (has_key keys key)

unfoldable pub kept_entries : Action → List Text → Fields → List (Text × Value)
unfolding keeps
kept_entries action keys end = []
kept_entries action keys (field k value rest) =
    let others = kept_entries action keys rest in
    if keeps action keys k then (k, value) ∷ others else others

unfoldable pub filter : Action → List Text → Fields → Fields
unfolding kept_entries from_entries
filter action [] object = object
filter action (k ∷ keys) object = from_entries (kept_entries action (k ∷ keys) object) end

-- Options that are missing are empty.
unfoldable pub filter_keys : List Text → List Text → Fields → Fields
unfolding filter
filter_keys allowed_keys denied_keys object =
    filter deny denied_keys (filter allow allowed_keys object)

-- group-by.ts: `(acc[callback(value)] ||= []).push(value)`
abbrev pub inherited_keys : List Text
inherited_keys =
    text "constructor"
    ∷ text "__defineGetter__"
    ∷ text "__defineSetter__"
    ∷ text "hasOwnProperty"
    ∷ text "__lookupGetter__"
    ∷ text "__lookupSetter__"
    ∷ text "isPrototypeOf"
    ∷ text "propertyIsEnumerable"
    ∷ text "toString"
    ∷ text "valueOf"
    ∷ text "__proto__"
    ∷ text "toLocaleString"
    ∷ []

module _ {A : Type 0} where
  unfoldable pub push_own : Text → A → List (Text × List A) → List (Text × List A)
  push_own key value [] = (key, value ∷ []) ∷ []
  push_own key value ((k, group) ∷ groups) =
      let others = push_own key value groups in
      if text_eq k key then (k, group ++ value ∷ []) ∷ groups else (k, group) ∷ others

  -- What `{}` inherits is truthy and has no `push`: a TypeError, which is `none`.
  unfoldable pub push_group : Text → A → List (Text × List A) → Option (List (Text × List A))
  unfolding has_key push_own
  push_group key value groups =
      if has_key inherited_keys key then none else some (push_own key value groups)

  unfoldable pub group_onto :
      (A → Text) → List A → List (Text × List A) → Option (List (Text × List A))
  unfolding push_group
  group_onto callback [] groups = some groups
  group_onto callback (value ∷ values) groups = elim (push_group (callback value) value groups) [
    | none ↦ none
    | some pushed ↦ group_onto callback values pushed
  ]

  unfoldable pub group_by : List A → (A → Text) → Option (List (Text × List A))
  unfolding group_onto
  group_by array callback = group_onto callback array []

-- merge.ts
unfoldable pub is_truthy_object : Value → Bool
is_truthy_object (date s) = true
is_truthy_object (arr items) = true
is_truthy_object (obj fields) = true
is_truthy_object value = false

unfoldable pub append_items : Items → Items → Items
append_items nil items = items
append_items (cons item rest) items = cons item (append_items rest items)

-- `pVal.concat(...oVal)`: an argument that is an array is concatenated.
unfoldable pub concat_spread : Items → Items → Items
unfolding append_items
concat_spread items nil = items
concat_spread items (cons (arr inner) rest) = concat_spread (append_items items inner) rest
concat_spread items (cons item rest) = concat_spread (append_items items (cons item nil)) rest

unfoldable pub item_fields : ℕ → Items → Fields
unfolding index_key
item_fields i nil = end
item_fields i (cons item rest) = field (index_key i) item (item_fields (i + 1) rest)

-- The entries of an object, as the first argument of `merge` leaves them in `{}`.
unfoldable pub as_fields : Value → Fields
unfolding item_fields
as_fields (obj fields) = fields
as_fields (arr items) = item_fields 0 items
as_fields value = end

unfoldable mutual
  unfolding is_truthy_object concat_spread as_fields set_field field_at index_key

  -- What `prev[key]` becomes.
  pub merge_value : Value → Value → Value
  merge_value p (obj fields) =
      if is_truthy_object p then obj (merge_onto (as_fields p) fields) else obj fields
  merge_value (arr old) (arr items) = arr (concat_spread old items)
  merge_value p (arr items) =
      if is_truthy_object p then obj (merge_items (as_fields p) 0 items) else arr items
  merge_value p (date s) = if is_truthy_object p then obj (as_fields p) else date s
  merge_value p o = o

  pub merge_onto : Fields → Fields → Fields
  merge_onto prev end = prev
  merge_onto prev (field key value rest) =
      merge_onto (set_field key (merge_value (field_at prev key) value) prev) rest

  pub merge_items : Fields → ℕ → Items → Fields
  merge_items prev i nil = prev
  merge_items prev i (cons item rest) =
      merge_items (set_field (index_key i) (merge_value (field_at prev (index_key i)) item) prev)
        (i + 1) rest

-- `objects.reduce(…, {})`; an object that is missing is `none`.
unfoldable pub merge_all : List (Option Fields) → Fields → Fields
unfolding merge_onto
merge_all [] prev = prev
merge_all (none ∷ objects) prev = merge_all objects prev
merge_all (some object ∷ objects) prev = merge_all objects (merge_onto prev object)

unfoldable pub merge : List (Option Fields) → Fields
unfolding merge_all
merge objects = merge_all objects end
