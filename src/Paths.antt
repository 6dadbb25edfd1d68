-- ===== src/Paths.antt =====
-- src/util/object/handlers/get-in.ts and src/plugin/extract-values.ts: values read by their paths,
-- and the object that is made of them. Of the properties of the language's own objects only
-- `length` is here; the others, such as methods, are read as undefined.
pub mod Lookup
pub mod Nest
pub mod Extract
pub mod Chosen
mod Tests
use nodejs_template.Prelude.{
  ℕ, zero, suc, ◌+◌, Bool, true, false, not, ◌&&◌, ◌||◌, Option, none, some, List, [], ◌∷◌, ◌++◌,
  length, ◌==◌, if◌then◌else◌,
}
use nodejs_template.Text.{Text, text, text_eq, is_digit}
use nodejs_template.Value.{
  Value, undefined, null, bool_false, bool_true, num, str, date, arr, obj, Items, nil, cons, Fields,
  end, field,
}
use nodejs_template.Keys.{first_part, other_parts, index_key}

-- The rest of `INDEX_PATTERN` behind its bracket: digits, at least one, and a bracket.
unfoldable pub index_digits : Text → Text → Option Text
index_digits digits [] = none
index_digits digits (c ∷ s) =
    let rest = index_digits (digits ++ c ∷ []) s in
    if c == b']'
    then elim digits [ [] ↦ none | d ∷ ds ↦ some (d ∷ ds) ]
    else if is_digit c
    then rest
    else none

-- `key.match(INDEX_PATTERN)`: the digits of the first match.
unfoldable pub index_of : Text → Option Text
unfolding index_digits
index_of [] = none
index_of (c ∷ s) =
    let rest = index_of s in
    elim (if c == b'[' then index_digits [] s else none) [ none ↦ rest | some digits ↦ some digits ]

unfoldable pub is_truthy : Value → Bool
is_truthy undefined = false
is_truthy null = false
is_truthy bool_false = false
is_truthy bool_true = true
is_truthy (num s) = not (text_eq s (text "0") || text_eq s (text "NaN"))
is_truthy (str []) = false
is_truthy (str (c ∷ s)) = true
is_truthy (date s) = true
is_truthy (arr items) = true
is_truthy (obj fields) = true

unfoldable pub field_at : Fields → Text → Value
field_at end key = undefined
field_at (field k value rest) key = if text_eq k key then value else field_at rest key

unfoldable pub count_items : Items → ℕ
count_items nil = 0
count_items (cons item rest) = suc (count_items rest)

unfoldable pub item_at : ℕ → Items → Text → Value
item_at i nil key = undefined
item_at i (cons item rest) key =
    let others = item_at (i + 1) rest key in if text_eq (index_key i) key then item else others

unfoldable pub unit_at : ℕ → Text → Text → Value
unit_at i [] key = undefined
unit_at i (c ∷ s) key =
    let others = unit_at (i + 1) s key in if text_eq (index_key i) key then str (c ∷ []) else others

-- `memo[key]`, of a value that is truthy.
unfoldable pub property : Value → Text → Value
unfolding field_at count_items item_at unit_at index_key
property (obj fields) key = field_at fields key
property (arr items) key =
    if text_eq key (text "length") then num (index_key (count_items items)) else item_at 0 items key
property (str s) key =
    if text_eq key (text "length") then num (index_key (length s)) else unit_at 0 s key
property value key = undefined

-- `memo && memo[k] && memo[k]`, where `k` is the index in the key, or the key.
unfoldable pub step_in : Value → Text → Value
unfolding is_truthy property index_of
step_in memo key =
    if is_truthy memo
    then property memo (elim (index_of key) [ none ↦ key | some digits ↦ digits ])
    else memo

unfoldable pub walk : Value → List Text → Value
unfolding step_in
walk memo [] = memo
walk memo (key ∷ keys) = walk (step_in memo key) keys

unfoldable pub get_in : Value → Text → Value
unfolding walk first_part other_parts
get_in object path = walk object (first_part b'.' path ∷ other_parts b'.' path)
