-- ===== src/Manager.antt =====
-- src/main/adapters/flow-manager/flow-manager-adapter.ts: which handler takes a call. The arguments
-- are those that are values: no path leads to one that is a function, or to their number. A predicate
-- does not throw, and no value is a bigint.
pub mod Choice
pub mod Falsy
mod Tests
use nodejs_template.Prelude.{
  Bool, true, false, not, ◌&&◌, ◌||◌, Option, none, some, List, [], ◌∷◌, ◌++◌, if◌then◌else◌,
}
use nodejs_template.Text.{Text, text, text_eq}
use nodejs_template.Paths.{is_truthy, get_in}
use nodejs_template.Value.{
  Value, undefined, null, bool_false, bool_true, num, str, date, arr, obj, Items, nil, cons, Fields,
  end, field,
}

-- `Number` and `String` of a value that is found, `JSON.stringify`, and the package fast-deep-equal.
pub record Functions : Type 0 where
  pub number_of : Value → Text
  pub string_of : Value → Text
  pub json : Value → Text
  pub deep_equal : Value → Value → Bool

pub data When : Type 0 where
  absent : When
  path : Text → When
  -- an entry that is not a text is `none`
  paths : List (Option Text) → When
  pattern_of : Fields → When
  predicate : (Items → Bool) → When

pub record FlowOption (R : Type 0) : Type 0 where
  pub when : When
  pub strict : Bool
  pub handler : Items → R

pub data FirstArgument (R : Type 0) : Type 0 where
  one_option : FlowOption R → FirstArgument R
  option_array : List (FlowOption R) → FirstArgument R

unfoldable pub is_boolean : Value → Bool
is_boolean bool_true = true
is_boolean bool_false = true
is_boolean value = false

-- `typeof value === 'object'`
unfoldable pub is_object : Value → Bool
is_object null = true
is_object (date s) = true
is_object (arr items) = true
is_object (obj fields) = true
is_object value = false

-- `value === other` of two numbers.
unfoldable pub number_eq : Text → Text → Bool
number_eq s t = text_eq s t && not (text_eq s (text "NaN"))

-- `value === other`, of two values that are not both objects.
unfoldable pub strict_eq : Value → Value → Bool
unfolding number_eq
strict_eq undefined undefined = true
strict_eq null null = true
strict_eq bool_true bool_true = true
strict_eq bool_false bool_false = true
strict_eq (num s) (num t) = number_eq s t
strict_eq (str s) (str t) = text_eq s t
strict_eq value other = false

-- `a ?? b`
unfoldable pub nullish_or : Value → Value → Value
nullish_or undefined b = b
nullish_or null b = b
nullish_or a b = a

unfoldable pub first_argument : Items → Value
first_argument nil = undefined
first_argument (cons item rest) = item

unfoldable pub value_found : Items → Text → Value
unfolding get_in nullish_or first_argument
value_found args key = nullish_or (get_in (arr args) key) (get_in (first_argument args) key)

-- `typeof valueFound !== 'boolean' && !valueFound` does not hold.
unfoldable pub is_present : Value → Bool
unfolding is_boolean is_truthy
is_present value = is_boolean value || is_truthy value

unfoldable pub all_present : Items → List (Option Text) → Bool
unfolding value_found is_present
all_present args [] = true
all_present args (none ∷ keys) = all_present args keys
all_present args (some key ∷ keys) =
    let rest = all_present args keys in if is_present (value_found args key) then rest else false

-- What becomes of an option: its handler is called, the next one's turn comes, or `INVALID_TYPE` is
-- thrown.
pub data Verdict : Type 0 where
  fits : Verdict
  skipped : Verdict
  invalid_type : Verdict

unfoldable pub fits_if : Bool → Verdict
fits_if b = if b then fits else skipped

module _ (f : Functions) where
  -- `coercion(valueFound, typeof expectedValue) === expectedValue`
  unfoldable pub coerced : Value → Value → Verdict
  unfolding fits_if is_truthy number_eq
  coerced found (num t) = fits_if (number_eq (f.number_of found) t)
  coerced found (str t) = fits_if (text_eq (f.string_of found) t)
  coerced found bool_true = fits_if (is_truthy found)
  coerced found bool_false = fits_if (not (is_truthy found))
  coerced found expected = invalid_type

  unfoldable pub matches : Bool → Value → Value → Verdict
  unfolding is_object fits_if strict_eq coerced
  matches strict found expected =
      if is_object found && is_object expected
      then fits_if
          (if strict then text_eq (f.json found) (f.json expected) else f.deep_equal found expected)
      else if strict
      then fits_if (strict_eq found expected)
      else coerced found expected

  unfoldable pub fits_pattern : Bool → Items → Fields → Verdict
  unfolding value_found is_present matches
  fits_pattern strict args end = fits
  fits_pattern strict args (field key expected rest) =
      let others = fits_pattern strict args rest in
      if is_present (value_found args key)
      then elim (matches strict (value_found args key) expected) [
        | fits ↦ others
        | skipped ↦ skipped
        | invalid_type ↦ invalid_type
      ]
      else skipped

  unfoldable pub decision : Bool → Items → When → Verdict
  unfolding fits_if value_found is_present all_present fits_pattern
  decision strict args absent = fits
  decision strict args (predicate p) = fits_if (p args)
  decision strict args (path []) = fits
  decision strict args (path (c ∷ s)) = fits_if (is_present (value_found args (c ∷ s)))
  decision strict args (paths keys) = fits_if (all_present args keys)
  decision strict args (pattern_of fields) = fits_pattern strict args fields

-- What a call of the manager comes to.
pub data CallOutcome (R : Type 0) : Type 0 where
  handled : R → CallOutcome R
  unhandled : CallOutcome R
  thrown : CallOutcome R

module _ {R : Type 0} (f : Functions) (args : Items) where
  unfoldable pub first_fitting : List (FlowOption R) → CallOutcome R
  unfolding decision
  first_fitting [] = unhandled
  first_fitting (option ∷ options) =
      let rest = first_fitting options in
      elim (decision f option.strict args option.when) [
        | fits ↦ handled (option.handler args)
        | skipped ↦ rest
        | invalid_type ↦ thrown
      ]

unfoldable pub options_of :
    {R : Type 0} → FirstArgument R → List (FlowOption R) → List (FlowOption R)
options_of (one_option option) rest = option ∷ rest
options_of (option_array options) rest = options ++ rest

unfoldable pub flow_manager :
    {R : Type 0} → Functions → FirstArgument R → List (FlowOption R) → Items → CallOutcome R
unfolding options_of first_fitting
flow_manager f arg1 rest args = first_fitting f args (options_of arg1 rest)
