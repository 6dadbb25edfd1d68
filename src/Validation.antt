-- ===== src/Validation.antt =====
-- src/main/adapters/request-validation-adapter.ts: a request is validated whatever the case of its
-- keys. The schema is outside: `validate` says what it finds wrong with a payload.
pub mod Variants
pub mod Outcome
mod Tests
use mathlib.Core.List.{reverse, head?}
use nodejs_template.Prelude.{
  ℕ, Bool, true, false, not, ◌&&◌, ◌||◌, Option, none, some, List, [], ◌∷◌, ◌++◌, map, leb, ◌==◌,
  if◌then◌else◌,
}
use nodejs_template.Text.{
  Text, text_eq, is_upper, is_lower, is_digit, lower, upper, to_lower_case, to_upper_case, has,
}
use nodejs_template.Value.{
  Value, undefined, null, bool_false, bool_true, num, str, date, arr, obj, Items, nil, cons, Fields,
  end, field,
}
use nodejs_template.Keys.{first_part, other_parts, capitalize, set_field}

pub data CaseMode : Type 0 where
  insensitive strict_case : CaseMode

pub data ValidationStrategy : Type 0 where
  merge strict_strategy : ValidationStrategy

-- `{ ...defaultOptions, ...options }`, where an option that is given counts.
pub record ValidationOptions : Type 0 where
  pub case_mode : CaseMode
  pub strategy : ValidationStrategy

unfoldable pub with_defaults : Option CaseMode → Option ValidationStrategy → ValidationOptions
with_defaults case_mode strategy = record {
  case_mode = elim case_mode [ none ↦ insensitive | some mode ↦ mode ];
  strategy = elim strategy [ none ↦ merge | some given ↦ given ];
}

-- `.replace(/([A-Z]+)([A-Z][a-z])/g, '$1 $2')`: a blank before the last capital of a row of them
-- when a small letter follows; matches cannot overlap, since each ends in a small letter.
unfoldable pub split_acronyms : Text → Text
split_acronyms [] = []
split_acronyms (a ∷ []) = a ∷ []
split_acronyms (a ∷ b ∷ []) = a ∷ b ∷ []
split_acronyms (a ∷ b ∷ c ∷ s) =
    let rest = split_acronyms (b ∷ c ∷ s) in
    if is_upper a && (is_upper b && is_lower c) then a ∷ 32 ∷ rest else a ∷ rest

-- `.replace(/([a-z0-9])([A-Z])/g, '$1 $2')`
unfoldable pub split_humps : Text → Text
split_humps [] = []
split_humps (a ∷ []) = a ∷ []
split_humps (a ∷ b ∷ s) =
    let rest = split_humps (b ∷ s) in
    if (is_lower a || is_digit a) && is_upper b then a ∷ 32 ∷ rest else a ∷ rest

-- White space is that of ASCII.
unfoldable pub is_blank : ℕ → Bool
is_blank c = c == 32 || (leb 9 c && leb c 13)

unfoldable pub is_separator : ℕ → Bool
unfolding is_blank
is_separator c = c == b'_' || (c == b'-' || is_blank c)

-- `.replace(/[_\-\s]+/g, ' ')`; the test says whether a separator stands before.
unfoldable pub collapse : Bool → Text → Text
unfolding is_separator
collapse behind [] = []
collapse behind (c ∷ s) =
    let rest = collapse (is_separator c) s in
    if is_separator c then (if behind then rest else 32 ∷ rest) else c ∷ rest

unfoldable pub trim_start : Text → Text
unfolding is_blank
trim_start [] = []
trim_start (c ∷ s) = let rest = trim_start s in if is_blank c then rest else c ∷ s

unfoldable pub trim : Text → Text
unfolding trim_start
trim s = reverse (trim_start (reverse (trim_start s)))

-- `.filter(Boolean)`
unfoldable pub full_words : List Text → List Text
full_words [] = []
full_words ([] ∷ words) = full_words words
full_words ((c ∷ word) ∷ words) = (c ∷ word) ∷ full_words words

unfoldable pub split_key_words : Text → List Text
unfolding split_acronyms split_humps collapse trim full_words first_part other_parts to_lower_case
split_key_words key =
    let spaced = trim (collapse false (split_humps (split_acronyms key))) in
    map to_lower_case (full_words (first_part 32 spaced ∷ other_parts 32 spaced))

-- `.join(separator)`
unfoldable pub join : Text → List Text → Text
join separator [] = []
join separator (word ∷ []) = word
join separator (word ∷ next ∷ words) = word ++ (separator ++ join separator (next ∷ words))

unfoldable pub to_pascal_case : List Text → Text
unfolding join capitalize
to_pascal_case words = join [] (map capitalize words)

unfoldable pub to_camel_case : List Text → Text
unfolding join capitalize
to_camel_case [] = []
to_camel_case (word ∷ words) = join [] (word ∷ map capitalize words)

unfoldable pub to_snake_case : List Text → Text
unfolding join
to_snake_case words = join (b'_' ∷ []) words

unfoldable pub to_upper_snake_case : List Text → Text
unfolding to_snake_case to_upper_case
to_upper_snake_case words = to_upper_case (to_snake_case words)

unfoldable pub to_lower : List Text → Text
unfolding join
to_lower words = join [] words

unfoldable pub to_upper : List Text → Text
unfolding to_lower to_upper_case
to_upper words = to_upper_case (to_lower words)

-- `Array.from(new Set(…))`: each text at its first place.
unfoldable pub distinct : List Text → List Text → List Text
distinct seen [] = []
distinct seen (t ∷ ts) =
    let rest = distinct (t ∷ seen) ts in
    let rest' = distinct seen ts in if has seen t then rest' else t ∷ rest

unfoldable pub variants_of : Text → List Text → List Text
unfolding to_camel_case to_pascal_case to_snake_case to_upper_snake_case to_lower to_upper distinct
variants_of key [] = key ∷ []
variants_of key (word ∷ words) =
    let all = word ∷ words in
    distinct [] (
      key
      ∷ to_camel_case all
      ∷ to_pascal_case all
      ∷ to_snake_case all
      ∷ to_upper_snake_case all
      ∷ to_lower all
      ∷ to_upper all
      ∷ [])

unfoldable pub get_case_variants : Text → List Text
unfolding split_key_words variants_of
get_case_variants key = variants_of key (split_key_words key)

-- The loop over the variants of one key.
unfoldable pub set_all : List Text → Value → Fields → Fields
unfolding set_field
set_all [] value built = built
set_all (variant ∷ variants) value built = set_all variants value (set_field variant value built)

-- `expandPayloadCaseVariants`; a date has no entries.
unfoldable mutual
  pub expand : Value → Value
  expand (arr items) = arr (expand_items items)
  expand (obj fields) = obj (expand_fields end fields)
  expand (date s) = obj end
  expand value = value

  pub expand_items : Items → Items
  expand_items nil = nil
  expand_items (cons item rest) = cons (expand item) (expand_items rest)

  pub expand_fields : Fields → Fields → Fields
  expand_fields built end = built
  expand_fields built (field key value rest) =
      expand_fields (set_all (get_case_variants key) (expand value) built) rest

unfoldable mutual
  pub transform_payload_keys : (Text → Text) → Value → Value
  transform_payload_keys f (arr items) = arr (transform_items f items)
  transform_payload_keys f (obj fields) = obj (transform_fields f end fields)
  transform_payload_keys f (date s) = obj end
  transform_payload_keys f value = value

  pub transform_items : (Text → Text) → Items → Items
  transform_items f nil = nil
  transform_items f (cons item rest) = cons (transform_payload_keys f item) (transform_items f rest)

  pub transform_fields : (Text → Text) → Fields → Fields → Fields
  transform_fields f built end = built
  transform_fields f built (field key value rest) =
      transform_fields f (set_field (f key) (transform_payload_keys f value) built) rest

unfoldable pub transforms : List (Text → Text)
unfolding split_key_words to_camel_case to_pascal_case to_snake_case to_upper_snake_case to_lower
    to_upper
transforms =
    (λ key. key)
    ∷ (λ key. to_camel_case (split_key_words key))
    ∷ (λ key. to_pascal_case (split_key_words key))
    ∷ (λ key. to_snake_case (split_key_words key))
    ∷ (λ key. to_upper_snake_case (split_key_words key))
    ∷ (λ key. to_lower (split_key_words key))
    ∷ (λ key. to_upper (split_key_words key))
    ∷ []

unfoldable pub build_strict_case_payloads : Value → List Value
unfolding transforms
build_strict_case_payloads payload = map (λ f. transform_payload_keys f payload) transforms

unfoldable pub build_validation_payloads : Value → ValidationOptions → List Value
unfolding build_strict_case_payloads expand
build_validation_payloads payload options = elim options.case_mode [
  | strict_case ↦ payload ∷ []
  | insensitive ↦ elim options.strategy [
    | strict_strategy ↦ build_strict_case_payloads payload
    | merge ↦ expand payload ∷ []
  ]
]

-- `{ ...object, ...fields }`
unfoldable pub spread : Fields → Fields → Fields
unfolding set_field
spread built end = built
spread built (field key value rest) = spread (set_field key value built) rest

pub record HttpRequest : Type 0 where
  pub body : Fields
  pub params : Fields
  pub query : Fields
  pub headers : Fields

unfoldable pub http_request : HttpRequest → Value
unfolding spread
http_request req =
    obj (spread (spread (spread (spread end req.body) req.params) req.query) req.headers)

-- The end of the middleware: `next` is called, or the response is sent with the error.
pub data Answer (E : Type 0) : Type 0 where
  passed : Answer E
  bad_request : Option E → Answer E

module _ {E : Type 0} (validate : Value → Option E) where
  -- The loop over the payloads, with the errors so far.
  unfoldable pub validate_payloads : List E → List Value → Answer E
  validate_payloads errors [] = bad_request (head? errors)
  validate_payloads errors (payload ∷ payloads) = elim (validate payload) [
    | none ↦ passed
    | some error ↦ validate_payloads (errors ++ error ∷ []) payloads
  ]

  unfoldable pub request_validation_adapter : ValidationOptions → HttpRequest → Answer E
  unfolding validate_payloads build_validation_payloads http_request
  request_validation_adapter options req =
      validate_payloads [] (build_validation_payloads (http_request req) options)
