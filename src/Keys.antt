-- ===== src/Keys.antt =====
-- src/util/object/formatters: the keys of a payload between camel case, in the program, and snake
-- case, in the database and in the messages.
pub mod Names
pub mod Convert
pub mod Parts
mod Tests
use nodejs_template.Prelude.{
  ℕ, zero, suc, ◌+◌, ◌/◌, ◌%◌, List, [], ◌∷◌, ◌++◌, ltb, ◌==◌, if◌then◌else◌,
}
use nodejs_template.Text.{Text, is_upper, lower, upper, to_lower_case, text_eq}
use nodejs_template.Value.{
  Value, undefined, null, bool_false, bool_true, num, str, date, arr, obj, Items, nil, cons, Fields,
  end, field,
}

-- `s.split(separator)` at one unit: there is always a first part.
unfoldable pub first_part : ℕ → Text → Text
first_part separator [] = []
first_part separator (c ∷ s) =
    let rest = first_part separator s in if c == separator then [] else c ∷ rest

unfoldable pub other_parts : ℕ → Text → List Text
unfolding first_part
other_parts separator [] = []
other_parts separator (c ∷ s) =
    let rest = other_parts separator s in
    if c == separator then first_part separator s ∷ rest else rest

unfoldable pub capitalize : Text → Text
unfolding upper
capitalize [] = []
capitalize (c ∷ s) = upper c ∷ s

-- `.map(…).join('')` over the parts behind the first.
unfoldable pub capitalize_all : List Text → Text
unfolding capitalize
capitalize_all [] = []
capitalize_all (part ∷ parts) = capitalize part ++ capitalize_all parts

unfoldable pub snake_case_key_to_camel_case : Text → Text
unfolding first_part other_parts capitalize_all
snake_case_key_to_camel_case key = first_part b'_' key ++ capitalize_all (other_parts b'_' key)

-- Every match behind the first unit is an upper case letter.
unfoldable pub underscore_upper : Text → Text
unfolding lower
underscore_upper [] = []
underscore_upper (c ∷ s) =
    let rest = underscore_upper s in if is_upper c then b'_' ∷ lower c ∷ rest else c ∷ rest

-- At offset 0 a letter is put in lower case.
unfoldable pub camel_case_key_to_snake_case : Text → Text
unfolding underscore_upper lower
camel_case_key_to_snake_case [] = []
camel_case_key_to_snake_case (c ∷ s) = lower c ∷ underscore_upper s

-- `String(index)`, on fuel: a number has no more digits than its value and one.
unfoldable pub digits : ℕ → ℕ → Text
digits zero n = []
digits (suc fuel) n =
    let rest = digits fuel (n / 10) in
    if ltb n 10 then (b'0' + n) ∷ [] else rest ++ (b'0' + n % 10) ∷ []

unfoldable pub index_key : ℕ → Text
unfolding digits
index_key i = digits (i + 1) i

-- `object[key] = value` keeps the place of a key that is there.
unfoldable pub set_field : Text → Value → Fields → Fields
set_field key value end = field key value end
set_field key value (field k v rest) =
    let others = set_field key value rest in
    if text_eq k key then field k value rest else field k v others

-- `recursiveDataConvertFilterLayer` with the formatter of a conversion of keys. Each object is
-- built anew with the converted keys, of which the last value counts; the loop of the formatter
-- and the one of `recursiveDataConvertApplyLayer` are one here. An item of an array that is
-- itself an array goes through the loop over the keys of an object, and becomes one.
unfoldable mutual
  pub filter_layer : (Text → Text) → Value → Value
  filter_layer convert_key (arr items) = arr (filter_items convert_key items)
  filter_layer convert_key (obj fields) = obj (apply_layer convert_key end fields)
  filter_layer convert_key value = value

  pub filter_items : (Text → Text) → Items → Items
  filter_items convert_key nil = nil
  filter_items convert_key (cons (arr items) rest) =
      cons (obj (apply_items convert_key 0 end items)) (filter_items convert_key rest)
  filter_items convert_key (cons item rest) =
      cons (filter_layer convert_key item) (filter_items convert_key rest)

  pub apply_layer : (Text → Text) → Fields → Fields → Fields
  apply_layer convert_key built end = built
  apply_layer convert_key built (field key value rest) =
      apply_layer convert_key (set_field (convert_key key) (filter_layer convert_key value) built)
        rest

  pub apply_items : (Text → Text) → ℕ → Fields → Items → Fields
  apply_items convert_key i built nil = built
  apply_items convert_key i built (cons value rest) =
      apply_items convert_key (i + 1)
        (set_field (convert_key (index_key i)) (filter_layer convert_key value) built) rest

unfoldable pub convert_snake_case_keys_to_camel_case : Value → Value
unfolding filter_layer snake_case_key_to_camel_case
convert_snake_case_keys_to_camel_case = filter_layer snake_case_key_to_camel_case

unfoldable pub convert_camel_case_keys_to_snake_case : Value → Value
unfolding filter_layer camel_case_key_to_snake_case
convert_camel_case_keys_to_snake_case = filter_layer camel_case_key_to_snake_case

unfoldable pub convert_to_lower_case : Value → Value
unfolding filter_layer to_lower_case
convert_to_lower_case = filter_layer to_lower_case
