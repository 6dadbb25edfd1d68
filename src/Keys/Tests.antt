-- ===== src/Keys/Tests.antt =====
-- Keys and payloads at concrete inputs.
use nodejs_template.Text.{text}
use nodejs_template.Keys.Names.{IsCamel, IsSnake}
use nodejs_template.Keys.{
  camel_case_key_to_snake_case, convert_camel_case_keys_to_snake_case,
  convert_snake_case_keys_to_camel_case, index_key, obj, snake_case_key_to_camel_case, arr, field,
  cons, date, null, num, end, nil, set_field,
}
use nodejs_template.Value.{Value}
use nodejs_template.Keys.Convert.{IsRegular, convert_snake-convert_camel}
use nodejs_template.Prelude.{◌≡◌, refl, arith}

names :
    (camel_case_key_to_snake_case (text "createdAt") ≡ text "created_at")
    × (snake_case_key_to_camel_case (text "created_at") ≡ text "createdAt")
    × (camel_case_key_to_snake_case (text "CreatedAt") ≡ text "created_at")
    × (snake_case_key_to_camel_case (text "_id") ≡ text "Id")
unfolding camel_case_key_to_snake_case snake_case_key_to_camel_case
names = (refl, refl, refl, refl)

-- An array in an array becomes an object.
nested :
    convert_snake_case_keys_to_camel_case (arr (cons (arr (cons (num (text "1")) nil)) nil))
    ≡ arr (cons (obj (field (text "0") (num (text "1")) end)) nil)
unfolding convert_snake_case_keys_to_camel_case index_key set_field
nested = refl

abbrev record_camel : Value
record_camel = obj (
    field (text "createdAt") (date (text "1"))
      (field (text "tryList") (arr (cons (obj (field (text "lastTry") null end)) nil)) end))

abbrev record_snake : Value
record_snake = obj (
    field (text "created_at") (date (text "1"))
      (field (text "try_list") (arr (cons (obj (field (text "last_try") null end)) nil)) end))

record_camel-IsRegular : IsRegular IsCamel record_camel
record_camel-IsRegular = ground arith

record_snake-IsRegular : IsRegular IsSnake record_snake
record_snake-IsRegular = ground arith

convert_snake-convert_camel_example :
    convert_snake_case_keys_to_camel_case (convert_camel_case_keys_to_snake_case record_camel)
    ≡ record_camel
convert_snake-convert_camel_example =
    convert_snake-convert_camel record_camel record_camel-IsRegular
