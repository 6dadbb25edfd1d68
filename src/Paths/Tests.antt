-- ===== src/Paths/Tests.antt =====
-- Runs of the reading of paths and of the extraction, and the theorems at concrete values.
use nodejs_template.Prelude.{All, ◌≡◌, refl, List, [], ◌∷◌, arith}
use nodejs_template.Text.{text}
use nodejs_template.Value.{Value, null, num, str, arr, obj, nil, cons, Fields, end, field}
use nodejs_template.Paths.{get_in, field_at, index_of}
use nodejs_template.Paths.Nest.{IsPlain, append_field}
use nodejs_template.Paths.Extract.{ConfigItem, path_item, alias_item, extract_values}
use nodejs_template.Paths.Chosen.{values_for, chosen, extract_values-chosen}

abbrev inner : Fields
inner = field (text "id") (num (text "7")) end

abbrev before : Fields
before = field (text "count") (num (text "1")) end

abbrev account : Value
account =
    obj (append_field before (text "user") (obj (append_field end (text "id") (num (text "7")))))

indexed :
    get_in (obj (field (text "a") (arr (cons null (cons (str (text "x")) nil))) end)) (text "a.[1]")
    ≡ str (text "x")
unfolding get_in
indexed = refl

falsy_on_the_way :
    get_in (obj (field (text "a") (num (text "0")) end)) (text "a.b") ≡ num (text "0")
unfolding get_in
falsy_on_the_way = refl

abbrev sources : Fields
sources =
    field (text "state") (obj (field (text "id") (num (text "0")) end))
      (field (text "request") account end)

abbrev config : List ConfigItem
config =
    path_item (text "request.user.id")
    ∷ path_item (text "state.id")
    ∷ alias_item ((text "total", text "request.count") ∷ [])
    ∷ path_item (text "other.id")
    ∷ []

extracted :
    extract_values sources config
    ≡ field (text "id") (num (text "7")) (field (text "total") (num (text "1")) end)
unfolding extract_values
extracted = refl

keys-IsPlain : All IsPlain (text "user" ∷ text "id" ∷ [])
unfolding index_of
keys-IsPlain = ((ground arith, refl), ((ground arith, refl), tt))

extract_values-chosen_example :
    field_at (extract_values sources config) (text "id")
    ≡ chosen (values_for sources config (text "id"))
extract_values-chosen_example = extract_values-chosen sources config (text "id")
