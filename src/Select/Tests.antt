-- ===== src/Select/Tests.antt =====
-- Selects of concrete schemas, and the theorem at one.
use nodejs_template.Prelude.{◌≡◌, refl, true, some, [], ◌∷◌, arith}
use nodejs_template.Text.{Text, text}
use nodejs_template.Select.{
  Entries, leaf, object, no_entry, entry, get_values_path, is_nested, parse_value, resolve_rows,
  entry_at,
}
use nodejs_template.Select.Rows.{IsSchema}
use nodejs_template.Select.Selected.{rows_of, objects_of, resolve_rows-rows_of}

abbrev schema : Entries Text
schema = entry (text "id") (leaf (text "u.id")) (
    entry (text "user")
      (object (
        entry (text "name") (leaf (text "u.name")) (
          entry (text "city") (object (entry (text "code") (leaf (text "c.code")) no_entry))
            no_entry)))
      no_entry)

aliases :
    get_values_path schema
    ≡ (text "id", text "u.id")
      ∷ (text "user.#@KNEX@#.name", text "u.name")
      ∷ (text "user.#@KNEX@#.city.#@KNEX@#.code", text "c.code")
      ∷ []
unfolding get_values_path
aliases = refl

-- An object that is empty is lost.
lost : parse_value (get_values_path (entry (text "tags") (object no_entry) schema)) ≡ some schema
unfolding parse_value get_values_path
lost = refl

nested : is_nested (get_values_path schema) ≡ true
unfolding is_nested get_values_path
nested = refl

schema-IsSchema : IsSchema schema
unfolding IsSchema entry_at
schema-IsSchema = ground arith

resolve_rows-rows_of_example :
    resolve_rows (rows_of schema ((λ column. column) ∷ []))
    ≡ some (objects_of schema ((λ column. column) ∷ []))
resolve_rows-rows_of_example =
    resolve_rows-rows_of schema ((λ column. column) ∷ []) schema-IsSchema nested
