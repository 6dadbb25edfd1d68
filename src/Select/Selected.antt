-- ===== src/Select/Selected.antt =====
-- What a formatted select resolves with.
use nodejs_template.Prelude.{
  ◌≡◌, ◌≢◌, refl, ap, sym, ◌∙◌, true, none, some, List, [], ◌∷◌, ◌++◌, arith,
}
use nodejs_template.Text.{Text}
use nodejs_template.Select.{
  leaf, object, Entries, no_entry, entry, get_path, get_values_path, entry_at, path_of, parse_value,
  parse_all, is_nested, resolve_rows,
}
use nodejs_template.Select.Rows.{IsSchema, parse_value-get_values_path}

module _ {A B : Type 0} (f : A → B) where
  -- The object with the value of each column in its place.
  unfoldable pub map_leaves : Entries A → Entries B
  map_leaves no_entry = no_entry
  map_leaves (entry k (leaf a) rest) = entry k (leaf (f a)) (map_leaves rest)
  map_leaves (entry k (object es) rest) = entry k (object (map_leaves es)) (map_leaves rest)

  unfoldable pub map_values : List (Text × A) → List (Text × B)
  map_values [] = []
  map_values ((key, a) ∷ row) = (key, f a) ∷ map_values row

  map_values-append :
      (left right : List (Text × A))
      → map_values (left ++ right) ≡ map_values left ++ map_values right
  unfolding map_values
  map_values-append [] right = refl
  map_values-append ((key, a) ∷ left) right =
      ap (λ row. (key, f a) ∷ row) (map_values-append left right)

  get_path-map_leaves :
      (es : Entries A) (previous : Text)
      → get_path (map_leaves es) previous ≡ map_values (get_path es previous)
  unfolding get_path map_leaves map_values
  get_path-map_leaves no_entry previous = refl
  get_path-map_leaves (entry k (leaf a) rest) previous =
      ap (λ row. (path_of previous k, f a) ∷ row) (get_path-map_leaves rest previous)
  get_path-map_leaves (entry k (object es) rest) previous =
      ap (λ row. row ++ get_path (map_leaves rest) previous)
        (get_path-map_leaves es (path_of previous k))
      ∙ ap (λ row. map_values (get_path es (path_of previous k)) ++ row)
          (get_path-map_leaves rest previous)
      ∙ sym (map_values-append (get_path es (path_of previous k)) (get_path rest previous))

  entry_at-map_leaves :
      (es : Entries A) (key : Text) → entry_at es key ≡ none → entry_at (map_leaves es) key ≡ none
  unfolding entry_at map_leaves
  entry_at-map_leaves no_entry key h = refl
  entry_at-map_leaves (entry k (leaf a) rest) key h =
      ground (arith, h, entry_at-map_leaves rest key)
  entry_at-map_leaves (entry k (object es) rest) key h =
      ground (arith, h, entry_at-map_leaves rest key)

  map_leaves-some : (es : Entries A) → es ≢ no_entry → map_leaves es ≢ no_entry
  unfolding map_leaves
  map_leaves-some no_entry h e = h refl
  map_leaves-some (entry k (leaf a) rest) h e = ground (arith, e)
  map_leaves-some (entry k (object es) rest) h e = ground (arith, e)

  map_leaves-IsSchema : (es : Entries A) → IsSchema es → IsSchema (map_leaves es)
  unfolding IsSchema map_leaves
  map_leaves-IsSchema no_entry h = tt
  map_leaves-IsSchema (entry k (leaf a) rest) (key, once, behind) =
      (key, entry_at-map_leaves rest k once, map_leaves-IsSchema rest behind)
  map_leaves-IsSchema (entry k (object es) rest) (key, once, filled, inside, behind) = (
    key,
    entry_at-map_leaves rest k once,
    map_leaves-some es filled,
    map_leaves-IsSchema es inside,
    map_leaves-IsSchema rest behind,
  )

  is_nested-map_values : (row : List (Text × A)) → is_nested (map_values row) ≡ is_nested row
  unfolding is_nested map_values
  is_nested-map_values [] = refl
  is_nested-map_values ((key, a) ∷ row) = ground (arith, is_nested-map_values row)

  parse_value-map_values :
      (schema : Entries A)
      → IsSchema schema
      → parse_value (map_values (get_values_path schema)) ≡ some (map_leaves schema)
  unfolding get_values_path
  parse_value-map_values schema h =
      ap parse_value (sym (get_path-map_leaves schema []))
      ∙ parse_value-get_values_path (map_leaves schema) (map_leaves-IsSchema schema h)

module _ {A B : Type 0} (schema : Entries A) where
  -- A row that has the selected columns, from the value of each column.
  abbrev pub rows_of : List (A → B) → List (List (Text × B))
  rows_of [] = []
  rows_of (f ∷ values) = map_values f (get_values_path schema) ∷ rows_of values

  abbrev pub objects_of : List (A → B) → List (Entries B)
  objects_of [] = []
  objects_of (f ∷ values) = map_leaves f schema ∷ objects_of values

  parse_all-rows_of :
      (values : List (A → B))
      → IsSchema schema
      → parse_all (rows_of values) ≡ some (objects_of values)
  unfolding parse_all map_leaves
  parse_all-rows_of [] h = refl
  parse_all-rows_of (f ∷ values) h =
      rw (parse_all, parse_value-map_values f schema h, parse_all-rows_of values h) refl

  -- For a schema that has an object inside, whose keys are not empty, have no dot and stand once in
  -- their object, and that has no empty object inside: from rows with the selected columns, the
  -- select resolves with an object of the schema's shape for each row, in order, with the row's
  -- value of each column in the column's place.
  pub resolve_rows-rows_of :
      (values : List (A → B))
      → IsSchema schema
      → is_nested (get_values_path schema) ≡ true
      → resolve_rows (rows_of values) ≡ some (objects_of values)
  unfolding resolve_rows
  resolve_rows-rows_of [] h n = refl
  resolve_rows-rows_of (f ∷ values) h n =
      rw (is_nested-map_values f (get_values_path schema), n) (parse_all-rows_of (f ∷ values) h)
