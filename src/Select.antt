-- ===== src/Select.antt =====
-- src/infra/db/mssql/util/knex/extensions/formatted-select-plugin.ts: a select of nested objects, by
-- column aliases that hold the paths. The select itself and its rows are the package's. A schema is
-- an object of objects and columns; a value that stands where a path goes on is an error here, as it
-- is for a text, a number and null.
pub mod Paths
pub mod Rebuild
pub mod Rows
pub mod Selected
mod Tests
use nodejs_template.Prelude.{
  ℕ, zero, suc, Bool, true, false, Option, none, some, List, [], ◌∷◌, ◌++◌, map, if◌then◌else◌,
}
use nodejs_template.Text.{Text, text, text_eq, starts_with, includes}

-- An object whose leaves are columns, in a schema, or values, in a row.
mutual
  pub data Nested (A : Type 0) : Type 0 where
    leaf : A → Nested A
    object : Entries A → Nested A

  pub data Entries (A : Type 0) : Type 0 where
    no_entry : Entries A
    entry : Text → Nested A → Entries A → Entries A

abbrev pub delimiter : Text
delimiter = text ".#@KNEX@#."

-- `previousPath ? [previousPath, key].join(DELIMITER) : key`
unfoldable pub path_of : Text → Text → Text
path_of [] key = key
path_of (c ∷ s) key = (c ∷ s) ++ (delimiter ++ key)

unfoldable pub get_path : {A : Type 0} → Entries A → Text → List (Text × A)
unfolding path_of
get_path no_entry previous = []
get_path (entry key (leaf a) rest) previous = (path_of previous key, a) ∷ get_path rest previous
get_path (entry key (object entries) rest) previous =
    get_path entries (path_of previous key) ++ get_path rest previous

unfoldable pub get_values_path : {A : Type 0} → Entries A → List (Text × A)
unfolding get_path
get_values_path schema = get_path schema []

abbrev cons_unit : ℕ → List Text → List Text
cons_unit c [] = (c ∷ []) ∷ []
cons_unit c (s ∷ rest) = (c ∷ s) ∷ rest

-- `key.split(DELIMITER)`; the number is of the units of a delimiter that is read.
unfoldable pub split_path : ℕ → Text → List Text
split_path skip [] = [] ∷ []
split_path (suc skip) (c ∷ s) = split_path skip s
split_path zero (c ∷ s) =
    let behind = split_path 9 s in
    let rest = split_path 0 s in
    if starts_with delimiter (c ∷ s) then [] ∷ behind else cons_unit c rest

unfoldable pub entry_at : {A : Type 0} → Entries A → Text → Option (Nested A)
entry_at no_entry key = none
entry_at (entry k value rest) key =
    let others = entry_at rest key in if text_eq k key then some value else others

unfoldable pub set_entry : {A : Type 0} → Text → Nested A → Entries A → Entries A
set_entry key value no_entry = entry key value no_entry
set_entry key value (entry k old rest) =
    let others = set_entry key value rest in
    if text_eq k key then entry k value rest else entry k old others

-- What a path goes on in.
unfoldable pub descend : {A : Type 0} → Option (Nested A) → Option (Entries A)
descend none = some no_entry
descend (some (object entries)) = some entries
descend (some (leaf a)) = none

-- `pathChunks.reduce(…)`
unfoldable pub set_path : {A : Type 0} → List Text → A → Entries A → Option (Entries A)
unfolding entry_at set_entry descend
set_path [] value entries = some entries
set_path (key ∷ []) value entries = some (set_entry key (leaf value) entries)
set_path {A} (key ∷ next ∷ keys) value entries =
    let deeper : Entries A → Option (Entries A) = λ found. set_path (next ∷ keys) value found in
    elim (descend (entry_at entries key)) [
      | none ↦ none
      | some found ↦ elim (deeper found) [
        | none ↦ none
        | some built ↦ some (set_entry key (object built) entries)
      ]
    ]

unfoldable pub parse_entry : {A : Type 0} → Text → A → Entries A → Option (Entries A)
unfolding split_path set_path set_entry
parse_entry key value entries =
    if includes delimiter key
    then set_path (split_path 0 key) value entries
    else some (set_entry key (leaf value) entries)

unfoldable pub parse_entries : {A : Type 0} → List (Text × A) → Entries A → Option (Entries A)
unfolding parse_entry
parse_entries [] entries = some entries
parse_entries ((key, value) ∷ rest) entries = elim (parse_entry key value entries) [
  | none ↦ none
  | some built ↦ parse_entries rest built
]

-- `parseValue`, of a row that is an object.
unfoldable pub parse_value : {A : Type 0} → List (Text × A) → Option (Entries A)
unfolding parse_entries
parse_value row = parse_entries row no_entry

unfoldable pub parse_all : {A : Type 0} → List (List (Text × A)) → Option (List (Entries A))
unfolding parse_value
parse_all [] = some []
parse_all (row ∷ rows) = elim (parse_value row) [
  | none ↦ none
  | some built ↦ elim (parse_all rows) [ none ↦ none | some others ↦ some (built ∷ others) ]
]

unfoldable pub is_nested : {A : Type 0} → List (Text × A) → Bool
is_nested [] = false
is_nested ((key, value) ∷ row) =
    let rest = is_nested row in if includes delimiter key then true else rest

unfoldable pub flat : {A : Type 0} → List (Text × A) → Entries A
flat [] = no_entry
flat ((key, value) ∷ row) = entry key (leaf value) (flat row)

-- `resolveWrapper`, of the rows of a select: the first row is the sample.
unfoldable pub resolve_rows : {A : Type 0} → List (List (Text × A)) → Option (List (Entries A))
unfolding is_nested parse_all flat
resolve_rows [] = some []
resolve_rows (sample ∷ rows) =
    if is_nested sample then parse_all (sample ∷ rows) else some (map flat (sample ∷ rows))
