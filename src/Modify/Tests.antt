-- ===== src/Modify/Tests.antt =====
-- Objects made of objects, and the theorems at concrete ones.
use nodejs_template.Prelude.{◌⊎◌, true, false, ◌≡◌, refl, some, none, List, [], ◌∷◌, arith}
use nodejs_template.Text.{Text, text}
use nodejs_template.Value.{Value, num, date, arr, obj, nil, cons, Fields, end, field}
use nodejs_template.Keys.{set_field}
use nodejs_template.Paths.{field_at}
use nodejs_template.Paths.Lookup.{IsDistinct, has_field}
use nodejs_template.Modify.{merge, merge_value, group_by}
use nodejs_template.Modify.Merge.{IsDeep, Merged, field_at-merge}
use nodejs_template.Modify.Group.{Grouped, group_by-Grouped}

abbrev one : Value
one = num (text "1")

abbrev first : Fields
first = field (text "a") one (field (text "b") (obj (field (text "x") one end)) end)

abbrev second : Fields
second = field (text "b") (obj (field (text "y") one end)) (field (text "c") one end)

merged :
    merge (some first ∷ none ∷ some second ∷ [])
    ≡ field (text "a") one (
        field
          (text "b")
          (obj (field (text "x") one (field (text "y") one end)))
          (field (text "c") one end))
unfolding merge merge_value set_field
merged = refl

-- Two dates at a key leave an empty object there.
dates_lost :
    merge (
      some (field (text "at") (date (text "1")) end)
      ∷ some (field (text "at") (date (text "2")) end)
      ∷ [])
    ≡ field (text "at") (obj end) end
unfolding merge merge_value set_field
dates_lost = refl

-- An array in the array that is appended is flattened.
flattened : merge_value (arr nil) (arr (cons (arr (cons one nil)) nil)) ≡ arr (cons one nil)
unfolding merge_value
flattened = refl

first-IsDistinct : IsDistinct first
first-IsDistinct = ground arith

second-IsDeep : IsDeep (obj second)
unfolding IsDeep
second-IsDeep = ground arith

field_at-merge_example :
    let both = field_at (merge (some first ∷ some second ∷ [])) (text "b") in
    ((has_field second (text "b") ≡ true)
      × Merged (field_at first (text "b")) (field_at second (text "b")) both)
    ⊎ ((has_field second (text "b") ≡ false) × (both ≡ field_at first (text "b")))
field_at-merge_example = field_at-merge first second (text "b") first-IsDistinct second-IsDeep

abbrev words : List Text
words = text "ab" ∷ text "cd" ∷ text "ab" ∷ []

group_by-Grouped_example : Grouped (λ w. w) words [] (group_by words (λ w. w))
group_by-Grouped_example = group_by-Grouped words (λ w. w)

-- A group called constructor.
inherited : group_by (text "constructor" ∷ []) (λ w. w) ≡ none
unfolding group_by
inherited = refl
