-- ===== src/Modify/Merge.antt =====
-- What a key of merged objects holds.
use nodejs_template.Prelude.{
  ◌≡◌, refl, sym, ap, ◌∙◌, Bool, true, false, ◌&&◌, some, [], ◌∷◌, arith, Bool-cases, inl, inr, ◌⊎◌,
  if◌then◌else◌,
}
use nodejs_template.Text.{Text, text_eq}
use nodejs_template.Text.Equality.{text_eq_iff}
use nodejs_template.Value.{
  Value, undefined, null, bool_false, bool_true, num, str, date, arr, obj, Items, nil, cons, Fields,
  end, field,
}
use nodejs_template.Keys.{set_field}
use nodejs_template.Paths.{field_at}
use nodejs_template.Paths.Lookup.{
  IsDistinct, has_field, field_at-set_field, has_field-Lacks, field_at-has_field,
}
use nodejs_template.Modify.{
  append_items, concat_spread, as_fields, is_truthy_object, merge_value, merge_onto, merge_all,
  merge,
}

field_at-merge_onto :
    (prev object : Fields) (key : Text)
    → IsDistinct object
    → field_at (merge_onto prev object) key ≡ (
        if has_field object key
        then merge_value (field_at prev key) (field_at object key)
        else field_at prev key)
unfolding merge_onto has_field field_at
field_at-merge_onto prev end key h = refl
field_at-merge_onto prev (field k value rest) key h =
    let new = merge_value (field_at prev k) value in
    ground (
      arith,
      field_at-merge_onto (set_field k new prev) rest key h.1,
      field_at-set_field prev k key new,
      has_field-Lacks k rest h.0,
      text_eq_iff k key,
    )

-- The items with those of the arrays among them in the arrays' places.
unfoldable pub spread_arrays : Items → Items
spread_arrays nil = nil
spread_arrays (cons (arr inner) rest) = append_items inner (spread_arrays rest)
spread_arrays (cons item rest) = cons item (spread_arrays rest)

abbrev is_keyed : Value → Bool
is_keyed (arr items) = true
is_keyed (obj fields) = true
is_keyed (date s) = true
is_keyed value = false

-- Two arrays, or two objects that are neither arrays nor dates.
abbrev is_alike : Value → Value → Bool
is_alike (arr old) (arr new) = true
is_alike (obj old) (obj new) = true
is_alike old new = false

-- How two values are merged: arrays stand one behind the other, an array in the second flattened once;
-- objects have the keys of both, with the values of a common key merged; where one of the values is
-- neither object nor array the second replaces the first. Of an array or a date against an object of
-- another kind it is only said that an object comes of them.
pub data Merged : Value → Value → Value → Type 0 where
  arrays :
      (old items : Items)
      → Merged (arr old) (arr items) (arr (append_items old (spread_arrays items)))
  objects :
      (old new both : Fields)
      → ((key : Text)
          → has_field new key ≡ true
          → Merged (field_at old key) (field_at new key) (field_at both key))
      → ((key : Text) → has_field new key ≡ false → field_at both key ≡ field_at old key)
      → Merged (obj old) (obj new) (obj both)
  mixed :
      (old new : Value) (both : Fields)
      → (is_keyed old && is_keyed new) ≡ true
      → is_alike old new ≡ false
      → Merged old new (obj both)
  replaced : (old new : Value) → (is_keyed old && is_keyed new) ≡ false → Merged old new new

append_items_assoc :
    (a b c : Items) → append_items (append_items a b) c ≡ append_items a (append_items b c)
unfolding append_items
append_items_assoc nil b c = refl
append_items_assoc (cons item a) b c = ap (cons item) (append_items_assoc a b c)

append_items-nil : (a : Items) → append_items a nil ≡ a
unfolding append_items
append_items-nil nil = refl
append_items-nil (cons item a) = ap (cons item) (append_items-nil a)

concat_spread-spread_arrays :
    (old items : Items) → concat_spread old items ≡ append_items old (spread_arrays items)
unfolding concat_spread spread_arrays
concat_spread-spread_arrays old nil = sym (append_items-nil old)
concat_spread-spread_arrays old (cons (arr inner) rest) =
    concat_spread-spread_arrays (append_items old inner) rest
    ∙ append_items_assoc old inner (spread_arrays rest)
concat_spread-spread_arrays old (cons item rest) =
    concat_spread-spread_arrays (append_items old (cons item nil)) rest
    ∙ append_items_assoc old (cons item nil) (spread_arrays rest)
    ∙ (unfold append_items in refl)

-- Keys that stand once, in every object that can be merged.
unfoldable mutual
  pub IsDeep : Value → Type 0
  IsDeep (obj fields) = IsDistinct fields × IsDeepFields fields
  IsDeep value = Unit

  pub IsDeepFields : Fields → Type 0
  IsDeepFields end = Unit
  IsDeepFields (field key value rest) = IsDeep value × IsDeepFields rest

objects-Merged :
    (old new : Fields)
    → IsDistinct new
    → ((key : Text) (p : Value)
        → has_field new key ≡ true
        → Merged p (field_at new key) (merge_value p (field_at new key)))
    → Merged (obj old) (obj new) (obj (merge_onto old new))
objects-Merged old new distinct inside =
    objects old new (merge_onto old new)
      (λ key h. rw (field_at-merge_onto old new key distinct, h) (inside key (field_at old key) h))
      (λ key h. rw (field_at-merge_onto old new key distinct, h) refl)

mutual
  unfolding merge_value is_truthy_object as_fields IsDeep has_field

  merge_value-Merged : (p o : Value) → IsDeep o → Merged p o (merge_value p o)
  merge_value-Merged (obj old) (obj fields) h =
      objects-Merged old fields h.0 (fields-Merged fields h.1)
  merge_value-Merged (arr old) (arr items) h =
      rw (concat_spread-spread_arrays old items) (arrays old items)
  merge_value-Merged (arr items) (obj fields) h = mixed (arr items) (obj fields) _ refl refl
  merge_value-Merged (date t) (obj fields) h = mixed (date t) (obj fields) _ refl refl
  merge_value-Merged undefined (obj fields) h = replaced undefined (obj fields) refl
  merge_value-Merged null (obj fields) h = replaced null (obj fields) refl
  merge_value-Merged bool_false (obj fields) h = replaced bool_false (obj fields) refl
  merge_value-Merged bool_true (obj fields) h = replaced bool_true (obj fields) refl
  merge_value-Merged (num t) (obj fields) h = replaced (num t) (obj fields) refl
  merge_value-Merged (str t) (obj fields) h = replaced (str t) (obj fields) refl
  merge_value-Merged (obj old) (arr items) h = mixed (obj old) (arr items) _ refl refl
  merge_value-Merged (date t) (arr items) h = mixed (date t) (arr items) _ refl refl
  merge_value-Merged undefined (arr items) h = replaced undefined (arr items) refl
  merge_value-Merged null (arr items) h = replaced null (arr items) refl
  merge_value-Merged bool_false (arr items) h = replaced bool_false (arr items) refl
  merge_value-Merged bool_true (arr items) h = replaced bool_true (arr items) refl
  merge_value-Merged (num t) (arr items) h = replaced (num t) (arr items) refl
  merge_value-Merged (str t) (arr items) h = replaced (str t) (arr items) refl
  merge_value-Merged (obj old) (date s) h = mixed (obj old) (date s) _ refl refl
  merge_value-Merged (arr old) (date s) h = mixed (arr old) (date s) _ refl refl
  merge_value-Merged (date t) (date s) h = mixed (date t) (date s) _ refl refl
  merge_value-Merged undefined (date s) h = replaced undefined (date s) refl
  merge_value-Merged null (date s) h = replaced null (date s) refl
  merge_value-Merged bool_false (date s) h = replaced bool_false (date s) refl
  merge_value-Merged bool_true (date s) h = replaced bool_true (date s) refl
  merge_value-Merged (num t) (date s) h = replaced (num t) (date s) refl
  merge_value-Merged (str t) (date s) h = replaced (str t) (date s) refl
  merge_value-Merged p undefined h = replaced p undefined (ground arith)
  merge_value-Merged p null h = replaced p null (ground arith)
  merge_value-Merged p bool_false h = replaced p bool_false (ground arith)
  merge_value-Merged p bool_true h = replaced p bool_true (ground arith)
  merge_value-Merged p (num s) h = replaced p (num s) (ground arith)
  merge_value-Merged p (str s) h = replaced p (str s) (ground arith)

  fields-Merged :
      (fields : Fields)
      → IsDeepFields fields
      → (key : Text) (p : Value) → has_field fields key ≡ true
      → Merged p (field_at fields key) (merge_value p (field_at fields key))
  fields-Merged end h key p e = ground (arith, e)
  fields-Merged (field k value rest) h key p e = elim (Bool-cases (text_eq k key)) [
    | inl here ↦ rw (field_at, here) (merge_value-Merged p value h.0)
    | inr there ↦ rw (field_at, there) (fields-Merged rest h.1 key p (ground (arith, e, there)))
  ]

merge_value-undefined : (value : Value) → merge_value undefined value ≡ value
unfolding merge_value is_truthy_object
merge_value-undefined undefined = refl
merge_value-undefined null = refl
merge_value-undefined bool_false = refl
merge_value-undefined bool_true = refl
merge_value-undefined (num s) = refl
merge_value-undefined (str s) = refl
merge_value-undefined (date s) = refl
merge_value-undefined (arr items) = refl
merge_value-undefined (obj fields) = refl

field_at-merge_onto_end :
    (object : Fields) (key : Text)
    → IsDistinct object
    → field_at (merge_onto end object) key ≡ field_at object key
unfolding field_at
field_at-merge_onto_end object key h = ground (
  arith,
  field_at-merge_onto end object key h,
  merge_value-undefined (field_at object key),
  field_at-has_field object key,
)

merge-absent :
    (first second : Fields) (key : Text)
    → IsDistinct first
    → IsDistinct second
    → field_at (merge (some first ∷ some second ∷ [])) key ≡ (
        if has_field second key
        then merge_value (field_at first key) (field_at second key)
        else field_at first key)
unfolding merge merge_all
merge-absent first second key h k = ground (
  arith,
  field_at-merge_onto (merge_onto end first) second key k,
  field_at-merge_onto_end first key h,
)

-- Two objects whose keys stand once, at any depth: a key that the second has holds the values of both
-- merged, as `Merged` describes it, and any other key holds what the first has there.
pub field_at-merge :
    (first second : Fields) (key : Text)
    → IsDistinct first
    → IsDeep (obj second)
    → let both = field_at (merge (some first ∷ some second ∷ [])) key in
      ((has_field second key ≡ true) × Merged (field_at first key) (field_at second key) both)
      ⊎ ((has_field second key ≡ false) × (both ≡ field_at first key))
unfolding IsDeep
field_at-merge first second key h k =
    let e = merge-absent first second key h k.0 in
    elim (Bool-cases (has_field second key)) [
      | inl there ↦
          inl (there, rw (e, there) (fields-Merged second k.1 key (field_at first key) there))
      | inr missing ↦ inr (missing, rw (e, missing) refl)
    ]
