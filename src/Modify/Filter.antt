-- ===== src/Modify/Filter.antt =====
-- What a key of a filtered object holds.
use nodejs_template.Prelude.{ap, ◌≡◌, refl, Bool, true, ◌&&◌, List, [], ◌∷◌, arith, if◌then◌else◌}
use nodejs_template.Text.{Text, text_eq}
use nodejs_template.Text.Equality.{text_eq_iff}
use nodejs_template.Value.{Value, undefined, Fields, end, field}
use nodejs_template.Keys.{set_field}
use nodejs_template.Paths.{field_at}
use nodejs_template.Paths.Lookup.{
  IsDistinct, has_field, field_at-set_field, has_field-Lacks, field_at-has_field,
  IsDistinct-set_field,
}
use nodejs_template.Modify.{
  from_entries, Action, allow, deny, keeps, kept_entries, filter, filter_keys,
}

-- The keys that an action lets pass; it is skipped without keys.
abbrev pub lets_pass : Action → List Text → Text → Bool
lets_pass action [] key = true
lets_pass action (k ∷ keys) key = keeps action (k ∷ keys) key

keeps-text_eq :
    (action : Action) (keys : List Text) (k key : Text)
    → text_eq k key ≡ true
    → keeps action keys k ≡ keeps action keys key
keeps-text_eq action keys k key e = ap (keeps action keys) ((text_eq_iff k key).0 e)

IsDistinct-from_entries :
    (entries : List (Text × Value)) (built : Fields)
    → IsDistinct built
    → IsDistinct (from_entries entries built)
unfolding from_entries
IsDistinct-from_entries [] built h = h
IsDistinct-from_entries ((key, value) ∷ rest) built h =
    IsDistinct-from_entries rest (set_field key value built)
      (IsDistinct-set_field built key value h)

field_at-kept_entries :
    (action : Action) (keys : List Text) (object built : Fields) (key : Text)
    → IsDistinct object
    → field_at (from_entries (kept_entries action keys object) built) key ≡ (
        if keeps action keys key && has_field object key
        then field_at object key
        else field_at built key)
unfolding from_entries kept_entries has_field field_at
field_at-kept_entries action keys end built key h = ground arith
field_at-kept_entries action keys (field k value rest) built key h = ground (
  arith,
  field_at-kept_entries action keys rest built key h.1,
  field_at-kept_entries action keys rest (set_field k value built) key h.1,
  field_at-set_field built k key value,
  has_field-Lacks k rest h.0,
  keeps-text_eq action keys k key,
  text_eq_iff k key,
)

field_at-filter :
    (action : Action) (keys : List Text) (object : Fields) (key : Text)
    → IsDistinct object
    → (field_at (filter action keys object) key
        ≡ (if lets_pass action keys key then field_at object key else undefined))
      × IsDistinct (filter action keys object)
unfolding filter field_at
field_at-filter action [] object key h = (refl, h)
field_at-filter action (k ∷ keys) object key h = (
  ground (
    arith,
    field_at-kept_entries action (k ∷ keys) object end key h,
    field_at-has_field object key,
  ),
  IsDistinct-from_entries (kept_entries action (k ∷ keys) object) end tt,
)

-- A key of a filtered object holds what the object holds there if the allowed keys, where there are
-- any, have the key and the denied keys have not; any other key is gone.
field_at-filter_keys :
    (allowed denied : List Text) (object : Fields) (key : Text)
    → IsDistinct object
    → field_at (filter_keys allowed denied object) key ≡ (
        if lets_pass allow allowed key && lets_pass deny denied key
        then field_at object key
        else undefined)
unfolding filter_keys
field_at-filter_keys allowed denied object key h =
    let (first, distinct) = field_at-filter allow allowed object key h in
    ground
      (arith, first, (field_at-filter deny denied (filter allow allowed object) key distinct).0)
