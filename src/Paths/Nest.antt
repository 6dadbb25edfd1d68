-- ===== src/Paths/Nest.antt =====
-- A path leads to what stands at its end.
use nodejs_template.Prelude.{◌≡◌, ◌≢◌, refl, none, List, [], ◌∷◌, ◌++◌, All, ap, ◌∙◌, arith}
use nodejs_template.Text.{Text}
use nodejs_template.Text.Equality.{text_eq_refl}
use nodejs_template.Paths.Lookup.{Lacks}
use nodejs_template.Value.{Value, Fields, end, field, obj}
use nodejs_template.Keys.Parts.{parts-append, parts-whole}
use nodejs_template.Keys.{first_part, other_parts}
use nodejs_template.Paths.{index_of, is_truthy, field_at, property, step_in, walk, get_in}

-- A key that a path can name: without dots, and not read as an index.
abbrev pub IsPlain : Text → Type 0
IsPlain key = All (λ c. c ≢ b'.') key × (index_of key ≡ none)

-- `a.b.c`
abbrev pub dotted : Text → List Text → Text
dotted key [] = key
dotted key (next ∷ keys) = key ++ (b'.' ∷ dotted next keys)

-- An object around an object around … a value, each with other fields before the one that counts.
abbrev pub append_field : Fields → Text → Value → Fields
append_field end key value = field key value end
append_field (field k v rest) key value = field k v (append_field rest key value)

-- `object` has `value` at the path of the keys.
pub data Holds : Value → List Text → Value → Type 0 where
  here : (value : Value) → Holds value [] value
  inside :
      {value inner : Value} {keys : List Text} (key : Text) (before : Fields)
      → Lacks key before
      → Holds inner keys value
      → Holds (obj (append_field before key inner)) (key ∷ keys) value

field_at-append :
    (before : Fields) (key : Text) (value : Value)
    → Lacks key before
    → field_at (append_field before key value) key ≡ value
unfolding field_at
field_at-append end key value h = ground (arith, text_eq_refl key)
field_at-append (field k v rest) key value h =
    ground (arith, h.0, field_at-append rest key value h.1)

step_in-inside :
    (before : Fields) (key : Text) (inner : Value)
    → Lacks key before
    → index_of key ≡ none
    → step_in (obj (append_field before key inner)) key ≡ inner
unfolding step_in is_truthy property
step_in-inside before key inner h e = ground (arith, e, field_at-append before key inner h)

walk-Holds :
    {object value : Value} {keys : List Text}
    → Holds object keys value
    → All IsPlain keys
    → walk object keys ≡ value
unfolding walk
walk-Holds (here value) p = refl
walk-Holds (inside {inner = inner} {keys = keys} key before h rest) p =
    ap (λ v. walk v keys) (step_in-inside before key inner h p.0.1) ∙ walk-Holds rest p.1

parts-dotted :
    (key : Text) (keys : List Text)
    → All IsPlain (key ∷ keys)
    → first_part b'.' (dotted key keys) ∷ other_parts b'.' (dotted key keys) ≡ key ∷ keys
parts-dotted key [] p = let (a, b) = parts-whole b'.' key p.0.0 in rw (a, b) refl
parts-dotted key (next ∷ keys) p =
    let (a, b) = parts-append b'.' key (dotted next keys) p.0.0 in
    rw (a, b) (ap (λ ks. key ∷ ks) (parts-dotted next keys p.1))

-- `getIn` of a path finds the value that an object holds there, whatever stands before it in the
-- objects on the way and whatever the value is; its keys have no dots and are not read as indices.
get_in-Holds :
    {object value : Value} (key : Text) (keys : List Text)
    → Holds object (key ∷ keys) value
    → All IsPlain (key ∷ keys)
    → get_in object (dotted key keys) ≡ value
unfolding get_in
get_in-Holds {object} key keys h p = ap (walk object) (parts-dotted key keys p) ∙ walk-Holds h p
