-- ===== src/Keys/Convert.antt =====
-- A payload there and back.
use nodejs_template.Prelude.{◌≡◌, refl, true, false, ap, sym, ◌∙◌, arith, Bool, ◌||◌, subst}
use nodejs_template.Text.{Text, text_eq}
use nodejs_template.Text.Equality.{text_eq_iff}
use nodejs_template.Value.{
  Value, undefined, null, bool_false, bool_true, num, str, date, arr, obj, Items, nil, cons, Fields,
  end, field,
}
use nodejs_template.Keys.{
  filter_layer, filter_items, apply_layer, set_field, snake_case_key_to_camel_case,
  camel_case_key_to_snake_case, convert_snake_case_keys_to_camel_case,
  convert_camel_case_keys_to_snake_case,
}
use nodejs_template.Keys.Names.{
  IsCamel, IsSnake, camel_case_key_to_snake_case-snake_case_key_to_camel_case,
  snake_case_key_to_camel_case-camel_case_key_to_snake_case,
}

abbrev pub has_key : Text → Fields → Bool
has_key key end = false
has_key key (field k value rest) = text_eq k key || has_key key rest

abbrev pub IsDistinct : Fields → Type 0
IsDistinct end = Unit
IsDistinct (field key value rest) = (has_key key rest ≡ false) × IsDistinct rest

abbrev pub is_array : Value → Bool
is_array (arr items) = true
is_array _ = false

-- Every object has keys that are `Good`, each once, and no array is an item of an array.
abbrev mutual
  pub IsRegular : (Text → Type 0) → Value → Type 0
  IsRegular Good (arr items) = ItemsRegular Good items
  IsRegular Good (obj fields) = IsDistinct fields × FieldsRegular Good fields
  IsRegular Good value = Unit

  pub ItemsRegular : (Text → Type 0) → Items → Type 0
  ItemsRegular Good nil = Unit
  ItemsRegular Good (cons item rest) =
      (is_array item ≡ false) × IsRegular Good item × ItemsRegular Good rest

  pub FieldsRegular : (Text → Type 0) → Fields → Type 0
  FieldsRegular Good end = Unit
  FieldsRegular Good (field key value rest) =
      Good key × IsRegular Good value × FieldsRegular Good rest

-- The fields one by one, with nothing merged.
rename : (Text → Text) → Fields → Fields
rename convert_key end = end
rename convert_key (field key value rest) =
    field (convert_key key) (filter_layer convert_key value) (rename convert_key rest)

append : Fields → Fields → Fields
append end gs = gs
append (field key value rest) gs = field key value (append rest gs)

append-end : (fs : Fields) → append fs end ≡ fs
unfolding append
append-end end = refl
append-end (field key value rest) = ap (field key value) (append-end rest)

append_assoc : (fs gs hs : Fields) → append (append fs gs) hs ≡ append fs (append gs hs)
unfolding append
append_assoc end gs hs = refl
append_assoc (field key value rest) gs hs = ap (field key value) (append_assoc rest gs hs)

set_field-fresh :
    (key : Text) (value : Value) (fs : Fields)
    → has_key key fs ≡ false
    → set_field key value fs ≡ append fs (field key value end)
unfolding set_field append
set_field-fresh key value end h = refl
set_field-fresh key value (field k v rest) h = ground (arith, set_field-fresh key value rest)

-- No key of the second is in the first.
abbrev Apart : Fields → Fields → Type 0
Apart built end = Unit
Apart built (field key value rest) = (has_key key built ≡ false) × Apart built rest

has_key-append :
    (j k : Text) (v : Value) (fs : Fields)
    → has_key j fs ≡ false
    → text_eq k j ≡ false
    → has_key j (append fs (field k v end)) ≡ false
unfolding append
has_key-append j k v end h e = ground arith
has_key-append j k v (field i w rest) h e = ground (arith, has_key-append j k v rest)

Apart-append :
    (built fs : Fields) (key : Text) (value : Value)
    → Apart built fs
    → has_key key fs ≡ false
    → Apart (append built (field key value end)) fs
Apart-append built end key value h e = tt
Apart-append built (field k v rest) key value h e = (
  has_key-append k key value built h.0 (ground (arith, text_eq_iff key k, text_eq_iff k key)),
  Apart-append built rest key value h.1 (ground arith),
)

apply_layer-rename :
    (convert_key : Text → Text) (built fs : Fields)
    → IsDistinct (rename convert_key fs)
    → Apart built (rename convert_key fs)
    → apply_layer convert_key built fs ≡ append built (rename convert_key fs)
unfolding rename apply_layer
apply_layer-rename convert_key built end d a = sym (append-end built)
apply_layer-rename convert_key built (field key value rest) d a =
    let k = convert_key key in
    let v = filter_layer convert_key value in
    ap (λ fs. apply_layer convert_key fs rest) (set_field-fresh k v built a.0)
    ∙ apply_layer-rename convert_key (append built (field k v end)) rest d.1
        (Apart-append built (rename convert_key rest) k v a.1 d.0)
    ∙ append_assoc built (field k v end) (rename convert_key rest)
    ∙ (unfold append in refl)

Apart-end : (fs : Fields) → Apart end fs
Apart-end end = tt
Apart-end (field key value rest) = (refl, Apart-end rest)

module _ (there back : Text → Text) (Good : Text → Type 0)
    (inverse : (key : Text) → Good key → back (there key) ≡ key) where
  has_key-rename :
      (key : Text) (fs : Fields)
      → Good key
      → FieldsRegular Good fs
      → has_key key fs ≡ false
      → has_key (there key) (rename there fs) ≡ false
  unfolding rename
  has_key-rename key end g r h = refl
  has_key-rename key (field k v rest) g r h = ground (
    arith,
    has_key-rename key rest g r.2,
    text_eq_iff (there k) (there key),
    text_eq_iff k key,
    inverse key g,
    inverse k r.0,
  )

  rename-IsDistinct :
      (fs : Fields) → FieldsRegular Good fs → IsDistinct fs → IsDistinct (rename there fs)
  unfolding rename
  rename-IsDistinct end r d = tt
  rename-IsDistinct (field key value rest) r d =
      (has_key-rename key rest r.0 r.2 d.0, rename-IsDistinct rest r.2 d.1)

  apply_layer-once :
      (fs : Fields)
      → FieldsRegular Good fs
      → IsDistinct fs
      → apply_layer there end fs ≡ rename there fs
  apply_layer-once fs r d =
      apply_layer-rename there end fs (rename-IsDistinct fs r d) (Apart-end (rename there fs))
      ∙ (unfold append in refl)

  apply_layer-back :
      (fs : Fields)
      → FieldsRegular Good fs
      → IsDistinct fs
      → rename back (rename there fs) ≡ fs
      → apply_layer back end (apply_layer there end fs) ≡ fs
  apply_layer-back fs r d same =
      ap (apply_layer back end) (apply_layer-once fs r d)
      ∙ apply_layer-rename back end (rename there fs) (subst IsDistinct (sym same) d)
          (Apart-end (rename back (rename there fs)))
      ∙ (unfold append in same)

  mutual
    unfolding filter_layer rename

    filter_layer-back :
        (v : Value) → IsRegular Good v → filter_layer back (filter_layer there v) ≡ v
    filter_layer-back (arr items) r = ap arr (filter_items-back items r)
    filter_layer-back (obj fields) r =
        ap obj (apply_layer-back fields r.1 r.0 (rename-back fields r.1))
    filter_layer-back undefined r = refl
    filter_layer-back null r = refl
    filter_layer-back bool_false r = refl
    filter_layer-back bool_true r = refl
    filter_layer-back (num s) r = refl
    filter_layer-back (str s) r = refl
    filter_layer-back (date s) r = refl

    filter_items-back :
        (xs : Items) → ItemsRegular Good xs → filter_items back (filter_items there xs) ≡ xs
    filter_items-back nil r = refl
    filter_items-back (cons (arr items) rest) r = cc
    filter_items-back (cons (obj fields) rest) r =
        ap (λ fs. cons (obj fs) (filter_items back (filter_items there rest)))
          (apply_layer-back fields r.1.1 r.1.0 (rename-back fields r.1.1))
        ∙ ap (cons (obj fields)) (filter_items-back rest r.2)
    filter_items-back (cons undefined rest) r = ap (cons undefined) (filter_items-back rest r.2)
    filter_items-back (cons null rest) r = ap (cons null) (filter_items-back rest r.2)
    filter_items-back (cons bool_false rest) r = ap (cons bool_false) (filter_items-back rest r.2)
    filter_items-back (cons bool_true rest) r = ap (cons bool_true) (filter_items-back rest r.2)
    filter_items-back (cons (num s) rest) r = ap (cons (num s)) (filter_items-back rest r.2)
    filter_items-back (cons (str s) rest) r = ap (cons (str s)) (filter_items-back rest r.2)
    filter_items-back (cons (date s) rest) r = ap (cons (date s)) (filter_items-back rest r.2)

    rename-back : (fs : Fields) → FieldsRegular Good fs → rename back (rename there fs) ≡ fs
    rename-back end r = refl
    rename-back (field key value rest) r =
        ap
          (λ k.
            field k (filter_layer back (filter_layer there value))
              (rename back (rename there rest)))
          (inverse key r.0)
        ∙ ap (λ v. field key v (rename back (rename there rest))) (filter_layer-back value r.1)
        ∙ ap (field key value) (rename-back rest r.2)

-- A payload in camel case that is written in snake case and read again is the same: its keys have
-- no underscore and no capital at the start, each object has each key once, and no array is an
-- item of an array.
pub convert_snake-convert_camel :
    (v : Value)
    → IsRegular IsCamel v
    → convert_snake_case_keys_to_camel_case (convert_camel_case_keys_to_snake_case v) ≡ v
unfolding convert_snake_case_keys_to_camel_case convert_camel_case_keys_to_snake_case
convert_snake-convert_camel =
    filter_layer-back camel_case_key_to_snake_case snake_case_key_to_camel_case IsCamel
      snake_case_key_to_camel_case-camel_case_key_to_snake_case

-- A payload in snake case that is read in camel case and written again is the same: its keys have
-- no capital and no underscore at the start, a letter stands behind each underscore, each object
-- has each key once, and no array is an item of an array.
convert_camel-convert_snake :
    (v : Value)
    → IsRegular IsSnake v
    → convert_camel_case_keys_to_snake_case (convert_snake_case_keys_to_camel_case v) ≡ v
unfolding convert_snake_case_keys_to_camel_case convert_camel_case_keys_to_snake_case
convert_camel-convert_snake =
    filter_layer-back snake_case_key_to_camel_case camel_case_key_to_snake_case IsSnake
      camel_case_key_to_snake_case-snake_case_key_to_camel_case
