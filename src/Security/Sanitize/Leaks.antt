-- ===== src/Security/Sanitize/Leaks.antt =====
-- What the masking leaves: no card number in a field, but the texts of an array as they are.
use nodejs_template.Prelude.{
  ◌≡◌, ◌↔◌, ◌∙◌, refl, false, Option, none, some, arith, Option-cases, inl, inr,
}
use nodejs_template.Text.{Text, text}
use nodejs_template.Value.{Value, num, str, arr, obj, Items, nil, cons, Fields, end, field}
use nodejs_template.Security.Classify.{KeyType}
use nodejs_template.Security.Mask.Bounds.{is_pan-apply_mask}
use nodejs_template.Security.Sanitize.{
  maskable, pan_value, get_sensitive_key_type, mask_type, or_parent, or_else, sanitize,
}
use nodejs_template.Security.Sanitize.Reference.{
  masked, masked_items, masked_fields, masked_value, sanitize-masked, has_nan,
}

-- No field of an object, at any depth, holds a text or a number that is a card number.
mutual
  pub NoCard : Value → Type 0
  NoCard (arr items) = NoCardItems items
  NoCard (obj fields) = NoCardFields fields
  NoCard _ = Unit

  pub NoCardItems : Items → Type 0
  NoCardItems nil = Unit
  NoCardItems (cons item rest) = NoCard item × NoCardItems rest

  pub NoCardFields : Fields → Type 0
  NoCardFields end = Unit
  NoCardFields (field key value rest) = (pan_value value ≡ false) × NoCard value × NoCardFields rest

pan_value_of_shown :
    (parent : Option KeyType) (key : Text) (value : Value)
    → mask_type key value parent ≡ none
    → pan_value value ≡ false
unfolding mask_type get_sensitive_key_type
pan_value_of_shown parent key value h = ground arith

pan_value-masked_value :
    (parent : Option KeyType) (key : Text) (value inner : Value)
    → (maskable value ≡ none → pan_value inner ≡ false)
    → ((s : Text) → maskable value ≡ some s → inner ≡ value)
    → pan_value (masked_value parent key value inner) ≡ false
unfolding masked_value
pan_value-masked_value parent key value inner h k = elim (Option-cases (maskable value)) [
  | inl plain ↦ rw (plain, masked_value) (h plain)
  | inr (s, text) ↦ elim (Option-cases (mask_type key value parent)) [
    | inl shown ↦
        rw (text, shown, masked_value) (rw (k s text) (pan_value_of_shown parent key value shown))
    | inr (type, hidden) ↦
        rw (text, hidden, masked_value) (unfold pan_value in is_pan-apply_mask s type)
  ]
]

pan_value-masked :
    (parent : Option KeyType) (value : Value)
    → maskable value ≡ none
    → pan_value (masked parent value) ≡ false
unfolding masked pan_value
pan_value-masked parent (str s) h = cc
pan_value-masked parent (num s) h = cc
pan_value-masked parent _ h = refl

masked-maskable :
    (parent : Option KeyType) (value : Value) (s : Text)
    → maskable value ≡ some s
    → masked parent value ≡ value
unfolding masked maskable
masked-maskable parent (arr items) s h = cc
masked-maskable parent (obj fields) s h = cc
masked-maskable parent _ s h = refl

NoCard-masked_value :
    (parent : Option KeyType) (key : Text) (value inner : Value)
    → NoCard inner
    → NoCard (masked_value parent key value inner)
unfolding masked_value
NoCard-masked_value parent key value inner h = elim (Option-cases (maskable value)) [
  | inl plain ↦ rw (plain, masked_value) h
  | inr (s, text) ↦ elim (Option-cases (mask_type key value parent)) [
    | inl shown ↦ rw (text, shown, masked_value) h
    | inr (type, hidden) ↦ rw (text, hidden, masked_value) (unfold NoCard in tt)
  ]
]

mutual
  unfolding masked NoCard

  masked-NoCard : (parent : Option KeyType) (value : Value) → NoCard (masked parent value)
  masked-NoCard parent (arr items) = masked_items-NoCard parent items
  masked-NoCard parent (obj fields) = masked_fields-NoCard parent fields
  masked-NoCard parent _ = tt

  masked_items-NoCard :
      (parent : Option KeyType) (items : Items) → NoCardItems (masked_items parent items)
  masked_items-NoCard parent nil = tt
  masked_items-NoCard parent (cons item rest) =
      (masked-NoCard parent item, masked_items-NoCard parent rest)

  masked_fields-NoCard :
      (parent : Option KeyType) (fields : Fields) → NoCardFields (masked_fields parent fields)
  masked_fields-NoCard parent end = tt
  masked_fields-NoCard parent (field key value rest) =
      let type = or_parent (get_sensitive_key_type key value) parent in
      (
        pan_value-masked_value parent key value (masked type value) (pan_value-masked type value)
            (masked-maskable type value),
        NoCard-masked_value parent key value (masked type value) (masked-NoCard type value),
        masked_fields-NoCard parent rest,
      )

-- After masking, no field of an object holds a card number, whatever its key and at any depth.
pub sanitize-NoCard :
    (parent : Option KeyType) (value : Value) → NoCard (or_else (sanitize parent value) value)
sanitize-NoCard parent value = rw (sanitize-masked parent value).0 (masked-NoCard parent value)

-- An array of texts and numbers only.
abbrev pub IsPlainList : Items → Type 0
IsPlainList nil = Unit
IsPlainList (cons item rest) = ((s : Text) × (maskable item ≡ some s)) × IsPlainList rest

masked-maskable_same :
    (parent : Option KeyType) (value : Value) (s : Text)
    → maskable value ≡ some s
    → masked parent value ≡ value
unfolding masked maskable
masked-maskable_same parent (arr items) s h = cc
masked-maskable_same parent (obj fields) s h = cc
masked-maskable_same parent _ s h = refl

masked_items-IsPlainList :
    (parent : Option KeyType) (items : Items)
    → IsPlainList items
    → masked_items parent items ≡ items
unfolding masked
masked_items-IsPlainList parent nil h = refl
masked_items-IsPlainList parent (cons item rest) ((s, plain), h) =
    rw (masked-maskable_same parent item s plain, masked_items-IsPlainList parent rest h) refl

masked-array_field :
    (parent : Option KeyType) (key : Text) (items : Items)
    → IsPlainList items
    → masked parent (obj (field key (arr items) end)) ≡ obj (field key (arr items) end)
unfolding masked masked_value maskable
masked-array_field parent key items h =
    rw
      (masked_items-IsPlainList (or_parent (get_sensitive_key_type key (arr items)) parent) items h)
      refl

-- Texts and numbers in an array are never masked, whatever the key that holds the array: an object
-- with one field, a list of texts and numbers, is logged with what was received, and is not even
-- copied unless it holds a number that is not one.
pub sanitize-array_field :
    (parent : Option KeyType) (key : Text) (items : Items)
    → IsPlainList items
    → let value = obj (field key (arr items) end) in
      (or_else (sanitize parent value) value ≡ value)
      × ((sanitize parent value ≡ none) ↔ (has_nan value ≡ false))
sanitize-array_field parent key items h =
    let value = obj (field key (arr items) end) in
    let (same, none_iff) = sanitize-masked parent value in
    let unmasked = masked-array_field parent key items h in
    (same ∙ unmasked, ((λ p. (none_iff.0 p).1), λ p. none_iff.1 (unmasked, p)))
