-- ===== src/Security/Sanitize/Reference.antt =====
-- The sharing does not show: `sanitizeObject` answers as if it always built its result anew.
use nodejs_template.Prelude.{
  ◌≡◌, ◌↔◌, refl, sym, ap, Bool, true, false, ◌||◌, Option, none, some, arith, Bool-cases,
  Option-cases, inl, inr,
}
use nodejs_template.Text.{Text, text, text_eq}
use nodejs_template.Text.Equality.{text_eq_iff}
use nodejs_template.Value.{Value, num, str, arr, obj, Items, nil, cons, Fields, end, field}
use nodejs_template.Security.Classify.{KeyType}
use nodejs_template.Security.Mask.{apply_mask}
use nodejs_template.Security.Sanitize.{
  maskable, get_sensitive_key_type, or_parent, mask_type, if_changed, or_else, copy_items,
  copy_fields, next_value, sanitize, sanitize_items, sanitize_fields,
}

-- A field's value, masked anew.
unfoldable pub masked_value : Option KeyType → Text → Value → Value → Value
masked_value parent key value inner = elim (maskable value) [
  | none ↦ inner
  | some s ↦ elim (mask_type key value parent) [
    | none ↦ inner
    | some type ↦ str (apply_mask s type)
  ]
]

-- The payload with every sensitive field masked, built anew throughout.
unfoldable mutual
  pub masked : Option KeyType → Value → Value
  masked parent (arr items) = arr (masked_items parent items)
  masked parent (obj fields) = obj (masked_fields parent fields)
  masked parent value = value

  pub masked_items : Option KeyType → Items → Items
  masked_items parent nil = nil
  masked_items parent (cons item rest) = cons (masked parent item) (masked_items parent rest)

  pub masked_fields : Option KeyType → Fields → Fields
  masked_fields parent end = end
  masked_fields parent (field key value rest) =
      field key
        (masked_value parent key value
          (masked (or_parent (get_sensitive_key_type key value) parent) value))
        (masked_fields parent rest)

-- Whether a value is not a number, or holds one.
unfoldable mutual
  pub has_nan : Value → Bool
  has_nan (num s) = text_eq s (text "NaN")
  has_nan (arr items) = has_nan_items items
  has_nan (obj fields) = has_nan_fields fields
  has_nan _ = false

  pub has_nan_items : Items → Bool
  has_nan_items nil = false
  has_nan_items (cons item rest) = has_nan item || has_nan_items rest

  pub has_nan_fields : Fields → Bool
  has_nan_fields end = false
  has_nan_fields (field key value rest) = has_nan value || has_nan_fields rest

-- How an answer that shares describes the value built anew: the old value where it is none, else a
-- new value that differs from the old, unless the old one holds a number that is not one.
data Shares {A : Type 0} (nan : Bool) (old : A) : Option A → A → Type 0 where
  same : {now : A} → now ≡ old → nan ≡ false → Shares nan old none now
  fresh : {new now : A} → new ≡ now → (now ≡ old → nan ≡ true) → Shares nan old (some new) now

if_changed-Shares :
    (value : Value) (s m : Text)
    → maskable value ≡ some s
    → Shares (has_nan value) value (if_changed value m) (str m)
unfolding maskable if_changed has_nan
if_changed-Shares (str t) s m e = elim (Bool-cases (text_eq t m)) [
  | inl equal ↦ rw equal (same (ap str (sym ((text_eq_iff t m).0 equal))) refl)
  | inr changed ↦ rw changed (fresh refl (λ p. ground (arith, text_eq_iff t m)))
]
if_changed-Shares (num t) s m e = fresh refl (λ p. ground (arith, p))
if_changed-Shares _ s m e = cc

next_value-Shares :
    (parent : Option KeyType) (key : Text) (value : Value) (inner : Option Value) (now : Value)
    → Shares (has_nan value) value inner now
    → Shares
        (has_nan value)
        value
        (next_value parent key value inner)
        (masked_value parent key value now)
unfolding next_value masked_value
next_value-Shares parent key value inner now h = elim (Option-cases (maskable value)) [
  | inl plain ↦ rw (plain, next_value, masked_value) h
  | inr (s, text) ↦ elim (Option-cases (mask_type key value parent)) [
    | inl shown ↦ rw (text, shown, next_value, masked_value) h
    | inr (type, hidden) ↦
        rw (text, hidden, next_value, masked_value)
          (if_changed-Shares value s (apply_mask s type) text)
  ]
]

copy_items-Shares :
    {a b : Bool} {item item' : Value} {rest rest' : Items} {next : Option Value}
    {more : Option Items}
    → Shares a item next item'
    → Shares b rest more rest'
    → Shares (a || b) (cons item rest) (copy_items item rest next more) (cons item' rest')
unfolding copy_items or_else
copy_items-Shares (same e n) (same f m) = same (cc) (ground (arith, n, m))
copy_items-Shares (same e n) (fresh f d) = fresh (cc) (λ p. ground (arith, d (ground arith)))
copy_items-Shares (fresh e d) (same f m) = fresh (cc) (λ p. ground (arith, d (ground arith)))
copy_items-Shares (fresh e d) (fresh f d') = fresh (cc) (λ p. ground (arith, d (ground arith)))

copy_fields-Shares :
    (key : Text) {a b : Bool} {value value' : Value} {rest rest' : Fields} {next : Option Value}
    {more : Option Fields}
    → Shares a value next value'
    → Shares b rest more rest'
    → Shares
        (a || b)
        (field key value rest)
        (copy_fields key value rest next more)
        (field key value' rest')
unfolding copy_fields or_else
copy_fields-Shares key (same e n) (same f m) = same (cc) (ground (arith, n, m))
copy_fields-Shares key (same e n) (fresh f d) = fresh (cc) (λ p. ground (arith, d (ground arith)))
copy_fields-Shares key (fresh e d) (same f m) = fresh (cc) (λ p. ground (arith, d (ground arith)))
copy_fields-Shares key (fresh e d) (fresh f d') = fresh (cc) (λ p. ground (arith, d (ground arith)))

arr-Shares :
    {nan : Bool} {items now : Items} {new : Option Items}
    → Shares nan items new now
    → Shares nan (arr items) (elim new [ none ↦ none | some items' ↦ some (arr items') ]) (arr now)
arr-Shares (same e n) = same (cc) n
arr-Shares (fresh e d) = fresh (cc) (λ p. d (ground arith))

obj-Shares :
    {nan : Bool} {fields now : Fields} {new : Option Fields}
    → Shares nan fields new now
    → Shares nan
        (obj fields)
        (elim new [ none ↦ none | some fields' ↦ some (obj fields') ])
        (obj now)
obj-Shares (same e n) = same (cc) n
obj-Shares (fresh e d) = fresh (cc) (λ p. d (ground arith))

mutual
  unfolding sanitize masked has_nan

  sanitize-Shares :
      (parent : Option KeyType) (value : Value)
      → Shares (has_nan value) value (sanitize parent value) (masked parent value)
  sanitize-Shares parent (arr items) = arr-Shares (sanitize_items-Shares parent items)
  sanitize-Shares parent (obj fields) = obj-Shares (sanitize_fields-Shares parent fields)
  sanitize-Shares parent (num s) = elim (Bool-cases (text_eq s (text "NaN"))) [
    | inl nan ↦ rw nan (fresh refl (λ p. refl))
    | inr number ↦ rw number (same refl refl)
  ]
  sanitize-Shares parent _ = same refl refl

  sanitize_items-Shares :
      (parent : Option KeyType) (items : Items)
      → Shares (has_nan_items items) items (sanitize_items parent items) (masked_items parent items)
  sanitize_items-Shares parent nil = same refl refl
  sanitize_items-Shares parent (cons item rest) =
      copy_items-Shares (sanitize-Shares parent item) (sanitize_items-Shares parent rest)

  sanitize_fields-Shares :
      (parent : Option KeyType) (fields : Fields)
      → Shares
          (has_nan_fields fields)
          fields
          (sanitize_fields parent fields)
          (masked_fields parent fields)
  sanitize_fields-Shares parent end = same refl refl
  sanitize_fields-Shares parent (field key value rest) =
      copy_fields-Shares key
        (next_value-Shares parent key value _ _
          (sanitize-Shares (or_parent (get_sensitive_key_type key value) parent) value))
        (sanitize_fields-Shares parent rest)

Shares-or_else :
    {A : Type 0} {nan : Bool} {old now : A} {new : Option A}
    → Shares nan old new now
    → or_else new old ≡ now
unfolding or_else
Shares-or_else (same e n) = sym e
Shares-or_else (fresh e d) = e

Shares-none_iff :
    {A : Type 0} {nan : Bool} {old now : A} {new : Option A}
    → Shares nan old new now
    → (new ≡ none) ↔ ((now ≡ old) × (nan ≡ false))
Shares-none_iff (same e n) = ((λ _. (e, n)), λ _. refl)
Shares-none_iff (fresh e d) = ((λ p. cc), λ p. ground (arith, d p.0, p.1))

-- The answer is the payload with every sensitive field masked, and it is `===` to the received value
-- exactly when masking changes nothing and the value neither is nor holds a number that is not one.
pub sanitize-masked :
    (parent : Option KeyType) (value : Value)
    → (or_else (sanitize parent value) value ≡ masked parent value)
      × ((sanitize parent value ≡ none) ↔ ((masked parent value ≡ value) × (has_nan value ≡ false)))
sanitize-masked parent value =
    let h = sanitize-Shares parent value in (Shares-or_else h, Shares-none_iff h)
