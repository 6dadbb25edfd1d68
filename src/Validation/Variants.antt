-- ===== src/Validation/Variants.antt =====
-- What a schema finds in the expanded payload.
use nodejs_template.Prelude.{
  ◌≡◌, ◌⊎◌, ◌++◌, sym, append-nil, map, inl, inr, Bool-cases, true, false, ◌↔◌, subst, refl, Option,
  none, some, List, [], ◌∷◌, ap, ◌∙◌, arith, if◌then◌else◌,
}
use nodejs_template.Text.{Text, text_eq, has, upper}
use nodejs_template.Text.Equality.{text_eq_iff}
use nodejs_template.Value.{Value, Fields, end, field}
use nodejs_template.Keys.{set_field, capitalize}
use nodejs_template.Validation.{
  split_key_words, join, distinct, to_camel_case, to_pascal_case, to_snake_case, to_lower,
  variants_of, get_case_variants, set_all, expand, expand_fields,
}

abbrev pub get_field : Text → Fields → Option Value
get_field t end = none
get_field t (field key value rest) = if text_eq key t then some value else get_field t rest

-- The words of a key set apart, from the second on.
abbrev behind_each : Text → List Text → Text
behind_each separator [] = []
behind_each separator (word ∷ words) = separator ++ (word ++ behind_each separator words)

-- The spellings of words: camel, Pascal, snake and upper snake case, and all in one in small letters
-- or in capitals.
abbrev IsSpelling : Text → List Text → Text → Type 0
IsSpelling first words t =
    (t ≡ first ++ behind_each [] (map capitalize words))
    ⊎ (t ≡ capitalize first ++ behind_each [] (map capitalize words))
    ⊎ (t ≡ first ++ behind_each (b'_' ∷ []) words)
    ⊎ (t ≡ map upper (first ++ behind_each (b'_' ∷ []) words))
    ⊎ (t ≡ first ++ behind_each [] words)
    ⊎ (t ≡ map upper (first ++ behind_each [] words))

-- A name that stands for a key: the key itself, or a spelling of its words.
abbrev pub StandsFor : Text → Text → Type 0
StandsFor key t =
    (t ≡ key) ⊎ (elim (split_key_words key) [ [] ↦ ⊥ | first ∷ words ↦ IsSpelling first words t ])

-- The value of the last key for which `t` stands, or what was found before.
pub data LastWith (t : Text) : Fields → Option Value → Option Value → Type 0 where
  no_more : {found : Option Value} → LastWith t end found found
  stands :
      {key : Text} {value : Value} {rest : Fields} {before found : Option Value}
      → StandsFor key t
      → LastWith t rest (some (expand value)) found
      → LastWith t (field key value rest) before found
  passed :
      {key : Text} {value : Value} {rest : Fields} {before found : Option Value}
      → ¬ StandsFor key t
      → LastWith t rest before found
      → LastWith t (field key value rest) before found

-- The list of variants has exactly these.
behind_each-join :
    (separator first : Text) (words : List Text)
    → join separator (first ∷ words) ≡ first ++ behind_each separator words
unfolding join
behind_each-join separator first [] = sym (append-nil first)
behind_each-join separator first (next ∷ words) =
    ap (λ rest. first ++ (separator ++ rest)) (behind_each-join separator next words)

same-has : (seen : List Text) (x t : Text) → text_eq x t ≡ true → has seen x ≡ has seen t
same-has seen x t e = ap (has seen) ((text_eq_iff x t).0 e)

has-distinct :
    (seen ts : List Text) (t : Text) → has seen t ≡ false → has (distinct seen ts) t ≡ has ts t
unfolding distinct
has-distinct seen [] t h = refl
has-distinct seen (x ∷ ts) t h = elim (Bool-cases (text_eq x t)) [
  | inl same ↦ ground (arith, h, same, same-has seen x t same)
  | inr other ↦ ground (
    arith,
    h,
    other,
    has-distinct seen ts t h,
    has-distinct (x ∷ seen) ts t (ground (arith, other, h)),
  )
]

has-single : (x t : Text) → (has (x ∷ []) t ≡ true) ↔ (t ≡ x)
has-single x t = (
  (λ h. sym ((text_eq_iff x t).0 (ground (arith, h)))),
  λ e. ground (arith, (text_eq_iff x t).1 (sym e)),
)

has-cons :
    {P : Type 0} (x t : Text) (ts : List Text)
    → (has ts t ≡ true) ↔ P
    → (has (x ∷ ts) t ≡ true) ↔ ((t ≡ x) ⊎ P)
has-cons {P} x t ts others = (to, back)
  where
    to : has (x ∷ ts) t ≡ true → (t ≡ x) ⊎ P
    to h = elim (Bool-cases (text_eq x t)) [
      | inl same ↦ inl (sym ((text_eq_iff x t).0 same))
      | inr other ↦ inr (others.0 (ground (arith, h, other)))
    ]

    back : (t ≡ x) ⊎ P → has (x ∷ ts) t ≡ true
    back (inl e) = ground (arith, (text_eq_iff x t).1 (sym e))
    back (inr p) = ground (arith, others.1 p)

module _ (first : Text) (words : List Text) where
  camel-spelling : to_camel_case (first ∷ words) ≡ first ++ behind_each [] (map capitalize words)
  unfolding to_camel_case
  camel-spelling = behind_each-join [] first (map capitalize words)

  pascal-spelling :
      to_pascal_case (first ∷ words) ≡ capitalize first ++ behind_each [] (map capitalize words)
  unfolding to_pascal_case
  pascal-spelling = behind_each-join [] (capitalize first) (map capitalize words)

  snake-spelling : to_snake_case (first ∷ words) ≡ first ++ behind_each (b'_' ∷ []) words
  unfolding to_snake_case
  snake-spelling = behind_each-join (b'_' ∷ []) first words

  lower-spelling : to_lower (first ∷ words) ≡ first ++ behind_each [] words
  unfolding to_lower
  lower-spelling = behind_each-join [] first words

abbrev StandsForWords : Text → Text → List Text → Type 0
StandsForWords key t words =
    (t ≡ key) ⊎ (elim words [ [] ↦ ⊥ | first ∷ rest ↦ IsSpelling first rest t ])

variants_of-StandsFor :
    (key t : Text) (words : List Text)
    → (has (variants_of key words) t ≡ true) ↔ StandsForWords key t words
unfolding variants_of
variants_of-StandsFor key t [] =
    let (to, back) = has-single key t in
    ((λ h. inl (to h)), λ s. elim s [ inl e ↦ back e | inr impossible ↦ elim impossible [ ] ])
variants_of-StandsFor key t (first ∷ words) =
    let camel = first ++ behind_each [] (map capitalize words) in
    let pascal = capitalize first ++ behind_each [] (map capitalize words) in
    let snake = first ++ behind_each (b'_' ∷ []) words in
    let small = first ++ behind_each [] words in
    let from_small = small ∷ map upper small ∷ [] in
    let from_snake = snake ∷ map upper snake ∷ from_small in
    rw
      (
        has-distinct [] _ t refl,
        camel-spelling first words,
        pascal-spelling first words,
        snake-spelling first words,
        lower-spelling first words,
      )
      (has-cons key t (camel ∷ pascal ∷ from_snake) (
        has-cons camel t (pascal ∷ from_snake) (
          has-cons pascal t from_snake (
            has-cons snake t (map upper snake ∷ from_small) (
              has-cons (map upper snake) t from_small
                (has-cons small t (map upper small ∷ []) (has-single (map upper small) t)))))))

get_case_variants-StandsFor :
    (key t : Text) → (has (get_case_variants key) t ≡ true) ↔ StandsFor key t
unfolding get_case_variants
get_case_variants-StandsFor key t = variants_of-StandsFor key t (split_key_words key)

get_field-set_field :
    (t key : Text) (value : Value) (fs : Fields)
    → get_field t (set_field key value fs) ≡ (if text_eq key t then some value else get_field t fs)
unfolding set_field
get_field-set_field t key value end = refl
get_field-set_field t key value (field k v rest) = ground (
  arith,
  get_field-set_field t key value rest,
  text_eq_iff k key,
  text_eq_iff key t,
  text_eq_iff k t,
)

get_field-set_all :
    (t : Text) (variants : List Text) (value : Value) (fs : Fields)
    → get_field t (set_all variants value fs)
      ≡ (if has variants t then some value else get_field t fs)
unfolding set_all
get_field-set_all t [] value fs = refl
get_field-set_all t (variant ∷ variants) value fs = ground (
  arith,
  get_field-set_all t variants value (set_field variant value fs),
  get_field-set_field t variant value fs,
)

get_field-expand_fields :
    (t : Text) (built fs : Fields)
    → LastWith t fs (get_field t built) (get_field t (expand_fields built fs))
unfolding expand_fields
get_field-expand_fields t built end = no_more
get_field-expand_fields t built (field key value rest) =
    let variants = get_case_variants key in
    let next = set_all variants (expand value) built in
    let others = get_field-expand_fields t next rest in
    let result = get_field t (expand_fields next rest) in
    let written = get_field-set_all t variants (expand value) built in
    elim (Bool-cases (has variants t)) [
      | inl h ↦
          stands ((get_case_variants-StandsFor key t).0 h)
            (subst (λ before. LastWith t rest before result) (written ∙ rw h refl) others)
      | inr h ↦
          passed (λ s. ground (arith, h, (get_case_variants-StandsFor key t).1 s))
            (subst (λ before. LastWith t rest before result) (written ∙ rw h refl) others)
    ]

-- A schema that asks for a name finds in the expanded payload the expanded value of the last key for
-- which the name stands, and nothing when there is none. A name stands for a key that it equals, or
-- whose words it spells in one of six ways; the words are those that the key's own capitals and
-- separators set apart, so that clientId does not stand for the key clientid.
pub get_field-expand :
    (t : Text) (fs : Fields) → LastWith t fs none (get_field t (expand_fields end fs))
get_field-expand t fs = get_field-expand_fields t end fs
