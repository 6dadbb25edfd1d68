-- ===== src/Security/Classify/Keys.antt =====
-- Which keys are sensitive, in terms of the keywords that they contain.
use nodejs_template.Prelude.{
  ◌<◌, ◌≡◌, ◌≢◌, refl, Bool, true, none, List, [], ◌∷◌, ◌++◌, length, arith, inl, inr, ◌⊎◌, any,
}
use nodejs_template.Text.{Text, includes, has, to_lower_case}
use nodejs_template.Text.Equality.{text_eq_iff}
use nodejs_template.Security.Keywords.{card_keywords, redact_keywords, partial_keywords}
use nodejs_template.Security.Classify.{
  split_key_into_words, matches_keywords, all_sensitive_pattern, key_type, short_keyword_max_length,
}

any_of_has :
    (p : Text → Bool) (words : List Text) (w : Text)
    → has words w ≡ true
    → p w ≡ true
    → any p words ≡ true
any_of_has p [] w h k = cc
any_of_has p (v ∷ words) w h k = ground (arith, text_eq_iff v w, any_of_has p words w)

has-append :
    (xs ys : List Text) (w : Text) → has (xs ++ ys) w ≡ true → (has xs w ≡ true) ⊎ (has ys w ≡ true)
has-append [] ys w h = inr h
has-append (x ∷ xs) ys w h = ground (arith, has-append xs ys w)

matches_long :
    (words : List Text) (keyword lower : Text) (parts : List Text)
    → has words keyword ≡ true
    → short_keyword_max_length < length keyword
    → includes keyword lower ≡ true
    → matches_keywords words lower parts ≡ true
unfolding matches_keywords
matches_long words keyword lower parts h long inside = any_of_has _ words keyword h (ground arith)

pattern_of_has :
    (key keyword : Text)
    → has (card_keywords ++ (redact_keywords ++ partial_keywords)) keyword ≡ true
    → includes keyword (to_lower_case key) ≡ true
    → all_sensitive_pattern key ≡ true
unfolding all_sensitive_pattern
pattern_of_has key keyword h inside =
    any_of_has (λ k. includes k (to_lower_case key))
      (card_keywords ++ (redact_keywords ++ partial_keywords)) keyword h inside

key_type-ne-none :
    (key : Text) (lower : Text) (words : List Text)
    → lower ≡ to_lower_case key
    → words ≡ split_key_into_words key
    → all_sensitive_pattern key ≡ true
    → (matches_keywords card_keywords lower words ≡ true)
      ⊎ (matches_keywords redact_keywords lower words ≡ true)
      ⊎ (matches_keywords partial_keywords lower words ≡ true)
    → key_type key ≢ none
unfolding key_type
key_type-ne-none key lower words e f p m = ground arith

-- A key that contains a keyword of more than four units, in any case, is sensitive.
long_keyword-key_type :
    (key keyword : Text)
    → has (card_keywords ++ (redact_keywords ++ partial_keywords)) keyword ≡ true
    → short_keyword_max_length < length keyword
    → includes keyword (to_lower_case key) ≡ true
    → key_type key ≢ none
long_keyword-key_type key keyword h long inside =
    let lower = to_lower_case key in
    let words = split_key_into_words key in
    let found = λ (list : List Text) (k : has list keyword ≡ true).
      matches_long list keyword lower words k long inside in
    key_type-ne-none key lower words refl refl (pattern_of_has key keyword h inside)
      (elim (has-append card_keywords (redact_keywords ++ partial_keywords) keyword h) [
        | inl k ↦ inl (found card_keywords k)
        | inr k ↦ elim (has-append redact_keywords partial_keywords keyword k) [
          | inl k' ↦ inr (inl (found redact_keywords k'))
          | inr k' ↦ inr (inr (found partial_keywords k'))
        ]
      ])

-- The pattern is only a first filter: a key that it does not match is not classified, and a key
-- that is classified contains a keyword, in any case.
pub key_type-pattern : (key : Text) → key_type key ≢ none → all_sensitive_pattern key ≡ true
unfolding key_type
key_type-pattern key h = ground arith
