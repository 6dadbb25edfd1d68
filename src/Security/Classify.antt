-- ===== src/Security/Classify.antt =====
-- splitKeyIntoWords, matchesKeywords and classifyKey of src/util/security/is-sensitive-key.ts, with
-- the cache of classified keys.
pub mod Cache
pub mod Keys
use nodejs_template.Prelude.{
  ℕ, ◌+◌, ◌≤◌, Bool, true, false, not, ◌&&◌, ◌||◌, Option, none, some, List, [], ◌∷◌, ◌++◌, length,
  any, leb, ltb, if◌then◌else◌,
}
use nodejs_template.Text.{Text, text_eq, includes, is_lower, is_upper, is_digit, to_lower_case}
use nodejs_template.Security.Keywords.{card_keywords, redact_keywords, partial_keywords}
use nodejs_template.Security.Fragments.{has_keyword_fragment}

pub data KeyType : Type 0 where
  card redact partial : KeyType

abbrev is_word_unit : ℕ → Bool
is_word_unit c = is_lower c || is_digit c

-- `.replace(/([a-z0-9])([A-Z])/g, '$1 $2')`: matches cannot overlap, since what begins one is no
-- capital.
unfoldable pub split_case : Text → Text
split_case [] = []
split_case (c ∷ []) = c ∷ []
split_case (c ∷ d ∷ s) =
    let rest = split_case (d ∷ s) in
    if is_word_unit c && is_upper d then c ∷ 32 ∷ rest else c ∷ rest

-- `.split(/[^a-z0-9]+/).filter(Boolean)`: the longest runs of letters and digits; `word` is the run
-- that is being read.
abbrev close : Text → List Text → List Text
close [] words = words
close (c ∷ word) words = (c ∷ word) ∷ words

unfoldable pub words_from : Text → Text → List Text
words_from word [] = close word []
words_from word (c ∷ s) =
    if is_word_unit c then words_from (word ++ c ∷ []) s else close word (words_from [] s)

unfoldable pub split_key_into_words : Text → List Text
unfolding split_case words_from to_lower_case
split_key_into_words key = words_from [] (to_lower_case (split_case key))

abbrev pub short_keyword_max_length : ℕ
short_keyword_max_length = 4

unfoldable pub matches_keywords : List Text → Text → List Text → Bool
unfolding has_keyword_fragment
matches_keywords keywords lower_key words =
    any
      (λ keyword.
        if leb (length keyword) short_keyword_max_length
        then any (λ word. has_keyword_fragment word keyword) words
        else includes keyword lower_key)
      keywords

-- `ALL_SENSITIVE_PATTERN.test(key)`, which ignores case.
unfoldable pub all_sensitive_pattern : Text → Bool
unfolding card_keywords redact_keywords partial_keywords to_lower_case
all_sensitive_pattern key =
    any (λ keyword. includes keyword (to_lower_case key))
      (card_keywords ++ (redact_keywords ++ partial_keywords))

-- The computation of `classifyKey`, which the cache stands in front of.
unfoldable pub key_type : Text → Option KeyType
key_type key =
    let lower = to_lower_case key in
    let words = split_key_into_words key in
    if not (all_sensitive_pattern key)
    then none
    else if matches_keywords card_keywords lower words
    then some card
    else if matches_keywords redact_keywords lower words
    then some redact
    else if matches_keywords partial_keywords lower words
    then some partial
    else none

abbrev pub Cache : Type 0
Cache = List (Text × Option KeyType)

abbrev pub key_type_cache_max_size : ℕ
key_type_cache_max_size = 5_000

-- `Map.get`
unfoldable pub lookup : Text → Cache → Option (Option KeyType)
lookup key [] = none
lookup key ((k, found) ∷ cache) = if text_eq k key then some found else lookup key cache

-- `classifyKey`: the answer and the cache after it. The key is not in the cache when it is set.
unfoldable pub classify_key : Text → Cache → Option KeyType × Cache
unfolding lookup key_type all_sensitive_pattern matches_keywords split_key_into_words
classify_key key cache = elim (lookup key cache) [
  | some cached ↦ (cached, cache)
  | none ↦
      let found = key_type key in
      (
        found,
        if ltb (length cache) key_type_cache_max_size then cache ++ (key, found) ∷ [] else cache,
      )
]
