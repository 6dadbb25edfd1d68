-- ===== src/Security/Fragments.antt =====
-- isKnownFragment and hasKeywordFragment of src/util/security/is-sensitive-key.ts: a short keyword
-- counts inside a longer word only if what surrounds it is built out of known fragments.
pub mod Fused
use nodejs_template.Prelude.{
  ℕ, zero, suc, ◌+◌, Bool, true, false, ◌&&◌, ◌||◌, List, [], ◌∷◌, ◌++◌, length, drop, leb, ltb,
  if◌then◌else◌,
}
use nodejs_template.Text.{Text, starts_with, has}
use nodejs_template.Security.Keywords.{key_fragments}

abbrev pub max_fragment_length : ℕ
max_fragment_length = 40

-- The loop over `at`: `before` is `fragment.slice(0, at)`, `after` is `fragment.slice(at)`, and
-- `known` is the recursive call.
unfoldable pub some_split : (Text → Bool) → List Text → Text → Text → Bool
some_split known words before [] = false
some_split known words before (c ∷ after) =
    (has words before && known (c ∷ after)) || some_split known words (before ++ c ∷ []) after

-- The fuel bounds the depth of the recursion; each call is on a shorter fragment.
unfoldable pub known_from : List Text → ℕ → Text → Bool
unfolding some_split
known_from words fuel [] = true
known_from words zero (c ∷ rest) = has words (c ∷ rest)
known_from words (suc fuel) (c ∷ rest) =
    has words (c ∷ rest)
    || (leb (length (c ∷ rest)) max_fragment_length
        && some_split (known_from words fuel) words (c ∷ []) rest)

unfoldable pub is_known_fragment : Text → Bool
unfolding known_from key_fragments
is_known_fragment fragment = known_from key_fragments (length fragment) fragment

-- The body of the loop, at a place where the keyword stands.
unfoldable pub fits : Text → Text → Text → Bool
fits keyword before rest =
    starts_with keyword rest
    && is_known_fragment before
    && is_known_fragment (drop (length keyword) rest)

-- The loop over `indexOf` goes through the places where the keyword stands; `before` is what lies
-- in front of the place.
unfoldable pub keyword_from : Text → Text → Text → Bool
keyword_from keyword before [] = fits keyword before []
keyword_from keyword before (c ∷ rest) =
    fits keyword before (c ∷ rest) || keyword_from keyword (before ++ c ∷ []) rest

unfoldable pub has_keyword_fragment : Text → Text → Bool
unfolding keyword_from fits is_known_fragment
has_keyword_fragment word keyword = keyword_from keyword [] word
