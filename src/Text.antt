-- ===== src/Text.antt =====
-- Texts as the program walks them: lists of UTF-16 code units, with the string methods that it
-- calls. Letter case is that of ASCII; other units have no case here.
pub mod Equality
use Prim.Native.Char.{code}
use nodejs_template.Prelude.{
  ℕ, zero, suc, ◌+◌, ◌-◌, String, Bool, true, false, ◌&&◌, ◌||◌, Option, none, some, List, [], ◌∷◌,
  ◌++◌, map, leb, any, ◌==◌, if◌then◌else◌,
}

abbrev pub Text : Type 0
Text = List ℕ

-- The units of a literal, which is ASCII wherever it is used.
abbrev pub text : String → Text
text String.[] = []
text (String.◌∷◌ c s) = code c ∷ text s

-- `===`
abbrev pub text_eq : Text → Text → Bool
text_eq [] [] = true
text_eq (a ∷ s) (b ∷ t) = a == b && text_eq s t
text_eq _ _ = false

abbrev pub starts_with : Text → Text → Bool
starts_with [] s = true
starts_with (p ∷ ps) [] = false
starts_with (p ∷ ps) (c ∷ s) = p == c && starts_with ps s

-- `s.includes(part)`
abbrev pub includes : Text → Text → Bool
includes part [] = starts_with part []
includes part (c ∷ s) = starts_with part (c ∷ s) || includes part s

-- `new Set(words).has(word)`, and `Array.prototype.includes`
abbrev pub has : List Text → Text → Bool
has words word = any (λ w. text_eq w word) words

abbrev pub is_lower : ℕ → Bool
is_lower c = leb b'a' c && leb c b'z'

abbrev pub is_upper : ℕ → Bool
is_upper c = leb b'A' c && leb c b'Z'

abbrev pub is_digit : ℕ → Bool
is_digit c = leb b'0' c && leb c b'9'

unfoldable pub lower : ℕ → ℕ
lower c = if is_upper c then c + 32 else c

unfoldable pub upper : ℕ → ℕ
upper c = if is_lower c then c - 32 else c

unfoldable pub to_lower_case : Text → Text
unfolding lower
to_lower_case = map lower

unfoldable pub to_upper_case : Text → Text
unfolding upper
to_upper_case = map upper
