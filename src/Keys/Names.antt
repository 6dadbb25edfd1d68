-- ===== src/Keys/Names.antt =====
-- One key there and back.
use nodejs_template.Prelude.{◌≡◌, ◌≢◌, refl, true, false, All, arith, [], ◌∷◌, ◌++◌, Bool}
use nodejs_template.Text.{Text, is_upper, is_lower, lower, upper}
use nodejs_template.Keys.{
  first_part, other_parts, capitalize_all, snake_case_key_to_camel_case, underscore_upper,
  camel_case_key_to_snake_case,
}

abbrev pub starts_upper : Text → Bool
starts_upper [] = false
starts_upper (c ∷ s) = is_upper c

abbrev pub starts_lower : Text → Bool
starts_lower [] = false
starts_lower (c ∷ s) = is_lower c

-- No underscore, and no capital at the start.
abbrev pub IsCamel : Text → Type 0
IsCamel key = (starts_upper key ≡ false) × All (λ c. c ≢ b'_') key

-- No capital, and a letter behind each underscore.
abbrev pub IsSnakeTail : Text → Type 0
IsSnakeTail [] = Unit
IsSnakeTail (c ∷ s) = (is_upper c ≡ false) × (c ≡ b'_' → starts_lower s ≡ true) × IsSnakeTail s

-- Nor does the key start with an underscore.
abbrev pub IsSnake : Text → Type 0
IsSnake [] = Unit
IsSnake (c ∷ s) = (c ≢ b'_') × IsSnakeTail (c ∷ s)

-- The parts put together behind the first underscore.
abbrev joined : Text → Text
joined s = first_part b'_' s ++ capitalize_all (other_parts b'_' s)

joined-underscore_upper : (s : Text) → All (λ c. c ≢ b'_') s → joined (underscore_upper s) ≡ s
unfolding underscore_upper first_part other_parts capitalize_all lower upper
joined-underscore_upper [] h = refl
joined-underscore_upper (c ∷ s) h = ground (arith, joined-underscore_upper s h.1)

underscore_upper-joined : (s : Text) → IsSnakeTail s → underscore_upper (joined s) ≡ s
unfolding underscore_upper first_part other_parts capitalize_all lower upper
underscore_upper-joined [] h = refl
underscore_upper-joined (c ∷ []) h = ground arith
underscore_upper-joined (c ∷ d ∷ s) h =
    ground (arith, underscore_upper-joined (d ∷ s) (h.2), underscore_upper-joined s (h.2.2))

pub snake_case_key_to_camel_case-camel_case_key_to_snake_case :
    (key : Text)
    → IsCamel key
    → snake_case_key_to_camel_case (camel_case_key_to_snake_case key) ≡ key
unfolding snake_case_key_to_camel_case camel_case_key_to_snake_case first_part other_parts
snake_case_key_to_camel_case-camel_case_key_to_snake_case [] h = unfold capitalize_all in refl
snake_case_key_to_camel_case-camel_case_key_to_snake_case (c ∷ s) h =
    unfold lower in ground (arith, joined-underscore_upper s h.1.1)

pub camel_case_key_to_snake_case-snake_case_key_to_camel_case :
    (key : Text)
    → IsSnake key
    → camel_case_key_to_snake_case (snake_case_key_to_camel_case key) ≡ key
unfolding snake_case_key_to_camel_case camel_case_key_to_snake_case first_part other_parts
camel_case_key_to_snake_case-snake_case_key_to_camel_case [] h = unfold capitalize_all in refl
camel_case_key_to_snake_case-snake_case_key_to_camel_case (c ∷ s) h =
    unfold lower in ground (arith, underscore_upper-joined s h.1.2)
