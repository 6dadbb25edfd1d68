-- ===== src/Keys/Parts.antt =====
-- The first part of a text before a separator, and the parts behind it.
use nodejs_template.Prelude.{◌≡◌, ◌≢◌, refl, ℕ, [], ◌∷◌, ◌++◌, All, arith}
use nodejs_template.Text.{Text}
use nodejs_template.Keys.{first_part, other_parts}

pub parts-append :
    (separator : ℕ) (part rest : Text)
    → All (λ c. c ≢ separator) part
    → (first_part separator (part ++ (separator ∷ rest)) ≡ part)
      × (other_parts separator (part ++ (separator ∷ rest))
          ≡ first_part separator rest ∷ other_parts separator rest)
unfolding first_part other_parts
parts-append separator [] rest h = (ground arith, ground arith)
parts-append separator (c ∷ part) rest h =
    let (a, b) = parts-append separator part rest h.1 in
    (ground (arith, a, h.0), ground (arith, b, h.0))

pub parts-whole :
    (separator : ℕ) (part : Text)
    → All (λ c. c ≢ separator) part
    → (first_part separator part ≡ part) × (other_parts separator part ≡ [])
unfolding first_part other_parts
parts-whole separator [] h = (refl, refl)
parts-whole separator (c ∷ part) h =
    let (a, b) = parts-whole separator part h.1 in (ground (arith, a, h.0), ground (arith, b, h.0))
