-- ===== src/Security/Pan.antt =====
-- isPAN of src/util/security/is-sensitive-key.ts: a card number is found by its digits and the
-- Luhn checksum, in one pass from the right.
pub mod Luhn
use mathlib.Core.List.{reverse}
use nodejs_template.Prelude.{
  ℕ, zero, suc, ◌+◌, ◌-◌, ◌*◌, ◌%◌, Bool, true, false, not, ◌&&◌, ◌||◌, Option, none, some, List,
  [], ◌∷◌, length, leb, ltb, ◌==◌, any, if◌then◌else◌,
}
use nodejs_template.Text.{Text, is_digit}

abbrev pub pan_min_digits : ℕ
pan_min_digits = 13

abbrev pub pan_max_digits : ℕ
pan_max_digits = 19

abbrev pub pan_max_raw_length : ℕ
pan_max_raw_length = pan_max_digits * 2

-- The units above 127 of the class `\s`.
abbrev wide_spaces : List ℕ
wide_spaces =
    0xa0 ∷ 0x1680 ∷ 0x2000 ∷ 0x2001 ∷ 0x2002 ∷ 0x2003 ∷ 0x2004 ∷ 0x2005 ∷ 0x2006 ∷ 0x2007 ∷ 0x2008
    ∷ 0x2009 ∷ 0x200a ∷ 0x2028 ∷ 0x2029 ∷ 0x202f ∷ 0x205f ∷ 0x3000 ∷ 0xfeff ∷ []

unfoldable pub is_separator : ℕ → Bool
is_separator c =
    c == 45
    || c == 32
    || (leb 9 c && leb c 13)
    || (ltb 127 c && any (λ space. c == space) wide_spaces)

-- What one digit adds to the sum.
unfoldable pub weigh : Bool → ℕ → ℕ
weigh false digit = digit
weigh true digit = if ltb 9 (digit * 2) then digit * 2 - 9 else digit * 2

pub record Scan : Type 0 where
  pub digits : ℕ
  pub sum : ℕ
  pub alternate : Bool

-- The loop from the last unit to the first, so the argument is the reversed text; `none` is the
-- `return false` in its body.
unfoldable pub scan : Text → Scan → Option Scan
unfolding is_separator weigh
scan [] s = some s
scan (c ∷ rest) s =
    let skipped = scan rest s in
    let counted = scan rest (record {
      digits = s.digits + 1;
      sum = s.sum + weigh s.alternate (c - 48);
      alternate = not s.alternate;
    }) in
    if is_digit c
    then (if ltb pan_max_digits (s.digits + 1) then none else counted)
    else if is_separator c
    then skipped
    else none

abbrev pub start : Scan
start = record { digits = 0; sum = 0; alternate = false }

unfoldable pub verdict : Option Scan → Bool
verdict none = false
verdict (some s) = leb pan_min_digits s.digits && s.sum % 10 == 0

-- The branches for a text, and for a number as `String` prints it.
unfoldable pub is_pan : Text → Bool
unfolding scan verdict
is_pan raw =
    if ltb (length raw) pan_min_digits || ltb pan_max_raw_length (length raw)
    then false
    else verdict (scan (reverse raw) start)
