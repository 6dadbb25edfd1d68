-- ===== src/Security/Mask.antt =====
-- src/util/security/mask-value.ts
pub mod Bounds
use nodejs_template.Prelude.{
  ℕ, ◌+◌, ◌-◌, ◌*◌, ◌/◌, Bool, List, [], ◌∷◌, ◌++◌, length, take, drop, replicate, ltb,
  if◌then◌else◌,
}
use nodejs_template.Text.{Text, text, is_digit}
use nodejs_template.Security.Classify.{KeyType, card, redact, partial}

-- `.replace(/\D/g, '')`
unfoldable pub digits_only : Text → Text
digits_only [] = []
digits_only (c ∷ s) = let rest = digits_only s in if is_digit c then c ∷ rest else rest

abbrev pub star : ℕ
star = b'*'

unfoldable pub mask_card : Text → Text
unfolding digits_only
mask_card value =
    let digits = digits_only value in
    let n = length digits in
    if ltb n 10
    then replicate n star
    else take 6 digits ++ (replicate (n - 10) star ++ drop (n - 4) digits)

unfoldable pub mask_redact : Text
mask_redact = text "[REDACTED]"

-- `Math.max(1, Math.floor(len * 0.8))`
unfoldable pub mask_count : ℕ → ℕ
mask_count len = if ltb (len * 4 / 5) 1 then 1 else len * 4 / 5

unfoldable pub mask_partial : Text → Text
unfolding mask_count
mask_partial [] = []
mask_partial (c ∷ s) =
    let count = mask_count (length (c ∷ s)) in replicate count star ++ drop count (c ∷ s)

unfoldable pub apply_mask : Text → KeyType → Text
unfolding mask_card mask_redact mask_partial
apply_mask value card = mask_card value
apply_mask value redact = mask_redact
apply_mask value partial = mask_partial value
