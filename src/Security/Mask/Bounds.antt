-- ===== src/Security/Mask/Bounds.antt =====
-- How much of a value the masks let through.
use mathlib.Core.List.{reverse, reverse-cons}
use nodejs_template.Prelude.{
  ◌⊎◌, ℕ, zero, suc, ◌+◌, ◌-◌, ◌*◌, ◌≤◌, ◌<◌, ◌≡◌, refl, ap, true, false, [], ◌∷◌, ◌++◌, length,
  take, drop, replicate, ltb, arith, length-append, length-take, length-drop, length-replicate,
  Bool-cases, inl, inr, ◌==◌, if◌then◌else◌,
}
use nodejs_template.Text.{Text}
use nodejs_template.Security.Classify.{KeyType, card, redact, partial}
use nodejs_template.Security.Pan.{is_pan, is_separator}
use nodejs_template.Security.Pan.Luhn.{is_pan_iff, IsNumeric}
use nodejs_template.Security.Mask.{
  digits_only, star, mask_card, mask_redact, mask_count, mask_partial, apply_mask,
}

-- The units of a text that are no stars.
unfoldable pub shown : Text → ℕ
shown [] = 0
shown (c ∷ s) = let rest = shown s in if c == star then rest else suc rest

shown-append : (s t : Text) → shown (s ++ t) ≡ shown s + shown t
unfolding shown
shown-append [] t = omega arith
shown-append (c ∷ s) t = ground (arith, shown-append s t)

shown-replicate : (n : ℕ) → shown (replicate n star) ≡ 0
unfolding shown
shown-replicate zero = refl
shown-replicate (suc n) = shown-replicate n

shown-le-length : (s : Text) → shown s ≤ length s
unfolding shown
shown-le-length [] = omega arith
shown-le-length (c ∷ s) = ground (arith, shown-le-length s)

mask_count_bounds :
    (n : ℕ)
    → (1 ≤ mask_count (suc n))
      × (mask_count (suc n) ≤ suc n)
      × (suc n * 4 ≤ mask_count (suc n) * 5 + 4)
unfolding mask_count
mask_count_bounds n = ground arith

-- A partial mask keeps the length, hides at least one unit of a value that is not empty, and shows
-- at most one unit more than a fifth of it.
mask_partial_lem :
    (c : ℕ) (s : Text)
    → (length (mask_partial (c ∷ s)) ≡ length (c ∷ s))
      × (shown (mask_partial (c ∷ s)) + 1 ≤ length (c ∷ s))
      × (shown (mask_partial (c ∷ s)) * 5 ≤ length (c ∷ s) + 4)
unfolding mask_partial
mask_partial_lem c s =
    let n = mask_count (length (c ∷ s)) in
    let tail = drop n (c ∷ s) in
    let (some_hidden, fits, most) = mask_count_bounds (length s) in
    let stars = length-replicate n star in
    let joined = length-append (replicate n star) tail in
    let left = length-drop n (c ∷ s) in
    let seen = shown-append (replicate n star) tail in
    let none_seen = shown-replicate n in
    let few = shown-le-length tail in (omega arith, omega arith, omega arith)

card_parts :
    (digits : Text)
    → 10 ≤ length digits
    → let n = length digits in
      let masked = take 6 digits ++ (replicate (n - 10) star ++ drop (n - 4) digits) in
      (length masked ≡ n) × (shown masked ≤ 10) × (n < 10 → shown masked ≡ 0)
card_parts digits big =
    let n = length digits in
    let bin = take 6 digits in
    let middle = replicate (n - 10) star in
    let last4 = drop (n - 4) digits in
    let l1 = length-take 6 digits in
    let l2 = length-replicate (n - 10) star in
    let l3 = length-drop (n - 4) digits in
    let l4 = length-append bin (middle ++ last4) in
    let l5 = length-append middle last4 in
    let s1 = shown-append bin (middle ++ last4) in
    let s2 = shown-append middle last4 in
    let s3 = shown-le-length bin in
    let s4 = shown-le-length last4 in
    let s5 = shown-replicate (n - 10) in (omega arith, omega arith, omega arith)

-- A card mask shows at most ten units, and none of a value with fewer than ten digits; it is as
-- long as the value has digits.
mask_card_lem :
    (value : Text)
    → (length (mask_card value) ≡ length (digits_only value))
      × (shown (mask_card value) ≤ 10)
      × (length (digits_only value) < 10 → shown (mask_card value) ≡ 0)
unfolding mask_card
mask_card_lem value =
    let digits = digits_only value in
    let n = length digits in
    elim (Bool-cases (ltb n 10)) [
      | inl short ↦
          rw short
            (length-replicate n star, omega (arith, shown-replicate n), λ _. shown-replicate n)
      | inr long ↦ let big : 10 ≤ n = ground arith in rw long (card_parts digits big)
    ]

shown-reverse : (s : Text) → shown (reverse s) ≡ shown s
shown-reverse [] = refl
shown-reverse (c ∷ s) =
    rw reverse-cons
      (omega (arith, shown-append (reverse s) (c ∷ []), shown-reverse s, shown-append (c ∷ []) s))

length-reverse : (s : Text) → length (reverse s) ≡ length s
length-reverse [] = refl
length-reverse (c ∷ s) =
    rw reverse-cons (omega (arith, length-append (reverse s) (c ∷ []), length-reverse s))

shown-IsNumeric : (s : Text) → IsNumeric s → shown s ≡ length s
unfolding shown is_separator
shown-IsNumeric [] h = refl
shown-IsNumeric (c ∷ s) h = ground (arith, shown-IsNumeric s h.1)

shown-is_pan : (s : Text) → is_pan s ≡ true → (shown s ≡ length s) × (13 ≤ length s)
shown-is_pan s h =
    let n = (is_pan_iff s).0 h in
    let all = shown-IsNumeric (reverse s) n.numeric in
    (omega (arith, shown-reverse s, length-reverse s), n.long)

shown-apply_mask :
    (s : Text) (t : KeyType)
    → (shown (apply_mask s t) ≤ 10)
      ⊎ (shown (apply_mask s t) < length (apply_mask s t))
      ⊎ (apply_mask s t ≡ [])
shown-apply_mask s card = unfold apply_mask in inl (mask_card_lem s).1
shown-apply_mask s redact = unfold apply_mask mask_redact shown in inl (omega arith)
shown-apply_mask [] partial = unfold apply_mask mask_partial in inr (inr refl)
shown-apply_mask (c ∷ s) partial =
    unfold apply_mask in
    inr (inl (omega (arith, (mask_partial_lem c s).0, (mask_partial_lem c s).1)))

-- No mask leaves a card number.
pub is_pan-apply_mask : (s : Text) (t : KeyType) → is_pan (apply_mask s t) ≡ false
is_pan-apply_mask s t = elim (Bool-cases (is_pan (apply_mask s t))) [
  | inr safe ↦ safe
  | inl leak ↦
      let (all, long) = shown-is_pan (apply_mask s t) leak in
      absurd (elim (shown-apply_mask s t) [
        | inl few ↦ omega arith
        | inr (inl fewer) ↦ omega arith
        | inr (inr empty) ↦ omega (arith, ap length empty)
      ])
]
