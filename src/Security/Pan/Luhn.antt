-- ===== src/Security/Pan/Luhn.antt =====
-- The pass over the raw value against the checksum of its digits.
use mathlib.Core.List.{reverse, reverse-append, reverse-cons}
use mathlib.Core.Bool.{false≢true}
use nodejs_template.Prelude.{
  ℕ, zero, suc, ◌+◌, ◌-◌, ◌%◌, ◌≤◌, ◌<◌, ◌≡◌, ◌≢◌, ◌↔◌, refl, Bool, true, false, not, ◌||◌, some,
  List, [], ◌∷◌, ◌++◌, length, if◌then◌else◌, arith, append_assoc, Bool-cases, Option-cases, inl,
  inr, All, ◌⊎◌,
}
use nodejs_template.Text.{Text, is_digit}
use nodejs_template.Security.Pan.{
  pan_min_digits, pan_max_digits, pan_max_raw_length, is_separator, weigh, Scan, scan, start,
  verdict, is_pan,
}

-- The values of the digits, in the order of the pass; anything else is skipped.
unfoldable pub digits_of : Text → List ℕ
digits_of [] = []
digits_of (c ∷ rest) = let more = digits_of rest in if is_digit c then (c - 48) ∷ more else more

-- The Luhn sum of the digits: every second one is doubled, less 9 if that has two digits.
unfoldable pub luhn_sum : Bool → List ℕ → ℕ
luhn_sum alternate [] = 0
luhn_sum alternate (d ∷ ds) = weigh alternate d + luhn_sum (not alternate) ds

-- Digits and separators only.
abbrev pub IsNumeric : Text → Type 0
IsNumeric = All (λ c. (is_digit c || is_separator c) ≡ true)

unfoldable pub parity : Bool → ℕ → Bool
parity b zero = b
parity b (suc n) = parity (not b) n

scan-eq-some :
    (raw : Text) (n sum : ℕ) (b : Bool)
    → IsNumeric raw
    → n + length (digits_of raw) ≤ pan_max_digits
    → scan raw (record { digits = n; sum = sum; alternate = b })
      ≡ some (record {
        digits = n + length (digits_of raw);
        sum = sum + luhn_sum b (digits_of raw);
        alternate = parity b (length (digits_of raw));
      })
unfolding scan digits_of luhn_sum parity
scan-eq-some [] n sum b h m = ground arith
scan-eq-some (c ∷ raw) n sum b h m = ground (
  arith,
  scan-eq-some raw n sum b h.1,
  scan-eq-some raw (n + 1) (sum + weigh b (c - 48)) (not b) h.1,
)

scan_sound :
    (raw : Text) (s t : Scan)
    → scan raw s ≡ some t
    → IsNumeric raw
      × (t.digits ≡ s.digits + length (digits_of raw))
      × (t.sum ≡ s.sum + luhn_sum s.alternate (digits_of raw))
      × ((t.digits ≤ pan_max_digits) ⊎ (t.digits ≡ s.digits))
unfolding scan digits_of luhn_sum
scan_sound [] s t e = ground arith
scan_sound (c ∷ raw) s t e = ground (
  arith,
  scan_sound raw s t,
  scan_sound raw
      (record {
        digits = s.digits + 1;
        sum = s.sum + weigh s.alternate (c - 48);
        alternate = not s.alternate;
      })
      t,
)

-- A card number: of 13 to 38 units, all digits or separators, 13 to 19 of them digits, whose Luhn
-- sum from the right is a multiple of ten.
pub record IsCardNumber (raw : Text) : Type 0 where
  pub long : pan_min_digits ≤ length raw
  pub short : length raw ≤ pan_max_raw_length
  pub numeric : IsNumeric (reverse raw)
  pub enough : pan_min_digits ≤ length (digits_of (reverse raw))
  pub few : length (digits_of (reverse raw)) ≤ pan_max_digits
  pub sum : luhn_sum false (digits_of (reverse raw)) % 10 ≡ 0

verdict_sound :
    (raw : Text)
    → verdict (scan raw start) ≡ true
    → IsNumeric raw
      × (pan_min_digits ≤ length (digits_of raw))
      × (length (digits_of raw) ≤ pan_max_digits)
      × (luhn_sum false (digits_of raw) % 10 ≡ 0)
unfolding verdict
verdict_sound raw h = elim (Option-cases (scan raw start)) [
  | inl failed ↦ absurd (false≢true ((rw failed at h)))
  | inr (t, e) ↦
      let (numeric, count, total, bound) = scan_sound raw start t e in
      let passed : verdict (some t) ≡ true = rw e at h in
      (numeric, ground arith, ground arith, ground arith)
]

verdict_complete :
    (raw : Text)
    → IsNumeric raw
    → pan_min_digits ≤ length (digits_of raw)
    → length (digits_of raw) ≤ pan_max_digits
    → luhn_sum false (digits_of raw) % 10 ≡ 0
    → verdict (scan raw start) ≡ true
verdict_complete raw h enough few sum =
    rw (scan-eq-some raw 0 0 false h (omega (arith, few))) (unfold verdict in ground arith)

-- A text is taken for a card number exactly when it is one by its digits and their checksum.
pub is_pan_iff : (raw : Text) → (is_pan raw ≡ true) ↔ IsCardNumber raw
unfolding is_pan
is_pan_iff raw = (to, from)
  where
    to : is_pan raw ≡ true → IsCardNumber raw
    to h =
        let (numeric, enough, few, sum) = verdict_sound (reverse raw) (ground arith) in
        record {
          long = ground arith;
          short = ground arith;
          numeric = numeric;
          enough = enough;
          few = few;
          sum = sum;
        }

    from : IsCardNumber raw → is_pan raw ≡ true
    from h =
        ground
          (arith, verdict_complete (reverse raw) h.numeric h.enough h.few h.sum, h.long, h.short)

digits_of-append : (xs ys : Text) → digits_of (xs ++ ys) ≡ digits_of xs ++ digits_of ys
unfolding digits_of
digits_of-append [] ys = refl
digits_of-append (c ∷ xs) ys = ground (arith, digits_of-append xs ys)

luhn_sum-append :
    (b : Bool) (xs ys : List ℕ)
    → luhn_sum b (xs ++ ys) ≡ luhn_sum b xs + luhn_sum (parity b (length xs)) ys
unfolding luhn_sum parity
luhn_sum-append b [] ys = omega arith
luhn_sum-append b (x ∷ xs) ys = omega (arith, luhn_sum-append (not b) xs ys)

-- Doubling with the carry folded in is a permutation of the ten digits.
weigh_injective :
    (b : Bool) (d e s : ℕ)
    → d < 10
    → e < 10
    → (s + weigh b d) % 10 ≡ 0
    → (s + weigh b e) % 10 ≡ 0
    → d ≡ e
unfolding weigh
weigh_injective true d e s p q h k = ground arith
weigh_injective false d e s p q h k = ground arith

-- What the other units add to the sum, around one digit.
abbrev around : Text → Text → ℕ
around us vs =
    luhn_sum false (digits_of us)
    + luhn_sum (not (parity false (length (digits_of us)))) (digits_of vs)

sum-around :
    (us vs : Text) (c : ℕ)
    → is_digit c ≡ true
    → luhn_sum false (digits_of (us ++ c ∷ vs))
      ≡ around us vs + weigh (parity false (length (digits_of us))) (c - 48)
sum-around us vs c h =
    rw (digits_of-append, luhn_sum-append)
      (unfold digits_of in rw h (unfold luhn_sum in omega arith))

reverse-middle : (xs ys : Text) (c : ℕ) → reverse (xs ++ c ∷ ys) ≡ reverse ys ++ c ∷ reverse xs
reverse-middle xs ys c = rw (reverse-append, reverse-cons, append_assoc) refl

-- A single digit read wrongly is always noticed: of two texts that differ in one digit at most one
-- is taken for a card number.
is_pan-one_digit :
    (xs ys : Text) (c d : ℕ)
    → is_digit c ≡ true
    → is_digit d ≡ true
    → c ≢ d
    → is_pan (xs ++ c ∷ ys) ≡ true
    → is_pan (xs ++ d ∷ ys) ≡ false
is_pan-one_digit xs ys c d hc hd differ h = elim (Bool-cases (is_pan (xs ++ d ∷ ys))) [
  | inr other ↦ other
  | inl both ↦
      let p = ((is_pan_iff (xs ++ c ∷ ys)).0 h).sum in
      let q = ((is_pan_iff (xs ++ d ∷ ys)).0 both).sum in
      let us = reverse ys in
      let vs = reverse xs in
      let p' = rw (reverse-middle, sum-around us vs c hc) at p in
      let q' = rw (reverse-middle, sum-around us vs d hd) at q in
      let same =
        weigh_injective (parity false (length (digits_of us))) (c - 48) (d - 48) (around us vs)
          (ground arith) (ground arith) p' q' in
      absurd (differ (ground arith))
]
