-- ===== src/Security/Tests.antt =====
-- Keys and values of the repository's tests, and the theorems at concrete inputs.
use nodejs_template.Prelude.{◌≡◌, ◌↔◌, refl, true, false, none, some, [], arith}
use nodejs_template.Text.{Text, text}
use nodejs_template.Value.{num, Value, str, arr, obj, nil, cons, end, field}
use nodejs_template.Security.Fragments.{is_known_fragment, has_keyword_fragment}
use nodejs_template.Security.Classify.{card, redact, partial, classify_key}
use nodejs_template.Security.Classify.Cache.{Classified, classify_key-Classified}
use nodejs_template.Security.Pan.{is_pan}
use nodejs_template.Security.Pan.Luhn.{IsCardNumber, is_pan_iff}
use nodejs_template.Security.Mask.{mask_card, mask_partial, apply_mask}
use nodejs_template.Security.Mask.Bounds.{is_pan-apply_mask}
use nodejs_template.Security.Sanitize.{
  maskable, get_sensitive_key_type, next_value, copy_fields, or_parent, sanitize, or_else,
}
use nodejs_template.Security.Sanitize.Reference.{masked, has_nan, sanitize-masked}
use nodejs_template.Security.Sanitize.Leaks.{NoCard, sanitize-NoCard, sanitize-array_field}

-- Ordinary words that contain a short keyword are not sensitive, fused names are.
keys :
    ((classify_key (text "charge") []).0 ≡ none)
    × ((classify_key (text "shipping") []).0 ≡ none)
    × ((classify_key (text "author") []).0 ≡ none)
    × ((classify_key (text "userauth") []).0 ≡ some redact)
    × ((classify_key (text "cpfCnpj") []).0 ≡ some partial)
    × ((classify_key (text "myCardNumber") []).0 ≡ some card)
unfolding classify_key is_known_fragment has_keyword_fragment
keys = (refl, refl, refl, refl, refl, refl)

abbrev visa : Text
visa = text "4111 1111 1111 1111"

visa-is_pan : is_pan visa ≡ true
unfolding is_pan
visa-is_pan = refl

masks :
    (mask_card visa ≡ text "411111******1111")
    × (mask_partial (text "12345678901") ≡ text "********901")
    × (mask_partial (text "7") ≡ text "*")
unfolding mask_card mask_partial
masks = (refl, refl, refl)

abbrev login : Value
login = obj (
    field (text "user") (str (text "ana"))
      (field (text "password") (str (text "hunter2")) (field (text "note") (str visa) end)))

login_masked :
    sanitize none login
    ≡ some (
        obj (
          field (text "user") (str (text "ana")) (
            field
              (text "password")
              (str (text "[REDACTED]"))
              (field (text "note") (str (text "411111******1111")) end))))
unfolding sanitize get_sensitive_key_type next_value copy_fields or_else or_parent apply_mask
    classify_key is_pan
login_masked = refl

-- A list of passwords is logged as it is.
abbrev passwords : Value
passwords = obj (field (text "passwords") (arr (cons (str (text "hunter2")) nil)) end)

sanitize-array_field_example :
    (or_else (sanitize none passwords) passwords ≡ passwords)
    × ((sanitize none passwords ≡ none) ↔ (has_nan passwords ≡ false))
unfolding maskable
sanitize-array_field_example =
    sanitize-array_field none (text "passwords") (cons (str (text "hunter2")) nil)
      ((text "hunter2", refl), tt)

-- A number that is not one is copied.
nan_copied :
    sanitize none (obj (field (text "n") (num (text "NaN")) end))
    ≡ some (obj (field (text "n") (num (text "NaN")) end))
unfolding sanitize get_sensitive_key_type next_value copy_fields or_else or_parent classify_key
    is_pan
nan_copied = refl

sanitize-NoCard_example : NoCard (or_else (sanitize none login) login)
sanitize-NoCard_example = sanitize-NoCard none login

sanitize-masked_example :
    (or_else (sanitize none login) login ≡ masked none login)
    × ((sanitize none login ≡ none) ↔ ((masked none login ≡ login) × (has_nan login ≡ false)))
sanitize-masked_example = sanitize-masked none login

is_pan-apply_mask_example : is_pan (apply_mask visa partial) ≡ false
is_pan-apply_mask_example = is_pan-apply_mask visa partial

is_pan_iff_example : (is_pan visa ≡ true) ↔ IsCardNumber visa
is_pan_iff_example = is_pan_iff visa

classify_key-Classified_example : Classified (text "jwt") (classify_key (text "jwt") [])
classify_key-Classified_example = classify_key-Classified (text "jwt") [] tt (omega arith)
