-- ===== src/Validation/Tests.antt =====
-- Requests at concrete inputs.
use nodejs_template.Validation.Outcome.{judged, request_validation_adapter-judged}
use nodejs_template.Text.{text}
use nodejs_template.Validation.Variants.{get_field, LastWith, get_field-expand}
use nodejs_template.Validation.{
  HttpRequest, request_validation_adapter, split_key_words, field, get_case_variants, set_all, obj,
  with_defaults, expand_fields, num, build_validation_payloads, end, http_request, null,
}
use nodejs_template.Value.{Value}
use nodejs_template.Prelude.{ℕ, ◌≡◌, refl, none, some, [], ◌∷◌, Option}

words :
    (split_key_words (text "XMLHttp-requestID")
      ≡ text "xml" ∷ text "http" ∷ text "request" ∷ text "id" ∷ [])
    × (get_case_variants (text "user_id")
        ≡ text "user_id"
          ∷ text "userId"
          ∷ text "UserId"
          ∷ text "USER_ID"
          ∷ text "userid"
          ∷ text "USERID"
          ∷ [])
unfolding split_key_words get_case_variants
words = (refl, refl)

abbrev request : HttpRequest
request = record {
  body = field (text "user_id") (num (text "1")) end;
  params = end;
  query = field (text "userId") (num (text "2")) end;
  headers = end;
}

-- A schema that wants a number at `userId`.
abbrev wants_user : Value → Option ℕ
wants_user (obj fields) = elim (get_field (text "userId") fields) [
  | some (num n) ↦ none
  | _ ↦ some 1
]
wants_user value = some 2

-- A key in small letters without a separator is one word.
not_equivalent :
    get_field (text "clientId") (expand_fields end (field (text "clientid") null end)) ≡ none
unfolding expand_fields set_all get_case_variants
not_equivalent = refl

get_field-expand_example :
    LastWith
      (text "userId")
      (field (text "USER_ID") null end)
      none
      (get_field (text "userId") (expand_fields end (field (text "USER_ID") null end)))
get_field-expand_example = get_field-expand (text "userId") (field (text "USER_ID") null end)

request_validation_adapter-judged_example :
    request_validation_adapter wants_user (with_defaults none none) request
    ≡ judged wants_user (build_validation_payloads (http_request request) (with_defaults none none))
request_validation_adapter-judged_example =
    request_validation_adapter-judged wants_user (with_defaults none none) request
