-- ===== src/Validation/Outcome.antt =====
-- When a request passes, and with which error it is turned down.
use nodejs_template.Prelude.{
  Option-cases, inl, inr, ◌≡◌, refl, true, false, Bool, Option, none, some, List, [], ◌∷◌, ◌++◌,
  any, arith, if◌then◌else◌,
}
use nodejs_template.Value.{Value}
use nodejs_template.Validation.{
  Answer, passed, bad_request, validate_payloads, request_validation_adapter,
  build_validation_payloads, http_request, HttpRequest, ValidationOptions,
}

module _ {E : Type 0} (validate : Value → Option E) where
  abbrev pub is_valid : Value → Bool
  is_valid payload = elim (validate payload) [ none ↦ true | some error ↦ false ]

  abbrev pub first_error : List Value → Option E
  first_error [] = none
  first_error (payload ∷ payloads) = validate payload

  abbrev pub judged : List Value → Answer E
  judged payloads = if any is_valid payloads then passed else bad_request (first_error payloads)

  validate_payloads-later :
      (error : E) (errors : List E) (payloads : List Value)
      → validate_payloads validate (error ∷ errors) payloads
        ≡ (if any is_valid payloads then passed else bad_request (some error))
  unfolding validate_payloads
  validate_payloads-later error errors [] = refl
  validate_payloads-later error errors (payload ∷ payloads) =
      elim (Option-cases (validate payload)) [
        | inl e ↦ ground (arith, e)
        | inr (x, e) ↦ ground (arith, e, validate_payloads-later error (errors ++ x ∷ []) payloads)
      ]

  validate_payloads-judged :
      (payloads : List Value) → validate_payloads validate [] payloads ≡ judged payloads
  unfolding validate_payloads
  validate_payloads-judged [] = refl
  validate_payloads-judged (payload ∷ payloads) = elim (Option-cases (validate payload)) [
    | inl e ↦ ground (arith, e)
    | inr (x, e) ↦ ground (arith, e, validate_payloads-later x [] payloads)
  ]

  -- A request passes exactly when the schema accepts one of the payloads that the options ask for,
  -- and is otherwise turned down with the error of the first of them.
  pub request_validation_adapter-judged :
      (options : ValidationOptions) (req : HttpRequest)
      → request_validation_adapter validate options req
        ≡ judged (build_validation_payloads (http_request req) options)
  unfolding request_validation_adapter
  request_validation_adapter-judged options req =
      validate_payloads-judged (build_validation_payloads (http_request req) options)
