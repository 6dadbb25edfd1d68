-- ===== src/Parallelize/Tests.antt =====
-- Runs of parallel middlewares, and the theorems at concrete handlers.
use nodejs_template.Prelude.{◌≡◌, refl, ℕ, none, some, List, [], ◌∷◌, length, All, arith, ◌≤◌}
use nodejs_template.Parallelize.{
  any, race, Argument, function_argument, value_argument, noop, promised, threw, MiddlewareHandler,
  function_handler, object_handler, FirstParameter, options, first_handler, Settlement, fulfilled,
  rejected, advanced, failed, awaited, parallelize, to_resolve, mode_of, replace_next,
  call_handlers, call_handler,
}
use nodejs_template.Parallelize.Modes.{Advances, parallelize-advanced_iff}

abbrev quiet : MiddlewareHandler ℕ ℕ
quiet = function_handler (λ args. promised)

abbrev quiet_object : MiddlewareHandler ℕ ℕ
quiet_object = object_handler (λ request state next. promised)

abbrev throwing : MiddlewareHandler ℕ ℕ
throwing = function_handler (λ args. threw 5)

abbrev with_any : FirstParameter ℕ ℕ
with_any = options (some any)

abbrev two : List (MiddlewareHandler ℕ ℕ)
two = quiet ∷ quiet_object ∷ []

abbrev settlements : List (Settlement ℕ)
settlements = rejected 3 ∷ fulfilled ∷ []

abbrev args : List (Argument ℕ)
args = value_argument 1 ∷ function_argument 2 ∷ []

abbrev replaced : List (Argument ℕ)
replaced = value_argument 1 ∷ noop ∷ []

any_advances : parallelize with_any two args settlements ≡ awaited advanced
unfolding parallelize
any_advances = refl

race_fails : parallelize (options (some race)) two args settlements ≡ awaited (failed 3)
unfolding parallelize
race_fails = refl

at_most_two : length settlements ≤ length (to_resolve with_any two)
unfolding to_resolve
at_most_two = ground arith

replaced_lem : replace_next args ≡ some replaced
unfolding replace_next
replaced_lem = refl

parallelize-advanced_iff_example :
    (r : List (Argument ℕ)) × (replace_next args ≡ some r)
    × (call_handlers r (to_resolve with_any two) ≡ none)
    × Advances (mode_of with_any) (length (to_resolve with_any two)) settlements
parallelize-advanced_iff_example =
    (parallelize-advanced_iff with_any two args settlements at_most_two).0 any_advances

handlers_lem : to_resolve (first_handler quiet) (throwing ∷ []) ≡ quiet ∷ throwing ∷ []
unfolding to_resolve
handlers_lem = refl

quiet_lem : All (λ h. call_handler replaced h ≡ promised) (quiet ∷ [])
unfolding call_handler
quiet_lem = (refl, tt)

throwing_lem : call_handler replaced throwing ≡ threw 5
unfolding call_handler
throwing_lem = refl
