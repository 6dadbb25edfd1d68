-- ===== src/Loader/Tests.antt =====
-- Small lists of names and files, and the theorems at concrete inputs.
use nodejs_template.Prelude.{Bool, true, false, none, some, List, [], ◌∷◌, ◌≡◌, refl}
use nodejs_template.Text.{Text, text}
use nodejs_template.Loader.{
  no_options, extract_options, admits, define, register_worker, by_options, make_consumer,
}
use nodejs_template.Loader.Listed.{lets_start, extract_options-admits}
use nodejs_template.Loader.Directory.{Imported, setup, is_valid_file}

abbrev names : List Text
names = text "!*" ∷ text "pay" ∷ text "!mail" ∷ []

starts :
    (admits (extract_options no_options names) false (text "pay") ≡ true)
    × (admits (extract_options no_options names) true (text "mail") ≡ false)
    × (admits (extract_options no_options names) true (text "other") ≡ false)
unfolding extract_options admits
starts = (refl, refl, refl)

registers :
    (register_worker
        (extract_options no_options names)
        (record { name = text "pay"; enabled = some false; repeat_interval = none })
      ≡ define (text "pay") ∷ [])
    × (make_consumer
          (extract_options no_options names)
          (some 3)
          (λ _. record { enabled = none; prefetch = some 7 })
          (by_options (text "pay") (record { enabled = some false; prefetch = some 9 }))
        ≡ some (text "pay", some 7))
unfolding extract_options register_worker make_consumer
registers = (refl, refl)

extract_options-admits_example :
    admits (extract_options no_options names) true (text "pay") ≡ lets_start names true (text "pay")
extract_options-admits_example = extract_options-admits names true (text "pay")

files :
    (is_valid_file (text "a.ts") ≡ true)
    × (is_valid_file (text "a.spec.ts") ≡ false)
    × (is_valid_file (text "a.js.map") ≡ false)
unfolding is_valid_file
files = (refl, refl, refl)

abbrev imports : Text → Imported (List Bool)
imports file = setup (λ s. true ∷ s)

spec_is_skipped : is_valid_file (text "a.spec.ts") ≡ false
unfolding is_valid_file
spec_is_skipped = refl
