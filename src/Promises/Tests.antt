-- ===== src/Promises/Tests.antt =====
-- Four callbacks, two at a time, and the theorems at concrete inputs.
use nodejs_template.Promises.{run, start, count_up}
use nodejs_template.Promises.Resolved.{IsBounded, run-IsBounded, run-resolved}
use nodejs_template.Prelude.{ℕ, ◌*◌, ◌≡◌, refl, none, some, [], ◌∷◌, map, arith}

abbrev tens : ℕ → ℕ
tens i = i * 10

-- The second ends first, then the third, which takes its place.
runs :
    ((run 4 tens (1 ∷ 2 ∷ []) (start 4 tens 2)).running ≡ 0 ∷ 3 ∷ [])
    × ((run 4 tens (1 ∷ 2 ∷ 3 ∷ 0 ∷ []) (start 4 tens 2)).resolved ≡ some (0 ∷ 10 ∷ 20 ∷ 30 ∷ []))
unfolding run start
runs = (refl, refl)

run-resolved_example :
    (run 2 tens (1 ∷ 0 ∷ []) (start 2 tens 2)).resolved
    ≡ elim (run 2 tens (1 ∷ 0 ∷ []) (start 2 tens 2)).running [
      | [] ↦ some (map tens (count_up 0 2))
      | _ ∷ _ ↦ none
    ]
run-resolved_example = run-resolved 2 tens 2 (1 ∷ 0 ∷ []) (omega arith)

run-IsBounded_example : IsBounded 4 2 (run 4 tens (1 ∷ 2 ∷ []) (start 4 tens 2))
run-IsBounded_example = run-IsBounded 4 tens 2 (1 ∷ 2 ∷ []) (omega arith)
