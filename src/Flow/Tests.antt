-- ===== src/Flow/Tests.antt =====
-- Small flows, and the theorems at concrete inputs.
use nodejs_template.Prelude.{ℕ, ◌+◌, ◌≡◌, ◌≢◌, ◌↔◌, refl, true, false, none, some, [], ◌∷◌}
use nodejs_template.Flow.{Callback, resolved, rejected, emitted, make_flow}
use nodejs_template.Flow.Reference.{Ends, chain, make_flow-chain}
use nodejs_template.Flow.Prefix.{Stops}
use nodejs_template.Flow.Message.{
  advanced, held, run_all, message_adapter, message_adapter-advanced_iff,
}

-- Adds to a counter and calls `next`; stops without calling it; throws after calling it.
abbrev adds : ℕ → Callback ℕ ℕ
adds n d = record { after = d + n; next_was_called = true; thrown = none }

abbrev stops : Callback ℕ ℕ
stops d = record { after = d + 100; next_was_called = false; thrown = none }

abbrev throws : ℕ → Callback ℕ ℕ
throws e d = record { after = d; next_was_called = true; thrown = some e }

flows :
    ((make_flow 0 (adds 1 ∷ stops ∷ adds 2 ∷ [])).shared ≡ 101)
    × ((make_flow 0 (adds 1 ∷ adds 2 ∷ [])).settled ≡ some resolved)
    × ((make_flow 0 (adds 1 ∷ throws 7 ∷ adds 2 ∷ [])).settled ≡ some (rejected 7))
unfolding make_flow
flows = (refl, refl, refl)

make_flow-chain_example : Ends (make_flow 0 (adds 1 ∷ stops ∷ [])) (chain 0 (adds 1 ∷ stops ∷ []))
make_flow-chain_example = make_flow-chain 0 (adds 1 ∷ stops ∷ [])

stops-Stops : Stops stops
unfolding emitted
stops-Stops d e = cc

messages :
    (message_adapter 0 (adds 1 ∷ adds 2 ∷ []) ≡ advanced 3)
    × (message_adapter 0 (adds 1 ∷ stops ∷ []) ≡ held 101)
unfolding message_adapter make_flow
messages = (refl, refl)

message_adapter-advanced_iff_example :
    (message_adapter 0 (adds 1 ∷ []) ≡ advanced 1)
    ↔ ((adds 1 ∷ [] ≢ []) × (run_all 0 (adds 1 ∷ []) ≡ some 1))
message_adapter-advanced_iff_example = message_adapter-advanced_iff 0 1 (adds 1 ∷ [])
