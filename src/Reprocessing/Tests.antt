-- ===== src/Reprocessing/Tests.antt =====
-- A message with a small schedule, and the theorems at concrete inputs.
use nodejs_template.Reprocessing.Schedule.{failure-expected}
use nodejs_template.Text.{text}
use nodejs_template.Reprocessing.Restore.{Restores, settle-Restores}
use nodejs_template.Reprocessing.Resume.{handlers_run, handlers_run-head}
use nodejs_template.Reprocessing.Send.{Payload, Reprocessing, publish_in_exchange, QueueOptions}
use nodejs_template.Reprocessing.Decorator.{
  Handler, Options, Settings, queue_options_of, Body, or_default, again,
  normalize_reprocessing_payload, resent, settle,
}
use nodejs_template.Reprocessing.Decorator.{Ran}
use nodejs_template.Reprocessing.Failure.{
  failure, fresh, summary, expected, sent_to, stored, nothing,
}
use mathlib.Core.List.{head?}
use nodejs_template.Prelude.{ℕ, ◌+◌, ◌≡◌, refl, true, false, none, some, [], ◌∷◌, arith}

abbrev settings : Settings
settings = record {
  enabled = true;
  max_tries = 3;
  delays = some 1000 ∷ [];
  mode = text "STOPPED_MIDDLEWARE";
}

abbrev no_options : Options
no_options = record {
  max_tries = none;
  delays = none;
  normalize_only = false;
  queue_options = none;
}

abbrev fields : QueueOptions
fields = record { queue = text "q"; exchange = some (text "x"); routing_key = none }

abbrev first : Payload ℕ ℕ
first = record { headers = 1; body = 2; fields = fields }

-- Writes to the body, and throws.
abbrev breaks : Handler ℕ ℕ ℕ
breaks p s = record {
  payload = record p { body = p.body + 1 };
  state = s;
  next_was_called = false;
  thrown = some (some 1, none);
}

abbrev passes : Handler ℕ ℕ ℕ
passes p s = record { payload = p; state = s; next_was_called = true; thrown = none }

abbrev comes_back : Reprocessing ℕ ℕ ℕ → Payload ℕ (Body ℕ ℕ ℕ)
comes_back m = record { headers = 9; body = again m; fields = fields }

failures :
    (summary (failure settings no_options (text "Job") breaks first comes_back 1)
      ≡ sent_to (text "x") (some 2000) 2)
    × (summary (failure settings no_options (text "Job") breaks first comes_back 3) ≡ stored)
    × (summary (failure settings no_options (text "Job") breaks first comes_back 4) ≡ nothing)
unfolding failure
failures = (refl, refl, refl)

failure-expected_example :
    summary (failure settings no_options (text "Job") breaks first comes_back 2)
    ≡ expected fields (some 1000 ∷ []) 3 2
unfolding queue_options_of or_default
failure-expected_example =
    failure-expected settings no_options (text "Job") breaks first comes_back refl refl
      (λ p s. ((some 1, none), refl)) (λ p s. refl) (λ m. refl) (λ m. refl) (omega arith) 2

abbrev broken : Ran ℕ ℕ ℕ
broken = record {
  payload = first;
  state = record {
    reprocessing = some (record { middleware = none; tries = none });
    rest = (text "a", 5) ∷ (text "b", 6) ∷ [];
  };
  next_was_called = false;
  thrown = some (none, none);
}

abbrev message : Reprocessing ℕ ℕ ℕ
message = record {
  middleware = text "Job";
  progress = (none, none);
  tries = record { current = 1; max = 1; delays = some 7 ∷ [] };
  payload = first;
  state = (text "a", 5) ∷ (text "b", 6) ∷ [];
}

abbrev one_try : Options
one_try = record no_options { max_tries = some 1; delays = some (some 7 ∷ []) }

settled :
    settle settings one_try (text "Job") fields broken
    ≡ resent broken (some 7 ∷ [], some (publish_in_exchange (text "x") message [] 1 (some 7)))
unfolding settle
settled = refl

settle-Restores_example :
    Restores broken
      (record { reprocessing = none; rest = (text "a", 1) ∷ [] })
      (normalize_reprocessing_payload
        (comes_back message)
        (record { reprocessing = none; rest = (text "a", 1) ∷ [] }))
settle-Restores_example =
    settle-Restores settings one_try (text "Job") fields broken (some 7 ∷ [])
      (publish_in_exchange (text "x") message [] 1 (some 7)) (comes_back message)
      (record { reprocessing = none; rest = (text "a", 1) ∷ [] }) settled refl (refl, (refl, tt))

handlers :
    handlers_run settings no_options
      ((text "First", passes) ∷ (text "Job", passes) ∷ (text "Last", passes) ∷ [])
      (comes_back message)
      fresh
    ≡ text "Job" ∷ text "Last" ∷ []
unfolding handlers_run
handlers = refl

handlers_run-head_example :
    head? (
      handlers_run settings no_options
        ((text "First", passes) ∷ (text "Job", passes) ∷ (text "Last", passes) ∷ [])
        (comes_back message)
        fresh)
    ≡ some (text "Job")
handlers_run-head_example =
    handlers_run-head settings no_options ((text "First", passes) ∷ []) ((text "Last", passes) ∷ [])
      (text "Job") passes message (comes_back message) fresh refl refl (λ e. cc) refl
      ((λ e. cc), tt) refl
