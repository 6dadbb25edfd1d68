-- ===== src/Buffer/Tests.antt =====
-- Runs of the buffer, and the theorems at concrete inputs.
use nodejs_template.Prelude.{ℕ, ◌≡◌, refl, true, false, none, some, List, [], ◌∷◌}
use nodejs_template.Buffer.{
  create, Event, enqueued, flush_called, write_ended, flush_resumed, timer_fired, step, run,
  documents,
}
use nodejs_template.Buffer.Invariant.{IsSound, run-create-IsSound}
use nodejs_template.Buffer.Fifo.{Accounts, run-create-Accounts}

-- Two documents fill a batch; a third one waits behind the write, its timer goes off, and the call
-- of `flush` goes on after the write has failed.
abbrev busy : List (Event ℕ)
busy = enqueued 1 ∷ enqueued 2 ∷ enqueued 3 ∷ timer_fired ∷ write_ended true ∷ flush_resumed ∷ []

busy_runs :
    ((run busy (create (some 2) none)).inserted ≡ 1 ∷ 2 ∷ 3 ∷ [])
    × ((run busy (create (some 2) none)).errors ≡ 1)
unfolding run step create
busy_runs = (refl, refl)

-- A queue of two documents drops the oldest while a write is in flight.
abbrev slow : List (Event ℕ)
slow = enqueued 1 ∷ flush_called ∷ enqueued 2 ∷ enqueued 3 ∷ enqueued 4 ∷ write_ended false ∷ []

slow_drops :
    ((run slow (create (some 9) (some 2))).dropped ≡ 1)
    × ((run slow (create (some 9) (some 2))).queue ≡ 3 ∷ 4 ∷ [])
unfolding run step create
slow_drops = (refl, refl)

run-create-IsSound_example : IsSound (run slow (create (some 9) (some 2)))
run-create-IsSound_example = run-create-IsSound (some 9) (some 2) slow

run-create-Accounts_example : Accounts (documents slow) (run slow (create (some 9) (some 2)))
run-create-Accounts_example = run-create-Accounts (some 9) (some 2) slow
