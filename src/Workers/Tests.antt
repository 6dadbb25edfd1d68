-- ===== src/Workers/Tests.antt =====
-- Runs of the manager, and the theorems at concrete ones.
use nodejs_template.Prelude.{◌≡◌, refl, true, false, none, some, List, [], ◌∷◌}
use nodejs_template.Text.{text}
use nodejs_template.Loader.{no_options, WorkerOptions}
use nodejs_template.Workers.{
  WorkerManager, WorkerEvent, refused, worker_made, agenda_asked, creation_ended,
  registration_resumed, every_settled, teardown_begun, teardown_ended, new_manager, run_workers,
  registrations_settled,
}
use nodejs_template.Workers.Connection.{orderly, IsHeld, run_workers-IsHeld}
use nodejs_template.Workers.Registrations.{run_workers-refused}

abbrev mail : WorkerOptions
mail = record { name = text "mail"; enabled = none; repeat_interval = some (text "1 minute") }

abbrev report : WorkerOptions
report = record { name = text "report"; enabled = none; repeat_interval = none }

-- Two workers share one creation; the process ends and starts again.
abbrev day : List WorkerEvent
day =
    worker_made mail
    ∷ worker_made report
    ∷ creation_ended 0 true
    ∷ registration_resumed 0
    ∷ registration_resumed 1
    ∷ every_settled 0 true
    ∷ agenda_asked
    ∷ teardown_begun
    ∷ teardown_ended (some 0)
    ∷ agenda_asked
    ∷ creation_ended 1 true
    ∷ []

day_settled : registrations_settled (run_workers no_options day new_manager) ≡ some true
unfolding run_workers registrations_settled
day_settled = refl

abbrev one_failed : WorkerManager
one_failed = record new_manager { worker_registrations = refused ∷ []; created = 1 }

failed :
    run_workers no_options (worker_made mail ∷ creation_ended 0 false ∷ []) new_manager ≡ one_failed
unfolding run_workers
failed = refl

-- A teardown while another creation is under way leaves a connection that nothing closes.
abbrev overlapping : List WorkerEvent
overlapping =
    worker_made report
    ∷ teardown_begun
    ∷ teardown_ended none
    ∷ creation_ended 1 true
    ∷ agenda_asked
    ∷ creation_ended 2 true
    ∷ []

leaked : (run_workers no_options overlapping one_failed).connections ≡ 2 ∷ 1 ∷ []
unfolding run_workers
leaked = refl

leaked_client : (run_workers no_options overlapping one_failed).mongo_client ≡ some 2
unfolding run_workers
leaked_client = refl

day-orderly : orderly no_options day new_manager ≡ true
unfolding orderly
day-orderly = refl

one_failed_settled : registrations_settled one_failed ≡ some false
unfolding registrations_settled
one_failed_settled = refl

run_workers-IsHeld_example : IsHeld (run_workers no_options day new_manager)
run_workers-IsHeld_example = run_workers-IsHeld no_options day day-orderly

run_workers-refused_example :
    registrations_settled (run_workers no_options day one_failed) ≡ some false
run_workers-refused_example = run_workers-refused no_options day one_failed one_failed_settled
