-- ===== src/Workers/Registrations.antt =====
-- What a worker whose registration failed means for the start.
use nodejs_template.Prelude.{
  ℕ, zero, suc, ◌≡◌, refl, true, false, Option, some, List, [], ◌∷◌, ◌++◌, map, arith,
}
use nodejs_template.Loader.{LoaderOptions, WorkerOptions}
use nodejs_template.Workers.{
  Registration, waiting, scheduling, registered, refused, WorkerManager, WorkerEvent, worker_made,
  agenda_asked, creation_ended, registration_resumed, every_settled, teardown_begun, teardown_ended,
  teardown_failed, get_agenda, make_worker, add_registration, has_interval, agenda_created,
  agenda_failed, refuse_waiting, update_at, agenda_got, every_ended, close_begun, closed,
  not_closed, worker_step, run_workers, any_refused, registrations_settled,
}

-- What keeps a registration that has failed.
abbrev Keeps : (Registration → Registration) → Type 0
Keeps f = f refused ≡ refused

any_refused-append :
    (rs : List Registration) (r : Registration)
    → any_refused rs ≡ true
    → any_refused (rs ++ r ∷ []) ≡ true
unfolding any_refused
any_refused-append [] r h = ground (arith, h)
any_refused-append (refused ∷ rs) r h = refl
any_refused-append (waiting n interval ∷ rs) r h = any_refused-append rs r h
any_refused-append (scheduling ∷ rs) r h = any_refused-append rs r h
any_refused-append (registered ∷ rs) r h = any_refused-append rs r h

any_refused-cons :
    (r : Registration) (rs : List Registration)
    → any_refused rs ≡ true
    → any_refused (r ∷ rs) ≡ true
unfolding any_refused
any_refused-cons refused rs h = refl
any_refused-cons (waiting n interval) rs h = h
any_refused-cons scheduling rs h = h
any_refused-cons registered rs h = h

any_refused-map :
    (f : Registration → Registration) (rs : List Registration)
    → Keeps f
    → any_refused rs ≡ true
    → any_refused (map f rs) ≡ true
unfolding any_refused
any_refused-map f [] k h = h
any_refused-map f (refused ∷ rs) k h = rw k refl
any_refused-map f (waiting n interval ∷ rs) k h =
    any_refused-cons (f (waiting n interval)) (map f rs) (any_refused-map f rs k h)
any_refused-map f (scheduling ∷ rs) k h =
    any_refused-cons (f scheduling) (map f rs) (any_refused-map f rs k h)
any_refused-map f (registered ∷ rs) k h =
    any_refused-cons (f registered) (map f rs) (any_refused-map f rs k h)

any_refused-update_at :
    (i : ℕ) (f : Registration → Registration) (rs : List Registration)
    → Keeps f
    → any_refused rs ≡ true
    → any_refused (update_at i f rs) ≡ true
unfolding any_refused update_at
any_refused-update_at i f [] k h = h
any_refused-update_at zero f (refused ∷ rs) k h = rw k refl
any_refused-update_at zero f (waiting n interval ∷ rs) k h =
    any_refused-cons (f (waiting n interval)) rs h
any_refused-update_at zero f (scheduling ∷ rs) k h = any_refused-cons (f scheduling) rs h
any_refused-update_at zero f (registered ∷ rs) k h = any_refused-cons (f registered) rs h
any_refused-update_at (suc i) f (refused ∷ rs) k h = refl
any_refused-update_at (suc i) f (waiting n interval ∷ rs) k h = any_refused-update_at i f rs k h
any_refused-update_at (suc i) f (scheduling ∷ rs) k h = any_refused-update_at i f rs k h
any_refused-update_at (suc i) f (registered ∷ rs) k h = any_refused-update_at i f rs k h

abbrev HasRefused : WorkerManager → Type 0
HasRefused s = any_refused s.worker_registrations ≡ true

get_agenda-registrations :
    (s : WorkerManager) → (get_agenda s).0.worker_registrations ≡ s.worker_registrations
unfolding get_agenda
get_agenda-registrations s = ground arith

make_worker-HasRefused :
    (loader : LoaderOptions) (options : WorkerOptions) (s : WorkerManager)
    → HasRefused s
    → HasRefused (make_worker loader options s)
unfolding make_worker add_registration
make_worker-HasRefused loader options s h = ground (
  arith,
  get_agenda-registrations s,
  any_refused-append s.worker_registrations registered h,
  any_refused-append s.worker_registrations (waiting (get_agenda s).1 (has_interval options)) h,
)

agenda_created-registrations :
    (n : ℕ) (s : WorkerManager) → (agenda_created n s).worker_registrations ≡ s.worker_registrations
unfolding agenda_created
agenda_created-registrations n s = ground arith

closed-registrations :
    (client : Option ℕ) (s : WorkerManager)
    → (closed client s).worker_registrations ≡ s.worker_registrations
unfolding closed
closed-registrations client s = ground arith

refuse_waiting-Keeps : (n : ℕ) → Keeps (refuse_waiting n)
unfolding refuse_waiting
refuse_waiting-Keeps n = refl

agenda_failed-HasRefused :
    (n : ℕ) (s : WorkerManager) → HasRefused s → HasRefused (agenda_failed n s)
unfolding agenda_failed
agenda_failed-HasRefused n s h =
    ground (
      arith,
      h,
      any_refused-map (refuse_waiting n) s.worker_registrations (refuse_waiting-Keeps n) h,
    )

step-HasRefused :
    (loader : LoaderOptions) (event : WorkerEvent) (s : WorkerManager)
    → HasRefused s
    → HasRefused (worker_step loader event s)
unfolding worker_step close_begun not_closed agenda_got every_ended
step-HasRefused loader (worker_made options) s h = make_worker-HasRefused loader options s h
step-HasRefused loader agenda_asked s h = rw (get_agenda-registrations s) h
step-HasRefused loader (creation_ended n true) s h = rw (agenda_created-registrations n s) h
step-HasRefused loader (creation_ended n false) s h = agenda_failed-HasRefused n s h
step-HasRefused loader (registration_resumed i) s h =
    any_refused-update_at i (agenda_got s.creating) s.worker_registrations refl h
step-HasRefused loader (every_settled i succeeded) s h =
    any_refused-update_at i (every_ended succeeded) s.worker_registrations refl h
step-HasRefused loader teardown_begun s h = h
step-HasRefused loader (teardown_ended client) s h = rw (closed-registrations client s) h
step-HasRefused loader (teardown_failed n) s h = h

run-HasRefused :
    (loader : LoaderOptions) (events : List WorkerEvent) (s : WorkerManager)
    → HasRefused s
    → HasRefused (run_workers loader events s)
unfolding run_workers
run-HasRefused loader [] s h = h
run-HasRefused loader (event ∷ events) s h =
    run-HasRefused loader events (worker_step loader event s) (step-HasRefused loader event s h)

settled-refused : (s : WorkerManager) → HasRefused s → registrations_settled s ≡ some false
unfolding registrations_settled
settled-refused s h = ground (arith, h)

refused-settled : (s : WorkerManager) → registrations_settled s ≡ some false → HasRefused s
unfolding registrations_settled
refused-settled s h = ground (arith, h)

-- Once the promise of all registrations has rejected, so that `start` fails, it rejects after any
-- further events: no teardown, new worker or new agenda lets a later `start` succeed.
pub run_workers-refused :
    (loader : LoaderOptions) (events : List WorkerEvent) (s : WorkerManager)
    → registrations_settled s ≡ some false
    → registrations_settled (run_workers loader events s) ≡ some false
run_workers-refused loader events s h =
    settled-refused (run_workers loader events s)
      (run-HasRefused loader events s (refused-settled s h))
