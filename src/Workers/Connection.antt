-- ===== src/Workers/Connection.antt =====
-- How many connections there are when no teardown overlaps with anything else.
use nodejs_template.Prelude.{
  ℕ, ◌+◌, ◌≤◌, ◌==◌, ◌≡◌, sym, refl, Bool, true, false, ◌&&◌, Option, none, some, List, [], ◌∷◌,
  ◌++◌, map, length, arith, Bool-cases, inl, inr, ◌⊎◌,
}
use nodejs_template.Loader.{LoaderOptions, WorkerOptions, admits, or_else}
use nodejs_template.Workers.{
  Registration, refuse_waiting, update_at, agenda_got, every_ended, waiting, registered,
  has_interval, WorkerManager, WorkerEvent, worker_made, agenda_asked, creation_ended,
  registration_resumed, every_settled, teardown_begun, teardown_ended, teardown_failed, new_manager,
  get_agenda, make_worker, add_registration, agenda_created, agenda_failed, close_begun, closed,
  not_closed, worker_step, run_workers,
}

-- A teardown begins with no creation under way and no other teardown, and nothing but its end happens
-- before it ends.
unfoldable pub is_orderly : WorkerEvent → WorkerManager → Bool
is_orderly teardown_begun s = elim s.creating [
  | [] ↦ elim s.closing [ [] ↦ true | client ∷ rest ↦ false ]
  | n ∷ rest ↦ false
]
is_orderly (teardown_ended client) s = true
is_orderly (teardown_failed n) s = true
is_orderly event s = elim s.closing [ [] ↦ true | client ∷ rest ↦ false ]

unfoldable pub orderly : LoaderOptions → List WorkerEvent → WorkerManager → Bool
unfolding is_orderly worker_step
orderly loader [] s = true
orderly loader (event ∷ events) s =
    is_orderly event s && orderly loader events (worker_step loader event s)

-- The open connection is the one that a teardown closes, and none is opened beside it.
abbrev pub client_list : Option ℕ → List ℕ
client_list none = []
client_list (some n) = n ∷ []

pub record IsHeld (s : WorkerManager) : Type 0 where
  pub held : s.connections ≡ client_list s.mongo_client
  pub single : length (s.creating ++ s.connections) ≤ 1

-- The states of an orderly run.
data Situation : Type 0 where
  idle : Situation
  opening : ℕ → Situation
  connected : ℕ → Situation
  ending : Situation
  ending_connected : ℕ → Situation

module _ (created : ℕ) (registrations : List Registration) where
  abbrev resting : WorkerManager
  resting = record new_manager { created = created; worker_registrations = registrations }

  abbrev state_of : Situation → WorkerManager
  state_of idle = resting
  state_of (opening n) = record resting { agenda = some n; creating = n ∷ [] }
  state_of (connected n) = record resting {
    agenda = some n;
    mongo_client = some n;
    connections = n ∷ [];
  }
  state_of ending = record resting { closing = none ∷ [] }
  state_of (ending_connected n) = record resting {
    agenda = some n;
    mongo_client = some n;
    connections = n ∷ [];
    closing = some n ∷ [];
  }

abbrev IsReached : WorkerManager → Type 0
IsReached s =
    (phase : Situation) × (created : ℕ) × (registrations : List Registration) × (s
      ≡ state_of created registrations phase)

abbrev IsQuiet : Situation → Type 0
IsQuiet ending = ⊥
IsQuiet (ending_connected n) = ⊥
IsQuiet _ = Unit {0}

with_registrations-IsReached :
    (s : WorkerManager) (rs : List Registration)
    → IsReached s
    → IsReached (record s { worker_registrations = rs })
with_registrations-IsReached s rs (phase, c, old, e) = rw e (phase, c, rs, go phase)
  where
    go :
        (phase : Situation)
        → record (state_of c old phase) { worker_registrations = rs } ≡ state_of c rs phase
    go idle = refl
    go (opening n) = refl
    go (connected n) = refl
    go ending = refl
    go (ending_connected n) = refl

make_worker-cases :
    (loader : LoaderOptions) (options : WorkerOptions) (s : WorkerManager)
    → (make_worker loader options s ≡ add_registration registered s)
      ⊎ (make_worker loader options s
          ≡ add_registration (waiting (get_agenda s).1 (has_interval options)) (get_agenda s).0)
unfolding make_worker
make_worker-cases loader options s =
    elim (Bool-cases (admits loader (or_else options.enabled true) options.name)) [
      | inl e ↦ inr (rw e refl)
      | inr e ↦ inl (rw e refl)
    ]

module _ (c : ℕ) (rs : List Registration) where
  IsQuiet-of :
      (phase : Situation)
      → elim (state_of c rs phase).closing [ [] ↦ true | client ∷ rest ↦ false ] ≡ true
      → IsQuiet phase
  IsQuiet-of idle h = tt
  IsQuiet-of (opening n) h = tt
  IsQuiet-of (connected n) h = tt
  IsQuiet-of ending h = ground (arith, h)
  IsQuiet-of (ending_connected n) h = ground (arith, h)

  get_agenda-IsReached :
      (phase : Situation) → IsQuiet phase → IsReached (get_agenda (state_of c rs phase)).0
  unfolding get_agenda
  get_agenda-IsReached ending h = elim h [ ]
  get_agenda-IsReached (ending_connected m) h = elim h [ ]
  get_agenda-IsReached idle h = (opening c, c + 1, rs, refl)
  get_agenda-IsReached (opening n) h = (opening n, c, rs, refl)
  get_agenda-IsReached (connected n) h = (connected n, c, rs, refl)

  make_worker-IsReached :
      (loader : LoaderOptions) (options : WorkerOptions) (phase : Situation)
      → IsQuiet phase
      → IsReached (make_worker loader options (state_of c rs phase))
  unfolding add_registration
  make_worker-IsReached loader options phase h =
      let s = state_of c rs phase in
      elim (make_worker-cases loader options s) [
        | inl e ↦ rw e (
            with_registrations-IsReached s (s.worker_registrations ++ registered ∷ [])
              (phase, c, rs, refl))
        | inr e ↦ rw e (
            with_registrations-IsReached (get_agenda s).0
              ((get_agenda s).0.worker_registrations
                ++ waiting (get_agenda s).1 (has_interval options) ∷ [])
              (get_agenda-IsReached phase h))
      ]

  agenda_created-IsReached :
      (n : ℕ) (phase : Situation)
      → IsQuiet phase
      → IsReached (agenda_created n (state_of c rs phase))
  unfolding agenda_created
  agenda_created-IsReached n ending h = elim h [ ]
  agenda_created-IsReached n (ending_connected m) h = elim h [ ]
  agenda_created-IsReached n idle h = (idle, c, rs, refl)
  agenda_created-IsReached n (connected m) h = (connected m, c, rs, refl)
  agenda_created-IsReached n (opening m) h = elim (Bool-cases (m == n)) [
    | inl e ↦ (connected n, c, rs, (let p : m ≡ n = ground (arith, e) in rw e (rw p refl)))
    | inr e ↦ (opening m, c, rs, rw e refl)
  ]

  agenda_failed-IsReached :
      (n : ℕ) (phase : Situation)
      → IsQuiet phase
      → IsReached (agenda_failed n (state_of c rs phase))
  unfolding agenda_failed
  agenda_failed-IsReached n ending h = elim h [ ]
  agenda_failed-IsReached n (ending_connected m) h = elim h [ ]
  agenda_failed-IsReached n idle h = (idle, c, rs, refl)
  agenda_failed-IsReached n (connected m) h = (connected m, c, rs, refl)
  agenda_failed-IsReached n (opening m) h = elim (Bool-cases (m == n)) [
    | inl e ↦ (idle, c, map (refuse_waiting n) rs, rw e refl)
    | inr e ↦ (opening m, c, rs, rw e refl)
  ]

  closed-IsReached :
      (client : Option ℕ) (phase : Situation) → IsReached (closed client (state_of c rs phase))
  unfolding closed
  closed-IsReached client idle = (idle, c, rs, refl)
  closed-IsReached client (opening m) = (opening m, c, rs, refl)
  closed-IsReached client (connected m) = (connected m, c, rs, refl)
  closed-IsReached none ending = (idle, c, rs, refl)
  closed-IsReached (some n) ending = (ending, c, rs, refl)
  closed-IsReached none (ending_connected m) = (ending_connected m, c, rs, refl)
  closed-IsReached (some n) (ending_connected m) = elim (Bool-cases (m == n)) [
    | inl e ↦ (idle, c, rs, rw e refl)
    | inr e ↦ (ending_connected m, c, rs, rw e refl)
  ]

  not_closed-IsReached :
      (n : ℕ) (phase : Situation) → IsReached (not_closed n (state_of c rs phase))
  unfolding not_closed
  not_closed-IsReached n idle = (idle, c, rs, refl)
  not_closed-IsReached n (opening m) = (opening m, c, rs, refl)
  not_closed-IsReached n (connected m) = (connected m, c, rs, refl)
  not_closed-IsReached n ending = (ending, c, rs, refl)
  not_closed-IsReached n (ending_connected m) = elim (Bool-cases (m == n)) [
    | inl e ↦ (connected m, c, rs, rw e refl)
    | inr e ↦ (ending_connected m, c, rs, rw e refl)
  ]

  step-IsReached :
      (loader : LoaderOptions) (event : WorkerEvent) (phase : Situation)
      → is_orderly event (state_of c rs phase) ≡ true
      → IsReached (worker_step loader event (state_of c rs phase))
  unfolding worker_step is_orderly close_begun
  step-IsReached loader (worker_made options) phase h =
      make_worker-IsReached loader options phase (IsQuiet-of phase h)
  step-IsReached loader agenda_asked phase h = get_agenda-IsReached phase (IsQuiet-of phase h)
  step-IsReached loader (creation_ended n true) phase h =
      agenda_created-IsReached n phase (IsQuiet-of phase h)
  step-IsReached loader (creation_ended n false) phase h =
      agenda_failed-IsReached n phase (IsQuiet-of phase h)
  step-IsReached loader (registration_resumed i) phase h =
      let s = state_of c rs phase in
      with_registrations-IsReached s (update_at i (agenda_got s.creating) s.worker_registrations)
        (phase, c, rs, refl)
  step-IsReached loader (every_settled i succeeded) phase h =
      let s = state_of c rs phase in
      with_registrations-IsReached s (update_at i (every_ended succeeded) s.worker_registrations)
        (phase, c, rs, refl)
  step-IsReached loader teardown_begun idle h = (ending, c, rs, refl)
  step-IsReached loader teardown_begun (opening n) h = ground (arith, h)
  step-IsReached loader teardown_begun (connected n) h = (ending_connected n, c, rs, refl)
  step-IsReached loader teardown_begun ending h = ground (arith, h)
  step-IsReached loader teardown_begun (ending_connected n) h = ground (arith, h)
  step-IsReached loader (teardown_ended client) phase h = closed-IsReached client phase
  step-IsReached loader (teardown_failed n) phase h = not_closed-IsReached n phase

both : (a b : Bool) → (a && b) ≡ true → (a ≡ true) × (b ≡ true)
both a b h = ground (arith, h)

run-IsReached :
    (loader : LoaderOptions) (events : List WorkerEvent) (s : WorkerManager)
    → IsReached s
    → orderly loader events s ≡ true
    → IsReached (run_workers loader events s)
unfolding run_workers orderly
run-IsReached loader [] s h o = h
run-IsReached loader (event ∷ events) s (phase, c, rs, e) o =
    let (first, others) =
      both (is_orderly event s) (orderly loader events (worker_step loader event s)) o in
    run-IsReached loader events (worker_step loader event s)
      (rw e (step-IsReached c rs loader event phase (rw (sym e) first))) others

IsReached-IsHeld : (s : WorkerManager) → IsReached s → IsHeld s
IsReached-IsHeld s (phase, c, rs, e) = rw e (go phase)
  where
    go : (phase : Situation) → IsHeld (state_of c rs phase)
    go idle = record { held = refl; single = ground arith }
    go (opening n) = record { held = refl; single = ground arith }
    go (connected n) = record { held = refl; single = ground arith }
    go ending = record { held = refl; single = ground arith }
    go (ending_connected n) = record { held = refl; single = ground arith }

-- After any events with orderly teardowns, from a new manager: at most one connection is open or
-- being opened, however many workers ask for it, and an open one is the one that the next teardown
-- closes.
pub run_workers-IsHeld :
    (loader : LoaderOptions) (events : List WorkerEvent)
    → orderly loader events new_manager ≡ true
    → IsHeld (run_workers loader events new_manager)
run_workers-IsHeld loader events o =
    IsReached-IsHeld (run_workers loader events new_manager)
      (run-IsReached loader events new_manager (idle, 0, [], refl) o)
