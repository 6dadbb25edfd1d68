-- ===== src/Workers.antt =====
-- src/infra/worker/worker-manager.ts: the scheduler that the workers share, as a machine whose events
-- are the calls of the manager and what becomes of its promises. The scheduler and its connection are
-- a package's; a connection has the number of the creation that opened it. The guards of
-- `registerWorker` are those of Loader.
pub mod Connection
pub mod Registrations
mod Tests
use nodejs_template.Prelude.{
  ℕ, zero, suc, ◌+◌, ◌==◌, Bool, true, false, not, ◌&&◌, Option, none, some, List, [], ◌∷◌, ◌++◌,
  map, if◌then◌else◌,
}
use nodejs_template.Loader.{LoaderOptions, WorkerOptions, admits, or_else}
use nodejs_template.Rabbit.Delivery.{without}

-- A promise of `workerRegistrations`: behind `getAgenda`, with whether `every` is called then, behind
-- `every`, or settled.
pub data Registration : Type 0 where
  waiting : ℕ → Bool → Registration
  scheduling : Registration
  registered : Registration
  refused : Registration

pub record WorkerManager : Type 0 where
  pub agenda : Option ℕ
  pub mongo_client : Option ℕ
  pub worker_registrations : List Registration
  -- the creations so far, and those under way
  pub created : ℕ
  pub creating : List ℕ
  -- connections that are open
  pub connections : List ℕ
  -- what is being closed, before the fields are reset
  pub closing : List (Option ℕ)

abbrev pub new_manager : WorkerManager
new_manager = record {
  agenda = none;
  mongo_client = none;
  worker_registrations = [];
  created = 0;
  creating = [];
  connections = [];
  closing = [];
}

-- The state, and the creation that is waited for.
unfoldable pub get_agenda : WorkerManager → WorkerManager × ℕ
get_agenda s = elim s.agenda [
  | some n ↦ (s, n)
  | none ↦ (
    record s {
      agenda = some s.created;
      created = s.created + 1;
      creating = s.created ∷ s.creating;
    },
    s.created,
  )
]

unfoldable pub add_registration : Registration → WorkerManager → WorkerManager
add_registration r s = record s { worker_registrations = s.worker_registrations ++ r ∷ [] }

-- `if (repeatInterval)`
unfoldable pub has_interval : WorkerOptions → Bool
has_interval options = elim options.repeat_interval [
  | none ↦ false
  | some [] ↦ false
  | some (c ∷ interval) ↦ true
]

-- `makeWorker`: `registerWorker` up to its first `await`.
unfoldable pub make_worker : LoaderOptions → WorkerOptions → WorkerManager → WorkerManager
unfolding get_agenda admits or_else has_interval add_registration
make_worker loader options s =
    let (s', n) = get_agenda s in
    if admits loader (or_else options.enabled true) options.name
    then add_registration (waiting n (has_interval options)) s'
    else add_registration registered s

unfoldable pub is_member : ℕ → List ℕ → Bool
is_member n [] = false
is_member n (m ∷ rest) = let others = is_member n rest in if m == n then true else others

-- The end of `createAgenda`.
unfoldable pub agenda_created : ℕ → WorkerManager → WorkerManager
unfolding is_member without
agenda_created n s =
    if is_member n s.creating
    then record s {
      mongo_client = some n;
      creating = without n s.creating;
      connections = n ∷ s.connections;
    }
    else s

unfoldable pub refuse_waiting : ℕ → Registration → Registration
refuse_waiting n (waiting m interval) = if m == n then refused else waiting m interval
refuse_waiting n scheduling = scheduling
refuse_waiting n registered = registered
refuse_waiting n refused = refused

-- The `catch` of `getAgenda`; `createMongoAgenda` has closed what it opened.
unfoldable pub agenda_failed : ℕ → WorkerManager → WorkerManager
unfolding is_member without refuse_waiting
agenda_failed n s =
    if is_member n s.creating
    then record s {
      agenda = none;
      creating = without n s.creating;
      worker_registrations = map (refuse_waiting n) s.worker_registrations;
    }
    else s

unfoldable pub update_at : ℕ → (Registration → Registration) → List Registration → List Registration
update_at i f [] = []
update_at zero f (r ∷ rest) = f r ∷ rest
update_at (suc i) f (r ∷ rest) = r ∷ update_at i f rest

-- A registration goes on behind `getAgenda`.
unfoldable pub agenda_got : List ℕ → Registration → Registration
unfolding is_member
agenda_got creating (waiting n interval) =
    if is_member n creating then waiting n interval else if interval then scheduling else registered
agenda_got creating scheduling = scheduling
agenda_got creating registered = registered
agenda_got creating refused = refused

-- The end of `every`.
unfoldable pub every_ended : Bool → Registration → Registration
every_ended succeeded (waiting n interval) = waiting n interval
every_ended succeeded scheduling = if succeeded then registered else refused
every_ended succeeded registered = registered
every_ended succeeded refused = refused

-- `await this.mongoClient?.close()`, in the `catch` of `start` and the `finally` of `stop`.
unfoldable pub close_begun : WorkerManager → WorkerManager
close_begun s = record s { closing = s.mongo_client ∷ s.closing }

unfoldable pub same_client : Option ℕ → Option ℕ → Bool
same_client none none = true
same_client (some n) (some m) = n == m
same_client _ _ = false

unfoldable pub is_closing : Option ℕ → List (Option ℕ) → Bool
unfolding same_client
is_closing client [] = false
is_closing client (other ∷ rest) =
    let others = is_closing client rest in if same_client other client then true else others

unfoldable pub without_closing : Option ℕ → List (Option ℕ) → List (Option ℕ)
unfolding same_client
without_closing client [] = []
without_closing client (other ∷ rest) =
    let others = without_closing client rest in
    if same_client other client then rest else other ∷ others

unfoldable pub without_client : Option ℕ → List ℕ → List ℕ
unfolding without
without_client none connections = connections
without_client (some n) connections = without n connections

unfoldable pub closed : Option ℕ → WorkerManager → WorkerManager
unfolding is_closing without_closing without_client
closed client s =
    if is_closing client s.closing
    then record s {
      agenda = none;
      mongo_client = none;
      connections = without_client client s.connections;
      closing = without_closing client s.closing;
    }
    else s

-- `close` rejects, and the fields stay.
unfoldable pub not_closed : ℕ → WorkerManager → WorkerManager
unfolding without_closing
not_closed n s = record s { closing = without_closing (some n) s.closing }

pub data WorkerEvent : Type 0 where
  worker_made : WorkerOptions → WorkerEvent
  -- by `start`, behind the registrations, or by `stop`
  agenda_asked : WorkerEvent
  creation_ended : ℕ → Bool → WorkerEvent
  registration_resumed : ℕ → WorkerEvent
  every_settled : ℕ → Bool → WorkerEvent
  -- `start` fails, or the scheduler has stopped
  teardown_begun : WorkerEvent
  teardown_ended : Option ℕ → WorkerEvent
  teardown_failed : ℕ → WorkerEvent

unfoldable pub worker_step : LoaderOptions → WorkerEvent → WorkerManager → WorkerManager
unfolding make_worker get_agenda agenda_created agenda_failed update_at agenda_got every_ended
    close_begun closed not_closed
worker_step loader (worker_made options) s = make_worker loader options s
worker_step loader agenda_asked s = (get_agenda s).0
worker_step loader (creation_ended n true) s = agenda_created n s
worker_step loader (creation_ended n false) s = agenda_failed n s
worker_step loader (registration_resumed i) s = record s {
  worker_registrations = update_at i (agenda_got s.creating) s.worker_registrations;
}
worker_step loader (every_settled i succeeded) s = record s {
  worker_registrations = update_at i (every_ended succeeded) s.worker_registrations;
}
worker_step loader teardown_begun s = close_begun s
worker_step loader (teardown_ended client) s = closed client s
worker_step loader (teardown_failed n) s = not_closed n s

unfoldable pub run_workers : LoaderOptions → List WorkerEvent → WorkerManager → WorkerManager
unfolding worker_step
run_workers loader [] s = s
run_workers loader (event ∷ events) s = run_workers loader events (worker_step loader event s)

-- `Promise.all(this.workerRegistrations)`: rejected, resolved, or neither yet.
unfoldable pub any_refused : List Registration → Bool
any_refused [] = false
any_refused (refused ∷ rest) = true
any_refused (_ ∷ rest) = any_refused rest

unfoldable pub all_registered : List Registration → Bool
all_registered [] = true
all_registered (registered ∷ rest) = all_registered rest
all_registered (_ ∷ rest) = false

unfoldable pub registrations_settled : WorkerManager → Option Bool
unfolding any_refused all_registered
registrations_settled s =
    if any_refused s.worker_registrations
    then some false
    else if all_registered s.worker_registrations
    then some true
    else none
