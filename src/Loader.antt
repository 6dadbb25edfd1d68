-- ===== src/Loader.antt =====
-- src/infra/mq/utils/rabbitmq-server/rabbitmq-server.ts and src/infra/worker/worker-manager.ts:
-- which consumers and workers a process starts. The list of names comes from the environment
-- (`CONSUMER.LIST`, `WORKER.LIST`), and so do the options of single queues.
pub mod Listed
pub mod Directory
mod Tests
use nodejs_template.Prelude.{
  ℕ, Bool, true, false, not, ◌&&◌, Option, none, some, List, [], ◌∷◌, ◌++◌, ◌==◌, if◌then◌else◌,
}
use nodejs_template.Text.{Text, text, text_eq, has}

pub record LoaderOptions : Type 0 where
  pub allow_all : Bool
  pub deny_all : Bool
  pub deny : List Text
  pub allow : List Text

abbrev pub no_options : LoaderOptions
no_options = record { allow_all = false; deny_all = false; deny = []; allow = [] }

abbrev pub all : Text
all = text "*"

abbrev pub none_at_all : Text
none_at_all = text "!*"

-- The branch on `item[0] === '!'`: a name that is denied, or one that is allowed.
unfoldable pub add_name : LoaderOptions → Text → LoaderOptions
add_name s [] = record s { allow = s.allow ++ [] ∷ [] }
add_name s (c ∷ name) =
    if c == b'!'
    then record s { deny = s.deny ++ name ∷ [] }
    else record s { allow = s.allow ++ (c ∷ name) ∷ [] }

unfoldable pub add_item : LoaderOptions → Text → LoaderOptions
unfolding add_name
add_item s item =
    if text_eq item all
    then record s { allow_all = true; deny_all = false }
    else if text_eq item none_at_all
    then record s { allow_all = false; deny_all = true }
    else add_name s item

unfoldable pub extract_options : LoaderOptions → List Text → LoaderOptions
unfolding add_item
extract_options s [] = s
extract_options s (item ∷ rest) = extract_options (add_item s item) rest

-- The three guards that `makeConsumer` and `registerWorker` share, in their order.
unfoldable pub admits : LoaderOptions → Bool → Text → Bool
admits s enabled name =
    if has s.deny name
    then false
    else if s.deny_all && not (has s.allow name)
    then false
    else if not enabled && not s.allow_all && not (has s.allow name)
    then false
    else true

-- `first ?? second`
unfoldable pub or_else {ℓ} : {A : Type ℓ} → Option A → A → A
or_else none second = second
or_else (some x) second = x

unfoldable pub or_option {ℓ} : {A : Type ℓ} → Option A → Option A → Option A
or_option none second = second
or_option (some x) second = some x

-- What the environment says of one queue, and what the caller of `makeConsumer` gives.
pub record QueueOptions : Type 0 where
  pub enabled : Option Bool
  pub prefetch : Option ℕ

pub data ConsumerOptions : Type 0 where
  by_name : Text → ConsumerOptions
  by_options : Text → QueueOptions → ConsumerOptions

-- `consume` is called with the queue and the prefetch, or not at all.
unfoldable pub make_consumer :
    LoaderOptions → Option ℕ → (Text → QueueOptions) → ConsumerOptions → Option (Text × Option ℕ)
unfolding admits or_else or_option
make_consumer s default_prefetch env (by_name queue) =
    if admits s true queue then some (queue, default_prefetch) else none
make_consumer s default_prefetch env (by_options queue given) =
    let enabled = or_else (or_option (env queue).enabled given.enabled) true in
    let prefetch = or_option (env queue).prefetch (or_option given.prefetch default_prefetch) in
    if admits s enabled queue then some (queue, prefetch) else none

-- `WorkerOptions`, whose repeat interval is a text that is not empty.
pub record WorkerOptions : Type 0 where
  pub name : Text
  pub enabled : Option Bool
  pub repeat_interval : Option Text

-- The calls of the scheduler that `registerWorker` makes.
pub data AgendaCall : Type 0 where
  define : Text → AgendaCall
  every : Text → Text → AgendaCall

unfoldable pub register_worker : LoaderOptions → WorkerOptions → List AgendaCall
unfolding admits or_else
register_worker s options =
    if admits s (or_else options.enabled true) options.name
    then define options.name
      ∷ elim options.repeat_interval [ none ↦ [] | some t ↦ every t options.name ∷ [] ]
    else []
