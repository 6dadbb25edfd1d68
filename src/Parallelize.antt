-- ===== src/Parallelize.antt =====
-- src/main/adapters/parallelize/parallelize-adapter.ts: middlewares that run at once. What the calls
-- of the handlers return is a promise, unless a call throws; the promises settle in some order, which
-- is a list. An argument stands for its kind; `next` is the first that is a function.
pub mod Modes
mod Tests
use nodejs_template.Prelude.{ℕ, zero, suc, Option, none, some, List, [], ◌∷◌, length}

pub data ParallelizeMode : Type 0 where
  all_settled : ParallelizeMode
  all : ParallelizeMode
  race : ParallelizeMode
  any : ParallelizeMode

pub data Argument (V : Type 0) : Type 0 where
  function_argument : V → Argument V
  array_argument : V → Argument V
  value_argument : V → Argument V
  missing : Argument V
  noop : Argument V

-- What a call gives: a promise, or an error that it throws at once. A value that is no promise
-- counts as a promise that is fulfilled.
pub data Started (E : Type 0) : Type 0 where
  promised : Started E
  threw : E → Started E

pub data MiddlewareHandler (V E : Type 0) : Type 0 where
  function_handler : (List (Argument V) → Started E) → MiddlewareHandler V E
  object_handler : (Argument V → Argument V → Argument V → Started E) → MiddlewareHandler V E

-- The first argument, which is a handler or the options.
pub data FirstParameter (V E : Type 0) : Type 0 where
  options : Option ParallelizeMode → FirstParameter V E
  first_handler : MiddlewareHandler V E → FirstParameter V E

pub data Settlement (E : Type 0) : Type 0 where
  fulfilled : Settlement E
  rejected : E → Settlement E

-- A promise of the language: pending, resolved, or rejected; `Promise.any` rejects with all the errors.
pub data Resolution (E : Type 0) : Type 0 where
  pending : Resolution E
  advanced : Resolution E
  failed : E → Resolution E
  all_failed : Resolution E

-- What becomes of a call: the error for a missing `next`, an error that a handler threw at once, or
-- what the promise becomes, where `next` is called after it is resolved.
pub data Ended (E : Type 0) : Type 0 where
  not_found_next : Ended E
  thrown_at_once : E → Ended E
  awaited : Resolution E → Ended E

module _ {E : Type 0} where
  -- `Promise.allSettled`, with so many promises left; and likewise the others.
  unfoldable pub wait_settled : ℕ → List (Settlement E) → Resolution E
  wait_settled zero settlements = advanced
  wait_settled (suc left) [] = pending
  wait_settled (suc left) (settlement ∷ settlements) = wait_settled left settlements

  unfoldable pub wait_all : ℕ → List (Settlement E) → Resolution E
  wait_all zero settlements = advanced
  wait_all (suc left) [] = pending
  wait_all (suc left) (rejected error ∷ settlements) = failed error
  wait_all (suc left) (fulfilled ∷ settlements) = wait_all left settlements

  -- Without promises it stays pending.
  unfoldable pub wait_race : ℕ → List (Settlement E) → Resolution E
  wait_race zero settlements = pending
  wait_race (suc left) [] = pending
  wait_race (suc left) (rejected error ∷ settlements) = failed error
  wait_race (suc left) (fulfilled ∷ settlements) = advanced

  unfoldable pub wait_any : ℕ → List (Settlement E) → Resolution E
  wait_any zero settlements = all_failed
  wait_any (suc left) [] = pending
  wait_any (suc left) (fulfilled ∷ settlements) = advanced
  wait_any (suc left) (rejected error ∷ settlements) = wait_any left settlements

  unfoldable pub resolve_by_mode : ParallelizeMode → ℕ → List (Settlement E) → Resolution E
  unfolding wait_settled wait_all wait_race wait_any
  resolve_by_mode all = wait_all
  resolve_by_mode race = wait_race
  resolve_by_mode any = wait_any
  resolve_by_mode all_settled = wait_settled

module _ {V : Type 0} where
  -- `args[indexOfNext] = noop`, if there is a function.
  unfoldable pub replace_next : List (Argument V) → Option (List (Argument V))
  replace_next [] = none
  replace_next (function_argument f ∷ args) = some (noop ∷ args)
  replace_next (arg ∷ args) = elim (replace_next args) [
    | none ↦ none
    | some replaced ↦ some (arg ∷ replaced)
  ]

  -- `args[indexOfStatehook]`
  unfoldable pub state_hook : List (Argument V) → Argument V
  state_hook [] = missing
  state_hook (array_argument a ∷ args) = array_argument a
  state_hook (arg ∷ args) = state_hook args

  unfoldable pub payload_argument : List (Argument V) → Argument V
  payload_argument [] = missing
  payload_argument (arg ∷ args) = arg

module _ {V E : Type 0} where
  unfoldable pub call_handler : List (Argument V) → MiddlewareHandler V E → Started E
  unfolding state_hook payload_argument
  call_handler args (function_handler f) = f args
  call_handler args (object_handler handle) = handle (payload_argument args) (state_hook args) noop

  -- `toResolveMiddlewares.map(…)`: the first error that a call throws ends it.
  unfoldable pub call_handlers : List (Argument V) → List (MiddlewareHandler V E) → Option E
  unfolding call_handler
  call_handlers args [] = none
  call_handlers args (handler ∷ handlers) =
      let rest = call_handlers args handlers in
      elim (call_handler args handler) [ promised ↦ rest | threw error ↦ some error ]

  unfoldable pub mode_of : FirstParameter V E → ParallelizeMode
  mode_of (options none) = all_settled
  mode_of (options (some mode)) = mode
  mode_of (first_handler handler) = all_settled

  unfoldable pub to_resolve :
      FirstParameter V E → List (MiddlewareHandler V E) → List (MiddlewareHandler V E)
  to_resolve (options mode) rest = rest
  to_resolve (first_handler handler) rest = handler ∷ rest

  -- The settlements are those of the promises, in the order in which they settle.
  unfoldable pub parallelize :
      FirstParameter V E
      → List (MiddlewareHandler V E)
      → List (Argument V)
      → List (Settlement E)
      → Ended E
  unfolding replace_next call_handlers mode_of to_resolve resolve_by_mode
  parallelize arg1 rest args settlements = elim (replace_next args) [
    | none ↦ not_found_next
    | some replaced ↦ elim (call_handlers replaced (to_resolve arg1 rest)) [
      | some error ↦ thrown_at_once error
      | none ↦ awaited (resolve_by_mode (mode_of arg1) (length (to_resolve arg1 rest)) settlements)
    ]
  ]
