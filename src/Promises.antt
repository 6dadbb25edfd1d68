-- ===== src/Promises.antt =====
-- src/util/promise/split-promises.ts: callbacks run so many at a time. The end of a callback is an
-- event, and the environment chooses the order; a callback is its index, and `result` says what
-- each one ends with, its value or the error that it throws.
pub mod Order
pub mod Lists
pub mod Step
pub mod Start
pub mod Resolved
mod Tests
use mathlib.Core.List.{reverse}
use nodejs_template.Flow.{pop}
use nodejs_template.Prelude.{
  ℕ, zero, suc, ◌+◌, ◌-◌, Bool, true, false, ◌||◌, Option, none, some, List, [], ◌∷◌, ◌++◌, map,
  length, take, drop, leb, ◌==◌, if◌then◌else◌,
}

-- The indices from `i` on, so many of them.
unfoldable pub count_up : ℕ → ℕ → List ℕ
count_up i zero = []
count_up i (suc n) = i ∷ count_up (i + 1) n

unfoldable pub contains : ℕ → List ℕ → Bool
contains i [] = false
contains i (j ∷ js) = j == i || contains i js

unfoldable pub remove : ℕ → List ℕ → List ℕ
remove i [] = []
remove i (j ∷ js) = let rest = remove i js in if j == i then js else j ∷ rest

module _ {T : Type 0} where
  -- `outputs.sort` by the index: a stable sort.
  unfoldable pub insert : T × ℕ → List (T × ℕ) → List (T × ℕ)
  insert (r, i) [] = (r, i) ∷ []
  insert (r, i) ((s, j) ∷ rest) =
      let rest' = insert (r, i) rest in if leb i j then (r, i) ∷ (s, j) ∷ rest else (s, j) ∷ rest'

  unfoldable pub sort : List (T × ℕ) → List (T × ℕ)
  unfolding insert
  sort [] = []
  sort (x ∷ xs) = insert x (sort xs)

pub record Split (T : Type 0) : Type 0 where
  -- the callbacks that have not started, the next one at the end
  pub call_stack : List ℕ
  pub running : List ℕ
  pub outputs : List (T × ℕ)
  -- what `resolveFunction` was first called with
  pub resolved : Option (List T)

module _ {T : Type 0} (callbacks : ℕ) (result : ℕ → T) where
  -- The listener of `RESOLVE`.
  unfoldable pub resolve : Split T → Split T
  unfolding sort
  resolve s =
      if length s.outputs == callbacks
      then record s {
        resolved = elim s.resolved [
          | none ↦ some (map (λ output. output.0) (sort s.outputs))
          | some results ↦ some results
        ];
      }
      else s

  -- The listener of `RUN_NEXT_PROMISE`.
  unfoldable pub run_next : Split T → Split T
  unfolding resolve pop
  run_next s = elim (pop s.call_stack) [
    | none ↦ resolve s
    | some (rest, i) ↦ record s { call_stack = rest; running = s.running ++ i ∷ [] }
  ]

  -- A running callback ends, with a value or an error: the wrapper goes on.
  unfoldable pub end_callback : ℕ → Split T → Split T
  unfolding run_next contains remove
  end_callback i s =
      if contains i s.running
      then run_next
          (record s { running = remove i s.running; outputs = s.outputs ++ (result i, i) ∷ [] })
      else s

  -- The call of `splitPromises` up to its first `await`; `-` stops at zero, as `startIndex` does.
  unfoldable pub start : ℕ → Split T
  unfolding count_up
  start max_running =
      let call_stack = reverse (count_up 0 callbacks) in
      let start_index = length call_stack - max_running in
      record {
        call_stack = take start_index call_stack ++ drop (start_index + max_running) call_stack;
        running = take max_running (drop start_index call_stack);
        outputs = [];
        resolved = if callbacks == 0 then some [] else none;
      }

  unfoldable pub run : List ℕ → Split T → Split T
  unfolding end_callback
  run [] s = s
  run (i ∷ is) s = run is (end_callback i s)
