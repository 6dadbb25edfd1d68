-- ===== src/Promises/Resolved.antt =====
-- How many callbacks run at once, and what the promise resolves with.
use nodejs_template.Promises.Step.{run-IsSound}
use nodejs_template.Promises.Start.{start-IsSound, start_resolved}
use nodejs_template.Prelude.{
  ◌≡◌, ◌≤◌, ◌<◌, ◌+◌, ◌∙◌, ℕ, refl, arith, List, [], ◌∷◌, none, some, length, map,
}
use nodejs_template.Promises.{Split, count_up, run, start, end_callback}
use nodejs_template.Promises.Order.{count, indices}

-- With a positive limit, in whatever order the callbacks end: while one of them runs the promise
-- waits, and when none runs any more it is resolved with the result of every callback, in the
-- order of the callbacks.
pub run-resolved :
    {T : Type 0} (callbacks : ℕ) (result : ℕ → T) (max_running : ℕ) (es : List ℕ)
    → 0 < max_running
    → (run callbacks result es (start callbacks result max_running)).resolved
      ≡ elim (run callbacks result es (start callbacks result max_running)).running [
        | [] ↦ some (map result (count_up 0 callbacks))
        | _ ∷ _ ↦ none
      ]
run-resolved callbacks result max_running es h =
    let s = run callbacks result es (start callbacks result max_running) in
    let sound =
      run-IsSound callbacks result max_running es (start callbacks result max_running)
        (start-IsSound callbacks result max_running h) in
    ground (arith, sound.waits, sound.done)

-- What has started, and how much of it runs.
pub record IsBounded {T : Type 0} (callbacks max_running : ℕ) (s : Split T) : Type 0 where
  pub started : ℕ
  pub fits : started ≤ callbacks
  pub once :
      (a : ℕ) → count a s.running + count a (indices s.outputs) ≡ count a (count_up 0 started)
  pub bounded : length s.running ≤ max_running
  pub busy : started < callbacks → length s.running ≡ max_running

-- With a positive limit, in whatever order the callbacks end: the ones that have started are the
-- first in the list, each of them runs or has ended exactly once, never more than the limit run,
-- and exactly as many as the limit while others wait.
pub run-IsBounded :
    {T : Type 0} (callbacks : ℕ) (result : ℕ → T) (max_running : ℕ) (es : List ℕ)
    → 0 < max_running
    → IsBounded callbacks max_running (run callbacks result es (start callbacks result max_running))
run-IsBounded callbacks result max_running es h =
    let sound =
      run-IsSound callbacks result max_running es (start callbacks result max_running)
        (start-IsSound callbacks result max_running h) in
    record {
      started = sound.started;
      fits = sound.fits;
      once = sound.counts;
      bounded = sound.bounded;
      busy = sound.busy;
    }

idle :
    {T : Type 0} (callbacks : ℕ) (result : ℕ → T) (e : ℕ)
    → end_callback callbacks result e (start callbacks result 0) ≡ start callbacks result 0
unfolding end_callback start
idle callbacks result e = refl

-- With a limit of zero and a callback to run, the promise is never resolved.
run-zero :
    {T : Type 0} (callbacks : ℕ) (result : ℕ → T) (es : List ℕ)
    → 0 < callbacks
    → (run callbacks result es (start callbacks result 0)).resolved ≡ none
unfolding run start
run-zero callbacks result [] h = start_resolved callbacks result 0 ∙ ground arith
run-zero callbacks result (e ∷ es) h = rw (idle callbacks result e) (run-zero callbacks result es h)
