-- ===== src/Promises/Step.antt =====
-- What holds between two ends of callbacks.
use nodejs_template.Promises.Lists.{contains-nil, count-count_up, nil_of_length, pop-count_up}
use mathlib.Core.List.{reverse, map-append}
use native.Mathlib.Decide.{dec_lt, ℕ_discrete}
use nodejs_template.Flow.{pop}
use nodejs_template.Prelude.{
  ◌≡◌, ◌≢◌, ◌≤◌, ◌<◌, ◌+◌, ◌-◌, ◌++◌, ◌∙◌, ℕ, ap, refl, arith, List, [], ◌∷◌, none, some, length,
  map, suc, length-append, true, Bool-cases, inl, inr, All-append, Option,
}
use nodejs_template.Promises.{
  Split, count_up, contains, remove, sort, resolve, run_next, end_callback, run,
}
use nodejs_template.Promises.Order.{
  count, count-append, indices, Holds, count-remove, length-remove, sort-results,
}

module _ {T : Type 0} (callbacks : ℕ) (result : ℕ → T) (max_running : ℕ) where
  -- Between two events, with a limit of `max_running` callbacks.
  pub record IsSound (s : Split T) : Type 0 where
    -- how many callbacks have started
    pub started : ℕ
    pub fits : started ≤ callbacks
    pub stack : s.call_stack ≡ reverse (count_up started (callbacks - started))
    -- each of these runs or has ended, once
    pub counts :
        (a : ℕ) → count a s.running + count a (indices s.outputs) ≡ count a (count_up 0 started)
    pub total : length s.running + length s.outputs ≡ started
    pub bounded : length s.running ≤ max_running
    -- callbacks wait only while as many as possible run
    pub busy : started < callbacks → length s.running ≡ max_running
    pub values : Holds result s.outputs
    -- the promise waits while callbacks run, and no longer
    pub waits : s.running ≢ [] → s.resolved ≡ none
    pub done : s.running ≡ [] → s.resolved ≡ some (map result (count_up 0 callbacks))

  -- The wrapper of `i` up to `event.emit`.
  abbrev ended : ℕ → Split T → Split T
  ended i s = record s { running = remove i s.running; outputs = s.outputs ++ (result i, i) ∷ [] }

  module _ (i : ℕ) (s : Split T) (runs : contains i s.running ≡ true) (h : IsSound s) where
    ended_counts :
        (a : ℕ)
        → count a (remove i s.running) + count a (indices (s.outputs ++ (result i, i) ∷ []))
          ≡ count a (count_up 0 h.started)
    ended_counts a =
        let e = map-append (λ (output : T × ℕ). output.1) s.outputs ((result i, i) ∷ []) in
        rw e (
          unfold count in
          omega (
            arith,
            h.counts a,
            count-remove a i s.running runs,
            count-append a (indices s.outputs) (i ∷ []),
          ))

    -- A callback waits, and starts.
    advanced : ℕ → Split T
    advanced k = record (ended i s) {
      call_stack = reverse (count_up (h.started + 1) k);
      running = remove i s.running ++ h.started ∷ [];
    }

    run_next-advanced :
        (k : ℕ) → callbacks - h.started ≡ suc k → run_next callbacks result (ended i s) ≡ advanced k
    unfolding run_next advanced
    run_next-advanced k e =
        ground
          (arith, h.stack ∙ ap (λ n. reverse (count_up h.started n)) e, pop-count_up h.started k)

    advanced-IsSound : (k : ℕ) → callbacks - h.started ≡ suc k → IsSound (advanced k)
    unfolding advanced
    advanced-IsSound k e = record {
      started = h.started + 1;
      fits = omega arith;
      stack = ap (λ n. reverse (count_up (h.started + 1) n)) (omega arith);
      counts = λ a. omega (
        arith,
        ended_counts a,
        count-append a (remove i s.running) (h.started ∷ []),
        count-count_up a h.started,
      );
      total = omega (
        arith,
        h.total,
        length-remove i s.running runs,
        length-append (remove i s.running) (h.started ∷ []),
        length-append s.outputs ((result i, i) ∷ []),
      );
      bounded = omega (
        arith,
        h.bounded,
        length-remove i s.running runs,
        length-append (remove i s.running) (h.started ∷ []),
      );
      busy = λ more. omega (
        arith,
        h.busy (omega arith),
        length-remove i s.running runs,
        length-append (remove i s.running) (h.started ∷ []),
      );
      values =
          All-append (λ output. output.0 ≡ result output.1) s.outputs ((result i, i) ∷ []) h.values
            (refl, tt);
      waits = λ more. h.waits (contains-nil i s.running runs);
      done = λ empty.
          absurd
            (omega (arith, ap length empty, length-append (remove i s.running) (h.started ∷ [])));
    }

    -- No callback waits.
    ended_total : length (remove i s.running) + length (ended i s).outputs ≡ h.started
    ended_total = omega (
      arith,
      h.total,
      length-remove i s.running runs,
      length-append s.outputs ((result i, i) ∷ []),
    )

    run_next-resolve :
        callbacks ≡ h.started
        → run_next callbacks result (ended i s) ≡ resolve callbacks result (ended i s)
    unfolding run_next pop count_up
    run_next-resolve e =
        let none_left : s.call_stack ≡ [] =
          h.stack
          ∙ ap (λ n. reverse (count_up h.started n))
              (let z : callbacks - h.started ≡ 0 = omega arith in z) in
        ground (arith, none_left)

    quiet-IsSound :
        (r : Option (List T))
        → callbacks ≡ h.started
        → (remove i s.running ≢ [] → r ≡ none)
        → (remove i s.running ≡ [] → r ≡ some (map result (count_up 0 callbacks)))
        → IsSound (record (ended i s) { resolved = r })
    quiet-IsSound r e waits done = record {
      started = h.started;
      fits = h.fits;
      stack = h.stack;
      counts = ended_counts;
      total = ended_total;
      bounded = omega (arith, h.bounded, length-remove i s.running runs);
      busy = λ more. absurd (omega arith);
      values =
          All-append (λ output. output.0 ≡ result output.1) s.outputs ((result i, i) ∷ []) h.values
            (refl, tt);
      waits = waits;
      done = done;
    }

    -- The last to end resolves the promise with the sorted results.
    resolve-last :
        length (ended i s).outputs ≡ callbacks
        → resolve callbacks result (ended i s) ≡ record (ended i s) {
          resolved = some (map (λ output. output.0) (sort (ended i s).outputs));
        }
    unfolding resolve
    resolve-last e = ground (arith, e, h.waits (contains-nil i s.running runs))

    resolve-early :
        length (ended i s).outputs ≢ callbacks → resolve callbacks result (ended i s) ≡ ended i s
    unfolding resolve
    resolve-early e = ground (arith, e)

    all_results :
        callbacks ≡ h.started
        → remove i s.running ≡ []
        → map (λ output. output.0) (sort (ended i s).outputs) ≡ map result (count_up 0 callbacks)
    all_results e empty =
        sort-results result callbacks (ended i s).outputs
          (All-append (λ output. output.0 ≡ result output.1) s.outputs ((result i, i) ∷ []) h.values
            (refl, tt))
          (λ a.
            let nothing_runs : count a (remove i s.running) ≡ 0 =
              ap (count a) empty ∙ (unfold count in refl) in
            omega (arith, ended_counts a, nothing_runs, ap (λ n. count a (count_up 0 n)) e))

    resolve-IsSound : callbacks ≡ h.started → IsSound (resolve callbacks result (ended i s))
    resolve-IsSound e = elim (ℕ_discrete (length (ended i s).outputs) callbacks) [
      | yes last ↦
          let empty : remove i s.running ≡ [] =
            nil_of_length (remove i s.running) (omega (arith, ended_total)) in
          rw (resolve-last last) (
            quiet-IsSound _ e (λ full. absurd (full empty))
              (λ _. ap (λ r. some r) (all_results e empty)))
      | no more ↦ rw (resolve-early more) (
          quiet-IsSound s.resolved e (λ _. h.waits (contains-nil i s.running runs))
            (λ empty. absurd (more (omega (arith, ended_total, ap length empty)))))
    ]

    end-IsSound : IsSound (run_next callbacks result (ended i s))
    end-IsSound = elim (dec_lt h.started callbacks) [
      | yes more ↦
          let e : callbacks - h.started ≡ suc (callbacks - h.started - 1) = omega arith in
          rw (run_next-advanced (callbacks - h.started - 1) e)
            (advanced-IsSound (callbacks - h.started - 1) e)
      | no over ↦
          let e : callbacks ≡ h.started = omega (arith, h.fits) in
          rw (run_next-resolve e) (resolve-IsSound e)
    ]

  end_callback-IsSound :
      (i : ℕ) (s : Split T) → IsSound s → IsSound (end_callback callbacks result i s)
  unfolding end_callback
  end_callback-IsSound i s h = elim (Bool-cases (contains i s.running)) [
    | inl runs ↦ rw runs (end-IsSound i s runs h)
    | inr no_run ↦ rw no_run h
  ]

  pub run-IsSound : (es : List ℕ) (s : Split T) → IsSound s → IsSound (run callbacks result es s)
  unfolding run
  run-IsSound [] s h = h
  run-IsSound (e ∷ es) s h =
      run-IsSound es (end_callback callbacks result e s) (end_callback-IsSound e s h)
