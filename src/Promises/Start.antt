-- ===== src/Promises/Start.antt =====
-- The first callbacks.
use nodejs_template.Promises.Lists.{
  length-reverse, count_up-append, drop-append_length, drop_all, count-reverse, take-append_length,
  take_all, none_up, length-nil,
}
use nodejs_template.Promises.Step.{IsSound}
use mathlib.Core.List.{reverse, reverse-append, append-nil}
use native.Mathlib.Decide.{ℕ_discrete}
use nodejs_template.Prelude.{
  take, drop, ◌≡◌, ◌<◌, ◌+◌, ◌-◌, ◌++◌, ◌∙◌, ℕ, ap, sym, refl, arith, List, [], none, some, length,
  ◌==◌, if◌then◌else◌,
}
use nodejs_template.Promises.{count_up, start}
use nodejs_template.Promises.Order.{count, length-count_up}

module _ {T : Type 0} (callbacks : ℕ) (result : ℕ → T) (max_running : ℕ) where
  abbrev first_stack : List ℕ
  first_stack = reverse (count_up 0 callbacks)

  abbrev later : ℕ
  later = callbacks - max_running

  abbrev firsts : ℕ
  firsts = callbacks - later

  first_stack-split : first_stack ≡ reverse (count_up firsts later) ++ reverse (count_up 0 firsts)
  first_stack-split =
      ap (λ n. reverse (count_up 0 n)) (omega arith)
      ∙ ap reverse (count_up-append 0 firsts later)
      ∙ reverse-append (count_up 0 firsts) (count_up (0 + firsts) later)
      ∙ ap (λ n. reverse (count_up n later) ++ reverse (count_up 0 firsts)) (omega arith)

  length-first_stack : length first_stack ≡ callbacks
  length-first_stack = length-reverse (count_up 0 callbacks) ∙ length-count_up 0 callbacks

  length-later : later ≡ length (reverse (count_up firsts later))
  length-later = sym (length-reverse (count_up firsts later) ∙ length-count_up firsts later)

  length-firsts : length (reverse (count_up 0 firsts)) ≡ firsts
  length-firsts = length-reverse (count_up 0 firsts) ∙ length-count_up 0 firsts

  pub start_running : (start callbacks result max_running).running ≡ reverse (count_up 0 firsts)
  unfolding start
  start_running =
      ap (λ k. take max_running (drop (k - max_running) first_stack)) length-first_stack
      ∙ ap (λ xs. take max_running (drop later xs)) first_stack-split
      ∙ ap (take max_running) (
          drop-append_length later (reverse (count_up firsts later)) (reverse (count_up 0 firsts))
            length-later)
      ∙ take_all max_running (reverse (count_up 0 firsts)) (omega (arith, length-firsts))

  start_stack : (start callbacks result max_running).call_stack ≡ reverse (count_up firsts later)
  unfolding start
  start_stack =
      ap
        (λ k.
          take (k - max_running) first_stack ++ drop (k - max_running + max_running) first_stack)
        length-first_stack
      ∙ ap (λ xs. take later first_stack ++ xs)
          (drop_all (later + max_running) first_stack (omega (arith, length-first_stack)))
      ∙ append-nil (take later first_stack)
      ∙ ap (take later) first_stack-split
      ∙ take-append_length later (reverse (count_up firsts later)) (reverse (count_up 0 firsts))
          length-later

  start_outputs : (start callbacks result max_running).outputs ≡ []
  unfolding start
  start_outputs = refl

  pub start_resolved :
      (start callbacks result max_running).resolved ≡ (if callbacks == 0 then some [] else none)
  unfolding start
  start_resolved = refl

  pub start-IsSound :
      0 < max_running → IsSound callbacks result max_running (start callbacks result max_running)
  start-IsSound positive = record {
    started = firsts;
    fits = omega arith;
    stack = start_stack ∙ ap (λ n. reverse (count_up firsts n)) (omega arith);
    counts = λ a.
        rw (start_running, start_outputs)
          (unfold count in omega (arith, count-reverse a (count_up 0 firsts)));
    total = rw (start_running, start_outputs) (omega (arith, length-firsts));
    bounded = rw start_running (omega (arith, length-firsts));
    busy = λ more. rw start_running (omega (arith, length-firsts));
    values = rw start_outputs tt;
    waits = λ full. elim (ℕ_discrete callbacks 0) [
      | yes e ↦
          absurd (full (start_running ∙ ap (λ n. reverse (count_up 0 n)) (omega arith) ∙ none_up))
      | no more ↦ start_resolved ∙ ground (arith, more)
    ];
    done = λ empty.
        let e : callbacks ≡ 0 =
          omega (arith, ap length (sym start_running ∙ empty), length-firsts, length-nil) in
        start_resolved ∙ rw e (unfold count_up in refl);
  }
