-- ===== src/Reprocessing/Schedule.antt =====
-- A job that fails again and again: how often its message is published, with which delays, and
-- where it ends.
use nodejs_template.Reprocessing.Delays.{delay_for}
use nodejs_template.Reprocessing.Failure.{
  Summary, call_of, failure, fresh, published, summary, expected, nothing, sent_to, stored, IsSent,
  later-reprocess, later-stored, settle-fails, first-IsSent, publish_or_save-IsSent,
}
use native.Mathlib.Decide.{dec_lt, ℕ_discrete}
use nodejs_template.Prelude.{
  ℕ, zero, suc, ◌+◌, ◌≤◌, ◌<◌, ◌≡◌, refl, sym, ◌∙◌, ap, true, false, Option, none, some, List, [],
  lt→ltb, subst, arith,
}
use nodejs_template.Text.{Text}
use nodejs_template.Text.Equality.{text_eq_refl}
use nodejs_template.Reprocessing.Send.{
  QueueOptions, Payload, Mark, State, Progress, Reprocessing, Call, Params, fill_delays,
  exchange_of, publish_or_save, new_message, reprocess,
}
use nodejs_template.Reprocessing.Decorator.{
  Body, again, Handler, Settings, Options, override_state, queue_options_of, or_default, settle,
  handle,
}

module _ {H B V : Type 0} where
  module _ (settings : Settings) (options : Options) (name : Text) (job : Handler H B V)
      (first : Payload H B) (comes_back : Reprocessing H B V → Payload H (Body H B V))
      (enabled : settings.enabled ≡ true) (sends : options.normalize_only ≡ false)
      (fails : (p : Payload H B) (s : State V) → (e : Progress) × ((job p s).thrown ≡ some e))
      (keeps : (p : Payload H B) (s : State V) → (job p s).state.reprocessing ≡ s.reprocessing)
      (same_body : (m : Reprocessing H B V) → (comes_back m).body ≡ again m)
      (same_fields : (m : Reprocessing H B V) → (comes_back m).fields ≡ first.fields)
      (positive : 0 < or_default options.max_tries settings.max_tries) where
    abbrev max : ℕ
    max = or_default options.max_tries settings.max_tries

    abbrev delays : List (Option ℕ)
    delays = or_default options.delays settings.delays

    abbrev options' : QueueOptions
    options' = queue_options_of options first.fields

    abbrev calls : ℕ → Option (Call H B V)
    calls = failure settings options name job first comes_back

    abbrev due : ℕ → Summary
    due = expected options' delays max

    abbrev due_of : ℕ → Summary
    due_of n = elim (exchange_of options'.exchange) [
      | none ↦ sent_to options'.queue none (n + 1)
      | some exchange ↦ sent_to exchange (delay_for delays n) (n + 1)
    ]

    due-below : (n : ℕ) → n < max → due n ≡ due_of n
    due-below n h = rw (lt→ltb n max h)

    due-at : (n : ℕ) → n ≡ max → due n ≡ stored
    due-at n e = ground arith

    due-past : (n : ℕ) → max < n → due n ≡ nothing
    due-past n h = ground arith

    -- A run of the job ends in a call of `reprocess`.
    run_fails :
        (p : Payload H B) (s : State V) (mark : Mark)
        → s.reprocessing ≡ some mark
        → (params : Params H B V) × (call_of (settle settings options name first.fields (job p s))
            ≡ (reprocess options' max delays params).1)
          × (params.middleware ≡ name)
          × (params.tries ≡ mark.tries)
          × (params.state.reprocessing ≡ some mark)
    run_fails p s mark e =
        let (progress, thrown) = fails p s in
        settle-fails settings options name first.fields (job p s) mark progress enabled sends thrown
          (keeps p s ∙ e)

    first_call : IsSent name max delays 0 (due 0) (calls 0)
    unfolding failure
    first_call =
        let mark : Mark = record { middleware = none; tries = none } in
        let (params, e, from, t, held) =
          run_fails first (record { reprocessing = some mark; rest = [] }) mark refl in
        let sent = first-IsSent options' max delays params mark positive t refl held in
        rw (due-below 0 positive, e)
          (subst (λ x. IsSent x max delays 0 (due_of 0) (reprocess options' max delays params).1)
            from sent)

    handle-again :
        (m : Reprocessing H B V)
        → m.middleware ≡ name
        → (p : Payload H B) × (s : State V) × (handle settings options name job (comes_back m) fresh
            ≡ settle settings options name first.fields (job p s))
          × (s.reprocessing ≡ some (record { middleware = none; tries = some m.tries }))
    unfolding handle
    handle-again m from =
        let p : Payload H B = record {
          headers = m.payload.headers;
          body = m.payload.body;
          fields = first.fields;
        } in
        let s : State V = record {
          reprocessing = some (record { middleware = none; tries = some m.tries });
          rest = override_state [] m.state;
        } in
        (p, s, ground (arith, same_body m, same_fields m, text_eq_refl name), refl)

    -- The call for a message that comes back.
    again_call :
        (m : Reprocessing H B V) (n : ℕ)
        → m.middleware ≡ name
        → m.tries ≡ record { current = n + 1; max = max; delays = fill_delays max delays }
        → (m' : Reprocessing H B V) × (call_of
              (handle settings options name job (comes_back m) fresh)
            ≡ some (publish_or_save options' m'))
          × (m'.middleware ≡ name)
          × (m'.tries ≡ record { current = suc n + 1; max = max; delays = fill_delays max delays })
    unfolding new_message
    again_call m n from t =
        let (p, s, e, held) = handle-again m from in
        let mark : Mark = record { middleware = none; tries = some m.tries } in
        let (params, e', from', t', held') = run_fails p s mark held in
        (
          new_message params (record (m.tries) { current = m.tries.current + 1 }),
          ap call_of e ∙ e' ∙ later-reprocess options' max delays params mark m.tries t' refl held',
          from',
          ground arith,
        )

    calls-published :
        (n : ℕ) (m : Reprocessing H B V)
        → published (calls n) ≡ some m
        → calls (suc n) ≡ call_of (handle settings options name job (comes_back m) fresh)
    unfolding failure
    calls-published n m e = ground arith

    calls-ended : (n : ℕ) → published (calls n) ≡ none → calls (suc n) ≡ none
    unfolding failure
    calls-ended n e = ground arith

    next_call :
        (n : ℕ) (d : Summary)
        → suc n < max
        → IsSent name max delays n d (calls n)
        → IsSent name max delays (suc n) (due (suc n)) (calls (suc n))
    next_call n d h sent =
        let (m', e, from, t) = again_call sent.message n sent.from sent.tries in
        let sent' = publish_or_save-IsSent options' m' max delays (suc n) h t in
        rw (calls-published n sent.message sent.is_published ∙ e, due-below (suc n) h)
          (subst
            (λ x. IsSent x max delays (suc n) (due_of (suc n)) (some (publish_or_save options' m')))
            from sent')

    IsSent-at : (n : ℕ) → n < max → IsSent name max delays n (due n) (calls n)
    IsSent-at zero h = first_call
    IsSent-at (suc n) h = next_call n (due n) h (IsSent-at n (omega arith))

    is_stored :
        (n : ℕ)
        → suc n ≡ max
        → (published (calls (suc n)) ≡ none) × (summary (calls (suc n)) ≡ stored)
    is_stored n h =
        let sent = IsSent-at n (omega arith) in
        let (m', e, from, t) = again_call sent.message n sent.from sent.tries in
        let e' = calls-published n sent.message sent.is_published ∙ e in
        rw e' (later-stored options' m' (rw t (omega arith)))

    is_over : (n : ℕ) → max ≤ n → calls (suc n) ≡ none
    is_over zero h = absurd (omega arith)
    is_over (suc n) h = elim (ℕ_discrete (suc n) max) [
      | yes e ↦ calls-ended (suc n) (is_stored n e).0
      | no past ↦ calls-ended (suc n) (ap published (is_over n (omega arith)))
    ]

    -- The n-th failure of a message whose job always throws, counted from zero, with a positive
    -- number of tries and reprocessing switched on: while n is below the number of tries, the
    -- message is published again, as try n + 1, to the exchange with the n-th delay of the list,
    -- or the last one doubled for each place past the end, or else to its queue; the failure
    -- after the last try saves it; and then nothing follows.
    pub failure-expected :
        (n : ℕ)
        → summary (failure settings options name job first comes_back n)
          ≡ expected
              (queue_options_of options first.fields)
              (or_default options.delays settings.delays)
              (or_default options.max_tries settings.max_tries)
              n
    failure-expected zero = first_call.goes
    failure-expected (suc n) = elim (dec_lt (suc n) max) [
      | yes h ↦ (IsSent-at (suc n) h).goes
      | no h ↦ elim (ℕ_discrete (suc n) max) [
        | yes e ↦ (is_stored n e).1 ∙ sym (due-at (suc n) e)
        | no past ↦ ap summary (is_over n (omega arith)) ∙ sym (due-past (suc n) (omega arith))
      ]
    ]
