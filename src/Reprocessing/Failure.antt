-- ===== src/Reprocessing/Failure.antt =====
-- The calls that a failing job leads to, one at a time.
use nodejs_template.Reprocessing.Delays.{delay_for, delay_at-fill_delays}
use nodejs_template.Prelude.{
  ℕ, zero, suc, ◌+◌, ◌<◌, ◌≡◌, refl, true, false, Option, none, some, List, [], ltb, ◌==◌, arith,
  if◌then◌else◌,
}
use nodejs_template.Text.{Text}
use nodejs_template.Reprocessing.Send.{
  Tries, QueueOptions, Payload, Mark, State, Progress, Reprocessing, Call, Params, tries_or,
  publish_in_queue, publish_in_exchange, save, fill_delays, delay_at, exchange_of, publish,
  publish_or_save, new_message, send, reprocess,
}
use nodejs_template.Reprocessing.Decorator.{
  Body, plain, Ran, Handler, Settings, Options, Handled, resent, queue_options_of, or_default,
  settle, handle,
}

-- What a call does: where it goes, with which delay, and the number of the try that it carries.
pub data Summary : Type 0 where
  sent_to : Text → Option ℕ → ℕ → Summary
  stored nothing : Summary

-- What is expected of the n-th failure, with the number of tries.
abbrev pub expected : QueueOptions → List (Option ℕ) → ℕ → ℕ → Summary
expected options delays max n =
    if ltb n max
    then elim (exchange_of options.exchange) [
      | none ↦ sent_to options.queue none (n + 1)
      | some exchange ↦ sent_to exchange (delay_for delays n) (n + 1)
    ]
    else if n == max
    then stored
    else nothing

abbrev pub fresh : {V : Type 0} → State V
fresh = record { reprocessing = none; rest = [] }

module _ {H B V : Type 0} where
  abbrev pub call_of : Handled H B V → Option (Call H B V)
  call_of (resent ran (delays, call)) = call
  call_of _ = none

  -- The message that comes back: a saved one does not.
  abbrev pub published : Option (Call H B V) → Option (Reprocessing H B V)
  published (some (publish_in_queue queue message headers)) = some message
  published (some (publish_in_exchange exchange message routing_key headers delay)) = some message
  published _ = none

  abbrev pub summary : Option (Call H B V) → Summary
  summary none = nothing
  summary (some (publish_in_queue queue message headers)) = sent_to queue none message.tries.current
  summary (some (publish_in_exchange exchange message routing_key headers delay)) =
      sent_to exchange delay message.tries.current
  summary (some (save exchange message routing_key queue)) = stored

  module _ (settings : Settings) (options : Options) (name : Text) (job : Handler H B V)
      (first : Payload H B) (comes_back : Reprocessing H B V → Payload H (Body H B V)) where
    abbrev pub start : Payload H (Body H B V)
    start = record { headers = first.headers; body = plain first.body; fields = first.fields }

    -- The call after the n-th failure, counted from zero. A published message comes back to a
    -- fresh state.
    unfoldable pub failure : ℕ → Option (Call H B V)
    unfolding handle
    failure zero = call_of (handle settings options name job start fresh)
    failure (suc n) = elim (published (failure n)) [
      | none ↦ none
      | some message ↦ call_of (handle settings options name job (comes_back message) fresh)
    ]

  -- A message that goes out for the n-th time has the number, the limit and the delays on it.
  pub record IsSent (name : Text) (max : ℕ) (delays : List (Option ℕ)) (n : ℕ) (due : Summary)
      (call : Option (Call H B V)) : Type 0 where
    pub message : Reprocessing H B V
    pub is_published : published call ≡ some message
    pub from : message.middleware ≡ name
    pub tries :
        message.tries ≡ record { current = n + 1; max = max; delays = fill_delays max delays }
    pub goes : summary call ≡ due

  publish-IsSent :
      (options : QueueOptions) (m : Reprocessing H B V) (max : ℕ) (delays : List (Option ℕ)) (n : ℕ)
      → n < max
      → m.tries ≡ record { current = n + 1; max = max; delays = fill_delays max delays }
      → IsSent m.middleware max delays n
          (elim (exchange_of options.exchange) [
            | none ↦ sent_to options.queue none (n + 1)
            | some exchange ↦ sent_to exchange (delay_for delays n) (n + 1)
          ])
          (some (publish options m (delay_at (fill_delays max delays) n)))
  unfolding publish
  publish-IsSent options m max delays n h t = record {
    message = m;
    is_published = ground arith;
    from = refl;
    tries = t;
    goes = ground (arith, delay_at-fill_delays max delays n h);
  }

  pub publish_or_save-IsSent :
      (options : QueueOptions) (m : Reprocessing H B V) (max : ℕ) (delays : List (Option ℕ)) (n : ℕ)
      → n < max
      → m.tries ≡ record { current = n + 1; max = max; delays = fill_delays max delays }
      → IsSent m.middleware max delays n
          (elim (exchange_of options.exchange) [
            | none ↦ sent_to options.queue none (n + 1)
            | some exchange ↦ sent_to exchange (delay_for delays n) (n + 1)
          ])
          (some (publish_or_save options m))
  publish_or_save-IsSent options m max delays n h t =
      let same : publish_or_save options m
          ≡ publish options m (delay_at (fill_delays max delays) n) =
        unfold publish_or_save in ground arith in
      rw same (publish-IsSent options m max delays n h t)

  pub settle-fails :
      (settings : Settings) (options : Options) (name : Text) (fields : QueueOptions)
      (ran : Ran H B V) (mark : Mark) (progress : Progress)
      → settings.enabled ≡ true
      → options.normalize_only ≡ false
      → ran.thrown ≡ some progress
      → ran.state.reprocessing ≡ some mark
      → (params : Params H B V) × (call_of (settle settings options name fields ran)
          ≡ (reprocess
              (queue_options_of options fields)
              (or_default options.max_tries settings.max_tries)
              (or_default options.delays settings.delays)
              params).1)
        × (params.middleware ≡ name)
        × (params.tries ≡ mark.tries)
        × (params.state.reprocessing ≡ some mark)
  unfolding settle
  settle-fails settings options name fields ran mark progress on only thrown held = (
    record {
      middleware = name;
      progress = progress;
      tries = mark.tries;
      payload = ran.payload;
      state = ran.state;
    },
    ground arith,
    refl,
    refl,
    held,
  )

  -- The first failure: no tries are known.
  pub first-IsSent :
      (options : QueueOptions) (max : ℕ) (delays : List (Option ℕ)) (params : Params H B V)
      (mark : Mark)
      → 0 < max
      → params.tries ≡ none
      → mark.tries ≡ none
      → params.state.reprocessing ≡ some mark
      → IsSent params.middleware max delays 0
          (elim (exchange_of options.exchange) [
            | none ↦ sent_to options.queue none 1
            | some exchange ↦ sent_to exchange (delay_for delays 0) 1
          ])
          (reprocess options max delays params).1
  unfolding new_message
  first-IsSent options max delays params mark h t t' held =
      let filled = fill_delays max delays in
      let initial : Tries = record { current = 1; max = max; delays = filled } in
      let m = new_message params initial in
      let same : (reprocess options max delays params).1
          ≡ some (publish options m (delay_at filled 0)) =
        unfold reprocess send tries_or in ground arith in
      rw same (publish-IsSent options m max delays 0 h refl)

  -- A later failure, with the tries of the message before.
  pub later-reprocess :
      (options : QueueOptions) (max : ℕ) (delays : List (Option ℕ)) (params : Params H B V)
      (mark : Mark) (tries : Tries)
      → params.tries ≡ some tries
      → mark.tries ≡ some tries
      → params.state.reprocessing ≡ some mark
      → (reprocess options max delays params).1
        ≡ some (
            publish_or_save options
              (new_message params (record tries { current = tries.current + 1 })))
  unfolding reprocess send tries_or
  later-reprocess options max delays params mark tries t t' held = ground arith

  pub later-stored :
      (options : QueueOptions) (m : Reprocessing H B V)
      → m.tries.max < m.tries.current
      → (published (some (publish_or_save options m)) ≡ none)
        × (summary (some (publish_or_save options m)) ≡ stored)
  unfolding publish_or_save
  later-stored options m h = (ground arith, ground arith)
