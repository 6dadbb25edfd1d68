-- ===== src/Flow/Message.antt =====
-- src/main/adapters/flow-manager/adapters/message-adapter.ts: a flow inside the flow of a consumer,
-- which hands over to the outer `next` only if its own last job called `next`.
use nodejs_template.Prelude.{
  ℕ, ◌+◌, ◌-◌, ◌≡◌, ◌≢◌, ◌↔◌, refl, Bool, false, ◌&&◌, ◌||◌, Option, none, some, List, [], ◌∷◌,
  length, arith, ◌==◌, if◌then◌else◌,
}
use nodejs_template.Flow.{Callback, Settled, rejected, make_flow}
use nodejs_template.Flow.Reference.{chain, make_flow-chain}

-- The message with its state, and `proceedWithFlow`.
pub record Delivery (D : Type 0) : Type 0 where
  pub message : D
  pub proceed : Bool

abbrev fresh : {D : Type 0} → D → Delivery D
fresh d = record { message = d; proceed = false }

-- What the adapter does in the end: call `topLevelNext`, return without it, or reject.
pub data Outcome (D E : Type 0) : Type 0 where
  advanced : D → Outcome D E
  held : D → Outcome D E
  failed : D → E → Outcome D E

module _ {D E : Type 0} where
  -- `nextDecorator` marks the call of the job at the last index.
  unfoldable pub decorate : ℕ → ℕ → Callback D E → Callback (Delivery D) E
  decorate count index job s =
      let ran = job s.message in
      record {
        after = record {
          message = ran.after;
          proceed = s.proceed || (ran.next_was_called && (count - 1 == index));
        };
        next_was_called = ran.next_was_called;
        thrown = ran.thrown;
      }

  unfoldable pub decorated : ℕ → ℕ → List (Callback D E) → List (Callback (Delivery D) E)
  decorated count index [] = []
  decorated count index (job ∷ jobs) = decorate count index job ∷ decorated count (index + 1) jobs

  unfoldable pub outcome_of : Delivery D → Option (Settled E) → Outcome D E
  outcome_of s (some (rejected error)) = failed s.message error
  outcome_of s how = if s.proceed then advanced s.message else held s.message

  unfoldable pub message_adapter : D → List (Callback D E) → Outcome D E
  unfolding decorate decorated outcome_of
  message_adapter message jobs =
      let s =
        make_flow (record { message = message; proceed = false })
          (decorated (length jobs) 0 jobs) in
      outcome_of s.shared s.settled

  -- Every job calls `next` and none throws.
  unfoldable pub run_all : D → List (Callback D E) → Option D
  run_all d [] = some d
  run_all d (job ∷ jobs) =
      let ran = job d in
      let rest = run_all ran.after jobs in
      elim ran.thrown [ none ↦ if ran.next_was_called then rest else none | some error ↦ none ]

  abbrev ended : Delivery D × Settled E → Outcome D E
  ended (s, how) = outcome_of s (some how)

  chain-decorated :
      (n i : ℕ) (d d' : D) (job : Callback D E) (jobs : List (Callback D E))
      → i + length (job ∷ jobs) ≡ n
      → (ended (chain (fresh d) (decorated n i (job ∷ jobs))) ≡ advanced d')
        ↔ (run_all d (job ∷ jobs) ≡ some d')
  unfolding decorate decorated outcome_of chain run_all
  chain-decorated n i d d' job [] e = ground arith
  chain-decorated n i d d' job (k ∷ jobs) e =
      ground (arith, chain-decorated n (i + 1) (job d).after d' k jobs (omega arith))

  message_adapter-ended :
      (d : D) (jobs : List (Callback D E))
      → message_adapter d jobs ≡ ended (chain (fresh d) (decorated (length jobs) 0 jobs))
  unfolding message_adapter
  message_adapter-ended d jobs =
      let (shared, settled) = make_flow-chain (fresh d) (decorated (length jobs) 0 jobs) in
      rw (shared, settled) refl

  -- The outer `next` is called, with the data that the last job left, exactly when there is a job
  -- and every job calls its `next` without throwing.
  pub message_adapter-advanced_iff :
      (d d' : D) (jobs : List (Callback D E))
      → (message_adapter d jobs ≡ advanced d') ↔ ((jobs ≢ []) × (run_all d jobs ≡ some d'))
  message_adapter-advanced_iff d d' [] =
      rw (message_adapter-ended d [])
        (unfold chain decorated outcome_of in (λ e. cc, λ h. absurd (h.0 refl)))
  message_adapter-advanced_iff d d' (job ∷ jobs) =
      let (to, from) = chain-decorated (length (job ∷ jobs)) 0 d d' job jobs (omega arith) in
      rw (message_adapter-ended d (job ∷ jobs)) ((λ e. ((λ p. cc), to e)), λ h. from h.1)
