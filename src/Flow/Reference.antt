-- ===== src/Flow/Reference.antt =====
-- The flow against a plain chain of calls.
use mathlib.Core.List.{reverse, reverse-cons}
use nodejs_template.Prelude.{
  ℕ, zero, suc, ◌+◌, ◌≤◌, ◌≡◌, refl, true, none, some, List, [], ◌∷◌, ◌++◌, length, arith,
  if◌then◌else◌,
}
use nodejs_template.Flow.{
  Callback, next, resolver, Settled, resolved, rejected, Flow, pop, emitted, on_next, on_settle,
  emit, continue, pump, initial, make_flow,
}

module _ {D E : Type 0} where
  -- The middlewares in order: an exception rejects, a middleware that did not call `next` ends
  -- the chain, and so does the end of the list.
  unfoldable pub chain : D → List (Callback D E) → D × Settled E
  chain d [] = (d, resolved)
  chain d (m ∷ ms) =
      let ran = m d in
      let rest = chain ran.after ms in
      elim ran.thrown [
        | some error ↦ (ran.after, rejected error)
        | none ↦ if ran.next_was_called then rest else (ran.after, resolved)
      ]

pub pop-concat {ℓ} : {A : Type ℓ} (xs : List A) (x : A) → pop (xs ++ x ∷ []) ≡ some (xs, x)
unfolding pop
pop-concat [] x = refl
pop-concat (y ∷ xs) x = rw (pop-concat xs x)

module _ {D E : Type 0} where
  -- A flow that still listens, with the middlewares `ms` to come.
  abbrev waiting : D → List (Callback D E) → Flow D E
  waiting d ms = record { shared = d; call_stack = reverse ms; listening = true; settled = none }

  emit-waiting :
      (d : D) (m : Callback D E) (ms : List (Callback D E))
      → emit next (waiting d (m ∷ ms)) ≡ (waiting (m d).after ms, some (emitted (m d)))
  unfolding emit
  emit-waiting d m ms = rw (reverse-cons, pop-concat (reverse ms) m, on_next)

  -- What a flow ends in, as the caller of the promise sees it.
  abbrev pub Ends : Flow D E → D × Settled E → Type 0
  Ends s (d, how) = (s.shared ≡ d) × (s.settled ≡ some how)

  emit-waiting_nil : (d : D) → emit next (waiting d []) ≡ (waiting d [], some resolver)
  unfolding emit
  emit-waiting_nil d = refl

  pump-step :
      (fuel : ℕ) (d : D) (m : Callback D E) (ms : List (Callback D E))
      → Ends (pump (suc fuel) next (waiting (m d).after ms)) (chain (m d).after ms)
      → Ends (pump (suc (suc fuel)) next (waiting d (m ∷ ms))) (chain d (m ∷ ms))
  unfolding pump chain
  pump-step fuel d m ms h =
      rw (emit-waiting d m ms) (unfold emitted emit on_settle continue in ground arith)

  pump-chain :
      (fuel : ℕ) (d : D) (ms : List (Callback D E))
      → length ms + 2 ≤ fuel
      → Ends (pump fuel next (waiting d ms)) (chain d ms)
  unfolding pump chain
  pump-chain zero d ms h = absurd (omega arith)
  pump-chain (suc zero) d ms h = absurd (omega arith)
  pump-chain (suc (suc fuel)) d [] h =
      rw (emit-waiting_nil d) (unfold continue emit on_settle in (refl, refl))
  pump-chain (suc (suc fuel)) d (m ∷ ms) h =
      pump-step fuel d m ms (pump-chain (suc fuel) (m d).after ms (omega arith))

  -- The event loop settles the promise, whatever the middlewares do, and leaves the data and the
  -- settlement of the plain chain of calls.
  pub make_flow-chain : (d : D) (ms : List (Callback D E)) → Ends (make_flow d ms) (chain d ms)
  unfolding make_flow initial
  make_flow-chain d ms = pump-chain (length ms + 2) d ms (omega arith)
