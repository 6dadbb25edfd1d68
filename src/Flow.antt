-- ===== src/Flow.antt =====
-- src/main/adapters/flow-adapter.ts: the event loop that runs a list of middlewares in order.
-- The array `callStack` is a list with its end at the right, as in the source; a promise that an
-- emitter settles once is `settled`. One turn of `step` is one call of `event.emit`.
pub mod Reference
pub mod Prefix
pub mod Message
mod Tests
use mathlib.Core.List.{reverse}
use nodejs_template.Prelude.{
  ℕ, zero, suc, ◌+◌, Bool, true, false, Option, none, some, List, [], ◌∷◌, length, if◌then◌else◌,
}

-- What one awaited call of a middleware leaves: the data that it mutated, whether it called
-- `nextFunction`, and what it threw.
pub record Ran (D E : Type 0) : Type 0 where
  pub after : D
  pub next_was_called : Bool
  pub thrown : Option E

abbrev pub Callback : Type 0 → Type 0 → Type 0
Callback D E = D → Ran D E

-- The three symbols that are emitted.
pub data Signal (E : Type 0) : Type 0 where
  next : Signal E
  resolver : Signal E
  reject : E → Signal E

pub data Settled (E : Type 0) : Type 0 where
  resolved : Settled E
  rejected : E → Settled E

pub record Flow (D E : Type 0) : Type 0 where
  pub shared : D
  pub call_stack : List (Callback D E)
  pub listening : Bool
  pub settled : Option (Settled E)

-- `Array.prototype.pop`: the last item, and what is left.
unfoldable pub pop {ℓ} : {A : Type ℓ} → List A → Option (List A × A)
pop [] = none
pop (x ∷ xs) = elim (pop xs) [ none ↦ some ([], x) | some (rest, last) ↦ some (x ∷ rest, last) ]

module _ {D E : Type 0} where
  -- The end of the wrapped middleware: the signal that it emits.
  unfoldable pub emitted : Ran D E → Signal E
  emitted ran = elim ran.thrown [
    | some error ↦ reject error
    | none ↦ if ran.next_was_called then next else resolver
  ]

  -- The listener of `NEXT`; the signal is what is emitted next.
  unfoldable pub on_next : Flow D E → Flow D E × Option (Signal E)
  unfolding pop emitted
  on_next s = elim (pop s.call_stack) [
    | none ↦ (s, some resolver)
    | some (rest, handler) ↦
        let ran = handler s.shared in
        (record s { shared = ran.after; call_stack = rest }, some (emitted ran))
  ]

  -- The listeners of `RESOLVE` and `REJECT` remove all listeners and settle the promise.
  unfoldable pub on_settle : Settled E → Flow D E → Flow D E × Option (Signal E)
  on_settle how s = (record s { listening = false; settled = some how }, none)

  -- `event.emit`, which does nothing once the listeners are removed.
  unfoldable pub emit : Signal E → Flow D E → Flow D E × Option (Signal E)
  unfolding on_next on_settle
  emit next s = if s.listening then on_next s else (s, none)
  emit resolver s = if s.listening then on_settle resolved s else (s, none)
  emit (reject error) s = if s.listening then on_settle (rejected error) s else (s, none)

  -- A listener that emits again is a call from inside its own.
  unfoldable pub continue :
      (Signal E → Flow D E → Flow D E) → Flow D E × Option (Signal E) → Flow D E
  continue again (s, none) = s
  continue again (s, some signal) = again signal s

  -- The loop of emits, on fuel.
  unfoldable pub pump : ℕ → Signal E → Flow D E → Flow D E
  pump zero signal s = s
  pump (suc fuel) signal s = continue (pump fuel) (emit signal s)

  unfoldable pub initial : List (Callback D E) → D → Flow D E
  initial callbacks shared = record {
    shared = shared;
    call_stack = reverse callbacks;
    listening = true;
    settled = none;
  }

  -- One emit for each middleware, one for the empty stack and one for the end.
  unfoldable pub make_flow : D → List (Callback D E) → Flow D E
  unfolding pump continue emit initial
  make_flow shared callbacks = pump (length callbacks + 2) next (initial callbacks shared)
