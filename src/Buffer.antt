-- ===== src/Buffer.antt =====
-- src/infra/db/mongodb/util/bulk-insert-buffer.ts: documents collected in a queue and written in
-- bulk, with one write in flight. The event loop chooses the order of the events: calls of
-- `enqueue` and `flush`, the end of a write, the timer, and the calls of `flush` that wait. An
-- `onError` that throws is left out: it would reject those calls.
pub mod Invariant
pub mod Fifo
mod Tests
use nodejs_template.Prelude.{
  ℕ, zero, suc, ◌+◌, ◌-◌, Bool, true, false, Option, none, some, List, [], ◌∷◌, ◌++◌, length, leb,
  if◌then◌else◌,
}

-- `this.timer`: null, set and still to come, or set by a timer that has already gone off (the
-- callback does not reset the field).
pub data Timer : Type 0 where
  unset armed fired : Timer

pub record Buffer (A : Type 0) : Type 0 where
  pub queue : List A
  pub timer : Timer
  -- the documents of the write in flight
  pub flushing : Option (List A)
  -- calls of `insertMany` that have not ended
  pub in_flight : ℕ
  pub max_size : ℕ
  pub max_queue_size : ℕ
  pub dropped : ℕ
  -- calls of `flush` that await the write in flight, and those whose write has ended
  pub waiting : ℕ
  pub ready : ℕ
  -- all that `insertMany` was called with, and the failures that `onError` was told of
  pub inserted : List A
  pub errors : ℕ

-- A limit that is not a positive finite number is replaced by its default; `none` is the option
-- left out, infinite or not a number.
unfoldable pub limit_or : ℕ → Option ℕ → ℕ
limit_or default none = default
limit_or default (some zero) = default
limit_or default (some (suc n)) = suc n

module _ {A : Type 0} where
  -- The constructor.
  unfoldable pub create : Option ℕ → Option ℕ → Buffer A
  unfolding limit_or
  create max_size max_queue_size = record {
    queue = [];
    timer = unset;
    flushing = none;
    in_flight = 0;
    max_size = limit_or 50 max_size;
    max_queue_size = limit_or 10_000 max_queue_size;
    dropped = 0;
    waiting = 0;
    ready = 0;
    inserted = [];
    errors = 0;
  }

  unfoldable pub schedule_flush : Buffer A → Buffer A
  schedule_flush s = elim s.timer [
    | unset ↦ elim s.queue [ [] ↦ s | _ ∷ _ ↦ record s { timer = armed } ]
    | _ ↦ s
  ]

  -- `this.queue.splice(0)` and the call of `insertMany`, when no write is in flight.
  unfoldable pub write : List A → Buffer A → Buffer A
  write [] s = record s { timer = unset }
  write (x ∷ xs) s = record s {
    timer = unset;
    queue = [];
    flushing = some (x ∷ xs);
    in_flight = s.in_flight + 1;
    inserted = s.inserted ++ x ∷ xs;
  }

  -- `flush` up to its first `await`.
  unfoldable pub flush : Buffer A → Buffer A
  unfolding write
  flush s = elim s.flushing [
    | some documents ↦ record s { waiting = s.waiting + 1 }
    | none ↦ write s.queue s
  ]

  -- `Array.prototype.shift`, without its result.
  abbrev pub shift : List A → List A
  shift [] = []
  shift (x ∷ xs) = xs

  -- The oldest document is dropped when the queue is full.
  unfoldable pub make_room : Buffer A → Buffer A
  make_room s =
      if leb s.max_queue_size (length s.queue)
      then record s { queue = shift s.queue; dropped = s.dropped + 1 }
      else s

  unfoldable pub enqueue : A → Buffer A → Buffer A
  enqueue document s =
      let s' = make_room s in
      let s'' = record s' { queue = s'.queue ++ document ∷ [] } in
      if leb s''.max_size (length s''.queue) then flush s'' else schedule_flush s''

  -- The end of a write: `catch` where it failed, and `finally`.
  unfoldable pub settle : Bool → Buffer A → Buffer A
  settle failed s = elim s.flushing [
    | none ↦ s
    | some documents ↦
        let s' = record s {
          flushing = none;
          in_flight = s.in_flight - 1;
          errors = if failed then s.errors + 1 else s.errors;
          ready = s.ready + s.waiting;
          waiting = 0;
        } in
        if leb s'.max_size (length s'.queue) then flush s' else schedule_flush s'
  ]

  -- A waiting call of `flush` goes on after its `await`.
  unfoldable pub resume : Buffer A → Buffer A
  resume s = elim s.ready [
    | zero ↦ s
    | suc ready ↦
        let s' = record s { ready = ready } in elim s'.queue [ [] ↦ s' | _ ∷ _ ↦ flush s' ]
  ]

  -- The callback of the timer.
  unfoldable pub fire : Buffer A → Buffer A
  fire s = elim s.timer [ armed ↦ flush (record s { timer = fired }) | _ ↦ s ]

pub data Event (A : Type 0) : Type 0 where
  enqueued : A → Event A
  flush_called : Event A
  write_ended : Bool → Event A
  flush_resumed : Event A
  timer_fired : Event A

module _ {A : Type 0} where
  -- An event that cannot happen in a state changes nothing.
  unfoldable pub step : Event A → Buffer A → Buffer A
  unfolding enqueue flush settle resume fire schedule_flush make_room
  step (enqueued document) s = enqueue document s
  step flush_called s = flush s
  step (write_ended failed) s = settle failed s
  step flush_resumed s = resume s
  step timer_fired s = fire s

  unfoldable pub run : List (Event A) → Buffer A → Buffer A
  run [] s = s
  run (e ∷ es) s = run es (step e s)

  -- The documents of the calls of `enqueue`.
  unfoldable pub documents : List (Event A) → List A
  documents [] = []
  documents (enqueued document ∷ es) = document ∷ documents es
  documents (_ ∷ es) = documents es
