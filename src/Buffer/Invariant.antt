-- ===== src/Buffer/Invariant.antt =====
-- What holds of the buffer between two events.
use nodejs_template.Prelude.{
  ℕ, ◌≤◌, ◌<◌, ◌≡◌, ◌≢◌, ◌⊎◌, Bool, Option, none, List, [], ◌∷◌, length, length-append, arith,
}
use nodejs_template.Buffer.{
  unset, armed, fired, Buffer, create, limit_or, schedule_flush, write, flush, make_room, enqueue,
  settle, resume, fire, Event, enqueued, flush_called, write_ended, flush_resumed, timer_fired,
  step, run,
}

limit_or-pos : (default : ℕ) (n : Option ℕ) → 0 < default → 0 < limit_or default n
unfolding limit_or
limit_or-pos default n h = ground arith

module _ {A : Type 0} where
  pub record IsSound (s : Buffer A) : Type 0 where
    pub has_room : 0 < s.max_queue_size
    pub has_batch : 0 < s.max_size
    -- the queue never outgrows its limit
    pub bounded : length s.queue ≤ s.max_queue_size
    -- a timer is set only for documents that wait
    pub timed : s.timer ≢ unset → 0 < length s.queue
    -- a timer that went off during a write has left a call of `flush` that will go on
    pub pending : s.timer ≡ fired → (0 < s.waiting) ⊎ (0 < s.ready)
    -- at most one call of `insertMany` runs, and `flushing` is its promise
    pub single : s.in_flight ≤ 1
    pub idle : s.flushing ≡ none → s.in_flight ≡ 0
    pub awaited : s.flushing ≡ none → s.waiting ≡ 0
    -- documents that wait will be written without a further call: by the timer, by the end of the
    -- write in flight or by a call of `flush` that goes on
    pub live : 0 < length s.queue → (s.timer ≡ armed) ⊎ (s.flushing ≢ none) ⊎ (0 < s.ready)

  flush-IsSound : (s : Buffer A) → IsSound s → IsSound (flush s)
  unfolding flush write
  flush-IsSound s h = ground arith

  enqueue-IsSound : (x : A) (s : Buffer A) → IsSound s → IsSound (enqueue x s)
  unfolding enqueue make_room flush write schedule_flush
  enqueue-IsSound x s h = ground (arith, length-append s.queue (x ∷ []))

  settle-IsSound : (failed : Bool) (s : Buffer A) → IsSound s → IsSound (settle failed s)
  unfolding settle flush schedule_flush
  settle-IsSound failed s h = ground arith

  resume-IsSound : (s : Buffer A) → IsSound s → IsSound (resume s)
  unfolding resume flush
  resume-IsSound s h = ground arith

  fire-IsSound : (s : Buffer A) → IsSound s → IsSound (fire s)
  unfolding fire flush
  fire-IsSound s h = ground arith

  pub step-IsSound : (e : Event A) (s : Buffer A) → IsSound s → IsSound (step e s)
  unfolding step
  step-IsSound (enqueued x) s h = enqueue-IsSound x s h
  step-IsSound flush_called s h = flush-IsSound s h
  step-IsSound (write_ended failed) s h = settle-IsSound failed s h
  step-IsSound flush_resumed s h = resume-IsSound s h
  step-IsSound timer_fired s h = fire-IsSound s h

  run-IsSound : (es : List (Event A)) (s : Buffer A) → IsSound s → IsSound (run es s)
  unfolding run
  run-IsSound [] s h = h
  run-IsSound (e ∷ es) s h = run-IsSound es (step e s) (step-IsSound e s h)

  pub create-IsSound : (m q : Option ℕ) → IsSound (create m q)
  unfolding create
  create-IsSound m q =
      ground (arith, limit_or-pos 50 m (omega arith), limit_or-pos 10_000 q (omega arith))

  -- Whatever the options and the order of the events: the queue stays within its limit, a timer is
  -- set only for documents that wait, at most one call of `insertMany` runs at a time, no call of
  -- `flush` waits when none runs, and documents that wait are written without a further call, since
  -- a timer is to go off, a write is in flight or a call of `flush` is about to go on.
  pub run-create-IsSound : (m q : Option ℕ) (es : List (Event A)) → IsSound (run es (create m q))
  run-create-IsSound m q es = run-IsSound es (create m q) (create-IsSound m q)
