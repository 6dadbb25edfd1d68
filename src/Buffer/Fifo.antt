-- ===== src/Buffer/Fifo.antt =====
-- The documents against those that were handed in: none lost, none twice, none out of order.
use nodejs_template.Prelude.{
  ℕ, ◌+◌, ◌<◌, ◌≡◌, refl, Bool, Option, List, [], ◌∷◌, ◌++◌, length, length-append, arith,
  append_assoc, append-nil, leb, leb→le, inl, inr, Bool-cases, ap,
}
use nodejs_template.Buffer.Invariant.{IsSound, create-IsSound, step-IsSound}
use nodejs_template.Buffer.{
  Buffer, create, schedule_flush, write, flush, make_room, enqueue, settle, resume, fire, shift,
  Event, enqueued, flush_called, write_ended, flush_resumed, timer_fired, step, run, documents,
}

-- `xs` is what is left of `ys` when some of its items are taken out.
pub data Subsequence {A : Type 0} : List A → List A → Type 0 where
  done : Subsequence [] []
  keep : {x : A} {xs ys : List A} → Subsequence xs ys → Subsequence (x ∷ xs) (x ∷ ys)
  skip : {y : A} {xs ys : List A} → Subsequence xs ys → Subsequence xs (y ∷ ys)

module _ {A : Type 0} where
  Subsequence-snoc :
      {xs ys : List A} (a : A) → Subsequence xs ys → Subsequence (xs ++ a ∷ []) (ys ++ a ∷ [])
  Subsequence-snoc a done = keep done
  Subsequence-snoc a (keep h) = keep (Subsequence-snoc a h)
  Subsequence-snoc a (skip h) = skip (Subsequence-snoc a h)

  Subsequence-drop : {x : A} {xs zs : List A} → Subsequence (x ∷ xs) zs → Subsequence xs zs
  Subsequence-drop (keep h) = skip h
  Subsequence-drop (skip h) = skip (Subsequence-drop h)

  Subsequence-remove :
      (xs : List A) (y : A) (ys zs : List A)
      → Subsequence (xs ++ y ∷ ys) zs
      → Subsequence (xs ++ ys) zs
  Subsequence-remove [] y ys zs h = Subsequence-drop h
  Subsequence-remove (x ∷ xs) y ys [] h = elim h [ ]
  Subsequence-remove (x ∷ xs) y ys (z ∷ zs) (keep h) = keep (Subsequence-remove xs y ys zs h)
  Subsequence-remove (x ∷ xs) y ys (z ∷ zs) (skip h) = skip (Subsequence-remove (x ∷ xs) y ys zs h)

  -- Two states that wrote and hold the same documents, and dropped as many.
  abbrev SameBooks : Buffer A → Buffer A → Type 0
  SameBooks s t = (s.inserted ++ s.queue ≡ t.inserted ++ t.queue) × (s.dropped ≡ t.dropped)

  flush-SameBooks : (s : Buffer A) → SameBooks (flush s) s
  unfolding flush write
  flush-SameBooks s = ground (arith, append-nil (s.inserted ++ s.queue))

  settle-SameBooks : (failed : Bool) (s : Buffer A) → SameBooks (settle failed s) s
  unfolding settle flush write schedule_flush
  settle-SameBooks failed s = ground (arith, append-nil (s.inserted ++ s.queue))

  resume-SameBooks : (s : Buffer A) → SameBooks (resume s) s
  unfolding resume flush write
  resume-SameBooks s = ground (arith, append-nil (s.inserted ++ s.queue))

  fire-SameBooks : (s : Buffer A) → SameBooks (fire s) s
  unfolding fire flush write
  fire-SameBooks s = ground (arith, append-nil (s.inserted ++ s.queue))

  -- What the buffer was given, against what it wrote, holds and dropped.
  pub record Accounts (given : List A) (s : Buffer A) : Type 0 where
    pub order : Subsequence (s.inserted ++ s.queue) given
    pub total : length s.inserted + length s.queue + s.dropped ≡ length given

  Accounts-SameBooks : {g : List A} {s t : Buffer A} → SameBooks t s → Accounts g s → Accounts g t
  Accounts-SameBooks {g} {s} {t} (kept, dropped) h = record {
    order = rw kept h.order;
    total = omega (
      arith,
      ap length kept,
      length-append t.inserted t.queue,
      length-append s.inserted s.queue,
      h.total,
      dropped,
    );
  }

  Subsequence-shift : (xs q zs : List A) → Subsequence (xs ++ q) zs → Subsequence (xs ++ shift q) zs
  Subsequence-shift xs [] zs h = h
  Subsequence-shift xs (x ∷ q) zs h = Subsequence-remove xs x q zs h

  length-shift : (q : List A) → 0 < length q → length (shift q) + 1 ≡ length q
  length-shift [] h = absurd (omega arith)
  length-shift (x ∷ q) h = omega arith

  make_room-Accounts :
      {g : List A} (s : Buffer A) → 0 < s.max_queue_size → Accounts g s → Accounts g (make_room s)
  unfolding make_room
  make_room-Accounts {g} s h a = elim (Bool-cases (leb s.max_queue_size (length s.queue))) [
    | inl full ↦ rw full (record {
      order = Subsequence-shift s.inserted s.queue g a.order;
      total =
          omega
            (arith, leb→le s.max_queue_size (length s.queue) full, length-shift s.queue, a.total);
    })
    | inr roomy ↦ rw roomy a
  ]

  enqueue-SameBooks :
      (x : A) (s : Buffer A)
      → SameBooks (enqueue x s) (record (make_room s) { queue = (make_room s).queue ++ x ∷ [] })
  unfolding enqueue flush write schedule_flush
  enqueue-SameBooks x s =
      ground (arith, append-nil ((make_room s).inserted ++ ((make_room s).queue ++ x ∷ [])))

  enqueue-Accounts :
      {g : List A} (x : A) (s : Buffer A)
      → 0 < s.max_queue_size
      → Accounts g s
      → Accounts (g ++ x ∷ []) (enqueue x s)
  enqueue-Accounts {g} x s h a =
      let b = make_room-Accounts s h a in
      let r = make_room s in
      let added : Accounts (g ++ x ∷ []) (record r { queue = r.queue ++ x ∷ [] }) = record {
        order = rw (← append_assoc) (Subsequence-snoc x b.order);
        total = omega (arith, length-append r.queue (x ∷ []), length-append g (x ∷ []), b.total);
      } in
      Accounts-SameBooks (enqueue-SameBooks x s) added

  abbrev given_by : Event A → List A
  given_by (enqueued x) = x ∷ []
  given_by _ = []

  step-Accounts :
      {g : List A} (e : Event A) (s : Buffer A)
      → IsSound s
      → Accounts g s
      → Accounts (g ++ given_by e) (step e s)
  unfolding step
  step-Accounts (enqueued x) s h a = enqueue-Accounts x s h.has_room a
  step-Accounts flush_called s h a = rw append-nil (Accounts-SameBooks (flush-SameBooks s) a)
  step-Accounts (write_ended failed) s h a =
      rw append-nil (Accounts-SameBooks (settle-SameBooks failed s) a)
  step-Accounts flush_resumed s h a = rw append-nil (Accounts-SameBooks (resume-SameBooks s) a)
  step-Accounts timer_fired s h a = rw append-nil (Accounts-SameBooks (fire-SameBooks s) a)

  documents-cons :
      (e : Event A) (es : List (Event A)) → documents (e ∷ es) ≡ given_by e ++ documents es
  unfolding documents
  documents-cons (enqueued x) es = refl
  documents-cons _ es = refl

  run-Accounts :
      (g : List A) (es : List (Event A)) (s : Buffer A)
      → IsSound s
      → Accounts g s
      → Accounts (g ++ documents es) (run es s)
  unfolding run
  run-Accounts g [] s h a = unfold documents in rw append-nil a
  run-Accounts g (e ∷ es) s h a =
      rw (documents-cons e es, ← append_assoc)
        (run-Accounts (g ++ given_by e) es (step e s) (step-IsSound e s h) (step-Accounts e s h a))

  create-Accounts : (m q : Option ℕ) → Accounts [] (create m q)
  unfolding create
  create-Accounts m q = record { order = done; total = omega arith }

  -- What was handed to `insertMany`, followed by what still waits, is the sequence of the enqueued
  -- documents with some taken out: no document is written twice, out of order or made up. Those
  -- taken out are exactly as many as the counter of dropped documents says.
  pub run-create-Accounts :
      (m q : Option ℕ) (es : List (Event A)) → Accounts (documents es) (run es (create m q))
  run-create-Accounts m q es =
      run-Accounts [] es (create m q) (create-IsSound m q) (create-Accounts m q)
