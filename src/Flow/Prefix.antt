-- ===== src/Flow/Prefix.antt =====
-- How far a flow runs: a middleware that stops it hides the ones behind it.
use nodejs_template.Prelude.{◌≡◌, ◌≢◌, sym, ◌∙◌, ap, some, List, [], ◌∷◌, ◌++◌, arith}
use nodejs_template.Flow.{Callback, next, emitted, make_flow}
use nodejs_template.Flow.Reference.{chain, make_flow-chain}

module _ {D E : Type 0} where
  -- A middleware that, whatever the data, does not hand over to the one behind it.
  abbrev pub Stops : Callback D E → Type 0
  Stops m = (d : D) → emitted (m d) ≢ next

  chain-Stops :
      (d : D) (xs : List (Callback D E)) (m : Callback D E) (ys : List (Callback D E))
      → Stops m
      → chain d (xs ++ m ∷ ys) ≡ chain d (xs ++ m ∷ [])
  unfolding chain emitted
  chain-Stops d [] m ys h = ground (arith, h d)
  chain-Stops d (x ∷ xs) m ys h = ground (arith, chain-Stops (x d).after xs m ys h)

  -- What stands behind a middleware that stops the flow changes neither the data nor how the
  -- promise settles.
  make_flow-Stops :
      (d : D) (xs : List (Callback D E)) (m : Callback D E) (ys : List (Callback D E))
      → Stops m
      → ((make_flow d (xs ++ m ∷ ys)).shared ≡ (make_flow d (xs ++ m ∷ [])).shared)
        × ((make_flow d (xs ++ m ∷ ys)).settled ≡ (make_flow d (xs ++ m ∷ [])).settled)
  make_flow-Stops d xs m ys h =
      let same = chain-Stops d xs m ys h in
      let (after, settled) = make_flow-chain d (xs ++ m ∷ ys) in
      let (after', settled') = make_flow-chain d (xs ++ m ∷ []) in
      (after ∙ ap (λ r. r.0) same ∙ sym after', settled ∙ ap (λ r. some r.1) same ∙ sym settled')
