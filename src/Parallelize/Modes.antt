-- ===== src/Parallelize/Modes.antt =====
-- When the flow goes on behind parallel middlewares.
use nodejs_template.Prelude.{
  ◌≡◌, refl, ap, ◌∙◌, ◌↔◌, ◌≤◌, ℕ, zero, suc, List, [], ◌∷◌, ◌++◌, length, All, arith, subst,
  Option, none, some,
}
use nodejs_template.Parallelize.{
  ParallelizeMode, all_settled, all, race, any, Argument, promised, threw, MiddlewareHandler,
  FirstParameter, Settlement, fulfilled, rejected, Resolution, advanced, Ended, not_found_next,
  thrown_at_once, awaited, wait_settled, wait_all, wait_race, wait_any, resolve_by_mode,
  replace_next, call_handler, call_handlers, mode_of, to_resolve, parallelize,
}

-- What the comments on the modes say: all run; all run and succeed; the first one succeeds; one
-- succeeds.
abbrev pub Advances : {E : Type 0} → ParallelizeMode → ℕ → List (Settlement E) → Type 0
Advances all_settled count settlements = length settlements ≡ count
Advances all count settlements =
    (length settlements ≡ count) × All (λ settlement. settlement ≡ fulfilled) settlements
Advances {E} race count settlements =
    (rest : List (Settlement E)) × (settlements ≡ fulfilled ∷ rest)
Advances {E} any count settlements =
    (before : List (Settlement E)) × (after : List (Settlement E)) × (settlements
      ≡ before ++ (fulfilled ∷ after))

module _ {E : Type 0} where
  wait_settled_iff :
      (count : ℕ) (s : List (Settlement E))
      → length s ≤ count
      → (wait_settled count s ≡ advanced) ↔ Advances all_settled count s
  unfolding wait_settled
  wait_settled_iff zero s h = (λ e. ground arith, λ e. refl)
  wait_settled_iff (suc left) [] h = ground arith
  wait_settled_iff (suc left) (x ∷ s) h = ground (arith, wait_settled_iff left s (ground arith))

  wait_all_iff :
      (count : ℕ) (s : List (Settlement E))
      → length s ≤ count
      → (wait_all count s ≡ advanced) ↔ Advances all count s
  unfolding wait_all
  wait_all_iff zero [] h = (λ e. (refl, tt), λ e. refl)
  wait_all_iff zero (x ∷ s) h = ground arith
  wait_all_iff (suc left) [] h = ground arith
  wait_all_iff (suc left) (rejected e ∷ s) h = (λ a. cc, λ (a, b). ground (arith, b.0))
  wait_all_iff (suc left) (fulfilled ∷ s) h =
      let (there, back) = wait_all_iff left s (ground arith) in
      (
        λ e. let (a, b) = there e in (ground (arith, a), (refl, b)),
        λ (a, b). back (ground (arith, a), b.1),
      )

  wait_race_iff :
      (count : ℕ) (s : List (Settlement E))
      → length s ≤ count
      → (wait_race count s ≡ advanced) ↔ Advances race count s
  unfolding wait_race
  wait_race_iff zero [] h = (λ e. cc, λ (rest, e). ground (arith, e))
  wait_race_iff zero (x ∷ s) h = ground arith
  wait_race_iff (suc left) [] h = (λ e. cc, λ (rest, e). ground (arith, e))
  wait_race_iff (suc left) (rejected e ∷ s) h = (λ a. cc, λ (rest, a). ground (arith, a))
  wait_race_iff (suc left) (fulfilled ∷ s) h = (λ e. (s, refl), λ a. refl)

  wait_any-split :
      (count : ℕ) (before after : List (Settlement E))
      → length (before ++ (fulfilled ∷ after)) ≤ count
      → wait_any count (before ++ (fulfilled ∷ after)) ≡ advanced
  unfolding wait_any
  wait_any-split zero [] after h = ground arith
  wait_any-split zero (x ∷ before) after h = ground arith
  wait_any-split (suc left) [] after h = refl
  wait_any-split (suc left) (fulfilled ∷ before) after h = refl
  wait_any-split (suc left) (rejected e ∷ before) after h =
      wait_any-split left before after (ground arith)

  split-wait_any :
      (count : ℕ) (s : List (Settlement E)) → wait_any count s ≡ advanced → Advances any count s
  unfolding wait_any
  split-wait_any zero s h = cc
  split-wait_any (suc left) [] h = cc
  split-wait_any (suc left) (fulfilled ∷ s) h = ([], s, refl)
  split-wait_any (suc left) (rejected e ∷ s) h =
      let (before, after, split) = split-wait_any left s h in
      (rejected e ∷ before, after, ap (λ r. rejected e ∷ r) split)

  resolve_by_mode_iff :
      (mode : ParallelizeMode) (count : ℕ) (s : List (Settlement E))
      → length s ≤ count
      → (resolve_by_mode mode count s ≡ advanced) ↔ Advances mode count s
  unfolding resolve_by_mode
  resolve_by_mode_iff all_settled count s h = wait_settled_iff count s h
  resolve_by_mode_iff all count s h = wait_all_iff count s h
  resolve_by_mode_iff race count s h = wait_race_iff count s h
  resolve_by_mode_iff any count s h = (
    split-wait_any count s,
    λ (before, after, split).
        ap (wait_any count) split
        ∙ wait_any-split count before after (subst (λ r. length r ≤ count) split h),
  )

  awaited-cases :
      (called : Option E) (r : Resolution E)
      → (elim called as (λ o. Ended E) [ some error ↦ thrown_at_once error | none ↦ awaited r ]
          ≡ awaited advanced)
        ↔ ((called ≡ none) × (r ≡ advanced))
  awaited-cases none r = ground arith
  awaited-cases (some error) r = ground arith

  replaced-cases :
      {L : Type 0} (o : Option L) (next : L → Ended E)
      → elim o as (λ p. Ended E) [ none ↦ not_found_next | some x ↦ next x ] ≡ awaited advanced
      → (x : L) × (o ≡ some x) × (next x ≡ awaited advanced)
  replaced-cases none next h = cc
  replaced-cases (some x) next h = (x, refl, h)

module _ {V E : Type 0} where
  -- Of at most as many settlements as handlers: `next` is called exactly when the arguments have
  -- it, no handler throws at once, and the settlements are as the mode asks: all are there; all are
  -- there and fulfilled; the first is fulfilled; or one is.
  pub parallelize-advanced_iff :
      (arg1 : FirstParameter V E) (rest : List (MiddlewareHandler V E)) (args : List (Argument V))
      (settlements : List (Settlement E))
      → length settlements ≤ length (to_resolve arg1 rest)
      → (parallelize arg1 rest args settlements ≡ awaited advanced) ↔ (
          (replaced : List (Argument V)) × (replace_next args ≡ some replaced)
          × (call_handlers replaced (to_resolve arg1 rest) ≡ none)
          × Advances (mode_of arg1) (length (to_resolve arg1 rest)) settlements)
  unfolding parallelize
  parallelize-advanced_iff arg1 rest args settlements h =
      let resolution = resolve_by_mode (mode_of arg1) (length (to_resolve arg1 rest)) settlements in
      let advances =
        resolve_by_mode_iff (mode_of arg1) (length (to_resolve arg1 rest)) settlements h in
      (
        λ e.
            let (replaced, a, b) = replaced-cases (replace_next args) _ e in
            let (c, d) =
              (awaited-cases (call_handlers replaced (to_resolve arg1 rest)) resolution).0 b in
            (replaced, a, c, advances.0 d),
        λ (replaced, a, b, c). ground (arith, a, b, advances.1 c),
      )

  call_handlers-throws :
      (args : List (Argument V)) (before : List (MiddlewareHandler V E))
      (handler : MiddlewareHandler V E) (after : List (MiddlewareHandler V E)) (error : E)
      → All (λ h. call_handler args h ≡ promised) before
      → call_handler args handler ≡ threw error
      → call_handlers args (before ++ (handler ∷ after)) ≡ some error
  unfolding call_handlers
  call_handlers-throws args [] handler after error h e = ground (arith, e)
  call_handlers-throws args (x ∷ before) handler after error h e =
      ground (arith, h.0, call_handlers-throws args before handler after error h.1 e)

  -- An error that a handler throws at once, behind handlers that do not, ends the call in every
  -- mode, also in that which ignores failures, whatever the promises of the others become.
  parallelize-throws :
      (arg1 : FirstParameter V E) (rest before after : List (MiddlewareHandler V E))
      (handler : MiddlewareHandler V E) (args replaced : List (Argument V))
      (settlements : List (Settlement E)) (error : E)
      → replace_next args ≡ some replaced
      → to_resolve arg1 rest ≡ before ++ (handler ∷ after)
      → All (λ h. call_handler replaced h ≡ promised) before
      → call_handler replaced handler ≡ threw error
      → parallelize arg1 rest args settlements ≡ thrown_at_once error
  unfolding parallelize
  parallelize-throws arg1 rest before after handler args replaced settlements error a b c d =
      ground (arith, a, b, call_handlers-throws replaced before handler after error c d)
