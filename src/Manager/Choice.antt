-- ===== src/Manager/Choice.antt =====
-- The handler that takes a call is that of the first option whose condition is met.
use nodejs_template.Prelude.{
  ◌≡◌, refl, ap, ◌∙◌, ◌⊎◌, inl, inr, ◌↔◌, Bool, true, false, Option, none, some, List, [], ◌∷◌,
  ◌++◌, All, arith, if◌then◌else◌,
}
use nodejs_template.Text.{Text}
use nodejs_template.Value.{Value, Items, Fields, end, field}
use nodejs_template.Manager.{
  Functions, When, absent, path, paths, pattern_of, predicate, FlowOption, FirstArgument,
  value_found, is_present, all_present, matches, fits_pattern, Verdict, fits, skipped, invalid_type,
  fits_if, decision, CallOutcome, handled, thrown, first_fitting, options_of, flow_manager,
}

pub data HasField : Fields → Text → Value → Type 0 where
  at_head : {rest : Fields} (key : Text) (value : Value) → HasField (field key value rest) key value
  further :
      {rest : Fields} {key k : Text} {value v : Value}
      → HasField rest key value
      → HasField (field k v rest) key value

abbrev pub PresentAt : Items → Option Text → Type 0
PresentAt args none = Unit
PresentAt args (some key) = is_present (value_found args key) ≡ true

-- The condition of an option, as the code reads it: without a condition, with a path, with all the
-- paths, with the expected value at each path, or by a predicate. A path is there when its value is
-- truthy or false, where the document asks for a truthy value; and since a value that is expected has
-- to be there as well, an option that expects a zero or an empty text is never met, strict or not.
abbrev pub Meets : Functions → Bool → Items → When → Type 0
Meets f strict args absent = Unit
Meets f strict args (path key) = (key ≡ []) ⊎ (is_present (value_found args key) ≡ true)
Meets f strict args (paths keys) = All (PresentAt args) keys
Meets f strict args (pattern_of fields) =
    (key : Text) (expected : Value)
    → HasField fields key expected
    → (is_present (value_found args key) ≡ true)
      × (matches f strict (value_found args key) expected ≡ fits)
Meets f strict args (predicate p) = p args ≡ true

fits_if_iff : (b : Bool) → (fits_if b ≡ fits) ↔ (b ≡ true)
unfolding fits_if
fits_if_iff b = ground arith

all_present_iff :
    (args : Items) (keys : List (Option Text))
    → (all_present args keys ≡ true) ↔ All (PresentAt args) keys
unfolding all_present
all_present_iff args [] = (λ h. tt, λ h. refl)
all_present_iff args (none ∷ keys) =
    let (there, back) = all_present_iff args keys in (λ h. (tt, there h), λ h. back h.1)
all_present_iff args (some key ∷ keys) =
    let (there, back) = all_present_iff args keys in
    (λ h. (ground arith, there (ground arith)), λ h. ground (arith, h.0, back h.1))

every_field :
    {P : Text → Value → Type 0} {k : Text} {v : Value} {rest : Fields}
    → P k v
    → ((key : Text) (value : Value) → HasField rest key value → P key value)
    → (key : Text) (value : Value) → HasField (field k v rest) key value
    → P key value
every_field first others j w (at_head key value) = first
every_field first others key value (further m) = others key value m

both_fit :
    (present : Bool) (this others : Verdict)
    → ((if present
          then elim this [ fits ↦ others | skipped ↦ skipped | invalid_type ↦ invalid_type ]
          else skipped)
        ≡ fits)
      ↔ ((present ≡ true) × (this ≡ fits)) × (others ≡ fits)
both_fit false this others = ground arith
both_fit true fits others = (λ h. ((refl, refl), h), λ h. h.1)
both_fit true skipped others = ground arith
both_fit true invalid_type others = ground arith

fits_pattern_iff :
    (f : Functions) (strict : Bool) (args : Items) (fields : Fields)
    → (fits_pattern f strict args fields ≡ fits) ↔ Meets f strict args (pattern_of fields)
unfolding fits_pattern
fits_pattern_iff f strict args end = (λ h key expected m. elim m [ ], λ h. refl)
fits_pattern_iff f strict args (field k v rest) =
    let (there, back) = fits_pattern_iff f strict args rest in
    let found = value_found args k in
    let (split, join) =
      both_fit (is_present found) (matches f strict found v) (fits_pattern f strict args rest) in
    (
      λ h. every_field (split h).0 (there (split h).1),
      λ h. join (h k v (at_head k v), back (λ key expected m. h key expected (further m))),
    )

pub decision_iff :
    (f : Functions) (strict : Bool) (args : Items) (when : When)
    → (decision f strict args when ≡ fits) ↔ Meets f strict args when
unfolding decision fits_if
decision_iff f strict args absent = (λ h. tt, λ h. refl)
decision_iff f strict args (path []) = (λ h. inl refl, λ h. refl)
decision_iff f strict args (path (c ∷ s)) =
    (λ h. inr (ground arith), λ h. elim h [ inl e ↦ ground arith | inr e ↦ ground (arith, e) ])
decision_iff f strict args (paths keys) = ground (arith, all_present_iff args keys)
decision_iff f strict args (pattern_of fields) = fits_pattern_iff f strict args fields
decision_iff f strict args (predicate p) = fits_if_iff (p args)

-- The options come to the result of the handler of one that meets its condition, with all before it
-- passed over.
abbrev pub Chosen : {R : Type 0} → Functions → Items → List (FlowOption R) → R → Type 0
Chosen {R} f args options r =
    (before : List (FlowOption R)) × (option : FlowOption R) × (after : List (FlowOption R))
    × (options ≡ before ++ (option ∷ after))
    × All (λ o. decision f o.strict args o.when ≡ skipped) before
    × Meets f option.strict args option.when
    × (option.handler args ≡ r)

module _ {R : Type 0} (f : Functions) (args : Items) where
  handled-cases :
      (this : Verdict) (mine r : R) (others : CallOutcome R)
      → elim this [ fits ↦ handled mine | skipped ↦ others | invalid_type ↦ thrown ] ≡ handled r
      → ((this ≡ fits) × (mine ≡ r)) ⊎ ((this ≡ skipped) × (others ≡ handled r))
  handled-cases fits mine r others h = inl (refl, ground arith)
  handled-cases skipped mine r others h = inr (refl, h)
  handled-cases invalid_type mine r others h = cc

  first_fitting-Chosen :
      (options : List (FlowOption R)) (r : R)
      → first_fitting f args options ≡ handled r
      → Chosen f args options r
  unfolding first_fitting
  first_fitting-Chosen [] r h = cc
  first_fitting-Chosen (option ∷ options) r h =
      let this = decision f option.strict args option.when in
      elim (handled-cases this (option.handler args) r (first_fitting f args options) h) [
        | inl (e, result) ↦ (
          [],
          option,
          options,
          refl,
          tt,
          (decision_iff f option.strict args option.when).0 e,
          result,
        )
        | inr (e, h') ↦
            let (before, o, after, split, passed, m, result) = first_fitting-Chosen options r h' in
            (option ∷ before, o, after, ap (λ os. option ∷ os) split, (e, passed), m, result)
      ]

  Chosen-first_fitting :
      (before : List (FlowOption R)) (option : FlowOption R) (after : List (FlowOption R))
      → All (λ o. decision f o.strict args o.when ≡ skipped) before
      → Meets f option.strict args option.when
      → first_fitting f args (before ++ (option ∷ after)) ≡ handled (option.handler args)
  unfolding first_fitting
  Chosen-first_fitting [] option after h m =
      ground (arith, (decision_iff f option.strict args option.when).1 m)
  Chosen-first_fitting (o ∷ before) option after h m =
      ground (arith, h.0, Chosen-first_fitting before option after h.1 m)

  -- A call of the flow manager comes to the result r exactly when r is what the handler of the
  -- first option that is not passed over gives, and that option's condition is met in the sense of
  -- `Meets`, which is that of the code and not of its document where a path has false, or where zero
  -- or an empty text is expected.
  pub flow_manager-handled_iff :
      (arg1 : FirstArgument R) (rest : List (FlowOption R)) (r : R)
      → (flow_manager f arg1 rest args ≡ handled r) ↔ Chosen f args (options_of arg1 rest) r
  unfolding flow_manager
  flow_manager-handled_iff arg1 rest r = (
    first_fitting-Chosen (options_of arg1 rest) r,
    λ (before, option, after, e, h, m, result).
        ap (first_fitting f args) e
        ∙ (Chosen-first_fitting before option after h m ∙ ap handled result),
  )
