-- ===== src/Manager/Falsy.antt =====
-- An option that expects a falsy value.
use nodejs_template.Prelude.{[], ◌∷◌, ◌≡◌, ◌≢◌, refl, true, false, arith}
use nodejs_template.Text.{Text, text}
use nodejs_template.Value.{
  Value, Items, Fields, undefined, null, bool_true, bool_false, num, str, date, arr, obj,
}
use nodejs_template.Manager.{
  Functions, pattern_of, value_found, is_present, is_object, strict_eq, matches, fits, decision,
}
use nodejs_template.Manager.Choice.{HasField, decision_iff}

-- A value that equals zero or the empty text strictly is not present.
strict_eq-zero :
    (found : Value) → strict_eq found (num (text "0")) ≡ true → is_present found ≡ false
unfolding strict_eq is_present
strict_eq-zero undefined h = refl
strict_eq-zero null h = refl
strict_eq-zero bool_true h = ground arith
strict_eq-zero bool_false h = ground arith
strict_eq-zero (num s) h = ground arith
strict_eq-zero (str []) h = refl
strict_eq-zero (str (c ∷ s)) h = ground arith
strict_eq-zero (date s) h = ground arith
strict_eq-zero (arr items) h = ground arith
strict_eq-zero (obj fields) h = ground arith

-- A strict option that expects zero at a path never fits, whatever the arguments and whatever else
-- it expects: also when zero stands at the path.
decision-zero :
    (f : Functions) (args : Items) (fields : Fields) (key : Text)
    → HasField fields key (num (text "0"))
    → decision f true args (pattern_of fields) ≢ fits
unfolding matches is_object
decision-zero f args fields key m h =
    let (present, agrees) =
      (decision_iff f true args (pattern_of fields)).0 h key (num (text "0")) m in
    ground (arith, strict_eq-zero (value_found args key), present, agrees)
