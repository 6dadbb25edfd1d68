-- ===== src/Manager/Tests.antt =====
-- Runs of the flow manager, and the theorems at concrete options. The functions that the code does
-- not define are concrete here.
use nodejs_template.Prelude.{◌≡◌, refl, true, false, [], ◌∷◌, ℕ}
use nodejs_template.Text.{Text, text}
use nodejs_template.Value.{
  Value, num, str, arr, obj, bool_false, nil, cons, Items, Fields, end, field,
}
use nodejs_template.Manager.{
  Functions, When, absent, path, pattern_of, FlowOption, one_option, fits, decision, handled,
  unhandled, flow_manager, options_of,
}
use nodejs_template.Manager.Choice.{flow_manager-handled_iff, Chosen}

-- `Number` and `String` of texts and numbers; two objects are never equal.
abbrev printed : Value → Text
printed (num s) = s
printed (str s) = s
printed value = []

abbrev functions : Functions
functions = record {
  number_of = printed;
  string_of = printed;
  json = printed;
  deep_equal = λ value other. false;
}

abbrev request : Fields
request =
    field (text "type") (str (text "PIX"))
      (field (text "count") (num (text "0")) (field (text "flag") bool_false end))

abbrev args : Items
args = cons (obj (field (text "body") (obj request) end)) (cons (arr nil) nil)

abbrev option_at : When → ℕ → FlowOption ℕ
option_at condition number = record { when = condition; strict = true; handler = λ given. number }

abbrev card : FlowOption ℕ
card = option_at (pattern_of (field (text "body.type") (str (text "CARD")) end)) 1

abbrev pix : FlowOption ℕ
pix = option_at (pattern_of (field (text "body.type") (str (text "PIX")) end)) 2

abbrev otherwise : FlowOption ℕ
otherwise = option_at absent 3

second_fits : flow_manager functions (one_option card) (pix ∷ otherwise ∷ []) args ≡ handled 2
unfolding flow_manager
second_fits = refl

none_fits : flow_manager functions (one_option card) [] args ≡ unhandled
unfolding flow_manager
none_fits = refl

-- A path to `false` is enough, and a path to zero is not.
false_is_present : decision functions false args (path (text "body.flag")) ≡ fits
unfolding decision
false_is_present = refl

zero_is_absent :
    flow_manager functions (one_option (option_at (path (text "body.count")) 1)) [] args ≡ unhandled
unfolding flow_manager
zero_is_absent = refl

flow_manager-handled_iff_example :
    Chosen functions args (options_of (one_option card) (pix ∷ otherwise ∷ [])) 2
flow_manager-handled_iff_example =
    (flow_manager-handled_iff functions args (one_option card) (pix ∷ otherwise ∷ []) 2).0
      second_fits

abbrev expects_zero : Fields
expects_zero =
    field (text "body.type") (str (text "PIX")) (field (text "body.count") (num (text "0")) end)
