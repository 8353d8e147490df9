-- ===== src/Router/Action.antt =====
-- `parse_function_call_action` of backend/src/routing/model_router.py: what the model's function
-- call asks for. `orjson.loads` and `str.lower` are parameters.
use event_driven_ai_voice.Prelude.{
  Text, List, codes, if◌then◌else◌, not, strip, text_eq, ◌≡◌, Bool-cases, arith, inl, inr, lower,
}
use event_driven_ai_voice.Router.Config.{contains_text}

pub record ModelRouterAction : Type 0 where
  pub department : Text
  pub summary : Text

-- What `orjson.loads` gives: no JSON, a JSON value that is no object, or an object, of which the
-- code reads `str(args.get("department", ""))` and `str(args.get("summary", ""))`.
pub data Loaded : Type 0 where
  invalid_json : Loaded
  not_an_object : Loaded
  object : Text → Text → Loaded

-- The action, `None`, or the `AttributeError` of `.get` on a value that is no dict.
pub data Parsed : Type 0 where
  action : ModelRouterAction → Parsed
  rejected : Parsed
  attribute_error : Parsed

-- The part after `orjson.loads`; `lower` is `str.lower`.
action_of : (Text → Text) → Loaded → List Text → Parsed
unfolding contains_text strip
action_of lower invalid_json valid = rejected
action_of lower not_an_object valid = attribute_error
action_of lower (object department summary) valid =
    if contains_text (lower department) valid
    then Parsed.action (record { department = lower department; summary = strip summary })
    else rejected

unfoldable pub parse_function_call_action :
    (Text → Text) → (Text → Loaded) → Text → Text → List Text → Parsed
unfolding text_eq action_of
parse_function_call_action lower loads name arguments valid =
    if not (text_eq name (codes "route_to_specialist"))
    then rejected
    else action_of lower (loads arguments) valid

action_of-department :
    (lower : Text → Text) (l : Loaded) (valid : List Text) (a : ModelRouterAction)
    → action_of lower l valid ≡ Parsed.action a
    → (d : Text) × (a.department ≡ lower d)
unfolding action_of
action_of-department lower invalid_json valid a h = cc
action_of-department lower not_an_object valid a h = cc
action_of-department lower (object d s) valid a h =
    elim (Bool-cases (contains_text (lower d) valid)) [
      | inl known ↦ (d, ground arith)
      | inr unknown ↦ ground arith
    ]

-- The department of an action is a text in lower case.
pub parse-department :
    (lower : Text → Text) (loads : Text → Loaded) (name arguments : Text) (valid : List Text)
    (a : ModelRouterAction)
    → parse_function_call_action lower loads name arguments valid ≡ Parsed.action a
    → (d : Text) × (a.department ≡ lower d)
unfolding parse_function_call_action
parse-department lower loads name arguments valid a h =
    elim (Bool-cases (text_eq name (codes "route_to_specialist"))) [
      | inl named ↦ action_of-department lower (loads arguments) valid a (ground arith)
      | inr other ↦ ground arith
    ]
