-- ===== src/Router/Departments.antt =====
-- Which agents of the configuration the model's function call can reach (model_router.py).
use event_driven_ai_voice.Prelude.{Text, List, lower, ◌≡◌, ◌≢◌}
use event_driven_ai_voice.Router.Action.{
  ModelRouterAction, Loaded, Parsed, parse_function_call_action, parse-department,
}

-- Where lowering a text twice gives the same as lowering it once: whatever the model calls, and
-- whatever departments are valid, no action names a department that is not spelled in lower case.
pub capital_department_unreachable :
    (lower : Text → Text)
    → ((s : Text) → lower (lower s) ≡ lower s)
    → (loads : Text → Loaded) (name arguments d : Text) (valid : List Text) (a : ModelRouterAction)
    → lower d ≢ d
    → parse_function_call_action lower loads name arguments valid ≡ Parsed.action a
    → a.department ≢ d
capital_department_unreachable lower lower-lower loads name arguments d valid a capital h same =
    let (d', made) = parse-department lower loads name arguments valid a h in
    capital (rw (← same, made) (lower-lower d'))
