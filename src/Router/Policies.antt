-- ===== src/Router/Policies.antt =====
-- backend/src/routing/policies.py, `PolicyKey` of voice_runtime/types.py, and `_get_policies` of
-- api/routes/calls.py.
pub mod Total
use event_driven_ai_voice.Prelude.{
  Text, List, Option, [], none, some, ◌∷◌, codes, strip, ◌++◌, is_some, if◌then◌else◌, lookup,
}

pub data PolicyKey : Type 0 where
  greeting handoff_offer guardrail_disallowed guardrail_out_of_scope clarify_department : PolicyKey

unfoldable pub policy_value : PolicyKey → Text
policy_value greeting = codes "greeting"
policy_value handoff_offer = codes "handoff_offer"
policy_value guardrail_disallowed = codes "guardrail_disallowed"
policy_value guardrail_out_of_scope = codes "guardrail_out_of_scope"
policy_value clarify_department = codes "clarify_department"

-- The members, in the order of the class.
abbrev pub policy_keys : List PolicyKey
policy_keys =
    greeting ∷ handoff_offer ∷ guardrail_disallowed ∷ guardrail_out_of_scope ∷ clarify_department
    ∷ []

pub record PoliciesRegistry : Type 0 where
  pub base_system : Text
  pub policies : List (Text × Text)

-- None where the source raises `KeyError`.
unfoldable pub get_instructions : PolicyKey → PoliciesRegistry → Option Text
unfolding lookup policy_value
get_instructions key registry = lookup (policy_value key) registry.policies

abbrev pub prompt_of : Text → Text → Option Text → Option Text
prompt_of base user_text none = none
prompt_of base user_text (some instructions) =
    some (base ++ (codes "\n\n" ++ (instructions ++ (codes "\n\nUser said: " ++ user_text))))

unfoldable pub build_prompt : PolicyKey → Text → PoliciesRegistry → Option Text
unfolding get_instructions
build_prompt key user_text registry =
    prompt_of registry.base_system user_text (get_instructions key registry)

-- The parsed policies.yaml: a missing key is none, and a policy is its `instructions`.
pub record PoliciesFile : Type 0 where
  pub base_system : Option Text
  pub policies : Option (List (Text × Option Text))

-- `FileNotFoundError`, the two `ValueError`s, and the `KeyError` of `v["instructions"]`.
pub data PoliciesError : Type 0 where
  file_not_found no_base_system no_instructions : PoliciesError
  missing_entry : PolicyKey → PoliciesError

pub data Policies (A : Type 0) : Type 0 where
  loaded : A → Policies A
  failed : PoliciesError → Policies A

infixl 5 ◌>>=◌
abbrev pub ◌>>=◌ : {A B : Type 0} → Policies A → (A → Policies B) → Policies B
loaded a >>= f = f a
failed e >>= f = failed e

-- `if not base_system`
abbrev pub require_base : Option Text → Policies Text
require_base none = failed no_base_system
require_base (some []) = failed no_base_system
require_base (some (c ∷ cs)) = loaded (c ∷ cs)

-- `data.get("policies", {})`
abbrev pub raw_policies : PoliciesFile → List (Text × Option Text)
raw_policies file = elim file.policies [ none ↦ [] | some raw ↦ raw ]

-- The loop over `PolicyKey`.
unfoldable pub check_keys : List PolicyKey → List (Text × Option Text) → Policies (Unit {0})
unfolding lookup policy_value
check_keys [] raw = loaded tt
check_keys (key ∷ keys) raw =
    let rest = check_keys keys raw in
    if is_some (lookup (policy_value key) raw) then rest else failed (missing_entry key)

-- `{k: v["instructions"] for k, v in raw_policies.items()}`
unfoldable pub instructions_of : List (Text × Option Text) → Policies (List (Text × Text))
instructions_of [] = loaded []
instructions_of ((k, none) ∷ raw) = failed no_instructions
instructions_of ((k, some v) ∷ raw) = do rest ← instructions_of raw; loaded ((k, v) ∷ rest)

-- None where there is no file.
unfoldable pub load_policies : Option PoliciesFile → Policies PoliciesRegistry
unfolding check_keys instructions_of strip
load_policies none = failed file_not_found
load_policies (some file) = do
  base ← require_base file.base_system
  _ ← check_keys policy_keys (raw_policies file)
  policies ← instructions_of (raw_policies file)
  loaded (record { base_system = strip base; policies = policies })

-- `_get_policies` while `set_shared_dependencies` has not run.
abbrev pub stub_policies : PoliciesRegistry
stub_policies = record {
  base_system = codes "You are a helpful voice assistant.";
  policies =
      (codes "greeting", codes "Greet the user warmly.")
      ∷ (codes "handoff_offer", codes "Offer to transfer to a specialist.")
      ∷ (codes "guardrail_disallowed", codes "Politely decline the request.")
      ∷ (codes "guardrail_out_of_scope", codes "Explain this is outside your scope.")
      ∷ (codes "clarify_department", codes "Ask which department they need.")
      ∷ [];
}

unfoldable pub get_policies : Option PoliciesRegistry → PoliciesRegistry
get_policies (some shared) = shared
get_policies none = stub_policies
