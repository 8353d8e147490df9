-- ===== src/Router/Policies/Total.antt =====
-- No policy is missing: backend/src/routing/policies.py and `_get_policies` of api/routes/calls.py.
use event_driven_ai_voice.Prelude.{
  Bool, List, Option, Text, [], false, if◌then◌else◌, is_some, none, refl, some, true, ◌∷◌, ◌≡◌, ap,
  sym, text_eq, ◌∙◌, lookup,
}
use event_driven_ai_voice.Router.Policies.{
  Policies, PoliciesRegistry, PoliciesFile, loaded, failed, ◌>>=◌, get_instructions, get_policies,
  policy_keys, greeting, handoff_offer, guardrail_disallowed, guardrail_out_of_scope,
  clarify_department, raw_policies, PolicyKey, load_policies, check_keys, instructions_of,
  policy_value, build_prompt, prompt_of, missing_entry, require_base,
}

bind_loaded :
    {A B : Type 0} (m : Policies A) (f : A → Policies B) {b : B}
    → (m >>= f) ≡ loaded b
    → (a : A) × (m ≡ loaded a) × (f a ≡ loaded b)
bind_loaded (loaded a) f h = (a, refl, h)
bind_loaded (failed e) f h = cc

loaded_inj : {A : Type 0} (a b : A) → loaded a ≡ loaded b → a ≡ b
loaded_inj a b e = cc

entry_there :
    (b : Bool) (rest : Policies (Unit {0})) (key : PolicyKey)
    → (if b then rest else failed (missing_entry key)) ≡ loaded tt
    → (b ≡ true) × (rest ≡ loaded tt)
entry_there true rest key h = (refl, h)
entry_there false rest key h = cc

abbrev has_entry : List (Text × Option Text) → PolicyKey → Bool
has_entry raw key = is_some (lookup (policy_value key) raw)

check-cons :
    (key : PolicyKey) (keys : List PolicyKey) (raw : List (Text × Option Text))
    → check_keys (key ∷ keys) raw ≡ loaded tt
    → (has_entry raw key ≡ true) × (check_keys keys raw ≡ loaded tt)
unfolding check_keys
check-cons key keys raw h = entry_there (has_entry raw key) (check_keys keys raw) key h

check-policy_keys :
    (key : PolicyKey) (raw : List (Text × Option Text))
    → check_keys policy_keys raw ≡ loaded tt
    → has_entry raw key ≡ true
check-policy_keys key raw h =
    let a = check-cons greeting _ raw h in
    let b = check-cons handoff_offer _ raw a.1 in
    let c = check-cons guardrail_disallowed _ raw b.1 in
    let d = check-cons guardrail_out_of_scope _ raw c.1 in
    let e = check-cons clarify_department _ raw d.1 in
    elim key as (λ k. has_entry raw k ≡ true) [
      | greeting ↦ a.0
      | handoff_offer ↦ b.0
      | guardrail_disallowed ↦ c.0
      | guardrail_out_of_scope ↦ d.0
      | clarify_department ↦ e.0
    ]

found_later :
    (b : Bool) (v : Text) (t : Text) (raw : Option (Option Text)) (rest : Option Text)
    → (is_some raw ≡ true → (w : Text) × (raw ≡ some (some w)) × (rest ≡ some w))
    → is_some (if b then some (some v) else raw) ≡ true
    → (w : Text) × ((if b then some (some v) else raw) ≡ some (some w))
      × ((if b then some v else rest) ≡ some w)
found_later true v t raw rest ih h = (v, refl, refl)
found_later false v t raw rest ih h = ih h

lookup-instructions_of :
    (t : Text) (raw : List (Text × Option Text)) (policies : List (Text × Text))
    → instructions_of raw ≡ loaded policies
    → is_some (lookup t raw) ≡ true
    → (v : Text) × (lookup t raw ≡ some (some v)) × (lookup t policies ≡ some v)
unfolding lookup instructions_of
lookup-instructions_of t [] policies e h = cc
lookup-instructions_of t ((k, none) ∷ raw) policies e h = cc
lookup-instructions_of t ((k, some v) ∷ raw) policies e h =
    let (rest, loads, all) = bind_loaded (instructions_of raw) _ e in
    let eq : (k, v) ∷ rest ≡ policies = loaded_inj _ _ all in
    let (w, there, gets) =
      found_later (text_eq k t) v t (lookup t raw) (lookup t rest)
        (lookup-instructions_of t raw rest loads) h in
    (w, there, ap (lookup t) (sym eq) ∙ gets)

-- Once policies.yaml is loaded, the instructions of every policy key are those that the file has under
-- the key, and every prompt is built: neither `get_instructions` nor `build_prompt` raises `KeyError`.
pub load-get_instructions :
    (file : PoliciesFile) (registry : PoliciesRegistry) (key : PolicyKey) (user_text : Text)
    → load_policies (some file) ≡ loaded registry
    → (v : Text) × (lookup (policy_value key) (raw_policies file) ≡ some (some v))
      × (get_instructions key (get_policies (some registry)) ≡ some v)
      × (build_prompt key user_text registry ≡ prompt_of registry.base_system user_text (some v))
unfolding load_policies get_instructions get_policies build_prompt
load-get_instructions file registry key user_text e =
    let (base, _, rest) = bind_loaded (require_base file.base_system) _ e in
    let (_, checked, rest') = bind_loaded (check_keys policy_keys (raw_policies file)) _ rest in
    let (policies, read, all) = bind_loaded (instructions_of (raw_policies file)) _ rest' in
    let (v, there, gets) =
      lookup-instructions_of (policy_value key) (raw_policies file) policies read
        (check-policy_keys key (raw_policies file) checked) in
    let found : get_instructions key registry ≡ some v =
      ap (λ (r : PoliciesRegistry). lookup (policy_value key) r.policies) (sym (loaded_inj _ _ all))
      ∙ gets in
    (v, there, found, ap (prompt_of registry.base_system user_text) found)
