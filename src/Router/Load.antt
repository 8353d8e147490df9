-- ===== src/Router/Load.antt =====
-- `load_router_prompt_from_dict` of backend/src/routing/model_router.py: reading the router's
-- configuration from parsed JSON, of which a missing key is `none`.
use event_driven_ai_voice.Prelude.{
  Text, List, Option, [], arith, none, some, ◌∷◌, ◌≡◌, ap, false, is_empty, refl,
}
use event_driven_ai_voice.Router.Config.{
  ToolConfig, AgentConfig, Agents, RouterPromptConfig, agent_names,
}

pub record RawTool : Type 0 where
  pub type : Option Text
  pub name : Option Text
  pub url : Option Text
  pub auth : Option Text

pub record RawAgent : Type 0 where
  pub description : Option Text
  pub triggers : Option (List Text)
  pub fillers : Option (List Text)
  pub tool : Option RawTool

pub record RawConfig : Type 0 where
  pub identity : Option Text
  pub agents : Option (List (Text × RawAgent))
  pub guardrails : Option (List Text)
  pub language_instruction : Option Text

pub data Field : Type 0 where
  identity agents guardrails language_instruction : Field

-- `ValueError` names the missing field; a `KeyError` comes from `agent_data["description"]` or
-- `tool_data["type"]`.
pub data LoadError : Type 0 where
  missing_field : Field → LoadError
  key_error : LoadError

pub data Load {ℓ} (A : Type ℓ) : Type ℓ where
  loaded : A → Load A
  failed : LoadError → Load A

infixl 5 ◌>>=◌
abbrev pub ◌>>=◌ {ℓ κ} : {A : Type ℓ} {B : Type κ} → Load A → (A → Load B) → Load B
loaded a >>= f = f a
failed e >>= f = failed e

-- `field_name not in data or not data[field_name]`
abbrev pub require {ℓ} : {A : Type ℓ} → Field → Option (List A) → Load (List A)
require f none = failed (missing_field f)
require f (some []) = failed (missing_field f)
require f (some (x ∷ xs)) = loaded (x ∷ xs)

-- `d[key]`
abbrev pub subscript {ℓ} : {A : Type ℓ} → Option A → Load A
subscript none = failed key_error
subscript (some a) = loaded a

-- `d.get(key, [])`
abbrev pub or_empty {ℓ} : {A : Type ℓ} → Option (List A) → List A
or_empty none = []
or_empty (some xs) = xs

unfoldable pub load_tool : Option RawTool → Load (Option ToolConfig)
load_tool none = loaded none
load_tool (some t) = do
  kind ← subscript t.type
  loaded (some (record { type = kind; name = t.name; url = t.url; auth = t.auth }))

unfoldable pub load_agent : RawAgent → Load AgentConfig
unfolding load_tool
load_agent a = do
  tool ← load_tool a.tool
  description ← subscript a.description
  loaded (record {
    description = description;
    triggers = or_empty a.triggers;
    fillers = or_empty a.fillers;
    tool = tool;
  })

unfoldable pub load_agents : List (Text × RawAgent) → Load Agents
unfolding load_agent
load_agents [] = loaded []
load_agents ((name, a) ∷ rest) = do
  config ← load_agent a
  configs ← load_agents rest
  loaded ((name, config) ∷ configs)

unfoldable pub load_router_prompt_from_dict : RawConfig → Load RouterPromptConfig
unfolding load_agents
load_router_prompt_from_dict raw = do
  id_text ← require Field.identity raw.identity
  raw_agents ← require Field.agents raw.agents
  rules ← require Field.guardrails raw.guardrails
  language ← require Field.language_instruction raw.language_instruction
  configs ← load_agents raw_agents
  loaded (record {
    identity = id_text;
    agents = configs;
    guardrails = rules;
    language_instruction = language;
  })

abbrev pub raw_names : List (Text × RawAgent) → List Text
raw_names [] = []
raw_names ((name, _) ∷ rest) = name ∷ raw_names rest

bind_loaded {ℓ κ} :
    {A : Type ℓ} {B : Type κ} (m : Load A) (f : A → Load B) {b : B}
    → (m >>= f) ≡ loaded b
    → (a : A) × (m ≡ loaded a) × (f a ≡ loaded b)
bind_loaded (loaded a) f h = (a, refl, h)
bind_loaded (failed e) f h = cc

require_loaded {ℓ} :
    {A : Type ℓ} (f : Field) (o : Option (List A)) {xs : List A}
    → require f o ≡ loaded xs
    → (o ≡ some xs) × (is_empty xs ≡ false)
require_loaded f none h = cc
require_loaded f (some []) h = cc
require_loaded f (some (x ∷ xs)) h = ground arith

load_agents-names :
    (rs : List (Text × RawAgent)) {configs : Agents}
    → load_agents rs ≡ loaded configs
    → agent_names configs ≡ raw_names rs
unfolding load_agents agent_names
load_agents-names [] h = ground arith
load_agents-names ((name, a) ∷ rest) {configs} h =
    let (config, _, h') = bind_loaded (load_agent a) _ h in
    let (others, rest_loaded, h'') = bind_loaded (load_agents rest) _ h' in
    let same : (name, config) ∷ others ≡ configs = cc in
    rw (← same) (ap (◌∷◌ name) (load_agents-names rest rest_loaded))

-- A configuration is loaded only with all four sections present and not empty; it holds their
-- values, and the names of its agents are those of the file, in order.
pub load-loaded :
    (raw : RawConfig) {c : RouterPromptConfig}
    → load_router_prompt_from_dict raw ≡ loaded c
    → (raw.identity ≡ some c.identity)
      × (is_empty c.identity ≡ false)
      × (raw.guardrails ≡ some c.guardrails)
      × (is_empty c.guardrails ≡ false)
      × (raw.language_instruction ≡ some c.language_instruction)
      × (is_empty c.language_instruction ≡ false)
      × ((rs : List (Text × RawAgent)) × (raw.agents ≡ some rs)
          × (is_empty rs ≡ false)
          × (agent_names c.agents ≡ raw_names rs))
unfolding load_router_prompt_from_dict
load-loaded raw {c} h =
    let (id_text, got_id, h₁) = bind_loaded (require Field.identity raw.identity) _ h in
    let (rs, got_agents, h₂) = bind_loaded (require Field.agents raw.agents) _ h₁ in
    let (rules, got_rules, h₃) = bind_loaded (require Field.guardrails raw.guardrails) _ h₂ in
    let (language, got_language, h₄) =
      bind_loaded (require Field.language_instruction raw.language_instruction) _ h₃ in
    let (configs, got_configs, h₅) = bind_loaded (load_agents rs) _ h₄ in
    let made : record {
      identity = id_text;
      agents = configs;
      guardrails = rules;
      language_instruction = language;
    }
        ≡ c =
      cc in
    let (i, i') = require_loaded Field.identity raw.identity got_id in
    let (a, a') = require_loaded Field.agents raw.agents got_agents in
    let (g, g') = require_loaded Field.guardrails raw.guardrails got_rules in
    let (l, l') = require_loaded Field.language_instruction raw.language_instruction got_language in
    rw (← made) (i, i', g, g', l, l', (rs, a, a', load_agents-names rs got_configs))
