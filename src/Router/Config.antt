-- ===== src/Router/Config.antt =====
-- The dataclasses of backend/src/routing/model_router.py, and the dict of agents.
use event_driven_ai_voice.Prelude.{
  Text, Bool, List, Option, [], arith, false, if◌then◌else◌, is_some, none, refl, some, text_eq,
  ◌||◌, ◌∷◌, ◌≡◌,
}

pub record ToolConfig : Type 0 where
  pub type : Text
  pub name : Option Text
  pub url : Option Text
  pub auth : Option Text

pub record AgentConfig : Type 0 where
  pub description : Text
  pub triggers : List Text
  pub fillers : List Text
  pub tool : Option ToolConfig

abbrev pub Agents : Type 0
Agents = List (Text × AgentConfig)

pub record RouterPromptConfig : Type 0 where
  pub identity : Text
  pub agents : Agents
  pub guardrails : List Text
  pub language_instruction : Text

-- `agents.keys()`
unfoldable pub agent_names : Agents → List Text
agent_names [] = []
agent_names ((name, _) ∷ agents) = name ∷ agent_names agents

abbrev pub valid_departments : RouterPromptConfig → List Text
valid_departments c = agent_names c.agents

-- `text in texts`
unfoldable pub contains_text : Text → List Text → Bool
unfolding text_eq
contains_text t [] = false
contains_text t (s ∷ ss) = text_eq t s || contains_text t ss

-- `agents.get(name)`
unfoldable pub get_agent : Text → Agents → Option AgentConfig
unfolding text_eq
get_agent t [] = none
get_agent t ((name, agent) ∷ agents) = if text_eq t name then some agent else get_agent t agents

-- An agent is found exactly under the names that the router offers.
pub get_agent-contains :
    (t : Text) (agents : Agents)
    → is_some (get_agent t agents) ≡ contains_text t (agent_names agents)
unfolding get_agent contains_text agent_names
get_agent-contains t [] = refl
get_agent-contains t ((name, agent) ∷ agents) = ground (arith, get_agent-contains t agents)
