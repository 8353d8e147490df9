-- ===== src/Tests/Routing.antt =====
-- Concrete configurations and calls of the router and of the specialists.
use event_driven_ai_voice.Specialist.Reply.{IsSilent, run_specialist_lem}
use event_driven_ai_voice.Prelude.{
  ℕ, List, Text, codes, none, refl, some, [], ap, arith, false, is_empty, lower, lower_idem, strip,
  text_eq, ◌++◌, ◌∷◌, ◌≡◌, ◌≢◌, ◌⊎◌,
}
use event_driven_ai_voice.Router.Config.{
  AgentConfig, Agents, RouterPromptConfig, agent_names, contains_text,
}
use event_driven_ai_voice.Router.Load.{
  RawConfig, RawAgent, load-loaded, load_router_prompt_from_dict, loaded, raw_names,
}
use event_driven_ai_voice.Router.Action.{
  Loaded, object, Parsed, parse_function_call_action, ModelRouterAction,
}
use event_driven_ai_voice.Router.Departments.{capital_department_unreachable}
use event_driven_ai_voice.Types.{Message, assistant, user}
use event_driven_ai_voice.Specialist.{
  billing, TextModel, replied, literal, run_specialist, create, customer_request,
  department_system_prompt, format_history_block,
}

abbrev pub raw_agent : RawAgent
raw_agent = record {
  description = some (codes "Invoices");
  triggers = none;
  fillers = some (codes "One moment." ∷ []);
  tool = none;
}

abbrev pub raw_config : RawConfig
raw_config = record {
  identity = some (codes "You answer calls.");
  agents = some ((codes "billing", raw_agent) ∷ []);
  guardrails = some (codes "Be brief." ∷ []);
  language_instruction = some (codes "Speak English.");
}

abbrev agent : AgentConfig
agent = record {
  description = codes "Invoices";
  triggers = [];
  fillers = codes "One moment." ∷ [];
  tool = none;
}

abbrev agents : Agents
agents = (codes "billing", agent) ∷ []

abbrev config : RouterPromptConfig
config = record {
  identity = codes "You answer calls.";
  agents = agents;
  guardrails = codes "Be brief." ∷ [];
  language_instruction = codes "Speak English.";
}

config-loaded : load_router_prompt_from_dict raw_config ≡ loaded config
unfolding load_router_prompt_from_dict
config-loaded = refl

load-loaded_example :
    (raw_config.identity ≡ some config.identity)
    × (is_empty config.identity ≡ false)
    × (raw_config.guardrails ≡ some config.guardrails)
    × (is_empty config.guardrails ≡ false)
    × (raw_config.language_instruction ≡ some config.language_instruction)
    × (is_empty config.language_instruction ≡ false)
    × ((rs : List (Text × RawAgent)) × (raw_config.agents ≡ some rs)
        × (is_empty rs ≡ false)
        × (agent_names config.agents ≡ raw_names rs))
load-loaded_example = load-loaded raw_config config-loaded

-- The model asks for billing, in capital letters.
abbrev loads : Text → Loaded
loads arguments = object (codes "BILLING") (codes " a refund ")

-- The same, as the department is spelled.
abbrev loads_plain : Text → Loaded
loads_plain arguments = object (codes "billing") (codes " a refund ")

abbrev refund : ModelRouterAction
refund = record { department = codes "billing"; summary = codes "a refund" }

billing_asked :
    parse_function_call_action lower loads (codes "route_to_specialist") [] (agent_names agents)
    ≡ Parsed.action refund
unfolding parse_function_call_action agent_names lower strip text_eq contains_text
billing_asked = refl

abbrev head_code : Text → ℕ
head_code [] = 0
head_code (c ∷ cs) = c

-- Its first letter becomes a small one.
capital : lower (codes "Billing") ≢ codes "Billing"
unfolding lower
capital h =
    let first : head_code (lower (codes "Billing")) ≡ head_code (codes "Billing") =
      ap head_code h in
    omega (arith, first)

capital_department_unreachable_example : refund.department ≢ codes "Billing"
capital_department_unreachable_example =
    capital_department_unreachable lower lower_idem loads (codes "route_to_specialist") []
      (codes "Billing") (agent_names agents) refund capital billing_asked

abbrev history : List Message
history =
    record { role = user; content = codes "hello" }
    ∷ record { role = assistant; content = codes "hi" }
    ∷ []

-- A text model that repeats the request.
abbrev echo : Text → Text → TextModel
echo prompt message = replied (some message)

run_specialist_lem_example :
    let prompt = department_system_prompt billing in
    let message = format_history_block history ++ customer_request (codes "a refund") in
    ((content : Text) × (echo prompt message ≡ replied (some content))
      × (is_empty (strip content) ≡ false)
      × (run_specialist echo billing (codes "a refund") history ≡ literal (strip content)))
    ⊎ (IsSilent (echo prompt message)
        × (run_specialist echo billing (codes "a refund") history
            ≡ create (record { instructions = prompt ++ message; tools = [] })))
run_specialist_lem_example = run_specialist_lem echo billing (codes "a refund") history
