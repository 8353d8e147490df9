-- ===== src/Router.antt =====
-- backend/src/routing/model_router.py: the prompts that are built from the router's configuration
-- and the conversation so far.
pub mod Config
pub mod Action
pub mod Load
pub mod Policies
pub mod Departments
use event_driven_ai_voice.Prelude.{
  ℕ, List, Option, Text, [], codes, get_elem?, if◌then◌else◌, is_empty, join, length, map, none,
  some, ◌++◌, ◌∷◌, ◌%◌,
}
use event_driven_ai_voice.Types.{Message, ResponseCreate, Role, ToolDefinition, assistant, user}
use Config.{ToolConfig, AgentConfig, Agents, RouterPromptConfig, agent_names, get_agent}

abbrev pub newline : Text
newline = codes "\n"

abbrev pub blank_line : Text
blank_line = codes "\n\n"

-- `SYSTEM_MECHANIC`
abbrev pub system_mechanic : Text
system_mechanic =
    codes "Classify every user message by calling route_to_specialist.\n"
    ++ codes "You MUST call this function for every message — no exceptions.\n\n"
    ++ codes "Use department=\"direct\" for messages you can answer yourself "
    ++ codes "(greetings, smalltalk, simple questions, guardrails, out-of-scope) "
    ++ codes "and a specialist department (sales/billing/support/retention) for "
    ++ codes "anything that requires specialist knowledge.\n\n"
    ++ codes "The function call itself is silent. The spoken reply is generated by a "
    ++ codes "separate follow-up response, so do not attempt to speak in this response."

-- The line of an agent in the tool's description.
agent_description : Text × AgentConfig → Text
unfolding join
agent_description (name, a) =
    codes "'" ++ name ++ codes "': " ++ a.description ++ codes " — " ++ join (codes "; ") a.triggers

unfoldable pub build_route_tool_definition : Agents → ToolDefinition
unfolding agent_description agent_names join
build_route_tool_definition agents = record {
  name = codes "route_to_specialist";
  description =
      codes "Classify every user message into one of these agents:\n"
      ++ join newline (map agent_description agents);
  departments = agent_names agents;
}

-- The routing rule of an agent.
routing_line : Text × AgentConfig → Text
unfolding join
routing_line (name, a) =
    codes "- "
    ++ name
    ++ codes ": "
    ++ a.description
    ++ codes ". Triggers: "
    ++ join (codes ", ") a.triggers

unfoldable pub assemble_system_instruction : RouterPromptConfig → Text
unfolding routing_line join
assemble_system_instruction c = join blank_line (
    system_mechanic
    ∷ c.identity
    ∷ join newline (codes "Routing rules:" ∷ map routing_line c.agents)
    ∷ join newline (map (λ g. codes "- " ++ g) c.guardrails)
    ∷ c.language_instruction
    ∷ [])

pub record RouterPromptBuilder : Type 0 where
  pub config : RouterPromptConfig
  pub tool_definition : ToolDefinition
  pub system_instruction : Text

unfoldable pub new : RouterPromptConfig → RouterPromptBuilder
new c = record {
  config = c;
  tool_definition = build_route_tool_definition c.agents;
  system_instruction = assemble_system_instruction c;
}

unfoldable pub get_department_tool : Text → RouterPromptBuilder → Option ToolConfig
get_department_tool department b = elim (get_agent department b.config.agents) [
  | none ↦ none
  | some a ↦ a.tool
]

-- `random.choice(xs)` takes the element at an index that it draws: `draw` modulo the length.
unfoldable pub choose : ℕ → List Text → Option Text
choose draw xs = get_elem? xs (draw % length xs)

unfoldable pub get_department_filler : ℕ → Text → RouterPromptBuilder → Option Text
unfolding choose
get_department_filler draw department b = elim (get_agent department b.config.agents) [
  | none ↦ none
  | some a ↦ if is_empty a.fillers then none else choose draw a.fillers
]

role_label : Role → Text
role_label user = codes "User"
role_label assistant = codes "Assistant"

-- `f"{label}: {content}"`
unfoldable pub history_line : Message → Text
unfolding role_label
history_line m = role_label m.role ++ codes ": " ++ m.content

unfoldable pub build_response_create : List Message → RouterPromptBuilder → ResponseCreate
unfolding history_line join
build_response_create history b = record {
  instructions =
      if is_empty history
      then b.system_instruction
      else (b.system_instruction
          ++ codes "\n\nConversation history:\n"
          ++ join newline (map history_line history));
  tools = b.tool_definition ∷ [];
}
