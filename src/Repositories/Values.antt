-- ===== src/Repositories/Values.antt =====
-- The enums of backend/src/voice_runtime/types.py as column values: `.value`, and the class called
-- with a text.
use event_driven_ai_voice.Prelude.{
  List, Option, Text, [], codes, if◌then◌else◌, none, refl, some, text_eq, ◌∷◌, ◌≡◌,
}
use event_driven_ai_voice.Types.{
  AgentState, TurnState, VoiceKind, VoiceState, idle, open_turn, routing, waiting_tools, CallStatus,
  ToolState,
}
use event_driven_ai_voice.Entities.{
  AgentGenerationOutcome, guided_response, handoff, noop, tool_response,
}

unfoldable pub turn_state_value : TurnState → Text
turn_state_value open_turn = codes "open"
turn_state_value TurnState.finalized = codes "finalized"
turn_state_value TurnState.cancelled = codes "cancelled"

unfoldable pub agent_state_value : AgentState → Text
agent_state_value idle = codes "idle"
agent_state_value routing = codes "routing"
agent_state_value AgentState.speaking = codes "speaking"
agent_state_value waiting_tools = codes "waiting_tools"
agent_state_value AgentState.done = codes "done"
agent_state_value AgentState.cancelled = codes "cancelled"
agent_state_value AgentState.error = codes "error"

unfoldable pub voice_kind_value : VoiceKind → Text
voice_kind_value VoiceKind.filler = codes "filler"
voice_kind_value VoiceKind.response = codes "response"

unfoldable pub voice_state_value : VoiceState → Text
voice_state_value VoiceState.starting = codes "starting"
voice_state_value VoiceState.speaking = codes "speaking"
voice_state_value VoiceState.completed = codes "completed"
voice_state_value VoiceState.cancelled = codes "cancelled"
voice_state_value VoiceState.error = codes "error"

unfoldable pub call_status_value : CallStatus → Text
call_status_value CallStatus.active = codes "active"
call_status_value CallStatus.ended = codes "ended"

unfoldable pub tool_state_value : ToolState → Text
tool_state_value ToolState.running = codes "running"
tool_state_value ToolState.succeeded = codes "succeeded"
tool_state_value ToolState.failed = codes "failed"
tool_state_value ToolState.cancelled = codes "cancelled"
tool_state_value ToolState.timeout = codes "timeout"

unfoldable pub outcome_value : AgentGenerationOutcome → Text
outcome_value guided_response = codes "guided_response"
outcome_value tool_response = codes "tool_response"
outcome_value handoff = codes "handoff"
outcome_value noop = codes "noop"

-- The member with a value, or none where the class raises `ValueError`.
unfoldable pub of_value : {A : Type 0} → (A → Text) → List A → Text → Option A
unfolding text_eq
of_value value [] t = none
of_value value (a ∷ rest) t = if text_eq (value a) t then some a else of_value value rest t

unfoldable pub turn_state_of : Text → Option TurnState
unfolding of_value turn_state_value
turn_state_of =
    of_value turn_state_value (open_turn ∷ TurnState.finalized ∷ TurnState.cancelled ∷ [])

unfoldable pub agent_state_of : Text → Option AgentState
unfolding of_value agent_state_value
agent_state_of = of_value agent_state_value (
    idle ∷ routing ∷ AgentState.speaking ∷ waiting_tools ∷ AgentState.done ∷ AgentState.cancelled
    ∷ AgentState.error ∷ [])

unfoldable pub voice_kind_of : Text → Option VoiceKind
unfolding of_value voice_kind_value
voice_kind_of = of_value voice_kind_value (VoiceKind.filler ∷ VoiceKind.response ∷ [])

unfoldable pub voice_state_of : Text → Option VoiceState
unfolding of_value voice_state_value
voice_state_of = of_value voice_state_value (
    VoiceState.starting ∷ VoiceState.speaking ∷ VoiceState.completed ∷ VoiceState.cancelled
    ∷ VoiceState.error ∷ [])

unfoldable pub outcome_of : Text → Option AgentGenerationOutcome
unfolding of_value outcome_value
outcome_of = of_value outcome_value (guided_response ∷ tool_response ∷ handoff ∷ noop ∷ [])

unfoldable pub call_status_of : Text → Option CallStatus
unfolding of_value call_status_value
call_status_of = of_value call_status_value (CallStatus.active ∷ CallStatus.ended ∷ [])

unfoldable pub tool_state_of : Text → Option ToolState
unfolding of_value tool_state_value
tool_state_of = of_value tool_state_value (
    ToolState.running ∷ ToolState.succeeded ∷ ToolState.failed ∷ ToolState.cancelled
    ∷ ToolState.timeout ∷ [])

pub turn_state_of-value : (s : TurnState) → turn_state_of (turn_state_value s) ≡ some s
unfolding turn_state_of
turn_state_of-value open_turn = refl
turn_state_of-value TurnState.finalized = refl
turn_state_of-value TurnState.cancelled = refl

pub agent_state_of-value : (s : AgentState) → agent_state_of (agent_state_value s) ≡ some s
unfolding agent_state_of
agent_state_of-value idle = refl
agent_state_of-value routing = refl
agent_state_of-value AgentState.speaking = refl
agent_state_of-value waiting_tools = refl
agent_state_of-value AgentState.done = refl
agent_state_of-value AgentState.cancelled = refl
agent_state_of-value AgentState.error = refl

pub voice_kind_of-value : (k : VoiceKind) → voice_kind_of (voice_kind_value k) ≡ some k
unfolding voice_kind_of
voice_kind_of-value VoiceKind.filler = refl
voice_kind_of-value VoiceKind.response = refl

pub voice_state_of-value : (s : VoiceState) → voice_state_of (voice_state_value s) ≡ some s
unfolding voice_state_of
voice_state_of-value VoiceState.starting = refl
voice_state_of-value VoiceState.speaking = refl
voice_state_of-value VoiceState.completed = refl
voice_state_of-value VoiceState.cancelled = refl
voice_state_of-value VoiceState.error = refl

pub outcome_of-value : (o : AgentGenerationOutcome) → outcome_of (outcome_value o) ≡ some o
unfolding outcome_of
outcome_of-value guided_response = refl
outcome_of-value tool_response = refl
outcome_of-value handoff = refl
outcome_of-value noop = refl

pub call_status_of-value : (s : CallStatus) → call_status_of (call_status_value s) ≡ some s
unfolding call_status_of
call_status_of-value CallStatus.active = refl
call_status_of-value CallStatus.ended = refl

pub tool_state_of-value : (s : ToolState) → tool_state_of (tool_state_value s) ≡ some s
unfolding tool_state_of
tool_state_of-value ToolState.running = refl
tool_state_of-value ToolState.succeeded = refl
tool_state_of-value ToolState.failed = refl
tool_state_of-value ToolState.cancelled = refl
tool_state_of-value ToolState.timeout = refl
