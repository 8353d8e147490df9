-- ===== src/Types.antt =====
-- backend/src/voice_runtime/types.py and the output events of voice_runtime/events.py: the enums
-- that the actors share, and the messages that they hand to one another.
-- A UUID is the number that it stands for; a text of an id in a payload is read as an `IdText`.
use event_driven_ai_voice.Prelude.{ℕ, Text, Option, List}

abbrev pub Uuid : Type 0
Uuid = ℕ

pub data AgentState : Type 0 where
  idle routing speaking waiting_tools done cancelled error : AgentState

pub AgentState-discrete : Discrete AgentState
AgentState-discrete = hlevel

pub data TurnState : Type 0 where
  open_turn finalized cancelled : TurnState

pub data VoiceKind : Type 0 where
  filler response : VoiceKind

pub data VoiceState : Type 0 where
  starting speaking completed cancelled error : VoiceState

pub data ToolState : Type 0 where
  running succeeded failed cancelled timeout : ToolState

pub data CallStatus : Type 0 where
  active ended : CallStatus

pub data EventSource : Type 0 where
  realtime turn_manager agent coordinator tool_exec timer : EventSource

-- Why a turn, a generation or a voice was cancelled.
pub data CancelReason : Type 0 where
  barge_in no_transcript rapid_successive_turn filler_max_duration : CancelReason

-- What `UUID(text)` makes of a text: the empty text is tested for before, any other text is an id
-- or raises `ValueError`.
pub data IdText : Type 0 where
  absent : IdText
  canonical : Uuid → IdText
  malformed : IdText

pub data ResponseSource : Type 0 where
  router specialist : ResponseSource

-- A chat message: its role is `user` or `assistant`.
pub data Role : Type 0 where
  user assistant : Role

pub record Message : Type 0 where
  pub role : Role
  pub content : Text

-- A tool offered to the model: name, description, and the values of its `department` argument.
pub record ToolDefinition : Type 0 where
  pub name : Text
  pub description : Text
  pub departments : List Text

-- A `response.create` payload: `tools` is empty where the key is missing, and then there is no
-- `tool_choice` either.
pub record ResponseCreate : Type 0 where
  pub instructions : Text
  pub tools : List ToolDefinition

-- `RealtimeVoiceStart.prompt`: a text to speak, or a whole payload.
pub data Prompt : Type 0 where
  say : Text → Prompt
  payload : ResponseCreate → Prompt

pub record RealtimeVoiceStart : Type 0 where
  pub call_id : Uuid
  pub agent_generation_id : Option Uuid
  pub voice_generation_id : Uuid
  pub prompt : Prompt
  pub ts : ℕ
  pub response_source : ResponseSource

pub record RealtimeVoiceCancel : Type 0 where
  pub call_id : Uuid
  pub voice_generation_id : Uuid
  pub reason : CancelReason
  pub ts : ℕ

pub record CancelAgentGeneration : Type 0 where
  pub call_id : Uuid
  pub agent_generation_id : Uuid
  pub reason : CancelReason
  pub ts : ℕ

pub data OutputEvent : Type 0 where
  voice_start : RealtimeVoiceStart → OutputEvent
  voice_cancel : RealtimeVoiceCancel → OutputEvent
  cancel_agent : CancelAgentGeneration → OutputEvent

pub record AgentStateChanged : Type 0 where
  pub call_id : Uuid
  pub agent_generation_id : Uuid
  pub state : AgentState
  pub ts : ℕ

pub record HumanTurnStarted : Type 0 where
  pub call_id : Uuid
  pub turn_id : Uuid
  pub ts : ℕ

pub record HumanTurnFinalized : Type 0 where
  pub call_id : Uuid
  pub turn_id : Uuid
  pub text : Text
  pub ts : ℕ

pub record HumanTurnCancelled : Type 0 where
  pub call_id : Uuid
  pub turn_id : Uuid
  pub reason : CancelReason
  pub ts : ℕ

pub data TurnEvent : Type 0 where
  turn_started : HumanTurnStarted → TurnEvent
  turn_finalized : HumanTurnFinalized → TurnEvent
  turn_cancelled : HumanTurnCancelled → TurnEvent
