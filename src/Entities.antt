-- ===== src/Entities.antt =====
-- backend/src/domain/models/entities.py: the entities that the repositories store.
use event_driven_ai_voice.Prelude.{ℕ, Option, Text}
use event_driven_ai_voice.Types.{
  Uuid, AgentState, CancelReason, TurnState, VoiceKind, VoiceState, CallStatus, ToolState,
}

-- A float, which is only carried, by its bits.
abbrev pub Float : Type 0
Float = ℕ

pub data AgentGenerationOutcome : Type 0 where
  guided_response tool_response handoff noop : AgentGenerationOutcome

pub record Turn : Type 0 where
  pub turn_id : Uuid
  pub call_id : Uuid
  pub seq : ℕ
  pub started_at : ℕ
  pub state : TurnState
  pub finalized_at : Option ℕ
  pub text_final : Option Text
  pub language : Option Text
  pub cancel_reason : Option CancelReason
  pub asr_confidence : Option Float

pub record AgentGeneration : Type 0 where
  pub agent_generation_id : Uuid
  pub call_id : Uuid
  pub turn_id : Uuid
  pub created_at : ℕ
  pub state : AgentState
  pub started_at : Option ℕ
  pub ended_at : Option ℕ
  pub route_a_label : Option Text
  pub route_a_confidence : Option Float
  pub policy_key : Option Text
  pub specialist : Option Text
  pub final_outcome : Option AgentGenerationOutcome
  pub cancel_reason : Option CancelReason
  pub error : Option Text

pub record VoiceGeneration : Type 0 where
  pub voice_generation_id : Uuid
  pub call_id : Uuid
  pub agent_generation_id : Option Uuid
  pub turn_id : Uuid
  pub kind : VoiceKind
  pub state : VoiceState
  pub provider_voice_generation_id : Option Text
  pub started_at : Option ℕ
  pub ended_at : Option ℕ
  pub cancel_reason : Option CancelReason
  pub error : Option Text

-- `Json` is what the source holds of a JSON object.
pub record CallSessionContext (Json : Type 0) : Type 0 where
  pub call_id : Uuid
  pub started_at : ℕ
  pub status : CallStatus
  pub provider_call_id : Option Text
  pub ended_at : Option ℕ
  pub locale_hint : Option Text
  pub customer_context : Option Json

pub record ToolExecution (Json : Type 0) : Type 0 where
  pub tool_request_id : Uuid
  pub call_id : Uuid
  pub agent_generation_id : Uuid
  pub turn_id : Uuid
  pub tool_name : Text
  pub args_hash : Text
  pub state : ToolState
  pub args_json : Option Json
  pub started_at : Option ℕ
  pub ended_at : Option ℕ
  pub result_json : Option Json
  pub error : Option Text

-- A call of a repository (domain/repositories/protocols.py); its failure is logged and dropped.
pub data Write : Type 0 where
  insert_turn update_turn : Turn → Write
  insert_generation update_generation : AgentGeneration → Write
  insert_voice update_voice : VoiceGeneration → Write
