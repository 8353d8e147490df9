-- ===== src/Runtime.antt =====
-- backend/src/voice_runtime/state.py: the coordinator's view of one call.
use event_driven_ai_voice.Prelude.{ℕ, Bool, List, Option, [], add, contains, none, some}
use event_driven_ai_voice.Types.{Uuid}

pub record CoordinatorRuntimeState : Type 0 where
  pub call_id : Uuid
  pub active_turn_id : Option Uuid
  pub active_agent_generation_id : Option Uuid
  pub active_voice_generation_id : Option Uuid
  pub cancelled_agent_generations : List Uuid
  pub cancelled_voice_generations : List Uuid
  pub turn_seq : ℕ
  pub turn_speech_started_ms : ℕ
  pub turn_audio_committed_ms : ℕ

unfoldable pub new : Uuid → CoordinatorRuntimeState
new call_id = record {
  call_id = call_id;
  active_turn_id = none;
  active_agent_generation_id = none;
  active_voice_generation_id = none;
  cancelled_agent_generations = [];
  cancelled_voice_generations = [];
  turn_seq = 0;
  turn_speech_started_ms = 0;
  turn_audio_committed_ms = 0;
}

abbrev pub is_generation_cancelled : Uuid → CoordinatorRuntimeState → Bool
is_generation_cancelled gen s = contains gen s.cancelled_agent_generations

abbrev pub is_voice_cancelled : Uuid → CoordinatorRuntimeState → Bool
is_voice_cancelled voice s = contains voice s.cancelled_voice_generations

-- The active generation is cancelled, and its id returned.
unfoldable pub cancel_active_generation :
    CoordinatorRuntimeState → CoordinatorRuntimeState × Option Uuid
cancel_active_generation s = elim s.active_agent_generation_id [
  | none ↦ (s, none)
  | some gen ↦ (
    record s {
      cancelled_agent_generations = add gen s.cancelled_agent_generations;
      active_agent_generation_id = none;
    },
    some gen,
  )
]

-- The active voice is cancelled, and its id returned.
unfoldable pub cancel_active_voice : CoordinatorRuntimeState → CoordinatorRuntimeState × Option Uuid
cancel_active_voice s = elim s.active_voice_generation_id [
  | none ↦ (s, none)
  | some voice ↦ (
    record s {
      cancelled_voice_generations = add voice s.cancelled_voice_generations;
      active_voice_generation_id = none;
    },
    some voice,
  )
]
