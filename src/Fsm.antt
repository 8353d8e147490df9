-- ===== src/Fsm.antt =====
-- backend/src/voice_runtime/agent_fsm.py: the life of one agent generation. A method returns the
-- new machine beside its result; a `ValueError` leaves the fields as they are at that point.
pub mod Table
pub mod Paths
use event_driven_ai_voice.Prelude.{ℕ, Option, none, some}
use Table.{Trigger, transitions}
use event_driven_ai_voice.Types.{Uuid, AgentState, AgentStateChanged, idle, done}

pub record AgentFsm : Type 0 where
  pub call_id : Uuid
  pub state : AgentState
  pub current_generation_id : Option Uuid

-- What a transition returns, or the `ValueError` of an invalid one.
pub data Outcome : Type 0 where
  changed : Option AgentStateChanged → Outcome
  invalid_transition : AgentState → Trigger → Outcome

unfoldable pub new : Uuid → AgentFsm
new call_id = record { call_id = call_id; state = idle; current_generation_id = none }

-- The event to return: none while no generation is set.
abbrev pub state_changed : AgentFsm → AgentState → ℕ → Option AgentStateChanged
state_changed m new_state ts = elim m.current_generation_id [
  | none ↦ none
  | some gen ↦
      some (record { call_id = m.call_id; agent_generation_id = gen; state = new_state; ts = ts })
]

unfoldable pub transition : Trigger → ℕ → AgentFsm → AgentFsm × Outcome
unfolding transitions
transition event ts m = elim (transitions m.state event) [
  | none ↦ (m, invalid_transition m.state event)
  | some new_state ↦ (record m { state = new_state }, changed (state_changed m new_state ts))
]

unfoldable pub start_routing : Uuid → ℕ → AgentFsm → AgentFsm × Outcome
unfolding transition
start_routing gen ts m =
    transition Trigger.start_routing ts (record m { current_generation_id = some gen })

unfoldable pub voice_started : ℕ → AgentFsm → AgentFsm × Outcome
unfolding transition
voice_started = transition Trigger.voice_started

unfoldable pub specialist_action : ℕ → AgentFsm → AgentFsm × Outcome
unfolding transition
specialist_action = transition Trigger.specialist_action

unfoldable pub tool_result : ℕ → AgentFsm → AgentFsm × Outcome
unfolding transition
tool_result = transition Trigger.tool_result

unfoldable pub voice_completed : ℕ → AgentFsm → AgentFsm × Outcome
unfolding transition
voice_completed = transition Trigger.voice_completed

-- The guard of `cancel`, by the machine's state.
cancel_from : AgentState → ℕ → AgentFsm → AgentFsm × Outcome
unfolding transition
cancel_from idle ts m = (m, changed none)
cancel_from done ts m = (m, changed none)
cancel_from AgentState.cancelled ts m = (m, changed none)
cancel_from AgentState.error ts m = (m, changed none)
cancel_from _ ts m = transition Trigger.cancel ts m

unfoldable pub cancel : ℕ → AgentFsm → AgentFsm × Outcome
unfolding cancel_from
cancel ts m = cancel_from m.state ts m

unfoldable pub reset : AgentFsm → AgentFsm
reset m = record m { state = idle; current_generation_id = none }
