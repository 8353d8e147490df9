-- ===== src/Fsm/Table.antt =====
-- The table `TRANSITIONS` of backend/src/voice_runtime/agent_fsm.py.
use event_driven_ai_voice.Prelude.{Option, none, some}
use event_driven_ai_voice.Types.{AgentState, idle, routing, speaking, waiting_tools, done}

pub data Trigger : Type 0 where
  start_routing voice_started specialist_action tool_result voice_completed cancel error : Trigger

-- `TRANSITIONS[state].get(event)`.
unfoldable pub transitions : AgentState → Trigger → Option AgentState
transitions idle Trigger.start_routing = some routing
transitions routing Trigger.voice_started = some speaking
transitions routing Trigger.specialist_action = some waiting_tools
transitions routing Trigger.cancel = some AgentState.cancelled
transitions routing Trigger.error = some AgentState.error
transitions waiting_tools Trigger.tool_result = some speaking
transitions waiting_tools Trigger.cancel = some AgentState.cancelled
transitions waiting_tools Trigger.error = some AgentState.error
transitions speaking Trigger.voice_completed = some done
transitions speaking Trigger.cancel = some AgentState.cancelled
transitions speaking Trigger.error = some AgentState.error
transitions _ _ = none
