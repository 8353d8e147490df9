-- ===== src/Coordinator/Voice.antt =====
-- `_on_voice_completed`, `_on_voice_error` and `_on_tool_result` of
-- backend/src/voice_runtime/coordinator.py.
use event_driven_ai_voice.Entities.{update_voice}
use event_driven_ai_voice.Runtime.{is_generation_cancelled, is_voice_cancelled}
use event_driven_ai_voice.Prelude.{
  ℕ, Bool, Option, Text, codes, false, is_empty, none, not, some, true, ℤ, ◌&&◌,
}
use event_driven_ai_voice.Types.{
  Uuid, IdText, absent, canonical, AgentState, ResponseSource, VoiceKind, VoiceState, router,
  specialist,
}
use event_driven_ai_voice.Fsm.{voice_started, voice_completed}
use event_driven_ai_voice.Buffer.{update_agent_text}
use event_driven_ai_voice.Coordinator.Monad.{
  M, Deps, Env, Extra, direct, fsm_call, generation_finish, gets, modify, modify_debug, modify_io,
  modify_state, nothing, pure, raise, route, route_result, value_error, when, ◌>>=◌, ◌>>◌,
}
use event_driven_ai_voice.Coordinator.Output.{send_debug, cancel_filler, or_uuid4, persist}

-- The payload of `voice_generation_completed`.
pub record Completed : Type 0 where
  pub voice_generation_id : IdText
  pub transcript : Text
  pub response_source : ResponseSource
  pub created_to_done_ms : Option ℤ

-- `UUID(text)` on a text that is not empty.
abbrev pub parse_uuid : IdText → M Uuid
parse_uuid (canonical id) = pure id
parse_uuid _ = raise value_error

abbrev pub is_router : ResponseSource → Bool
is_router router = true
is_router specialist = false

abbrev pub created_extra : Option ℤ → Extra
created_extra none = nothing
created_extra (some ms) = Extra.created_to_done_ms ms

module _ (env : Env) (deps : Deps) (ts : ℕ) where
  -- The update of the row of a voice: the active generation and turn are named, or new ids.
  unfoldable pub persist_voice : Uuid → VoiceState → Option Text → M (Unit {0})
  unfolding persist
  persist_voice voice state error = when deps.has_voice_gen_repo do
    active_gen ← gets λ c. c.state.active_agent_generation_id
    gen ← or_uuid4 env active_gen
    active_turn ← gets λ c. c.state.active_turn_id
    turn ← or_uuid4 env active_turn
    modify_io (
        persist true (
          update_voice (record {
            voice_generation_id = voice;
            call_id = deps.call_id;
            agent_generation_id = some gen;
            turn_id = turn;
            kind = VoiceKind.response;
            state = state;
            provider_voice_generation_id = none;
            started_at = none;
            ended_at = some ts;
            cancel_reason = none;
            error = error;
          })))

  -- A direct route is reported once for a turn.
  unfoldable pub report_direct : ResponseSource → M (Unit {0})
  report_direct source = do
    emitted ← gets λ c. c.io.debug.route_result_emitted
    when (is_router source && not emitted) do
      send_debug env route_result (route (codes "direct") direct)
      modify_debug λ d. record d { route_result_emitted = true }

  -- The machine's part, by its state.
  unfoldable pub finish_speaking : ResponseSource → AgentState → M (Unit {0})
  unfolding report_direct
  finish_speaking source AgentState.speaking = fsm_call (voice_completed ts)
  finish_speaking source AgentState.routing = do
    report_direct source
    fsm_call (voice_started ts)
    fsm_call (voice_completed ts)
  finish_speaking source _ = pure tt

  -- The agent's words go to the entry of the current turn.
  unfoldable pub record_agent_text : Text → M (Unit {0})
  record_agent_text transcript =
      when (not (is_empty transcript))
        (modify λ c. record c { buffer = update_agent_text c.state.turn_seq transcript c.buffer })

  -- The end of the generation, unless the client has told the end of the playback before.
  unfoldable pub report_finish : Option ℤ → M (Unit {0})
  report_finish ms = do
    ended ← gets λ c. c.io.debug.audio_playback_end_received
    when (not ended) (send_debug env generation_finish (created_extra ms))

  -- The rest of the handler, for a voice that was not cancelled.
  unfoldable pub complete_voice : Uuid → Completed → M (Unit {0})
  complete_voice voice p = do
    record_agent_text p.transcript
    state ← gets λ c. c.fsm.state
    finish_speaking p.response_source state
    report_finish p.created_to_done_ms
    persist_voice voice VoiceState.completed none

  unfoldable pub on_voice_completed : Completed → IdText → M (Unit {0})
  unfolding complete_voice
  on_voice_completed p absent = pure tt
  on_voice_completed p id = do
    voice ← parse_uuid id
    cancelled ← gets λ c. is_voice_cancelled voice c.state
    when (not cancelled) (complete_voice voice p)

  unfoldable pub clear_voice : M (Unit {0})
  clear_voice = modify_state λ s. record s { active_voice_generation_id = none }

  unfoldable pub on_voice_error : Text → IdText → M (Unit {0})
  unfolding clear_voice
  on_voice_error error absent = clear_voice
  on_voice_error error id = do
    voice ← parse_uuid id
    cancelled ← gets λ c. is_voice_cancelled voice c.state
    when (not cancelled) do persist_voice voice VoiceState.error (some error); clear_voice

  unfoldable pub on_tool_result : IdText → M (Unit {0})
  unfolding cancel_filler
  on_tool_result absent = modify λ c. record c { filler = cancel_filler c.filler }
  on_tool_result id = do
    gen ← parse_uuid id
    cancelled ← gets λ c. is_generation_cancelled gen c.state
    when (not cancelled) (modify λ c. record c { filler = cancel_filler c.filler })
