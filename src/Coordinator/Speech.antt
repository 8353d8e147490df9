-- ===== src/Coordinator/Speech.antt =====
-- `_on_speech_started` and `_on_speech_stopped` of backend/src/voice_runtime/coordinator.py.
use event_driven_ai_voice.Entities.{update_generation}
use event_driven_ai_voice.Runtime.{cancel_active_generation, cancel_active_voice}
use event_driven_ai_voice.Prelude.{ℕ, Option, false, none, some}
use event_driven_ai_voice.Types.{Uuid, AgentState, CancelReason, cancel_agent, voice_cancel}
use event_driven_ai_voice.Fsm.{cancel, reset}
use event_driven_ai_voice.Turns.{handle_speech_started}
use event_driven_ai_voice.Coordinator.Monad.{
  Io, M, Deps, Env, Stage, barge_in_total, fsm_call, gets, modify, modify_debug, modify_io,
  modify_state, nothing, pure, speech_start, speech_stop, ok, ◌>>=◌, ◌>>◌,
}
use event_driven_ai_voice.Coordinator.Output.{
  emit_output, cancel_filler, log, persist, send_debug, uuid4,
}

-- `s.cancel_active_voice()` and `s.cancel_active_generation()` on the coordinator's state.
unfoldable pub cancel_voice : M (Option Uuid)
unfolding cancel_active_voice
cancel_voice c = let (s, voice) = cancel_active_voice c.state in (record c { state = s }, ok voice)

unfoldable pub cancel_generation : M (Option Uuid)
unfolding cancel_active_generation
cancel_generation c =
    let (s, gen) = cancel_active_generation c.state in (record c { state = s }, ok gen)

-- The write of a generation that was cancelled, for a turn if there is one.
unfoldable pub persist_cancelled : Deps → Uuid → Option Uuid → CancelReason → ℕ → Io → Io
unfolding persist
persist_cancelled deps gen none reason ts io = io
persist_cancelled deps gen (some turn) reason ts io =
    persist deps.has_agent_gen_repo
      (update_generation (record {
        agent_generation_id = gen;
        call_id = deps.call_id;
        turn_id = turn;
        created_at = ts;
        state = AgentState.cancelled;
        started_at = none;
        ended_at = some ts;
        route_a_label = none;
        route_a_confidence = none;
        policy_key = none;
        specialist = none;
        final_outcome = none;
        cancel_reason = some reason;
        error = none;
      }))
      io

module _ (env : Env) (deps : Deps) (ts : ℕ) where
  unfoldable pub report_barge_in : Option Uuid → M (Unit {0})
  report_barge_in none = pure tt
  report_barge_in (some voice) = do
    modify_io (log barge_in_total)
    send_debug env Stage.barge_in nothing
    emit_output (
        voice_cancel (record {
          call_id = deps.call_id;
          voice_generation_id = voice;
          reason = CancelReason.barge_in;
          ts = ts;
        }))

  unfoldable pub withdraw_generation : Option Uuid → M (Unit {0})
  unfolding persist_cancelled
  withdraw_generation none = pure tt
  withdraw_generation (some gen) = do
    emit_output (
        cancel_agent (record {
          call_id = deps.call_id;
          agent_generation_id = gen;
          reason = CancelReason.barge_in;
          ts = ts;
        }))
    fsm_call (cancel ts)
    modify λ c. record c { fsm = reset c.fsm }
    turn ← gets λ c. c.state.active_turn_id
    modify_io (persist_cancelled deps gen turn CancelReason.barge_in ts)

  unfoldable pub on_speech_started : M (Unit {0})
  unfolding cancel_voice cancel_generation report_barge_in withdraw_generation
  on_speech_started = do
    modify_state λ s. record s { turn_speech_started_ms = ts }
    modify_debug λ d. record d { route_result_emitted = false; audio_playback_end_received = false }
    send_debug env speech_start nothing
    voice ← cancel_voice
    report_barge_in voice
    gen ← cancel_generation
    withdraw_generation gen
    modify λ c. record c { filler = cancel_filler c.filler }
    turn ← uuid4 env
    modify λ c. record c { turns = handle_speech_started turn ts c.turns }

unfoldable pub on_speech_stopped : Env → M (Unit {0})
on_speech_stopped env = send_debug env speech_stop nothing
