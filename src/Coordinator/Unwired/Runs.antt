-- ===== src/Coordinator/Unwired/Runs.antt =====
-- A whole call of a coordinator (coordinator.py) that is given no repositories.
use event_driven_ai_voice.Coordinator.Speech.{on_speech_stopped}
use event_driven_ai_voice.Coordinator.Action.{World, on_model_router_action}
use event_driven_ai_voice.Types.{Uuid}
use event_driven_ai_voice.Coordinator.Output.{
  SeenAnswer, drain_output_events, handle_client_debug_event, is_duplicate, set_debug_callback,
  set_debug_enabled,
}
use event_driven_ai_voice.Router.{RouterPromptBuilder}
use event_driven_ai_voice.Prelude.{List, Option, [], add, arith, refl, ℕ, ◌∙◌, ◌∷◌, ◌≡◌}
use event_driven_ai_voice.Coordinator.{
  Body, EventEnvelope, Input, dispatch, handle_event, run, step,
}
use event_driven_ai_voice.Coordinator.Monad.{audio_playback_end, Coordinator, Env}
use event_driven_ai_voice.Coordinator.Unwired.{
  written_by, Silent, unwired, writes-send_debug, speech-Silent, transcript-Silent,
  completed-Silent, error-Silent, tool-Silent, timer-Silent, action-Silent, audio-Silent,
}

module _ (env : Env) (call : Uuid) (builder : Option RouterPromptBuilder) where
  dispatch-Silent :
      (world : World) (ts : ℕ) (body : Body)
      → Silent (dispatch env (unwired call builder) world ts body)
  unfolding dispatch on_speech_stopped on_model_router_action
  dispatch-Silent world ts Body.speech_started c = speech-Silent env call builder ts c
  dispatch-Silent world ts Body.speech_stopped c = writes-send_debug env _ _ c.io
  dispatch-Silent world ts Body.audio_committed c = audio-Silent env call builder ts c
  dispatch-Silent world ts (Body.transcript_final text) c =
      transcript-Silent env call builder ts text c
  dispatch-Silent world ts (Body.model_router_action department summary) c =
      action-Silent env call builder ts world department summary c.state.active_agent_generation_id
        c
  dispatch-Silent world ts (Body.response_created source ms) c = writes-send_debug env _ _ c.io
  dispatch-Silent world ts (Body.voice_generation_completed p) c =
      completed-Silent env call builder ts p p.voice_generation_id c
  dispatch-Silent world ts (Body.voice_generation_error id error) c =
      error-Silent env call builder ts error id c
  dispatch-Silent world ts (Body.tool_result id) c = tool-Silent env call builder ts id c
  dispatch-Silent world ts (Body.unhandled type) c = refl

  handle_event-Silent :
      (world : World) (seen : SeenAnswer) (envelope : EventEnvelope)
      → Silent (handle_event env (unwired call builder) world seen envelope)
  unfolding handle_event is_duplicate
  handle_event-Silent world seen envelope c =
      let new_id = record c { seen_ids_fallback = add envelope.event_id c.seen_ids_fallback } in
      ground (
        arith,
        dispatch-Silent world envelope.ts envelope.body c,
        dispatch-Silent world envelope.ts envelope.body new_id,
      )

  step-Silent :
      (i : Input) (c : Coordinator)
      → written_by (step env (unwired call builder) i c) ≡ written_by c
  unfolding step handle_client_debug_event set_debug_callback set_debug_enabled drain_output_events
  step-Silent (Input.event world seen envelope) c = handle_event-Silent world seen envelope c
  step-Silent (Input.client_debug audio_playback_end) c = writes-send_debug env _ _ _
  step-Silent (Input.client_debug _) c = writes-send_debug env _ _ c.io
  step-Silent (Input.debug_callback present) c = refl
  step-Silent (Input.debug_enabled enabled) c = refl
  step-Silent Input.drain c = refl
  step-Silent Input.filler_timer c = timer-Silent env call builder 0 c

  -- Whatever inputs follow, in any state, a coordinator without repositories calls none of them.
  pub run-Silent :
      (is : List Input) (c : Coordinator)
      → written_by (run env (unwired call builder) is c) ≡ written_by c
  unfolding run
  run-Silent [] c = refl
  run-Silent (i ∷ is) c = run-Silent is (step env (unwired call builder) i c) ∙ step-Silent i c
