-- ===== src/Coordinator/History/Runs.antt =====
-- The conversation's limits through every input of a call (coordinator.py).
use event_driven_ai_voice.Prelude.{ℕ, List, [], add, arith, ◌∷◌}
use event_driven_ai_voice.Buffer.{total_chars}
use event_driven_ai_voice.Buffer.Updates.{IsWithin}
use event_driven_ai_voice.Coordinator.{Body, Input, dispatch, handle_event, new, run, step}
use event_driven_ai_voice.Coordinator.Monad.{Coordinator, Deps, Env, audio_playback_end}
use event_driven_ai_voice.Coordinator.Output.{
  drain_output_events, handle_client_debug_event, is_duplicate, set_debug_callback,
  set_debug_enabled,
}
use event_driven_ai_voice.Coordinator.Speech.{on_speech_stopped}
use event_driven_ai_voice.Coordinator.Action.{World, on_model_router_action}
use event_driven_ai_voice.Coordinator.History.{
  Within, action-Same, audio-Within, completed-Within, error-Same, speech-Same, timer-Same,
  tool-Same, transcript-Within,
}

module _ (env : Env) (deps : Deps) (ts : ℕ) where
  dispatch-Within : (world : World) (body : Body) → Within (dispatch env deps world ts body)
  unfolding dispatch on_speech_stopped on_model_router_action
  dispatch-Within world Body.speech_started c h = rw (speech-Same env deps ts c) h
  dispatch-Within world Body.speech_stopped c h = h
  dispatch-Within world Body.audio_committed c h = audio-Within env deps ts c h
  dispatch-Within world (Body.transcript_final text) c h = transcript-Within env deps ts text c h
  dispatch-Within world (Body.model_router_action department summary) c h =
      rw (action-Same env deps ts world department summary c.state.active_agent_generation_id c) h
  dispatch-Within world (Body.response_created source ms) c h = h
  dispatch-Within world (Body.voice_generation_completed p) c h =
      completed-Within env deps ts p p.voice_generation_id c h
  dispatch-Within world (Body.voice_generation_error id error) c h =
      rw (error-Same env deps ts error id c) h
  dispatch-Within world (Body.tool_result id) c h = rw (tool-Same env deps ts id c) h
  dispatch-Within world (Body.unhandled type) c h = h

module _ (env : Env) (deps : Deps) where
  step-IsWithin :
      (i : Input) (c : Coordinator) → IsWithin c.buffer → IsWithin (step env deps i c).buffer
  unfolding step handle_event is_duplicate handle_client_debug_event set_debug_callback
      set_debug_enabled drain_output_events
  step-IsWithin (Input.event world seen envelope) c h =
      let new_id = record c { seen_ids_fallback = add envelope.event_id c.seen_ids_fallback } in
      ground (
        arith,
        dispatch-Within env deps envelope.ts world envelope.body c h,
        dispatch-Within env deps envelope.ts world envelope.body new_id h,
      )
  step-IsWithin (Input.client_debug audio_playback_end) c h = h
  step-IsWithin (Input.client_debug _) c h = h
  step-IsWithin (Input.debug_callback present) c h = h
  step-IsWithin (Input.debug_enabled enabled) c h = h
  step-IsWithin Input.drain c h = h
  step-IsWithin Input.filler_timer c h = rw (timer-Same env deps 0 c) h

  pub run_from-IsWithin :
      (is : List Input) (c : Coordinator) → IsWithin c.buffer → IsWithin (run env deps is c).buffer
  unfolding run
  run_from-IsWithin [] c h = h
  run_from-IsWithin (i ∷ is) c h = run_from-IsWithin is (step env deps i c) (step-IsWithin i c h)

  -- After any sequence of inputs of a call, the conversation has at most the turns and the characters
  -- that it may hold, whatever the limits are.
  pub run-IsWithin :
      (is : List Input) (max_turns max_chars : ℕ)
      → IsWithin (run env deps is (new deps max_turns max_chars)).buffer
  unfolding new total_chars
  run-IsWithin is max_turns max_chars =
      run_from-IsWithin is (new deps max_turns max_chars)
        (record { turns = omega arith; chars = omega arith })
