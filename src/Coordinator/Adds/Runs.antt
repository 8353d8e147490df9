-- ===== src/Coordinator/Adds/Runs.antt =====
-- The output events of a whole call (coordinator.py), which nothing in the program drains.
use event_driven_ai_voice.Coordinator.Speech.{on_speech_stopped}
use event_driven_ai_voice.Coordinator.Action.{World, on_model_router_action}
use event_driven_ai_voice.Coordinator.Output.{
  SeenAnswer, handle_client_debug_event, is_duplicate, set_debug_callback, set_debug_enabled,
}
use event_driven_ai_voice.Types.{OutputEvent}
use event_driven_ai_voice.Prelude.{
  Bool, List, [], add, ap, arith, false, length, refl, take, true, ℕ, ◌&&◌, ◌∷◌, ◌≡◌, drop, suc,
  zero, ◌++◌, ◌∙◌,
}
use event_driven_ai_voice.Coordinator.{
  Body, EventEnvelope, Input, dispatch, handle_event, run, step,
}
use event_driven_ai_voice.Coordinator.Monad.{audio_playback_end, Coordinator, Deps, Env}
use event_driven_ai_voice.Coordinator.Adds.{
  Starts, Adds, speech-Adds, transcript-Adds, completed-Adds, error-Adds, tool-Adds, timer-Adds,
  action-Adds, audio-Adds,
}

-- An input that is not a drain.
abbrev pub is_kept : Input → Bool
is_kept Input.drain = false
is_kept _ = true

abbrev pub all_kept : List Input → Bool
all_kept [] = true
all_kept (i ∷ is) = is_kept i && all_kept is

module _ (old : List OutputEvent) (env : Env) (deps : Deps) where
  dispatch-Adds :
      (world : World) (ts : ℕ) (body : Body) → Adds old (dispatch env deps world ts body)
  unfolding dispatch on_speech_stopped on_model_router_action
  dispatch-Adds world ts Body.speech_started c h = speech-Adds old env deps ts c h
  dispatch-Adds world ts Body.speech_stopped c h = h
  dispatch-Adds world ts Body.audio_committed c h = audio-Adds old env deps ts c h
  dispatch-Adds world ts (Body.transcript_final text) c h = transcript-Adds old env deps ts text c h
  dispatch-Adds world ts (Body.model_router_action department summary) c h =
      action-Adds old env deps ts world department summary c.state.active_agent_generation_id c h
  dispatch-Adds world ts (Body.response_created source ms) c h = h
  dispatch-Adds world ts (Body.voice_generation_completed p) c h =
      completed-Adds old env deps ts p p.voice_generation_id c h
  dispatch-Adds world ts (Body.voice_generation_error id error) c h =
      error-Adds old env deps ts error id c h
  dispatch-Adds world ts (Body.tool_result id) c h = tool-Adds old env deps ts id c h
  dispatch-Adds world ts (Body.unhandled type) c h = h

  handle_event-Adds :
      (world : World) (seen : SeenAnswer) (envelope : EventEnvelope)
      → Adds old (handle_event env deps world seen envelope)
  unfolding handle_event is_duplicate
  handle_event-Adds world seen envelope c h =
      let new_id = record c { seen_ids_fallback = add envelope.event_id c.seen_ids_fallback } in
      ground (
        arith,
        dispatch-Adds world envelope.ts envelope.body c h,
        dispatch-Adds world envelope.ts envelope.body new_id h,
      )

  step-Adds :
      (i : Input) (c : Coordinator)
      → is_kept i ≡ true
      → Starts old c
      → Starts old (step env deps i c)
  unfolding step handle_client_debug_event set_debug_callback set_debug_enabled
  step-Adds (Input.event world seen envelope) c kept h = handle_event-Adds world seen envelope c h
  step-Adds (Input.client_debug audio_playback_end) c kept h = h
  step-Adds (Input.client_debug _) c kept h = h
  step-Adds (Input.debug_callback present) c kept h = h
  step-Adds (Input.debug_enabled enabled) c kept h = h
  step-Adds Input.drain c kept h = cc
  step-Adds Input.filler_timer c kept h = timer-Adds old env deps 0 c h

  run-Starts :
      (is : List Input) (c : Coordinator)
      → all_kept is ≡ true
      → Starts old c
      → Starts old (run env deps is c)
  unfolding run
  run-Starts [] c kept h = h
  run-Starts (i ∷ is) c kept h =
      run-Starts is (step env deps i c) (ground arith) (step-Adds i c (ground arith) h)

take-all : (xs : List OutputEvent) → take (length xs) xs ≡ xs
take-all [] = refl
take-all (x ∷ xs) = ap (◌∷◌ x) (take-all xs)

take-drop : (n : ℕ) (xs : List OutputEvent) → xs ≡ take n xs ++ drop n xs
take-drop zero xs = refl
take-drop (suc n) [] = refl
take-drop (suc n) (x ∷ xs) = ap (◌∷◌ x) (take-drop n xs)

-- Unless it is drained, the list of output events only grows: after any other inputs, in any state, it
-- is what it was before, followed by what stands behind its old length, which is what the session hands
-- to the bridge.
pub run-Adds :
    (env : Env) (deps : Deps) (is : List Input) (c : Coordinator)
    → all_kept is ≡ true
    → let outputs = (run env deps is c).output_events in
      outputs ≡ c.output_events ++ drop (length c.output_events) outputs
run-Adds env deps is c kept =
    let n = length c.output_events in
    let outputs = (run env deps is c).output_events in
    take-drop n outputs
    ∙ ap (λ front. front ++ drop n outputs)
        (run-Starts c.output_events env deps is c kept (take-all c.output_events))
