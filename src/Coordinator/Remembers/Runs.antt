-- ===== src/Coordinator/Remembers/Runs.antt =====
-- What is remembered through every input of a call, and what comes late for good (coordinator.py).
use event_driven_ai_voice.Prelude.{
  ℕ, List, Text, [], arith, contains-add_self, some, true, ◌∷◌, ◌≡◌, add, Bool-cases, contains,
  false, inl, inr, ap, not, ◌∙◌,
}
use event_driven_ai_voice.Types.{Uuid, canonical}
use event_driven_ai_voice.Runtime.{is_generation_cancelled, is_voice_cancelled}
use event_driven_ai_voice.Coordinator.{
  Body, EventEnvelope, Input, dispatch, handle_event, run, step,
}
use event_driven_ai_voice.Coordinator.Monad.{
  Coordinator, Deps, Env, audio_playback_end, bind_ok, ok, when,
}
use event_driven_ai_voice.Coordinator.Output.{
  SeenAnswer, drain_output_events, handle_client_debug_event, is_duplicate, no_set,
  set_debug_callback, set_debug_enabled,
}
use event_driven_ai_voice.Coordinator.Speech.{on_speech_started, on_speech_stopped}
use event_driven_ai_voice.Coordinator.Coherence.{IsCoherent}
use event_driven_ai_voice.Coordinator.BargeIn.{speech_cancels}
use event_driven_ai_voice.Coordinator.Voice.{
  Completed, on_tool_result, on_voice_completed, on_voice_error,
}
use event_driven_ai_voice.Coordinator.Action.{World, on_model_router_action}
use event_driven_ai_voice.Coordinator.Remembers.{
  Mark, Remembers, action-Remembers, add_event-marks, audio-Remembers, completed-Remembers,
  error-Remembers, has, speech-Remembers, timer-Remembers, tool-Remembers, transcript-Remembers,
}

-- The coordinator with a new id in the fallback's set.
abbrev after_seen : Uuid → Coordinator → Coordinator
after_seen id c = record c { seen_ids_fallback = add id c.seen_ids_fallback }

duplicate_old :
    (id : Uuid) (c : Coordinator)
    → contains id c.seen_ids_fallback ≡ true
    → is_duplicate no_set id c ≡ (c, ok true)
unfolding is_duplicate
duplicate_old id c h = ground arith

duplicate_new :
    (id : Uuid) (c : Coordinator)
    → contains id c.seen_ids_fallback ≡ false
    → is_duplicate no_set id c ≡ (after_seen id c, ok false)
unfolding is_duplicate
duplicate_new id c h = ground arith

module _ (k : Mark) (env : Env) (deps : Deps) where
  dispatch-Remembers :
      (world : World) (ts : ℕ) (body : Body) → Remembers k (dispatch env deps world ts body)
  unfolding dispatch on_speech_stopped on_model_router_action
  dispatch-Remembers world ts Body.speech_started c h = speech-Remembers k env deps ts c h
  dispatch-Remembers world ts Body.speech_stopped c h = h
  dispatch-Remembers world ts Body.audio_committed c h = audio-Remembers k env deps ts c h
  dispatch-Remembers world ts (Body.transcript_final text) c h =
      transcript-Remembers k env deps ts text c h
  dispatch-Remembers world ts (Body.model_router_action department summary) c h =
      action-Remembers k env deps ts world department summary c.state.active_agent_generation_id c h
  dispatch-Remembers world ts (Body.response_created source ms) c h = h
  dispatch-Remembers world ts (Body.voice_generation_completed p) c h =
      completed-Remembers k env deps ts p p.voice_generation_id c h
  dispatch-Remembers world ts (Body.voice_generation_error id error) c h =
      error-Remembers k env deps ts error id c h
  dispatch-Remembers world ts (Body.tool_result id) c h = tool-Remembers k env deps ts id c h
  dispatch-Remembers world ts (Body.unhandled type) c h = h

  handle_event-Remembers :
      (world : World) (seen : SeenAnswer) (envelope : EventEnvelope)
      → Remembers k (handle_event env deps world seen envelope)
  unfolding handle_event is_duplicate
  handle_event-Remembers world seen envelope c h =
      let new_id = record c { seen_ids_fallback = add envelope.event_id c.seen_ids_fallback } in
      let kept : has k new_id ≡ true =
        add_event-marks k envelope.event_id c.state.cancelled_voice_generations
          c.state.cancelled_agent_generations c.seen_ids_fallback h in
      ground (
        arith,
        dispatch-Remembers world envelope.ts envelope.body c h,
        dispatch-Remembers world envelope.ts envelope.body new_id kept,
      )

  step-Remembers : (i : Input) (c : Coordinator) → has k c ≡ true → has k (step env deps i c) ≡ true
  unfolding step handle_client_debug_event set_debug_callback set_debug_enabled drain_output_events
  step-Remembers (Input.event world seen envelope) c h =
      handle_event-Remembers world seen envelope c h
  step-Remembers (Input.client_debug audio_playback_end) c h = h
  step-Remembers (Input.client_debug _) c h = h
  step-Remembers (Input.debug_callback present) c h = h
  step-Remembers (Input.debug_enabled enabled) c h = h
  step-Remembers Input.drain c h = h
  step-Remembers Input.filler_timer c h = timer-Remembers k env deps 0 c h

  -- A cancelled voice, a cancelled generation and an event in the fallback's set stay so, whatever
  -- inputs follow, in any state.
  run-Remembers :
      (is : List Input) (c : Coordinator) → has k c ≡ true → has k (run env deps is c) ≡ true
  unfolding run
  run-Remembers [] c h = h
  run-Remembers (i ∷ is) c h = run-Remembers is (step env deps i c) (step-Remembers i c h)

module _ (env : Env) (deps : Deps) where
  run-late :
      (is : List Input) (ts : ℕ) (p : Completed) (error : Text) (late gen : Uuid) (c : Coordinator)
      → is_voice_cancelled late c.state ≡ true
      → is_generation_cancelled gen c.state ≡ true
      → let c' = run env deps is c in
        (on_voice_completed env deps ts p (canonical late) c' ≡ (c', ok tt))
        × (on_voice_error env deps ts error (canonical late) c' ≡ (c', ok tt))
        × (on_tool_result env deps ts (canonical gen) c' ≡ (c', ok tt))
  unfolding on_voice_completed on_voice_error on_tool_result
  run-late is ts p error late gen c v g =
      let v' : is_voice_cancelled late (run env deps is c).state ≡ true =
        run-Remembers (Mark.voice late) env deps is c v in
      let g' : is_generation_cancelled gen (run env deps is c).state ≡ true =
        run-Remembers (Mark.generation gen) env deps is c g in
      ground arith

  -- When the caller has spoken over an active voice of an active generation in a coherent state, then
  -- after any further inputs a completion or an error of that voice, and a tool's result for that
  -- generation, change nothing and raise nothing.
  pub barge_in-run :
      (is : List Input) (t₀ ts : ℕ) (p : Completed) (error : Text) (late gen : Uuid)
      (c : Coordinator)
      → IsCoherent c
      → c.state.active_voice_generation_id ≡ some late
      → c.state.active_agent_generation_id ≡ some gen
      → let c' = run env deps is (on_speech_started env deps t₀ c).0 in
        (on_voice_completed env deps ts p (canonical late) c' ≡ (c', ok tt))
        × (on_voice_error env deps ts error (canonical late) c' ≡ (c', ok tt))
        × (on_tool_result env deps ts (canonical gen) c' ≡ (c', ok tt))
  barge_in-run is t₀ ts p error late gen c h v g =
      let (_, _, _, _, quiet, stopped, _) = speech_cancels env deps t₀ late gen c h v g in
      run-late is ts p error late gen (on_speech_started env deps t₀ c).0 quiet stopped

  handle_old :
      (world : World) (envelope : EventEnvelope) (c : Coordinator)
      → contains envelope.event_id c.seen_ids_fallback ≡ true
      → handle_event env deps world no_set envelope c ≡ (c, ok tt)
  unfolding handle_event
  handle_old world envelope c h =
      let old = duplicate_old envelope.event_id c h in
      bind_ok (is_duplicate no_set envelope.event_id)
        (λ duplicate. when (not duplicate) (dispatch env deps world envelope.ts envelope.body)) c
        (ap (λ r. r.1) old)
      ∙ ap (λ r. (r.0, ok tt)) old

  handle_new :
      (world : World) (envelope : EventEnvelope) (c : Coordinator)
      → contains envelope.event_id c.seen_ids_fallback ≡ false
      → handle_event env deps world no_set envelope c
        ≡ dispatch env deps world envelope.ts envelope.body (after_seen envelope.event_id c)
  unfolding handle_event
  handle_new world envelope c h =
      let new = duplicate_new envelope.event_id c h in
      bind_ok (is_duplicate no_set envelope.event_id)
        (λ duplicate. when (not duplicate) (dispatch env deps world envelope.ts envelope.body)) c
        (ap (λ r. r.1) new)
      ∙ ap (λ r. dispatch env deps world envelope.ts envelope.body r.0) new

  seen_after :
      (world : World) (envelope : EventEnvelope) (c : Coordinator)
      → has (Mark.event envelope.event_id) (handle_event env deps world no_set envelope c).0 ≡ true
  seen_after world envelope c = elim (Bool-cases (contains envelope.event_id c.seen_ids_fallback)) [
    | inl old ↦ rw (handle_old world envelope c old) old
    | inr new ↦ rw (handle_new world envelope c new) (
        dispatch-Remembers (Mark.event envelope.event_id) env deps world envelope.ts envelope.body
          (after_seen envelope.event_id c)
          (contains-add_self envelope.event_id c.seen_ids_fallback))
  ]

  -- Without a shared set, an event whose id was handled before, in any state and however long ago,
  -- changes nothing and raises nothing, whatever it says.
  pub handle_event-again :
      (is : List Input) (world world' : World) (first again : EventEnvelope) (c : Coordinator)
      → again.event_id ≡ first.event_id
      → let c' = run env deps is (handle_event env deps world no_set first c).0 in
        handle_event env deps world' no_set again c' ≡ (c', ok tt)
  handle_event-again is world world' first again c same =
      let e = Mark.event first.event_id in
      let old = (handle_event env deps world no_set first c).0 in
      let seen : contains first.event_id (run env deps is old).seen_ids_fallback ≡ true =
        run-Remembers e env deps is old (seen_after world first c) in
      handle_old world' again (run env deps is old) (rw same seen)
