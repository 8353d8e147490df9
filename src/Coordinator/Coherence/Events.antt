-- ===== src/Coordinator/Coherence/Events.antt =====
-- Every event of the coordinator (`handle_event` of coordinator.py) keeps it coherent, and the
-- handlers raise in two cases only.
use event_driven_ai_voice.Coordinator.Speech.{on_speech_stopped}
use event_driven_ai_voice.Coordinator.Committed.{on_audio_committed}
use event_driven_ai_voice.Runtime.{is_generation_cancelled}
use event_driven_ai_voice.Coordinator.Output.{
  SeenAnswer, is_duplicate, drain_output_events, filler_timer_fires, handle_client_debug_event,
  set_debug_callback, set_debug_enabled,
}
use event_driven_ai_voice.Coordinator.Coherence.Committed.{IsRouting}
use event_driven_ai_voice.Coordinator.Monad.{
  Coordinator, Deps, Env, Result, bad_transition, ok, raised, audio_playback_end,
}
use event_driven_ai_voice.Prelude.{
  ℕ, Bool, Bool-cases, Option, Option-cases, Text, arith, false, if◌then◌else◌, inl, inr, none,
  refl, some, true, ◌<◌, ◌||◌, ◌≡◌, ◌⊎◌, List, [], add, ◌∷◌,
}
use event_driven_ai_voice.Types.{Uuid, routing, AgentState, AgentState-discrete}
use event_driven_ai_voice.Fsm.Table.{Trigger}
use event_driven_ai_voice.Turns.{open_turn_id}
use event_driven_ai_voice.Coordinator.{
  Input, step, run, Body, EventEnvelope, dispatch, handle_event, new,
}
use event_driven_ai_voice.Coordinator.Action.{World, on_model_router_action, route_action}
use event_driven_ai_voice.Coordinator.Coherence.{IsCoherent, speech-IsCoherent}
use event_driven_ai_voice.Coordinator.Coherence.Voices.{
  id_result, completed-IsCoherent, error-IsCoherent, tool-IsCoherent, transcript-IsCoherent,
}
use event_driven_ai_voice.Coordinator.Coherence.Dispatch.{audio_turn, audio_quiet, drain-IsCoherent}
use event_driven_ai_voice.Coordinator.Coherence.Specialist.{action-IsAnswered, action_refused}

abbrev pub is_routing : AgentState → Bool
is_routing routing = true
is_routing _ = false

-- The result of a routing action: refused if a live generation is past its routing.
abbrev pub action_result : Option Uuid → Coordinator → Result (Unit {0})
action_result none c = ok tt
action_result (some gen) c =
    if is_generation_cancelled gen c.state || is_routing c.fsm.state
    then ok tt
    else raised (bad_transition c.fsm.state Trigger.specialist_action)

-- The result of an event in a coherent state.
abbrev pub event_result : Body → Coordinator → Result (Unit {0})
event_result (Body.model_router_action department summary) c =
    action_result c.state.active_agent_generation_id c
event_result (Body.voice_generation_completed p) c = id_result p.voice_generation_id
event_result (Body.voice_generation_error id error) c = id_result id
event_result (Body.tool_result id) c = id_result id
event_result _ c = ok tt

IsRouting-IsCoherent : {gen : Uuid} {c : Coordinator} → IsRouting gen c → IsCoherent c
IsRouting-IsCoherent r = ground arith

module _ (env : Env) (deps : Deps) (ts : ℕ) where
  audio-IsCoherent :
      (c : Coordinator)
      → IsCoherent c
      → IsCoherent (on_audio_committed env deps ts c).0
        × ((on_audio_committed env deps ts c).1 ≡ ok tt)
  audio-IsCoherent c h = elim (Option-cases (open_turn_id c.turns)) [
    | inl closed ↦ rw (audio_quiet env deps ts c h closed) (drain-IsCoherent env deps ts c h, refl)
    | inr (turn, opened) ↦
        let (gen, r, ran, _, _, _) = audio_turn env deps ts c turn h opened in
        (IsRouting-IsCoherent r, ran)
  ]

  action-IsCoherent :
      (world : World) (department summary : Text) (active : Option Uuid) (c : Coordinator)
      → IsCoherent c
      → c.state.active_agent_generation_id ≡ active
      → let (c', r) = on_model_router_action env deps ts world department summary c in
        IsCoherent c' × (r ≡ action_result active c)
  action-IsCoherent world department summary none c h e =
      unfold on_model_router_action route_action in ground arith
  action-IsCoherent world department summary (some gen) c h e =
      elim (Bool-cases (is_generation_cancelled gen c.state)) [
        | inl late ↦ unfold on_model_router_action route_action in ground arith
        | inr live ↦ elim (AgentState-discrete c.fsm.state routing) [
          | yes machine ↦
              let (h', r, _, _, _) =
                action-IsAnswered env deps ts world gen department summary c h e live machine in
              (h', ground arith)
          | no machine ↦
              let refused =
                action_refused env deps ts world gen department summary c h e live machine in
              rw refused (ground arith, ground arith)
        ]
      ]

  pub dispatch-IsCoherent :
      (world : World) (body : Body) (c : Coordinator)
      → IsCoherent c
      → IsCoherent (dispatch env deps world ts body c).0
        × ((dispatch env deps world ts body c).1 ≡ event_result body c)
  unfolding dispatch on_speech_stopped
  dispatch-IsCoherent world Body.speech_started c h = speech-IsCoherent env deps ts c h
  dispatch-IsCoherent world Body.speech_stopped c h = ground arith
  dispatch-IsCoherent world Body.audio_committed c h = audio-IsCoherent c h
  dispatch-IsCoherent world (Body.transcript_final text) c h =
      transcript-IsCoherent env deps ts text c h
  dispatch-IsCoherent world (Body.model_router_action department summary) c h =
      action-IsCoherent world department summary c.state.active_agent_generation_id c h refl
  dispatch-IsCoherent world (Body.response_created source ms) c h = ground arith
  dispatch-IsCoherent world (Body.voice_generation_completed p) c h =
      completed-IsCoherent env deps ts p p.voice_generation_id c h
  dispatch-IsCoherent world (Body.voice_generation_error id error) c h =
      error-IsCoherent env deps ts error id c h
  dispatch-IsCoherent world (Body.tool_result id) c h = tool-IsCoherent env deps ts id c h
  dispatch-IsCoherent world (Body.unhandled type) c h = (h, refl)

module _ (env : Env) (deps : Deps) where
  -- A coherent coordinator stays coherent through any event, whether its handler returns or raises.
  -- The handler returns, or its result is the one foretold for the event, an error only for a
  -- malformed id in its payload and for a routing action while a live generation is past routing.
  pub handle_event-IsCoherent :
      (world : World) (seen : SeenAnswer) (envelope : EventEnvelope) (c : Coordinator)
      → IsCoherent c
      → let (c', r) = handle_event env deps world seen envelope c in
        IsCoherent c' × ((r ≡ ok tt) ⊎ (r ≡ event_result envelope.body c))
  unfolding handle_event is_duplicate
  handle_event-IsCoherent world seen envelope c h =
      let new_id = record c { seen_ids_fallback = add envelope.event_id c.seen_ids_fallback } in
      ground (
        arith,
        dispatch-IsCoherent env deps envelope.ts world envelope.body c h,
        dispatch-IsCoherent env deps envelope.ts world envelope.body new_id (ground arith),
      )

  -- A new call starts coherent, if its history may hold a turn.
  pub new-IsCoherent :
      (max_turns max_chars : ℕ) → 0 < max_turns → IsCoherent (new deps max_turns max_chars)
  unfolding new
  new-IsCoherent max_turns max_chars h = ground arith

  step-IsCoherent : (i : Input) (c : Coordinator) → IsCoherent c → IsCoherent (step env deps i c)
  unfolding step handle_client_debug_event set_debug_callback set_debug_enabled drain_output_events
      filler_timer_fires
  step-IsCoherent (Input.event world seen envelope) c h =
      (handle_event-IsCoherent world seen envelope c h).0
  step-IsCoherent (Input.client_debug audio_playback_end) c h = ground arith
  step-IsCoherent (Input.client_debug _) c h = ground arith
  step-IsCoherent (Input.debug_callback present) c h = ground arith
  step-IsCoherent (Input.debug_enabled enabled) c h = ground arith
  step-IsCoherent Input.drain c h = ground arith
  step-IsCoherent Input.filler_timer c h = ground arith

  pub run_from-IsCoherent :
      (is : List Input) (c : Coordinator) → IsCoherent c → IsCoherent (run env deps is c)
  unfolding run
  run_from-IsCoherent [] c h = h
  run_from-IsCoherent (i ∷ is) c h =
      run_from-IsCoherent is (step env deps i c) (step-IsCoherent i c h)

  -- A new call whose history may hold a turn is coherent after any sequence of inputs: a generation
  -- is active exactly when the agent machine is away from idle, the machine holds that generation
  -- and is routing, speaking or done, no filler timer is left asleep, and no finalized turn is left
  -- unhandled.
  pub run-IsCoherent :
      (is : List Input) (max_turns max_chars : ℕ)
      → 0 < max_turns
      → IsCoherent (run env deps is (new deps max_turns max_chars))
  run-IsCoherent is max_turns max_chars h =
      run_from-IsCoherent is (new deps max_turns max_chars) (new-IsCoherent max_turns max_chars h)
