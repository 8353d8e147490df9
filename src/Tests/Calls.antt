-- ===== src/Tests/Calls.antt =====
-- A concrete call: the caller speaks, the model routes to a specialist, the caller interrupts.
use event_driven_ai_voice.Fsm.{specialist_action, tool_result, start_routing}
use event_driven_ai_voice.Specialist.{literal}
use event_driven_ai_voice.Buffer.{append}
use event_driven_ai_voice.Coordinator.Speech.{on_speech_started}
use event_driven_ai_voice.Coordinator.BargeIn.{barge_in_events, speech_cancels}
use event_driven_ai_voice.Fsm.Table.{Trigger}
use event_driven_ai_voice.Coordinator.Voice.{Completed}
use event_driven_ai_voice.Turns.{open_turn_id, handle_audio_committed, handle_speech_started}
use event_driven_ai_voice.Coordinator.Committed.{
  drain_turns, on_turn_event, on_turn_events, open_generation, replace_generation, request_response,
}
use event_driven_ai_voice.Runtime.{is_generation_cancelled, is_voice_cancelled}
use event_driven_ai_voice.Prelude.{
  List, [], arith, codes, false, none, refl, some, true, ℕ, ◌+◌, ◌∷◌, ◌≡◌, ◌⊎◌, sym, ◌++◌, ◌∙◌, ◌≢◌,
}
use event_driven_ai_voice.Coordinator.Coherence.Specialist.{action_refused}
use event_driven_ai_voice.Tools.{Answer}
use event_driven_ai_voice.Types.{
  AgentState, EventSource, canonical, idle, malformed, routing, specialist,
}
use event_driven_ai_voice.Coordinator.{
  Body, EventEnvelope, Input, run, new, handle_event, dispatch, step,
}
use event_driven_ai_voice.Coordinator.Monad.{
  raised, Coordinator, Deps, Env, ok, bad_transition, delegate, route, route_result,
}
use event_driven_ai_voice.Coordinator.Action.{
  filler_message, World, on_model_router_action, ask_specialist, pass_wait, route_action,
  speak_answer,
}
use event_driven_ai_voice.Coordinator.Output.{SeenAnswer, is_duplicate, send_debug_io}
use event_driven_ai_voice.Coordinator.Coherence.{IsCoherent}
use event_driven_ai_voice.Coordinator.Coherence.Events.{
  run-IsCoherent, handle_event-IsCoherent, event_result,
}

abbrev pub env : Env
env = record { uuid4 = λ n. 100 + n; now_ms = λ n. 1000 + n }

abbrev pub deps : Deps
deps = record {
  call_id = 1;
  router_prompt_builder = none;
  has_turn_repo = true;
  has_agent_gen_repo = true;
  has_voice_gen_repo = true;
}

-- The tool answers with a text.
abbrev pub world : World
world = record {
  draw = 0;
  execute = λ request name args. Answer.ok (literal (codes "Done."));
  filler_fires = false;
}

abbrev pub envelope : ℕ → ℕ → Body → EventEnvelope
envelope id ts body = record {
  event_id = id;
  call_id = 1;
  ts = ts;
  body = body;
  source = EventSource.realtime;
}

abbrev pub received : ℕ → ℕ → Body → Input
received id ts body = Input.event world SeenAnswer.no_set (envelope id ts body)

-- After the caller has begun to speak.
abbrev spoken_to : List Input
spoken_to = received 1 100 Body.speech_started ∷ []

-- After the turn has ended.
abbrev committed : List Input
committed = received 1 100 Body.speech_started ∷ received 2 200 Body.audio_committed ∷ []

-- After the specialist has answered.
abbrev pub answered : List Input
answered =
    received 1 100 Body.speech_started
    ∷ received 2 200 Body.audio_committed
    ∷ received 3 300 (Body.model_router_action (codes "billing") (codes "a refund"))
    ∷ []

abbrev pub after : List Input → Coordinator
after is = run env deps is (new deps 10 8000)

pub after-IsCoherent : (is : List Input) → IsCoherent (after is)
after-IsCoherent is = run-IsCoherent env deps is 10 8000 (omega arith)

run-IsCoherent_example : IsCoherent (run env deps answered (new deps 10 8000))
run-IsCoherent_example = run-IsCoherent env deps answered 10 8000 (omega arith)

handle_event-IsCoherent_example :
    let event = envelope 4 400 (Body.tool_result malformed) in
    let (c', r) = handle_event env deps world SeenAnswer.no_set event (after answered) in
    IsCoherent c' × ((r ≡ ok tt) ⊎ (r ≡ event_result event.body (after answered)))
handle_event-IsCoherent_example =
    handle_event-IsCoherent env deps world SeenAnswer.no_set
      (envelope 4 400 (Body.tool_result malformed)) (after answered) (after-IsCoherent answered)

turn_open : open_turn_id (after spoken_to).turns ≡ some 100
unfolding run new step handle_event dispatch is_duplicate handle_speech_started send_debug_io
turn_open = refl

-- The specialist's voice is active and live, for the same generation, which is live and past its
-- routing.
pub answered_state :
    let c = after answered in
    (c.state.active_voice_generation_id ≡ some 104)
    × (c.state.active_agent_generation_id ≡ some 101)
    × (is_generation_cancelled 101 c.state ≡ false)
    × (c.fsm.state ≡ AgentState.speaking)
    × (is_voice_cancelled 104 c.state ≡ false)
unfolding run new step handle_event dispatch is_duplicate drain_turns on_turn_events
    handle_audio_committed handle_speech_started on_turn_event replace_generation open_generation
    append start_routing request_response send_debug_io on_model_router_action route_action
    ask_specialist pass_wait speak_answer specialist_action filler_message tool_result
answered_state = (refl, refl, refl, refl, refl)

speaking-routing : AgentState.speaking ≢ routing
speaking-routing h = cc

action_refused_example :
    let c = after answered in
    on_model_router_action env deps 400 world (codes "sales") (codes "a line") c ≡ (
      record c { io = send_debug_io env route_result (route (codes "sales") delegate) c.io },
      raised (bad_transition c.fsm.state Trigger.specialist_action),
    )
action_refused_example =
    action_refused env deps 400 world 101 (codes "sales") (codes "a line") (after answered)
      (after-IsCoherent answered) answered_state.1 answered_state.2
      (λ h. speaking-routing (sym answered_state.3 ∙ h))

speech_cancels_example :
    let c = after answered in
    let (c', r) = on_speech_started env deps 400 c in
    (r ≡ ok tt)
    × (c'.output_events ≡ c.output_events ++ barge_in_events deps 400 104 101)
    × (c'.state.active_voice_generation_id ≡ none)
    × (c'.state.active_agent_generation_id ≡ none)
    × (is_voice_cancelled 104 c'.state ≡ true)
    × (is_generation_cancelled 101 c'.state ≡ true)
    × (c'.fsm.state ≡ idle)
speech_cancels_example =
    speech_cancels env deps 400 104 101 (after answered) (after-IsCoherent answered)
      answered_state.0 answered_state.1

-- The completion of the specialist's voice.
abbrev pub completed : Completed
completed = record {
  voice_generation_id = canonical 104;
  transcript = codes "Done.";
  response_source = specialist;
  created_to_done_ms = none;
}
