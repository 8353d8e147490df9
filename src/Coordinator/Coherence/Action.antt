-- ===== src/Coordinator/Coherence/Action.antt =====
-- The specialist's path (`_on_model_router_action` of coordinator.py): from routing to speaking.
use event_driven_ai_voice.Tools.{Answer}
use event_driven_ai_voice.Buffer.{format_messages}
use event_driven_ai_voice.Coordinator.Output.{send_debug_io, cancel_filler, filler_timer_fires, log}
use event_driven_ai_voice.Coordinator.Monad.{
  FillerTask, no_task, finished, sleeping, Coordinator, Deps, Env, bad_transition, ok, raised,
  route_result, delegate, route, fill_silence, filler_emitted_total, generation_start, nothing,
  specialist_ready, specialist_sent,
}
use event_driven_ai_voice.Runtime.{CoordinatorRuntimeState, is_voice_cancelled}
use event_driven_ai_voice.Prelude.{
  ap, [], Bool, false, sym, ◌∙◌, if◌then◌else◌, ℕ, List, Option, Text, none, some, true, ◌<◌, ◌∷◌,
  ◌≡◌, ◌≢◌, arith, ◌++◌, ◌+◌, refl,
}
use mathlib.Core.List.{append-nil}
use event_driven_ai_voice.Types.{
  filler_max_duration, voice_cancel, Uuid, routing, OutputEvent, router, say, voice_start,
  waiting_tools, AgentState, payload, specialist,
}
use event_driven_ai_voice.Fsm.{specialist_action, tool_result}
use event_driven_ai_voice.Fsm.Table.{Trigger}
use event_driven_ai_voice.Coordinator.Action.{
  World, ask_specialist, tool_name, pass_wait, speak_answer, specialist_prompt,
}
use event_driven_ai_voice.Coordinator.Coherence.{
  is_sleeping, IsCoherent, matches_state, no_finalized,
}

-- The generation waits for its tool, and only the filler's timer may be running.
pub record IsWaiting (gen : Uuid) (c : Coordinator) : Type 0 where
  pub active : c.state.active_agent_generation_id ≡ some gen
  pub machine : c.fsm.state ≡ waiting_tools
  pub owner : c.fsm.current_generation_id ≡ some gen
  pub drained : no_finalized c.turns.pending_events ≡ true
  pub room : 0 < c.buffer.max_turns

-- The output events of a filler, if there is one.
abbrev pub filler_events : Deps → ℕ → Uuid → Uuid → Option Text → List OutputEvent
filler_events deps ts gen voice none = []
filler_events deps ts gen voice (some message) =
    voice_start (record {
      call_id = deps.call_id;
      agent_generation_id = some gen;
      voice_generation_id = voice;
      prompt = say message;
      ts = ts;
      response_source = router;
    })
    ∷ []

-- What the filler's timer adds to the output when it fires during the wait.
abbrev pub timer_events : Bool → FillerTask → CoordinatorRuntimeState → List OutputEvent
timer_events true (sleeping voice ts) s =
    if is_voice_cancelled voice s
    then []
    else voice_cancel (record {
      call_id = s.call_id;
      voice_generation_id = voice;
      reason = filler_max_duration;
      ts = ts;
    })
      ∷ []
timer_events _ _ s = []

-- The timer of a filler, if there is one.
abbrev pub armed : Uuid → ℕ → Option Text → FillerTask
armed voice ts none = no_task
armed voice ts (some message) = sleeping voice ts

-- A timer that does not run adds nothing.
awake_events :
    (fires : Bool) (task : FillerTask) (s : CoordinatorRuntimeState)
    → is_sleeping task ≡ false
    → timer_events fires task s ≡ []
awake_events true no_task s h = refl
awake_events true (sleeping voice ts) s h = cc
awake_events true finished s h = refl
awake_events false task s h = refl

timers_same :
    {t t' : FillerTask} {s s' : CoordinatorRuntimeState}
    → t ≡ t'
    → s ≡ s'
    → (fires : Bool) → timer_events fires t s ≡ timer_events fires t' s'
timers_same {t} {t'} {s} {s'} e h fires =
    ap (λ x. timer_events fires x s) e ∙ ap (λ x. timer_events fires t' x) h

-- The start of the specialist's voice.
abbrev pub specialist_event : Deps → ℕ → Uuid → Uuid → Answer → OutputEvent
specialist_event deps ts gen voice answer = voice_start (record {
  call_id = deps.call_id;
  agent_generation_id = some gen;
  voice_generation_id = voice;
  prompt = payload (specialist_prompt answer);
  ts = ts;
  response_source = specialist;
})

module _ (env : Env) (deps : Deps) (ts : ℕ) where
  pub ask-IsWaiting :
      (world : World) (gen : Uuid) (department summary : Text) (message : Option Text)
      (c : Coordinator)
      → IsCoherent c
      → c.state.active_agent_generation_id ≡ some gen
      → c.fsm.state ≡ routing
      → let (c', r) = ask_specialist env deps ts world gen department summary message c in
        (request : Uuid) × (voice : Uuid) × IsWaiting gen c'
        × (r
            ≡ ok (
                world.execute request
                  (tool_name deps department)
                  (record { summary = summary; history = format_messages c.buffer })))
        × (c'.output_events ≡ c.output_events ++ filler_events deps ts gen voice message)
        × ((fires : Bool)
            → timer_events fires c'.filler c'.state
              ≡ timer_events fires (armed voice ts message) c.state)
  unfolding ask_specialist specialist_action
  ask-IsWaiting world gen department summary none c h active machine =
      let io₁ =
        send_debug_io env fill_silence nothing
          (send_debug_io env route_result (route department delegate) c.io) in
      let c' = (ask_specialist env deps ts world gen department summary none c).0 in
      let kept : c'.filler ≡ c.filler = ground arith in
      let same : c'.state ≡ c.state = ground arith in
      (
        env.uuid4 (send_debug_io env specialist_sent nothing io₁).drawn,
        0,
        ground arith,
        ground arith,
        ground (arith, append-nil c.output_events),
        λ fires.
            timers_same kept same fires
            ∙ awake_events fires c.filler c.state h.awake
            ∙ sym (awake_events fires no_task c.state refl),
      )
  ask-IsWaiting world gen department summary (some message) c h active machine =
      let io₁ =
        send_debug_io env fill_silence nothing
          (send_debug_io env route_result (route department delegate) c.io) in
      let io₂ = log filler_emitted_total io₁ in
      let io₃ = record io₂ { drawn = io₂.drawn + 1 } in
      let c' = (ask_specialist env deps ts world gen department summary (some message) c).0 in
      let kept : c'.filler ≡ sleeping (env.uuid4 io₂.drawn) ts = ground arith in
      let same : c'.state ≡ c.state = ground arith in
      (
        env.uuid4 (send_debug_io env specialist_sent nothing io₃).drawn,
        env.uuid4 io₂.drawn,
        ground arith,
        ground arith,
        ground arith,
        timers_same kept same,
      )

  pub ask-refused :
      (world : World) (gen : Uuid) (department summary : Text) (message : Option Text)
      (c : Coordinator)
      → matches_state (some gen) c.fsm.state ≡ true
      → c.fsm.state ≢ routing
      → ask_specialist env deps ts world gen department summary message c ≡ (
        record c { io = send_debug_io env route_result (route department delegate) c.io },
        raised (bad_transition c.fsm.state Trigger.specialist_action),
      )
  unfolding ask_specialist specialist_action
  ask-refused world gen department summary message c m no_routing = ground arith

  -- While the tool runs only the filler's timer may fire; it adds at most a cancellation.
  pub wait-IsWaiting :
      (world : World) (gen : Uuid) (c : Coordinator)
      → IsWaiting gen c
      → IsWaiting gen (pass_wait env deps ts world c).0
        × ((pass_wait env deps ts world c).1 ≡ ok tt)
  unfolding pass_wait filler_timer_fires
  wait-IsWaiting world gen c h = ground arith

  -- The specialist's voice: the last output event, for the generation that waited.
  pub record IsSpoken (gen : Uuid) (answer : Answer) (c c' : Coordinator) : Type 0 where
    pub voice : Uuid
    pub speaking : c'.state.active_voice_generation_id ≡ some voice
    pub spoken :
        c'.output_events ≡ c.output_events ++ specialist_event deps ts gen voice answer ∷ []

  pub speak-IsCoherent :
      (gen : Uuid) (answer : Answer) (c : Coordinator)
      → IsWaiting gen c
      → let (c', r) = speak_answer env deps ts answer c in
        IsCoherent c'
        × (r ≡ ok tt)
        × (c'.fsm.state ≡ AgentState.speaking)
        × (c'.state.active_agent_generation_id ≡ some gen)
        × IsSpoken gen answer c c'
  unfolding speak_answer tool_result cancel_filler
  speak-IsCoherent gen answer c h =
      let io₁ = send_debug_io env specialist_ready nothing c.io in
      let io₂ = send_debug_io env generation_start nothing io₁ in
      (
        ground arith,
        ground arith,
        ground arith,
        ground arith,
        record { voice = env.uuid4 io₂.drawn; speaking = ground arith; spoken = ground arith },
      )
