-- ===== src/Coordinator/Coherence/Specialist.antt =====
-- The whole handler of a routing action (`_on_model_router_action` of coordinator.py).
use event_driven_ai_voice.Buffer.{format_messages}
use event_driven_ai_voice.Coordinator.Output.{filler_timer_fires, send_debug_io}
use event_driven_ai_voice.Runtime.{is_generation_cancelled}
use event_driven_ai_voice.Coordinator.Monad.{
  Coordinator, Deps, Env, bad_transition, ok, raised, route, route_result, delegate,
}
use event_driven_ai_voice.Prelude.{ℕ, Text, [], ap, arith, false, some, ◌++◌, ◌∙◌, ◌∷◌, ◌≡◌, ◌≢◌}
use mathlib.Core.List.{append-nil}
use event_driven_ai_voice.Types.{Uuid, routing, AgentState}
use event_driven_ai_voice.Fsm.Table.{Trigger}
use event_driven_ai_voice.Coordinator.Action.{
  World, on_model_router_action, ask_specialist, filler_message, pass_wait, route_action,
  speak_answer, tool_name,
}
use event_driven_ai_voice.Coordinator.Coherence.{IsCoherent}
use event_driven_ai_voice.Coordinator.Coherence.Action.{
  ask-IsWaiting, ask-refused, timer_events, armed, filler_events, specialist_event, wait-IsWaiting,
  speak-IsCoherent,
}

module _ (env : Env) (deps : Deps) (ts : ℕ) where
  wait-timer_events :
      (world : World) (c : Coordinator)
      → (pass_wait env deps ts world c).0.output_events
        ≡ c.output_events ++ timer_events world.filler_fires c.filler c.state
  unfolding pass_wait filler_timer_fires
  wait-timer_events world c = ground (arith, append-nil c.output_events)

  -- The output of the specialist's path: the filler if there is one, then the cancellation of that
  -- filler if its timer fires during the wait, and last the start of the active voice with the prompt
  -- made from the answer of the department's tool to the summary and the conversation.
  pub record IsAnswered (world : World) (gen : Uuid) (department summary : Text)
      (c c' : Coordinator) : Type 0 where
    pub request : Uuid
    pub filler_voice : Uuid
    pub voice : Uuid
    pub speaking : c'.state.active_voice_generation_id ≡ some voice
    pub spoken :
        let message = filler_message deps world.draw department in
        c'.output_events
        ≡ ((c.output_events ++ filler_events deps ts gen filler_voice message)
            ++ timer_events world.filler_fires (armed filler_voice ts message) c.state)
          ++ specialist_event deps ts gen voice (
              world.execute request
                (tool_name deps department)
                (record { summary = summary; history = format_messages c.buffer }))
            ∷ []

  pub action-IsAnswered :
      (world : World) (gen : Uuid) (department summary : Text) (c : Coordinator)
      → IsCoherent c
      → c.state.active_agent_generation_id ≡ some gen
      → is_generation_cancelled gen c.state ≡ false
      → c.fsm.state ≡ routing
      → let (c', r) = on_model_router_action env deps ts world department summary c in
        IsCoherent c'
        × (r ≡ ok tt)
        × (c'.fsm.state ≡ AgentState.speaking)
        × (c'.state.active_agent_generation_id ≡ some gen)
        × IsAnswered world gen department summary c c'
  unfolding on_model_router_action route_action
  action-IsAnswered world gen department summary c h active live machine =
      let message = filler_message deps world.draw department in
      let (request, filler_voice, w, r₁, out₁, timer) =
        ask-IsWaiting env deps ts world gen department summary message c h active machine in
      let c₁ = (ask_specialist env deps ts world gen department summary message c).0 in
      let answer =
        world.execute request (tool_name deps department)
          (record { summary = summary; history = format_messages c.buffer }) in
      let (w', r₂) = wait-IsWaiting env deps ts world gen c₁ w in
      let c₂ = (pass_wait env deps ts world c₁).0 in
      let (h', r₃, spoke, kept, said) = speak-IsCoherent env deps ts gen answer c₂ w' in
      let whole : on_model_router_action env deps ts world department summary c
          ≡ speak_answer env deps ts answer c₂ =
        ground arith in
      rw whole (
        h',
        r₃,
        spoke,
        kept,
        record {
          request = request;
          filler_voice = filler_voice;
          voice = said.voice;
          speaking = said.speaking;
          spoken =
              said.spoken
              ∙ ap (λ events. events ++ specialist_event deps ts gen said.voice answer ∷ [])
                  (wait-timer_events world c₁
                    ∙ ap (λ events. c₁.output_events ++ events) (timer world.filler_fires)
                    ∙ ap
                        (λ events.
                          events
                          ++ timer_events world.filler_fires (armed filler_voice ts message)
                              c.state)
                        out₁);
        },
      )

  -- In a coherent state, a routing action for an active generation that is not cancelled but no
  -- longer routing raises the error of the invalid transition, after the route was reported to the
  -- debug timeline; nothing else changes.
  pub action_refused :
      (world : World) (gen : Uuid) (department summary : Text) (c : Coordinator)
      → IsCoherent c
      → c.state.active_agent_generation_id ≡ some gen
      → is_generation_cancelled gen c.state ≡ false
      → c.fsm.state ≢ routing
      → on_model_router_action env deps ts world department summary c ≡ (
        record c { io = send_debug_io env route_result (route department delegate) c.io },
        raised (bad_transition c.fsm.state Trigger.specialist_action),
      )
  unfolding on_model_router_action route_action
  action_refused world gen department summary c h active live machine =
      let message = filler_message deps world.draw department in
      let refused =
        ask-refused env deps ts world gen department summary message c (ground arith) machine in
      ground arith
