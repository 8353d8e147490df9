-- ===== src/Coordinator/Adds.antt =====
-- The output events of a coordinator (coordinator.py): its handlers only add to them.
pub mod Runs
use event_driven_ai_voice.Prelude.{
  ℤ, ℕ, List, Option, Text, [], arith, none, some, ◌∷◌, ◌≡◌, length, refl, take, ◌++◌,
}
use event_driven_ai_voice.Types.{
  ResponseSource, VoiceState, Uuid, AgentState, IdText, TurnEvent, absent, canonical, malformed,
  routing, turn_cancelled, turn_finalized, turn_started, OutputEvent,
}
use event_driven_ai_voice.Coordinator.Monad.{Coordinator, Deps, Env, M}
use event_driven_ai_voice.Coordinator.Output.{filler_timer_fires}
use event_driven_ai_voice.Coordinator.Speech.{on_speech_started}
use event_driven_ai_voice.Coordinator.Committed.{
  on_audio_committed, on_turn_event, on_turn_events, on_transcript_final, open_generation,
  drain_turns, replace_generation, request_response,
}
use event_driven_ai_voice.Tools.{Answer}
use event_driven_ai_voice.Coordinator.Voice.{
  record_agent_text, report_finish, persist_voice, Completed, complete_voice, finish_speaking,
  on_tool_result, on_voice_completed, on_voice_error,
}
use event_driven_ai_voice.Coordinator.Action.{
  World, ask_specialist, pass_wait, speak_answer, filler_message, route_action,
}

-- The output events begin with some that were there before.
abbrev pub Starts : List OutputEvent → Coordinator → Type 0
Starts old c = take (length old) c.output_events ≡ old

Starts-append :
    (old xs ys : List OutputEvent) → take (length old) xs ≡ old → take (length old) (xs ++ ys) ≡ old
Starts-append [] xs ys h = refl
Starts-append (o ∷ old) [] ys h = cc
Starts-append (o ∷ old) (x ∷ xs) ys h =
    let tail : take (length old) xs ≡ old = cc in
    let head : x ≡ o = cc in rw (head, Starts-append old xs ys tail) refl

abbrev pub Adds : {A : Type 0} → List OutputEvent → M A → Type 0
Adds old m = (c : Coordinator) → Starts old c → Starts old (m c).0

module _ (old : List OutputEvent) (env : Env) (deps : Deps) (ts : ℕ) where
  pub speech-Adds : Adds old (on_speech_started env deps ts)
  unfolding on_speech_started
  speech-Adds c h = grind (arith, Starts-append old)

  replace-Adds : (active : Option Uuid) → Adds old (replace_generation env deps ts active)
  unfolding replace_generation
  replace-Adds active c h = grind (arith, Starts-append old)

  open-Adds : (turn : Uuid) → Adds old (open_generation env deps ts turn)
  unfolding open_generation
  open-Adds turn c h = grind (arith, Starts-append old)

  request-Adds : (turn gen : Uuid) → Adds old (request_response env deps ts turn gen)
  unfolding request_response
  request-Adds turn gen c h = Starts-append old c.output_events _ h

  pub transcript-Adds : (text : Text) → Adds old (on_transcript_final env deps ts text)
  unfolding on_transcript_final
  transcript-Adds text c h = grind (arith, Starts-append old)

  text-Adds : (words : Text) → Adds old (record_agent_text env deps ts words)
  unfolding record_agent_text
  text-Adds words c h = grind (arith, Starts-append old)

  finish-Adds :
      (source : ResponseSource) (state : AgentState)
      → Adds old (finish_speaking env deps ts source state)
  unfolding finish_speaking
  finish-Adds source AgentState.speaking c h = grind (arith, Starts-append old)
  finish-Adds source routing c h = grind (arith, Starts-append old)
  finish-Adds source _ c h = h

  report-Adds : (ms : Option ℤ) → Adds old (report_finish env deps ts ms)
  unfolding report_finish
  report-Adds ms c h = grind (arith, Starts-append old)

  persist-Adds :
      (id : Uuid) (state : VoiceState) (error : Option Text)
      → Adds old (persist_voice env deps ts id state error)
  unfolding persist_voice
  persist-Adds id state error c h = grind (arith, Starts-append old)

  complete-Adds : (id : Uuid) (p : Completed) → Adds old (complete_voice env deps ts id p)
  unfolding complete_voice
  complete-Adds id p c h =
      let h₁ = text-Adds p.transcript c h in
      let c₁ = (record_agent_text env deps ts p.transcript c).0 in
      let h₂ = finish-Adds p.response_source c₁.fsm.state c₁ h₁ in
      let c₂ = (finish_speaking env deps ts p.response_source c₁.fsm.state c₁).0 in
      let h₃ = report-Adds p.created_to_done_ms c₂ h₂ in
      let c₃ = (report_finish env deps ts p.created_to_done_ms c₂).0 in
      let h₄ = persist-Adds id VoiceState.completed none c₃ h₃ in grind (arith, Starts-append old)

  pub completed-Adds :
      (p : Completed) (id : IdText) → Adds old (on_voice_completed env deps ts p id)
  unfolding on_voice_completed
  completed-Adds p absent c h = h
  completed-Adds p malformed c h = h
  completed-Adds p (canonical id) c h = ground (arith, complete-Adds id p c h)

  pub error-Adds : (error : Text) (id : IdText) → Adds old (on_voice_error env deps ts error id)
  unfolding on_voice_error
  error-Adds error absent c h = h
  error-Adds error malformed c h = h
  error-Adds error (canonical id) c h =
      ground (arith, persist-Adds id VoiceState.error (some error) c h)

  pub tool-Adds : (id : IdText) → Adds old (on_tool_result env deps ts id)
  unfolding on_tool_result
  tool-Adds absent c h = h
  tool-Adds malformed c h = h
  tool-Adds (canonical id) c h = grind (arith, Starts-append old)

  ask-Adds :
      (world : World) (gen : Uuid) (department summary : Text) (message : Option Text)
      → Adds old (ask_specialist env deps ts world gen department summary message)
  unfolding ask_specialist
  ask-Adds world gen department summary message c h = grind (arith, Starts-append old)

  pub timer-Adds : (c : Coordinator) → Starts old c → Starts old (filler_timer_fires c)
  unfolding filler_timer_fires
  timer-Adds c h = grind (arith, Starts-append old)

  wait-Adds : (world : World) → Adds old (pass_wait env deps ts world)
  unfolding pass_wait
  wait-Adds world c h = ground (arith, timer-Adds c h)

  speak-Adds : (answer : Answer) → Adds old (speak_answer env deps ts answer)
  unfolding speak_answer
  speak-Adds answer c h = grind (arith, Starts-append old)

  pub action-Adds :
      (world : World) (department summary : Text) (active : Option Uuid)
      → Adds old (route_action env deps ts world department summary active)
  unfolding route_action
  action-Adds world department summary none c h = h
  action-Adds world department summary (some gen) c h =
      let message = filler_message deps world.draw department in
      let h₁ = ask-Adds world gen department summary message c h in
      let c₁ = (ask_specialist env deps ts world gen department summary message c).0 in
      let h₂ = wait-Adds world c₁ h₁ in
      let c₂ = (pass_wait env deps ts world c₁).0 in
      let answered : (answer : Answer) → Starts old (speak_answer env deps ts answer c₂).0 =
        λ answer. speak-Adds answer c₂ h₂ in
      grind arith

  turn-Adds : (e : TurnEvent) → Adds old (on_turn_event env deps ts e)
  unfolding on_turn_event
  turn-Adds (turn_started e) c h = h
  turn-Adds (turn_cancelled e) c h = h
  turn-Adds (turn_finalized e) c h =
      let active = c.state.active_agent_generation_id in
      let h₁ = replace-Adds active c h in
      let c₁ = (replace_generation env deps ts active c).0 in
      let h₂ = open-Adds e.turn_id c₁ h₁ in
      let c₂ = (open_generation env deps ts e.turn_id c₁).0 in
      let asked : (gen : Uuid) → Starts old (request_response env deps ts e.turn_id gen c₂).0 =
        λ gen. request-Adds e.turn_id gen c₂ h₂ in
      grind arith

  turns-Adds : (es : List TurnEvent) → Adds old (on_turn_events env deps ts es)
  unfolding on_turn_events
  turns-Adds [] c h = h
  turns-Adds (e ∷ es) c h =
      let h₁ = turn-Adds e c h in
      let h₂ = turns-Adds es (on_turn_event env deps ts e c).0 h₁ in
      grind (arith, Starts-append old)

  pub audio-Adds : Adds old (on_audio_committed env deps ts)
  unfolding on_audio_committed drain_turns
  audio-Adds c h = turns-Adds _ _ h
