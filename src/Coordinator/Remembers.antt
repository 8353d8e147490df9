-- ===== src/Coordinator/Remembers.antt =====
-- What a coordinator (coordinator.py) never forgets: the voices and generations that it cancelled,
-- and the events that it saw.
pub mod Runs
use event_driven_ai_voice.Prelude.{
  ℤ, ℕ, Bool, List, Option, Text, [], add, arith, contains, contains-add, none, some, true, ◌∷◌,
  ◌≡◌,
}
use event_driven_ai_voice.Types.{
  ResponseSource, VoiceState, Uuid, AgentState, IdText, TurnEvent, absent, canonical, malformed,
  routing, turn_cancelled, turn_finalized, turn_started,
}
use event_driven_ai_voice.Coordinator.Monad.{Coordinator, Deps, Env, M}
use event_driven_ai_voice.Coordinator.Output.{filler_timer_fires}
use event_driven_ai_voice.Coordinator.Speech.{on_speech_started}
use event_driven_ai_voice.Coordinator.Committed.{
  on_audio_committed, on_turn_event, on_turn_events, on_transcript_final, open_generation,
  drain_turns, replace_generation, request_response,
}
use event_driven_ai_voice.Tools.{Answer}
use event_driven_ai_voice.Coordinator.Voice.{
  record_agent_text, report_finish, persist_voice, Completed, complete_voice, finish_speaking,
  on_tool_result, on_voice_completed, on_voice_error,
}
use event_driven_ai_voice.Coordinator.Action.{
  World, ask_specialist, pass_wait, speak_answer, filler_message, route_action,
}

-- Something to remember.
pub data Mark : Type 0 where
  voice generation event : Uuid → Mark

abbrev pub marks : Mark → List Uuid → List Uuid → List Uuid → Bool
marks (voice id) voices generations events = contains id voices
marks (generation id) voices generations events = contains id generations
marks (event id) voices generations events = contains id events

-- Whether the coordinator has it: a cancelled voice, a cancelled generation, or an event in the
-- fallback's set.
abbrev pub has : Mark → Coordinator → Bool
has k c =
    marks k c.state.cancelled_voice_generations c.state.cancelled_agent_generations
      c.seen_ids_fallback

add_voice-marks :
    (k : Mark) (id : Uuid) (vs gs es : List Uuid)
    → marks k vs gs es ≡ true
    → marks k (add id vs) gs es ≡ true
add_voice-marks (voice v) id vs gs es h = contains-add id v vs h
add_voice-marks (generation g) id vs gs es h = h
add_voice-marks (event e) id vs gs es h = h

add_generation-marks :
    (k : Mark) (id : Uuid) (vs gs es : List Uuid)
    → marks k vs gs es ≡ true
    → marks k vs (add id gs) es ≡ true
add_generation-marks (voice v) id vs gs es h = h
add_generation-marks (generation g) id vs gs es h = contains-add id g gs h
add_generation-marks (event e) id vs gs es h = h

pub add_event-marks :
    (k : Mark) (id : Uuid) (vs gs es : List Uuid)
    → marks k vs gs es ≡ true
    → marks k vs gs (add id es) ≡ true
add_event-marks (voice v) id vs gs es h = h
add_event-marks (generation g) id vs gs es h = h
add_event-marks (event e) id vs gs es h = contains-add id e es h

abbrev pub Remembers : {A : Type 0} → Mark → M A → Type 0
Remembers k m = (c : Coordinator) → has k c ≡ true → has k (m c).0 ≡ true

module _ (k : Mark) (env : Env) (deps : Deps) (ts : ℕ) where
  pub speech-Remembers : Remembers k (on_speech_started env deps ts)
  unfolding on_speech_started
  speech-Remembers c h = grind (arith, add_voice-marks, add_generation-marks)

  replace-Remembers : (active : Option Uuid) → Remembers k (replace_generation env deps ts active)
  unfolding replace_generation
  replace-Remembers active c h = grind (arith, add_voice-marks, add_generation-marks)

  open-Remembers : (turn : Uuid) → Remembers k (open_generation env deps ts turn)
  unfolding open_generation
  open-Remembers turn c h = ground arith

  request-Remembers : (turn gen : Uuid) → Remembers k (request_response env deps ts turn gen)
  unfolding request_response
  request-Remembers turn gen c h = h

  pub transcript-Remembers : (text : Text) → Remembers k (on_transcript_final env deps ts text)
  unfolding on_transcript_final
  transcript-Remembers text c h = ground arith

  text-Remembers : (words : Text) → Remembers k (record_agent_text env deps ts words)
  unfolding record_agent_text
  text-Remembers words c h = ground arith

  finish-Remembers :
      (source : ResponseSource) (state : AgentState)
      → Remembers k (finish_speaking env deps ts source state)
  unfolding finish_speaking
  finish-Remembers source AgentState.speaking c h = ground arith
  finish-Remembers source routing c h = ground arith
  finish-Remembers source _ c h = h

  report-Remembers : (ms : Option ℤ) → Remembers k (report_finish env deps ts ms)
  unfolding report_finish
  report-Remembers ms c h = ground arith

  persist-Remembers :
      (id : Uuid) (state : VoiceState) (error : Option Text)
      → Remembers k (persist_voice env deps ts id state error)
  unfolding persist_voice
  persist-Remembers id state error c h = ground arith

  complete-Remembers : (id : Uuid) (p : Completed) → Remembers k (complete_voice env deps ts id p)
  unfolding complete_voice
  complete-Remembers id p c h =
      let h₁ = text-Remembers p.transcript c h in
      let c₁ = (record_agent_text env deps ts p.transcript c).0 in
      let h₂ = finish-Remembers p.response_source c₁.fsm.state c₁ h₁ in
      let c₂ = (finish_speaking env deps ts p.response_source c₁.fsm.state c₁).0 in
      let h₃ = report-Remembers p.created_to_done_ms c₂ h₂ in
      let c₃ = (report_finish env deps ts p.created_to_done_ms c₂).0 in
      let h₄ = persist-Remembers id VoiceState.completed none c₃ h₃ in ground arith

  pub completed-Remembers :
      (p : Completed) (id : IdText) → Remembers k (on_voice_completed env deps ts p id)
  unfolding on_voice_completed
  completed-Remembers p absent c h = h
  completed-Remembers p malformed c h = h
  completed-Remembers p (canonical id) c h = ground (arith, complete-Remembers id p c h)

  pub error-Remembers :
      (error : Text) (id : IdText) → Remembers k (on_voice_error env deps ts error id)
  unfolding on_voice_error
  error-Remembers error absent c h = h
  error-Remembers error malformed c h = h
  error-Remembers error (canonical id) c h =
      ground (arith, persist-Remembers id VoiceState.error (some error) c h)

  pub tool-Remembers : (id : IdText) → Remembers k (on_tool_result env deps ts id)
  unfolding on_tool_result
  tool-Remembers absent c h = h
  tool-Remembers malformed c h = h
  tool-Remembers (canonical id) c h = ground arith

  ask-Remembers :
      (world : World) (gen : Uuid) (department summary : Text) (message : Option Text)
      → Remembers k (ask_specialist env deps ts world gen department summary message)
  unfolding ask_specialist
  ask-Remembers world gen department summary message c h = ground arith

  pub timer-Remembers : (c : Coordinator) → has k c ≡ true → has k (filler_timer_fires c) ≡ true
  unfolding filler_timer_fires
  timer-Remembers c h = grind (arith, add_voice-marks)

  wait-Remembers : (world : World) → Remembers k (pass_wait env deps ts world)
  unfolding pass_wait
  wait-Remembers world c h = ground (arith, timer-Remembers c h)

  speak-Remembers : (answer : Answer) → Remembers k (speak_answer env deps ts answer)
  unfolding speak_answer
  speak-Remembers answer c h = ground arith

  pub action-Remembers :
      (world : World) (department summary : Text) (active : Option Uuid)
      → Remembers k (route_action env deps ts world department summary active)
  unfolding route_action
  action-Remembers world department summary none c h = h
  action-Remembers world department summary (some gen) c h =
      let message = filler_message deps world.draw department in
      let h₁ = ask-Remembers world gen department summary message c h in
      let c₁ = (ask_specialist env deps ts world gen department summary message c).0 in
      let h₂ = wait-Remembers world c₁ h₁ in
      let c₂ = (pass_wait env deps ts world c₁).0 in
      let answered : (answer : Answer) → has k (speak_answer env deps ts answer c₂).0 ≡ true =
        λ answer. speak-Remembers answer c₂ h₂ in
      grind arith

  turn-Remembers : (e : TurnEvent) → Remembers k (on_turn_event env deps ts e)
  unfolding on_turn_event
  turn-Remembers (turn_started e) c h = h
  turn-Remembers (turn_cancelled e) c h = h
  turn-Remembers (turn_finalized e) c h =
      let active = c.state.active_agent_generation_id in
      let h₁ = replace-Remembers active c h in
      let c₁ = (replace_generation env deps ts active c).0 in
      let h₂ = open-Remembers e.turn_id c₁ h₁ in
      let c₂ = (open_generation env deps ts e.turn_id c₁).0 in
      let asked : (gen : Uuid) → has k (request_response env deps ts e.turn_id gen c₂).0 ≡ true =
        λ gen. request-Remembers e.turn_id gen c₂ h₂ in
      grind arith

  turns-Remembers : (es : List TurnEvent) → Remembers k (on_turn_events env deps ts es)
  unfolding on_turn_events
  turns-Remembers [] c h = h
  turns-Remembers (e ∷ es) c h =
      let h₁ = turn-Remembers e c h in
      let h₂ = turns-Remembers es (on_turn_event env deps ts e c).0 h₁ in ground arith

  pub audio-Remembers : Remembers k (on_audio_committed env deps ts)
  unfolding on_audio_committed drain_turns
  audio-Remembers c h = turns-Remembers _ _ h
