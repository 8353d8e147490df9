-- ===== src/Coordinator/Unwired.antt =====
-- A coordinator (coordinator.py) that is given no repositories writes nothing.
pub mod Runs
use event_driven_ai_voice.Tools.{Answer}
use event_driven_ai_voice.Coordinator.Monad.{audio_committed, nothing}
use event_driven_ai_voice.Coordinator.Action.{
  World, ask_specialist, filler_message, pass_wait, persist_specialist, route_action, speak_answer,
  start_filler,
}
use event_driven_ai_voice.Coordinator.Voice.{
  Completed, complete_voice, finish_speaking, on_tool_result, on_voice_completed, on_voice_error,
  persist_voice, record_agent_text, report_direct, report_finish,
}
use event_driven_ai_voice.Coordinator.Committed.{
  open_generation, persist_turn, replace_generation, request_response, drain_turns,
  on_audio_committed, on_transcript_final, on_turn_event, on_turn_events, persist_transcript,
}
use event_driven_ai_voice.Coordinator.Speech.{
  cancel_generation, cancel_voice, on_speech_started, persist_cancelled, report_barge_in,
  withdraw_generation,
}
use event_driven_ai_voice.Types.{
  Uuid, AgentState, IdText, ResponseSource, TurnEvent, VoiceState, absent, canonical, malformed,
  routing, turn_cancelled, turn_finalized, turn_started,
}
use event_driven_ai_voice.Router.{RouterPromptBuilder}
use event_driven_ai_voice.Prelude.{
  List, Option, [], arith, false, ℕ, ◌++◌, ◌+◌, ◌∷◌, ◌≡◌, Text, none, refl, some, ℤ, ◌∙◌,
}
use event_driven_ai_voice.Coordinator.Output.{
  send_debug_io, emit_debug, persist, open_timeline, filler_timer_fires,
}
use event_driven_ai_voice.Coordinator.Monad.{
  Coordinator, Effect, write, Io, DebugMessage, Deps, Env, Extra, M, Stage, debug_message,
}

abbrev is_write : Effect → ℕ
is_write (write w) = 1
is_write _ = 0

-- The calls of the repositories among the effects.
unfoldable pub writes : List Effect → ℕ
writes [] = 0
writes (e ∷ es) = is_write e + writes es

-- Those that a coordinator has made.
abbrev pub written_by : Coordinator → ℕ
written_by c = writes c.io.effects

-- Code that writes nothing, in any state.
abbrev pub Silent : {A : Type 0} → M A → Type 0
Silent m = (c : Coordinator) → written_by (m c).0 ≡ written_by c

writes-append : (es : List Effect) (e : Effect) → writes (es ++ e ∷ []) ≡ writes es + is_write e
unfolding writes
writes-append [] e = omega arith
writes-append (e' ∷ es) e = omega (arith, writes-append es e)

writes-emit_debug :
    (message : DebugMessage) (io : Io) → writes (emit_debug message io).effects ≡ writes io.effects
unfolding emit_debug
writes-emit_debug message io = grind (arith, writes-append io.effects (debug_message message))

pub writes-send_debug :
    (env : Env) (stage : Stage) (extra : Extra) (io : Io)
    → writes (send_debug_io env stage extra io).effects ≡ writes io.effects
unfolding send_debug_io open_timeline
writes-send_debug env stage extra io = grind (arith, writes-emit_debug)

-- No repository is configured.
abbrev pub unwired : Uuid → Option RouterPromptBuilder → Deps
unwired call builder = record {
  call_id = call;
  router_prompt_builder = builder;
  has_turn_repo = false;
  has_agent_gen_repo = false;
  has_voice_gen_repo = false;
}

module _ (env : Env) (call : Uuid) (builder : Option RouterPromptBuilder) (ts : ℕ) where
  pub speech-Silent : Silent (on_speech_started env (unwired call builder) ts)
  unfolding on_speech_started cancel_voice cancel_generation report_barge_in withdraw_generation
      persist_cancelled persist
  speech-Silent c = grind (arith, writes-send_debug, writes-emit_debug, writes-append)

  replace-Silent :
      (active : Option Uuid) → Silent (replace_generation env (unwired call builder) ts active)
  unfolding replace_generation persist_cancelled persist cancel_generation cancel_voice
  replace-Silent active c = grind (arith, writes-send_debug, writes-emit_debug, writes-append)

  open-Silent : (turn : Uuid) → Silent (open_generation env (unwired call builder) ts turn)
  unfolding open_generation
  open-Silent turn c = grind (arith, writes-send_debug, writes-emit_debug, writes-append)

  request-Silent :
      (turn gen : Uuid) → Silent (request_response env (unwired call builder) ts turn gen)
  unfolding request_response persist_turn persist
  request-Silent turn gen c = grind (arith, writes-send_debug, writes-emit_debug, writes-append)

  pub transcript-Silent :
      (text : Text) → Silent (on_transcript_final env (unwired call builder) ts text)
  unfolding on_transcript_final persist_transcript persist
  transcript-Silent text c = grind (arith, writes-emit_debug)

  text-Silent : (words : Text) → Silent (record_agent_text env (unwired call builder) ts words)
  unfolding record_agent_text
  text-Silent words c = ground arith

  finish-Silent :
      (source : ResponseSource) (state : AgentState)
      → Silent (finish_speaking env (unwired call builder) ts source state)
  unfolding finish_speaking report_direct
  finish-Silent source AgentState.speaking c = ground arith
  finish-Silent source routing c = grind (arith, writes-send_debug)
  finish-Silent source _ c = refl

  report-Silent : (ms : Option ℤ) → Silent (report_finish env (unwired call builder) ts ms)
  unfolding report_finish
  report-Silent ms c = grind (arith, writes-send_debug)

  persist-Silent :
      (id : Uuid) (state : VoiceState) (error : Option Text)
      → Silent (persist_voice env (unwired call builder) ts id state error)
  unfolding persist_voice
  persist-Silent id state error c = refl

  complete-Silent :
      (id : Uuid) (p : Completed) → Silent (complete_voice env (unwired call builder) ts id p)
  unfolding complete_voice
  complete-Silent id p c =
      let c₁ = (record_agent_text env (unwired call builder) ts p.transcript c).0 in
      let c₂ =
        (finish_speaking env (unwired call builder) ts p.response_source c₁.fsm.state c₁).0 in
      let c₃ = (report_finish env (unwired call builder) ts p.created_to_done_ms c₂).0 in
      ground (
        arith,
        text-Silent p.transcript c,
        finish-Silent p.response_source c₁.fsm.state c₁,
        report-Silent p.created_to_done_ms c₂,
        persist-Silent id VoiceState.completed none c₃,
      )

  pub completed-Silent :
      (p : Completed) (id : IdText) → Silent (on_voice_completed env (unwired call builder) ts p id)
  unfolding on_voice_completed
  completed-Silent p absent c = refl
  completed-Silent p malformed c = refl
  completed-Silent p (canonical id) c = ground (arith, complete-Silent id p c)

  pub error-Silent :
      (error : Text) (id : IdText) → Silent (on_voice_error env (unwired call builder) ts error id)
  unfolding on_voice_error
  error-Silent error absent c = refl
  error-Silent error malformed c = refl
  error-Silent error (canonical id) c =
      ground (arith, persist-Silent id VoiceState.error (some error) c)

  pub tool-Silent : (id : IdText) → Silent (on_tool_result env (unwired call builder) ts id)
  unfolding on_tool_result
  tool-Silent absent c = refl
  tool-Silent malformed c = refl
  tool-Silent (canonical id) c = ground arith

  ask-Silent :
      (world : World) (gen : Uuid) (department summary : Text) (message : Option Text)
      → Silent (ask_specialist env (unwired call builder) ts world gen department summary message)
  unfolding ask_specialist start_filler
  ask-Silent world gen department summary message c =
      grind (arith, writes-send_debug, writes-append)

  pub timer-Silent : (c : Coordinator) → written_by (filler_timer_fires c) ≡ written_by c
  unfolding filler_timer_fires
  timer-Silent c = ground arith

  wait-Silent : (world : World) → Silent (pass_wait env (unwired call builder) ts world)
  unfolding pass_wait
  wait-Silent world c = ground (arith, timer-Silent c)

  speak-Silent : (answer : Answer) → Silent (speak_answer env (unwired call builder) ts answer)
  unfolding speak_answer persist_specialist persist
  speak-Silent answer c = grind (arith, writes-send_debug)

  pub action-Silent :
      (world : World) (department summary : Text) (active : Option Uuid)
      → Silent (route_action env (unwired call builder) ts world department summary active)
  unfolding route_action
  action-Silent world department summary none c = refl
  action-Silent world department summary (some gen) c =
      let message = filler_message (unwired call builder) world.draw department in
      let c₁ =
        (ask_specialist env (unwired call builder) ts world gen department summary message c).0 in
      let asked = ask-Silent world gen department summary message c in
      let waited = wait-Silent world c₁ in
      let c₂ = (pass_wait env (unwired call builder) ts world c₁).0 in
      grind (arith, λ (answer : Answer). speak-Silent answer c₂)

  turn-Silent : (e : TurnEvent) → Silent (on_turn_event env (unwired call builder) ts e)
  unfolding on_turn_event
  turn-Silent (turn_started e) c = refl
  turn-Silent (turn_cancelled e) c = refl
  turn-Silent (turn_finalized e) c =
      let active = c.state.active_agent_generation_id in
      let replaced = replace-Silent active c in
      let c₁ = (replace_generation env (unwired call builder) ts active c).0 in
      let opened = open-Silent e.turn_id c₁ in
      let c₂ = (open_generation env (unwired call builder) ts e.turn_id c₁).0 in
      grind (arith, λ (gen : Uuid). request-Silent e.turn_id gen c₂)

  turns-Silent : (es : List TurnEvent) → Silent (on_turn_events env (unwired call builder) ts es)
  unfolding on_turn_events
  turns-Silent [] c = refl
  turns-Silent (e ∷ es) c =
      ground (
        arith,
        turn-Silent e c,
        turns-Silent es (on_turn_event env (unwired call builder) ts e c).0,
      )

  pub audio-Silent : Silent (on_audio_committed env (unwired call builder) ts)
  unfolding on_audio_committed drain_turns
  audio-Silent c = turns-Silent _ _ ∙ writes-send_debug env audio_committed nothing c.io
