-- ===== src/Coordinator/Coherence/Voices.antt =====
-- Coherence through the events of voices, transcripts and tools (coordinator.py).
use event_driven_ai_voice.Coordinator.Coherence.Keeps.{Keeps, KeepsAt}
use event_driven_ai_voice.Fsm.{voice_completed, voice_started}
use event_driven_ai_voice.Turns.{handle_transcript_final}
use event_driven_ai_voice.Coordinator.Monad.{
  Coordinator, Deps, Env, Result, ok, raised, value_error,
}
use event_driven_ai_voice.Prelude.{ℕ, Text, arith, refl, ◌≡◌, Option, none, some, ℤ}
use event_driven_ai_voice.Types.{
  IdText, absent, canonical, malformed, Uuid, AgentState, ResponseSource, VoiceState, routing,
}
use event_driven_ai_voice.Buffer.{update_agent_text, update_last_user_text, ConversationBuffer}
use event_driven_ai_voice.Coordinator.Committed.{on_transcript_final}
use event_driven_ai_voice.Coordinator.Voice.{
  on_voice_completed, Completed, complete_voice, on_tool_result, on_voice_error, finish_speaking,
  persist_voice, record_agent_text, report_finish,
}
use event_driven_ai_voice.Coordinator.Coherence.{IsCoherent}

pub update_agent-max_turns :
    (seq : ℕ) (text : Text) (b : ConversationBuffer)
    → (update_agent_text seq text b).max_turns ≡ b.max_turns
unfolding update_agent_text
update_agent-max_turns seq text b = ground arith

pub update_last-max_turns :
    (text : Text) (b : ConversationBuffer) → (update_last_user_text text b).max_turns ≡ b.max_turns
unfolding update_last_user_text
update_last-max_turns text b = ground arith

-- What an id in a payload makes of the call.
abbrev pub id_result : IdText → Result (Unit {0})
id_result malformed = raised value_error
id_result _ = ok tt

module _ (env : Env) (deps : Deps) (ts : ℕ) where
  pub transcript-IsCoherent :
      (text : Text) (c : Coordinator)
      → IsCoherent c
      → IsCoherent (on_transcript_final env deps ts text c).0
        × ((on_transcript_final env deps ts text c).1 ≡ ok tt)
  unfolding on_transcript_final handle_transcript_final
  transcript-IsCoherent text c h = ground (arith, update_last-max_turns text c.buffer)

  persist_voice-Keeps :
      (voice : Uuid) (state : VoiceState) (error : Option Text)
      → Keeps (persist_voice env deps ts voice state error)
  unfolding persist_voice
  persist_voice-Keeps voice state error c h = ground arith

  finish-Keeps :
      (source : ResponseSource) (state : AgentState) (c : Coordinator)
      → c.fsm.state ≡ state
      → KeepsAt c (finish_speaking env deps ts source state)
  unfolding finish_speaking voice_started voice_completed
  finish-Keeps source AgentState.speaking c e h = ground arith
  finish-Keeps source routing c e h = ground arith
  finish-Keeps source _ c e h = (h, refl)

  record-Keeps : (transcript : Text) → Keeps (record_agent_text env deps ts transcript)
  unfolding record_agent_text
  record-Keeps words c h = ground (arith, update_agent-max_turns c.state.turn_seq words c.buffer)

  report-Keeps : (ms : Option ℤ) → Keeps (report_finish env deps ts ms)
  unfolding report_finish
  report-Keeps ms c h = ground arith

  complete-Keeps : (voice : Uuid) (p : Completed) → Keeps (complete_voice env deps ts voice p)
  unfolding complete_voice
  complete-Keeps voice p c h =
      let (h₁, r₁) = record-Keeps p.transcript c h in
      let c₁ = (record_agent_text env deps ts p.transcript c).0 in
      let (h₂, r₂) = finish-Keeps p.response_source c₁.fsm.state c₁ refl h₁ in
      let c₂ = (finish_speaking env deps ts p.response_source c₁.fsm.state c₁).0 in
      let (h₃, r₃) = report-Keeps p.created_to_done_ms c₂ h₂ in
      let c₃ = (report_finish env deps ts p.created_to_done_ms c₂).0 in
      let (h₄, r₄) = persist_voice-Keeps voice VoiceState.completed none c₃ h₃ in ground arith

  pub completed-IsCoherent :
      (p : Completed) (id : IdText) (c : Coordinator)
      → IsCoherent c
      → IsCoherent (on_voice_completed env deps ts p id c).0
        × ((on_voice_completed env deps ts p id c).1 ≡ id_result id)
  unfolding on_voice_completed
  completed-IsCoherent p absent c h = (h, refl)
  completed-IsCoherent p malformed c h = (h, refl)
  completed-IsCoherent p (canonical voice) c h = ground (arith, complete-Keeps voice p c h)

  pub error-IsCoherent :
      (error : Text) (id : IdText) (c : Coordinator)
      → IsCoherent c
      → IsCoherent (on_voice_error env deps ts error id c).0
        × ((on_voice_error env deps ts error id c).1 ≡ id_result id)
  unfolding on_voice_error
  error-IsCoherent error absent c h = ground arith
  error-IsCoherent error malformed c h = (h, refl)
  error-IsCoherent error (canonical voice) c h =
      ground (arith, persist_voice-Keeps voice VoiceState.error (some error) c h)

  pub tool-IsCoherent :
      (id : IdText) (c : Coordinator)
      → IsCoherent c
      → IsCoherent (on_tool_result env deps ts id c).0
        × ((on_tool_result env deps ts id c).1 ≡ id_result id)
  unfolding on_tool_result
  tool-IsCoherent absent c h = ground arith
  tool-IsCoherent malformed c h = (h, refl)
  tool-IsCoherent (canonical gen) c h = ground arith
