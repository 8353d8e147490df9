-- ===== src/Coordinator/Completion.antt =====
-- What the completion of a voice (`_on_voice_completed` of coordinator.py) does.
use event_driven_ai_voice.Prelude.{
  ℕ, Option, Text, arith, false, if◌then◌else◌, is_empty, Bool-cases, inl, inr, none, ◌≡◌, ℤ, refl,
}
use event_driven_ai_voice.Types.{
  Uuid, AgentState, ResponseSource, VoiceState, canonical, done, routing,
}
use event_driven_ai_voice.Runtime.{is_voice_cancelled}
use event_driven_ai_voice.Fsm.{voice_completed, voice_started}
use event_driven_ai_voice.Buffer.{ConversationBuffer, update_agent_text}
use event_driven_ai_voice.Buffer.Written.{IsWritten, update_agent-IsWritten}
use event_driven_ai_voice.Coordinator.Monad.{Coordinator, Deps, Env, Result, ok}
use event_driven_ai_voice.Coordinator.Voice.{
  Completed, complete_voice, finish_speaking, on_voice_completed, persist_voice, record_agent_text,
  report_finish,
}

-- The machine's state after a voice: a voice that was spoken, or that the model began without a
-- specialist, ends the generation.
abbrev pub after_voice : AgentState → AgentState
after_voice AgentState.speaking = done
after_voice routing = done
after_voice s = s

-- The conversation after a voice with the given transcript.
abbrev pub with_agent_text : ℕ → Text → ConversationBuffer → ConversationBuffer
with_agent_text seq transcript b =
    if is_empty transcript then b else update_agent_text seq transcript b

-- The step returned, and changed at most the machine's state, the conversation, and the effects.
pub record Changes (c : Coordinator) (machine : AgentState) (buffer : ConversationBuffer)
    (c' : Coordinator) (r : Result (Unit {0})) : Type 0 where
  pub returned : r ≡ ok tt
  pub machine_state : c'.fsm.state ≡ machine
  pub text : c'.buffer ≡ buffer
  pub runtime : c'.state ≡ c.state
  pub output : c'.output_events ≡ c.output_events
  pub turn_manager : c'.turns ≡ c.turns

module _ (env : Env) (deps : Deps) (ts : ℕ) where
  record-Changes :
      (transcript : Text) (c : Coordinator)
      → let (c', r) = record_agent_text env deps ts transcript c in
        Changes c c.fsm.state (with_agent_text c.state.turn_seq transcript c.buffer) c' r
  unfolding record_agent_text
  record-Changes transcript c = ground arith

  finish-Changes :
      (source : ResponseSource) (state : AgentState) (c : Coordinator)
      → c.fsm.state ≡ state
      → let (c', r) = finish_speaking env deps ts source state c in
        Changes c (after_voice state) c.buffer c' r
  unfolding finish_speaking voice_started voice_completed
  finish-Changes source AgentState.speaking c e = ground arith
  finish-Changes source routing c e = ground arith
  finish-Changes source _ c e = ground arith

  report-Changes :
      (ms : Option ℤ) (c : Coordinator)
      → let (c', r) = report_finish env deps ts ms c in Changes c c.fsm.state c.buffer c' r
  unfolding report_finish
  report-Changes ms c = ground arith

  persist-Changes :
      (voice : Uuid) (state : VoiceState) (error : Option Text) (c : Coordinator)
      → let (c', r) = persist_voice env deps ts voice state error c in
        Changes c c.fsm.state c.buffer c' r
  unfolding persist_voice
  persist-Changes voice state error c = ground arith

  pub on_voice_completed-Changes :
      (p : Completed) (voice : Uuid) (c : Coordinator)
      → is_voice_cancelled voice c.state ≡ false
      → let (c', r) = on_voice_completed env deps ts p (canonical voice) c in
        Changes c
          (after_voice c.fsm.state)
          (with_agent_text c.state.turn_seq p.transcript c.buffer)
          c'
          r
  unfolding on_voice_completed complete_voice
  on_voice_completed-Changes p voice c live =
      let h₁ = record-Changes p.transcript c in
      let c₁ = (record_agent_text env deps ts p.transcript c).0 in
      let h₂ = finish-Changes p.response_source c₁.fsm.state c₁ refl in
      let c₂ = (finish_speaking env deps ts p.response_source c₁.fsm.state c₁).0 in
      let h₃ = report-Changes p.created_to_done_ms c₂ in
      let c₃ = (report_finish env deps ts p.created_to_done_ms c₂).0 in
      let h₄ = persist-Changes voice VoiceState.completed none c₃ in ground arith

  with_agent-IsWritten :
      (seq : ℕ) (text : Text) (b : ConversationBuffer)
      → IsWritten seq text b (with_agent_text seq text b)
  with_agent-IsWritten seq text b = elim (Bool-cases (is_empty text)) [
    | inl empty ↦ rw empty (IsWritten.no_text empty refl)
    | inr full ↦ rw full (update_agent-IsWritten seq text b full)
  ]

  -- The completion of a voice that was not cancelled returns. The machine is done if it was speaking
  -- or routing and stays as it is otherwise. Where the transcript is not empty and the conversation has
  -- an entry of the current turn, the newest such entry gets the transcript as the agent's text, and the
  -- oldest entries that the limit of characters has no room for then are dropped, which may be all;
  -- else the conversation stays. Neither the runtime state (the voice stays active while it is played),
  -- nor the output, nor the turn manager changes.
  pub on_voice_completed_lem :
      (p : Completed) (voice : Uuid) (c : Coordinator)
      → is_voice_cancelled voice c.state ≡ false
      → let (c', r) = on_voice_completed env deps ts p (canonical voice) c in
        (r ≡ ok tt)
        × (c'.fsm.state ≡ after_voice c.fsm.state)
        × IsWritten c.state.turn_seq p.transcript c.buffer c'.buffer
        × (c'.state ≡ c.state)
        × (c'.output_events ≡ c.output_events)
        × (c'.turns ≡ c.turns)
  on_voice_completed_lem p voice c live =
      let h = on_voice_completed-Changes p voice c live in
      (
        h.returned,
        h.machine_state,
        rw h.text (with_agent-IsWritten c.state.turn_seq p.transcript c.buffer),
        h.runtime,
        h.output,
        h.turn_manager,
      )
