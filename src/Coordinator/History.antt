-- ===== src/Coordinator/History.antt =====
-- The conversation's limits over a whole call (coordinator.py and conversation_buffer.py).
pub mod Runs
use event_driven_ai_voice.Coordinator.Completion.{on_voice_completed-Changes}
use event_driven_ai_voice.Runtime.{is_voice_cancelled}
use event_driven_ai_voice.Coordinator.Output.{filler_timer_fires}
use event_driven_ai_voice.Coordinator.Action.{
  World, ask_specialist, filler_message, pass_wait, route_action, speak_answer,
}
use event_driven_ai_voice.Coordinator.Voice.{
  Completed, on_tool_result, on_voice_completed, on_voice_error, persist_voice,
}
use event_driven_ai_voice.Tools.{Answer}
use event_driven_ai_voice.Prelude.{
  ℕ, Option, arith, inl, inr, refl, ◌≡◌, ◌+◌, Bool-cases, List, Text, [], none, some, ◌∷◌,
}
use event_driven_ai_voice.Types.{
  TurnEvent, Uuid, turn_cancelled, turn_finalized, turn_started, IdText, VoiceState, absent,
  canonical, malformed,
}
use event_driven_ai_voice.Buffer.{
  Appended, ConversationBuffer, append, appended, blank_entry, index_error, total_chars,
}
use event_driven_ai_voice.Buffer.Limits.{append_lem}
use event_driven_ai_voice.Buffer.Updates.{
  IsWithin, append-IsWithin, update_agent-IsWithin, update_last-IsWithin,
}
use event_driven_ai_voice.Coordinator.Monad.{Coordinator, Deps, Env, M}
use event_driven_ai_voice.Coordinator.Speech.{on_speech_started}
use event_driven_ai_voice.Coordinator.Committed.{
  append_entry, on_turn_event, open_generation, replace_generation, request_response, drain_turns,
  on_audio_committed, on_transcript_final, on_turn_events,
}

-- The buffer that an append leaves, with an entry or after an `IndexError`.
abbrev buffer_of : Appended → ConversationBuffer
buffer_of (appended b) = b
buffer_of (index_error b) = b

buffer_of-IsWithin :
    (seq : ℕ) (b : ConversationBuffer)
    → IsWithin b
    → IsWithin (buffer_of (append (blank_entry seq) b))
unfolding total_chars
buffer_of-IsWithin seq b h = elim (append_lem (blank_entry seq) b) [
  | inl (_, kept, _) ↦ rw kept (append-IsWithin seq b _ h kept)
  | inr (_, failed) ↦ rw failed (record { turns = omega arith; chars = omega arith })
]

-- The step leaves the conversation as it is.
abbrev Same : {A : Type 0} → M A → Type 0
Same m = (c : Coordinator) → (m c).0.buffer ≡ c.buffer

-- The step keeps the conversation within its limits.
abbrev pub Within : {A : Type 0} → M A → Type 0
Within m = (c : Coordinator) → IsWithin c.buffer → IsWithin (m c).0.buffer

module _ (env : Env) (deps : Deps) (ts : ℕ) where
  pub speech-Same : Same (on_speech_started env deps ts)
  unfolding on_speech_started
  speech-Same c = ground arith

  replace-Same : (active : Option Uuid) → Same (replace_generation env deps ts active)
  unfolding replace_generation
  replace-Same active c = ground arith

  open-buffer_of :
      (turn : Uuid) (c : Coordinator)
      → (open_generation env deps ts turn c).0.buffer
        ≡ buffer_of (append (blank_entry (c.state.turn_seq + 1)) c.buffer)
  unfolding open_generation append_entry
  open-buffer_of turn c = ground arith

  request-Same : (turn gen : Uuid) → Same (request_response env deps ts turn gen)
  unfolding request_response
  request-Same turn gen c = refl

  turn-Within : (e : TurnEvent) → Within (on_turn_event env deps ts e)
  unfolding on_turn_event
  turn-Within (turn_started e) c h = h
  turn-Within (turn_cancelled e) c h = h
  turn-Within (turn_finalized e) c h =
      let active = c.state.active_agent_generation_id in
      let e₁ = replace-Same active c in
      let c₁ = (replace_generation env deps ts active c).0 in
      let h₁ : IsWithin c₁.buffer = rw e₁ h in
      let e₂ = open-buffer_of e.turn_id c₁ in
      let c₂ = (open_generation env deps ts e.turn_id c₁).0 in
      let h₂ : IsWithin c₂.buffer =
        rw e₂ (buffer_of-IsWithin (c₁.state.turn_seq + 1) c₁.buffer h₁) in
      let asked : (gen : Uuid)
          → (request_response env deps ts e.turn_id gen c₂).0.buffer ≡ c₂.buffer =
        λ gen. request-Same e.turn_id gen c₂ in
      grind arith

  turns-Within : (es : List TurnEvent) → Within (on_turn_events env deps ts es)
  unfolding on_turn_events
  turns-Within [] c h = h
  turns-Within (e ∷ es) c h =
      let h₁ = turn-Within e c h in
      let h₂ = turns-Within es (on_turn_event env deps ts e c).0 h₁ in ground arith

  pub audio-Within : Within (on_audio_committed env deps ts)
  unfolding on_audio_committed drain_turns
  audio-Within c h = turns-Within _ _ h

  pub transcript-Within : (text : Text) → Within (on_transcript_final env deps ts text)
  unfolding on_transcript_final
  transcript-Within text c h = let updated = update_last-IsWithin text c.buffer h in ground arith

  pub completed-Within :
      (p : Completed) (id : IdText) → Within (on_voice_completed env deps ts p id)
  unfolding on_voice_completed
  completed-Within p absent c h = h
  completed-Within p malformed c h = h
  completed-Within p (canonical id) c h = elim (Bool-cases (is_voice_cancelled id c.state)) [
    | inl late ↦ ground arith
    | inr live ↦
        let text = (on_voice_completed-Changes env deps ts p id c live).text in
        let updated = update_agent-IsWithin c.state.turn_seq p.transcript c.buffer h in ground arith
  ]

  persist-Same :
      (id : Uuid) (state : VoiceState) (error : Option Text)
      → Same (persist_voice env deps ts id state error)
  unfolding persist_voice
  persist-Same id state error c = ground arith

  pub error-Same : (error : Text) (id : IdText) → Same (on_voice_error env deps ts error id)
  unfolding on_voice_error
  error-Same error absent c = refl
  error-Same error malformed c = refl
  error-Same error (canonical id) c =
      ground (arith, persist-Same id VoiceState.error (some error) c)

  pub tool-Same : (id : IdText) → Same (on_tool_result env deps ts id)
  unfolding on_tool_result
  tool-Same absent c = refl
  tool-Same malformed c = refl
  tool-Same (canonical id) c = ground arith

  pub timer-Same : (c : Coordinator) → (filler_timer_fires c).buffer ≡ c.buffer
  unfolding filler_timer_fires
  timer-Same c = ground arith

  ask-Same :
      (world : World) (gen : Uuid) (department summary : Text) (message : Option Text)
      → Same (ask_specialist env deps ts world gen department summary message)
  unfolding ask_specialist
  ask-Same world gen department summary message c = ground arith

  wait-Same : (world : World) → Same (pass_wait env deps ts world)
  unfolding pass_wait
  wait-Same world c = ground (arith, timer-Same c)

  speak-Same : (answer : Answer) → Same (speak_answer env deps ts answer)
  unfolding speak_answer
  speak-Same answer c = ground arith

  pub action-Same :
      (world : World) (department summary : Text) (active : Option Uuid)
      → Same (route_action env deps ts world department summary active)
  unfolding route_action
  action-Same world department summary none c = refl
  action-Same world department summary (some gen) c =
      let message = filler_message deps world.draw department in
      let e₁ = ask-Same world gen department summary message c in
      let c₁ = (ask_specialist env deps ts world gen department summary message c).0 in
      let e₂ = wait-Same world c₁ in
      let c₂ = (pass_wait env deps ts world c₁).0 in
      let answered : (answer : Answer) → (speak_answer env deps ts answer c₂).0.buffer ≡ c₂.buffer =
        λ answer. speak-Same answer c₂ in
      grind arith
