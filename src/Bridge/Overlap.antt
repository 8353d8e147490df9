-- ===== src/Bridge/Overlap.antt =====
-- What the bridge (realtime_event_bridge.py) reports when a second voice is started in the midst of
-- the first one's response.
use event_driven_ai_voice.Types.{RealtimeVoiceStart, payload, say, Prompt}
use mathlib.Core.Path.{subst}
use event_driven_ai_voice.Prelude.{
  Text, false, true, ◌≡◌, refl, ◌+◌, List, ap, some, ◌∙◌, Bool-cases, inl, inr, if◌then◌else◌,
  Unicode, none,
}
use event_driven_ai_voice.Router.Action.{Loaded}
use event_driven_ai_voice.Coordinator.Monad.{Env}
use event_driven_ai_voice.Bridge.Messages.{
  ProviderEvent, response_create, ClientMessage, object_or_missing,
}
use event_driven_ai_voice.Bridge.Responses.{
  done, IsCompleted, after, concat, respond, transcribe-concat, translated, done-IsCompleted,
  done_silent,
}
use event_driven_ai_voice.Bridge.{
  Bridge, quiet, translate_event, send_prompt, send_voice_start, send_to_frontend,
}

module _ (env : Env) (loads : Text → Loaded) (unicode : Unicode) where
  -- The fields that a prompt leaves as they are.
  abbrev pub SamePlayback : Bridge → Bridge → Type 0
  SamePlayback b b' =
      (b'.active_voice_generation_id ≡ b.active_voice_generation_id)
      × (b'.current_response_source ≡ b.current_response_source)
      × (b'.response_transcript_buffer ≡ b.response_transcript_buffer)
      × (b'.function_call_received ≡ b.function_call_received)
      × (b'.pending_direct_audio ≡ b.pending_direct_audio)
      × (b'.has_frontend_ws ≡ b.has_frontend_ws)

  send_to_frontend_lem : (m : ClientMessage) (b : Bridge) → SamePlayback b (send_to_frontend m b)
  unfolding send_to_frontend
  send_to_frontend_lem m b = elim (Bool-cases b.has_frontend_ws) [
    | inl ws ↦ rw ws (refl, refl, refl, refl, refl, refl)
    | inr gone ↦ rw gone (refl, refl, refl, refl, refl, refl)
  ]

  send_prompt_lem : (p : Prompt) (b : Bridge) → SamePlayback b (send_prompt p b)
  unfolding send_prompt
  send_prompt_lem (payload p) b =
      send_to_frontend_lem (response_create p) (record b { last_instructions = p.instructions })
  send_prompt_lem (say text) b = send_to_frontend_lem _ b

  -- A voice's start, where the browser is there.
  abbrev pub opened : RealtimeVoiceStart → Bridge → Bridge
  opened e b = record b {
    active_voice_generation_id = some e.voice_generation_id;
    response_create_sent_ms = env.now_ms b.readings;
    response_created_ms = 0;
    current_response_source = e.response_source;
    readings = b.readings + 1;
  }

  pub start_lem :
      (e : RealtimeVoiceStart) (b : Bridge)
      → b.has_frontend_ws ≡ true
      → SamePlayback (opened e b) (send_voice_start env e b)
  unfolding send_voice_start
  start_lem e b ws =
      rw (ap (λ w. if w then send_prompt e.prompt (opened e b) else b) ws)
        (send_prompt_lem e.prompt (opened e b))

  -- The end of a response, whose voice is the one that was started last.
  respond-IsCompleted :
      (e : RealtimeVoiceStart) (ds : List Text) (b : Bridge)
      → b.has_frontend_ws ≡ true
      → b.pending_direct_audio ≡ false
      → let b₁ = respond env loads unicode ds (send_voice_start env e b) in
        IsCompleted env loads unicode e.voice_generation_id e.response_source
          (concat ds)
          (translated env loads unicode done b₁)
        × ((after env loads unicode done b₁).active_voice_generation_id ≡ none)
        × ((after env loads unicode done b₁).pending_direct_audio ≡ false)
  unfolding translate_event
  respond-IsCompleted e ds b ws single =
      let now = start_lem e b ws in
      let b₀ = send_voice_start env e b in
      let created = after env loads unicode (ProviderEvent.response_created object_or_missing) b₀ in
      let ended =
        done-IsCompleted env loads unicode e.voice_generation_id
          (record created { response_transcript_buffer = concat ds }) now.0 (now.4 ∙ single) refl in
      rw (transcribe-concat env loads unicode ds created) (
        subst
            (λ s. IsCompleted env loads unicode e.voice_generation_id s (concat ds) (
              translated env loads unicode done
                (record created { response_transcript_buffer = concat ds })))
            now.1 ended.0,
        ended.1,
        ended.2,
      )

  -- Two voices are started one right after the other, before any frame of a response, as the filler
  -- and the specialist's answer are by one routing action: the end of the first response is reported as
  -- the completion of the second voice, with the first response's words, and the end of the second
  -- response is not reported. This holds where the browser is there and no direct answer is pending.
  pub overlapping_responses :
      (first second : RealtimeVoiceStart) (ds rest : List Text) (b : Bridge)
      → b.has_frontend_ws ≡ true
      → b.pending_direct_audio ≡ false
      → let b₁ = send_voice_start env second (send_voice_start env first b) in
        let b₂ = respond env loads unicode ds b₁ in
        let b₃ = after env loads unicode done b₂ in
        IsCompleted env loads unicode second.voice_generation_id second.response_source
          (concat ds)
          (translated env loads unicode done b₂)
        × (translated env loads unicode done (respond env loads unicode rest b₃) ≡ quiet)
  overlapping_responses first second ds rest b ws single =
      let before = start_lem first b ws in
      let ended =
        respond-IsCompleted second ds (send_voice_start env first b) (before.5 ∙ ws)
          (before.4 ∙ single) in
      let b₂ =
        respond env loads unicode ds (send_voice_start env second (send_voice_start env first b)) in
      (
        ended.0,
        done_silent env loads unicode rest (after env loads unicode done b₂) ended.2 ended.1,
      )
