-- ===== src/Bridge/Responses.antt =====
-- Whole responses of the model as the bridge (realtime_event_bridge.py) reports them.
use event_driven_ai_voice.Prelude.{
  List, Option, Text, [], ap, false, none, refl, some, sym, ◌++◌, ◌∙◌, ◌∷◌, ◌≡◌, ℤ, Unicode,
}
use mathlib.Core.List.{append_assoc, append-nil}
use event_driven_ai_voice.Types.{ResponseSource, Uuid, canonical}
use event_driven_ai_voice.Router.Action.{Loaded}
use event_driven_ai_voice.Coordinator.{Body, EventEnvelope}
use event_driven_ai_voice.Coordinator.Monad.{Env}
use event_driven_ai_voice.Bridge.Messages.{ProviderEvent, object_or_missing}
use event_driven_ai_voice.Bridge.Transcript.{clean_transcript}
use event_driven_ai_voice.Bridge.{Bridge, Translated, told, translate_event, quiet}

-- All deltas of a transcript, one after the other.
unfoldable pub concat : List Text → Text
concat [] = []
concat (d ∷ ds) = d ++ concat ds

abbrev pub done : ProviderEvent
done = ProviderEvent.response_done object_or_missing

-- The id of what is reported, if anything is.
abbrev event_id_of : Translated → Uuid
event_id_of (told e) = e.event_id
event_id_of _ = 0

module _ (env : Env) (loads : Text → Loaded) (unicode : Unicode) where
  abbrev pub after : ProviderEvent → Bridge → Bridge
  after e b = (translate_event env loads unicode e b).0

  abbrev pub translated : ProviderEvent → Bridge → Translated
  translated e b = (translate_event env loads unicode e b).1

  -- A response: its start, its transcript, and the state in which its end is reported.
  unfoldable pub transcribe : List Text → Bridge → Bridge
  transcribe [] b = b
  transcribe (d ∷ ds) b = transcribe ds (after (ProviderEvent.transcript_delta d) b)

  abbrev pub respond : List Text → Bridge → Bridge
  respond ds b = transcribe ds (after (ProviderEvent.response_created object_or_missing) b)

  pub transcribe-concat :
      (ds : List Text) (b : Bridge)
      → transcribe ds b
        ≡ record b { response_transcript_buffer = b.response_transcript_buffer ++ concat ds }
  unfolding transcribe concat translate_event
  transcribe-concat [] b =
      ap (λ t. record b { response_transcript_buffer = t })
        (sym (append-nil b.response_transcript_buffer))
  transcribe-concat (d ∷ ds) b =
      transcribe-concat ds (after (ProviderEvent.transcript_delta d) b)
      ∙ ap (λ t. record b { response_transcript_buffer = t })
          (append_assoc b.response_transcript_buffer d (concat ds))

  -- The report that a voice was spoken.
  pub record IsCompleted (voice : Uuid) (source : ResponseSource) (words : Text) (t : Translated)
      : Type 0 where
    pub envelope : EventEnvelope
    pub ms : Option ℤ
    pub reported : t ≡ told envelope
    pub body :
        envelope.body
        ≡ Body.voice_generation_completed (record {
          voice_generation_id = canonical voice;
          transcript = clean_transcript unicode.is_word words;
          response_source = source;
          created_to_done_ms = ms;
        })

  pub done-IsCompleted :
      (voice : Uuid) (b : Bridge)
      → b.active_voice_generation_id ≡ some voice
      → b.pending_direct_audio ≡ false
      → b.function_call_received ≡ false
      → IsCompleted voice b.current_response_source b.response_transcript_buffer (translated done b)
        × ((after done b).active_voice_generation_id ≡ none)
        × ((after done b).pending_direct_audio ≡ false)
        × ((after done b).has_callback ≡ b.has_callback)
  unfolding translate_event
  done-IsCompleted voice b active single spoken =
      rw (single, spoken, active)
        (record { envelope = _; ms = _; reported = refl; body = refl }, refl, refl, refl)

  -- The id of the report of a response's end.
  pub done-event_id :
      (voice : Uuid) (b : Bridge)
      → b.active_voice_generation_id ≡ some voice
      → b.pending_direct_audio ≡ false
      → b.function_call_received ≡ false
      → (t : IsCompleted voice b.current_response_source b.response_transcript_buffer
          (translated done b))
      → t.envelope.event_id ≡ env.uuid4 b.drawn
  unfolding translate_event
  done-event_id voice b active single spoken t =
      let reported : event_id_of (translated done b) ≡ env.uuid4 b.drawn =
        rw (single, spoken, active) refl in
      ap event_id_of (sym t.reported) ∙ reported

  -- The end of a response of which nothing is reported.
  pub done_silent :
      (ds : List Text) (b : Bridge)
      → b.pending_direct_audio ≡ false
      → b.active_voice_generation_id ≡ none
      → translated done (respond ds b) ≡ quiet
  unfolding translate_event
  done_silent ds b single quiescent =
      let whole =
        transcribe-concat ds (after (ProviderEvent.response_created object_or_missing) b) in
      rw (whole, single, quiescent) refl

  -- A response for the voice under way, while no direct answer is pending, is reported once it is over,
  -- with its cleaned transcript, the deltas in their order and nothing of an earlier response, and then
  -- no voice is under way.
  pub spoken_response :
      (voice : Uuid) (ds : List Text) (b : Bridge)
      → b.active_voice_generation_id ≡ some voice
      → b.pending_direct_audio ≡ false
      → let b' = respond ds b in
        IsCompleted voice b.current_response_source (concat ds) (translated done b')
        × ((after done b').active_voice_generation_id ≡ none)
  unfolding translate_event
  spoken_response voice ds b active single =
      let b₁ = after (ProviderEvent.response_created object_or_missing) b in
      let whole = transcribe-concat ds b₁ in
      let spoken =
        done-IsCompleted voice (record b₁ { response_transcript_buffer = concat ds }) active single
          refl in
      rw whole (spoken.0, spoken.1)
