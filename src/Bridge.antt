-- ===== src/Bridge.antt =====
-- backend/src/voice_runtime/realtime_event_bridge.py: the bridge between the provider's events, which
-- the browser forwards, and the coordinator's envelopes. `orjson.loads` and the class of word
-- characters are arguments.
pub mod Messages
pub mod Transcript
pub mod Playback
pub mod Responses
pub mod Routes
pub mod Overlap
use event_driven_ai_voice.Prelude.{
  ℕ, Bool, List, Option, Text, [], codes, false, if◌then◌else◌, is_empty, none, some, strip,
  text_eq, true, ℤ, ◌++◌, ◌+◌, ◌∷◌, pos, Unicode,
}
use event_driven_ai_voice.Types.{
  RealtimeVoiceCancel, RealtimeVoiceStart, ResponseSource, Uuid, canonical, payload, realtime,
  router, say, Prompt,
}
use event_driven_ai_voice.Router.Action.{Loaded, Parsed, parse_function_call_action}
use event_driven_ai_voice.Coordinator.{Body, EventEnvelope}
use event_driven_ai_voice.Coordinator.Monad.{Env, created_to_done_ms}
use event_driven_ai_voice.Coordinator.Output.{elapsed}
use Messages.{
  ClientMessage, ErrorDetail, FunctionCall, ProviderEvent, Shape, detail_message, detail_text,
  function_call_output, no_detail, not_an_object, object_or_missing, response_cancel,
  response_create,
}
use Transcript.{clean_transcript}

-- `sent` is what was handed to the WebSocket; the two counters say which id and which reading of the
-- clock come next.
pub record Bridge : Type 0 where
  pub call_id : Uuid
  pub valid_departments : List Text
  pub has_callback : Bool
  pub has_frontend_ws : Bool
  pub closed : Bool
  pub active_voice_generation_id : Option Uuid
  pub response_transcript_buffer : Text
  pub response_create_sent_ms : ℕ
  pub response_created_ms : ℕ
  pub current_response_source : ResponseSource
  pub function_call_received : Bool
  pub pending_direct_audio : Bool
  pub last_instructions : Text
  pub pending_fn_call_id : Text
  pub pending_fn_item_id : Text
  pub drawn : ℕ
  pub readings : ℕ
  pub sent : List ClientMessage

-- `valid_departments or {...}`
abbrev pub or_departments : Option (List Text) → List Text
or_departments (some (d ∷ ds)) = d ∷ ds
or_departments _ =
    codes "direct" ∷ codes "sales" ∷ codes "billing" ∷ codes "support" ∷ codes "retention" ∷ []

unfoldable pub new : Uuid → Option (List Text) → Bridge
new call_id valid_departments = record {
  call_id = call_id;
  valid_departments = or_departments valid_departments;
  has_callback = false;
  has_frontend_ws = false;
  closed = false;
  active_voice_generation_id = none;
  response_transcript_buffer = [];
  response_create_sent_ms = 0;
  response_created_ms = 0;
  current_response_source = router;
  function_call_received = false;
  pending_direct_audio = false;
  last_instructions = [];
  pending_fn_call_id = [];
  pending_fn_item_id = [];
  drawn = 0;
  readings = 0;
  sent = [];
}

abbrev pub on_event : Bridge → Bridge
on_event b = record b { has_callback = true }

abbrev pub set_frontend_ws : Bool → Bridge → Bridge
set_frontend_ws present b = record b { has_frontend_ws = present }

abbrev pub close : Bridge → Bridge
close b = record b { closed = true; has_frontend_ws = false }

-- A failure of the WebSocket is logged and dropped.
unfoldable pub send_to_frontend : ClientMessage → Bridge → Bridge
send_to_frontend message b =
    if b.has_frontend_ws then record b { sent = b.sent ++ message ∷ [] } else b

-- What is to be said is wrapped into instructions.
abbrev pub say_instructions : Text → Text
say_instructions text =
    codes "Say the following to the customer in the same language "
    ++ codes "they have been speaking (check the conversation history). "
    ++ codes "Translate if needed but keep the same meaning:\n\n"
    ++ text

unfoldable pub send_prompt : Prompt → Bridge → Bridge
unfolding send_to_frontend
send_prompt (payload p) b =
    send_to_frontend (response_create p) (record b { last_instructions = p.instructions })
send_prompt (say text) b =
    send_to_frontend (response_create (record { instructions = say_instructions text; tools = [] }))
      b

unfoldable pub send_voice_cancel : RealtimeVoiceCancel → Bridge → Bridge
unfolding send_to_frontend
send_voice_cancel e b = if b.has_frontend_ws then send_to_frontend response_cancel b else b

-- The envelope that an event is translated to, if any, or the `AttributeError` of malformed data.
pub data Translated : Type 0 where
  quiet : Translated
  told : EventEnvelope → Translated
  attribute_error : Translated

-- A value that is put into a payload only if it is not 0.
abbrev pub if_nonzero : ℤ → Option ℤ
if_nonzero (pos ℕ.zero) = none
if_nonzero d = some d

abbrev pub error_message : ErrorDetail → Text
error_message no_detail = codes "unknown_error"
error_message (detail_message text) = text
error_message (detail_text text) = text

module _ (env : Env) where
  abbrev pub read_clock : Bridge → Bridge
  read_clock b = record b { readings = b.readings + 1 }

  unfoldable pub send_voice_start : RealtimeVoiceStart → Bridge → Bridge
  unfolding send_prompt
  send_voice_start e b =
      if b.has_frontend_ws
      then send_prompt e.prompt (record b {
        active_voice_generation_id = some e.voice_generation_id;
        response_create_sent_ms = env.now_ms b.readings;
        response_created_ms = 0;
        current_response_source = e.response_source;
        readings = b.readings + 1;
      })
      else b

  -- `EventEnvelope(event_id=uuid4(), call_id=self._call_id, ts=_now_ms(), ...)`
  abbrev pub tell : Body → Bridge → Bridge × Translated
  tell body b = (
    record b { drawn = b.drawn + 1; readings = b.readings + 1 },
    told (record {
      event_id = env.uuid4 b.drawn;
      call_id = b.call_id;
      ts = env.now_ms b.readings;
      body = body;
      source = realtime;
    }),
  )

  -- The case of `response.created`.
  unfoldable pub on_response_created : Shape → Bridge → Bridge × Translated
  on_response_created response b =
      let b' = record b {
        response_transcript_buffer = [];
        response_created_ms = env.now_ms b.readings;
        function_call_received = false;
        readings = b.readings + 1;
      } in
      elim response [
        | not_an_object ↦ (b', attribute_error)
        | object_or_missing ↦
            tell
              (Body.response_created b'.current_response_source
                (if_nonzero (elapsed b'.response_created_ms b'.response_create_sent_ms)))
              b'
      ]

  -- What a parsed function call leads to.
  unfoldable pub on_action : Parsed → Bridge → Bridge × Translated
  unfolding text_eq
  on_action Parsed.attribute_error b = (b, attribute_error)
  on_action Parsed.rejected b = (b, quiet)
  on_action (Parsed.action a) b =
      if text_eq a.department (codes "direct")
      then (record b { pending_direct_audio = true }, quiet)
      else tell (Body.model_router_action a.department a.summary)
          (record b { function_call_received = true; active_voice_generation_id = none })

  -- The case of `response.function_call_arguments.done`.
  unfoldable pub on_function_call :
      (Text → Loaded) → Unicode → FunctionCall → Bridge → Bridge × Translated
  unfolding on_action
  on_function_call loads unicode f b =
      on_action
        (parse_function_call_action unicode.lower loads f.name f.arguments b.valid_departments)
        (record b { pending_fn_call_id = f.call_id; pending_fn_item_id = f.item_id })

  -- The acknowledgement of the function call, if there is one to acknowledge.
  unfoldable pub acknowledge : Bridge → Bridge
  unfolding send_to_frontend
  acknowledge b =
      if is_empty b.pending_fn_call_id
      then b
      else record (send_to_frontend (function_call_output b.pending_fn_call_id) b) {
        pending_fn_call_id = [];
        pending_fn_item_id = [];
      }

  -- The second response of a direct answer, without tools.
  unfoldable pub send_direct : Bridge → Bridge
  unfolding acknowledge
  send_direct b =
      let b' =
        acknowledge (record b { pending_direct_audio = false; response_transcript_buffer = [] }) in
      send_to_frontend
        (response_create (record { instructions = b'.last_instructions; tools = [] }))
        (record b' {
          response_create_sent_ms = env.now_ms b'.readings;
          response_created_ms = 0;
          readings = b'.readings + 1;
        })

  module _ (unicode : Unicode) where
    -- The end of a response that was no direct function call; `now` was read before.
    unfoldable pub finish_response : ℕ → Bridge → Bridge × Translated
    unfolding clean_transcript
    finish_response now b =
        let b' = record b { response_transcript_buffer = [] } in
        if b.function_call_received then (b', quiet) else elim b.active_voice_generation_id [
          | none ↦ (b', quiet)
          | some voice ↦
              tell
                (Body.voice_generation_completed (record {
                  voice_generation_id = canonical voice;
                  transcript = clean_transcript unicode.is_word b.response_transcript_buffer;
                  response_source = b.current_response_source;
                  created_to_done_ms = if_nonzero (elapsed now b.response_created_ms);
                }))
                (record b' { active_voice_generation_id = none })
        ]

    -- The case of `response.done`.
    unfoldable pub on_response_done : Shape → Bridge → Bridge × Translated
    unfolding send_direct finish_response
    on_response_done not_an_object b = (read_clock b, attribute_error)
    on_response_done object_or_missing b =
        if b.pending_direct_audio
        then (send_direct (read_clock b), quiet)
        else finish_response (env.now_ms b.readings) (read_clock b)

  -- The case of `response.failed`.
  unfoldable pub on_response_failed : ErrorDetail → Bridge → Bridge × Translated
  on_response_failed detail b = elim b.active_voice_generation_id [
    | none ↦ (b, quiet)
    | some voice ↦
        tell (Body.voice_generation_error (canonical voice) (error_message detail))
          (record b { active_voice_generation_id = none })
  ]

  -- The case of a finished transcription.
  unfoldable pub on_transcription : Text → Bridge → Bridge × Translated
  unfolding strip
  on_transcription transcript b =
      if is_empty (strip transcript)
      then (b, quiet)
      else tell (Body.transcript_final (strip transcript)) b

  -- `_translate_event` up to the callback.
  unfoldable pub translate_event :
      (Text → Loaded) → Unicode → ProviderEvent → Bridge → Bridge × Translated
  unfolding on_response_created on_function_call on_response_done on_response_failed
      on_transcription
  translate_event loads unicode ProviderEvent.speech_started b = tell Body.speech_started b
  translate_event loads unicode ProviderEvent.speech_stopped b = tell Body.speech_stopped b
  translate_event loads unicode ProviderEvent.committed b = tell Body.audio_committed b
  translate_event loads unicode (ProviderEvent.session_updated object_or_missing) b = (b, quiet)
  translate_event loads unicode (ProviderEvent.session_updated not_an_object) b =
      (b, attribute_error)
  translate_event loads unicode (ProviderEvent.response_created response) b =
      on_response_created response b
  translate_event loads unicode (ProviderEvent.transcript_delta delta) b =
      (record b { response_transcript_buffer = b.response_transcript_buffer ++ delta }, quiet)
  translate_event loads unicode (ProviderEvent.function_call_done f) b =
      on_function_call loads unicode f b
  translate_event loads unicode (ProviderEvent.transcription_completed transcript) b =
      on_transcription transcript b
  translate_event loads unicode (ProviderEvent.response_done response) b =
      on_response_done unicode response b
  translate_event loads unicode (ProviderEvent.response_failed detail) b =
      on_response_failed detail b
  translate_event loads unicode (ProviderEvent.ignored type) b = (b, quiet)
