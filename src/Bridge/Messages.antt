-- ===== src/Bridge/Messages.antt =====
-- What passes between the browser and backend/src/voice_runtime/realtime_event_bridge.py: the
-- provider's events, with what the bridge reads of them, and the messages that it sends back.
use event_driven_ai_voice.Prelude.{Text, List}
use event_driven_ai_voice.Types.{ResponseCreate, ToolDefinition}

-- A field of which the code calls `.get` or `.keys`: an object or missing, or something else.
pub data Shape : Type 0 where
  object_or_missing : Shape
  not_an_object : Shape

-- The `error` of a failed response: an object without a `message`, or missing; the `str` of an
-- object's `message`; or the `str` of a value that is no object.
pub data ErrorDetail : Type 0 where
  no_detail : ErrorDetail
  detail_message : Text → ErrorDetail
  detail_text : Text → ErrorDetail

-- A finished function call of the model; a missing field is the empty text.
pub record FunctionCall : Type 0 where
  pub name : Text
  pub arguments : Text
  pub call_id : Text
  pub item_id : Text

-- An event of the provider, by its `type`. Both names of the transcript's delta are one case, and
-- `ignored` is every other type, `error` included, which is only logged.
pub data ProviderEvent : Type 0 where
  speech_started speech_stopped committed : ProviderEvent
  session_updated : Shape → ProviderEvent
  response_created : Shape → ProviderEvent
  transcript_delta : Text → ProviderEvent
  function_call_done : FunctionCall → ProviderEvent
  transcription_completed : Text → ProviderEvent
  response_done : Shape → ProviderEvent
  response_failed : ErrorDetail → ProviderEvent
  ignored : Text → ProviderEvent

-- A message that the browser forwards to the provider.
pub data ClientMessage : Type 0 where
  response_create : ResponseCreate → ClientMessage
  response_cancel : ClientMessage
  function_call_output : Text → ClientMessage
  session_update : List ToolDefinition → ClientMessage
