-- ===== src/Specialist.antt =====
-- backend/src/voice_runtime/specialist_tools.py: the triage tools. What the HTTP client meets when
-- the text model is called is an argument, `TextModel`.
pub mod Prompts
pub mod Reply
use event_driven_ai_voice.Prelude.{
  Text, List, Option, [], codes, if◌then◌else◌, is_empty, join, map, none, some, strip, ◌++◌, ◌||◌,
}
use event_driven_ai_voice.Types.{Message, ResponseCreate}
use event_driven_ai_voice.Router.{history_line, newline}
use Prompts.{
  sales_system_prompt, billing_system_prompt, support_system_prompt, retention_system_prompt,
}

-- The text model's side of one call: no client is configured, the request fails in one of the ways
-- that the code tells apart, or a reply arrives, in which `content` may be null.
pub data TextModel : Type 0 where
  not_configured timeout http_error other_error : TextModel
  replied : Option Text → TextModel

-- The text that a reply is good for.
unfoldable pub text_of : TextModel → Option Text
unfolding strip
text_of (replied (some content)) =
    if is_empty content || is_empty (strip content) then none else some (strip content)
text_of _ = none

-- `_call_text_model`: the exchange is a function of the two messages that are sent.
unfoldable pub call_text_model : (Text → Text → TextModel) → Text → Text → Option Text
unfolding text_of
call_text_model model system_prompt user_message = text_of (model system_prompt user_message)

unfoldable pub format_history_block : List Message → Text
unfolding history_line join
format_history_block history =
    if is_empty history
    then []
    else codes "\n\nConversation history:\n" ++ join newline (map history_line history)

unfoldable pub wrap_response_create : Text → ResponseCreate
wrap_response_create instructions = record { instructions = instructions; tools = [] }

pub data Department : Type 0 where
  sales billing support retention : Department

-- `_DEPARTMENT_SYSTEM_PROMPTS`
unfoldable pub department_system_prompt : Department → Text
department_system_prompt sales = sales_system_prompt
department_system_prompt billing = billing_system_prompt
department_system_prompt support = support_system_prompt
department_system_prompt retention = retention_system_prompt

-- What a tool returns: a text to speak, or a payload for the realtime model.
pub data Payload : Type 0 where
  literal : Text → Payload
  create : ResponseCreate → Payload

abbrev pub customer_request : Text → Text
customer_request summary = codes "\n\nCustomer request: " ++ summary

unfoldable pub run_specialist :
    (Text → Text → TextModel) → Department → Text → List Message → Payload
unfolding call_text_model format_history_block wrap_response_create department_system_prompt
run_specialist model department summary history =
    let system_prompt = department_system_prompt department in
    let history_block = format_history_block history in
    elim (call_text_model model system_prompt (history_block ++ customer_request summary)) [
      | some reply ↦ literal reply
      | none ↦
          create (wrap_response_create (system_prompt ++ history_block ++ customer_request summary))
    ]
