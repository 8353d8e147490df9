-- ===== src/Tests/Bridge.antt =====
-- Concrete events at the bridge.
use event_driven_ai_voice.Prelude.{
  lower, Unicode, ℕ, List, Text, [], codes, false, leb, none, refl, some, text_eq, true, ◌&&◌, ◌++◌,
  ◌+◌, if◌then◌else◌, ◌∷◌, ◌≡◌, strip,
}
use event_driven_ai_voice.Types.{
  CancelReason, RealtimeVoiceCancel, RealtimeVoiceStart, say, specialist,
}
use event_driven_ai_voice.Router.Action.{
  Loaded, ModelRouterAction, Parsed, parse_function_call_action,
}
use event_driven_ai_voice.Coordinator.{Body, EventEnvelope}
use event_driven_ai_voice.Coordinator.Monad.{Env}
use event_driven_ai_voice.Bridge.Messages.{
  FunctionCall, ProviderEvent, function_call_output, no_detail, object_or_missing, response_cancel,
  response_create,
}
use event_driven_ai_voice.Bridge.Transcript.{clean_transcript}
use event_driven_ai_voice.Bridge.Transcript.Clean.{IsBeforeLeak, clean_transcript_lem, mentions}
use event_driven_ai_voice.Bridge.{
  Bridge, new, on_event, quiet, send_voice_cancel, send_voice_start, set_frontend_ws, told,
}
use event_driven_ai_voice.Bridge.Playback.{
  Call, frontend_event, frontend_ws, register, replay, run, run_refines,
}
use event_driven_ai_voice.Bridge.Responses.{
  IsCompleted, after, concat, done, respond, transcribe, translated,
}
use event_driven_ai_voice.Bridge.Routes.{cancelled_direct_answered, direct_answer, routed_response}
use event_driven_ai_voice.Bridge.Overlap.{overlapping_responses}

abbrev pub env : Env
env = record { uuid4 = λ n. 500 + n; now_ms = λ n. 2000 + n }

-- Arguments that are "b" name the department billing, all others a direct answer.
abbrev pub loads : Text → Loaded
loads arguments =
    if text_eq arguments (codes "b")
    then Loaded.object (codes "Billing") (codes " a refund ")
    else Loaded.object (codes "direct") []

abbrev pub unicode : Unicode
unicode = record { is_word = λ c. leb b'a' c && leb c b'z'; lower = lower }

-- A bridge that is wired and connected, with the voice 7 under way.
abbrev pub speaking : Bridge
speaking = record (on_event (set_frontend_ws true (new 1 none))) {
  active_voice_generation_id = some 7;
  last_instructions = codes "Be brief.";
}

abbrev pub called : Text → FunctionCall
called arguments = record {
  name = codes "route_to_specialist";
  arguments = arguments;
  call_id = codes "c1";
  item_id = codes "i1";
}

abbrev pub start : ℕ → RealtimeVoiceStart
start voice = record {
  call_id = 1;
  agent_generation_id = none;
  voice_generation_id = voice;
  prompt = say (codes "One moment.");
  ts = 10;
  response_source = specialist;
}

abbrev stop : RealtimeVoiceCancel
stop = record { call_id = 1; voice_generation_id = 7; reason = CancelReason.barge_in; ts = 20 }

abbrev words : List Text
words = codes "Hel" ∷ codes "lo." ∷ []

abbrev direct_action : ModelRouterAction
direct_action = record { department = codes "direct"; summary = [] }

abbrev billing_action : ModelRouterAction
billing_action = record { department = codes "billing"; summary = codes "a refund" }

parsed_direct :
    parse_function_call_action unicode.lower loads
      (codes "route_to_specialist")
      (codes "d")
      speaking.valid_departments
    ≡ Parsed.action direct_action
unfolding parse_function_call_action new lower
parsed_direct = refl

parsed_billing :
    parse_function_call_action unicode.lower loads
      (codes "route_to_specialist")
      (codes "b")
      speaking.valid_departments
    ≡ Parsed.action billing_action
unfolding parse_function_call_action new lower
parsed_billing = refl

-- A filler's start, a response, and the specialist's start in its midst.
abbrev calls : List Call
calls =
    register
    ∷ frontend_ws true
    ∷ Call.voice_start (start 7)
    ∷ frontend_event (ProviderEvent.response_created object_or_missing)
    ∷ Call.voice_start (start 8)
    ∷ frontend_event done
    ∷ frontend_event (ProviderEvent.response_failed no_detail)
    ∷ []

run_refines_example :
    let (b, ms) = run env loads unicode calls (new 1 none) in
    replay (some none) ms ≡ some b.active_voice_generation_id
run_refines_example = run_refines env loads unicode 1 none calls

direct_answer_example :
    let b₁ =
      after env loads unicode (ProviderEvent.function_call_done (called (codes "d"))) speaking in
    let b₂ = after env loads unicode done b₁ in
    (translated env loads unicode (ProviderEvent.function_call_done (called (codes "d"))) speaking
      ≡ quiet)
    × (translated env loads unicode done b₁ ≡ quiet)
    × (b₂.sent
        ≡ speaking.sent
          ++ function_call_output (codes "c1")
            ∷ response_create (record { instructions = codes "Be brief."; tools = [] })
            ∷ [])
    × IsCompleted env loads unicode 7 speaking.current_response_source
        (concat words)
        (translated env loads unicode done (respond env loads unicode words b₂))
unfolding new
direct_answer_example =
    direct_answer env loads unicode (called (codes "d")) direct_action 7 words speaking
      parsed_direct refl refl refl refl

routed_response_example :
    let f = called (codes "b") in
    let b₁ = after env loads unicode (ProviderEvent.function_call_done f) speaking in
    ((e : EventEnvelope) × (translated env loads unicode
          (ProviderEvent.function_call_done f)
          speaking
        ≡ told e)
      × (e.body ≡ Body.model_router_action (codes "billing") (codes "a refund")))
    × (b₁.active_voice_generation_id ≡ none)
    × (translated env loads unicode done (transcribe env loads unicode words b₁) ≡ quiet)
unfolding text_eq new
routed_response_example =
    routed_response env loads unicode (called (codes "b")) billing_action words speaking
      parsed_billing refl refl

overlapping_responses_example :
    let b₁ = send_voice_start env (start 8) (send_voice_start env (start 7) speaking) in
    let b₂ = respond env loads unicode words b₁ in
    let b₃ = after env loads unicode done b₂ in
    IsCompleted env loads unicode 8 specialist (concat words) (translated env loads unicode done b₂)
    × (translated env loads unicode done (respond env loads unicode words b₃) ≡ quiet)
unfolding new
overlapping_responses_example =
    overlapping_responses env loads unicode (start 7) (start 8) words words speaking refl refl

cancelled_direct_answered_example :
    let f = called (codes "d") in
    let b₁ = after env loads unicode (ProviderEvent.function_call_done f) speaking in
    (after env loads unicode done (send_voice_cancel stop b₁)).sent
    ≡ speaking.sent
      ++ response_cancel
        ∷ function_call_output (codes "c1")
        ∷ response_create (record { instructions = codes "Be brief."; tools = [] })
        ∷ []
unfolding new
cancelled_direct_answered_example =
    cancelled_direct_answered env loads unicode (called (codes "d")) direct_action stop speaking
      parsed_direct refl refl refl

abbrev leaked : Text
leaked = codes "One moment. (functions.route_to_specialist(department=x))"

clean_transcript_lem_example :
    (kept : Text) × IsBeforeLeak unicode.is_word leaked kept
    × (clean_transcript unicode.is_word leaked ≡ strip kept)
    × (mentions (clean_transcript unicode.is_word leaked) ≡ false)
clean_transcript_lem_example = clean_transcript_lem unicode.is_word leaked
