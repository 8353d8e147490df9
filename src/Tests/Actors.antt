-- ===== src/Tests/Actors.antt =====
-- The bus, the stub of the voice provider and the policies at concrete inputs.
use event_driven_ai_voice.Prelude.{◌==◌, List, Text, [], codes, some, Bool, ℕ, ◌∷◌, ◌≡◌, Option}
use event_driven_ai_voice.Types.{
  CancelReason, Prompt, RealtimeVoiceCancel, RealtimeVoiceStart, ResponseSource,
}
use event_driven_ai_voice.RealtimeClient.{
  StubRealtimeClient, cancel, on_event, run, start, wake_up, new,
}
use event_driven_ai_voice.RealtimeClient.Reports.{reports}
use event_driven_ai_voice.RealtimeClient.Cancelled.{reports-cancelled}
use event_driven_ai_voice.Bus
use event_driven_ai_voice.Bus.Fifo.{passed, taken, dispatched-run}
use event_driven_ai_voice.Router.Policies.{PoliciesFile, PoliciesRegistry}
use event_driven_ai_voice.Tests.Calls.{env}

abbrev started : RealtimeVoiceStart
started = record {
  call_id = 1;
  agent_generation_id = some 2;
  voice_generation_id = 3;
  prompt = Prompt.say (codes "Test prompt");
  ts = 1000;
  response_source = ResponseSource.router;
}

abbrev cancelled : RealtimeVoiceCancel
cancelled = record {
  call_id = 1;
  voice_generation_id = 3;
  reason = CancelReason.barge_in;
  ts = 1000;
}

abbrev client : StubRealtimeClient
client = on_event (new 50)

reports-cancelled_example :
    reports 3 (run env (cancel cancelled ∷ start started ∷ wake_up 0 ∷ []) client).emitted
    ≡ reports 3 client.emitted
reports-cancelled_example = reports-cancelled env cancelled (start started ∷ wake_up 0 ∷ []) client

-- Events are their types; the handler of `b` raises.
abbrev type_of : Text → Text
type_of e = e

abbrev answers : ℕ → Text → Bool
answers h e = h == 0

abbrev bus_acts : List (Bus.Act Text)
bus_acts =
    Bus.register_handler (codes "a") 0
    ∷ Bus.register_handler (codes "b") 1
    ∷ Bus.publish_event (codes "a")
    ∷ Bus.publish_event (codes "b")
    ∷ Bus.publish_event (codes "c")
    ∷ Bus.consume_event
    ∷ Bus.consume_event
    ∷ []

dispatched-run_example :
    passed type_of answers (Bus.run type_of answers bus_acts (Bus.new 2))
    ≡ taken type_of answers bus_acts (Bus.new 2)
dispatched-run_example = dispatched-run type_of answers 2 bus_acts

abbrev policy : Text × Option Text
policy = (codes "greeting", some (codes "Greet."))

abbrev pub file : PoliciesFile
file = record {
  base_system = some (codes "Be kind.");
  policies = some (
      (codes "greeting", some (codes "Greet."))
      ∷ (codes "handoff_offer", some (codes "Offer."))
      ∷ (codes "guardrail_disallowed", some (codes "Decline."))
      ∷ (codes "guardrail_out_of_scope", some (codes "Explain."))
      ∷ (codes "clarify_department", some (codes "Ask."))
      ∷ []);
}

abbrev registry : PoliciesRegistry
registry = record {
  base_system = codes "Be kind.";
  policies =
      (codes "greeting", codes "Greet.")
      ∷ (codes "handoff_offer", codes "Offer.")
      ∷ (codes "guardrail_disallowed", codes "Decline.")
      ∷ (codes "guardrail_out_of_scope", codes "Explain.")
      ∷ (codes "clarify_department", codes "Ask.")
      ∷ [];
}
