-- ===== src/Calls/Parts/Linked.antt =====
-- What passes between the bridge and the coordinator of a session (api/routes/calls.py): the events
-- that the bridge's calls report, and the calls that deliver output events.
use event_driven_ai_voice.Router.Action.{Loaded}
use event_driven_ai_voice.Coordinator.Monad.{Coordinator, Deps, Env}
use event_driven_ai_voice.Bridge.{Bridge, told, translate_event, Translated}
use mathlib.Core.List.{append_assoc}
use event_driven_ai_voice.Coordinator.{EventEnvelope}
use event_driven_ai_voice.Prelude.{
  Bool, List, Text, [], ap, refl, sym, ◌++◌, ◌∙◌, ◌∷◌, ◌≡◌, false, true, Unicode,
}
use event_driven_ai_voice.Bridge.Playback
use event_driven_ai_voice.Bridge.Playback.{Call, frontend_event}
use event_driven_ai_voice.Coordinator
use event_driven_ai_voice.Coordinator.{Input, step}
use event_driven_ai_voice.Types.{OutputEvent, cancel_agent}

-- The calls of the bridge by which an output event is delivered.
abbrev pub output_calls : OutputEvent → List Call
output_calls (OutputEvent.voice_start e) = Call.voice_start e ∷ []
output_calls (OutputEvent.voice_cancel e) = Call.voice_cancel e ∷ []
output_calls (cancel_agent e) = []

unfoldable pub outputs_calls : List OutputEvent → List Call
outputs_calls [] = []
outputs_calls (e ∷ es) = output_calls e ++ outputs_calls es

pub outputs_calls-append :
    (es fs : List OutputEvent) → outputs_calls (es ++ fs) ≡ outputs_calls es ++ outputs_calls fs
unfolding outputs_calls
outputs_calls-append [] fs = refl
outputs_calls-append (e ∷ es) fs =
    ap (λ ks. output_calls e ++ ks) (outputs_calls-append es fs)
    ∙ sym (append_assoc (output_calls e) (outputs_calls es) (outputs_calls fs))

-- The calls that start or cancel a voice.
abbrev pub delivery_of : Call → List Call
delivery_of (Call.voice_start e) = Call.voice_start e ∷ []
delivery_of (Call.voice_cancel e) = Call.voice_cancel e ∷ []
delivery_of _ = []

unfoldable pub deliveries : List Call → List Call
deliveries [] = []
deliveries (k ∷ ks) = delivery_of k ++ deliveries ks

pub deliveries-append : (ks ls : List Call) → deliveries (ks ++ ls) ≡ deliveries ks ++ deliveries ls
unfolding deliveries
deliveries-append [] ls = refl
deliveries-append (k ∷ ks) ls =
    ap (λ ms. delivery_of k ++ ms) (deliveries-append ks ls)
    ∙ sym (append_assoc (delivery_of k) (deliveries ks) (deliveries ls))

pub deliveries-outputs_calls :
    (es : List OutputEvent) → deliveries (outputs_calls es) ≡ outputs_calls es
unfolding outputs_calls deliveries
deliveries-outputs_calls [] = refl
deliveries-outputs_calls (OutputEvent.voice_start e ∷ es) =
    ap (◌∷◌ (Call.voice_start e)) (deliveries-outputs_calls es)
deliveries-outputs_calls (OutputEvent.voice_cancel e ∷ es) =
    ap (◌∷◌ (Call.voice_cancel e)) (deliveries-outputs_calls es)
deliveries-outputs_calls (cancel_agent e ∷ es) = deliveries-outputs_calls es

-- The events among the coordinator's inputs.
abbrev pub event_of : Input → List EventEnvelope
event_of (Input.event world seen e) = e ∷ []
event_of _ = []

unfoldable pub events_of : List Input → List EventEnvelope
events_of [] = []
events_of (i ∷ is) = event_of i ++ events_of is

pub events_of-append : (is js : List Input) → events_of (is ++ js) ≡ events_of is ++ events_of js
unfolding events_of
events_of-append [] js = refl
events_of-append (i ∷ is) js =
    ap (λ es. event_of i ++ es) (events_of-append is js)
    ∙ sym (append_assoc (event_of i) (events_of is) (events_of js))

-- What a bridge tells its callback, if it has one.
abbrev pub told_of : Translated → Bool → List EventEnvelope
told_of (told e) true = e ∷ []
told_of (told e) false = []
told_of _ wired = []

pub coordinator_run-append :
    (env : Env) (deps : Deps) (is js : List Input) (c : Coordinator)
    → Coordinator.run env deps (is ++ js) c
      ≡ Coordinator.run env deps js (Coordinator.run env deps is c)
unfolding Coordinator.run
coordinator_run-append env deps [] js c = refl
coordinator_run-append env deps (i ∷ is) js c =
    coordinator_run-append env deps is js (step env deps i c)

module _ (bridge_env : Env) (loads : Text → Loaded) (unicode : Unicode) where
  abbrev pub bridge_run : List Call → Bridge → Bridge
  bridge_run ks b = (Playback.run bridge_env loads unicode ks b).0

  pub bridge_run-append :
      (ks ls : List Call) (b : Bridge) → bridge_run (ks ++ ls) b ≡ bridge_run ls (bridge_run ks b)
  unfolding Playback.run
  bridge_run-append [] ls b = refl
  bridge_run-append (k ∷ ks) ls b =
      bridge_run-append ks ls (Playback.call bridge_env loads unicode k b).0

  -- What a call of the bridge reports to the coordinator.
  abbrev pub report_of : Call → Bridge → List EventEnvelope
  report_of (frontend_event input) b =
      let (b', t) = translate_event bridge_env loads unicode input b in told_of t b'.has_callback
  report_of _ b = []

  unfoldable pub reports : List Call → Bridge → List EventEnvelope
  reports [] b = []
  reports (k ∷ ks) b = report_of k b ++ reports ks (Playback.call bridge_env loads unicode k b).0

  pub reports-append :
      (ks ls : List Call) (b : Bridge)
      → reports (ks ++ ls) b ≡ reports ks b ++ reports ls (bridge_run ks b)
  unfolding Playback.run reports
  reports-append [] ls b = refl
  reports-append (k ∷ ks) ls b =
      let b' = (Playback.call bridge_env loads unicode k b).0 in
      ap (λ es. report_of k b ++ es) (reports-append ks ls b')
      ∙ sym (append_assoc (report_of k b) (reports ks b') (reports ls (bridge_run ks b')))
