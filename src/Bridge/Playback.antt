-- ===== src/Bridge/Playback.antt =====
-- The voices that the bridge (realtime_event_bridge.py) reports, against a specification that knows
-- only which voice is under way.
use event_driven_ai_voice.Prelude.{
  List, Option, Text, [], arith, none, refl, some, ◌++◌, ◌==◌, ==_refl, ◌∷◌, ◌≡◌, if◌then◌else◌,
  Bool, ap, ◌∙◌, Unicode,
}
use event_driven_ai_voice.Types.{IdText, RealtimeVoiceCancel, RealtimeVoiceStart, Uuid, canonical}
use event_driven_ai_voice.Router.Action.{Loaded}
use event_driven_ai_voice.Coordinator.{Body}
use event_driven_ai_voice.Coordinator.Monad.{Env}
use event_driven_ai_voice.Bridge.Messages.{
  ProviderEvent, not_an_object, object_or_missing, ClientMessage,
}
use event_driven_ai_voice.Bridge.{
  new, Bridge, Translated, close, on_event, send_voice_cancel, send_voice_start, set_frontend_ws,
  told, translate_event, send_to_frontend,
}

-- What happens to the voice under way: one is started, the one under way ends, or the model's call
-- routes the turn to a specialist.
pub data Mark : Type 0 where
  started ended : Uuid → Mark
  routed : Mark

-- The specification: any voice may start, in place of another, only the one under way may end, and a
-- routing leaves none.
abbrev pub advance : Option Uuid → Mark → Option (Option Uuid)
advance o (started voice) = some (some voice)
advance (some voice) (ended id) = if voice == id then some none else none
advance none (ended id) = none
advance o routed = some none

abbrev advance_next : Option (Option Uuid) → Mark → Option (Option Uuid)
advance_next none k = none
advance_next (some o) k = advance o k

-- The voice under way after a sequence of marks, or `none` where the specification forbids one.
unfoldable pub replay : Option (Option Uuid) → List Mark → Option (Option Uuid)
replay s [] = s
replay s (k ∷ ks) = replay (advance_next s k) ks

replay-append :
    (s : Option (Option Uuid)) (ks ls : List Mark) → replay s (ks ++ ls) ≡ replay (replay s ks) ls
unfolding replay
replay-append s [] ls = refl
replay-append s (k ∷ ks) ls = replay-append (advance_next s k) ks ls

-- A call of the bridge, from the coordinator or from the browser.
pub data Call : Type 0 where
  voice_start : RealtimeVoiceStart → Call
  voice_cancel : RealtimeVoiceCancel → Call
  frontend_event : ProviderEvent → Call
  register frontend_close : Call
  frontend_ws : Bool → Call
  frontend_message : ClientMessage → Call

abbrev id_mark : IdText → List Mark
id_mark (canonical id) = ended id ∷ []
id_mark _ = []

-- What an envelope says about the voice under way.
abbrev body_marks : Body → List Mark
body_marks (Body.voice_generation_completed p) = id_mark p.voice_generation_id
body_marks (Body.voice_generation_error id error) = id_mark id
body_marks (Body.model_router_action department summary) = routed ∷ []
body_marks _ = []

abbrev pub translated_marks : Translated → List Mark
translated_marks (told e) = body_marks e.body
translated_marks _ = []

module _ (env : Env) (loads : Text → Loaded) (unicode : Unicode) where
  -- A call: the new bridge, and what the other side is told. A voice starts where the browser is there
  -- to hear of it.
  unfoldable pub call : Call → Bridge → Bridge × List Mark
  unfolding send_voice_start send_voice_cancel translate_event send_to_frontend
  call (voice_start e) b = (
    send_voice_start env e b,
    if b.has_frontend_ws then started e.voice_generation_id ∷ [] else [],
  )
  call (voice_cancel e) b = (send_voice_cancel e b, [])
  call (frontend_event e) b =
      let (b', t) = translate_event env loads unicode e b in (b', translated_marks t)
  call register b = (on_event b, [])
  call frontend_close b = (close b, [])
  call (frontend_ws present) b = (set_frontend_ws present b, [])
  call (frontend_message m) b = (send_to_frontend m b, [])

  unfoldable pub run : List Call → Bridge → Bridge × List Mark
  unfolding call
  run [] b = (b, [])
  run (k ∷ ks) b = let (b', ms) = call k b in let (b'', rest) = run ks b' in (b'', ms ++ rest)

  call-replay :
      (k : Call) (b : Bridge)
      → replay (some b.active_voice_generation_id) (call k b).1
        ≡ some (call k b).0.active_voice_generation_id
  unfolding call replay
  call-replay (voice_start e) b = ground arith
  call-replay (voice_cancel e) b = ground arith
  call-replay (frontend_event ProviderEvent.speech_started) b = refl
  call-replay (frontend_event ProviderEvent.speech_stopped) b = refl
  call-replay (frontend_event ProviderEvent.committed) b = refl
  call-replay (frontend_event (ProviderEvent.session_updated object_or_missing)) b = refl
  call-replay (frontend_event (ProviderEvent.session_updated not_an_object)) b = refl
  call-replay (frontend_event (ProviderEvent.response_created r)) b = ground arith
  call-replay (frontend_event (ProviderEvent.transcript_delta d)) b = refl
  call-replay (frontend_event (ProviderEvent.function_call_done f)) b = ground arith
  call-replay (frontend_event (ProviderEvent.transcription_completed t)) b = ground arith
  call-replay (frontend_event (ProviderEvent.response_done r)) b = grind (arith, ==_refl)
  call-replay (frontend_event (ProviderEvent.response_failed d)) b = grind (arith, ==_refl)
  call-replay (frontend_event (ProviderEvent.ignored type)) b = refl
  call-replay register b = refl
  call-replay frontend_close b = refl
  call-replay (frontend_ws present) b = refl
  call-replay (frontend_message m) b = ground arith

  run-replay :
      (ks : List Call) (b : Bridge)
      → replay (some b.active_voice_generation_id) (run ks b).1
        ≡ some (run ks b).0.active_voice_generation_id
  unfolding run replay
  run-replay [] b = refl
  run-replay (k ∷ ks) b =
      let (b', ms) = call k b in
      replay-append (some b.active_voice_generation_id) ms (run ks b').1
      ∙ ap (λ s. replay s (run ks b').1) (call-replay k b)
      ∙ run-replay ks b'

  -- The bridge refines the specification: whatever the coordinator and the browser call, in whatever
  -- order, each voice that it reports as completed or failed is the one under way, which is the last
  -- that was started and neither reported nor routed away since, and the bridge holds that voice.
  pub run_refines :
      (call_id : Uuid) (departments : Option (List Text)) (ks : List Call)
      → let (b, ms) = run ks (new call_id departments) in
        replay (some none) ms ≡ some b.active_voice_generation_id
  unfolding new
  run_refines call_id departments ks = run-replay ks (new call_id departments)
