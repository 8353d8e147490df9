-- ===== src/Bridge/Routes.antt =====
-- The two ways of a function call through the bridge (realtime_event_bridge.py): a direct answer, in
-- a second response, even after a cancellation, and a specialist's.
use event_driven_ai_voice.Types.{Uuid, RealtimeVoiceCancel}
use event_driven_ai_voice.Coordinator.{Body, EventEnvelope}
use mathlib.Core.List.{append_assoc}
use event_driven_ai_voice.Prelude.{
  Text, [], codes, false, is_empty, text_eq_refl, true, ◌++◌, ◌∷◌, ◌≡◌, refl, ◌+◌, List, ap, none,
  some, text_eq, ◌∙◌, Unicode,
}
use event_driven_ai_voice.Router.Action.{
  Loaded, ModelRouterAction, Parsed, parse_function_call_action,
}
use event_driven_ai_voice.Coordinator.Monad.{Env}
use event_driven_ai_voice.Bridge.Messages.{
  FunctionCall, ProviderEvent, function_call_output, response_create, response_cancel,
}
use event_driven_ai_voice.Bridge.Responses.{
  done, IsCompleted, after, concat, respond, spoken_response, transcribe, transcribe-concat,
  translated,
}
use event_driven_ai_voice.Bridge.{
  Bridge, quiet, send_voice_cancel, translate_event, on_action, tell, told,
}

module _ (env : Env) (loads : Text → Loaded) (unicode : Unicode) where
  abbrev pub parsed : FunctionCall → Bridge → Parsed
  parsed f b = parse_function_call_action unicode.lower loads f.name f.arguments b.valid_departments

  call_lem :
      (f : FunctionCall) (p : Parsed) (b : Bridge)
      → parsed f b ≡ p
      → translate_event env loads unicode (ProviderEvent.function_call_done f) b
        ≡ on_action env p
            (record b { pending_fn_call_id = f.call_id; pending_fn_item_id = f.item_id })
  unfolding translate_event
  call_lem f p b e = rw e refl

  direct_lem :
      (a : ModelRouterAction) (b : Bridge)
      → a.department ≡ codes "direct"
      → on_action env (Parsed.action a) b ≡ (record b { pending_direct_audio = true }, quiet)
  unfolding on_action
  direct_lem a b meant = rw (meant, text_eq_refl (codes "direct")) refl

  -- The call for a direct answer.
  abbrev called : FunctionCall → Bridge → Bridge
  called f b = record b {
    pending_fn_call_id = f.call_id;
    pending_fn_item_id = f.item_id;
    pending_direct_audio = true;
  }

  called_direct :
      (f : FunctionCall) (a : ModelRouterAction) (b : Bridge)
      → parsed f b ≡ Parsed.action a
      → a.department ≡ codes "direct"
      → translate_event env loads unicode (ProviderEvent.function_call_done f) b
        ≡ (called f b, quiet)
  called_direct f a b action meant =
      call_lem f (Parsed.action a) b action
      ∙ direct_lem a (record b { pending_fn_call_id = f.call_id; pending_fn_item_id = f.item_id })
          meant

  cancel_lem :
      (e : RealtimeVoiceCancel) (b : Bridge)
      → b.has_frontend_ws ≡ true
      → send_voice_cancel e b ≡ record b { sent = b.sent ++ response_cancel ∷ [] }
  unfolding send_voice_cancel
  cancel_lem e b ws = rw ws refl

  -- The state after the end of the response that called the function for a direct answer.
  abbrev asked_again : Bridge → Bridge
  asked_again b = record b {
    pending_direct_audio = false;
    response_transcript_buffer = [];
    pending_fn_call_id = [];
    pending_fn_item_id = [];
    response_create_sent_ms = env.now_ms (b.readings + 1);
    response_created_ms = 0;
    readings = b.readings + 1 + 1;
    sent =
        b.sent
        ++ function_call_output b.pending_fn_call_id ∷ []
        ++ response_create (record { instructions = b.last_instructions; tools = [] }) ∷ [];
  }

  done_direct :
      (b : Bridge)
      → b.pending_direct_audio ≡ true
      → is_empty b.pending_fn_call_id ≡ false
      → b.has_frontend_ws ≡ true
      → translate_event env loads unicode done b ≡ (asked_again b, quiet)
  unfolding translate_event
  done_direct b pending named ws = rw (pending, named, ws) refl

  -- A voice is under way and the model calls the function with the department "direct": neither the call
  -- nor the end of its response is reported, whatever was transcribed; the end makes the bridge send the
  -- call's acknowledgement and then, with the same instructions and no tools, the request of a second
  -- response; and the second response's end reports the same voice with the second's words only. This
  -- holds where the browser is there and the call has an id.
  pub direct_answer :
      (f : FunctionCall) (a : ModelRouterAction) (voice : Uuid) (ds : List Text) (b : Bridge)
      → parsed f b ≡ Parsed.action a
      → a.department ≡ codes "direct"
      → is_empty f.call_id ≡ false
      → b.has_frontend_ws ≡ true
      → b.active_voice_generation_id ≡ some voice
      → let b₁ = after env loads unicode (ProviderEvent.function_call_done f) b in
        let b₂ = after env loads unicode done b₁ in
        (translated env loads unicode (ProviderEvent.function_call_done f) b ≡ quiet)
        × (translated env loads unicode done b₁ ≡ quiet)
        × (b₂.sent
            ≡ b.sent
              ++ function_call_output f.call_id
                ∷ response_create (record { instructions = b.last_instructions; tools = [] })
                ∷ [])
        × IsCompleted env loads unicode voice b.current_response_source
            (concat ds)
            (translated env loads unicode done (respond env loads unicode ds b₂))
  direct_answer f a voice ds b action meant named ws active =
      let first = called_direct f a b action meant in
      let second = done_direct (called f b) refl named ws in
      let b₁ = after env loads unicode (ProviderEvent.function_call_done f) b in
      let at₁ : b₁ ≡ called f b = ap (λ t. t.0) first in
      let at₂ : after env loads unicode done (called f b) ≡ asked_again (called f b) =
        ap (λ t. t.0) second in
      rw at₁ (
        rw at₂ (
          ap (λ t. t.1) first,
          ap (λ t. t.1) second,
          append_assoc b.sent _ _,
          (spoken_response env loads unicode voice ds (asked_again (called f b)) active refl).0,
        ))

  routed_lem :
      (a : ModelRouterAction) (b : Bridge)
      → text_eq a.department (codes "direct") ≡ false
      → on_action env (Parsed.action a) b
        ≡ tell env
            (Body.model_router_action a.department a.summary)
            (record b { function_call_received = true; active_voice_generation_id = none })
  unfolding on_action
  routed_lem a b other = rw other refl

  done_routed :
      (b : Bridge)
      → b.pending_direct_audio ≡ false
      → b.function_call_received ≡ true
      → translated env loads unicode done b ≡ quiet
  unfolding translate_event
  done_routed b single routed = rw (single, routed) refl

  -- The model calls the function with another department and no direct answer is pending: the call is
  -- reported with its department and summary, no voice is under way any more, and the end of the
  -- response, whatever is transcribed before it, is not reported.
  pub routed_response :
      (f : FunctionCall) (a : ModelRouterAction) (ds : List Text) (b : Bridge)
      → parsed f b ≡ Parsed.action a
      → text_eq a.department (codes "direct") ≡ false
      → b.pending_direct_audio ≡ false
      → let b₁ = after env loads unicode (ProviderEvent.function_call_done f) b in
        ((e : EventEnvelope) × (translated env loads unicode (ProviderEvent.function_call_done f) b
            ≡ told e)
          × (e.body ≡ Body.model_router_action a.department a.summary))
        × (b₁.active_voice_generation_id ≡ none)
        × (translated env loads unicode done (transcribe env loads unicode ds b₁) ≡ quiet)
  routed_response f a ds b action other single =
      let first =
        call_lem f (Parsed.action a) b action
        ∙ routed_lem a (record b { pending_fn_call_id = f.call_id; pending_fn_item_id = f.item_id })
            other in
      let later =
        transcribe-concat env loads unicode ds
          (after env loads unicode (ProviderEvent.function_call_done f) b) in
      (
        (_, ap (λ t. t.1) first, refl),
        ap (λ t. t.0.active_voice_generation_id) first,
        rw later (
            done_routed _ (ap (λ t. t.0.pending_direct_audio) first ∙ single)
              (ap (λ t. t.0.function_call_received) first)),
      )

  -- A cancelled voice is still answered: the function call of a direct answer is not forgotten by a
  -- cancellation of the voice, so the end of that response sends the acknowledgement and the request of
  -- a second response after the cancellation. This holds where the browser is there and the call has an
  -- id.
  pub cancelled_direct_answered :
      (f : FunctionCall) (a : ModelRouterAction) (e : RealtimeVoiceCancel) (b : Bridge)
      → parsed f b ≡ Parsed.action a
      → a.department ≡ codes "direct"
      → is_empty f.call_id ≡ false
      → b.has_frontend_ws ≡ true
      → let b₁ = after env loads unicode (ProviderEvent.function_call_done f) b in
        (after env loads unicode done (send_voice_cancel e b₁)).sent
        ≡ b.sent
          ++ response_cancel
            ∷ function_call_output f.call_id
            ∷ response_create (record { instructions = b.last_instructions; tools = [] })
            ∷ []
  cancelled_direct_answered f a e b action meant named ws =
      let first = called_direct f a b action meant in
      let cancelled = record (called f b) { sent = b.sent ++ response_cancel ∷ [] } in
      let at₁ : after env loads unicode (ProviderEvent.function_call_done f) b ≡ (called f b) =
        ap (λ t. t.0) first in
      let at₂ : send_voice_cancel e (called f b) ≡ cancelled = cancel_lem e (called f b) ws in
      rw at₁ (
        rw at₂ (
          ap (λ t. t.0.sent) (done_direct cancelled refl named ws)
          ∙ append_assoc (b.sent ++ response_cancel ∷ []) _ _
          ∙ append_assoc b.sent _ _))
