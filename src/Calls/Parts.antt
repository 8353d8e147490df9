-- ===== src/Calls/Parts.antt =====
-- A session (api/routes/calls.py) as the two actors that it wires.
pub mod Linked
use event_driven_ai_voice.Calls.Parts.Linked.{
  outputs_calls, outputs_calls-append, delivery_of, deliveries, deliveries-append,
  deliveries-outputs_calls, event_of, events_of, events_of-append, coordinator_run-append,
  bridge_run, bridge_run-append, report_of, reports, reports-append,
}
use event_driven_ai_voice.Coordinator.History.Runs.{run-IsWithin}
use event_driven_ai_voice.Coordinator.Coherence.Events.{run-IsCoherent}
use event_driven_ai_voice.Buffer.Updates.{IsWithin}
use event_driven_ai_voice.Coordinator.Coherence.{IsCoherent}
use event_driven_ai_voice.Coordinator.Action.{World}
use event_driven_ai_voice.Coordinator.Output.{SeenAnswer}
use event_driven_ai_voice.Bridge.Messages.{ProviderEvent, session_update}
use event_driven_ai_voice.Router.{RouterPromptBuilder}
use event_driven_ai_voice.Router.Action.{Loaded}
use event_driven_ai_voice.Coordinator.Monad.{Coordinator, Env}
use event_driven_ai_voice.Calls.{
  malformed, no_object, debug_enable, debug_disable, client_debug_event, client_debug_bad_ts,
  provider_event, accepted, closed, timer, deleted, frame, CallSessionEntry, deps_of, hand_over,
  call_deps, disconnected, ends, goes_on, handle_frontend_event, Frame, Happening, Loop, happen,
  looped, pass_on, receive, tools_of, departments_of, new_entry,
}
use event_driven_ai_voice.Bridge.{
  attribute_error, Bridge, send_voice_cancel, send_voice_start, quiet, told, translate_event,
  Translated, set_frontend_ws,
}
use mathlib.Core.List.{append-nil, append_assoc}
use event_driven_ai_voice.Coordinator.Adds.Runs.{is_kept, run-Adds}
use event_driven_ai_voice.Coordinator.Monad.{Stage, audio_playback_end}
use event_driven_ai_voice.Coordinator.Output.{
  handle_client_debug_event, set_debug_enabled, set_debug_callback,
}
use event_driven_ai_voice.Prelude.{
  Bool, List, Option, Text, [], ap, drop, length, refl, sym, ℕ, ◌++◌, ◌∙◌, ◌∷◌, ◌≡◌, false, true,
  none, some, ◌<◌, Unicode,
}
use event_driven_ai_voice.Calls
use event_driven_ai_voice.Bridge
use event_driven_ai_voice.Bridge.Playback
use event_driven_ai_voice.Bridge.Playback.{
  Call, frontend_event, frontend_ws, frontend_close, frontend_message, replay, register,
  run_refines,
}
use event_driven_ai_voice.Coordinator
use event_driven_ai_voice.Coordinator.{Input, step}
use event_driven_ai_voice.Types.{OutputEvent, cancel_agent, Uuid}

module _ (env bridge_env : Env) (loads : Text → Loaded) (unicode : Unicode)
    (builder : Option RouterPromptBuilder) where
  -- A session that its coordinator and its bridge have reached by inputs and calls of their own from a
  -- given one: the calls that start and cancel voices deliver what the inputs have output, in order, and
  -- the events among the inputs are what the calls have reported, in order.
  pub record IsComposed (s s' : CallSessionEntry) : Type 0 where
    pub inputs : List Input
    pub calls : List Call
    pub outputs : List OutputEvent
    pub id : s'.call_id ≡ s.call_id
    pub actor : s'.coordinator ≡ Coordinator.run env (deps_of builder s) inputs s.coordinator
    pub wired : s'.bridge ≡ bridge_run bridge_env loads unicode calls s.bridge
    pub emitted : s'.coordinator.output_events ≡ s.coordinator.output_events ++ outputs
    pub delivered : deliveries calls ≡ outputs_calls outputs
    pub reported : events_of inputs ≡ reports bridge_env loads unicode calls s.bridge

  -- The calls that deliver some output events.
  delivery :
      (es : List OutputEvent) (b : Bridge)
      → (Calls.deliver env bridge_env loads unicode builder es b
          ≡ bridge_run bridge_env loads unicode (outputs_calls es) b)
        × (reports bridge_env loads unicode (outputs_calls es) b ≡ [])
  unfolding Calls.deliver Playback.run Playback.call outputs_calls reports
  delivery [] b = (refl, refl)
  delivery (OutputEvent.voice_start e ∷ es) b = delivery es (send_voice_start bridge_env e b)
  delivery (OutputEvent.voice_cancel e ∷ es) b = delivery es (send_voice_cancel e b)
  delivery (cancel_agent e ∷ es) b = delivery es b

  composed_refl : (s : CallSessionEntry) → IsComposed s s
  unfolding Coordinator.run Playback.run deliveries outputs_calls events_of reports
  composed_refl s = record {
    inputs = [];
    calls = [];
    outputs = [];
    id = refl;
    actor = refl;
    wired = refl;
    emitted = sym (append-nil s.coordinator.output_events);
    delivered = refl;
    reported = refl;
  }

  composed_then : (s t u : CallSessionEntry) → IsComposed s t → IsComposed t u → IsComposed s u
  composed_then s t u h k = record {
    inputs = h.inputs ++ k.inputs;
    calls = h.calls ++ k.calls;
    outputs = h.outputs ++ k.outputs;
    id = k.id ∙ h.id;
    actor =
        k.actor
        ∙ ap (λ id. Coordinator.run env (call_deps id builder) k.inputs t.coordinator) h.id
        ∙ ap (Coordinator.run env (deps_of builder s) k.inputs) h.actor
        ∙ sym (coordinator_run-append env (deps_of builder s) h.inputs k.inputs s.coordinator);
    wired =
        k.wired
        ∙ ap (bridge_run bridge_env loads unicode k.calls) h.wired
        ∙ sym (bridge_run-append bridge_env loads unicode h.calls k.calls s.bridge);
    emitted =
        k.emitted
        ∙ ap (λ es. es ++ k.outputs) h.emitted
        ∙ append_assoc s.coordinator.output_events h.outputs k.outputs;
    delivered =
        deliveries-append h.calls k.calls
        ∙ ap (λ ks. ks ++ deliveries k.calls) h.delivered
        ∙ ap (λ ks. outputs_calls h.outputs ++ ks) k.delivered
        ∙ sym (outputs_calls-append h.outputs k.outputs);
    reported =
        events_of-append h.inputs k.inputs
        ∙ ap (λ es. es ++ events_of k.inputs) h.reported
        ∙ ap (λ es. reports bridge_env loads unicode h.calls s.bridge ++ es)
            (k.reported ∙ ap (reports bridge_env loads unicode k.calls) h.wired)
        ∙ sym (reports-append bridge_env loads unicode h.calls k.calls s.bridge);
  }

  -- An input, of which some calls of the bridge may have told the coordinator, and the delivery of what
  -- it outputs.
  handed_over :
      (i : Input) (ks : List Call) (s : CallSessionEntry)
      → is_kept i ≡ true
      → deliveries ks ≡ []
      → event_of i ≡ reports bridge_env loads unicode ks s.bridge
      → IsComposed s (
          hand_over env bridge_env loads unicode builder
            (Coordinator.step env (deps_of builder s) i s.coordinator)
            (record s { bridge = bridge_run bridge_env loads unicode ks s.bridge }))
  unfolding hand_over Coordinator.run events_of
  handed_over i ks s kept no_delivery told_by =
      let c = Coordinator.step env (deps_of builder s) i s.coordinator in
      let es = drop (length s.coordinator.output_events) c.output_events in
      let b = bridge_run bridge_env loads unicode ks s.bridge in
      let (delivered, unreported) = delivery es b in
      record {
        inputs = i ∷ [];
        calls = ks ++ outputs_calls es;
        outputs = es;
        id = refl;
        actor = refl;
        wired =
            delivered
            ∙ sym (bridge_run-append bridge_env loads unicode ks (outputs_calls es) s.bridge);
        emitted = run-Adds env (deps_of builder s) (i ∷ []) s.coordinator (rw kept refl);
        delivered =
            deliveries-append ks (outputs_calls es)
            ∙ ap (λ ls. ls ++ deliveries (outputs_calls es)) no_delivery
            ∙ deliveries-outputs_calls es;
        reported =
            append-nil (event_of i)
            ∙ told_by
            ∙ sym (append-nil (reports bridge_env loads unicode ks s.bridge))
            ∙ ap (λ ms. reports bridge_env loads unicode ks s.bridge ++ ms) (sym unreported)
            ∙ sym (reports-append bridge_env loads unicode ks (outputs_calls es) s.bridge);
      }

  -- A call of the bridge that leaves the coordinator as it is, and of which it is not told.
  called :
      (k : Call) (s : CallSessionEntry)
      → delivery_of k ≡ []
      → report_of bridge_env loads unicode k s.bridge ≡ []
      → IsComposed s (record s { bridge = (Playback.call bridge_env loads unicode k s.bridge).0 })
  unfolding Playback.run Coordinator.run deliveries outputs_calls events_of reports
  called k s undelivered unreported = record {
    inputs = [];
    calls = k ∷ [];
    outputs = [];
    id = refl;
    actor = refl;
    wired = refl;
    emitted = sym (append-nil s.coordinator.output_events);
    delivered = append-nil (delivery_of k) ∙ undelivered;
    reported = sym (append-nil (report_of bridge_env loads unicode k s.bridge) ∙ unreported);
  }

  -- An input of the coordinator's, no event, that outputs nothing.
  told_input :
      (i : Input) (s : CallSessionEntry)
      → event_of i ≡ []
      → (Coordinator.step env (deps_of builder s) i s.coordinator).output_events
        ≡ s.coordinator.output_events
      → IsComposed s
          (record s { coordinator = Coordinator.step env (deps_of builder s) i s.coordinator })
  unfolding Playback.run Coordinator.run deliveries outputs_calls events_of reports
  told_input i s no_event same = record {
    inputs = i ∷ [];
    calls = [];
    outputs = [];
    id = refl;
    actor = refl;
    wired = refl;
    emitted = same ∙ sym (append-nil s.coordinator.output_events);
    delivered = refl;
    reported = append-nil (event_of i) ∙ no_event;
  }

  disconnected-IsComposed : (s : CallSessionEntry) → IsComposed s (disconnected s)
  unfolding Playback.call
  disconnected-IsComposed s = called (frontend_ws false) s refl refl

  -- A frame with an event of the provider's, by what the bridge makes of it.
  passed-IsComposed :
      (world : World) (seen : SeenAnswer) (input : ProviderEvent) (s : CallSessionEntry)
      (wired : Bool) (t : Translated)
      → let (b, t') = translate_event bridge_env loads unicode input s.bridge in
        b.has_callback ≡ wired
        → t' ≡ t
        → IsComposed s
            (pass_on env bridge_env loads unicode builder world seen t (record s { bridge = b })).0
  unfolding pass_on Coordinator.step Playback.run Playback.call reports deliveries
  passed-IsComposed world seen input s wired quiet e h =
      called (frontend_event input) s refl (rw (e, h) refl)
  passed-IsComposed world seen input s wired attribute_error e h =
      called (frontend_event input) s refl (rw (e, h) refl)
  passed-IsComposed world seen input s true (told envelope) e h = rw e (
      handed_over (Input.event world seen envelope) (frontend_event input ∷ []) s refl refl
        (rw (e, h) refl))
  passed-IsComposed world seen input s false (told envelope) e h =
      rw e (called (frontend_event input) s refl (rw (e, h) refl))

  event-IsComposed :
      (world : World) (seen : SeenAnswer) (input : ProviderEvent) (s : CallSessionEntry)
      → IsComposed s
          (handle_frontend_event env bridge_env loads unicode builder world seen input s).0
  unfolding handle_frontend_event
  event-IsComposed world seen input s = passed-IsComposed world seen input s _ _ refl refl

  debug-outputs :
      (stage : Stage) (s : CallSessionEntry)
      → (step env (deps_of builder s) (Input.client_debug stage) s.coordinator).output_events
        ≡ s.coordinator.output_events
  unfolding Coordinator.step handle_client_debug_event
  debug-outputs audio_playback_end s = refl
  debug-outputs _ s = refl

  receive-IsComposed :
      (world : World) (seen : SeenAnswer) (f : Frame) (s : CallSessionEntry)
      → IsComposed s (receive env bridge_env loads unicode builder world seen f s).0
  unfolding receive Coordinator.step set_debug_enabled
  receive-IsComposed world seen malformed s = composed_refl s
  receive-IsComposed world seen no_object s = composed_refl s
  receive-IsComposed world seen debug_enable s = told_input (Input.debug_enabled true) s refl refl
  receive-IsComposed world seen debug_disable s = told_input (Input.debug_enabled false) s refl refl
  receive-IsComposed world seen (client_debug_event stage) s =
      told_input (Input.client_debug stage) s refl (debug-outputs stage s)
  receive-IsComposed world seen client_debug_bad_ts s = composed_refl s
  receive-IsComposed world seen (provider_event input) s = event-IsComposed world seen input s

  looped-IsComposed :
      (l : Loop) (s s' : CallSessionEntry) → IsComposed s s' → IsComposed s (looped (s', l))
  looped-IsComposed goes_on s s' h = h
  looped-IsComposed ends s s' h = composed_then s s' _ h (disconnected-IsComposed s')

  pub happen-IsComposed :
      (h : Happening) (s : CallSessionEntry)
      → IsComposed s (happen env bridge_env loads unicode builder h s)
  unfolding happen Playback.call Playback.run Coordinator.step reports deliveries
  happen-IsComposed accepted s =
      composed_then s (record s { bridge = set_frontend_ws true s.bridge }) _
        (called (frontend_ws true) s refl refl)
        (called (frontend_message (session_update (tools_of builder))) _ refl refl)
  happen-IsComposed closed s = disconnected-IsComposed s
  happen-IsComposed timer s = handed_over Input.filler_timer [] s refl refl refl
  happen-IsComposed deleted s = called frontend_close s refl refl
  happen-IsComposed (frame world seen f) s =
      looped-IsComposed (receive env bridge_env loads unicode builder world seen f s).1 s _
        (receive-IsComposed world seen f s)

  pub run-IsComposed :
      (hs : List Happening) (s : CallSessionEntry)
      → IsComposed s (Calls.run env bridge_env loads unicode builder hs s)
  unfolding Calls.run
  run-IsComposed [] s = composed_refl s
  run-IsComposed (h ∷ hs) s =
      let s' = happen env bridge_env loads unicode builder h s in
      composed_then s s' _ (happen-IsComposed h s) (run-IsComposed hs s')

  pub run_composed :
      (hs : List Happening) (call_id : Uuid) (max_turns max_chars : ℕ)
      → 0 < max_turns
      → let s =
          Calls.run env bridge_env loads unicode builder hs
            (new_entry call_id builder max_turns max_chars) in
        let deps = call_deps call_id builder in
        (is : List Input) × (ks : List Call) × (s.coordinator
          ≡ Coordinator.run env deps is (Coordinator.new deps max_turns max_chars))
        × (s.bridge
            ≡ bridge_run bridge_env loads unicode ks (Bridge.new call_id (departments_of builder)))
        × (deliveries ks ≡ outputs_calls s.coordinator.output_events)
        × (events_of is
            ≡ reports bridge_env loads unicode ks (Bridge.new call_id (departments_of builder)))
        × (replay
              (some none)
              (Playback.run bridge_env loads unicode ks
                (Bridge.new call_id (departments_of builder))).1
            ≡ some s.bridge.active_voice_generation_id)
        × IsCoherent s.coordinator
        × IsWithin s.coordinator.buffer
  unfolding new_entry set_debug_callback Coordinator.new Coordinator.run Coordinator.step
      Playback.run Playback.call deliveries events_of reports
  run_composed hs call_id max_turns max_chars room =
      let h = run-IsComposed hs (new_entry call_id builder max_turns max_chars) in
      let deps = call_deps call_id builder in
      let is = Input.debug_callback true ∷ h.inputs in
      let ks = register ∷ h.calls in
      let spec = run_refines bridge_env loads unicode call_id (departments_of builder) ks in
      (
        is,
        ks,
        h.actor,
        h.wired,
        h.delivered ∙ ap outputs_calls (sym h.emitted),
        h.reported,
        spec ∙ ap (λ b. some b.active_voice_generation_id) (sym h.wired),
        rw h.actor (run-IsCoherent env deps is max_turns max_chars room),
        rw h.actor (run-IsWithin env deps is max_turns max_chars),
      )
