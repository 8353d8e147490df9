-- ===== src/Calls/Committed.antt =====
-- The end of a turn through a session (api/routes/calls.py): the coordinator asks for a voice, and the
-- bridge starts it.
use event_driven_ai_voice.Coordinator.Committed.{on_audio_committed, router_prompt}
use event_driven_ai_voice.Buffer.{format_messages}
use event_driven_ai_voice.Bridge.{translate_event, send_voice_start}
use event_driven_ai_voice.Bridge.Overlap.{opened, start_lem}
use event_driven_ai_voice.Turns.{open_turn_id}
use event_driven_ai_voice.Coordinator.{dispatch}
use event_driven_ai_voice.Coordinator.Action.{World}
use event_driven_ai_voice.Types.{Uuid, OutputEvent, RealtimeVoiceStart, payload}
use event_driven_ai_voice.Router.{RouterPromptBuilder}
use event_driven_ai_voice.Bridge.Messages.{ProviderEvent}
use event_driven_ai_voice.Router.Action.{Loaded}
use event_driven_ai_voice.Coordinator.Coherence.{IsCoherent}
use event_driven_ai_voice.Coordinator.Monad.{Env}
use event_driven_ai_voice.Calls.{CallSessionEntry, deps_of, hand_over}
use event_driven_ai_voice.Prelude.{
  contains, false, List, Option, Text, [], drop, length, refl, some, true, ◌++◌, ◌+◌, ◌∷◌, ◌≡◌, ap,
  ◌∙◌, Unicode,
}
use event_driven_ai_voice.Calls
use event_driven_ai_voice.Coordinator.Monad.{Coordinator}
use event_driven_ai_voice.Types.{router}
use event_driven_ai_voice.Calls.{happen}
use event_driven_ai_voice.Calls.DirectTurn.{heard, passed_frame, remember, handled_fresh}
use event_driven_ai_voice.Bridge.Responses.{after}
use event_driven_ai_voice.Coordinator.Coherence.Dispatch.{audio_turn}
use event_driven_ai_voice.Coordinator.Coherence.Committed.{IsRouting}

drop-append : {A : Type 0} (xs ys : List A) → drop (length xs) (xs ++ ys) ≡ ys
drop-append [] ys = refl
drop-append (x ∷ xs) ys = drop-append xs ys

-- Coherence says nothing of the ids that were seen.
remembered :
    {c : Coordinator} {seen : List Uuid}
    → IsCoherent c
    → IsCoherent (record c { seen_ids_fallback = seen })
remembered h = record {
  matching = h.matching;
  owner = h.owner;
  awake = h.awake;
  drained = h.drained;
  room = h.room;
}

module _ (env bridge_env : Env) (loads : Text → Loaded) (unicode : Unicode)
    (builder : Option RouterPromptBuilder) (world : World) where
  -- The coordinator and the bridge agree on the voice of a generation that is being routed.
  pub record IsAsked (gen voice : Uuid) (s : CallSessionEntry) : Type 0 where
    pub generation : IsRouting gen s.coordinator
    pub active : s.coordinator.state.active_voice_generation_id ≡ some voice
    pub held : s.bridge.active_voice_generation_id ≡ some voice
    pub source : s.bridge.current_response_source ≡ router

  -- The coordinator's one new output event starts a voice.
  started_voice :
      (c : Coordinator) (e : RealtimeVoiceStart) (s : CallSessionEntry)
      → c.output_events ≡ s.coordinator.output_events ++ OutputEvent.voice_start e ∷ []
      → hand_over env bridge_env loads unicode builder c s
        ≡ record s { coordinator = c; bridge = send_voice_start bridge_env e s.bridge }
  unfolding hand_over Calls.deliver
  started_voice c e s asked =
      ap
        (λ es. record s {
          coordinator = c;
          bridge = Calls.deliver env bridge_env loads unicode builder es s.bridge;
        })
        (ap (drop (length s.coordinator.output_events)) asked
          ∙ drop-append s.coordinator.output_events (OutputEvent.voice_start e ∷ []))

  -- In a session whose bridge is wired to the coordinator and connected to the browser, whose
  -- coordinator is coherent and has a turn open, and in which no shared set of seen ids is configured
  -- and the id of the next event is new, the frame that ends the audio makes one voice for one
  -- generation: the generation is active and being routed, the voice is the coordinator's active one and
  -- the one that the bridge holds, as the router's, the turns are counted up by one, and whether a direct
  -- answer is pending in the bridge stays.
  pub committed_turn :
      (s : CallSessionEntry) (turn : Uuid)
      → IsCoherent s.coordinator
      → open_turn_id s.coordinator.turns ≡ some turn
      → s.bridge.has_callback ≡ true
      → s.bridge.has_frontend_ws ≡ true
      → contains (bridge_env.uuid4 s.bridge.drawn) s.coordinator.seen_ids_fallback ≡ false
      → let s' =
          happen env bridge_env loads unicode builder
            (heard env bridge_env loads unicode builder world ProviderEvent.committed)
            s in
        (gen : Uuid) × (voice : Uuid) × IsAsked gen voice s'
        × (s'.coordinator.state.turn_seq ≡ s.coordinator.state.turn_seq + 1)
        × (s'.bridge.pending_direct_audio ≡ s.bridge.pending_direct_audio)
  unfolding translate_event dispatch
  committed_turn s turn coherent opened wired ws fresh =
      let deps = deps_of builder s in
      let c₀ =
        remember env bridge_env loads unicode builder world (bridge_env.uuid4 s.bridge.drawn)
          s.coordinator in
      let ts = bridge_env.now_ms s.bridge.readings in
      let told_one = record s {
        bridge = after bridge_env loads unicode ProviderEvent.committed s.bridge;
      } in
      let (gen, routed, _, seq, _, req) =
        audio_turn env deps ts c₀ turn (remembered coherent) opened in
      let c = (on_audio_committed env deps ts c₀).0 in
      let start : RealtimeVoiceStart = record {
        call_id = s.call_id;
        agent_generation_id = some gen;
        voice_generation_id = req.voice;
        prompt = payload (router_prompt builder (format_messages c.buffer));
        ts = ts;
        response_source = router;
      } in
      let path =
        passed_frame env bridge_env loads unicode builder world ProviderEvent.committed _ s refl
          wired
        ∙ ap (λ c. hand_over env bridge_env loads unicode builder c told_one)
            (handled_fresh env bridge_env loads unicode builder world _ s fresh)
        ∙ started_voice c start told_one req.asked in
      let begun = start_lem bridge_env loads unicode start told_one.bridge ws in
      rw path (
        gen,
        req.voice,
        record { generation = routed; active = req.speaking; held = begun.0; source = begun.1 },
        seq,
        begun.4,
      )
