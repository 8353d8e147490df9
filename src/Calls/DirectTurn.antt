-- ===== src/Calls/DirectTurn.antt =====
-- A whole response of the model through a session (api/routes/calls.py): the frames of the WebSocket,
-- the bridge's translation and the coordinator's handlers.
use event_driven_ai_voice.Coordinator.Voice.{Completed, on_voice_completed}
use event_driven_ai_voice.Runtime.{is_voice_cancelled}
use event_driven_ai_voice.Bridge.Transcript.{clean_transcript}
use event_driven_ai_voice.Coordinator.Completion.{after_voice, on_voice_completed_lem}
use event_driven_ai_voice.Types.{Uuid, canonical}
use event_driven_ai_voice.Coordinator.Action.{World}
use event_driven_ai_voice.Coordinator.Output.{SeenAnswer, is_duplicate}
use event_driven_ai_voice.Router.{RouterPromptBuilder}
use event_driven_ai_voice.Bridge.Messages.{ProviderEvent, object_or_missing}
use event_driven_ai_voice.Router.Action.{Loaded}
use event_driven_ai_voice.Coordinator.{EventEnvelope, handle_event, Body, dispatch}
use event_driven_ai_voice.Coordinator.Monad.{Coordinator, Env, Io, ok, bind_ok, when}
use event_driven_ai_voice.Calls.{
  CallSessionEntry, Happening, deps_of, hand_over, handle_frontend_event, pass_on, provider_event,
  looped, receive,
}
use event_driven_ai_voice.Calls
use event_driven_ai_voice.Bridge.{told, translate_event}
use event_driven_ai_voice.Calls.{frame, happen}
use event_driven_ai_voice.Bridge.Responses.{
  done, after, concat, translated, done-IsCompleted, done-event_id, transcribe, transcribe-concat,
}
use event_driven_ai_voice.Buffer.Written.{IsWritten}
use event_driven_ai_voice.Prelude.{
  add, contains, ◌==◌, ◌+◌, drop, length, List, Option, Text, [], ap, if◌then◌else◌, refl, true,
  ◌∙◌, ◌∷◌, ◌≡◌, false, none, some, Unicode, arith, ℕ, not,
}

contains-add_new :
    (a b : ℕ) (xs : List ℕ)
    → contains a xs ≡ false
    → (a == b) ≡ false
    → contains a (add b xs) ≡ false
unfolding add contains
contains-add_new a b xs h k = ground arith

drop-length : {A : Type 0} (xs : List A) → drop (length xs) xs ≡ []
drop-length [] = refl
drop-length (x ∷ xs) = drop-length xs

module _ (env bridge_env : Env) (loads : Text → Loaded) (unicode : Unicode)
    (builder : Option RouterPromptBuilder) (world : World) where
  -- A frame with an event of the provider's; no shared set of seen ids is configured.
  abbrev pub heard : ProviderEvent → Happening
  heard input = frame world (SeenAnswer.no_set) (provider_event input)

  -- The frames of a response that speaks some words.
  unfoldable pub deltas : List Text → List Happening
  deltas [] = heard done ∷ []
  deltas (d ∷ ds) = heard (ProviderEvent.transcript_delta d) ∷ deltas ds

  abbrev pub response_frames : List Text → List Happening
  response_frames ds = heard (ProviderEvent.response_created object_or_missing) ∷ deltas ds

  abbrev pub handled : EventEnvelope → CallSessionEntry → Coordinator
  handled e s = (handle_event env (deps_of builder s) world (SeenAnswer.no_set) e s.coordinator).0

  -- The coordinator that has seen an event.
  abbrev pub remember : Uuid → Coordinator → Coordinator
  remember id c = record c { seen_ids_fallback = add id c.seen_ids_fallback }

  seen_first :
      (id : Uuid) (c : Coordinator)
      → contains id c.seen_ids_fallback ≡ false
      → is_duplicate SeenAnswer.no_set id c ≡ (remember id c, ok false)
  unfolding is_duplicate
  seen_first id c fresh = rw fresh refl

  -- An event whose id is new is handled.
  pub handled_fresh :
      (e : EventEnvelope) (s : CallSessionEntry)
      → contains e.event_id s.coordinator.seen_ids_fallback ≡ false
      → handled e s
        ≡ (dispatch env (deps_of builder s) world e.ts e.body (remember e.event_id s.coordinator)).0
  unfolding handle_event
  handled_fresh e s fresh =
      let first = seen_first e.event_id s.coordinator fresh in
      let go = dispatch env (deps_of builder s) world e.ts e.body in
      ap (λ p. p.0)
        (bind_ok (is_duplicate SeenAnswer.no_set e.event_id) (λ duplicate. when (not duplicate) go)
          s.coordinator {a = false} (ap (λ p. p.1) first))
      ∙ ap (λ p. (go p.0).0) first

  -- A frame of which the coordinator is told.
  pub passed_frame :
      (input : ProviderEvent) (e : EventEnvelope) (s : CallSessionEntry)
      → translated bridge_env loads unicode input s.bridge ≡ told e
      → (after bridge_env loads unicode input s.bridge).has_callback ≡ true
      → happen env bridge_env loads unicode builder (heard input) s
        ≡ hand_over env bridge_env loads unicode builder
            (handled e s)
            (record s { bridge = after bridge_env loads unicode input s.bridge })
  unfolding happen receive handle_frontend_event pass_on
  passed_frame input e s t wired =
      let s' = record s { bridge = after bridge_env loads unicode input s.bridge } in
      ap (λ t. looped (pass_on env bridge_env loads unicode builder world (SeenAnswer.no_set) t s'))
        t
      ∙ ap (λ w. if w then hand_over env bridge_env loads unicode builder (handled e s) s' else s')
          wired

  -- A frame to which the coordinator outputs nothing.
  told_frame :
      (input : ProviderEvent) (e : EventEnvelope) (s : CallSessionEntry)
      → translated bridge_env loads unicode input s.bridge ≡ told e
      → (after bridge_env loads unicode input s.bridge).has_callback ≡ true
      → (handled e s).output_events ≡ s.coordinator.output_events
      → happen env bridge_env loads unicode builder (heard input) s ≡ record s {
        coordinator = handled e s;
        bridge = after bridge_env loads unicode input s.bridge;
      }
  unfolding hand_over Calls.deliver
  told_frame input e s t wired none_new =
      passed_frame input e s t wired
      ∙ ap
          (λ es. record s {
            coordinator = handled e s;
            bridge =
                Calls.deliver env bridge_env loads unicode builder es
                  (after bridge_env loads unicode input s.bridge);
          })
          (ap (drop (length s.coordinator.output_events)) none_new
            ∙ drop-length s.coordinator.output_events)

  -- The id of the next event that the bridge reports.
  abbrev pub next_id : CallSessionEntry → Uuid
  next_id s = bridge_env.uuid4 s.bridge.drawn

  created_frame :
      (s : CallSessionEntry)
      → s.bridge.has_callback ≡ true
      → contains (next_id s) s.coordinator.seen_ids_fallback ≡ false
      → (io : Io) × (happen env bridge_env loads unicode builder
            (heard (ProviderEvent.response_created object_or_missing))
            s
          ≡ record s {
            coordinator = record (remember (next_id s) s.coordinator) { io = io };
            bridge =
                after bridge_env loads unicode
                  (ProviderEvent.response_created object_or_missing)
                  s.bridge;
          })
  unfolding translate_event dispatch
  created_frame s wired fresh =
      let created = ProviderEvent.response_created object_or_missing in
      let at = handled_fresh _ s fresh in
      let path = told_frame created _ s refl wired (ap (λ c. c.output_events) at) in
      (
        _,
        path
            ∙ ap
                (λ c. record s {
                  coordinator = c;
                  bridge = after bridge_env loads unicode created s.bridge;
                })
                at,
      )

  deltas-run :
      (ds : List Text) (s : CallSessionEntry)
      → Calls.run env bridge_env loads unicode builder (deltas ds) s
        ≡ happen env bridge_env loads unicode builder
            (heard done)
            (record s { bridge = transcribe bridge_env loads unicode ds s.bridge })
  unfolding Calls.run deltas transcribe happen receive handle_frontend_event pass_on translate_event
  deltas-run [] s = refl
  deltas-run (d ∷ ds) s = deltas-run ds _

  -- What the end of a voice's response has done.
  pub record IsEnded (words : Text) (s s' : CallSessionEntry) : Type 0 where
    pub machine : s'.coordinator.fsm.state ≡ after_voice s.coordinator.fsm.state
    pub text :
        IsWritten s.coordinator.state.turn_seq
          (clean_transcript unicode.is_word words)
          s.coordinator.buffer
          s'.coordinator.buffer
    pub runtime : s'.coordinator.state ≡ s.coordinator.state
    pub output : s'.coordinator.output_events ≡ s.coordinator.output_events
    pub over : s'.bridge.active_voice_generation_id ≡ none

  handled_completed :
      (voice : Uuid) (e : EventEnvelope) (p : Completed) (s : CallSessionEntry)
      → contains e.event_id s.coordinator.seen_ids_fallback ≡ false
      → e.body ≡ Body.voice_generation_completed p
      → p.voice_generation_id ≡ canonical voice
      → handled e s
        ≡ (on_voice_completed env
            (deps_of builder s)
            e.ts
            p
            (canonical voice)
            (remember e.event_id s.coordinator)).0
  unfolding dispatch
  handled_completed voice e p s fresh body id =
      let c = remember e.event_id s.coordinator in
      handled_fresh e s fresh
      ∙ ap (λ b. (dispatch env (deps_of builder s) world e.ts b c).0) body
      ∙ ap (λ i. (on_voice_completed env (deps_of builder s) e.ts p i c).0) id

  done_frame :
      (voice : Uuid) (s : CallSessionEntry)
      → s.bridge.active_voice_generation_id ≡ some voice
      → s.bridge.pending_direct_audio ≡ false
      → s.bridge.function_call_received ≡ false
      → s.bridge.has_callback ≡ true
      → is_voice_cancelled voice s.coordinator.state ≡ false
      → contains (next_id s) s.coordinator.seen_ids_fallback ≡ false
      → IsEnded s.bridge.response_transcript_buffer s
          (happen env bridge_env loads unicode builder (heard done) s)
  done_frame voice s active single spoken wired live fresh =
      let (t, over, _, kept) =
        done-IsCompleted bridge_env loads unicode voice s.bridge active single spoken in
      let p : Completed = record {
        voice_generation_id = canonical voice;
        transcript = clean_transcript unicode.is_word s.bridge.response_transcript_buffer;
        response_source = s.bridge.current_response_source;
        created_to_done_ms = t.ms;
      } in
      let e = t.envelope in
      let id = done-event_id bridge_env loads unicode voice s.bridge active single spoken t in
      let at_end = handled_completed voice e p s (rw id fresh) t.body refl in
      let whole =
        on_voice_completed_lem env (deps_of builder s) e.ts p voice
          (remember e.event_id s.coordinator) live in
      let path =
        told_frame done e s t.reported (kept ∙ wired)
          (ap (λ c. c.output_events) at_end ∙ whole.4) in
      rw (path, at_end)
        (record {
          machine = whole.1;
          text = whole.2;
          runtime = whole.3;
          output = whole.4;
          over = over;
        })

  -- A voice is under way in the bridge, which is wired to the coordinator and has no direct answer
  -- pending, and the coordinator has not cancelled it. No shared set of seen ids is configured, and the
  -- ids of the next two events are new and differ. When the frames of one response come in, its start,
  -- any deltas and its end, then the machine is done if it was routing or speaking; where the cleaned
  -- transcript of the deltas is not empty and the conversation has an entry of the current turn, the
  -- newest such entry gets it as the agent's text, before the oldest entries over the limit of
  -- characters, which may be all, are dropped; else the conversation stays. The runtime state stays,
  -- nothing more is output, and no voice is under way in the bridge.
  pub response_turn :
      (voice : Uuid) (ds : List Text) (s : CallSessionEntry)
      → s.bridge.active_voice_generation_id ≡ some voice
      → s.bridge.pending_direct_audio ≡ false
      → s.bridge.has_callback ≡ true
      → is_voice_cancelled voice s.coordinator.state ≡ false
      → contains (next_id s) s.coordinator.seen_ids_fallback ≡ false
      → contains (bridge_env.uuid4 (s.bridge.drawn + 1)) s.coordinator.seen_ids_fallback ≡ false
      → (bridge_env.uuid4 (s.bridge.drawn + 1) == next_id s) ≡ false
      → IsEnded
          (concat ds)
          s
          (Calls.run env bridge_env loads unicode builder (response_frames ds) s)
  unfolding Calls.run translate_event
  response_turn voice ds s active single wired live fresh fresh₂ differ =
      let created = ProviderEvent.response_created object_or_missing in
      let (io, path) = created_frame s wired fresh in
      let b = after bridge_env loads unicode created s.bridge in
      let s₁ = record s {
        coordinator = record (remember (next_id s) s.coordinator) { io = io };
        bridge = b;
      } in
      let s₂ = record s₁ { bridge = record b { response_transcript_buffer = concat ds } } in
      let whole : Calls.run env bridge_env loads unicode builder (response_frames ds) s
          ≡ happen env bridge_env loads unicode builder (heard done) s₂ =
        ap (Calls.run env bridge_env loads unicode builder (deltas ds)) path
        ∙ deltas-run ds s₁
        ∙ ap
            (λ b.
              happen env bridge_env loads unicode builder (heard done) (record s₁ { bridge = b }))
            (transcribe-concat bridge_env loads unicode ds b) in
      let new_id =
        contains-add_new (bridge_env.uuid4 (s.bridge.drawn + 1)) (next_id s)
          s.coordinator.seen_ids_fallback fresh₂ differ in
      let h = done_frame voice s₂ active single refl wired live new_id in
      rw whole (record {
        machine = h.machine;
        text = h.text;
        runtime = h.runtime;
        output = h.output;
        over = h.over;
      })
