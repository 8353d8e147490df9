-- ===== src/Tests/Sessions.antt =====
-- Concrete sessions.
use event_driven_ai_voice.Prelude.{
  add, contains, ◌==◌, List, [], arith, codes, false, length, none, refl, some, true, ◌+◌, ◌∷◌, ◌≡◌,
  ◌≤◌,
}
use event_driven_ai_voice.Runtime.{is_voice_cancelled}
use event_driven_ai_voice.Fsm.{start_routing}
use event_driven_ai_voice.Turns.{open_turn_id, handle_audio_committed, handle_speech_started}
use event_driven_ai_voice.Buffer.{append}
use event_driven_ai_voice.Coordinator.Committed.{
  drain_turns, on_turn_event, on_turn_events, open_generation, replace_generation, request_response,
}
use event_driven_ai_voice.Coordinator
use event_driven_ai_voice.Coordinator.Output.{
  SeenAnswer, is_duplicate, send_debug_io, set_debug_callback,
}
use event_driven_ai_voice.Bridge
use event_driven_ai_voice.Bridge.Messages.{ProviderEvent}
use event_driven_ai_voice.Bridge.Playback
use event_driven_ai_voice.Bridge.Responses.{concat}
use event_driven_ai_voice.Calls
use event_driven_ai_voice.Calls.{
  CallSessionEntry, Happening, accepted, closed, frame, new_entry, provider_event, timer,
}
use event_driven_ai_voice.Calls.Parts.{run_composed}
use event_driven_ai_voice.Types.{Uuid}
use event_driven_ai_voice.Calls.Committed.{IsAsked, committed_turn}
use event_driven_ai_voice.Calls.DirectTurn.{heard, IsEnded, response_frames, response_turn}
use event_driven_ai_voice.Calls.Sessions.{
  Request, Settings, create, delete, find, on_session, serve_all,
}
use event_driven_ai_voice.Calls.Sessions.Sound.{IsSound, serve_all-IsSound, serve_all-bounded}
use event_driven_ai_voice.Tests.Calls.{env, world}
use event_driven_ai_voice.Tests.Bridge as BridgeTests
use event_driven_ai_voice.Tests.Bridge.{unicode, loads}

abbrev hear : ProviderEvent → Happening
hear input = frame world SeenAnswer.no_set (provider_event input)

-- The browser connects and the caller has spoken.
abbrev spoken : List Happening
spoken = accepted ∷ hear ProviderEvent.speech_started ∷ hear ProviderEvent.committed ∷ []

abbrev session : List Happening → CallSessionEntry
session hs = Calls.run env BridgeTests.env loads unicode none hs (new_entry 1 none 10 2000)

-- The voice of the first turn, which the coordinator asks for and the bridge holds.
first_voice :
    let s = session spoken in
    (s.bridge.active_voice_generation_id ≡ some 102)
    × (s.bridge.pending_direct_audio ≡ false)
    × (s.bridge.has_callback ≡ true)
    × (is_voice_cancelled 102 s.coordinator.state ≡ false)
unfolding Calls.run new_entry set_debug_callback Coordinator.new Coordinator.handle_event
    Coordinator.dispatch is_duplicate drain_turns on_turn_events handle_audio_committed
    handle_speech_started on_turn_event replace_generation open_generation append start_routing
    request_response send_debug_io Bridge.new Bridge.translate_event Bridge.send_voice_start
first_voice = (refl, refl, refl, refl)

-- The ids of the next two events are new.
first_ids :
    let s = session spoken in
    (contains (BridgeTests.env.uuid4 s.bridge.drawn) s.coordinator.seen_ids_fallback ≡ false)
    × (contains (BridgeTests.env.uuid4 (s.bridge.drawn + 1)) s.coordinator.seen_ids_fallback
        ≡ false)
    × ((BridgeTests.env.uuid4 (s.bridge.drawn + 1) == BridgeTests.env.uuid4 s.bridge.drawn) ≡ false)
unfolding contains add Calls.run new_entry set_debug_callback Coordinator.new
    Coordinator.handle_event Coordinator.dispatch is_duplicate drain_turns on_turn_events
    handle_audio_committed handle_speech_started on_turn_event replace_generation open_generation
    append start_routing request_response send_debug_io Bridge.new Bridge.translate_event
    Bridge.send_voice_start
first_ids = (refl, refl, refl)

abbrev requests : List Request
requests = create 1 ∷ create 2 ∷ on_session 1 accepted ∷ delete 2 ∷ []

abbrev settings : Settings
settings = record { max_concurrent_calls = 2; max_history_turns = 10; max_history_chars = 2000 }

serve_all-bounded_example :
    length (serve_all env BridgeTests.env loads unicode none settings requests []) ≤ 2
serve_all-bounded_example =
    serve_all-bounded env BridgeTests.env loads unicode none settings requests

-- The first session, to which the browser has connected.
abbrev connected : CallSessionEntry
connected = Calls.happen env BridgeTests.env loads unicode none accepted (new_entry 1 none 10 2000)

found :
    find 1 (serve_all env BridgeTests.env loads unicode none settings requests []) ≡ some connected
unfolding serve_all
found = refl

serve_all-IsSound_example : IsSound env BridgeTests.env loads unicode none settings 1 connected
serve_all-IsSound_example =
    serve_all-IsSound env BridgeTests.env loads unicode none settings requests 1 connected
      (omega arith) found

response_turn_example :
    let s = session spoken in
    IsEnded env BridgeTests.env loads unicode none world (concat (codes "Hi." ∷ [])) s (
      Calls.run env BridgeTests.env loads unicode none
        (response_frames env BridgeTests.env loads unicode none world (codes "Hi." ∷ []))
        s)
response_turn_example =
    response_turn env BridgeTests.env loads unicode none world 102 (codes "Hi." ∷ [])
      (session spoken) first_voice.0 first_voice.1 first_voice.2 first_voice.3 first_ids.0
      first_ids.1 first_ids.2

-- The caller has begun to speak.
abbrev begun : List Happening
begun = accepted ∷ hear ProviderEvent.speech_started ∷ []

first_turn :
    let s = session begun in
    (open_turn_id s.coordinator.turns ≡ some 100)
    × (s.bridge.has_callback ≡ true)
    × (s.bridge.has_frontend_ws ≡ true)
    × (contains (BridgeTests.env.uuid4 s.bridge.drawn) s.coordinator.seen_ids_fallback ≡ false)
unfolding contains add Calls.run new_entry set_debug_callback Coordinator.new
    Coordinator.handle_event Coordinator.dispatch is_duplicate handle_speech_started send_debug_io
    Bridge.new Bridge.translate_event
first_turn = (refl, refl, refl, refl)

committed_turn_example :
    let s = session begun in
    let s' =
      Calls.happen env BridgeTests.env loads unicode none
        (heard env BridgeTests.env loads unicode none world ProviderEvent.committed)
        s in
    (gen : Uuid) × (voice : Uuid) × IsAsked env BridgeTests.env loads unicode none world gen voice
      s'
    × (s'.coordinator.state.turn_seq ≡ s.coordinator.state.turn_seq + 1)
    × (s'.bridge.pending_direct_audio ≡ s.bridge.pending_direct_audio)
committed_turn_example =
    let whole = run_composed env BridgeTests.env loads unicode none begun 1 10 2000 (omega arith) in
    committed_turn env BridgeTests.env loads unicode none world (session begun) 100 whole.7
      first_turn.0 first_turn.1 first_turn.2 first_turn.3
