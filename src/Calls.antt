-- ===== src/Calls.antt =====
-- backend/src/api/routes/calls.py: a call's session, in which the bridge and the coordinator are wired
-- to each other, and the WebSocket that drives it. `orjson.loads` of the frames is an argument in what
-- a frame is; the clock and the ids of the bridge and of the coordinator are two arguments.
pub mod Parts
pub mod DirectTurn
pub mod Committed
pub mod Sessions
use event_driven_ai_voice.Prelude.{
  ℕ, List, Option, Text, [], drop, false, if◌then◌else◌, length, none, some, true, ◌∷◌, Unicode,
}
use event_driven_ai_voice.Types.{
  OutputEvent, ToolDefinition, Uuid, cancel_agent, voice_cancel, voice_start,
}
use event_driven_ai_voice.Router.{RouterPromptBuilder}
use event_driven_ai_voice.Router.Action.{Loaded}
use event_driven_ai_voice.Router.Config.{valid_departments}
use event_driven_ai_voice.Coordinator
use event_driven_ai_voice.Coordinator.{handle_event}
use event_driven_ai_voice.Coordinator.Action.{World}
use event_driven_ai_voice.Coordinator.Monad.{Coordinator, Deps, Env, Stage}
use event_driven_ai_voice.Coordinator.Output.{
  SeenAnswer, filler_timer_fires, handle_client_debug_event, set_debug_callback, set_debug_enabled,
}
use event_driven_ai_voice.Bridge
use event_driven_ai_voice.Bridge.{
  Bridge, attribute_error, close, on_event, quiet, send_to_frontend, send_voice_cancel,
  send_voice_start, set_frontend_ws, told, translate_event, Translated,
}
use event_driven_ai_voice.Bridge.Messages.{ProviderEvent, session_update}

-- The turn manager and the agent machine are the coordinator's.
pub record CallSessionEntry : Type 0 where
  pub call_id : Uuid
  pub coordinator : Coordinator
  pub bridge : Bridge

-- The actors' dependencies: no repository is passed to the coordinator.
abbrev pub call_deps : Uuid → Option RouterPromptBuilder → Deps
call_deps call_id builder = record {
  call_id = call_id;
  router_prompt_builder = builder;
  has_turn_repo = false;
  has_agent_gen_repo = false;
  has_voice_gen_repo = false;
}

abbrev pub departments_of : Option RouterPromptBuilder → Option (List Text)
departments_of none = none
departments_of (some builder) = some (valid_departments builder.config)

abbrev pub tools_of : Option RouterPromptBuilder → List ToolDefinition
tools_of none = []
tools_of (some builder) = builder.tool_definition ∷ []

-- The actors of a new call and their wiring.
unfoldable pub new_entry : Uuid → Option RouterPromptBuilder → ℕ → ℕ → CallSessionEntry
new_entry call_id builder max_history_turns max_history_chars = record {
  call_id = call_id;
  coordinator =
      set_debug_callback true
        (Coordinator.new (call_deps call_id builder) max_history_turns max_history_chars);
  bridge = on_event (Bridge.new call_id (departments_of builder));
}

-- What a frame of the WebSocket is: no JSON, JSON without a `get`, a control message of the debug
-- timeline, whose `ts` may be no number, or an event of the provider's.
pub data Frame : Type 0 where
  malformed no_object debug_enable debug_disable : Frame
  client_debug_event : Stage → Frame
  client_debug_bad_ts : Frame
  provider_event : ProviderEvent → Frame

-- Whether the WebSocket's loop goes on.
pub data Loop : Type 0 where
  goes_on ends : Loop

abbrev pub deps_of : Option RouterPromptBuilder → CallSessionEntry → Deps
deps_of builder s = call_deps s.call_id builder

-- The end of `events_ws`.
abbrev pub disconnected : CallSessionEntry → CallSessionEntry
disconnected s = record s { bridge = set_frontend_ws false s.bridge }

-- After a frame, the loop goes on or the WebSocket is let go.
abbrev pub looped : CallSessionEntry × Loop → CallSessionEntry
looped (s, goes_on) = s
looped (s, ends) = disconnected s

-- What may happen to a session: its WebSocket is accepted, hands over a frame or is closed by the
-- browser, the filler's timer fires, or the call is deleted.
pub data Happening : Type 0 where
  accepted closed timer deleted : Happening
  frame : World → SeenAnswer → Frame → Happening

module _ (env bridge_env : Env) (loads : Text → Loaded) (unicode : Unicode)
    (builder : Option RouterPromptBuilder) where
  -- `_on_coordinator_output`
  abbrev pub on_coordinator_output : OutputEvent → Bridge → Bridge
  on_coordinator_output (voice_start e) b = send_voice_start bridge_env e b
  on_coordinator_output (voice_cancel e) b = send_voice_cancel e b
  on_coordinator_output (cancel_agent e) b = b

  unfoldable pub deliver : List OutputEvent → Bridge → Bridge
  deliver [] b = b
  deliver (e ∷ es) b = deliver es (on_coordinator_output e b)

  -- The coordinator after some of its code, with the output events that this added handed to the
  -- bridge.
  unfoldable pub hand_over : Coordinator → CallSessionEntry → CallSessionEntry
  unfolding deliver
  hand_over c s = record s {
    coordinator = c;
    bridge = deliver (drop (length s.coordinator.output_events) c.output_events) s.bridge;
  }

  -- The end of `_translate_event`: an envelope goes to the callback, whose exception is logged; an
  -- exception of the translation goes up.
  unfoldable pub pass_on :
      World → SeenAnswer → Translated → CallSessionEntry → CallSessionEntry × Loop
  unfolding hand_over
  pass_on world seen quiet s = (s, goes_on)
  pass_on world seen attribute_error s = (s, ends)
  pass_on world seen (told envelope) s = (
    if s.bridge.has_callback
        then hand_over (handle_event env (deps_of builder s) world seen envelope s.coordinator).0 s
        else s,
    goes_on,
  )

  unfoldable pub handle_frontend_event :
      World → SeenAnswer → ProviderEvent → CallSessionEntry → CallSessionEntry × Loop
  unfolding pass_on
  handle_frontend_event world seen input s =
      let (b, t) = translate_event bridge_env loads unicode input s.bridge in
      pass_on world seen t (record s { bridge = b })

  -- A frame in the loop of `events_ws`.
  unfoldable pub receive : World → SeenAnswer → Frame → CallSessionEntry → CallSessionEntry × Loop
  unfolding handle_frontend_event
  receive world seen malformed s = (s, goes_on)
  receive world seen no_object s = (s, ends)
  receive world seen debug_enable s =
      (record s { coordinator = set_debug_enabled true s.coordinator }, goes_on)
  receive world seen debug_disable s =
      (record s { coordinator = set_debug_enabled false s.coordinator }, goes_on)
  receive world seen (client_debug_event stage) s =
      (record s { coordinator = (handle_client_debug_event env stage s.coordinator).0 }, goes_on)
  receive world seen client_debug_bad_ts s = (s, ends)
  receive world seen (provider_event input) s = handle_frontend_event world seen input s

  unfoldable pub happen : Happening → CallSessionEntry → CallSessionEntry
  unfolding receive hand_over send_to_frontend
  happen accepted s = record s {
    bridge = send_to_frontend (session_update (tools_of builder)) (set_frontend_ws true s.bridge);
  }
  happen closed s = disconnected s
  happen timer s = hand_over (filler_timer_fires s.coordinator) s
  happen deleted s = record s { bridge = close s.bridge }
  happen (frame world seen f) s = looped (receive world seen f s)

  -- What happens to a session, in order.
  unfoldable pub run : List Happening → CallSessionEntry → CallSessionEntry
  unfolding happen
  run [] s = s
  run (h ∷ hs) s = run hs (happen h s)
