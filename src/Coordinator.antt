-- ===== src/Coordinator.antt =====
-- backend/src/voice_runtime/coordinator.py: the entry point of the actor of one call.
pub mod Monad
pub mod Output
pub mod Speech
pub mod Committed
pub mod Voice
pub mod Action
pub mod Coherence
pub mod BargeIn
pub mod Completion
pub mod History
pub mod Remembers
pub mod Adds
pub mod Unwired
use event_driven_ai_voice.Prelude.{ℕ, Option, Text, [], false, none, not, some, ℤ, Bool, List, ◌∷◌}
use event_driven_ai_voice.Types.{Uuid, EventSource, IdText, ResponseSource, router, specialist}
use event_driven_ai_voice.Runtime
use event_driven_ai_voice.Fsm
use event_driven_ai_voice.Turns
use event_driven_ai_voice.Buffer
use Monad.{
  Coordinator, M, Env, Deps, Extra, Stage, nothing, send_to_created_ms, specialist_processing,
  model_processing, pure, when, no_task, ◌>>=◌, ◌>>◌,
}
use Output.{
  set_debug_callback, set_debug_enabled, drain_output_events, filler_timer_fires, SeenAnswer,
  handle_client_debug_event, is_duplicate, send_debug,
}
use Speech.{on_speech_started, on_speech_stopped}
use Committed.{on_audio_committed, on_transcript_final}
use Voice.{Completed, on_voice_completed, on_voice_error, on_tool_result}
use Action.{World, on_model_router_action}

-- The event of an envelope, by its `type`, with what the handlers read of its payload.
pub data Body : Type 0 where
  speech_started speech_stopped audio_committed : Body
  transcript_final : Text → Body
  model_router_action : Text → Text → Body
  response_created : ResponseSource → Option ℤ → Body
  voice_generation_completed : Completed → Body
  voice_generation_error : IdText → Text → Body
  tool_result : IdText → Body
  unhandled : Text → Body

pub record EventEnvelope : Type 0 where
  pub event_id : Uuid
  pub call_id : Uuid
  pub ts : ℕ
  pub body : Body
  pub source : EventSource

unfoldable pub new : Deps → ℕ → ℕ → Coordinator
unfolding Runtime.new Fsm.new Turns.new Buffer.new
new deps max_history_turns max_history_chars = record {
  state = Runtime.new deps.call_id;
  fsm = Fsm.new deps.call_id;
  turns = Turns.new deps.call_id;
  buffer = Buffer.new max_history_turns max_history_chars;
  filler = no_task;
  seen_ids_fallback = [];
  output_events = [];
  io = record {
    drawn = 0;
    readings = 0;
    effects = [];
    debug = record {
      has_callback = false;
      enabled = false;
      turn_id = none;
      turn_start_ms = 0;
      last_stage_ms = 0;
      route_result_emitted = false;
      audio_playback_end_received = false;
    };
  };
}

abbrev pub created_stage : ResponseSource → Stage
created_stage specialist = specialist_processing
created_stage router = model_processing

abbrev pub sent_extra : Option ℤ → Extra
sent_extra none = nothing
sent_extra (some ms) = send_to_created_ms ms

module _ (env : Env) (deps : Deps) where
  -- The `match envelope.type`.
  unfoldable pub dispatch : World → ℕ → Body → M (Unit {0})
  unfolding on_speech_started on_speech_stopped on_audio_committed on_transcript_final
      on_model_router_action on_voice_completed on_voice_error on_tool_result
  dispatch world ts speech_started = on_speech_started env deps ts
  dispatch world ts speech_stopped = on_speech_stopped env
  dispatch world ts audio_committed = on_audio_committed env deps ts
  dispatch world ts (transcript_final text) = on_transcript_final env deps ts text
  dispatch world ts (model_router_action department summary) =
      on_model_router_action env deps ts world department summary
  dispatch world ts (response_created source ms) =
      send_debug env (created_stage source) (sent_extra ms)
  dispatch world ts (voice_generation_completed p) =
      on_voice_completed env deps ts p p.voice_generation_id
  dispatch world ts (voice_generation_error id error) = on_voice_error env deps ts error id
  dispatch world ts (tool_result id) = on_tool_result env deps ts id
  dispatch world ts (unhandled type) = pure tt

  unfoldable pub handle_event : World → SeenAnswer → EventEnvelope → M (Unit {0})
  handle_event world seen envelope = do
    duplicate ← is_duplicate seen envelope.event_id
    when (not duplicate) (dispatch world envelope.ts envelope.body)

-- What may happen to the actor: an event with the answers of its surroundings, a message of the
-- client's about the debug timeline, the wiring of the callbacks, or the filler's timer.
pub data Input : Type 0 where
  event : World → SeenAnswer → EventEnvelope → Input
  client_debug : Stage → Input
  debug_callback : Bool → Input
  debug_enabled : Bool → Input
  drain : Input
  filler_timer : Input

-- One input; an exception of a handler is caught by the caller, and the state stays as it is then.
unfoldable pub step : Env → Deps → Input → Coordinator → Coordinator
step env deps (event world seen envelope) c = (handle_event env deps world seen envelope c).0
step env deps (client_debug stage) c = (handle_client_debug_event env stage c).0
step env deps (debug_callback present) c = set_debug_callback present c
step env deps (debug_enabled enabled) c = set_debug_enabled enabled c
step env deps drain c = (drain_output_events c).0
step env deps filler_timer c = filler_timer_fires c

unfoldable pub run : Env → Deps → List Input → Coordinator → Coordinator
run env deps [] c = c
run env deps (i ∷ is) c = run env deps is (step env deps i c)
