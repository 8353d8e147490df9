-- ===== src/Coordinator/Output.antt =====
-- The helpers of backend/src/voice_runtime/coordinator.py: debug messages, output events, writes,
-- duplicate detection and the filler task.
use event_driven_ai_voice.Runtime.{is_voice_cancelled}
use event_driven_ai_voice.Prelude.{
  ℕ, Bool, List, Option, [], add, contains, false, if◌then◌else◌, none, not, pos, some, sub_ℕ, true,
  ℤ, ◌++◌, ◌+◌, ◌==◌, ◌||◌, ◌∷◌,
}
use event_driven_ai_voice.Types.{Uuid, OutputEvent, filler_max_duration, voice_cancel}
use event_driven_ai_voice.Entities.{Write}
use event_driven_ai_voice.Coordinator.Monad.{
  Io, M, Coordinator, Debug, DebugEvent, DebugMessage, Effect, Env, Extra, FillerTask, Stage,
  audio_playback_end, debug_event, debug_message, finished, modify, modify_debug, modify_io,
  modify_state, no_task, nothing, pure, sleeping, speech_start, write, ok, ◌>>◌,
}

-- `a - b if b else 0`
abbrev pub elapsed : ℕ → ℕ → ℤ
elapsed a b = if b == 0 then pos 0 else sub_ℕ a b

-- An effect after the others.
abbrev pub log : Effect → Io → Io
log e io = record io { effects = io.effects ++ e ∷ [] }

-- `_emit_debug`
unfoldable pub emit_debug : DebugMessage → Io → Io
emit_debug message io = if io.debug.has_callback then log (debug_message message) io else io

abbrev pub is_speech_start : Stage → Bool
is_speech_start speech_start = true
is_speech_start _ = false

-- `self._turn_repo is not None` and the like guard each write.
unfoldable pub persist : Bool → Write → Io → Io
persist configured w io = if configured then log (write w) io else io

module _ (env : Env) where
  -- The turn that a `speech_start` opens on the timeline: a new id, and both clocks at `now`.
  unfoldable pub open_timeline : ℕ → Io → Io
  open_timeline now io = record io {
    drawn = io.drawn + 1;
    debug = record (io.debug) {
      turn_id = some (env.uuid4 io.drawn);
      turn_start_ms = now;
      last_stage_ms = now;
    };
  }

  -- The event of a stage, from the clocks of the timeline.
  unfoldable pub stage_event : Stage → Extra → ℕ → Debug → DebugEvent
  stage_event stage extra now d = record {
    turn_id = d.turn_id;
    stage = stage;
    delta_ms = elapsed now d.last_stage_ms;
    total_ms = elapsed now d.turn_start_ms;
    ts = now;
    extra = extra;
  }

  -- `_send_debug`
  unfoldable pub send_debug_io : Stage → Extra → Io → Io
  unfolding open_timeline stage_event emit_debug
  send_debug_io stage extra io =
      if not io.debug.enabled || not io.debug.has_callback
      then io
      else let now = env.now_ms io.readings in
        let read = record io { readings = io.readings + 1 } in
        let opened = if is_speech_start stage then open_timeline now read else read in
        let event = stage_event stage extra now opened.debug in
        emit_debug (debug_event event)
          (record opened { debug = record (opened.debug) { last_stage_ms = now } })

  abbrev pub send_debug : Stage → Extra → M (Unit {0})
  send_debug stage extra = modify_io (send_debug_io stage extra)

  -- `uuid4()`
  abbrev pub uuid4 : M Uuid
  uuid4 c = (record c { io = record (c.io) { drawn = c.io.drawn + 1 } }, ok (env.uuid4 c.io.drawn))

  -- `value or uuid4()`
  abbrev pub or_uuid4 : Option Uuid → M Uuid
  or_uuid4 (some id) = pure id
  or_uuid4 none = uuid4

-- `_emit_output`: the event is appended, and handed to the callback, whose failure is caught.
abbrev pub emit_output : OutputEvent → M (Unit {0})
emit_output event = modify λ c. record c { output_events = c.output_events ++ event ∷ [] }

-- `drain_output_events`
unfoldable pub drain_output_events : M (List OutputEvent)
drain_output_events c = (record c { output_events = [] }, ok c.output_events)

-- The answer of the shared set of seen ids: none is configured, it fails, or it tells whether the
-- id is new.
pub data SeenAnswer : Type 0 where
  no_set failed_set : SeenAnswer
  is_new : Bool → SeenAnswer

-- `_is_duplicate`
unfoldable pub is_duplicate : SeenAnswer → Uuid → M Bool
unfolding contains add
is_duplicate (is_new fresh) id c = (c, ok (not fresh))
is_duplicate _ id c =
    if contains id c.seen_ids_fallback
    then (c, ok true)
    else (record c { seen_ids_fallback = add id c.seen_ids_fallback }, ok false)

-- `_cancel_filler`
unfoldable pub cancel_filler : FillerTask → FillerTask
cancel_filler (sleeping voice ts) = no_task
cancel_filler task = task

-- `_start_filler_timeout`
abbrev pub start_filler_timeout : Uuid → ℕ → Coordinator → Coordinator
start_filler_timeout voice ts c = record c { filler = sleeping voice ts }

-- `_auto_cancel_filler` after its sleep: the filler's voice is cancelled, unless it is already.
stop_filler : FillerTask → Coordinator → Coordinator
unfolding contains add
stop_filler (sleeping voice ts) c =
    if is_voice_cancelled voice c.state then record c { filler = finished } else record c {
      filler = finished;
      state = record (c.state) {
        cancelled_voice_generations = add voice c.state.cancelled_voice_generations;
      };
      output_events =
          c.output_events
          ++ voice_cancel (record {
            call_id = c.state.call_id;
            voice_generation_id = voice;
            reason = filler_max_duration;
            ts = ts;
          })
            ∷ [];
    }
stop_filler task c = c

unfoldable pub filler_timer_fires : Coordinator → Coordinator
unfolding stop_filler
filler_timer_fires c = stop_filler c.filler c

-- `set_debug_callback` and `set_debug_enabled`
unfoldable pub set_debug_callback : Bool → Coordinator → Coordinator
set_debug_callback present c = record c {
  io = record (c.io) { debug = record (c.io.debug) { has_callback = present } };
}

unfoldable pub set_debug_enabled : Bool → Coordinator → Coordinator
set_debug_enabled enabled c = record c {
  io = record (c.io) { debug = record (c.io.debug) { enabled = enabled } };
}

-- `handle_client_debug_event`: the end of the playback ends the active voice.
unfoldable pub handle_client_debug_event : Env → Stage → M (Unit {0})
handle_client_debug_event env audio_playback_end = do
  modify_debug λ d. record d { audio_playback_end_received = true }
  modify_state λ s. record s { active_voice_generation_id = none }
  send_debug env audio_playback_end nothing
handle_client_debug_event env stage = send_debug env stage nothing
