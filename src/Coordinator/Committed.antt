-- ===== src/Coordinator/Committed.antt =====
-- `_on_audio_committed` and `_on_transcript_final` of backend/src/voice_runtime/coordinator.py: a
-- turn ends, and a generation is asked of the model.
use event_driven_ai_voice.Entities.{insert_generation, insert_turn, update_turn}
use event_driven_ai_voice.Prelude.{
  ℕ, List, Option, Text, [], codes, if◌then◌else◌, is_empty, is_some, join, map, none, not, some,
  ◌&&◌, ◌++◌, ◌+◌, ◌∷◌,
}
use event_driven_ai_voice.Types.{
  Uuid, AgentState, Message, ResponseCreate, TurnEvent, finalized, payload, rapid_successive_turn,
  router, turn_finalized, voice_start, OutputEvent,
}
use event_driven_ai_voice.Fsm.{cancel, reset, start_routing}
use event_driven_ai_voice.Turns.{handle_audio_committed, drain_events, handle_transcript_final}
use event_driven_ai_voice.Buffer.{
  append, appended, index_error, format_messages, update_last_user_text, TurnEntry, blank_entry,
}
use event_driven_ai_voice.Router.{build_response_create, history_line, newline, RouterPromptBuilder}
use event_driven_ai_voice.Coordinator.Monad.{
  Io, M, Deps, Env, Error, audio_committed, fsm_call, fsm_state, gets, modify, modify_io,
  modify_state, nothing, ok, prompt_sent, pure, raised, transcript, turn_update, when, ◌>>=◌, ◌>>◌,
}
use event_driven_ai_voice.Coordinator.Output.{emit_output, emit_debug, persist, send_debug, uuid4}
use event_driven_ai_voice.Coordinator.Speech.{cancel_voice, cancel_generation, persist_cancelled}

-- The prompt where no router is configured.
unfoldable pub fallback_prompt : List Message → ResponseCreate
unfolding history_line join
fallback_prompt history = record {
  instructions =
      if is_empty history
      then codes "You are a helpful voice assistant."
      else (codes "You are a helpful voice assistant."
          ++ (codes "\n\nConversation history:\n" ++ join newline (map history_line history)));
  tools = [];
}

unfoldable pub router_prompt : Option RouterPromptBuilder → List Message → ResponseCreate
router_prompt none history = fallback_prompt history
router_prompt (some b) history = build_response_create history b

-- `self._conversation_buffer.append(...)`, whose `IndexError` goes up.
unfoldable pub append_entry : TurnEntry → M (Unit {0})
append_entry entry c = elim (append entry c.buffer) [
  | appended b ↦ (record c { buffer = b }, ok tt)
  | index_error b ↦ (record c { buffer = b }, raised Error.index_error)
]

-- The start of the model's voice for a generation.
abbrev pub start_event : Deps → ℕ → Uuid → Uuid → List Message → OutputEvent
start_event deps ts gen voice history = voice_start (record {
  call_id = deps.call_id;
  agent_generation_id = some gen;
  voice_generation_id = voice;
  prompt = payload (router_prompt deps.router_prompt_builder history);
  ts = ts;
  response_source = router;
})

module _ (env : Env) (deps : Deps) (ts : ℕ) where
  -- The generation of an earlier turn, if one is active, gives way to a new turn.
  unfoldable pub replace_generation : Option Uuid → M (Unit {0})
  unfolding cancel_voice cancel_generation persist_cancelled
  replace_generation none = pure tt
  replace_generation (some prev) = do
    prev_turn ← gets λ c. c.state.active_turn_id
    _ ← cancel_generation
    _ ← cancel_voice
    fsm_call (cancel ts)
    modify λ c. record c { fsm = reset c.fsm }
    modify_io (persist_cancelled deps prev prev_turn rapid_successive_turn ts)

  -- The rows of the new turn and of its generation.
  unfoldable pub persist_turn : Uuid → Uuid → ℕ → Io → Io
  unfolding persist
  persist_turn turn gen seq io =
      persist deps.has_agent_gen_repo
        (insert_generation (record {
          agent_generation_id = gen;
          call_id = deps.call_id;
          turn_id = turn;
          created_at = ts;
          state = AgentState.routing;
          started_at = some ts;
          ended_at = none;
          route_a_label = none;
          route_a_confidence = none;
          policy_key = none;
          specialist = none;
          final_outcome = none;
          cancel_reason = none;
          error = none;
        }))
        (persist deps.has_turn_repo
          (insert_turn (record {
            turn_id = turn;
            call_id = deps.call_id;
            seq = seq;
            started_at = ts;
            state = finalized;
            finalized_at = some ts;
            text_final = some [];
            language = none;
            cancel_reason = none;
            asr_confidence = none;
          }))
          io)

  -- The new turn becomes active, with an entry in the conversation and a routing machine.
  unfoldable pub open_generation : Uuid → M Uuid
  unfolding append_entry
  open_generation turn = do
    modify_state λ s. record s { active_turn_id = some turn; turn_seq = s.turn_seq + 1 }
    gen ← uuid4 env
    modify_state λ s. record s { active_agent_generation_id = some gen }
    seq ← gets λ c. c.state.turn_seq
    append_entry (blank_entry seq)
    fsm_call (start_routing gen ts)
    pure gen

  -- The model is asked for a response to the new turn.
  unfoldable pub request_response : Uuid → Uuid → M (Unit {0})
  unfolding persist_turn emit_debug
  request_response turn gen = do
    history ← gets λ c. format_messages c.buffer
    send_debug env prompt_sent nothing
    voice ← uuid4 env
    modify_state λ s. record s { active_voice_generation_id = some voice }
    emit_output (start_event deps ts gen voice history)
    seq ← gets λ c. c.state.turn_seq
    modify_io (persist_turn turn gen seq)
    modify_io (emit_debug (turn_update turn))
    state ← gets λ c. c.fsm.state
    modify_io (emit_debug (fsm_state state gen))

  -- The body of the loop over the turn manager's events.
  unfoldable pub on_turn_event : TurnEvent → M (Unit {0})
  on_turn_event (turn_finalized e) = do
    active ← gets λ c. c.state.active_agent_generation_id
    replace_generation active
    gen ← open_generation e.turn_id
    request_response e.turn_id gen
  on_turn_event _ = pure tt

  unfoldable pub on_turn_events : List TurnEvent → M (Unit {0})
  on_turn_events [] = pure tt
  on_turn_events (e ∷ es) = do on_turn_event e; on_turn_events es

  unfoldable pub drain_turns : M (List TurnEvent)
  unfolding drain_events
  drain_turns c = let (m, events) = drain_events c.turns in (record c { turns = m }, ok events)

  unfoldable pub on_audio_committed : M (Unit {0})
  on_audio_committed = do
    modify_state λ s. record s { turn_audio_committed_ms = ts }
    send_debug env audio_committed nothing
    modify λ c. record c { turns = handle_audio_committed ts c.turns }
    events ← drain_turns
    on_turn_events events

  -- The update of the row of the active turn with its text.
  unfoldable pub persist_transcript : Option Uuid → ℕ → Text → Io → Io
  unfolding persist
  persist_transcript none seq text io = io
  persist_transcript (some turn) seq text io =
      persist deps.has_turn_repo
        (update_turn (record {
          turn_id = turn;
          call_id = deps.call_id;
          seq = seq;
          started_at = ts;
          state = finalized;
          finalized_at = none;
          text_final = some text;
          language = none;
          cancel_reason = none;
          asr_confidence = none;
        }))
        io

  unfoldable pub on_transcript_final : Text → M (Unit {0})
  unfolding persist_transcript emit_debug
  on_transcript_final text = do
    modify λ c. record c { turns = handle_transcript_final text ts c.turns }
    turn ← gets λ c. c.state.active_turn_id
    when (not (is_empty text) && is_some turn)
        (modify λ c. record c { buffer = update_last_user_text text c.buffer })
    seq ← gets λ c. c.state.turn_seq
    modify_io (persist_transcript turn seq text)
    modify_io (emit_debug (transcript turn text))
