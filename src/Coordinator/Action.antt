-- ===== src/Coordinator/Action.antt =====
-- `_on_model_router_action` of backend/src/voice_runtime/coordinator.py: the model asked for a
-- specialist. What happens around the wait for the specialist's tool is an argument, `World`.
use event_driven_ai_voice.Runtime.{is_generation_cancelled}
use event_driven_ai_voice.Entities.{insert_voice}
use event_driven_ai_voice.Prelude.{ℕ, Bool, Option, Text, [], codes, none, not, some, ◌++◌}
use event_driven_ai_voice.Types.{
  Uuid, ResponseCreate, VoiceKind, VoiceState, payload, router, say, specialist, voice_start,
}
use event_driven_ai_voice.Fsm.{specialist_action, tool_result}
use event_driven_ai_voice.Buffer.{format_messages}
use event_driven_ai_voice.Router.Config.{ToolConfig}
use event_driven_ai_voice.Router.{get_department_filler, get_department_tool}
use event_driven_ai_voice.Specialist.{literal, create}
use event_driven_ai_voice.Tools.{Answer, ToolArgs, not_ok}
use event_driven_ai_voice.Coordinator.Monad.{
  Io, M, Deps, Env, delegate, fill_silence, filler_emitted_total, fsm_call, generation_start, gets,
  modify, modify_io, modify_state, nothing, pure, route, route_result, specialist_ready,
  specialist_sent, when, ◌>>=◌, ◌>>◌,
}
use event_driven_ai_voice.Coordinator.Output.{
  send_debug, cancel_filler, emit_output, filler_timer_fires, log, persist, start_filler_timeout,
  uuid4,
}

-- The world around one action: the index that `random.choice` draws, the executor's answer to a
-- request, and whether the filler's timer fires before that answer.
pub record World : Type 0 where
  pub draw : ℕ
  pub execute : Uuid → Text → ToolArgs → Answer
  pub filler_fires : Bool

-- The filler for a department, with the router's configuration.
unfoldable pub filler_message : Deps → ℕ → Text → Option Text
unfolding get_department_filler
filler_message deps draw department = elim deps.router_prompt_builder [
  | none ↦ none
  | some b ↦ get_department_filler draw department b
]

-- The configured name of a tool, or the default.
unfoldable pub named_tool : Text → Option ToolConfig → Text
named_tool default none = default
named_tool default (some t) = elim t.name [ none ↦ default | some name ↦ name ]

unfoldable pub tool_name : Deps → Text → Text
unfolding named_tool
tool_name deps department = elim deps.router_prompt_builder [
  | none ↦ codes "specialist_" ++ department
  | some b ↦ named_tool (codes "specialist_" ++ department) (get_department_tool department b)
]

abbrev pub apology : Text
apology =
    codes "Apologize to the customer briefly. Tell them you are having "
    ++ codes "a temporary issue connecting to the specialist and ask them "
    ++ codes "to try again in a moment. Respond in the same language the "
    ++ codes "customer used."

-- The prompt made from the tool's answer.
unfoldable pub specialist_prompt : Answer → ResponseCreate
specialist_prompt (Answer.ok (literal text)) = record {
  instructions =
      codes "Say exactly the following to the customer, without adding or changing anything:\n\n"
      ++ text;
  tools = [];
}
specialist_prompt (Answer.ok (create p)) = p
specialist_prompt (not_ok e) = record { instructions = apology; tools = [] }

module _ (env : Env) (deps : Deps) (ts : ℕ) where
  unfoldable pub start_filler : Uuid → Option Text → M (Unit {0})
  start_filler gen none = pure tt
  start_filler gen (some message) = do
    modify_io (log filler_emitted_total)
    voice ← uuid4 env
    emit_output (
        voice_start (record {
          call_id = deps.call_id;
          agent_generation_id = some gen;
          voice_generation_id = voice;
          prompt = say message;
          ts = ts;
          response_source = router;
        }))
    modify (start_filler_timeout voice ts)

  -- Up to the wait: the filler is on its way, if there is one, and the tool is asked.
  unfoldable pub ask_specialist : World → Uuid → Text → Text → Option Text → M Answer
  unfolding start_filler
  ask_specialist world gen department summary message = do
    send_debug env route_result (route department delegate)
    fsm_call (specialist_action ts)
    send_debug env fill_silence nothing
    start_filler gen message
    send_debug env specialist_sent nothing
    request ← uuid4 env
    history ← gets λ c. format_messages c.buffer
    pure (
        world.execute request (tool_name deps department)
          (record { summary = summary; history = history }))

  -- The row of the specialist's voice.
  unfoldable pub persist_specialist : Option Uuid → Option Uuid → Uuid → Io → Io
  unfolding persist
  persist_specialist none gen voice io = io
  persist_specialist (some turn) gen voice io =
      persist deps.has_voice_gen_repo
        (insert_voice (record {
          voice_generation_id = voice;
          call_id = deps.call_id;
          agent_generation_id = gen;
          turn_id = turn;
          kind = VoiceKind.response;
          state = VoiceState.starting;
          provider_voice_generation_id = none;
          started_at = some ts;
          ended_at = none;
          cancel_reason = none;
          error = none;
        }))
        io

  -- From the tool's answer on: the specialist's voice starts.
  unfoldable pub speak_answer : Answer → M (Unit {0})
  unfolding cancel_filler persist_specialist
  speak_answer answer = do
    fsm_call (tool_result ts)
    send_debug env specialist_ready nothing
    modify λ c. record c { filler = cancel_filler c.filler }
    send_debug env generation_start nothing
    voice ← uuid4 env
    modify_state λ s. record s { active_voice_generation_id = some voice }
    gen ← gets λ c. c.state.active_agent_generation_id
    emit_output (
        voice_start (record {
          call_id = deps.call_id;
          agent_generation_id = gen;
          voice_generation_id = voice;
          prompt = payload (specialist_prompt answer);
          ts = ts;
          response_source = specialist;
        }))
    turn ← gets λ c. c.state.active_turn_id
    modify_io (persist_specialist turn gen voice)

  -- The filler's timer during the wait.
  unfoldable pub pass_wait : World → M (Unit {0})
  unfolding filler_timer_fires
  pass_wait world = when world.filler_fires (modify filler_timer_fires)

  -- The handler, for the active generation.
  unfoldable pub route_action : World → Text → Text → Option Uuid → M (Unit {0})
  route_action world department summary none = pure tt
  route_action world department summary (some gen) = do
    cancelled ← gets λ c. is_generation_cancelled gen c.state
    when (not cancelled) do
      answer ←
          ask_specialist world gen department summary (filler_message deps world.draw department)
      pass_wait world
      speak_answer answer

  unfoldable pub on_model_router_action : World → Text → Text → M (Unit {0})
  unfolding route_action
  on_model_router_action world department summary = do
    active ← gets λ c. c.state.active_agent_generation_id
    route_action world department summary active
