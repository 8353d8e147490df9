-- ===== src/Tools.antt =====
-- backend/src/voice_runtime/tool_executor.py: running a registered tool under a time limit, with an
-- optional cache of results by request id.
pub mod Execute
pub mod Specialists
use event_driven_ai_voice.Prelude.{
  Text, Bool, List, Option, [], if◌then◌else◌, text_eq, ℕ, ◌∷◌, false, none, not, some, ◌==◌,
}
use event_driven_ai_voice.Types.{Message, Uuid}
use event_driven_ai_voice.Specialist.{Payload}

-- What a tool's coroutine does when it runs to its end.
pub data ToolRun : Type 0 where
  returned : Payload → ToolRun
  raised : Text → ToolRun

pub record ToolArgs : Type 0 where
  pub summary : Text
  pub history : List Message

abbrev pub ToolFunc : Type 0
ToolFunc = ToolArgs → ToolRun

-- How `asyncio.wait_for` on the task ends.
pub data Wait : Type 0 where
  in_time timed_out task_cancelled : Wait

pub data ToolError : Type 0 where
  unknown_tool timeout cancelled : ToolError
  failure : Text → ToolError

-- The `ok` flag and the payload of a `ToolResult`.
pub data Answer : Type 0 where
  ok : Payload → Answer
  not_ok : ToolError → Answer

pub record ToolResult : Type 0 where
  pub call_id : Uuid
  pub agent_generation_id : Option Uuid
  pub tool_request_id : Uuid
  pub answer : Answer
  pub ts : ℕ

-- What reading the cache gives; `get_raises` is an exception of the service, or of `orjson.loads`.
pub data Fetched : Type 0 where
  miss : Fetched
  hit : Payload → Fetched
  get_raises : Text → Fetched

-- An exception of a write: of the three kinds that `execute` tells apart.
pub data WriteError : Type 0 where
  write_timeout write_cancelled : WriteError
  write_raises : Text → WriteError

-- The error that it becomes.
abbrev pub caught : WriteError → ToolError
caught write_timeout = timeout
caught write_cancelled = cancelled
caught (write_raises message) = failure message

-- The cache is the service behind `TTLMap` (infrastructure/redis_client.py), with the JSON coding
-- of payloads included: its state, and reading and writing by request id, where writing may raise.
pub record ToolCache (C : Type 0) : Type 0 where
  pub get : Uuid → C → Fetched
  pub put : Uuid → Payload → C → C × Option WriteError

-- A call returns, or an exception leaves it.
pub data Executed (A : Type 0) : Type 0 where
  returns : A → Executed A
  raises : Text → Executed A

-- A running task is kept by its request id, with whether it is done.
pub record ToolExecutor (C : Type 0) : Type 0 where
  pub tools : List (Text × ToolFunc)
  pub cache : Option C
  pub running : List (Uuid × Bool)

unfoldable pub new : {C : Type 0} → Option C → ToolExecutor C
new cache = record { tools = []; cache = cache; running = [] }

-- `self._tools[name] = func`
unfoldable pub set_tool : Text → ToolFunc → List (Text × ToolFunc) → List (Text × ToolFunc)
unfolding text_eq
set_tool name func [] = (name, func) ∷ []
set_tool name func ((n, f) ∷ tools) =
    if text_eq name n then (n, func) ∷ tools else (n, f) ∷ set_tool name func tools

unfoldable pub register_tool : {C : Type 0} → Text → ToolFunc → ToolExecutor C → ToolExecutor C
unfolding set_tool
register_tool name func x = record x { tools = set_tool name func x.tools }

-- `self._tools[tool_name]`, with the whitelist check.
unfoldable pub get_tool : Text → List (Text × ToolFunc) → Option ToolFunc
unfolding text_eq
get_tool name [] = none
get_tool name ((n, f) ∷ tools) = if text_eq name n then some f else get_tool name tools

-- `self._running_tasks.pop(id, None)`
unfoldable pub pop_task : Uuid → List (Uuid × Bool) → List (Uuid × Bool)
pop_task id [] = []
pop_task id ((i, d) ∷ ts) = if i == id then pop_task id ts else (i, d) ∷ pop_task id ts

-- `self._running_tasks.get(id)`
unfoldable pub get_task : Uuid → List (Uuid × Bool) → Option Bool
get_task id [] = none
get_task id ((i, d) ∷ ts) = if i == id then some d else get_task id ts

-- `self._running_tasks[id] = task`, not done yet.
unfoldable pub start_task : {C : Type 0} → Uuid → ToolExecutor C → ToolExecutor C
unfolding pop_task
start_task id x = record x { running = (id, false) ∷ pop_task id x.running }

-- The `finally` clause.
unfoldable pub end_task : {C : Type 0} → Uuid → ToolExecutor C → ToolExecutor C
unfolding pop_task
end_task id x = record x { running = pop_task id x.running }

-- `cancel`: whether a running task was asked to stop.
unfoldable pub cancel : {C : Type 0} → Uuid → ToolExecutor C → Bool
unfolding get_task
cancel id x = elim (get_task id x.running) [ none ↦ false | some finished ↦ not finished ]

-- The result of waiting for the task.
unfoldable pub answer_of : Wait → ToolRun → Answer
answer_of in_time (returned p) = ok p
answer_of in_time (raised message) = not_ok (failure message)
answer_of timed_out _ = not_ok ToolError.timeout
answer_of task_cancelled _ = not_ok ToolError.cancelled

module _ {C : Type 0} (ops : ToolCache C) where
  unfoldable pub cached : Uuid → Option C → Fetched
  cached id none = miss
  cached id (some c) = ops.get id c

  -- The write after a success, whose exceptions are caught like the tool's.
  unfoldable pub store : Uuid → Answer → Option C → Option C × Answer
  store id (ok p) (some c) =
      let (c', failed) = ops.put id p c in
      (some c', elim failed [ none ↦ ok p | some error ↦ not_ok (caught error) ])
  store id answer c = (c, answer)

  -- Running the tool: the executor while the task runs, and after it.
  unfoldable pub run_tool :
      Uuid → ToolFunc → ToolArgs → Wait → ToolExecutor C → ToolExecutor C × Answer
  unfolding start_task end_task answer_of store
  run_tool id func args wait x =
      let running = start_task id x in
      let (cache, answer) = store id (answer_of wait (func args)) x.cache in
      (end_task id (record running { cache = cache }), answer)

  -- The end of a call that does not raise.
  abbrev pub returned_by : ToolExecutor C × Answer → ToolExecutor C × Executed Answer
  returned_by (x, answer) = (x, returns answer)

  -- `execute`, without the header of the result; an exception of the read goes up.
  unfoldable pub execute_answer :
      Uuid → Text → ToolArgs → Wait → ToolExecutor C → ToolExecutor C × Executed Answer
  unfolding get_tool cached run_tool
  execute_answer id name args wait x = elim (get_tool name x.tools) [
    | none ↦ (x, returns (not_ok unknown_tool))
    | some func ↦ elim (cached id x.cache) [
      | hit p ↦ (x, returns (ok p))
      | get_raises error ↦ (x, raises error)
      | miss ↦ returned_by (run_tool id func args wait x)
    ]
  ]

  -- The result with its header.
  abbrev pub with_header : Uuid → Option Uuid → Uuid → ℕ → Executed Answer → Executed ToolResult
  with_header call_id gen id now (raises error) = raises error
  with_header call_id gen id now (returns answer) = returns (record {
    call_id = call_id;
    agent_generation_id = gen;
    tool_request_id = id;
    answer = answer;
    ts = now;
  })

  unfoldable pub execute :
      Uuid
      → Option Uuid
      → Uuid
      → Text
      → ToolArgs
      → Wait
      → ℕ
      → ToolExecutor C
      → ToolExecutor C × Executed ToolResult
  unfolding execute_answer
  execute call_id gen id name args wait now x =
      let (x', executed) = execute_answer id name args wait x in
      (x', with_header call_id gen id now executed)
