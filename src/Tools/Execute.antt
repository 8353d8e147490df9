-- ===== src/Tools/Execute.antt =====
-- What running a tool (tool_executor.py) leaves in the whitelist, the cache and the running tasks.
use event_driven_ai_voice.Prelude.{
  Text, ==_refl, Bool, List, [], arith, false, none, refl, some, true, ◌↔◌, ◌∷◌, ◌≡◌, ◌≢◌,
}
use event_driven_ai_voice.Types.{Uuid}
use event_driven_ai_voice.Specialist.{Payload}
use event_driven_ai_voice.Tools.{
  cancel, WriteError, caught, ToolRun, miss, get_raises, returns, raises, in_time, ToolExecutor,
  get_tool, ToolArgs, ToolCache, ToolFunc, Wait, execute_answer, get_task, not_ok, pop_task,
  run_tool, start_task, unknown_tool, cached, store,
}

get_task-pop_self : (id : Uuid) (ts : List (Uuid × Bool)) → get_task id (pop_task id ts) ≡ none
unfolding get_task pop_task
get_task-pop_self id [] = refl
get_task-pop_self id ((i, d) ∷ ts) = ground (arith, get_task-pop_self id ts)

get_task-pop_ne :
    (id other : Uuid) (ts : List (Uuid × Bool))
    → other ≢ id
    → get_task other (pop_task id ts) ≡ get_task other ts
unfolding get_task pop_task
get_task-pop_ne id other [] h = refl
get_task-pop_ne id other ((i, d) ∷ ts) h = ground (arith, get_task-pop_ne id other ts h)

module _ {C : Type 0} (ops : ToolCache C) where
  -- The executor answers `unknown_tool` and is left unchanged exactly when the name is not registered.
  execute-unknown_iff :
      (id : Uuid) (name : Text) (args : ToolArgs) (wait : Wait) (x : ToolExecutor C)
      → (execute_answer ops id name args wait x ≡ (x, returns (not_ok unknown_tool)))
        ↔ (get_tool name x.tools ≡ none)
  unfolding execute_answer
  execute-unknown_iff id name args wait x = (λ h. ground arith, λ h. ground arith)

  -- A request can be cancelled while its task runs and, however the task ends, not afterwards; any
  -- other request can be cancelled afterwards exactly if it could before.
  run_tool-tasks :
      (id other : Uuid) (func : ToolFunc) (args : ToolArgs) (wait : Wait) (x : ToolExecutor C)
      → other ≢ id
      → (cancel id (start_task id x) ≡ true)
        × (cancel id (run_tool ops id func args wait x).0 ≡ false)
        × (cancel other (run_tool ops id func args wait x).0 ≡ cancel other x)
  unfolding cancel run_tool get_task pop_task
  run_tool-tasks id other func args wait x h =
      let rest = pop_task id x.running in
      (
        ground (arith, ==_refl id),
        ground (arith, ==_refl id, get_task-pop_self id rest),
        ground (
          arith,
          ==_refl id,
          get_task-pop_ne id other rest h,
          get_task-pop_ne id other x.running h,
        ),
      )

  -- Where the write of a result fails, the call still returns, with that failure as its answer and the
  -- task no longer running; where the read fails, its exception leaves the call, with nothing changed.
  execute-cache_fails :
      (id : Uuid) (name : Text) (args : ToolArgs) (x : ToolExecutor C) (func : ToolFunc) (c : C)
      (p : Payload) (error : Text) (broken : WriteError)
      → get_tool name x.tools ≡ some func
      → x.cache ≡ some c
      → func args ≡ ToolRun.returned p
      → (ops.put id p c).1 ≡ some broken
      → ((ops.get id c ≡ miss)
          → ((execute_answer ops id name args in_time x).1 ≡ returns (not_ok (caught broken)))
            × (get_task id (execute_answer ops id name args in_time x).0.running ≡ none))
        × ((ops.get id c ≡ get_raises error)
            → execute_answer ops id name args in_time x ≡ (x, raises error))
  unfolding execute_answer cached run_tool store
  execute-cache_fails id name args x func c p error broken known has ran fails = (
    λ missing.
        let gone = get_task-pop_self id (pop_task id x.running) in
        let gone' = get_task-pop_self id ((id, false) ∷ pop_task id x.running) in
        (ground arith, ground arith),
    λ unread. ground arith,
  )
