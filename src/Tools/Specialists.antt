-- ===== src/Tools/Specialists.antt =====
-- `register_specialist_tools` of backend/src/voice_runtime/specialist_tools.py: the specialists as
-- tools of the executor.
use event_driven_ai_voice.Specialist.{Payload}
use event_driven_ai_voice.Prelude.{
  ap, Option, some, Bool-cases, List, Text, [], arith, codes, false, inl, inr, none, refl, text_eq,
  text_eq_refl, text_eq→eq, ◌++◌, ◌∷◌, ◌≡◌,
}
use event_driven_ai_voice.Types.{Uuid}
use event_driven_ai_voice.Specialist.{
  Department, TextModel, billing, retention, run_specialist, sales, support,
}
use event_driven_ai_voice.Tools.{
  miss, returns, store, ToolArgs, ToolCache, ToolExecutor, ToolFunc, Answer, Wait, cached,
  execute_answer, get_tool, register_tool, returned, set_tool,
}

-- `specialist_sales` and the like, which never raise.
abbrev pub specialist_tool : (Text → Text → TextModel) → Department → ToolFunc
specialist_tool model department args =
    returned (run_specialist model department args.summary args.history)

abbrev pub department_name : Department → Text
department_name sales = codes "sales"
department_name billing = codes "billing"
department_name support = codes "support"
department_name retention = codes "retention"

-- The name under which a department's tool is registered.
abbrev pub specialist_name : Department → Text
specialist_name department = codes "specialist_" ++ department_name department

unfoldable pub register_specialist_tools :
    {C : Type 0} → (Text → Text → TextModel) → ToolExecutor C → ToolExecutor C
unfolding register_tool
register_specialist_tools model x =
    let x₁ = register_tool (specialist_name sales) (specialist_tool model sales) x in
    let x₂ = register_tool (specialist_name billing) (specialist_tool model billing) x₁ in
    let x₃ = register_tool (specialist_name support) (specialist_tool model support) x₂ in
    register_tool (specialist_name retention) (specialist_tool model retention) x₃

get_tool-set_self :
    (name : Text) (func : ToolFunc) (ts : List (Text × ToolFunc))
    → get_tool name (set_tool name func ts) ≡ some func
unfolding get_tool set_tool
get_tool-set_self name func [] = rw (text_eq_refl name) refl
get_tool-set_self name func ((n, f) ∷ ts) = elim (Bool-cases (text_eq name n)) [
  | inl same ↦ rw (same, same) refl
  | inr other ↦ rw (other, other) (get_tool-set_self name func ts)
]

get_tool-set_other :
    (name other : Text) (func : ToolFunc) (ts : List (Text × ToolFunc))
    → text_eq name other ≡ false
    → get_tool name (set_tool other func ts) ≡ get_tool name ts
unfolding get_tool set_tool
get_tool-set_other name other func [] h = rw h refl
get_tool-set_other name other func ((n, f) ∷ ts) h = elim (Bool-cases (text_eq other n)) [
  | inl same ↦ let e = text_eq→eq other n same in ground arith
  | inr differs ↦ ground (arith, get_tool-set_other name other func ts h)
]

specialist-registered :
    {C : Type 0} (model : Text → Text → TextModel) (department : Department) (x : ToolExecutor C)
    → get_tool (specialist_name department) (register_specialist_tools model x).tools
      ≡ some (specialist_tool model department)
unfolding register_specialist_tools text_eq
specialist-registered model sales x = grind (arith, get_tool-set_self, get_tool-set_other)
specialist-registered model billing x = grind (arith, get_tool-set_self, get_tool-set_other)
specialist-registered model support x = grind (arith, get_tool-set_self, get_tool-set_other)
specialist-registered model retention x = grind (arith, get_tool-set_self, get_tool-set_other)

-- A write that does not raise leaves the answer.
store-ok :
    {C : Type 0} (ops : ToolCache C) (id : Uuid) (p : Payload) (cache : Option C)
    → ((id : Uuid) (p : Payload) (c : C) → (ops.put id p c).1 ≡ none)
    → (store ops id (Answer.ok p) cache).1 ≡ Answer.ok p
unfolding store
store-ok ops id p none takes = refl
store-ok ops id p (some c) takes = rw (takes id p c) refl

-- After the specialists are registered with any executor, a request for a department's tool that is
-- not cached and ends in time succeeds with what the specialist of that department answers to the
-- summary and the history, whatever was registered before, as long as no write to the cache, if there
-- is one, raises.
pub execute-register_specialist_tools :
    {C : Type 0} (ops : ToolCache C) (model : Text → Text → TextModel) (department : Department)
    (id : Uuid) (args : ToolArgs) (x : ToolExecutor C)
    → cached ops id x.cache ≡ miss
    → ((id : Uuid) (p : Payload) (c : C) → (ops.put id p c).1 ≡ none)
    → (execute_answer ops id
        (specialist_name department)
        args
        Wait.in_time
        (register_specialist_tools model x)).1
      ≡ returns (Answer.ok (run_specialist model department args.summary args.history))
unfolding execute_answer register_specialist_tools
execute-register_specialist_tools ops model department id args x h takes =
    rw (specialist-registered model department x, h, execute_answer)
      (ap returns
        (store-ok ops id (run_specialist model department args.summary args.history) x.cache takes))
