-- ===== src/Tests/Parts.antt =====
-- Concrete runs of the agent machine, the turn manager, the buffer and the tool executor.
use event_driven_ai_voice.Tools.Specialists.{
  execute-register_specialist_tools, register_specialist_tools, specialist_name,
}
use event_driven_ai_voice.Turns.{new, open_turn_id}
use event_driven_ai_voice.Specialist.{TextModel, billing, run_specialist, literal, Payload}
use event_driven_ai_voice.Buffer.Updates.{IsWithin}
use event_driven_ai_voice.Buffer.Limits.{IsLongestFit, append_lem, prune_oldest_lem}
use event_driven_ai_voice.Buffer.{
  append, ConversationBuffer, TurnEntry, blank_entry, prune_oldest, total_chars, appended,
  index_error,
}
use event_driven_ai_voice.Turns.Trace.{run, Call, run_bracketed, follow}
use event_driven_ai_voice.Tools.{
  Fetched, miss, hit, returns, cached, Answer, ToolArgs, ToolCache, ToolExecutor, ToolRun, Wait,
  execute_answer,
}
use event_driven_ai_voice.Prelude.{
  Text, List, [], refl, some, ◌≤◌, ◌∷◌, length, ==_refl, arith, codes, drop, false, if◌then◌else◌,
  none, ◌++◌, ◌+◌, ◌-◌, ◌<◌, ◌==◌, ◌≡◌, ◌⊎◌,
}
use event_driven_ai_voice.Types.{AgentState, idle, routing, Uuid}
use event_driven_ai_voice.Fsm.{AgentFsm}
use event_driven_ai_voice.Fsm.Table.{Trigger, transitions}
use event_driven_ai_voice.Fsm.Paths.{Run, Run-length, stop}

-- The path through a specialist.
abbrev specialist_path : List Trigger
specialist_path =
    Trigger.start_routing ∷ Trigger.specialist_action ∷ Trigger.tool_result
    ∷ Trigger.voice_completed ∷ []

specialist_run : Run idle specialist_path AgentState.done
unfolding transitions
specialist_run = Run.step refl (Run.step refl (Run.step refl (Run.step refl stop)))

Run-length_example : length specialist_path ≤ 4
Run-length_example = Run-length specialist_run

abbrev routing_machine : AgentFsm
routing_machine = record { call_id = 1; state = routing; current_generation_id = some 7 }

-- A turn that a second one interrupts, which is then finalized.
abbrev two_turns : List Call
two_turns =
    Call.speech_started 11 100
    ∷ Call.drain
    ∷ Call.speech_started 12 200
    ∷ Call.audio_committed 300
    ∷ Call.transcript_final (codes "hello") 310
    ∷ Call.drain
    ∷ []

run_bracketed_example :
    let (m, out) = run two_turns (new 1) in
    follow (some none) (out ++ m.pending_events) ≡ some (open_turn_id m)
run_bracketed_example = run_bracketed 1 two_turns

abbrev greeting : TurnEntry
greeting = record { seq = 1; user_text = codes "hello"; agent_text = codes "hi" }

abbrev question : TurnEntry
question = record { seq = 2; user_text = codes "my bill"; agent_text = [] }

-- A full window.
abbrev window : ConversationBuffer
window = record { entries = greeting ∷ question ∷ []; max_turns = 2; max_chars = 20 }

-- The same within a smaller budget of characters.
abbrev tight : ConversationBuffer
tight = record window { max_chars = 8 }

append_lem_example :
    ((0 < 2)
      × (append (blank_entry 3) window
          ≡ appended (record window {
            entries = drop (length window.entries + 1 - 2) window.entries ++ blank_entry 3 ∷ [];
          }))
      × (length (drop (length window.entries + 1 - 2) window.entries ++ blank_entry 3 ∷ []) ≤ 2))
    ⊎ ((window.max_turns ≡ 0)
        × (append (blank_entry 3) window ≡ index_error (record window { entries = [] })))
append_lem_example = append_lem (blank_entry 3) window

prune_oldest_lem_example :
    IsLongestFit 8 (greeting ∷ question ∷ []) (prune_oldest tight).entries
    × ((prune_oldest tight).max_turns ≡ 2)
    × ((prune_oldest tight).max_chars ≡ 8)
prune_oldest_lem_example = prune_oldest_lem tight

abbrev moved : ConversationBuffer
moved = record window { entries = question ∷ blank_entry 3 ∷ [] }

window-IsWithin : IsWithin window
unfolding total_chars
window-IsWithin = record { turns = omega arith; chars = omega arith }

window-moved : append (blank_entry 3) window ≡ appended moved
unfolding append
window-moved = refl

-- A cache that keeps every write.
abbrev Cache : Type 0
Cache = List (Uuid × Payload)

cache_get : Uuid → Cache → Fetched
cache_get id [] = miss
cache_get id ((i, p) ∷ c) = if i == id then hit p else cache_get id c

abbrev cache_ops : ToolCache Cache
cache_ops = record { get = cache_get; put = λ id p c. ((id, p) ∷ c, none) }

cache_get-put : (id : Uuid) (p : Payload) (c : Cache) → cache_get id ((id, p) ∷ c) ≡ hit p
unfolding cache_get
cache_get-put id p c = ground (arith, ==_refl id)

abbrev greet : ToolArgs → ToolRun
greet args = ToolRun.returned (literal (codes "hi"))

abbrev greet_args : ToolArgs
greet_args = record { summary = codes "new line"; history = [] }

abbrev executor : ToolExecutor Cache
executor = record {
  tools = (codes "specialist_sales", greet) ∷ [];
  cache = some [];
  running = (9, false) ∷ [];
}

greeted :
    (execute_answer cache_ops 5 (codes "specialist_sales") greet_args Wait.in_time executor).1
    ≡ returns (Answer.ok (literal (codes "hi")))
unfolding execute_answer cache_get
greeted = refl

-- A text model that is not configured.
abbrev no_model : Text → Text → TextModel
no_model prompt message = TextModel.not_configured

nothing_cached : cached cache_ops 5 executor.cache ≡ miss
unfolding cached cache_get
nothing_cached = refl

execute-register_specialist_tools_example :
    (execute_answer cache_ops 5
      (specialist_name billing)
      greet_args
      Wait.in_time
      (register_specialist_tools no_model executor)).1
    ≡ returns (Answer.ok (run_specialist no_model billing (codes "new line") []))
execute-register_specialist_tools_example =
    execute-register_specialist_tools cache_ops no_model billing 5 greet_args executor
      nothing_cached (λ id p c. refl)
