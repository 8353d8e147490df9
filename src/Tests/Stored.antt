-- ===== src/Tests/Stored.antt =====
-- Calls and tool executions in a concrete table.
use event_driven_ai_voice.Prelude.{Text, [], codes, none, refl, some, ◌∷◌, ◌≡◌}
use event_driven_ai_voice.Types.{CallStatus, ToolState}
use event_driven_ai_voice.Entities.{CallSessionContext, ToolExecution}
use event_driven_ai_voice.Repositories.Json.{JsonColumn}
use event_driven_ai_voice.Repositories.Table.{Table, got}
use event_driven_ai_voice.Repositories.CallSessions
use event_driven_ai_voice.Repositories.ToolExecutions
use event_driven_ai_voice.Tests.Rows.{Rows, table, row_of}

-- Objects that are texts: a text is dumped as itself.
abbrev codec : JsonColumn Text
codec = record { dumps = λ t. t; column = λ t. t; loads = λ t. some t; loads-dumps = λ t. refl }

abbrev sessions :
    Table
      (Rows λ (row : CallSessions.CallSessionRow). row.call_id)
      CallSessions.CallSessionRow
      (λ row. row.call_id)
sessions = table λ row. row.call_id

abbrev tools :
    Table
      (Rows λ (row : ToolExecutions.ToolExecutionRow). row.tool_request_id)
      ToolExecutions.ToolExecutionRow
      (λ row. row.tool_request_id)
tools = table λ row. row.tool_request_id

abbrev session : CallSessionContext Text
session = record {
  call_id = 1;
  started_at = 100;
  status = CallStatus.active;
  provider_call_id = some (codes "p1");
  ended_at = some 150;
  locale_hint = none;
  customer_context = some (codes "{}");
}

abbrev execution : ToolExecution Text
execution = record {
  tool_request_id = 9;
  call_id = 1;
  agent_generation_id = 6;
  turn_id = 5;
  tool_name = codes "specialist_billing";
  args_hash = codes "h";
  state = ToolState.running;
  args_json = some (codes "{}");
  started_at = some 100;
  ended_at = none;
  result_json = none;
  error = none;
}

abbrev ended : ToolExecution Text
ended = record execution {
  state = ToolState.succeeded;
  args_json = none;
  ended_at = some 160;
  result_json = some (codes "{}");
}

get_by_id-insert_update_example :
    ToolExecutions.get_by_id codec tools 9
      (ToolExecutions.update codec tools ended ((9, ToolExecutions.to_row codec execution) ∷ []))
    ≡ got (ToolExecutions.updated codec ended execution)
unfolding row_of ToolExecutions.to_row
get_by_id-insert_update_example =
    ToolExecutions.get_by_id-insert_update codec tools execution ended []
      ((9, ToolExecutions.to_row codec execution) ∷ []) refl refl
