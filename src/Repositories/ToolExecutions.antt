-- ===== src/Repositories/ToolExecutions.antt =====
-- `PgToolExecutionRepository` of backend/src/infrastructure/repositories/pg_tool_execution.py.
use event_driven_ai_voice.Repositories.Values.{tool_state_of, tool_state_of-value, tool_state_value}
use event_driven_ai_voice.Types.{Uuid}
use event_driven_ai_voice.Entities.{ToolExecution}
use event_driven_ai_voice.Prelude.{List, Option, Text, refl, some, ℕ, ◌==◌, ◌≡◌, ap, ◌∙◌}
use event_driven_ai_voice.Repositories.Json.{
  JsonColumn, json_or_none, loads-json_or_none, loads_or_none,
}
use mathlib.Core.Option
use event_driven_ai_voice.Repositories.Table.{
  ◌>>=◌, fetched, all_of, Fetched, Table, got, fetchrow-insert_update, fetched-some,
}

-- A row as it is stored: an enum is its value, an object what its JSON column gives back.
pub record ToolExecutionRow : Type 0 where
  pub tool_request_id : Uuid
  pub call_id : Uuid
  pub agent_generation_id : Uuid
  pub turn_id : Uuid
  pub tool_name : Text
  pub args_hash : Text
  pub args_json : Option Text
  pub state : Text
  pub started_at : Option ℕ
  pub ended_at : Option ℕ
  pub result_json : Option Text
  pub error : Option Text

module _ {Json : Type 0} (codec : JsonColumn Json) where
  abbrev json_cell : Option Json → Option Text
  json_cell value = Option.map codec.column (json_or_none codec value)

  unfoldable pub to_row : ToolExecution Json → ToolExecutionRow
  to_row tool = record {
    tool_request_id = tool.tool_request_id;
    call_id = tool.call_id;
    agent_generation_id = tool.agent_generation_id;
    turn_id = tool.turn_id;
    tool_name = tool.tool_name;
    args_hash = tool.args_hash;
    args_json = json_cell tool.args_json;
    state = tool_state_value tool.state;
    started_at = tool.started_at;
    ended_at = tool.ended_at;
    result_json = json_cell tool.result_json;
    error = tool.error;
  }

  -- The `SET` of the update.
  unfoldable pub set_row : ToolExecution Json → ToolExecutionRow → ToolExecutionRow
  set_row tool row = record row {
    state = tool_state_value tool.state;
    started_at = tool.started_at;
    ended_at = tool.ended_at;
    result_json = json_cell tool.result_json;
    error = tool.error;
  }

  -- `_row_to_tool_execution`: none for a state that is no `ToolState`, or a text that is no JSON.
  unfoldable pub from_row : ToolExecutionRow → Option (ToolExecution Json)
  from_row row = do
    state ← tool_state_of row.state
    args_json ← loads_or_none codec row.args_json
    result_json ← loads_or_none codec row.result_json
    some (record {
      tool_request_id = row.tool_request_id;
      call_id = row.call_id;
      agent_generation_id = row.agent_generation_id;
      turn_id = row.turn_id;
      tool_name = row.tool_name;
      args_hash = row.args_hash;
      state = state;
      args_json = args_json;
      started_at = row.started_at;
      ended_at = row.ended_at;
      result_json = result_json;
      error = row.error;
    })

  -- What an update makes of an entity.
  abbrev pub updated : ToolExecution Json → ToolExecution Json → ToolExecution Json
  updated tool old = record old {
    state = tool.state;
    started_at = tool.started_at;
    ended_at = tool.ended_at;
    result_json = tool.result_json;
    error = tool.error;
  }

  tool_request_id-to_row :
      (tool : ToolExecution Json) → (to_row tool).tool_request_id ≡ tool.tool_request_id
  unfolding to_row
  tool_request_id-to_row tool = refl

  from_row-to_row : (tool : ToolExecution Json) → from_row (to_row tool) ≡ some tool
  unfolding from_row to_row
  from_row-to_row tool =
      rw
        (
          tool_state_of-value tool.state,
          loads-json_or_none codec tool.args_json,
          loads-json_or_none codec tool.result_json,
        )
        refl

  set_row-to_row :
      (tool old : ToolExecution Json) → set_row tool (to_row old) ≡ to_row (updated tool old)
  unfolding set_row to_row
  set_row-to_row tool old = refl

  module _ {Db : Type 0} (table : Table Db ToolExecutionRow (λ row. row.tool_request_id)) where
    abbrev pub insert : ToolExecution Json → Db → Option Db
    insert tool db = table.insert (to_row tool) db

    abbrev pub update : ToolExecution Json → Db → Db
    update tool db = table.update tool.tool_request_id (set_row tool) db

    unfoldable pub get_by_id : Uuid → Db → Fetched (ToolExecution Json)
    unfolding fetched
    get_by_id id db = fetched from_row (table.fetchrow id db)

    -- In the order of the query; none where a row has no entity.
    unfoldable pub list_by_agent_generation : Uuid → Db → Option (List (ToolExecution Json))
    unfolding all_of
    list_by_agent_generation id db =
        all_of from_row
          (table.fetch (λ row. row.agent_generation_id == id) (λ row. row.started_at) db)

    -- A tool execution that is inserted and later updated is read back with the state, the times, the
    -- result and the error of the update, and with the name, the hash and the arguments of the
    -- insertion, whatever the update's entity says of those.
    pub get_by_id-insert_update :
        (old tool : ToolExecution Json) (db db' : Db)
        → insert old db ≡ some db'
        → tool.tool_request_id ≡ old.tool_request_id
        → get_by_id old.tool_request_id (update tool db') ≡ got (updated tool old)
    unfolding get_by_id fetched
    get_by_id-insert_update old tool db db' e same =
        ap
          (λ id.
            fetched from_row
              (table.fetchrow old.tool_request_id (table.update id (set_row tool) db')))
          same
        ∙ ap (fetched from_row) (
            fetchrow-insert_update table (to_row old) old.tool_request_id (set_row tool) db db' e
              (tool_request_id-to_row old))
        ∙ fetched-some from_row _ _
            (ap from_row (set_row-to_row tool old) ∙ from_row-to_row (updated tool old))
