-- ===== src/Repositories/Schema.antt =====
-- backend/alembic/versions/9ec54cec5c1d_create_core_tables.py: the tables that the migration creates.
pub mod Cells
pub mod Orphans
pub mod Accepted
use event_driven_ai_voice.Prelude.{
  Bool, Text, Option, List, none, some, true, false, codes, [], ◌∷◌,
}

pub data TableName : Type 0 where
  call_sessions turns agent_generations voice_generations tool_executions : TableName

-- `sa.Uuid()`, `sa.Text()`, `sa.BigInteger()`, `sa.Integer()`, `sa.Float()`, `sa.JSON()`
pub data ColumnType : Type 0 where
  uuid text big_integer integer float json : ColumnType

pub record Column : Type 0 where
  pub name : Text
  pub column_type : ColumnType
  pub nullable : Bool
  pub primary_key : Bool
  pub foreign_key : Option (TableName × Text)

abbrev pub column : Text → ColumnType → Bool → Column
column name column_type nullable = record {
  name = name;
  column_type = column_type;
  nullable = nullable;
  primary_key = false;
  foreign_key = none;
}

-- A primary key is never NULL.
abbrev pub key_column : Text → Column
key_column name = record {
  name = name;
  column_type = uuid;
  nullable = false;
  primary_key = true;
  foreign_key = none;
}

abbrev pub foreign : Text → TableName → Column
foreign name table = record {
  name = name;
  column_type = uuid;
  nullable = false;
  primary_key = false;
  foreign_key = some (table, name);
}

-- `upgrade`: the columns of each table that it creates. Every foreign key has the name of the key
-- that it refers to.
unfoldable pub columns : TableName → List Column
columns call_sessions =
    key_column (codes "call_id")
    ∷ column (codes "provider_call_id") text true
    ∷ column (codes "started_at") big_integer false
    ∷ column (codes "ended_at") big_integer true
    ∷ column (codes "status") text false
    ∷ column (codes "locale_hint") text true
    ∷ column (codes "customer_context") json true
    ∷ []
columns turns =
    key_column (codes "turn_id")
    ∷ foreign (codes "call_id") call_sessions
    ∷ column (codes "seq") integer false
    ∷ column (codes "started_at") big_integer false
    ∷ column (codes "finalized_at") big_integer true
    ∷ column (codes "text_final") text true
    ∷ column (codes "language") text true
    ∷ column (codes "state") text false
    ∷ column (codes "cancel_reason") text true
    ∷ column (codes "asr_confidence") float true
    ∷ []
columns agent_generations =
    key_column (codes "agent_generation_id")
    ∷ foreign (codes "call_id") call_sessions
    ∷ foreign (codes "turn_id") turns
    ∷ column (codes "created_at") big_integer false
    ∷ column (codes "started_at") big_integer true
    ∷ column (codes "ended_at") big_integer true
    ∷ column (codes "state") text false
    ∷ column (codes "route_a_label") text true
    ∷ column (codes "route_a_confidence") float true
    ∷ column (codes "policy_key") text true
    ∷ column (codes "specialist") text true
    ∷ column (codes "final_outcome") text true
    ∷ column (codes "cancel_reason") text true
    ∷ column (codes "error") text true
    ∷ []
columns voice_generations =
    key_column (codes "voice_generation_id")
    ∷ column (codes "provider_voice_generation_id") text true
    ∷ foreign (codes "call_id") call_sessions
    ∷ foreign (codes "agent_generation_id") agent_generations
    ∷ foreign (codes "turn_id") turns
    ∷ column (codes "kind") text false
    ∷ column (codes "state") text false
    ∷ column (codes "started_at") big_integer true
    ∷ column (codes "ended_at") big_integer true
    ∷ column (codes "cancel_reason") text true
    ∷ column (codes "error") text true
    ∷ []
columns tool_executions =
    key_column (codes "tool_request_id")
    ∷ foreign (codes "call_id") call_sessions
    ∷ foreign (codes "agent_generation_id") agent_generations
    ∷ foreign (codes "turn_id") turns
    ∷ column (codes "tool_name") text false
    ∷ column (codes "args_hash") text false
    ∷ column (codes "args_json") json true
    ∷ column (codes "state") text false
    ∷ column (codes "started_at") big_integer true
    ∷ column (codes "ended_at") big_integer true
    ∷ column (codes "result_json") json true
    ∷ column (codes "error") text true
    ∷ []

-- The tables in the order in which `upgrade` creates them, and in which `downgrade` drops them.
unfoldable pub upgrade : List TableName
upgrade = call_sessions ∷ turns ∷ agent_generations ∷ voice_generations ∷ tool_executions ∷ []

unfoldable pub downgrade : List TableName
downgrade = tool_executions ∷ voice_generations ∷ agent_generations ∷ turns ∷ call_sessions ∷ []
