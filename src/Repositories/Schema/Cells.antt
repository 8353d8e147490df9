-- ===== src/Repositories/Schema/Cells.antt =====
-- The statements of backend/src/infrastructure/repositories/pg_*.py: the columns that each names, in
-- the order of its list, with the arguments that it binds to them; and what a table of the migration
-- takes.
use event_driven_ai_voice.Repositories.CallSessions
use event_driven_ai_voice.Repositories.ToolExecutions
use event_driven_ai_voice.Repositories.Schema.{
  Column, ColumnType, TableName, big_integer, columns, float, integer, json, text, uuid,
}
use event_driven_ai_voice.Prelude.{
  Bool, Text, Option, List, none, some, true, false, codes, [], ◌∷◌, ℕ, ◌&&◌, ltb, text_eq,
  if◌then◌else◌,
}
use event_driven_ai_voice.Types.{
  CancelReason, Uuid, barge_in, no_transcript, rapid_successive_turn, filler_max_duration,
}
use event_driven_ai_voice.Entities.{Float}
use event_driven_ai_voice.Repositories.Turns
use event_driven_ai_voice.Repositories.Generations
use event_driven_ai_voice.Repositories.Voices

-- An argument of a statement as asyncpg takes it.
pub data Cell : Type 0 where
  null : Cell
  of_uuid : Uuid → Cell
  of_text : Text → Cell
  of_int : ℕ → Cell
  of_float : Float → Cell
  of_json : Text → Cell

abbrev pub Cells : Type 0
Cells = List (Text × Cell)

abbrev pub or_null : {A : Type 0} → (A → Cell) → Option A → Cell
or_null of none = null
or_null of (some a) = of a

-- The reasons as the texts that the source writes them as.
abbrev pub cancel_reason_text : CancelReason → Text
cancel_reason_text barge_in = codes "barge_in"
cancel_reason_text no_transcript = codes "no_transcript"
cancel_reason_text rapid_successive_turn = codes "rapid_successive_turn"
cancel_reason_text filler_max_duration = codes "filler_max_duration"

abbrev pub of_reason : CancelReason → Cell
of_reason reason = of_text (cancel_reason_text reason)

unfoldable pub turn_cells : Turns.TurnRow → Cells
turn_cells row =
    (codes "turn_id", of_uuid row.turn_id)
    ∷ (codes "call_id", of_uuid row.call_id)
    ∷ (codes "seq", of_int row.seq)
    ∷ (codes "started_at", of_int row.started_at)
    ∷ (codes "finalized_at", or_null of_int row.finalized_at)
    ∷ (codes "text_final", or_null of_text row.text_final)
    ∷ (codes "language", or_null of_text row.language)
    ∷ (codes "state", of_text row.state)
    ∷ (codes "cancel_reason", or_null of_reason row.cancel_reason)
    ∷ (codes "asr_confidence", or_null of_float row.asr_confidence)
    ∷ []

unfoldable pub generation_cells : Generations.AgentGenerationRow → Cells
generation_cells row =
    (codes "agent_generation_id", of_uuid row.agent_generation_id)
    ∷ (codes "call_id", of_uuid row.call_id)
    ∷ (codes "turn_id", of_uuid row.turn_id)
    ∷ (codes "created_at", of_int row.created_at)
    ∷ (codes "started_at", or_null of_int row.started_at)
    ∷ (codes "ended_at", or_null of_int row.ended_at)
    ∷ (codes "state", of_text row.state)
    ∷ (codes "route_a_label", or_null of_text row.route_a_label)
    ∷ (codes "route_a_confidence", or_null of_float row.route_a_confidence)
    ∷ (codes "policy_key", or_null of_text row.policy_key)
    ∷ (codes "specialist", or_null of_text row.specialist)
    ∷ (codes "final_outcome", or_null of_text row.final_outcome)
    ∷ (codes "cancel_reason", or_null of_reason row.cancel_reason)
    ∷ (codes "error", or_null of_text row.error)
    ∷ []

unfoldable pub voice_cells : Voices.VoiceGenerationRow → Cells
voice_cells row =
    (codes "voice_generation_id", of_uuid row.voice_generation_id)
    ∷ (codes "provider_voice_generation_id", or_null of_text row.provider_voice_generation_id)
    ∷ (codes "call_id", of_uuid row.call_id)
    ∷ (codes "agent_generation_id", or_null of_uuid row.agent_generation_id)
    ∷ (codes "turn_id", of_uuid row.turn_id)
    ∷ (codes "kind", of_text row.kind)
    ∷ (codes "state", of_text row.state)
    ∷ (codes "started_at", or_null of_int row.started_at)
    ∷ (codes "ended_at", or_null of_int row.ended_at)
    ∷ (codes "cancel_reason", or_null of_reason row.cancel_reason)
    ∷ (codes "error", or_null of_text row.error)
    ∷ []

unfoldable pub session_cells : CallSessions.CallSessionRow → Cells
session_cells row =
    (codes "call_id", of_uuid row.call_id)
    ∷ (codes "provider_call_id", or_null of_text row.provider_call_id)
    ∷ (codes "started_at", of_int row.started_at)
    ∷ (codes "ended_at", or_null of_int row.ended_at)
    ∷ (codes "status", of_text row.status)
    ∷ (codes "locale_hint", or_null of_text row.locale_hint)
    ∷ (codes "customer_context", or_null of_json row.customer_context)
    ∷ []

unfoldable pub tool_cells : ToolExecutions.ToolExecutionRow → Cells
tool_cells row =
    (codes "tool_request_id", of_uuid row.tool_request_id)
    ∷ (codes "call_id", of_uuid row.call_id)
    ∷ (codes "agent_generation_id", of_uuid row.agent_generation_id)
    ∷ (codes "turn_id", of_uuid row.turn_id)
    ∷ (codes "tool_name", of_text row.tool_name)
    ∷ (codes "args_hash", of_text row.args_hash)
    ∷ (codes "args_json", or_null of_json row.args_json)
    ∷ (codes "state", of_text row.state)
    ∷ (codes "started_at", or_null of_int row.started_at)
    ∷ (codes "ended_at", or_null of_int row.ended_at)
    ∷ (codes "result_json", or_null of_json row.result_json)
    ∷ (codes "error", or_null of_text row.error)
    ∷ []

-- What the `SET` of each update binds.
unfoldable pub turn_set_cells : Turns.TurnRow → Cells
turn_set_cells row =
    (codes "finalized_at", or_null of_int row.finalized_at)
    ∷ (codes "text_final", or_null of_text row.text_final)
    ∷ (codes "language", or_null of_text row.language)
    ∷ (codes "state", of_text row.state)
    ∷ (codes "cancel_reason", or_null of_reason row.cancel_reason)
    ∷ (codes "asr_confidence", or_null of_float row.asr_confidence)
    ∷ []

unfoldable pub generation_set_cells : Generations.AgentGenerationRow → Cells
generation_set_cells row =
    (codes "started_at", or_null of_int row.started_at)
    ∷ (codes "ended_at", or_null of_int row.ended_at)
    ∷ (codes "state", of_text row.state)
    ∷ (codes "route_a_label", or_null of_text row.route_a_label)
    ∷ (codes "route_a_confidence", or_null of_float row.route_a_confidence)
    ∷ (codes "policy_key", or_null of_text row.policy_key)
    ∷ (codes "specialist", or_null of_text row.specialist)
    ∷ (codes "final_outcome", or_null of_text row.final_outcome)
    ∷ (codes "cancel_reason", or_null of_reason row.cancel_reason)
    ∷ (codes "error", or_null of_text row.error)
    ∷ []

unfoldable pub voice_set_cells : Voices.VoiceGenerationRow → Cells
voice_set_cells row =
    (codes "state", of_text row.state)
    ∷ (codes "started_at", or_null of_int row.started_at)
    ∷ (codes "ended_at", or_null of_int row.ended_at)
    ∷ (codes "cancel_reason", or_null of_reason row.cancel_reason)
    ∷ (codes "error", or_null of_text row.error)
    ∷ []

-- The values of PostgreSQL's types for whole numbers; a number of the source that is written here is
-- never negative.
abbrev pub max_integer : ℕ
max_integer = 2147483648

abbrev pub max_big_integer : ℕ
max_big_integer = 9223372036854775808

-- A value goes into a column of its type; NULL, into a column that is nullable.
unfoldable pub fits_type : ColumnType → Cell → Bool
fits_type uuid (of_uuid _) = true
fits_type text (of_text _) = true
fits_type big_integer (of_int n) = ltb n max_big_integer
fits_type integer (of_int n) = ltb n max_integer
fits_type float (of_float _) = true
fits_type json (of_json _) = true
fits_type _ _ = false

abbrev pub fits : Column → Cell → Bool
fits column null = column.nullable
fits column (of_uuid i) = fits_type column.column_type (of_uuid i)
fits column (of_text t) = fits_type column.column_type (of_text t)
fits column (of_int n) = fits_type column.column_type (of_int n)
fits column (of_float x) = fits_type column.column_type (of_float x)
fits column (of_json t) = fits_type column.column_type (of_json t)

-- The value that a statement gives a column; a column that it does not name becomes NULL.
unfoldable pub value_for : Text → Cells → Cell
unfolding text_eq
value_for name [] = null
value_for name ((n, cell) ∷ cells) =
    let rest = value_for name cells in if text_eq n name then cell else rest

unfoldable pub has_column : Text → List Column → Bool
unfolding text_eq
has_column name [] = false
has_column name (column ∷ rest) =
    let later = has_column name rest in if text_eq column.name name then true else later

-- Every column that is named is one of the table's.
unfoldable pub known : Cells → List Column → Bool
unfolding has_column
known [] columns = true
known ((name, cell) ∷ cells) columns = has_column name columns && known cells columns

unfoldable pub fits_all : List Column → Cells → Bool
unfolding value_for
fits_all [] cells = true
fits_all (column ∷ rest) cells = fits column (value_for column.name cells) && fits_all rest cells

-- An INSERT that the table's columns take.
unfoldable pub accepts : TableName → Cells → Bool
unfolding known fits_all
accepts table cells = known cells (columns table) && fits_all (columns table) cells

unfoldable pub column_fits : Text → Cell → List Column → Bool
unfolding text_eq
column_fits name cell [] = false
column_fits name cell (column ∷ rest) =
    let later = column_fits name cell rest in
    if text_eq column.name name then fits column cell else later

-- A `SET` that the table's columns take: the columns that it does not name stay as they are.
unfoldable pub accepts_set : TableName → Cells → Bool
unfolding column_fits columns
accepts_set table [] = true
accepts_set table ((name, cell) ∷ cells) =
    column_fits name cell (columns table) && accepts_set table cells
