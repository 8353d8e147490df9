-- ===== src/Repositories/Schema/Accepted.antt =====
-- The coordinator's writes against the columns of the migration.
use event_driven_ai_voice.Repositories.CallSessions
use event_driven_ai_voice.Repositories.ToolExecutions
use event_driven_ai_voice.Repositories.Schema.{call_sessions, tool_executions, json}
use event_driven_ai_voice.Types.{CancelReason, Uuid}
use event_driven_ai_voice.Entities.{
  Write, insert_generation, insert_turn, insert_voice, update_generation, update_turn, update_voice,
  Float,
}
use event_driven_ai_voice.Prelude.{
  Bool, Option, Text, is_some, ltb, none, refl, some, text_eq, true, ℕ, ◌&&◌, ◌≡◌, codes, false,
}
use event_driven_ai_voice.Repositories.Turns
use event_driven_ai_voice.Repositories.Generations
use event_driven_ai_voice.Repositories.Voices
use event_driven_ai_voice.Repositories.Schema.{
  float, foreign, agent_generations, big_integer, columns, text, turns, voice_generations, column,
}
use event_driven_ai_voice.Repositories.Schema.Cells.{
  value_for, accepts, fits, accepts_set, column_fits, fits_all, fits_type, generation_cells,
  generation_set_cells, has_column, known, max_big_integer, max_integer, of_int, of_text, or_null,
  turn_cells, turn_set_cells, voice_cells, voice_set_cells, of_float, of_reason, of_uuid, of_json,
  session_cells, tool_cells,
}

-- The statement of a write, held against the columns of its table.
unfoldable pub accepted : Write → Bool
accepted (insert_turn t) = accepts turns (turn_cells (Turns.to_row t))
accepted (update_turn t) = accepts_set turns (turn_set_cells (Turns.to_row t))
accepted (insert_generation g) = accepts agent_generations (generation_cells (Generations.to_row g))
accepted (update_generation g) =
    accepts_set agent_generations (generation_set_cells (Generations.to_row g))
accepted (insert_voice v) = accepts voice_generations (voice_cells (Voices.to_row v))
accepted (update_voice v) = accepts_set voice_generations (voice_set_cells (Voices.to_row v))

abbrev in_range : Option ℕ → Bool
in_range none = true
in_range (some n) = ltb n max_big_integer

-- The whole numbers of a write lie in the ranges of their columns' types.
unfoldable pub numbers_fit : Write → Bool
numbers_fit (insert_turn t) =
    ltb t.seq max_integer && (ltb t.started_at max_big_integer && in_range t.finalized_at)
numbers_fit (update_turn t) = in_range t.finalized_at
numbers_fit (insert_generation g) =
    ltb g.created_at max_big_integer && (in_range g.started_at && in_range g.ended_at)
numbers_fit (update_generation g) = in_range g.started_at && in_range g.ended_at
numbers_fit (insert_voice v) = in_range v.started_at && in_range v.ended_at
numbers_fit (update_voice v) = in_range v.started_at && in_range v.ended_at

-- A voice that is inserted has a generation.
unfoldable pub has_generation : Write → Bool
has_generation (insert_voice v) = is_some v.agent_generation_id
has_generation _ = true

fits-or_null_int :
    (name : Text) (o : Option ℕ)
    → fits (column name big_integer true) (or_null of_int o) ≡ in_range o
unfolding fits_type
fits-or_null_int name none = refl
fits-or_null_int name (some n) = refl

fits-or_null_text :
    (name : Text) (o : Option Text) → fits (column name text true) (or_null of_text o) ≡ true
unfolding fits_type
fits-or_null_text name none = refl
fits-or_null_text name (some t) = refl

fits-or_null_reason :
    (name : Text) (o : Option CancelReason)
    → fits (column name text true) (or_null of_reason o) ≡ true
unfolding fits_type
fits-or_null_reason name none = refl
fits-or_null_reason name (some r) = refl

fits-or_null_float :
    (name : Text) (o : Option Float) → fits (column name float true) (or_null of_float o) ≡ true
unfolding fits_type
fits-or_null_float name none = refl
fits-or_null_float name (some x) = refl

fits-or_null_generation :
    (o : Option Uuid)
    → fits (foreign (codes "agent_generation_id") agent_generations) (or_null of_uuid o) ≡ is_some o
unfolding fits_type
fits-or_null_generation none = refl
fits-or_null_generation (some i) = refl

fits-or_null_json :
    (name : Text) (o : Option Text) → fits (column name json true) (or_null of_json o) ≡ true
unfolding fits_type
fits-or_null_json name none = refl
fits-or_null_json name (some t) = refl

and_true : (b : Bool) → (b && true) ≡ b
and_true true = refl
and_true false = refl

and_assoc : (a b c : Bool) → ((a && b) && c) ≡ (a && (b && c))
and_assoc true b c = refl
and_assoc false b c = refl

ruleset fitting = (
  fits-or_null_int, fits-or_null_text, fits-or_null_reason, fits-or_null_float, fits-or_null_json,
  fits-or_null_generation, and_true, and_assoc,
)

-- A write of the coordinator fits the columns that the migration creates if and only if its whole
-- numbers lie in the ranges of their columns and, where it inserts a voice, the voice has a generation:
-- every column that the statement names is there, of the type of its value, and no value that is missing
-- belongs to a column that is NOT NULL.
pub accepted_lem : (w : Write) → accepted w ≡ (has_generation w && numbers_fit w)
unfolding accepted accepts accepts_set known has_column fits_all value_for columns turn_cells
    fits_type column_fits text_eq numbers_fit has_generation turn_set_cells Turns.to_row
    generation_cells generation_set_cells voice_cells voice_set_cells Generations.to_row
    Voices.to_row
accepted_lem (insert_turn t) = simp fitting
accepted_lem (update_turn t) = simp fitting
accepted_lem (insert_generation g) = simp fitting
accepted_lem (update_generation g) = simp fitting
accepted_lem (insert_voice v) = simp fitting
accepted_lem (update_voice v) = simp fitting

session-accepted :
    (row : CallSessions.CallSessionRow)
    → accepts call_sessions (session_cells row)
      ≡ (ltb row.started_at max_big_integer && in_range row.ended_at)
unfolding accepts known has_column fits_all value_for columns fits_type text_eq session_cells
session-accepted row = simp fitting

tool-accepted :
    (row : ToolExecutions.ToolExecutionRow)
    → accepts tool_executions (tool_cells row) ≡ (in_range row.started_at && in_range row.ended_at)
unfolding accepts known has_column fits_all value_for columns fits_type text_eq tool_cells
tool-accepted row = simp fitting
