-- ===== src/Repositories/Generations.antt =====
-- `PgAgentGenerationRepository` of backend/src/infrastructure/repositories/pg_agent_generation.py.
use event_driven_ai_voice.Repositories.Values.{
  agent_state_of, agent_state_value, outcome_of, outcome_value, agent_state_of-value,
}
use event_driven_ai_voice.Prelude.{
  List, Option, Text, [], if◌then◌else◌, none, some, ℕ, ◌==◌, ◌∷◌, ◌≡◌, ==_refl, arith, refl,
}
use event_driven_ai_voice.Types.{CancelReason, Uuid}
use mathlib.Core.Option
use event_driven_ai_voice.Repositories.Table.{◌>>=◌, all_of, Table, Fetched, fetched, got}
use event_driven_ai_voice.Entities.{
  guided_response, tool_response, handoff, noop, AgentGeneration, Float, AgentGenerationOutcome,
}

-- A row as it is stored: an enum is its value.
pub record AgentGenerationRow : Type 0 where
  pub agent_generation_id : Uuid
  pub call_id : Uuid
  pub turn_id : Uuid
  pub created_at : ℕ
  pub started_at : Option ℕ
  pub ended_at : Option ℕ
  pub state : Text
  pub route_a_label : Option Text
  pub route_a_confidence : Option Float
  pub policy_key : Option Text
  pub specialist : Option Text
  pub final_outcome : Option Text
  pub cancel_reason : Option CancelReason
  pub error : Option Text

unfoldable pub to_row : AgentGeneration → AgentGenerationRow
to_row g = record {
  agent_generation_id = g.agent_generation_id;
  call_id = g.call_id;
  turn_id = g.turn_id;
  created_at = g.created_at;
  started_at = g.started_at;
  ended_at = g.ended_at;
  state = agent_state_value g.state;
  route_a_label = g.route_a_label;
  route_a_confidence = g.route_a_confidence;
  policy_key = g.policy_key;
  specialist = g.specialist;
  final_outcome = Option.map outcome_value g.final_outcome;
  cancel_reason = g.cancel_reason;
  error = g.error;
}

-- The `SET` of the update.
unfoldable pub set_row : AgentGeneration → AgentGenerationRow → AgentGenerationRow
set_row g row = record row {
  started_at = g.started_at;
  ended_at = g.ended_at;
  state = agent_state_value g.state;
  route_a_label = g.route_a_label;
  route_a_confidence = g.route_a_confidence;
  policy_key = g.policy_key;
  specialist = g.specialist;
  final_outcome = Option.map outcome_value g.final_outcome;
  cancel_reason = g.cancel_reason;
  error = g.error;
}

-- `AgentGenerationOutcome(outcome) if outcome else None`
abbrev outcome_or_none : Option Text → Option (Option AgentGenerationOutcome)
outcome_or_none none = some none
outcome_or_none (some []) = some none
outcome_or_none (some (c ∷ s)) = Option.map some (outcome_of (c ∷ s))

-- `_row_to_agent_generation`: none for a text that is no value of its enum.
unfoldable pub from_row : AgentGenerationRow → Option AgentGeneration
from_row row = do
  state ← agent_state_of row.state
  final_outcome ← outcome_or_none row.final_outcome
  some (record {
    agent_generation_id = row.agent_generation_id;
    call_id = row.call_id;
    turn_id = row.turn_id;
    created_at = row.created_at;
    started_at = row.started_at;
    ended_at = row.ended_at;
    state = state;
    route_a_label = row.route_a_label;
    route_a_confidence = row.route_a_confidence;
    policy_key = row.policy_key;
    specialist = row.specialist;
    final_outcome = final_outcome;
    cancel_reason = row.cancel_reason;
    error = row.error;
  })

-- What an update makes of an entity.
abbrev pub updated : AgentGeneration → AgentGeneration → AgentGeneration
updated g old = record old {
  started_at = g.started_at;
  ended_at = g.ended_at;
  state = g.state;
  route_a_label = g.route_a_label;
  route_a_confidence = g.route_a_confidence;
  policy_key = g.policy_key;
  specialist = g.specialist;
  final_outcome = g.final_outcome;
  cancel_reason = g.cancel_reason;
  error = g.error;
}

outcome_or_none-value :
    (o : Option AgentGenerationOutcome) → outcome_or_none (Option.map outcome_value o) ≡ some o
unfolding outcome_of
outcome_or_none-value none = refl
outcome_or_none-value (some guided_response) = refl
outcome_or_none-value (some tool_response) = refl
outcome_or_none-value (some handoff) = refl
outcome_or_none-value (some noop) = refl

pub from_row-to_row : (g : AgentGeneration) → from_row (to_row g) ≡ some g
unfolding from_row to_row
from_row-to_row g = rw (agent_state_of-value g.state, outcome_or_none-value g.final_outcome) refl

pub from_row-set_row :
    (g old : AgentGeneration) (row : AgentGenerationRow)
    → from_row row ≡ some old
    → from_row (set_row g row) ≡ some (updated g old)
unfolding from_row set_row
from_row-set_row g old row e =
    grind (arith, agent_state_of-value g.state, outcome_or_none-value g.final_outcome)

module _ {Db : Type 0} (table : Table Db AgentGenerationRow (λ row. row.agent_generation_id)) where
  abbrev pub insert : AgentGeneration → Db → Option Db
  insert g db = table.insert (to_row g) db

  abbrev pub update : AgentGeneration → Db → Db
  update g db = table.update g.agent_generation_id (set_row g) db

  unfoldable pub get_by_id : Uuid → Db → Fetched AgentGeneration
  unfolding fetched
  get_by_id id db = fetched from_row (table.fetchrow id db)

  -- In the order of the query; none where a row has no entity.
  unfoldable pub list_by_turn : Uuid → Db → Option (List AgentGeneration)
  unfolding all_of
  list_by_turn id db =
      all_of from_row (table.fetch (λ row. row.turn_id == id) (λ row. some row.created_at) db)

  -- After an insertion that succeeds, a look-up under the entity's id reads back the same entity, with
  -- every enum and every missing value as it was, and any other id is read as before.
  pub get_by_id-insert :
      (g : AgentGeneration) (id : Uuid) (db db' : Db)
      → insert g db ≡ some db'
      → get_by_id id db' ≡ (if g.agent_generation_id == id then got g else get_by_id id db)
  unfolding get_by_id fetched to_row
  get_by_id-insert g id db db' e =
      grind (arith, table.fetchrow-insert (to_row g) id db db' e, from_row-to_row g)

  pub get_by_id-update :
      (g old : AgentGeneration) (db : Db)
      → get_by_id g.agent_generation_id db ≡ got old
      → get_by_id g.agent_generation_id (update g db) ≡ got (updated g old)
  unfolding get_by_id fetched
  get_by_id-update g old db e = grind (
    arith,
    table.fetchrow-update g.agent_generation_id g.agent_generation_id (set_row g) db,
    ==_refl g.agent_generation_id,
    from_row-set_row g old,
  )
