-- ===== src/Repositories/Turns.antt =====
-- `PgTurnRepository` of backend/src/infrastructure/repositories/pg_turn.py.
use event_driven_ai_voice.Repositories.Values.{turn_state_of, turn_state_value, turn_state_of-value}
use event_driven_ai_voice.Prelude.{
  List, Option, Text, if◌then◌else◌, some, ℕ, ◌==◌, ◌≡◌, ==_refl, arith, refl,
}
use event_driven_ai_voice.Types.{CancelReason, Uuid}
use event_driven_ai_voice.Repositories.Table.{◌>>=◌, all_of, Table, Fetched, fetched, got}
use event_driven_ai_voice.Entities.{Turn, Float}

-- A row as it is stored: an enum is its value.
pub record TurnRow : Type 0 where
  pub turn_id : Uuid
  pub call_id : Uuid
  pub seq : ℕ
  pub started_at : ℕ
  pub finalized_at : Option ℕ
  pub text_final : Option Text
  pub language : Option Text
  pub state : Text
  pub cancel_reason : Option CancelReason
  pub asr_confidence : Option Float

unfoldable pub to_row : Turn → TurnRow
to_row t = record {
  turn_id = t.turn_id;
  call_id = t.call_id;
  seq = t.seq;
  started_at = t.started_at;
  finalized_at = t.finalized_at;
  text_final = t.text_final;
  language = t.language;
  state = turn_state_value t.state;
  cancel_reason = t.cancel_reason;
  asr_confidence = t.asr_confidence;
}

-- The `SET` of the update.
unfoldable pub set_row : Turn → TurnRow → TurnRow
set_row t row = record row {
  finalized_at = t.finalized_at;
  text_final = t.text_final;
  language = t.language;
  state = turn_state_value t.state;
  cancel_reason = t.cancel_reason;
  asr_confidence = t.asr_confidence;
}

-- `_row_to_turn`: none for a text that is no value of its enum.
unfoldable pub from_row : TurnRow → Option Turn
from_row row = do
  state ← turn_state_of row.state
  some (record {
    turn_id = row.turn_id;
    call_id = row.call_id;
    seq = row.seq;
    started_at = row.started_at;
    finalized_at = row.finalized_at;
    text_final = row.text_final;
    language = row.language;
    state = state;
    cancel_reason = row.cancel_reason;
    asr_confidence = row.asr_confidence;
  })

-- What an update makes of an entity.
abbrev pub updated : Turn → Turn → Turn
updated t old = record old {
  finalized_at = t.finalized_at;
  text_final = t.text_final;
  language = t.language;
  state = t.state;
  cancel_reason = t.cancel_reason;
  asr_confidence = t.asr_confidence;
}

pub from_row-to_row : (t : Turn) → from_row (to_row t) ≡ some t
unfolding from_row to_row
from_row-to_row t = rw (turn_state_of-value t.state) refl

pub from_row-set_row :
    (t old : Turn) (row : TurnRow)
    → from_row row ≡ some old
    → from_row (set_row t row) ≡ some (updated t old)
unfolding from_row set_row
from_row-set_row t old row e = grind (arith, turn_state_of-value t.state)

module _ {Db : Type 0} (table : Table Db TurnRow (λ row. row.turn_id)) where
  abbrev pub insert : Turn → Db → Option Db
  insert t db = table.insert (to_row t) db

  abbrev pub update : Turn → Db → Db
  update t db = table.update t.turn_id (set_row t) db

  unfoldable pub get_by_id : Uuid → Db → Fetched Turn
  unfolding fetched
  get_by_id id db = fetched from_row (table.fetchrow id db)

  -- In the order of the query; none where a row has no entity.
  unfoldable pub list_by_call : Uuid → Db → Option (List Turn)
  unfolding all_of
  list_by_call id db =
      all_of from_row (table.fetch (λ row. row.call_id == id) (λ row. some row.seq) db)

  -- An inserted entity is read back; the others are read as before.
  pub get_by_id-insert :
      (t : Turn) (id : Uuid) (db db' : Db)
      → insert t db ≡ some db'
      → get_by_id id db' ≡ (if t.turn_id == id then got t else get_by_id id db)
  unfolding get_by_id fetched to_row
  get_by_id-insert t id db db' e =
      grind (arith, table.fetchrow-insert (to_row t) id db db' e, from_row-to_row t)

  pub get_by_id-update :
      (t old : Turn) (db : Db)
      → get_by_id t.turn_id db ≡ got old
      → get_by_id t.turn_id (update t db) ≡ got (updated t old)
  unfolding get_by_id fetched
  get_by_id-update t old db e = grind (
    arith,
    table.fetchrow-update t.turn_id t.turn_id (set_row t) db,
    ==_refl t.turn_id,
    from_row-set_row t old,
  )
