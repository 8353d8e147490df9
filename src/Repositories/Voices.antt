-- ===== src/Repositories/Voices.antt =====
-- `PgVoiceGenerationRepository` of backend/src/infrastructure/repositories/pg_voice_generation.py.
use event_driven_ai_voice.Repositories.Values.{
  voice_kind_of, voice_kind_value, voice_state_of, voice_state_value, voice_kind_of-value,
  voice_state_of-value,
}
use event_driven_ai_voice.Types.{CancelReason, Uuid}
use event_driven_ai_voice.Prelude.{
  Bool, List, Option, Text, false, if◌then◌else◌, none, some, ℕ, ◌==◌, ◌≡◌, ==_refl, arith, refl,
}
use event_driven_ai_voice.Repositories.Table.{◌>>=◌, all_of, Table, Fetched, fetched, got}
use event_driven_ai_voice.Entities.{VoiceGeneration}

-- A row as it is stored: an enum is its value.
pub record VoiceGenerationRow : Type 0 where
  pub voice_generation_id : Uuid
  pub provider_voice_generation_id : Option Text
  pub call_id : Uuid
  pub agent_generation_id : Option Uuid
  pub turn_id : Uuid
  pub kind : Text
  pub state : Text
  pub started_at : Option ℕ
  pub ended_at : Option ℕ
  pub cancel_reason : Option CancelReason
  pub error : Option Text

unfoldable pub to_row : VoiceGeneration → VoiceGenerationRow
to_row v = record {
  voice_generation_id = v.voice_generation_id;
  provider_voice_generation_id = v.provider_voice_generation_id;
  call_id = v.call_id;
  agent_generation_id = v.agent_generation_id;
  turn_id = v.turn_id;
  kind = voice_kind_value v.kind;
  state = voice_state_value v.state;
  started_at = v.started_at;
  ended_at = v.ended_at;
  cancel_reason = v.cancel_reason;
  error = v.error;
}

-- The `SET` of the update.
unfoldable pub set_row : VoiceGeneration → VoiceGenerationRow → VoiceGenerationRow
set_row v row = record row {
  state = voice_state_value v.state;
  started_at = v.started_at;
  ended_at = v.ended_at;
  cancel_reason = v.cancel_reason;
  error = v.error;
}

-- `_row_to_voice_generation`: none for a text that is no value of its enum.
unfoldable pub from_row : VoiceGenerationRow → Option VoiceGeneration
from_row row = do
  kind ← voice_kind_of row.kind
  state ← voice_state_of row.state
  some (record {
    voice_generation_id = row.voice_generation_id;
    provider_voice_generation_id = row.provider_voice_generation_id;
    call_id = row.call_id;
    agent_generation_id = row.agent_generation_id;
    turn_id = row.turn_id;
    kind = kind;
    state = state;
    started_at = row.started_at;
    ended_at = row.ended_at;
    cancel_reason = row.cancel_reason;
    error = row.error;
  })

-- What an update makes of an entity.
abbrev pub updated : VoiceGeneration → VoiceGeneration → VoiceGeneration
updated v old = record old {
  state = v.state;
  started_at = v.started_at;
  ended_at = v.ended_at;
  cancel_reason = v.cancel_reason;
  error = v.error;
}

pub from_row-to_row : (v : VoiceGeneration) → from_row (to_row v) ≡ some v
unfolding from_row to_row
from_row-to_row v = rw (voice_kind_of-value v.kind, voice_state_of-value v.state) refl

pub from_row-set_row :
    (v old : VoiceGeneration) (row : VoiceGenerationRow)
    → from_row row ≡ some old
    → from_row (set_row v row) ≡ some (updated v old)
unfolding from_row set_row
from_row-set_row v old row e = grind (arith, voice_state_of-value v.state)

-- `agent_generation_id = $1`, which NULL is not.
abbrev is_id : Uuid → Option Uuid → Bool
is_id id none = false
is_id id (some i) = i == id

module _ {Db : Type 0} (table : Table Db VoiceGenerationRow (λ row. row.voice_generation_id)) where
  abbrev pub insert : VoiceGeneration → Db → Option Db
  insert v db = table.insert (to_row v) db

  abbrev pub update : VoiceGeneration → Db → Db
  update v db = table.update v.voice_generation_id (set_row v) db

  unfoldable pub get_by_id : Uuid → Db → Fetched VoiceGeneration
  unfolding fetched
  get_by_id id db = fetched from_row (table.fetchrow id db)

  -- In the order of the query; none where a row has no entity.
  unfoldable pub list_by_agent_generation : Uuid → Db → Option (List VoiceGeneration)
  unfolding all_of
  list_by_agent_generation id db =
      all_of from_row
        (table.fetch (λ row. is_id id row.agent_generation_id) (λ row. row.started_at) db)

  -- An inserted entity is read back; the others are read as before.
  pub get_by_id-insert :
      (v : VoiceGeneration) (id : Uuid) (db db' : Db)
      → insert v db ≡ some db'
      → get_by_id id db' ≡ (if v.voice_generation_id == id then got v else get_by_id id db)
  unfolding get_by_id fetched to_row
  get_by_id-insert v id db db' e =
      grind (arith, table.fetchrow-insert (to_row v) id db db' e, from_row-to_row v)

  pub get_by_id-update :
      (v old : VoiceGeneration) (db : Db)
      → get_by_id v.voice_generation_id db ≡ got old
      → get_by_id v.voice_generation_id (update v db) ≡ got (updated v old)
  unfolding get_by_id fetched
  get_by_id-update v old db e = grind (
    arith,
    table.fetchrow-update v.voice_generation_id v.voice_generation_id (set_row v) db,
    ==_refl v.voice_generation_id,
    from_row-set_row v old,
  )
