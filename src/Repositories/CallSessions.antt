-- ===== src/Repositories/CallSessions.antt =====
-- `PgCallRepository` of backend/src/infrastructure/repositories/pg_call.py.
use mathlib.Core.Option
use event_driven_ai_voice.Repositories.Table.{
  ◌>>=◌, fetched, got, fetchrow-insert_update, fetched-some,
}
use event_driven_ai_voice.Repositories.Values.{
  call_status_of, call_status_of-value, call_status_value,
}
use event_driven_ai_voice.Repositories.Json.{
  JsonColumn, json_or_none, loads-json_or_none, loads_or_none,
}
use event_driven_ai_voice.Repositories.Table.{Fetched, Table}
use event_driven_ai_voice.Types.{CallStatus, Uuid}
use event_driven_ai_voice.Entities.{CallSessionContext}
use event_driven_ai_voice.Prelude.{Option, Text, arith, refl, some, ℕ, ◌≡◌, ap, ◌∙◌}

-- A row as it is stored: an enum is its value, an object what its JSON column gives back.
pub record CallSessionRow : Type 0 where
  pub call_id : Uuid
  pub provider_call_id : Option Text
  pub started_at : ℕ
  pub ended_at : Option ℕ
  pub status : Text
  pub locale_hint : Option Text
  pub customer_context : Option Text

-- The `SET` of `update_status`, whose status is any text.
unfoldable pub set_status : Text → Option ℕ → CallSessionRow → CallSessionRow
set_status status ended_at row = record row { status = status; ended_at = ended_at }

module _ {Json : Type 0} (codec : JsonColumn Json) where
  unfoldable pub to_row : CallSessionContext Json → CallSessionRow
  unfolding json_or_none
  to_row session = record {
    call_id = session.call_id;
    provider_call_id = session.provider_call_id;
    started_at = session.started_at;
    ended_at = session.ended_at;
    status = call_status_value session.status;
    locale_hint = session.locale_hint;
    customer_context = Option.map codec.column (json_or_none codec session.customer_context);
  }

  -- `_row_to_call_session`: none for a status that is no `CallStatus`, or a text that is no JSON.
  unfoldable pub from_row : CallSessionRow → Option (CallSessionContext Json)
  from_row row = do
    status ← call_status_of row.status
    customer_context ← loads_or_none codec row.customer_context
    some (record {
      call_id = row.call_id;
      started_at = row.started_at;
      status = status;
      provider_call_id = row.provider_call_id;
      ended_at = row.ended_at;
      locale_hint = row.locale_hint;
      customer_context = customer_context;
    })

  call_id-to_row : (session : CallSessionContext Json) → (to_row session).call_id ≡ session.call_id
  unfolding to_row
  call_id-to_row session = refl

  from_row-to_row : (session : CallSessionContext Json) → from_row (to_row session) ≡ some session
  unfolding from_row to_row
  from_row-to_row session =
      rw (call_status_of-value session.status, loads-json_or_none codec session.customer_context)
        refl

  from_row-set_status :
      (status : CallStatus) (ended_at : Option ℕ) (old : CallSessionContext Json)
      (row : CallSessionRow)
      → from_row row ≡ some old
      → from_row (set_status (call_status_value status) ended_at row)
        ≡ some (record old { status = status; ended_at = ended_at })
  unfolding from_row set_status
  from_row-set_status status ended_at old row e = grind (arith, call_status_of-value status)

  module _ {Db : Type 0} (table : Table Db CallSessionRow (λ row. row.call_id)) where
    abbrev pub insert : CallSessionContext Json → Db → Option Db
    insert session db = table.insert (to_row session) db

    abbrev pub update_status : Uuid → Text → Option ℕ → Db → Db
    update_status id status ended_at db = table.update id (set_status status ended_at) db

    unfoldable pub get_by_id : Uuid → Db → Fetched (CallSessionContext Json)
    unfolding fetched
    get_by_id id db = fetched from_row (table.fetchrow id db)

    -- A call that is inserted and then given a status is read back with everything that it was
    -- inserted with, its customer's context included, but with that status and that end: where the
    -- caller gives none, an end that the call had is gone.
    get_by_id-update_status :
        (session : CallSessionContext Json) (status : CallStatus) (ended_at : Option ℕ)
        (db db' : Db)
        → insert session db ≡ some db'
        → get_by_id session.call_id
            (update_status session.call_id (call_status_value status) ended_at db')
          ≡ got (record session { status = status; ended_at = ended_at })
    unfolding get_by_id fetched
    get_by_id-update_status session status ended_at db db' e =
        ap (fetched from_row) (
          fetchrow-insert_update table (to_row session) session.call_id
            (set_status (call_status_value status) ended_at) db db' e (call_id-to_row session))
        ∙ fetched-some from_row _ _
            (from_row-set_status status ended_at session (to_row session) (from_row-to_row session))
