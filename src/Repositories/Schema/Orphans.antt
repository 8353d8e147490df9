-- ===== src/Repositories/Schema/Orphans.antt =====
-- The foreign keys of the migration and the writes of voice_runtime/coordinator.py.
use event_driven_ai_voice.Repositories.Writes.{or_unchanged}
use event_driven_ai_voice.Entities.{
  Write, insert_generation, insert_turn, insert_voice, update_generation, update_turn, update_voice,
}
use event_driven_ai_voice.Types.{Uuid}
use event_driven_ai_voice.Prelude.{
  Bool, List, Option, Text, [], codes, if◌then◌else◌, none, some, text_eq, true, ◌∷◌, ◌≡◌, ◌≢◌,
  false, refl, ◌∙◌, ap,
}
use event_driven_ai_voice.Repositories.Schema.{
  Column, TableName, columns, turns, agent_generations, voice_generations, call_sessions,
}
use event_driven_ai_voice.Repositories.Schema.Cells.{
  value_for, Cells, of_uuid, generation_cells, generation_set_cells, turn_cells, turn_set_cells,
  voice_cells, voice_set_cells,
}
use event_driven_ai_voice.Repositories.Turns
use event_driven_ai_voice.Repositories.Generations
use event_driven_ai_voice.Repositories.Voices

-- The foreign key of the column with a name.
unfoldable pub reference : Text → List Column → Option (TableName × Text)
unfolding text_eq
reference name [] = none
reference name (column ∷ rest) =
    let later = reference name rest in
    if text_eq column.name name then column.foreign_key else later

-- What the repositories use of PostgreSQL under the migration's schema; the laws are its
-- documentation's. `insert` raises where a constraint does not hold; `has table name id` tells whether a
-- row of the table has the id in the column.
pub record Database (Db : Type 0) : Type 0 where
  pub insert : TableName → Cells → Db → Option Db
  pub update : TableName → Uuid → Cells → Db → Db
  pub has : TableName → Text → Uuid → Db → Bool
  pub has-insert :
      (table other : TableName) (cells : Cells) (name : Text) (id : Uuid) (db db' : Db)
      → insert table cells db ≡ some db'
      → table ≢ other
      → has other name id db' ≡ has other name id db
  pub has-update :
      (table other : TableName) (cells : Cells) (name : Text) (key id : Uuid) (db : Db)
      → table ≢ other
      → has other name id (update table key cells db) ≡ has other name id db
  pub insert-refers :
      (table other : TableName) (cells : Cells) (name name' : Text) (id : Uuid) (db db' : Db)
      → insert table cells db ≡ some db'
      → reference name (columns table) ≡ some (other, name')
      → value_for name cells ≡ of_uuid id
      → has other name' id db ≡ true

-- The table of a write, and the statement's values.
unfoldable pub table_of : Write → TableName
table_of (insert_turn t) = turns
table_of (update_turn t) = turns
table_of (insert_generation g) = agent_generations
table_of (update_generation g) = agent_generations
table_of (insert_voice v) = voice_generations
table_of (update_voice v) = voice_generations

-- The call of an entity that is inserted, if the write is an insertion.
unfoldable pub inserted_call : Write → Option Uuid
inserted_call (insert_turn t) = some t.call_id
inserted_call (insert_generation g) = some g.call_id
inserted_call (insert_voice v) = some v.call_id
inserted_call _ = none

module _ {Db : Type 0} (database : Database Db) where
  -- What a write makes of the database, or none where the statement raises.
  unfoldable pub written : Write → Db → Option Db
  written (insert_turn t) db = database.insert turns (turn_cells (Turns.to_row t)) db
  written (update_turn t) db =
      some (database.update turns t.turn_id (turn_set_cells (Turns.to_row t)) db)
  written (insert_generation g) db =
      database.insert agent_generations (generation_cells (Generations.to_row g)) db
  written (update_generation g) db = some (
      database.update agent_generations g.agent_generation_id
        (generation_set_cells (Generations.to_row g)) db)
  written (insert_voice v) db = database.insert voice_generations (voice_cells (Voices.to_row v)) db
  written (update_voice v) db = some (
      database.update voice_generations v.voice_generation_id (voice_set_cells (Voices.to_row v))
        db)

  -- The writes one after the other; `_persist_safe` logs and drops a failure.
  unfoldable pub written_all : List Write → Db → Db
  unfolding written
  written_all [] db = db
  written_all (w ∷ ws) db = written_all ws (or_unchanged db (written w db))

  has_session : Uuid → Db → Bool
  has_session id db = database.has call_sessions (codes "call_id") id db

  no_new_session :
      (table : TableName) (cells : Cells) (id : Uuid) (db : Db) (o : Option Db)
      → table ≢ call_sessions
      → database.insert table cells db ≡ o
      → has_session id (or_unchanged db o) ≡ has_session id db
  unfolding has_session
  no_new_session table cells id db none other e = refl
  no_new_session table cells id db (some db') other e =
      database.has-insert table call_sessions cells (codes "call_id") id db db' e other

  has_session-written :
      (w : Write) (id : Uuid) (db : Db)
      → has_session id (or_unchanged db (written w db)) ≡ has_session id db
  unfolding written has_session
  has_session-written (insert_turn t) id db =
      no_new_session turns (turn_cells (Turns.to_row t)) id db _ (λ e. cc) refl
  has_session-written (update_turn t) id db =
      database.has-update turns call_sessions (turn_set_cells (Turns.to_row t)) (codes "call_id")
        t.turn_id id db (λ e. cc)
  has_session-written (insert_generation g) id db =
      no_new_session agent_generations (generation_cells (Generations.to_row g)) id db _ (λ e. cc)
        refl
  has_session-written (update_generation g) id db =
      database.has-update agent_generations call_sessions
        (generation_set_cells (Generations.to_row g)) (codes "call_id") g.agent_generation_id id db
        (λ e. cc)
  has_session-written (insert_voice v) id db =
      no_new_session voice_generations (voice_cells (Voices.to_row v)) id db _ (λ e. cc) refl
  has_session-written (update_voice v) id db =
      database.has-update voice_generations call_sessions (voice_set_cells (Voices.to_row v))
        (codes "call_id") v.voice_generation_id id db (λ e. cc)

  has_session-written_all :
      (ws : List Write) (id : Uuid) (db : Db)
      → has_session id (written_all ws db) ≡ has_session id db
  unfolding written_all
  has_session-written_all [] id db = refl
  has_session-written_all (w ∷ ws) id db =
      has_session-written_all ws id (or_unchanged db (written w db)) ∙ has_session-written w id db

  refused :
      (table : TableName) (cells : Cells) (id : Uuid) (db : Db) (o : Option Db)
      → reference (codes "call_id") (columns table) ≡ some (call_sessions, codes "call_id")
      → value_for (codes "call_id") cells ≡ of_uuid id
      → has_session id db ≡ false
      → database.insert table cells db ≡ o
      → o ≡ none
  unfolding has_session
  refused table cells id db none column value no_session e = refl
  refused table cells id db (some db') column value no_session e =
      let there =
        database.insert-refers table call_sessions cells (codes "call_id") (codes "call_id") id db
          db' e column value in
      cc

  -- Where the table of calls has no row for a call, no turn, generation or voice of that call is ever
  -- stored by the coordinator's writes: after any sequence of them the insertion of such an entity raises,
  -- since its call_id refers to a call that is not there.
  pub written-without_session :
      (ws : List Write) (w : Write) (call : Uuid) (db : Db)
      → database.has call_sessions (codes "call_id") call db ≡ false
      → inserted_call w ≡ some call
      → written w (written_all ws db) ≡ none
  unfolding written inserted_call has_session columns reference value_for text_eq turn_cells
      Turns.to_row Generations.to_row Voices.to_row generation_cells voice_cells
  written-without_session ws (insert_turn t) call db none_there e =
      let same : t.call_id ≡ call = cc in
      refused turns (turn_cells (Turns.to_row t)) call (written_all ws db) _ refl (ap of_uuid same)
        (has_session-written_all ws call db ∙ none_there) refl
  written-without_session ws (insert_generation g) call db none_there e =
      let same : g.call_id ≡ call = cc in
      refused agent_generations (generation_cells (Generations.to_row g)) call (written_all ws db) _
        refl (ap of_uuid same) (has_session-written_all ws call db ∙ none_there) refl
  written-without_session ws (insert_voice v) call db none_there e =
      let same : v.call_id ≡ call = cc in
      refused voice_generations (voice_cells (Voices.to_row v)) call (written_all ws db) _ refl
        (ap of_uuid same) (has_session-written_all ws call db ∙ none_there) refl
  written-without_session ws (update_turn t) call db none_there e = cc
  written-without_session ws (update_generation g) call db none_there e = cc
  written-without_session ws (update_voice v) call db none_there e = cc
