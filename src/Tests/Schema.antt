-- ===== src/Tests/Schema.antt =====
-- A concrete database that keeps the foreign keys of the migration.
use event_driven_ai_voice.Prelude.{
  Bool, List, Option, Text, [], codes, if◌then◌else◌, none, refl, some, ap, sym, ◌++◌, ◌==◌, ◌∷◌,
  ◌≡◌, ◌≢◌, ◌∙◌, ◌&&◌, true, false, text_eq, text_eq→eq, inl, inr, Bool-cases,
}
use event_driven_ai_voice.Types.{Uuid}
use event_driven_ai_voice.Entities.{insert_turn, insert_voice, insert_generation}
use event_driven_ai_voice.Repositories.Schema.{
  Column, TableName, columns, turns, agent_generations, voice_generations, call_sessions,
  tool_executions,
}
use event_driven_ai_voice.Repositories.Schema.Cells.{turn_cells, value_for, Cell, Cells, of_uuid}
use event_driven_ai_voice.Repositories.Turns
use event_driven_ai_voice.Repositories.Schema.Accepted.{
  accepted, numbers_fit, has_generation, accepted_lem,
}
use event_driven_ai_voice.Repositories.Schema.Orphans.{
  inserted_call, Database, inserted_call, reference, written, written_all, written-without_session,
}
use event_driven_ai_voice.Tests.Rows.{old_turn, old_voice, old_gen}

abbrev Db : Type 0
Db = List (TableName × Cells)

abbrev same : TableName → TableName → Bool
same call_sessions call_sessions = true
same turns turns = true
same agent_generations agent_generations = true
same voice_generations voice_generations = true
same tool_executions tool_executions = true
same _ _ = false

same→eq : (a b : TableName) → same a b ≡ true → a ≡ b
same→eq call_sessions call_sessions e = refl
same→eq turns turns e = refl
same→eq agent_generations agent_generations e = refl
same→eq voice_generations voice_generations e = refl
same→eq tool_executions tool_executions e = refl
same→eq _ _ e = cc

differ-same : (a b : TableName) → a ≢ b → same a b ≡ false
differ-same a b differ = elim (Bool-cases (same a b)) [
  | inl e ↦ absurd (differ (same→eq a b e))
  | inr e ↦ e
]

stored : (b : Bool) (new db' : Db) → (if b then some new else none) ≡ some db' → new ≡ db'
stored true new db' e = cc
stored false new db' e = cc

abbrev is_id : Uuid → Cell → Bool
is_id id (of_uuid i) = i == id
is_id id _ = false

has : TableName → Text → Uuid → Db → Bool
has table name id [] = false
has table name id ((t, cells) ∷ db) =
    let rest = has table name id db in
    if same t table && is_id id (value_for name cells) then true else rest

abbrev refers : Option (TableName × Text) → Cell → Db → Bool
refers (some (table, name)) (of_uuid id) db = has table name id db
refers _ _ db = true

refer : List Column → Cells → Db → Bool
refer [] cells db = true
refer (column ∷ rest) cells db =
    refers column.foreign_key (value_for column.name cells) db && refer rest cells db

insert : TableName → Cells → Db → Option Db
insert table cells db = if refer (columns table) cells db then some ((table, cells) ∷ db) else none

update : TableName → Uuid → Cells → Db → Db
update table id set [] = []
update table id set ((t, cells) ∷ db) =
    (t, if same t table then set ++ cells else cells) ∷ update table id set db

has-insert :
    (table other : TableName) (cells : Cells) (name : Text) (id : Uuid) (db db' : Db)
    → insert table cells db ≡ some db'
    → table ≢ other
    → has other name id db' ≡ has other name id db
unfolding insert has
has-insert table other cells name id db db' e differ =
    let new = stored (refer (columns table) cells db) ((table, cells) ∷ db) db' e in
    ap (has other name id) (sym new)
    ∙ ap (λ b. if b && is_id id (value_for name cells) then true else has other name id db)
        (differ-same table other differ)

has-update :
    (table other : TableName) (cells : Cells) (name : Text) (key id : Uuid) (db : Db)
    → table ≢ other
    → has other name id (update table key cells db) ≡ has other name id db
unfolding has update
has-update table other cells name key id [] differ = refl
has-update table other cells name key id ((t, row) ∷ db) differ =
    rw (has-update table other cells name key id db differ) (elim (Bool-cases (same t table)) [
      | inl e ↦ rw (differ-same t other (λ q. differ (sym (same→eq t table e) ∙ q))) refl
      | inr e ↦ rw e refl
    ])

refers-has :
    (o : Option (TableName × Text)) (other : TableName) (cell : Cell) (name' : Text) (id : Uuid)
    (db : Db)
    → refers o cell db ≡ true
    → o ≡ some (other, name')
    → cell ≡ of_uuid id
    → has other name' id db ≡ true
refers-has o other cell name' id db all e value =
    ap (λ c. refers (some (other, name')) c db) (sym value)
    ∙ ap (λ o. refers o cell db) (sym e)
    ∙ all

halves : (a b : Bool) → (a && b) ≡ true → (a ≡ true) × (b ≡ true)
halves true b e = (refl, e)
halves false b e = cc

refer-has :
    (cols : List Column) (other : TableName) (cells : Cells) (name name' : Text) (id : Uuid)
    (db : Db)
    → refer cols cells db ≡ true
    → reference name cols ≡ some (other, name')
    → value_for name cells ≡ of_uuid id
    → has other name' id db ≡ true
unfolding refer reference
refer-has [] other cells name name' id db all found value = cc
refer-has (column ∷ rest) other cells name name' id db all found value =
    elim (Bool-cases (text_eq column.name name)) [
      | inl e ↦
          refers-has column.foreign_key other (value_for column.name cells) name' id db
            (halves _ _ all).0
            (ap (λ b. if b then column.foreign_key else reference name rest) (sym e) ∙ found)
            (ap (λ n. value_for n cells) (text_eq→eq column.name name e) ∙ value)
      | inr e ↦
          refer-has rest other cells name name' id db (halves _ _ all).1
            (ap (λ b. if b then column.foreign_key else reference name rest) (sym e) ∙ found) value
    ]

refers-insert :
    (table other : TableName) (cells : Cells) (name name' : Text) (id : Uuid) (db : Db) (r : Bool)
    → refer (columns table) cells db ≡ r
    → (db' : Db) → (if r then some ((table, cells) ∷ db) else none) ≡ some db'
    → reference name (columns table) ≡ some (other, name')
    → value_for name cells ≡ of_uuid id
    → has other name' id db ≡ true
refers-insert table other cells name name' id db true all db' e found value =
    refer-has (columns table) other cells name name' id db all found value
refers-insert table other cells name name' id db false all db' e found value = cc

insert-refers :
    (table other : TableName) (cells : Cells) (name name' : Text) (id : Uuid) (db db' : Db)
    → insert table cells db ≡ some db'
    → reference name (columns table) ≡ some (other, name')
    → value_for name cells ≡ of_uuid id
    → has other name' id db ≡ true
unfolding insert
insert-refers table other cells name name' id db db' e =
    refers-insert table other cells name name' id db _ refl db' e

abbrev database : Database Db
database = record {
  insert = insert;
  update = update;
  has = has;
  has-insert = has-insert;
  has-update = has-update;
  insert-refers = insert-refers;
}

written-without_session_example :
    written database
      (insert_turn old_turn)
      (written_all database (insert_generation old_gen ∷ []) [])
    ≡ none
unfolding has inserted_call
written-without_session_example =
    written-without_session database (insert_generation old_gen ∷ []) (insert_turn old_turn) 1 []
      refl refl

accepted_lem_example :
    accepted (insert_voice old_voice)
    ≡ (has_generation (insert_voice old_voice) && numbers_fit (insert_voice old_voice))
accepted_lem_example = accepted_lem (insert_voice old_voice)

-- A turn of a call that is there goes in.
stored_turn :
    has turns (codes "turn_id") 5 (
      written_all database
        (insert_turn old_turn ∷ [])
        ((call_sessions, (codes "call_id", of_uuid 1) ∷ []) ∷ []))
    ≡ true
unfolding has written_all insert refer columns value_for turn_cells Turns.to_row
stored_turn = refl
