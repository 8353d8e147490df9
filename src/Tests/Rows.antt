-- ===== src/Tests/Rows.antt =====
-- Concrete tables.
use mathlib.Core.Option
use event_driven_ai_voice.Prelude.{
  Bool, List, Option, [], arith, codes, if◌then◌else◌, none, refl, some, ap, sym, ◌++◌, ◌==◌, ◌∷◌,
  ◌≡◌,
}
use event_driven_ai_voice.Types.{AgentState, CancelReason, TurnState, Uuid, VoiceKind, VoiceState}
use event_driven_ai_voice.Entities.{AgentGeneration, Turn, VoiceGeneration, Write, guided_response}
use event_driven_ai_voice.Coordinator.Monad.{write}
use event_driven_ai_voice.Coordinator.Committed.{persist_transcript}
use event_driven_ai_voice.Coordinator.Speech.{persist_cancelled}
use event_driven_ai_voice.Coordinator.Voice.{persist_voice}
use event_driven_ai_voice.Repositories.Table.{Table, got}
use event_driven_ai_voice.Repositories.Values.{
  agent_state_of, outcome_of, outcome_value, turn_state_of, voice_kind_of, voice_state_of,
}
use event_driven_ai_voice.Repositories.Turns
use event_driven_ai_voice.Repositories.Generations
use event_driven_ai_voice.Repositories.Voices
use event_driven_ai_voice.Repositories.Writes.{
  generation_cancelled, transcript_arrived, voice_ended, Store, perform, updates_erase,
}
use event_driven_ai_voice.Tests.Calls.{after, deps, env}

-- A table as a list of rows under their keys; only the newest row of a key counts.
module _ {Row : Type 0} (key : Row → Uuid) where
  abbrev pub Rows : Type 0
  Rows = List (Uuid × Row)

  unfoldable pub row_of : Uuid → Rows → Option Row
  row_of id [] = none
  row_of id ((k, row) ∷ rows) = if k == id then some row else row_of id rows

  abbrev pub add_row : Row → Option Row → Rows → Option Rows
  add_row row none rows = some ((key row, row) ∷ rows)
  add_row row (some old) rows = none

  pub set_rows : Uuid → (Row → Row) → Rows → Rows
  set_rows id set [] = []
  set_rows id set ((k, row) ∷ rows) = (k, if k == id then set row else row) ∷ set_rows id set rows

  abbrev pub row_in : Uuid → Option Rows → Option Row
  row_in id none = none
  row_in id (some rows) = row_of id rows

  -- The rows that a query asks for, the newest first.
  pub rows_where : (Row → Bool) → Rows → List Row
  rows_where p [] = []
  rows_where p ((k, row) ∷ rows) =
      let rest = rows_where p rows in if p row then row ∷ rest else rest

  pub added :
      (row : Row) (id : Uuid) (o : Option Row) (rows rows' : Rows)
      → add_row row o rows ≡ some rows'
      → row_of id rows' ≡ (if key row == id then some row else row_of id rows)
  unfolding row_of
  added row id none rows rows' e = ap (λ o. row_in id o) (sym e)
  added row id (some old) rows rows' e = cc

  pub row_of-set :
      (id other : Uuid) (set : Row → Row) (rows : Rows)
      → row_of other (set_rows id set rows)
        ≡ (if id == other then Option.map set (row_of other rows) else row_of other rows)
  unfolding row_of set_rows
  row_of-set id other set [] = ground arith
  row_of-set id other set ((k, row) ∷ rows) = grind (arith, row_of-set id other set rows)

  abbrev pub table : Table Rows Row key
  table = record {
    insert = λ row rows. add_row row (row_of (key row) rows) rows;
    update = set_rows;
    fetchrow = row_of;
    fetch = λ p order rows. rows_where p rows;
    fetchrow-insert = λ row id rows rows' e. added row id (row_of (key row) rows) rows rows' e;
    fetchrow-update = row_of-set;
  }

abbrev pub old_turn : Turn
old_turn = record {
  turn_id = 5;
  call_id = 1;
  seq = 1;
  started_at = 100;
  state = TurnState.finalized;
  finalized_at = some 100;
  text_final = some [];
  language = none;
  cancel_reason = none;
  asr_confidence = none;
}

abbrev pub old_gen : AgentGeneration
old_gen = record {
  agent_generation_id = 6;
  call_id = 1;
  turn_id = 5;
  created_at = 100;
  state = AgentState.routing;
  started_at = some 100;
  ended_at = none;
  route_a_label = none;
  route_a_confidence = none;
  policy_key = none;
  specialist = some (codes "billing");
  final_outcome = some guided_response;
  cancel_reason = none;
  error = none;
}

abbrev pub old_voice : VoiceGeneration
old_voice = record {
  voice_generation_id = 7;
  call_id = 1;
  agent_generation_id = some 6;
  turn_id = 5;
  kind = VoiceKind.response;
  state = VoiceState.starting;
  provider_voice_generation_id = none;
  started_at = some 100;
  ended_at = none;
  cancel_reason = none;
  error = none;
}

abbrev turns : Table (Rows λ (row : Turns.TurnRow). row.turn_id) Turns.TurnRow (λ row. row.turn_id)
turns = table λ row. row.turn_id

abbrev generations :
    Table
      (Rows λ (row : Generations.AgentGenerationRow). row.agent_generation_id)
      Generations.AgentGenerationRow
      (λ row. row.agent_generation_id)
generations = table λ row. row.agent_generation_id

abbrev voices :
    Table
      (Rows λ (row : Voices.VoiceGenerationRow). row.voice_generation_id)
      Voices.VoiceGenerationRow
      (λ row. row.voice_generation_id)
voices = table λ row. row.voice_generation_id

-- The three rows, each alone in its table.
abbrev store :
    Store
      (Rows λ (row : Turns.TurnRow). row.turn_id)
      (Rows λ (row : Generations.AgentGenerationRow). row.agent_generation_id)
      (Rows λ (row : Voices.VoiceGenerationRow). row.voice_generation_id)
store = record {
  turns = (5, Turns.to_row old_turn) ∷ [];
  generations = (6, Generations.to_row old_gen) ∷ [];
  voices = (7, Voices.to_row old_voice) ∷ [];
}

stored :
    (Turns.get_by_id turns 5 store.turns ≡ got old_turn)
    × (Generations.get_by_id generations 6 store.generations ≡ got old_gen)
    × (Voices.get_by_id voices 7 store.voices ≡ got old_voice)
unfolding Turns.get_by_id row_of Turns.from_row turn_state_of Turns.to_row Generations.get_by_id
    Generations.from_row agent_state_of Generations.to_row outcome_value outcome_of Voices.get_by_id
    Voices.from_row voice_kind_of Voices.to_row voice_state_of
stored = (refl, refl, refl)

updates_erase_example :
    let c = after [] in
    ((w : Write) × ((persist_transcript env deps 200 (some 5) 1 (codes "hello") c.io).effects
        ≡ c.io.effects ++ write w ∷ [])
      × (Turns.get_by_id turns 5 (perform turns generations voices w store).turns
          ≡ got (transcript_arrived (codes "hello") old_turn)))
    × ((w : Write) × ((persist_cancelled deps 6 (some 5) CancelReason.barge_in 200 c.io).effects
          ≡ c.io.effects ++ write w ∷ [])
        × (Generations.get_by_id generations 6
              (perform turns generations voices w store).generations
            ≡ got (generation_cancelled 200 CancelReason.barge_in old_gen)))
    × ((w : Write) × ((persist_voice env deps 200 7 VoiceState.completed none c).0.io.effects
          ≡ c.io.effects ++ write w ∷ [])
        × (Voices.get_by_id voices 7 (perform turns generations voices w store).voices
            ≡ got (voice_ended 200 VoiceState.completed old_voice)))
updates_erase_example =
    updates_erase turns generations voices env deps 200 1 5 6 7 (codes "hello")
      CancelReason.barge_in VoiceState.completed (after []).io (after []) store old_turn old_gen
      old_voice refl refl refl stored.0 stored.1 stored.2
