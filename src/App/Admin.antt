-- ===== src/App/Admin.antt =====
-- backend/src/api/routes/admin.py: the calls and one call as they are stored. The rows are those of the
-- repositories; `show_id` prints an id.
use event_driven_ai_voice.Types.{Uuid}
use event_driven_ai_voice.Prelude.{List, Option, Text, codes, map, none, some, ℕ, ◌==◌}
use event_driven_ai_voice.Entities.{Float}
use event_driven_ai_voice.Repositories.CallSessions.{CallSessionRow}
use event_driven_ai_voice.Repositories.Turns.{TurnRow}
use event_driven_ai_voice.Repositories.Generations.{AgentGenerationRow}
use event_driven_ai_voice.Repositories.Table.{Table}

pub record CallSummary : Type 0 where
  pub call_id : Text
  pub started_at : ℕ
  pub ended_at : Option ℕ
  pub status : Text
  pub locale_hint : Option Text

pub record TurnSummary : Type 0 where
  pub turn_id : Text
  pub seq : ℕ
  pub started_at : ℕ
  pub finalized_at : Option ℕ
  pub text_final : Option Text
  pub language : Option Text
  pub state : Text

pub record GenerationSummary : Type 0 where
  pub agent_generation_id : Text
  pub turn_id : Text
  pub state : Text
  pub route_a_label : Option Text
  pub route_a_confidence : Option Float
  pub specialist : Option Text
  pub created_at : ℕ

pub record CallDetail : Type 0 where
  pub call : CallSummary
  pub turns : List TurnSummary
  pub generations : List GenerationSummary

pub data Answer (A : Type 0) : Type 0 where
  answered : A → Answer A
  http_error : ℕ → Text → Answer A

-- The tables that a pool reads.
pub record Pool (C T G : Type 0) : Type 0 where
  pub calls : C
  pub turns : T
  pub generations : G

module _ (show_id : Uuid → Text) where
  unfoldable pub call_summary : CallSessionRow → CallSummary
  call_summary row = record {
    call_id = show_id row.call_id;
    started_at = row.started_at;
    ended_at = row.ended_at;
    status = row.status;
    locale_hint = row.locale_hint;
  }

  unfoldable pub turn_summary : TurnRow → TurnSummary
  turn_summary row = record {
    turn_id = show_id row.turn_id;
    seq = row.seq;
    started_at = row.started_at;
    finalized_at = row.finalized_at;
    text_final = row.text_final;
    language = row.language;
    state = row.state;
  }

  unfoldable pub generation_summary : AgentGenerationRow → GenerationSummary
  generation_summary row = record {
    agent_generation_id = show_id row.agent_generation_id;
    turn_id = show_id row.turn_id;
    state = row.state;
    route_a_label = row.route_a_label;
    route_a_confidence = row.route_a_confidence;
    specialist = row.specialist;
    created_at = row.created_at;
  }

  module _ {C T G : Type 0} (calls : Table C CallSessionRow (λ row. row.call_id))
      (turns : Table T TurnRow (λ row. row.turn_id))
      (generations : Table G AgentGenerationRow (λ row. row.agent_generation_id)) where
    abbrev pub detail_of : Pool C T G → Uuid → Option CallSessionRow → Answer CallDetail
    detail_of pool id none = http_error 404 (codes "Call not found")
    detail_of pool id (some row) = answered (record {
      call = call_summary row;
      turns =
          map turn_summary
            (turns.fetch (λ row. row.call_id == id) (λ row. some row.seq) pool.turns);
      generations = map generation_summary (
          generations.fetch (λ row. row.call_id == id) (λ row. some row.created_at)
            pool.generations);
    })

    unfoldable pub get_call_detail : Uuid → Option (Pool C T G) → Answer CallDetail
    unfolding call_summary turn_summary generation_summary
    get_call_detail id none = http_error 503 (codes "Database not configured")
    get_call_detail id (some pool) = detail_of pool id (calls.fetchrow id pool.calls)
