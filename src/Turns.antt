-- ===== src/Turns.antt =====
-- backend/src/voice_runtime/turn_manager.py: the turns of the caller, from the voice detector's
-- signals. An id that `uuid4()` returns is an argument of the handler that draws it.
pub mod Trace
use event_driven_ai_voice.Prelude.{ℕ, ◌+◌, Option, none, some, List, [], ◌∷◌, ◌++◌, Text}
use event_driven_ai_voice.Types.{
  Uuid, TurnState, open_turn, finalized, CancelReason, barge_in, no_transcript, TurnEvent,
  turn_started, turn_finalized, turn_cancelled,
}

pub record TurnManager : Type 0 where
  pub call_id : Uuid
  pub seq : ℕ
  pub current_turn_id : Option Uuid
  pub current_state : Option TurnState
  pub current_transcript : Option Text
  pub pending_events : List TurnEvent

unfoldable pub new : Uuid → TurnManager
new call_id = record {
  call_id = call_id;
  seq = 0;
  current_turn_id = none;
  current_state = none;
  current_transcript = none;
  pending_events = [];
}

unfoldable pub drain_events : TurnManager → TurnManager × List TurnEvent
drain_events m = (record m { pending_events = [] }, m.pending_events)

-- The turn that is open: `_current_turn_id is not None and _current_state == TurnState.OPEN`.
abbrev pub open_of : Option Uuid → Option TurnState → Option Uuid
open_of (some turn) (some open_turn) = some turn
open_of _ _ = none

abbrev pub open_turn_id : TurnManager → Option Uuid
open_turn_id m = open_of m.current_turn_id m.current_state

cancel_current : CancelReason → ℕ → TurnManager → TurnManager
cancel_current reason ts m = elim m.current_turn_id [
  | none ↦ m
  | some turn ↦ record m {
    current_state = some TurnState.cancelled;
    pending_events =
        m.pending_events
        ++ turn_cancelled (record { call_id = m.call_id; turn_id = turn; reason = reason; ts = ts })
          ∷ [];
  }
]

-- The cancellation of a turn that is still open.
cancel_open : CancelReason → ℕ → TurnManager → TurnManager
unfolding cancel_current
cancel_open reason ts m = elim (open_turn_id m) [ none ↦ m | some _ ↦ cancel_current reason ts m ]

unfoldable pub handle_speech_started : Uuid → ℕ → TurnManager → TurnManager
unfolding cancel_open
handle_speech_started turn ts m =
    let m' = cancel_open barge_in ts m in
    record m' {
      seq = m'.seq + 1;
      current_turn_id = some turn;
      current_state = some open_turn;
      pending_events =
          m'.pending_events
          ++ turn_started (record { call_id = m'.call_id; turn_id = turn; ts = ts }) ∷ [];
    }

unfoldable pub handle_audio_committed : ℕ → TurnManager → TurnManager
handle_audio_committed ts m = elim (open_turn_id m) [
  | none ↦ m
  | some turn ↦ record m {
    current_state = some finalized;
    pending_events =
        m.pending_events
        ++ turn_finalized (record { call_id = m.call_id; turn_id = turn; text = []; ts = ts }) ∷ [];
  }
]

unfoldable pub handle_transcript_final : Text → ℕ → TurnManager → TurnManager
handle_transcript_final text ts m = record m { current_transcript = some text }

unfoldable pub handle_no_transcript_timeout : ℕ → TurnManager → TurnManager
unfolding cancel_open
handle_no_transcript_timeout ts m = cancel_open no_transcript ts m
