-- ===== src/Turns/Trace.antt =====
-- The lifecycle events that the turn manager (turn_manager.py) emits over a whole call.
use event_driven_ai_voice.Prelude.{
  ℕ, ◌≡◌, refl, sym, ap, ◌∙◌, Option, none, some, List, [], ◌∷◌, ◌++◌, Text, ◌==◌, ==_refl,
  if◌then◌else◌, arith,
}
use mathlib.Core.List.{append_assoc, append-nil}
use event_driven_ai_voice.Types.{
  Uuid, TurnEvent, turn_started, turn_finalized, turn_cancelled, CancelReason, barge_in,
  no_transcript,
}
use event_driven_ai_voice.Turns.{
  TurnManager, new, drain_events, open_turn_id, handle_speech_started, handle_audio_committed,
  handle_transcript_final, handle_no_transcript_timeout, cancel_open,
}

-- What may follow in a well-formed stream: a turn starts when none is open, and only the open turn
-- is finalized or cancelled.
abbrev pub follow_one : Option Uuid → TurnEvent → Option (Option Uuid)
follow_one none (turn_started e) = some (some e.turn_id)
follow_one (some turn) (turn_finalized e) = if turn == e.turn_id then some none else none
follow_one (some turn) (turn_cancelled e) = if turn == e.turn_id then some none else none
follow_one _ _ = none

abbrev follow_next : Option (Option Uuid) → TurnEvent → Option (Option Uuid)
follow_next none e = none
follow_next (some o) e = follow_one o e

-- The turn that is open after the stream, or `none` where the stream is not well-formed.
unfoldable pub follow : Option (Option Uuid) → List TurnEvent → Option (Option Uuid)
follow s [] = s
follow s (e ∷ es) = follow (follow_next s e) es

follow-append :
    (s : Option (Option Uuid)) (es fs : List TurnEvent)
    → follow s (es ++ fs) ≡ follow (follow s es) fs
unfolding follow
follow-append s [] fs = refl
follow-append s (e ∷ es) fs = follow-append (follow_next s e) es fs

-- A call of the turn manager.
pub data Call : Type 0 where
  speech_started : Uuid → ℕ → Call
  audio_committed : ℕ → Call
  transcript_final : Text → ℕ → Call
  no_transcript_timeout : ℕ → Call
  drain : Call

-- One call: the new state, and the events that it hands out.
unfoldable pub call : Call → TurnManager → TurnManager × List TurnEvent
unfolding handle_speech_started handle_audio_committed handle_transcript_final
    handle_no_transcript_timeout drain_events
call (speech_started turn ts) m = (handle_speech_started turn ts m, [])
call (audio_committed ts) m = (handle_audio_committed ts m, [])
call (transcript_final text ts) m = (handle_transcript_final text ts m, [])
call (no_transcript_timeout ts) m = (handle_no_transcript_timeout ts m, [])
call drain m = drain_events m

-- All events handed out by a sequence of calls, and the manager after it.
unfoldable pub run : List Call → TurnManager → TurnManager × List TurnEvent
unfolding call
run [] m = (m, [])
run (c ∷ cs) m = let (m', out) = call c m in let (m'', rest) = run cs m' in (m'', out ++ rest)

cancel_open-follow :
    (reason : CancelReason) (ts : ℕ) (s : Option (Option Uuid)) (m : TurnManager)
    → follow s m.pending_events ≡ some (open_turn_id m)
    → (follow s (cancel_open reason ts m).pending_events ≡ some none)
      × (open_turn_id (cancel_open reason ts m) ≡ none)
unfolding cancel_open follow
cancel_open-follow reason ts s m h = grind (arith, follow-append, ==_refl)

-- The events of one call, pending ones included, continue a well-formed stream.
call-follow :
    (c : Call) (s : Option (Option Uuid)) (m : TurnManager)
    → follow s m.pending_events ≡ some (open_turn_id m)
    → follow s ((call c m).1 ++ (call c m).0.pending_events) ≡ some (open_turn_id (call c m).0)
unfolding call follow
call-follow (speech_started turn ts) s m h =
    grind (arith, follow-append, cancel_open-follow barge_in ts s m)
call-follow (audio_committed ts) s m h = grind (arith, follow-append, ==_refl)
call-follow (transcript_final text ts) s m h = h
call-follow (no_transcript_timeout ts) s m h =
    let (quiet, none_open) = cancel_open-follow no_transcript ts s m h in
    quiet ∙ ap some (sym none_open)
call-follow drain s m h = rw append-nil h

run-follow :
    (cs : List Call) (s : Option (Option Uuid)) (m : TurnManager)
    → follow s m.pending_events ≡ some (open_turn_id m)
    → follow s ((run cs m).1 ++ (run cs m).0.pending_events) ≡ some (open_turn_id (run cs m).0)
unfolding run
run-follow [] s m h = h
run-follow (c ∷ cs) s m h =
    let (m', out) = call c m in
    rw (append_assoc, follow-append)
      (run-follow cs (follow s out) m'
        (sym (follow-append s out m'.pending_events) ∙ call-follow c s m h))

-- Over a whole call, in whatever order the signals come: a turn is announced as started only while
-- no other is open, each finalization or cancellation names the turn that is open, and the turn
-- that the stream leaves open is the one that the manager holds open.
pub run_bracketed :
    (call_id : Uuid) (cs : List Call)
    → let (m, out) = run cs (new call_id) in
      follow (some none) (out ++ m.pending_events) ≡ some (open_turn_id m)
unfolding new follow
run_bracketed call_id cs = run-follow cs (some none) (new call_id) refl
