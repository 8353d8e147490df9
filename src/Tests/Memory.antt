-- ===== src/Tests/Memory.antt =====
-- A concrete call goes on after a barge-in, and events come late or twice.
use event_driven_ai_voice.Buffer.Written.{IsWritten}
use event_driven_ai_voice.Prelude.{List, [], codes, refl, ◌∷◌, ◌≡◌, ◌++◌, drop, length}
use event_driven_ai_voice.Types.{canonical}
use event_driven_ai_voice.Buffer.Updates.{IsWithin}
use event_driven_ai_voice.Coordinator.History.Runs.{run-IsWithin}
use event_driven_ai_voice.Coordinator.{new, Body, Input, handle_event, run}
use event_driven_ai_voice.Coordinator.Monad.{Coordinator, ok}
use event_driven_ai_voice.Coordinator.Output.{no_set}
use event_driven_ai_voice.Coordinator.Speech.{on_speech_started}
use event_driven_ai_voice.Coordinator.Voice.{on_tool_result, on_voice_completed, on_voice_error}
use event_driven_ai_voice.Coordinator.Completion.{after_voice, on_voice_completed_lem}
use event_driven_ai_voice.Coordinator.Adds.Runs.{run-Adds}
use event_driven_ai_voice.Coordinator.Remembers.Runs.{handle_event-again, barge_in-run}
use event_driven_ai_voice.Tests.Calls.{
  after, after-IsCoherent, answered, answered_state, completed, deps, env, envelope, received,
  world,
}

-- The caller has interrupted the specialist.
abbrev interrupted : Coordinator
interrupted = (on_speech_started env deps 400 (after answered)).0

-- The caller ends the turn, and the filler's timer fires.
abbrev going_on : List Input
going_on = received 5 500 Body.audio_committed ∷ Input.filler_timer ∷ []

run-Adds_example :
    let outputs = (run env deps going_on interrupted).output_events in
    outputs ≡ interrupted.output_events ++ drop (length interrupted.output_events) outputs
run-Adds_example = run-Adds env deps going_on interrupted refl

barge_in-run_example :
    let c = run env deps going_on interrupted in
    (on_voice_completed env deps 600 completed (canonical 104) c ≡ (c, ok tt))
    × (on_voice_error env deps 600 (codes "late") (canonical 104) c ≡ (c, ok tt))
    × (on_tool_result env deps 600 (canonical 101) c ≡ (c, ok tt))
barge_in-run_example =
    barge_in-run env deps going_on 400 600 completed (codes "late") 104 101 (after answered)
      (after-IsCoherent answered) answered_state.0 answered_state.1

handle_event-again_example :
    let first = envelope 6 700 Body.speech_started in
    let again = envelope 6 900 Body.audio_committed in
    let c = run env deps going_on (handle_event env deps world no_set first interrupted).0 in
    handle_event env deps world no_set again c ≡ (c, ok tt)
handle_event-again_example =
    handle_event-again env deps going_on world world (envelope 6 700 Body.speech_started)
      (envelope 6 900 Body.audio_committed) interrupted refl

on_voice_completed_lem_example :
    let c = after answered in
    let (c', r) = on_voice_completed env deps 500 completed (canonical 104) c in
    (r ≡ ok tt)
    × (c'.fsm.state ≡ after_voice c.fsm.state)
    × IsWritten c.state.turn_seq (codes "Done.") c.buffer c'.buffer
    × (c'.state ≡ c.state)
    × (c'.output_events ≡ c.output_events)
    × (c'.turns ≡ c.turns)
on_voice_completed_lem_example =
    on_voice_completed_lem env deps 500 completed 104 (after answered) answered_state.4

run-IsWithin_example : IsWithin (run env deps answered (new deps 10 8000)).buffer
run-IsWithin_example = run-IsWithin env deps answered 10 8000
