-- ===== src/Coordinator/Coherence/Dispatch.antt =====
-- Coherence through every event of the coordinator (coordinator.py), and when a handler raises.
use event_driven_ai_voice.Coordinator.Coherence.Committed.{
  IsRequested, IsRouting, IsRequested-from, turn-IsRouting,
}
use event_driven_ai_voice.Coordinator.Output.{send_debug_io}
use event_driven_ai_voice.Coordinator.Monad.{
  Coordinator, Deps, Env, bind_ok, ok, audio_committed, nothing, pure,
}
use event_driven_ai_voice.Prelude.{
  ℕ, List, [], ap, arith, none, refl, some, sym, true, ◌++◌, ◌∙◌, ◌∷◌, ◌≡◌, ◌+◌,
}
use event_driven_ai_voice.Types.{
  HumanTurnFinalized, TurnEvent, Uuid, turn_cancelled, turn_finalized, turn_started,
}
use event_driven_ai_voice.Turns.{open_turn_id, handle_audio_committed, drain_events, TurnManager}
use event_driven_ai_voice.Coordinator.Committed.{
  on_turn_events, on_audio_committed, drain_turns, on_turn_event,
}
use event_driven_ai_voice.Coordinator.Coherence.{IsCoherent, no_finalized}

abbrev pub finalized_event : Uuid → ℕ → TurnManager → HumanTurnFinalized
finalized_event turn ts m = record { call_id = m.call_id; turn_id = turn; text = []; ts = ts }

handle_closed : (ts : ℕ) (m : TurnManager) → open_turn_id m ≡ none → handle_audio_committed ts m ≡ m
unfolding handle_audio_committed
handle_closed ts m h = rw (h, handle_audio_committed)

handle_opened :
    (ts : ℕ) (m : TurnManager) {turn : Uuid}
    → open_turn_id m ≡ some turn
    → (handle_audio_committed ts m).pending_events
      ≡ m.pending_events ++ turn_finalized (finalized_event turn ts m) ∷ []
unfolding handle_audio_committed
handle_opened ts m h = rw (h, handle_audio_committed)

module _ (env : Env) (deps : Deps) (ts : ℕ) where
  quiet_events :
      (es : List TurnEvent) (c : Coordinator)
      → no_finalized es ≡ true
      → on_turn_events env deps ts es c ≡ (c, ok tt)
  unfolding on_turn_events on_turn_event
  quiet_events [] c h = refl
  quiet_events (turn_started e ∷ es) c h = quiet_events es c h
  quiet_events (turn_finalized e ∷ es) c h = cc
  quiet_events (turn_cancelled e ∷ es) c h = quiet_events es c h

  last_event :
      (es : List TurnEvent) (e : HumanTurnFinalized) (c : Coordinator)
      → no_finalized es ≡ true
      → (on_turn_event env deps ts (turn_finalized e) c).1 ≡ ok tt
      → on_turn_events env deps ts (es ++ turn_finalized e ∷ []) c
        ≡ on_turn_event env deps ts (turn_finalized e) c
  unfolding on_turn_events on_turn_event
  last_event [] e c h r =
      bind_ok (on_turn_event env deps ts (turn_finalized e)) (λ _. pure tt) c r
      ∙ ap (λ k. ((on_turn_event env deps ts (turn_finalized e) c).0, k)) (sym r)
  last_event (turn_started d ∷ es) e c h r = last_event es e c h r
  last_event (turn_finalized d ∷ es) e c h r = cc
  last_event (turn_cancelled d ∷ es) e c h r = last_event es e c h r

  -- The state in which the drained events are handled.
  abbrev pub after_drain : Coordinator → Coordinator
  after_drain c = record c {
    state = record (c.state) { turn_audio_committed_ms = ts };
    io = send_debug_io env audio_committed nothing c.io;
    turns = (drain_events (handle_audio_committed ts c.turns)).0;
  }

  pub drain-IsCoherent : (c : Coordinator) → IsCoherent c → IsCoherent (after_drain c)
  unfolding drain_events
  drain-IsCoherent c h = ground arith

  audio_committed_lem :
      (c : Coordinator)
      → on_audio_committed env deps ts c
        ≡ on_turn_events env deps ts
            (handle_audio_committed ts c.turns).pending_events
            (after_drain c)
  unfolding on_audio_committed drain_turns drain_events
  audio_committed_lem c = refl

  -- In a coherent state with no turn open, the end of the audio only sets its time, tells the debug
  -- timeline and empties the turn manager's events; no generation starts and nothing is output.
  pub audio_quiet :
      (c : Coordinator)
      → IsCoherent c
      → open_turn_id c.turns ≡ none
      → on_audio_committed env deps ts c ≡ (after_drain c, ok tt)
  audio_quiet c h closed =
      audio_committed_lem c
      ∙ quiet_events (handle_audio_committed ts c.turns).pending_events (after_drain c)
          (ap (λ m. no_finalized m.pending_events) (handle_closed ts c.turns closed) ∙ h.drained)

  -- In a coherent state with a turn open, the end of the audio returns with some generation active
  -- that the machine holds and is routing; the turn becomes the active one, the turns are counted
  -- up by one, and the one new output event starts the active voice for that generation with the
  -- prompt made from the conversation.
  pub audio_turn :
      (c : Coordinator) (turn : Uuid)
      → IsCoherent c
      → open_turn_id c.turns ≡ some turn
      → (gen : Uuid) × IsRouting gen (on_audio_committed env deps ts c).0
        × ((on_audio_committed env deps ts c).1 ≡ ok tt)
        × ((on_audio_committed env deps ts c).0.state.turn_seq ≡ c.state.turn_seq + 1)
        × ((on_audio_committed env deps ts c).0.state.active_turn_id ≡ some turn)
        × IsRequested deps ts gen c (on_audio_committed env deps ts c).0
  audio_turn c turn h opened =
      let e = finalized_event turn ts c.turns in
      let c₁ = after_drain c in
      let (gen, routing_gen, r, seq, turn₁, req) =
        turn-IsRouting env deps ts e c₁ (drain-IsCoherent c h) in
      let whole : on_audio_committed env deps ts c
          ≡ on_turn_event env deps ts (turn_finalized e) c₁ =
        audio_committed_lem c
        ∙ ap (λ es. on_turn_events env deps ts es c₁) (handle_opened ts c.turns opened)
        ∙ last_event c.turns.pending_events e c₁ h.drained r in
      rw whole (gen, routing_gen, r, seq, turn₁, IsRequested-from deps ts gen refl req)
