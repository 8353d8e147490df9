-- ===== src/Fsm/Paths.antt =====
-- The runs of the agent machine (agent_fsm.py) as a transition system.
use event_driven_ai_voice.Prelude.{ℕ, ◌+◌, ◌≤◌, ◌≡◌, ◌⊎◌, none, some, List, [], ◌∷◌, length, arith}
use event_driven_ai_voice.Types.{AgentState, idle, routing, speaking, waiting_tools, done}
use event_driven_ai_voice.Fsm.Table.{Trigger, transitions}
use event_driven_ai_voice.Fsm.{AgentFsm, changed, invalid_transition, state_changed, transition}

-- How far a generation has come: every transition moves on.
unfoldable pub stage : AgentState → ℕ
stage idle = 0
stage routing = 1
stage waiting_tools = 2
stage speaking = 3
stage done = 4
stage AgentState.cancelled = 4
stage AgentState.error = 4

-- A sequence of triggers, each accepted by the machine.
pub data Run : AgentState → List Trigger → AgentState → Type 0 where
  stop : {s : AgentState} → Run s [] s
  step :
      {s t u : AgentState} {e : Trigger} {es : List Trigger}
      → transitions s e ≡ some t
      → Run t es u
      → Run s (e ∷ es) u

transitions-stage :
    (s t : AgentState) (e : Trigger) → transitions s e ≡ some t → stage s + 1 ≤ stage t
unfolding transitions stage
transitions-stage s t e h = ground arith

-- A run of n triggers climbs at least n stages.
Run-stage : {s t : AgentState} {es : List Trigger} → Run s es t → stage s + length es ≤ stage t
Run-stage stop = omega arith
Run-stage (step {s} {t} {u} {e} h r) = omega (arith, transitions-stage s t e h, Run-stage r)

stage-le : (s : AgentState) → stage s ≤ 4
unfolding stage
stage-le s = ground arith

-- From any state, no sequence of triggers that the machine accepts one after the other is longer
-- than four.
pub Run-length : {s t : AgentState} {es : List Trigger} → Run s es t → length es ≤ 4
Run-length {s} {t} r = omega (arith, Run-stage r, stage-le t)

-- A transition that the table does not have is refused and leaves the machine unchanged; any other
-- moves the machine to the table's state, keeps the generation and the call, and returns the event
-- of the new state for that generation, or none where no generation is set.
transition_lem :
    (e : Trigger) (ts : ℕ) (m : AgentFsm)
    → (((transition e ts m).0 ≡ m)
        × ((transition e ts m).1 ≡ invalid_transition m.state e)
        × (transitions m.state e ≡ none))
      ⊎ ((transitions m.state e ≡ some (transition e ts m).0.state)
          × ((transition e ts m).0.current_generation_id ≡ m.current_generation_id)
          × ((transition e ts m).0.call_id ≡ m.call_id)
          × ((transition e ts m).1 ≡ changed (state_changed m (transition e ts m).0.state ts)))
unfolding transition
transition_lem e ts m = ground arith
