-- ===== src/Coordinator/Coherence.antt =====
-- Between two events the coordinator (coordinator.py) and the agent machine agree on the generation
-- under way.
pub mod Committed
pub mod Keeps
pub mod Voices
pub mod Action
pub mod Specialist
pub mod Dispatch
pub mod Events
use event_driven_ai_voice.Coordinator.Output.{cancel_filler}
use event_driven_ai_voice.Turns.{TurnManager, handle_speech_started}
use event_driven_ai_voice.Prelude.{
  ℕ, Bool, List, Option, [], arith, false, none, some, true, ◌<◌, ◌∷◌, ◌≡◌, ◌++◌,
}
use event_driven_ai_voice.Types.{
  Uuid, AgentState, idle, routing, done, TurnEvent, turn_finalized, turn_cancelled, turn_started,
}
use event_driven_ai_voice.Fsm.{cancel, reset}
use event_driven_ai_voice.Coordinator.Monad.{Coordinator, Deps, Env, FillerTask, ok, sleeping}
use event_driven_ai_voice.Coordinator.Speech.{on_speech_started}

-- The machine's state for an active generation, or for none: `waiting_tools`, `cancelled` and
-- `error` are never seen between two events.
abbrev pub matches_state : Option Uuid → AgentState → Bool
matches_state none idle = true
matches_state (some gen) routing = true
matches_state (some gen) AgentState.speaking = true
matches_state (some gen) done = true
matches_state _ _ = false

abbrev pub is_sleeping : FillerTask → Bool
is_sleeping (sleeping voice ts) = true
is_sleeping _ = false

abbrev pub no_finalized : List TurnEvent → Bool
no_finalized [] = true
no_finalized (turn_finalized e ∷ es) = false
no_finalized (e ∷ es) = no_finalized es

-- What holds between two events: the machine's state matches the active generation, the machine
-- holds that generation, no filler timer is asleep, no finalized turn waits in the turn manager, and
-- the conversation may hold a turn.
pub record IsCoherent (c : Coordinator) : Type 0 where
  pub matching : matches_state c.state.active_agent_generation_id c.fsm.state ≡ true
  pub owner : c.fsm.current_generation_id ≡ c.state.active_agent_generation_id
  pub awake : is_sleeping c.filler ≡ false
  pub drained : no_finalized c.turns.pending_events ≡ true
  pub room : 0 < c.buffer.max_turns

no_finalized-append :
    (es fs : List TurnEvent)
    → no_finalized es ≡ true
    → no_finalized fs ≡ true
    → no_finalized (es ++ fs) ≡ true
no_finalized-append [] fs h k = k
no_finalized-append (turn_started e ∷ es) fs h k = no_finalized-append es fs h k
no_finalized-append (turn_finalized e ∷ es) fs h k = cc
no_finalized-append (turn_cancelled e ∷ es) fs h k = no_finalized-append es fs h k

speech-drained :
    (turn : Uuid) (ts : ℕ) (m : TurnManager)
    → no_finalized m.pending_events ≡ true
    → no_finalized (handle_speech_started turn ts m).pending_events ≡ true
unfolding handle_speech_started
speech-drained turn ts m h = grind (arith, no_finalized-append)

pub speech-IsCoherent :
    (env : Env) (deps : Deps) (ts : ℕ) (c : Coordinator)
    → IsCoherent c
    → IsCoherent (on_speech_started env deps ts c).0 × ((on_speech_started env deps ts c).1 ≡ ok tt)
unfolding on_speech_started cancel reset cancel_filler
speech-IsCoherent env deps ts c h = grind (arith, speech-drained)
