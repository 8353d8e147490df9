-- ===== src/Coordinator/Monad.antt =====
-- The state of the coordinator (backend/src/voice_runtime/coordinator.py), and code over it that
-- may raise. What a handler has changed before it raises stays changed.
use event_driven_ai_voice.Prelude.{ℕ, Bool, List, Option, Text, false, true, ℤ, ◌≡◌}
use event_driven_ai_voice.Types.{Uuid, OutputEvent, AgentState}
use event_driven_ai_voice.Entities.{Write}
use event_driven_ai_voice.Runtime.{CoordinatorRuntimeState}
use event_driven_ai_voice.Fsm.{AgentFsm, Outcome, changed, invalid_transition}
use event_driven_ai_voice.Fsm.Table.{Trigger}
use event_driven_ai_voice.Turns.{TurnManager}
use event_driven_ai_voice.Buffer.{ConversationBuffer}
use event_driven_ai_voice.Router.{RouterPromptBuilder}

-- The stages of the debug timeline; a client may name any other.
pub data Stage : Type 0 where
  speech_start speech_stop barge_in audio_committed prompt_sent route_result : Stage
  fill_silence specialist_sent specialist_ready generation_start generation_finish : Stage
  specialist_processing model_processing audio_playback_start audio_playback_end : Stage
  other_stage : Text → Stage

pub data RouteType : Type 0 where
  direct delegate : RouteType

-- The keyword arguments of `_send_debug`.
pub data Extra : Type 0 where
  nothing : Extra
  route : Text → RouteType → Extra
  send_to_created_ms : ℤ → Extra
  created_to_done_ms : ℤ → Extra

pub record DebugEvent : Type 0 where
  pub turn_id : Option Uuid
  pub stage : Stage
  pub delta_ms : ℤ
  pub total_ms : ℤ
  pub ts : ℕ
  pub extra : Extra

-- What the debug callback is given.
pub data DebugMessage : Type 0 where
  debug_event : DebugEvent → DebugMessage
  turn_update : Uuid → DebugMessage
  fsm_state : AgentState → Uuid → DebugMessage
  transcript : Option Uuid → Text → DebugMessage

-- Effects that no handler reads back: messages to the debug callback, calls of the repositories,
-- and the two counters of infrastructure/telemetry.py.
pub data Effect : Type 0 where
  debug_message : DebugMessage → Effect
  write : Write → Effect
  barge_in_total filler_emitted_total : Effect

pub record Debug : Type 0 where
  pub has_callback : Bool
  pub enabled : Bool
  pub turn_id : Option Uuid
  pub turn_start_ms : ℕ
  pub last_stage_ms : ℕ
  pub route_result_emitted : Bool
  pub audio_playback_end_received : Bool

-- How many ids and clock readings have been drawn, and the effects so far.
pub record Io : Type 0 where
  pub drawn : ℕ
  pub readings : ℕ
  pub effects : List Effect
  pub debug : Debug

-- `_filler_task`: none, asleep before it stops the filler, or done.
pub data FillerTask : Type 0 where
  no_task : FillerTask
  sleeping : Uuid → ℕ → FillerTask
  finished : FillerTask

pub record Coordinator : Type 0 where
  pub state : CoordinatorRuntimeState
  pub fsm : AgentFsm
  pub turns : TurnManager
  pub buffer : ConversationBuffer
  pub filler : FillerTask
  pub seen_ids_fallback : List Uuid
  pub output_events : List OutputEvent
  pub io : Io

-- The ids of `uuid4()` and the readings of the clock, in the order of the calls.
pub record Env : Type 0 where
  pub uuid4 : ℕ → Uuid
  pub now_ms : ℕ → ℕ

-- What the constructor is given and never changed.
pub record Deps : Type 0 where
  pub call_id : Uuid
  pub router_prompt_builder : Option RouterPromptBuilder
  pub has_turn_repo : Bool
  pub has_agent_gen_repo : Bool
  pub has_voice_gen_repo : Bool

pub data Error : Type 0 where
  bad_transition : AgentState → Trigger → Error
  index_error : Error
  value_error : Error

pub data Result (A : Type 0) : Type 0 where
  ok : A → Result A
  raised : Error → Result A

abbrev pub M : Type 0 → Type 0
M A = Coordinator → Coordinator × Result A

infixl 5 ◌>>=◌ ◌>>◌
abbrev pub ◌>>=◌ : {A B : Type 0} → M A → (A → M B) → M B
◌>>=◌ m f c = let (c', r) = m c in elim r [ ok a ↦ f a c' | raised e ↦ (c', raised e) ]

abbrev pub ◌>>◌ : {B : Type 0} → M (Unit {0}) → M B → M B
m >> k = m >>= λ _. k

abbrev pub pure : {A : Type 0} → A → M A
pure a c = (c, ok a)

abbrev pub raise : {A : Type 0} → Error → M A
raise e c = (c, raised e)

abbrev pub gets : {A : Type 0} → (Coordinator → A) → M A
gets f c = (c, ok (f c))

abbrev pub modify : (Coordinator → Coordinator) → M (Unit {0})
modify f c = (f c, ok tt)

abbrev pub modify_state : (CoordinatorRuntimeState → CoordinatorRuntimeState) → M (Unit {0})
modify_state f = modify λ c. record c { state = f c.state }

abbrev pub modify_io : (Io → Io) → M (Unit {0})
modify_io f = modify λ c. record c { io = f c.io }

abbrev pub modify_debug : (Debug → Debug) → M (Unit {0})
modify_debug f = modify_io λ io. record io { debug = f io.debug }

-- `if b: m`
abbrev pub when : Bool → M (Unit {0}) → M (Unit {0})
when true m = m
when false m = pure tt

-- A call of the agent machine, whose `ValueError` goes up.
abbrev pub fsm_call : (AgentFsm → AgentFsm × Outcome) → M (Unit {0})
fsm_call f c =
    let (m, o) = f c.fsm in
    let c' = record c { fsm = m } in
    elim o [ changed _ ↦ (c', ok tt) | invalid_transition s e ↦ (c', raised (bad_transition s e)) ]

-- A step that returns goes on with the rest.
pub bind_ok :
    {A B : Type 0} (m : M A) (f : A → M B) (c : Coordinator) {a : A}
    → (m c).1 ≡ ok a
    → (m >>= f) c ≡ f a (m c).0
bind_ok m f c h = rw (h, ◌>>=◌)
