-- ===== src/Coordinator/BargeIn.antt =====
-- A caller who speaks over the agent (`_on_speech_started` of coordinator.py).
use event_driven_ai_voice.Prelude.{
  ℕ, List, [], arith, contains-add_self, none, some, true, ◌++◌, ◌∷◌, ◌≡◌,
}
use mathlib.Core.List.{append_assoc}
use event_driven_ai_voice.Types.{Uuid, OutputEvent, CancelReason, cancel_agent, idle, voice_cancel}
use event_driven_ai_voice.Runtime.{is_generation_cancelled, is_voice_cancelled}
use event_driven_ai_voice.Fsm.{cancel, reset}
use event_driven_ai_voice.Coordinator.Monad.{Coordinator, Deps, Env, ok}
use event_driven_ai_voice.Coordinator.Output.{cancel_filler}
use event_driven_ai_voice.Coordinator.Speech.{on_speech_started}
use event_driven_ai_voice.Coordinator.Coherence.{IsCoherent}

-- The output of a barge-in: first the voice is silenced, then the model is stopped.
abbrev pub barge_in_events : Deps → ℕ → Uuid → Uuid → List OutputEvent
barge_in_events deps ts voice gen =
    voice_cancel (record {
      call_id = deps.call_id;
      voice_generation_id = voice;
      reason = CancelReason.barge_in;
      ts = ts;
    })
    ∷ cancel_agent (record {
      call_id = deps.call_id;
      agent_generation_id = gen;
      reason = CancelReason.barge_in;
      ts = ts;
    })
    ∷ []

module _ (env : Env) (deps : Deps) (ts : ℕ) where
  -- In a coherent state with a voice and a generation active, the caller's speech appends exactly
  -- two output events, the cancellation of the voice and then that of the generation; afterwards
  -- neither is active, both are marked as cancelled, and the agent machine is idle.
  pub speech_cancels :
      (voice gen : Uuid) (c : Coordinator)
      → IsCoherent c
      → c.state.active_voice_generation_id ≡ some voice
      → c.state.active_agent_generation_id ≡ some gen
      → let (c', r) = on_speech_started env deps ts c in
        (r ≡ ok tt)
        × (c'.output_events ≡ c.output_events ++ barge_in_events deps ts voice gen)
        × (c'.state.active_voice_generation_id ≡ none)
        × (c'.state.active_agent_generation_id ≡ none)
        × (is_voice_cancelled voice c'.state ≡ true)
        × (is_generation_cancelled gen c'.state ≡ true)
        × (c'.fsm.state ≡ idle)
  unfolding on_speech_started cancel reset cancel_filler
  speech_cancels voice gen c h v g = grind (arith, contains-add_self, append_assoc)
