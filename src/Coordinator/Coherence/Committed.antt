-- ===== src/Coordinator/Coherence/Committed.antt =====
-- The end of a turn (`_on_audio_committed` of coordinator.py) asks the model for one response.
use event_driven_ai_voice.Buffer.Limits.{append_lem}
use event_driven_ai_voice.Types.{Uuid, idle, routing, HumanTurnFinalized, turn_finalized}
use event_driven_ai_voice.Coordinator.Monad.{Coordinator, Deps, Env, ok, bind_ok, ◌>>=◌}
use event_driven_ai_voice.Buffer.{
  ConversationBuffer, blank_entry, append, appended, format_messages,
}
use event_driven_ai_voice.Prelude.{
  ℕ, arith, false, inl, inr, none, refl, some, true, ◌+◌, ◌<◌, ◌≡◌, [], ◌++◌, ◌∷◌, ◌∙◌, ap,
}
use event_driven_ai_voice.Coordinator.Committed.{
  replace_generation, open_generation, on_turn_event, request_response, start_event,
}
use event_driven_ai_voice.Fsm.{cancel, reset, start_routing}
use event_driven_ai_voice.Coordinator.Coherence.{IsCoherent, no_finalized, is_sleeping}

-- No generation is under way.
pub record IsIdle (c : Coordinator) : Type 0 where
  pub inactive : c.state.active_agent_generation_id ≡ none
  pub machine : c.fsm.state ≡ idle
  pub awake : is_sleeping c.filler ≡ false
  pub drained : no_finalized c.turns.pending_events ≡ true
  pub room : 0 < c.buffer.max_turns

-- The given generation is being routed.
pub record IsRouting (gen : Uuid) (c : Coordinator) : Type 0 where
  pub active : c.state.active_agent_generation_id ≡ some gen
  pub machine : c.fsm.state ≡ routing
  pub owner : c.fsm.current_generation_id ≡ some gen
  pub awake : is_sleeping c.filler ≡ false
  pub drained : no_finalized c.turns.pending_events ≡ true
  pub room : 0 < c.buffer.max_turns

-- One more output event: the start of the active voice for the generation, with the prompt made
-- from the conversation.
pub record IsRequested (deps : Deps) (ts : ℕ) (gen : Uuid) (c c' : Coordinator) : Type 0 where
  pub voice : Uuid
  pub speaking : c'.state.active_voice_generation_id ≡ some voice
  pub asked :
      c'.output_events
      ≡ c.output_events ++ start_event deps ts gen voice (format_messages c'.buffer) ∷ []

pub IsRequested-from :
    (deps : Deps) (ts : ℕ) (gen : Uuid) {c d c' : Coordinator}
    → c.output_events ≡ d.output_events
    → IsRequested deps ts gen c c'
    → IsRequested deps ts gen d c'
IsRequested-from deps ts gen {c' = c'} e r = record {
  voice = r.voice;
  speaking = r.speaking;
  asked =
      r.asked
      ∙ ap (λ events. events ++ start_event deps ts gen r.voice (format_messages c'.buffer) ∷ []) e;
}

append_ok :
    (seq : ℕ) (b : ConversationBuffer)
    → 0 < b.max_turns
    → (b' : ConversationBuffer) × (append (blank_entry seq) b ≡ appended b')
      × (b'.max_turns ≡ b.max_turns)
append_ok seq b room = elim (append_lem (blank_entry seq) b) [
  | inl (_, kept, _) ↦ (_, kept, refl)
  | inr (z, _) ↦ absurd (omega arith)
]

module _ (env : Env) (deps : Deps) (ts : ℕ) where
  replace-IsIdle :
      (c : Coordinator)
      → IsCoherent c
      → let (c', r) = replace_generation env deps ts c.state.active_agent_generation_id c in
        IsIdle c'
        × (r ≡ ok tt)
        × (c'.state.turn_seq ≡ c.state.turn_seq)
        × (c'.output_events ≡ c.output_events)
  unfolding replace_generation cancel reset
  replace-IsIdle c h = ground arith

  open-IsRouting :
      (turn : Uuid) (c : Coordinator)
      → IsIdle c
      → let (c', r) = open_generation env deps ts turn c in
        let gen = env.uuid4 c.io.drawn in
        IsRouting gen c'
        × (r ≡ ok gen)
        × (c'.state.turn_seq ≡ c.state.turn_seq + 1)
        × (c'.state.active_turn_id ≡ some turn)
        × (c'.output_events ≡ c.output_events)
  unfolding open_generation start_routing append
  open-IsRouting turn c h =
      let (b, made, kept) = append_ok (c.state.turn_seq + 1) c.buffer h.room in
      rw (made, open_generation) (ground arith)

  request-IsRouting :
      (turn gen : Uuid) (c : Coordinator)
      → IsRouting gen c
      → let (c', r) = request_response env deps ts turn gen c in
        IsRouting gen c'
        × (r ≡ ok tt)
        × (c'.state.turn_seq ≡ c.state.turn_seq)
        × (c'.state.active_turn_id ≡ c.state.active_turn_id)
        × IsRequested deps ts gen c c'
  unfolding request_response
  request-IsRouting turn gen c h =
      (ground arith, refl, refl, refl, record { voice = _; speaking = refl; asked = refl })

  -- What a finalized turn does to a coherent coordinator.
  pub turn-IsRouting :
      (e : HumanTurnFinalized) (c : Coordinator)
      → IsCoherent c
      → let (c', r) = on_turn_event env deps ts (turn_finalized e) c in
        (gen : Uuid) × IsRouting gen c'
        × (r ≡ ok tt)
        × (c'.state.turn_seq ≡ c.state.turn_seq + 1)
        × (c'.state.active_turn_id ≡ some e.turn_id)
        × IsRequested deps ts gen c c'
  unfolding on_turn_event
  turn-IsRouting e c h =
      let (i, r₁, seq₁, out₁) = replace-IsIdle c h in
      let c₁ = (replace_generation env deps ts c.state.active_agent_generation_id c).0 in
      let (g, r₂, seq₂, turn₂, out₂) = open-IsRouting e.turn_id c₁ i in
      let c₂ = (open_generation env deps ts e.turn_id c₁).0 in
      let gen = env.uuid4 c₁.io.drawn in
      let (g', r₃, seq₃, turn₃, req) = request-IsRouting e.turn_id gen c₂ g in
      let whole : on_turn_event env deps ts (turn_finalized e) c
          ≡ request_response env deps ts e.turn_id gen c₂ =
        bind_ok (replace_generation env deps ts c.state.active_agent_generation_id)
          (λ _. open_generation env deps ts e.turn_id >>= request_response env deps ts e.turn_id) c
          r₁
        ∙ bind_ok (open_generation env deps ts e.turn_id) (request_response env deps ts e.turn_id)
            c₁ r₂ in
      rw whole
        (gen, g', r₃, omega arith, turn₃ ∙ turn₂, IsRequested-from deps ts gen (out₂ ∙ out₁) req)
