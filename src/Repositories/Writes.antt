-- ===== src/Repositories/Writes.antt =====
-- What the coordinator's writes (voice_runtime/coordinator.py) do to the tables of the repositories.
use event_driven_ai_voice.Coordinator.Voice.{persist_voice}
use event_driven_ai_voice.Coordinator.Speech.{persist_cancelled}
use event_driven_ai_voice.Types.{TurnState, Uuid, AgentState, CancelReason, VoiceKind, VoiceState}
use event_driven_ai_voice.Prelude.{
  Option, Text, [], none, some, true, ℕ, ◌++◌, ◌∷◌, ◌≡◌, refl, arith, ◌+◌,
}
use event_driven_ai_voice.Repositories.Table.{Table, got}
use event_driven_ai_voice.Repositories.Turns
use event_driven_ai_voice.Repositories.Turns.{TurnRow}
use event_driven_ai_voice.Repositories.Generations
use event_driven_ai_voice.Repositories.Generations.{AgentGenerationRow}
use event_driven_ai_voice.Repositories.Voices
use event_driven_ai_voice.Repositories.Voices.{VoiceGenerationRow}
use event_driven_ai_voice.Entities.{
  Write, insert_generation, insert_turn, insert_voice, update_generation, update_turn, update_voice,
  Turn, AgentGeneration, VoiceGeneration,
}
use event_driven_ai_voice.Coordinator.Committed.{persist_transcript}
use event_driven_ai_voice.Coordinator.Monad.{Coordinator, Deps, Env, Io, write}

-- The three tables.
pub record Store (T G V : Type 0) : Type 0 where
  pub turns : T
  pub generations : G
  pub voices : V

-- `_persist_safe` logs and drops a failure.
abbrev pub or_unchanged : {Db : Type 0} → Db → Option Db → Db
or_unchanged db none = db
or_unchanged db (some db') = db'

-- The entities that the updates carry.
abbrev transcript_turn : Deps → ℕ → ℕ → Uuid → Text → Turn
transcript_turn deps ts seq turn text = record {
  turn_id = turn;
  call_id = deps.call_id;
  seq = seq;
  started_at = ts;
  state = TurnState.finalized;
  finalized_at = none;
  text_final = some text;
  language = none;
  cancel_reason = none;
  asr_confidence = none;
}

abbrev cancelled_generation : Deps → ℕ → Uuid → Uuid → CancelReason → AgentGeneration
cancelled_generation deps ts turn gen reason = record {
  agent_generation_id = gen;
  call_id = deps.call_id;
  turn_id = turn;
  created_at = ts;
  state = AgentState.cancelled;
  started_at = none;
  ended_at = some ts;
  route_a_label = none;
  route_a_confidence = none;
  policy_key = none;
  specialist = none;
  final_outcome = none;
  cancel_reason = some reason;
  error = none;
}

abbrev ended_voice : Deps → ℕ → Uuid → Uuid → Uuid → VoiceState → VoiceGeneration
ended_voice deps ts turn gen voice state = record {
  voice_generation_id = voice;
  call_id = deps.call_id;
  agent_generation_id = some gen;
  turn_id = turn;
  kind = VoiceKind.response;
  state = state;
  provider_voice_generation_id = none;
  started_at = none;
  ended_at = some ts;
  cancel_reason = none;
  error = none;
}

-- What the coordinator's updates make of the entities that were read before.
abbrev pub transcript_arrived : Text → Turn → Turn
transcript_arrived text old = record old {
  state = TurnState.finalized;
  finalized_at = none;
  text_final = some text;
  language = none;
  cancel_reason = none;
  asr_confidence = none;
}

abbrev pub generation_cancelled : ℕ → CancelReason → AgentGeneration → AgentGeneration
generation_cancelled ts reason old = record old {
  state = AgentState.cancelled;
  started_at = none;
  ended_at = some ts;
  route_a_label = none;
  route_a_confidence = none;
  policy_key = none;
  specialist = none;
  final_outcome = none;
  cancel_reason = some reason;
  error = none;
}

abbrev pub voice_ended : ℕ → VoiceState → VoiceGeneration → VoiceGeneration
voice_ended ts state old = record old {
  state = state;
  started_at = none;
  ended_at = some ts;
  cancel_reason = none;
  error = none;
}

-- What the write of a voice's end names as the generation or as the turn.
abbrev drawn_or : Env → ℕ → Option Uuid → Uuid
drawn_or env n none = env.uuid4 n
drawn_or env n (some id) = id

abbrev next_draw : ℕ → Option Uuid → ℕ
next_draw n none = n + 1
next_draw n (some id) = n

voice_write :
    (env : Env) (deps : Deps) (ts : ℕ) (voice : Uuid) (state : VoiceState) (c : Coordinator)
    → deps.has_voice_gen_repo ≡ true
    → let active_gen = c.state.active_agent_generation_id in
      let gen = drawn_or env c.io.drawn active_gen in
      let turn = drawn_or env (next_draw c.io.drawn active_gen) c.state.active_turn_id in
      (persist_voice env deps ts voice state none c).0.io.effects
      ≡ c.io.effects ++ write (update_voice (ended_voice deps ts turn gen voice state)) ∷ []
unfolding persist_voice
voice_write env deps ts voice state c repo = ground arith

module _ {T G V : Type 0} (turns : Table T TurnRow (λ row. row.turn_id))
    (generations : Table G AgentGenerationRow (λ row. row.agent_generation_id))
    (voices : Table V VoiceGenerationRow (λ row. row.voice_generation_id)) where
  unfoldable pub perform : Write → Store T G V → Store T G V
  perform (insert_turn t) s = record s {
    turns = or_unchanged s.turns (Turns.insert turns t s.turns);
  }
  perform (update_turn t) s = record s { turns = Turns.update turns t s.turns }
  perform (insert_generation g) s = record s {
    generations = or_unchanged s.generations (Generations.insert generations g s.generations);
  }
  perform (update_generation g) s = record s {
    generations = Generations.update generations g s.generations;
  }
  perform (insert_voice v) s = record s {
    voices = or_unchanged s.voices (Voices.insert voices v s.voices);
  }
  perform (update_voice v) s = record s { voices = Voices.update voices v s.voices }

  -- An update by the coordinator erases the times that its entity does not carry. After the update
  -- of a finalized turn by its transcript, the time at which it was finalized is gone; after the update
  -- of a cancelled generation, the time at which it started, like its route; and after the update of a
  -- voice, the time at which it started. The rest is what was read before and what the update carries.
  -- This holds where the repositories are configured and the three rows are there.
  pub updates_erase :
      (env : Env) (deps : Deps) (ts seq : ℕ) (turn gen voice : Uuid) (text : Text)
      (reason : CancelReason) (state : VoiceState) (io : Io) (c : Coordinator) (s : Store T G V)
      (old_turn : Turn) (old_gen : AgentGeneration) (old_voice : VoiceGeneration)
      → deps.has_turn_repo ≡ true
      → deps.has_agent_gen_repo ≡ true
      → deps.has_voice_gen_repo ≡ true
      → Turns.get_by_id turns turn s.turns ≡ got old_turn
      → Generations.get_by_id generations gen s.generations ≡ got old_gen
      → Voices.get_by_id voices voice s.voices ≡ got old_voice
      → ((w : Write) × ((persist_transcript env deps ts (some turn) seq text io).effects
            ≡ io.effects ++ write w ∷ [])
          × (Turns.get_by_id turns turn (perform w s).turns
              ≡ got (transcript_arrived text old_turn)))
        × ((w : Write) × ((persist_cancelled deps gen (some turn) reason ts io).effects
              ≡ io.effects ++ write w ∷ [])
            × (Generations.get_by_id generations gen (perform w s).generations
                ≡ got (generation_cancelled ts reason old_gen)))
        × ((w : Write) × ((persist_voice env deps ts voice state none c).0.io.effects
              ≡ c.io.effects ++ write w ∷ [])
            × (Voices.get_by_id voices voice (perform w s).voices
                ≡ got (voice_ended ts state old_voice)))
  unfolding perform persist_transcript persist_cancelled
  updates_erase env deps ts seq turn gen voice text reason state io c s old_turn old_gen old_voice
        turn_repo gen_repo voice_repo t g v =
      (
        (
          update_turn (transcript_turn deps ts seq turn text),
          rw turn_repo refl,
          Turns.get_by_id-update turns (transcript_turn deps ts seq turn text) old_turn s.turns t,
        ),
        (
          update_generation (cancelled_generation deps ts turn gen reason),
          rw gen_repo refl,
          Generations.get_by_id-update generations (cancelled_generation deps ts turn gen reason)
              old_gen s.generations g,
        ),
        (let active_gen = c.state.active_agent_generation_id in
            let gen = drawn_or env c.io.drawn active_gen in
            let turn = drawn_or env (next_draw c.io.drawn active_gen) c.state.active_turn_id in
            let e = voice_write env deps ts voice state c voice_repo in
            (
              update_voice (ended_voice deps ts turn gen voice state),
              e,
              Voices.get_by_id-update voices (ended_voice deps ts turn gen voice state) old_voice
                  s.voices v,
            )),
      )
