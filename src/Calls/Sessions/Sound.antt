-- ===== src/Calls/Sessions/Sound.antt =====
-- What holds of the sessions in memory (api/routes/calls.py) whatever requests are served.
use event_driven_ai_voice.Coordinator.Output.{set_debug_callback}
use event_driven_ai_voice.Coordinator.Unwired.{written_by, writes}
use event_driven_ai_voice.Coordinator.Unwired.Runs.{run-Silent}
use event_driven_ai_voice.Coordinator
use event_driven_ai_voice.Calls.{happen}
use event_driven_ai_voice.Calls.Sessions.{
  serve, create, delete, find, assign, at_session, remove, HttpResult, delete_got, http_exception,
  reply,
}
use event_driven_ai_voice.Coordinator.History.Runs.{run-IsWithin, run_from-IsWithin}
use event_driven_ai_voice.Coordinator.Coherence.Events.{run-IsCoherent, run_from-IsCoherent}
use event_driven_ai_voice.Calls.Parts.{happen-IsComposed}
use event_driven_ai_voice.Types.{Uuid}
use event_driven_ai_voice.Router.{RouterPromptBuilder}
use event_driven_ai_voice.Calls.Sessions.{
  Request, Sessions, Settings, create_call, delete_call, get_session, on_session, serve_all,
}
use event_driven_ai_voice.Router.Action.{Loaded}
use event_driven_ai_voice.Buffer.Updates.{IsWithin}
use event_driven_ai_voice.Coordinator.Coherence.{IsCoherent}
use event_driven_ai_voice.Coordinator.{Input}
use event_driven_ai_voice.Coordinator.Monad.{Env}
use event_driven_ai_voice.Calls.{CallSessionEntry, Happening, call_deps, deps_of, new_entry}
use event_driven_ai_voice.Prelude.{
  Bool, List, Option, Text, [], arith, length, refl, true, ℕ, ◌<◌, ◌∙◌, ◌∷◌, ◌≡◌, ◌≤◌, none, some,
  Bool-cases, inl, inr, ◌==◌, ==_iff, false, if◌then◌else◌, leb, sym, ◌⊎◌, ap, Unicode,
}
use event_driven_ai_voice.Calls.Sessions.Lookup.{
  length-assign, length-remove, length-assign_known, find-assign, find-remove,
}

chosen :
    (c : Bool) {A : Type 0} {o rest : Option A} {a : A}
    → (if c then o else rest) ≡ some a
    → ((c ≡ true) × (o ≡ some a)) ⊎ (rest ≡ some a)
chosen true h = inl (refl, h)
chosen false h = inr h

module _ (env bridge_env : Env) (loads : Text → Loaded) (unicode : Unicode)
    (builder : Option RouterPromptBuilder) (settings : Settings) where
  abbrev served : List Request → Sessions → Sessions
  served = serve_all env bridge_env loads unicode builder settings

  session-bounded :
      (id : Uuid) (hp : Happening) (sessions : Sessions) (o : Option CallSessionEntry)
      → find id sessions ≡ o
      → length sessions ≤ settings.max_concurrent_calls
      → length (at_session env bridge_env loads unicode builder settings id hp sessions o)
        ≤ settings.max_concurrent_calls
  session-bounded id hp sessions none e h = h
  session-bounded id hp sessions (some entry) e h =
      rw
        (length-assign_known id (happen env bridge_env loads unicode builder hp entry) entry
          sessions e)
        h

  serve-bounded :
      (r : Request) (sessions : Sessions)
      → length sessions ≤ settings.max_concurrent_calls
      → length (serve env bridge_env loads unicode builder settings r sessions)
        ≤ settings.max_concurrent_calls
  unfolding serve create_call delete_call get_session
  serve-bounded (create id) sessions h =
      let entry = new_entry id builder settings.max_history_turns settings.max_history_chars in
      ground (arith, length-assign id entry sessions)
  serve-bounded (delete id) sessions h = ground (arith, length-remove id sessions)
  serve-bounded (on_session id hp) sessions h =
      session-bounded id hp sessions (find id sessions) refl h

  serve_all-bounded_from :
      (rs : List Request) (sessions : Sessions)
      → length sessions ≤ settings.max_concurrent_calls
      → length (served rs sessions) ≤ settings.max_concurrent_calls
  unfolding serve_all
  serve_all-bounded_from [] sessions h = h
  serve_all-bounded_from (r ∷ rs) sessions h =
      serve_all-bounded_from rs _ (serve-bounded r sessions h)

  -- Whatever requests are served from the start, no more sessions are in memory than the calls that the
  -- settings allow.
  pub serve_all-bounded :
      (rs : List Request) → length (served rs []) ≤ settings.max_concurrent_calls
  serve_all-bounded rs = serve_all-bounded_from rs [] (omega arith)

  -- A session is under its own id, and its coordinator is as a coordinator of its own is.
  pub record IsSound (id : Uuid) (s : CallSessionEntry) : Type 0 where
    pub own_id : s.call_id ≡ id
    pub coherent : IsCoherent s.coordinator
    pub within : IsWithin s.coordinator.buffer
    pub unwritten : written_by s.coordinator ≡ 0

  happen-IsSound :
      (h : Happening) (id : Uuid) (s : CallSessionEntry)
      → IsSound id s
      → IsSound id (happen env bridge_env loads unicode builder h s)
  happen-IsSound h id s sound =
      let k = happen-IsComposed env bridge_env loads unicode builder h s in
      record {
        own_id = k.id ∙ sound.own_id;
        coherent =
            rw k.actor
              (run_from-IsCoherent env (deps_of builder s) k.inputs s.coordinator sound.coherent);
        within =
            rw k.actor
              (run_from-IsWithin env (deps_of builder s) k.inputs s.coordinator sound.within);
        unwritten =
            ap written_by k.actor
            ∙ run-Silent env s.call_id builder k.inputs s.coordinator
            ∙ sound.unwritten;
      }

  new-unwritten :
      (id : Uuid) (max_turns max_chars : ℕ)
      → written_by (new_entry id builder max_turns max_chars).coordinator ≡ 0
  unfolding new_entry writes set_debug_callback Coordinator.new
  new-unwritten id max_turns max_chars = refl

  new-IsSound :
      (id : Uuid)
      → 0 < settings.max_history_turns
      → IsSound id (new_entry id builder settings.max_history_turns settings.max_history_chars)
  unfolding new_entry Coordinator.run Coordinator.step
  new-IsSound id room =
      let is = Input.debug_callback true ∷ [] in
      let turns = settings.max_history_turns in
      let chars = settings.max_history_chars in
      record {
        own_id = refl;
        coherent = run-IsCoherent env (call_deps id builder) is turns chars room;
        within = run-IsWithin env (call_deps id builder) is turns chars;
        unwritten = new-unwritten id turns chars;
      }

  -- Every session that a look-up meets is sound.
  abbrev AllSound : Sessions → Type 0
  AllSound sessions =
      (id : Uuid) (entry : CallSessionEntry) → find id sessions ≡ some entry → IsSound id entry

  assign-AllSound :
      (key : Uuid) (new_one : CallSessionEntry) (sessions : Sessions)
      → IsSound key new_one
      → AllSound sessions
      → AllSound (assign key new_one sessions)
  assign-AllSound key new_one sessions sound h id entry found =
      elim (chosen (key == id) (sym (find-assign id key new_one sessions) ∙ found)) [
        | inl (same, e) ↦
            (let k = (==_iff key id).0 same in
              let n : new_one ≡ entry = cc in rw (sym k, sym n) sound)
        | inr e ↦ h id entry e
      ]

  remove-AllSound :
      (key : Uuid) (sessions : Sessions) → AllSound sessions → AllSound (remove key sessions)
  remove-AllSound key sessions h id entry found =
      elim (chosen (key == id) (sym (find-remove id key sessions) ∙ found)) [
        | inl (same, e) ↦ cc
        | inr e ↦ h id entry e
      ]

  create-AllSound :
      (id : Uuid) (sessions : Sessions)
      → 0 < settings.max_history_turns
      → AllSound sessions
      → AllSound (create_call settings builder id sessions).0
  unfolding create_call
  create-AllSound id sessions room h =
      elim (Bool-cases (leb settings.max_concurrent_calls (length sessions))) [
        | inl full ↦ rw full h
        | inr free ↦ rw free (assign-AllSound id _ sessions (new-IsSound id room) h)
      ]

  delete-AllSound :
      (id : Uuid) (sessions : Sessions) (r : HttpResult CallSessionEntry)
      → AllSound sessions
      → AllSound (delete_got id sessions r).0
  delete-AllSound id sessions (http_exception status detail) h = h
  delete-AllSound id sessions (reply entry) h = remove-AllSound id sessions h

  session-AllSound :
      (id : Uuid) (hp : Happening) (sessions : Sessions) (o : Option CallSessionEntry)
      → find id sessions ≡ o
      → AllSound sessions
      → AllSound (at_session env bridge_env loads unicode builder settings id hp sessions o)
  session-AllSound id hp sessions none e h = h
  session-AllSound id hp sessions (some entry) e h =
      assign-AllSound id _ sessions (happen-IsSound hp id entry (h id entry e)) h

  serve-AllSound :
      (r : Request) (sessions : Sessions)
      → 0 < settings.max_history_turns
      → AllSound sessions
      → AllSound (serve env bridge_env loads unicode builder settings r sessions)
  unfolding serve delete_call
  serve-AllSound (create id) sessions room h = create-AllSound id sessions room h
  serve-AllSound (delete id) sessions room h =
      delete-AllSound id sessions (get_session id sessions) h
  serve-AllSound (on_session id hp) sessions room h =
      session-AllSound id hp sessions (find id sessions) refl h

  serve_all-AllSound :
      (rs : List Request) (sessions : Sessions)
      → 0 < settings.max_history_turns
      → AllSound sessions
      → AllSound (served rs sessions)
  unfolding serve_all
  serve_all-AllSound [] sessions room h = h
  serve_all-AllSound (r ∷ rs) sessions room h =
      serve_all-AllSound rs _ room (serve-AllSound r sessions room h)

  -- Whatever requests are served from the start, a session that is then found in memory under an id has
  -- this id, its coordinator is coherent and its history is within its limits, if the settings allow a
  -- history of one turn. Such a session has never called a repository: no turn, generation or voice of a
  -- call is written.
  pub serve_all-IsSound :
      (rs : List Request) (id : Uuid) (entry : CallSessionEntry)
      → 0 < settings.max_history_turns
      → find id (served rs []) ≡ some entry
      → IsSound id entry
  unfolding find
  serve_all-IsSound rs id entry room found =
      serve_all-AllSound rs [] room (λ key e none_there. cc) id entry found
