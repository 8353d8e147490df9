-- ===== src/Redis/Seen.antt =====
-- The shared set of seen events (infrastructure/redis_client.py) in the coordinator's detection of
-- duplicates (voice_runtime/coordinator.py).
use event_driven_ai_voice.Types.{Uuid}
use event_driven_ai_voice.Prelude.{Text, refl, true, ℕ, ◌+◌, ◌<◌, ◌≡◌, ◌≤◌}
use event_driven_ai_voice.Coordinator.Output.{SeenAnswer, is_duplicate}
use event_driven_ai_voice.Coordinator.{EventEnvelope, handle_event}
use event_driven_ai_voice.Redis.{Redis, Ttl}
use event_driven_ai_voice.Redis.TtlSet
use event_driven_ai_voice.Coordinator.{dispatch}
use event_driven_ai_voice.Redis.TtlSet.{add-contains, add-expired}
use event_driven_ai_voice.Coordinator.Action.{World}
use event_driven_ai_voice.Coordinator.Monad.{Coordinator, Deps, Env, Result, ok}

module _ {Db : Type 0} (redis : Redis Db) (show : Uuid → Text) (seen : Ttl) where
  -- An envelope at a time: `_seen_events.add(str(event_id))`, and the rest of `handle_event`.
  unfoldable pub handle :
      Env
      → Deps
      → World
      → ℕ
      → EventEnvelope
      → Db
      → Coordinator
      → Db × Coordinator × Result (Unit {0})
  unfolding handle_event
  handle env deps world now envelope db c =
      let (db', fresh) = TtlSet.add redis seen (show envelope.event_id) now db in
      let (c', r) = handle_event env deps world (SeenAnswer.is_new fresh) envelope c in (db', c', r)

  -- With the shared set, an envelope whose id was added as a new one is taken for a duplicate up to the
  -- deadline: it changes neither the set nor the coordinator and raises nothing, whatever it says and
  -- whatever state the coordinator is in. From the deadline on, an envelope with the id is handled
  -- again, as a new one.
  pub handle-again :
      (env : Env) (deps : Deps) (world : World) (now within after : ℕ) (envelope : EventEnvelope)
      (db : Db) (c : Coordinator)
      → now ≤ within
      → within < now + seen.ttl
      → now + seen.ttl ≤ after
      → (TtlSet.add redis seen (show envelope.event_id) now db).1 ≡ true
      → let db' = (TtlSet.add redis seen (show envelope.event_id) now db).0 in
        (handle env deps world within envelope db' c ≡ (db', c, ok tt))
        × ((handle env deps world after envelope db' c).1
            ≡ (dispatch env deps world envelope.ts envelope.body c).0)
  unfolding handle is_duplicate
  handle-again env deps world now within after envelope db c before early late fresh =
      let id = show envelope.event_id in
      let again = (add-contains redis seen id now within db before early fresh).1 in
      let expired = (add-expired redis seen id now after db late fresh).1 in
      (rw again refl, rw expired refl)
