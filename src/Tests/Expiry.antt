-- ===== src/Tests/Expiry.antt =====
-- A concrete Redis: a value and a deadline for each key.
use event_driven_ai_voice.Prelude.{
  ℕ, Bool, Option, Text, [], arith, codes, false, if◌then◌else◌, is_some, ltb, none, refl, some,
  text_eq, true, ◌+◌, ◌∷◌, ◌≡◌,
}
use event_driven_ai_voice.Types.{Uuid}
use event_driven_ai_voice.Coordinator.{Body, dispatch}
use event_driven_ai_voice.Coordinator.Monad.{ok}
use event_driven_ai_voice.Redis.{Redis, Ttl}
use event_driven_ai_voice.Redis.TtlSet
use event_driven_ai_voice.Redis.Seen.{handle, handle-again}
use event_driven_ai_voice.Tests.Calls.{after, deps, env, envelope, world}

abbrev Db : Type 0
Db = Text → Option (Text × ℕ)

abbrev live : ℕ → Option (Text × ℕ) → Option Text
live now none = none
live now (some (value, deadline)) = if ltb now deadline then some value else none

abbrev written : Text → Option (Text × ℕ) → Db → Db
written k cell db = λ other. if text_eq k other then cell else db other

live_if :
    (c : Bool) (now : ℕ) (a b : Option (Text × ℕ))
    → live now (if c then a else b) ≡ (if c then live now a else live now b)
live_if true now a b = refl
live_if false now a b = refl

abbrev redis : Redis Db
redis = record {
  get = λ k now db. live now (db k);
  set = λ k value ttl now db. written k (some (value, now + ttl)) db;
  set_nx = λ k value ttl now db.
      if is_some (live now (db k))
      then (db, false)
      else (written k (some (value, now + ttl)) db, true);
  delete = λ k db. written k none db;
  get-set = λ k other value ttl now later db before.
      live_if (text_eq k other) later (some (value, now + ttl)) (db other);
  get-delete = λ k other later db. live_if (text_eq k other) later none (db other);
  set_nx_lem = λ k value ttl now db. refl;
}

abbrev seen : Ttl
seen = record { prefix = codes "seen"; ttl = 300 }

abbrev show : Uuid → Text
show id = id ∷ []

abbrev empty : Db
empty k = none

handle-again_example :
    let db' = (TtlSet.add redis seen (show 4) 10 empty).0 in
    let c = after [] in
    (handle redis show seen env deps world 200 (envelope 4 200 Body.speech_started) db' c
      ≡ (db', c, ok tt))
    × ((handle redis show seen env deps world 310 (envelope 4 200 Body.speech_started) db' c).1
        ≡ (dispatch env deps world 200 Body.speech_started c).0)
unfolding TtlSet.add empty
handle-again_example =
    handle-again redis show seen env deps world 10 200 310 (envelope 4 200 Body.speech_started)
      empty (after []) (omega arith) (omega arith) (omega arith) refl
