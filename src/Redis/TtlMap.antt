-- ===== src/Redis/TtlMap.antt =====
-- `TTLMap` of backend/src/infrastructure/redis_client.py: a map whose values expire.
use event_driven_ai_voice.Prelude.{
  Option, Text, if◌then◌else◌, ltb, none, some, text_eq, ℕ, ◌+◌, ◌≡◌, ◌≤◌,
}
use event_driven_ai_voice.Redis.{Redis, Ttl, key, key-text_eq}

module _ {Db : Type 0} (redis : Redis Db) where
  unfoldable pub get : Ttl → Text → ℕ → Db → Option Text
  get s k now db = redis.get (key s k) now db

  unfoldable pub set : Ttl → Text → Text → ℕ → Db → Db
  set s k value now db = redis.set (key s k) value s.ttl now db

  unfoldable pub delete : Ttl → Text → Db → Db
  delete s k db = redis.delete (key s k) db

  -- A value that is set is read up to its deadline and not after it, and no other key is touched.
  pub get-set :
      (s : Ttl) (k other value : Text) (now later : ℕ) (db : Db)
      → now ≤ later
      → get s other later (set s k value now db) ≡ (
          if text_eq k other
          then (if ltb later (now + s.ttl) then some value else none)
          else get s other later db)
  unfolding get set
  get-set s k other value now later db before =
      rw⁻¹ (key-text_eq s k other)
        (redis.get-set (key s k) (key s other) value s.ttl now later db before)

  -- A deleted key has no value, and no other key is touched.
  get-delete :
      (s : Ttl) (k other : Text) (later : ℕ) (db : Db)
      → get s other later (delete s k db) ≡ (if text_eq k other then none else get s other later db)
  unfolding get delete
  get-delete s k other later db =
      rw⁻¹ (key-text_eq s k other) (redis.get-delete (key s k) (key s other) later db)
