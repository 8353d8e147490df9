-- ===== src/Redis.antt =====
-- backend/src/infrastructure/redis_client.py: a set and a map whose members expire. Redis is a
-- parameter: values under keys, each up to a deadline.
pub mod TtlSet
pub mod TtlMap
pub mod Seen
use event_driven_ai_voice.Prelude.{
  ℕ, Bool, Option, Text, codes, if◌then◌else◌, ltb, none, some, text_eq, ◌++◌, ◌+◌, ◌≡◌, ◌≤◌, false,
  is_some, true, [], arith, refl, ◌∷◌,
}

-- What the code uses of Redis, at a time: GET, SET with EX, SET with NX and EX, which tells whether it
-- has set, and DEL. The laws are the documented ones.
pub record Redis (Db : Type 0) : Type 0 where
  pub get : Text → ℕ → Db → Option Text
  pub set : Text → Text → ℕ → ℕ → Db → Db
  pub set_nx : Text → Text → ℕ → ℕ → Db → Db × Bool
  pub delete : Text → Db → Db
  pub get-set :
      (key other value : Text) (ttl now later : ℕ) (db : Db)
      → now ≤ later
      → get other later (set key value ttl now db) ≡ (
          if text_eq key other
          then (if ltb later (now + ttl) then some value else none)
          else get other later db)
  pub get-delete :
      (key other : Text) (later : ℕ) (db : Db)
      → get other later (delete key db) ≡ (if text_eq key other then none else get other later db)
  pub set_nx_lem :
      (key value : Text) (ttl now : ℕ) (db : Db)
      → set_nx key value ttl now db
        ≡ (if is_some (get key now db) then (db, false) else (set key value ttl now db, true))

-- The fields of a `TTLSet` and of a `TTLMap` beside the connection.
pub record Ttl : Type 0 where
  pub prefix : Text
  pub ttl : ℕ

-- `_key`
abbrev pub key : Ttl → Text → Text
key s member = s.prefix ++ codes ":" ++ member

-- Two keys of one prefix are the same only for the same member.
text_eq-append : (p s t : Text) → text_eq (p ++ s) (p ++ t) ≡ text_eq s t
unfolding text_eq
text_eq-append [] s t = refl
text_eq-append (c ∷ p) s t = ground (arith, text_eq-append p s t)

pub key-text_eq : (s : Ttl) (a b : Text) → text_eq (key s a) (key s b) ≡ text_eq a b
key-text_eq s a b = text_eq-append (s.prefix ++ codes ":") a b
