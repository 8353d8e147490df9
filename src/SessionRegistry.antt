-- ===== src/SessionRegistry.antt =====
-- `RedisSessionRegistry` of backend/src/infrastructure/session_registry.py: the fields of a call's session
-- in a Redis hash that expires. Redis is a parameter.
use event_driven_ai_voice.Types.{Uuid}
use event_driven_ai_voice.Prelude.{
  Bool, List, Option, Text, [], codes, if◌then◌else◌, is_empty, is_some, ltb, none, refl, some,
  text_eq, text_eq_refl, ℕ, ◌++◌, ◌+◌, ◌∙◌, ◌∷◌, ◌≡◌, ◌≤◌, ap, arith, sym, ◌<◌,
}
use mathlib.Core.Option

-- A hash with its deadline, where it has one.
pub record Hash : Type 0 where
  pub fields : List (Text × Text)
  pub deadline : Option ℕ

abbrev pub live_until : ℕ → Hash → Option ℕ → Option Hash
live_until now h none = some h
live_until now h (some d) = if ltb now d then some h else none

abbrev pub live_at : ℕ → Hash → Option Hash
live_at now h = live_until now h h.deadline

-- HSET keeps the other fields and the deadline of a hash that is there, and makes a hash without a
-- deadline where there is none.
abbrev pub hset_hash : List (Text × Text) → Option Hash → Hash
hset_hash fields none = record { fields = fields; deadline = none }
hset_hash fields (some h) = record h { fields = fields ++ h.fields }

abbrev pub expire_hash : ℕ → Hash → Hash
expire_hash deadline h = record h { deadline = some deadline }

-- What the code uses of Redis; `hash` is what a key holds at a time, with its deadline (HGETALL and
-- EXPIRETIME), of whose fields the first of a name counts. The laws are the documented ones.
pub record RedisHashes (Db : Type 0) : Type 0 where
  pub hash : Text → ℕ → Db → Option Hash
  pub hset : Text → List (Text × Text) → ℕ → Db → Db
  pub expire : Text → ℕ → ℕ → Db → Db
  pub delete : Text → Db → Db
  pub hash-hset :
      (key other : Text) (fields : List (Text × Text)) (now : ℕ) (db : Db)
      → hash other now (hset key fields now db) ≡ (
          if text_eq key other
          then some (hset_hash fields (hash key now db))
          else hash other now db)
  pub hash-expire :
      (key other : Text) (ttl now : ℕ) (db : Db)
      → 0 < ttl
      → hash other now (expire key ttl now db) ≡ (
          if text_eq key other
          then Option.map (expire_hash (now + ttl)) (hash key now db)
          else hash other now db)
  pub hash-delete :
      (key other : Text) (now : ℕ) (db : Db)
      → hash other now (delete key db) ≡ (if text_eq key other then none else hash other now db)
  pub hash-later :
      (key : Text) (now later : ℕ) (db : Db) (h : Hash)
      → now ≤ later
      → hash key now db ≡ some h
      → hash key later db ≡ live_at later h

-- A value of a session: a text, or an object that orjson dumps.
pub data Value (Json : Type 0) : Type 0 where
  text_value : Text → Value Json
  object : Json → Value Json

-- `key` is `_key`: the prefix, a colon and the id's text.
module _ {Db Json : Type 0} (redis : RedisHashes Db) (dumps : Json → Text) (show_id : Uuid → Text)
    (ttl : ℕ) where
  abbrev pub session_key : Uuid → Text
  session_key call = codes "session:" ++ show_id call

  unfoldable pub serialize : Value Json → Text
  serialize (text_value t) = t
  serialize (object j) = dumps j

  unfoldable pub serialize_all : List (Text × Value Json) → List (Text × Text)
  unfolding serialize
  serialize_all [] = []
  serialize_all ((k, v) ∷ data_items) = (k, serialize v) ∷ serialize_all data_items

  -- None where redis-py raises on an empty mapping.
  unfoldable pub register : Uuid → List (Text × Value Json) → ℕ → Db → Option Db
  unfolding serialize_all
  register call [] now db = none
  register call (item ∷ items) now db = some (
      redis.expire (session_key call) ttl now
        (redis.hset (session_key call) (serialize_all (item ∷ items)) now db))

  abbrev fields_of : Option Hash → Option (List (Text × Text))
  fields_of none = none
  fields_of (some h) = if is_empty h.fields then none else some h.fields

  unfoldable pub get : Uuid → ℕ → Db → Option (List (Text × Text))
  get call now db = fields_of (redis.hash (session_key call) now db)

  unfoldable pub update_field : Uuid → Text → Value Json → ℕ → Db → Db
  unfolding serialize
  update_field call field value now db =
      redis.hset (session_key call) ((field, serialize value) ∷ []) now db

  unfoldable pub remove : Uuid → Db → Db
  remove call db = redis.delete (session_key call) db

  unfoldable pub exists : Uuid → ℕ → Db → Bool
  exists call now db = is_some (redis.hash (session_key call) now db)

  at_own_key :
      {A : Type 0} (call : Uuid) (a b : A)
      → (if text_eq (session_key call) (session_key call) then a else b) ≡ a
  at_own_key call a b = rw (text_eq_refl (session_key call)) refl

  hash-register :
      (call : Uuid) (item : Text × Value Json) (items : List (Text × Value Json)) (now : ℕ)
      (db db' : Db)
      → 0 < ttl
      → redis.hash (session_key call) now db ≡ none
      → register call (item ∷ items) now db ≡ some db'
      → redis.hash (session_key call) now db'
        ≡ some (record { fields = serialize_all (item ∷ items); deadline = some (now + ttl) })
  unfolding register
  hash-register call item items now db db' long fresh e =
      let key = session_key call in
      let fields = serialize_all (item ∷ items) in
      let stored : redis.expire key ttl now (redis.hset key fields now db) ≡ db' = cc in
      ap (redis.hash key now) (sym stored)
      ∙ redis.hash-expire key key ttl now (redis.hset key fields now db) long
      ∙ at_own_key call _ _
      ∙ ap (Option.map (expire_hash (now + ttl))) (
          redis.hash-hset key key fields now db
          ∙ at_own_key call _ _
          ∙ ap (λ o. some (hset_hash fields o)) fresh)

  hash-update_field :
      (call : Uuid) (field : Text) (value : Value Json) (now : ℕ) (db : Db)
      → redis.hash (session_key call) now (update_field call field value now db)
        ≡ some (hset_hash ((field, serialize value) ∷ []) (redis.hash (session_key call) now db))
  unfolding update_field
  hash-update_field call field value now db =
      redis.hash-hset (session_key call) (session_key call) _ now db ∙ at_own_key call _ _

  registered_later :
      (call : Uuid) (item : Text × Value Json) (items : List (Text × Value Json)) (now later : ℕ)
      (db db' : Db)
      → 0 < ttl
      → redis.hash (session_key call) now db ≡ none
      → register call (item ∷ items) now db ≡ some db'
      → now ≤ later
      → redis.hash (session_key call) later db' ≡ (
          if ltb later (now + ttl)
          then some (record { fields = serialize_all (item ∷ items); deadline = some (now + ttl) })
          else none)
  registered_later call item items now later db db' long fresh e order =
      redis.hash-later (session_key call) now later db' _ order
        (hash-register call item items now db db' long fresh e)

  -- A session that is registered, with a time to live above zero, for a call without one is read back with all its values up to its
  -- deadline, and from then on there is none.
  get-register :
      (call : Uuid) (item : Text × Value Json) (items : List (Text × Value Json)) (now later : ℕ)
      (db db' : Db)
      → 0 < ttl
      → redis.hash (session_key call) now db ≡ none
      → register call (item ∷ items) now db ≡ some db'
      → now ≤ later
      → get call later db'
        ≡ (if ltb later (now + ttl) then some (serialize_all (item ∷ items)) else none)
  unfolding get serialize_all
  get-register call item items now later db db' long fresh e order =
      grind (arith, registered_later call item items now later db db' long fresh e order)

  -- A session was registered, with a time to live above zero, for a call that had none. An update of a
  -- field after its deadline makes a new session that holds that field alone and has no deadline: it is
  -- read at every later time, and the values that were registered are not in it.
  pub get-update_field :
      (call : Uuid) (item : Text × Value Json) (items : List (Text × Value Json)) (field : Text)
      (value : Value Json) (now late later : ℕ) (db db' : Db)
      → 0 < ttl
      → redis.hash (session_key call) now db ≡ none
      → register call (item ∷ items) now db ≡ some db'
      → now + ttl ≤ late
      → late ≤ later
      → get call later (update_field call field value late db')
        ≡ some ((field, serialize value) ∷ [])
  unfolding get
  get-update_field call item items field value now late later db db' long fresh e over order =
      let gone : redis.hash (session_key call) late db' ≡ none =
        grind
          (arith, registered_later call item items now late db db' long fresh e (omega arith)) in
      ap fields_of (
        redis.hash-later (session_key call) late later (update_field call field value late db') _
          order
          (hash-update_field call field value late db'
            ∙ ap (λ o. some (hset_hash ((field, serialize value) ∷ []) o)) gone))
