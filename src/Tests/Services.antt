-- ===== src/Tests/Services.antt =====
-- The bus, the stub of the voice provider, the policies and the registry of sessions.
use mathlib.Core.Option
use event_driven_ai_voice.Prelude.{
  List, Option, Text, [], arith, codes, if◌then◌else◌, none, refl, some, ap, ◌∷◌, ◌≡◌, true,
  text_eq, text_eq→eq, ℕ, ◌+◌, ◌≤◌, ◌<◌,
}
use event_driven_ai_voice.SessionRegistry.{
  Hash, RedisHashes, Value, text_value, live_at, hset_hash, expire_hash, register, get,
  update_field, serialize, serialize_all, get-update_field,
}

abbrev Hashes : Type 0
Hashes = List (Text × Hash)

abbrev live_now : ℕ → Option Hash → Option Hash
live_now now none = none
live_now now (some h) = live_at now h

entry : Text → Hashes → Option Hash
entry key [] = none
entry key ((k, h) ∷ db) = let rest = entry key db in if text_eq k key then some h else rest

hash : Text → ℕ → Hashes → Option Hash
hash key now db = live_now now (entry key db)

hset : Text → List (Text × Text) → ℕ → Hashes → Hashes
hset key fields now db = (key, hset_hash fields (hash key now db)) ∷ db

abbrev expired : Text → ℕ → Option Hash → Hashes → Hashes
expired key deadline none db = db
expired key deadline (some h) db = (key, expire_hash deadline h) ∷ db

expire : Text → ℕ → ℕ → Hashes → Hashes
expire key ttl now db = expired key (now + ttl) (hash key now db) db

delete : Text → Hashes → Hashes
delete key [] = []
delete key ((k, h) ∷ db) = let rest = delete key db in if text_eq k key then rest else (k, h) ∷ rest

live-hset_hash :
    (fields : List (Text × Text)) (now : ℕ) (o : Option Hash)
    → live_at now (hset_hash fields (live_now now o)) ≡ some (hset_hash fields (live_now now o))
live-hset_hash fields now none = refl
live-hset_hash fields now (some h) = ground arith

hash-hset :
    (key other : Text) (fields : List (Text × Text)) (now : ℕ) (db : Hashes)
    → hash other now (hset key fields now db)
      ≡ (if text_eq key other then some (hset_hash fields (hash key now db)) else hash other now db)
unfolding hash hset entry
hash-hset key other fields now db = ground arith

same_entry : (a b : Text) (db : Hashes) → text_eq a b ≡ true → entry a db ≡ entry b db
same_entry a b db e = ap (λ k. entry k db) (text_eq→eq a b e)

same_key : (a b c : Text) → text_eq a b ≡ true → text_eq a c ≡ text_eq b c
same_key a b c e = ap (λ k. text_eq k c) (text_eq→eq a b e)

same_right : (a b c : Text) → text_eq b c ≡ true → text_eq a b ≡ text_eq a c
same_right a b c e = ap (λ k. text_eq a k) (text_eq→eq b c e)

hash-expire :
    (key other : Text) (ttl now : ℕ) (db : Hashes)
    → 0 < ttl
    → hash other now (expire key ttl now db) ≡ (
        if text_eq key other
        then Option.map (expire_hash (now + ttl)) (hash key now db)
        else hash other now db)
unfolding hash expire entry
hash-expire key other ttl now db long = ground (arith, same_entry key other db)

entry-delete :
    (key other : Text) (db : Hashes)
    → entry other (delete key db) ≡ (if text_eq key other then none else entry other db)
unfolding entry delete
entry-delete key other [] = ground arith
entry-delete key other ((k, h) ∷ db) =
    ground (arith, entry-delete key other db, same_key k key other, same_right k key other)

hash-delete :
    (key other : Text) (now : ℕ) (db : Hashes)
    → hash other now (delete key db) ≡ (if text_eq key other then none else hash other now db)
unfolding hash
hash-delete key other now db = ground (arith, entry-delete key other db)

hash-later :
    (key : Text) (now later : ℕ) (db : Hashes) (h : Hash)
    → now ≤ later
    → hash key now db ≡ some h
    → hash key later db ≡ live_at later h
unfolding hash
hash-later key now later db h order e = ground arith

abbrev redis : RedisHashes Hashes
redis = record {
  hash = hash;
  hset = hset;
  expire = expire;
  delete = delete;
  hash-hset = hash-hset;
  hash-expire = hash-expire;
  hash-delete = hash-delete;
  hash-later = hash-later;
}

abbrev no_dumps : Unit {0} → Text
no_dumps j = codes "null"

abbrev show_id : ℕ → Text
show_id id = codes "1"

abbrev status : Text × Value (Unit {0})
status = (codes "status", text_value (codes "active"))

abbrev registered : Hashes
registered =
    (
      codes "session:1",
      record { fields = (codes "status", codes "active") ∷ []; deadline = some 110 },
    )
    ∷ (
      codes "session:1",
      record { fields = (codes "status", codes "active") ∷ []; deadline = none },
    )
    ∷ []

get-update_field_example :
    get redis no_dumps show_id 10 1 200 (
      update_field redis no_dumps show_id 10 1
        (codes "turns")
        (text_value (codes "3"))
        120
        registered)
    ≡ some ((codes "turns", serialize redis no_dumps show_id 10 (text_value (codes "3"))) ∷ [])
unfolding hash entry register hset expire serialize_all serialize text_eq
get-update_field_example =
    get-update_field redis no_dumps show_id 10 1 status [] (codes "turns") (text_value (codes "3"))
      100 120 200 [] registered (omega arith) refl refl (omega arith) (omega arith)
