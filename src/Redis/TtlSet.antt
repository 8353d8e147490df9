-- ===== src/Redis/TtlSet.antt =====
-- `TTLSet` of backend/src/infrastructure/redis_client.py: a set whose members expire.
use event_driven_ai_voice.Prelude.{
  Bool, Text, codes, false, is_some, true, ℕ, ◌+◌, ◌<◌, ◌≡◌, ◌≤◌, ap, arith, if◌then◌else◌, ltb,
  none, some, sym, text_eq_refl, ◌∙◌, Option,
}
use event_driven_ai_voice.Redis.{Redis, Ttl, key}

module _ {Db : Type 0} (redis : Redis Db) where
  unfoldable pub add : Ttl → Text → ℕ → Db → Db × Bool
  add s member now db = redis.set_nx (key s member) (codes "1") s.ttl now db

  unfoldable pub contains : Ttl → Text → ℕ → Db → Bool
  contains s member now db = is_some (redis.get (key s member) now db)

  -- What `SET` with NX does, by what it finds.
  abbrev set_if : Option Text → Db → Db → Db × Bool
  set_if o old new = if is_some o then (old, false) else (new, true)

  chosen :
      (there : Bool) (old new : Db) (r : Db × Bool)
      → r ≡ (if there then (old, false) else (new, true))
      → r.1 ≡ true
      → r ≡ (new, true)
  chosen true old new r e h = let no : false ≡ true = sym (ap (λ q. q.1) e) ∙ h in cc
  chosen false old new r e h = e

  add_new :
      (s : Ttl) (member : Text) (now : ℕ) (db : Db)
      → (add s member now db).1 ≡ true
      → add s member now db ≡ (redis.set (key s member) (codes "1") s.ttl now db, true)
  unfolding add
  add_new s member now db fresh =
      chosen (is_some (redis.get (key s member) now db)) db _ _
        (redis.set_nx_lem (key s member) (codes "1") s.ttl now db) fresh

  -- What is read under the member's key afterwards.
  get-add_new :
      (s : Ttl) (member : Text) (now later : ℕ) (db : Db)
      → now ≤ later
      → redis.get (key s member) later (redis.set (key s member) (codes "1") s.ttl now db)
        ≡ (if ltb later (now + s.ttl) then some (codes "1") else none)
  get-add_new s member now later db before =
      redis.get-set (key s member) (key s member) (codes "1") s.ttl now later db before
      ∙ ap
          (λ c.
            if c
            then (if ltb later (now + s.ttl) then some (codes "1") else none)
            else redis.get (key s member) later db)
          (text_eq_refl (key s member))

  -- A member that was added as a new one is there, and cannot be added again, up to its deadline.
  pub add-contains :
      (s : Ttl) (member : Text) (now later : ℕ) (db : Db)
      → now ≤ later
      → later < now + s.ttl
      → (add s member now db).1 ≡ true
      → let db' = (add s member now db).0 in
        (contains s member later db' ≡ true) × (add s member later db' ≡ (db', false))
  unfolding add contains
  add-contains s member now later db before within fresh =
      let new = redis.set (key s member) (codes "1") s.ttl now db in
      let in_time : ltb later (now + s.ttl) ≡ true = ground arith in
      let live : redis.get (key s member) later new ≡ some (codes "1") =
        get-add_new s member now later db before
        ∙ ap (λ c. if c then some (codes "1") else none) in_time in
      let newer = redis.set (key s member) (codes "1") s.ttl later new in
      rw (add_new s member now db fresh) (
        ap is_some live,
        redis.set_nx_lem (key s member) (codes "1") s.ttl later new
            ∙ ap (λ o. set_if o new newer) live,
      )

  -- After the deadline it is as if it had never been added.
  pub add-expired :
      (s : Ttl) (member : Text) (now later : ℕ) (db : Db)
      → now + s.ttl ≤ later
      → (add s member now db).1 ≡ true
      → let db' = (add s member now db).0 in
        (contains s member later db' ≡ false) × ((add s member later db').1 ≡ true)
  unfolding add contains
  add-expired s member now later db after fresh =
      let new = redis.set (key s member) (codes "1") s.ttl now db in
      let late : ltb later (now + s.ttl) ≡ false = ground arith in
      let gone : redis.get (key s member) later new ≡ none =
        get-add_new s member now later db (omega arith)
        ∙ ap (λ c. if c then some (codes "1") else none) late in
      let newer = redis.set (key s member) (codes "1") s.ttl later new in
      let again : add s member later new ≡ set_if none new newer =
        redis.set_nx_lem (key s member) (codes "1") s.ttl later new
        ∙ ap (λ o. set_if o new newer) gone in
      rw (add_new s member now db fresh) (ap is_some gone, ap (λ r. r.1) again)
