-- ===== src/Calls/Sessions/Lookup.antt =====
-- The sessions in memory (api/routes/calls.py) as a finite map.
use event_driven_ai_voice.Router.{RouterPromptBuilder}
use event_driven_ai_voice.Prelude.{
  [], arith, if◌then◌else◌, length, none, refl, some, ◌+◌, ◌==◌, ◌∷◌, ◌≡◌, ◌≤◌, Option, codes,
  false, leb, ◌∙◌, Bool, ap, true,
}
use event_driven_ai_voice.Types.{Uuid}
use event_driven_ai_voice.Calls.Sessions.{
  Sessions, assign, find, remove, Settings, create_call, delete_call, get_session, http_exception,
  reply, or_not_found,
}
use event_driven_ai_voice.Calls.{CallSessionEntry, new_entry}

pub find-assign :
    (id key : Uuid) (entry : CallSessionEntry) (sessions : Sessions)
    → find id (assign key entry sessions) ≡ (if key == id then some entry else find id sessions)
unfolding find assign
find-assign id key entry [] = refl
find-assign id key entry ((k, old) ∷ sessions) = grind (arith, find-assign id key entry sessions)

pub find-remove :
    (id key : Uuid) (sessions : Sessions)
    → find id (remove key sessions) ≡ (if key == id then none else find id sessions)
unfolding find remove
find-remove id key [] = ground arith
find-remove id key ((k, old) ∷ sessions) = grind (arith, find-remove id key sessions)

pub length-assign :
    (key : Uuid) (entry : CallSessionEntry) (sessions : Sessions)
    → length (assign key entry sessions) ≤ length sessions + 1
unfolding assign
length-assign key entry [] = ground arith
length-assign key entry ((k, old) ∷ sessions) = ground (arith, length-assign key entry sessions)

pub length-assign_known :
    (key : Uuid) (entry old : CallSessionEntry) (sessions : Sessions)
    → find key sessions ≡ some old
    → length (assign key entry sessions) ≡ length sessions
unfolding find assign
length-assign_known key entry old [] h = cc
length-assign_known key entry old ((k, e) ∷ sessions) h =
    ground (arith, length-assign_known key entry old sessions)

pub length-remove :
    (key : Uuid) (sessions : Sessions) → length (remove key sessions) ≤ length sessions
unfolding remove
length-remove key [] = ground arith
length-remove key ((k, old) ∷ sessions) = ground (arith, length-remove key sessions)

-- A look-up in changed sessions.
found_if :
    (c : Bool) (o : Option CallSessionEntry) (rest : Option CallSessionEntry)
    → or_not_found (if c then o else rest) ≡ (if c then or_not_found o else or_not_found rest)
found_if true o rest = refl
found_if false o rest = refl

get_session-assign :
    (id other : Uuid) (entry : CallSessionEntry) (sessions : Sessions)
    → get_session other (assign id entry sessions)
      ≡ (if id == other then reply entry else get_session other sessions)
unfolding get_session
get_session-assign id other entry sessions =
    ap or_not_found (find-assign other id entry sessions)
    ∙ found_if (id == other) (some entry) (find other sessions)

get_session-remove :
    (id other : Uuid) (sessions : Sessions)
    → get_session other (remove id sessions) ≡ (
        if id == other
        then http_exception 404 (codes "Call not found")
        else get_session other sessions)
unfolding get_session
get_session-remove id other sessions =
    ap or_not_found (find-remove other id sessions)
    ∙ found_if (id == other) none (find other sessions)

create_call-room :
    (settings : Settings) (builder : Option RouterPromptBuilder) (id : Uuid) (sessions : Sessions)
    → leb settings.max_concurrent_calls (length sessions) ≡ false
    → create_call settings builder id sessions ≡ (
      assign id
          (new_entry id builder settings.max_history_turns settings.max_history_chars)
          sessions,
      reply id,
    )
unfolding create_call
create_call-room settings builder id sessions room = rw room refl

-- A deletion leaves the sessions without the id, whether it was there or not.
delete_call-get_session :
    (id other : Uuid) (sessions : Sessions)
    → get_session other (delete_call id sessions).0 ≡ (
        if id == other
        then http_exception 404 (codes "Call not found")
        else get_session other sessions)
unfolding delete_call
delete_call-get_session id other sessions = grind (arith, get_session-remove id other sessions)

-- Where there is room, a created call answers with its id. Then every look-up, of the created id or of
-- another, meets the new session or what it met before; and after a deletion it meets 404, or what it
-- met before.
create-get_session :
    (settings : Settings) (builder : Option RouterPromptBuilder) (id other : Uuid)
    (sessions : Sessions)
    → leb settings.max_concurrent_calls (length sessions) ≡ false
    → let entry = new_entry id builder settings.max_history_turns settings.max_history_chars in
      let created = create_call settings builder id sessions in
      (created.1 ≡ reply id)
      × (get_session other created.0
          ≡ (if id == other then reply entry else get_session other sessions))
      × (get_session other (delete_call id created.0).0 ≡ (
          if id == other
          then http_exception 404 (codes "Call not found")
          else get_session other sessions))
create-get_session settings builder id other sessions room =
    let entry = new_entry id builder settings.max_history_turns settings.max_history_chars in
    rw (create_call-room settings builder id sessions room) (
      refl,
      get_session-assign id other entry sessions,
      delete_call-get_session id other (assign id entry sessions)
          ∙ ground (arith, get_session-assign id other entry sessions),
    )
