-- ===== src/Calls/Sessions.antt =====
-- The endpoints of backend/src/api/routes/calls.py over the sessions in memory. The provider's answer
-- to an SDP offer is an argument.
pub mod Lookup
pub mod Sound
use event_driven_ai_voice.Types.{Uuid}
use event_driven_ai_voice.Router.{RouterPromptBuilder}
use event_driven_ai_voice.Router.Action.{Loaded}
use event_driven_ai_voice.Coordinator.Monad.{Env}
use event_driven_ai_voice.Calls.{CallSessionEntry, Happening, new_entry, happen}
use event_driven_ai_voice.Prelude.{
  List, Option, Text, [], codes, if◌then◌else◌, leb, length, none, some, ℕ, ◌++◌, ◌==◌, ◌||◌, ◌∷◌,
  Unicode,
}
use event_driven_ai_voice.Calls
use event_driven_ai_voice.Bridge.{close}

-- What an endpoint answers, or its `HTTPException`.
pub data HttpResult (A : Type 0) : Type 0 where
  reply : A → HttpResult A
  http_exception : ℕ → Text → HttpResult A

pub record Settings : Type 0 where
  pub max_concurrent_calls : ℕ
  pub max_history_turns : ℕ
  pub max_history_chars : ℕ

-- `_sessions`
abbrev pub Sessions : Type 0
Sessions = List (Uuid × CallSessionEntry)

-- `_sessions.get(call_id)`
unfoldable pub find : Uuid → Sessions → Option CallSessionEntry
find id [] = none
find id ((key, entry) ∷ sessions) = if key == id then some entry else find id sessions

-- `_sessions[call_id] = entry`
unfoldable pub assign : Uuid → CallSessionEntry → Sessions → Sessions
assign id entry [] = (id, entry) ∷ []
assign id entry ((key, old) ∷ sessions) =
    if key == id then (key, entry) ∷ sessions else (key, old) ∷ assign id entry sessions

-- The sessions without a key.
unfoldable pub remove : Uuid → Sessions → Sessions
remove id [] = []
remove id ((key, entry) ∷ sessions) =
    let rest = remove id sessions in if key == id then rest else (key, entry) ∷ rest

abbrev pub or_not_found : Option CallSessionEntry → HttpResult CallSessionEntry
or_not_found none = http_exception 404 (codes "Call not found")
or_not_found (some entry) = reply entry

unfoldable pub get_session : Uuid → Sessions → HttpResult CallSessionEntry
unfolding find
get_session id sessions = or_not_found (find id sessions)

-- `call_id` is what `uuid4()` draws.
unfoldable pub create_call :
    Settings → Option RouterPromptBuilder → Uuid → Sessions → Sessions × HttpResult Uuid
unfolding new_entry assign
create_call settings builder call_id sessions =
    if leb settings.max_concurrent_calls (length sessions)
    then (sessions, http_exception 503 (codes "max_calls_exceeded"))
    else (
      assign call_id
          (new_entry call_id builder settings.max_history_turns settings.max_history_chars)
          sessions,
      reply call_id,
    )

-- The session that is taken out, with its bridge closed.
abbrev pub delete_got :
    Uuid → Sessions → HttpResult CallSessionEntry → Sessions × HttpResult CallSessionEntry
delete_got id sessions (http_exception status detail) = (sessions, http_exception status detail)
delete_got id sessions (reply entry) =
    (remove id sessions, reply (record entry { bridge = close entry.bridge }))

unfoldable pub delete_call : Uuid → Sessions → Sessions × HttpResult CallSessionEntry
unfolding get_session remove
delete_call id sessions = delete_got id sessions (get_session id sessions)

-- The provider's answer: its status and its text.
pub record SdpResponse : Type 0 where
  pub status_code : ℕ
  pub text : Text

-- `post` is the request to the provider; `show` prints a number.
unfoldable pub handle_offer :
    (Text → SdpResponse) → (ℕ → Text) → Uuid → Text → Sessions → HttpResult Text
unfolding get_session
handle_offer post show id sdp sessions = elim (get_session id sessions) [
  | http_exception status detail ↦ http_exception status detail
  | reply entry ↦
      let response = post sdp in
      if response.status_code == 200 || response.status_code == 201
      then reply response.text
      else http_exception 502 (codes "OpenAI Realtime API error: " ++ show response.status_code)
]

-- What reaches the service: a call is created under some new id or deleted, or something happens to
-- the session of a call, which an id that is not there does not have.
pub data Request : Type 0 where
  create delete : Uuid → Request
  on_session : Uuid → Happening → Request

module _ (env bridge_env : Env) (loads : Text → Loaded) (unicode : Unicode)
    (builder : Option RouterPromptBuilder) (settings : Settings) where
  -- What happens to a session changes the object that `_sessions` holds.
  abbrev pub at_session : Uuid → Happening → Sessions → Option CallSessionEntry → Sessions
  at_session id h sessions none = sessions
  at_session id h sessions (some entry) =
      assign id (happen env bridge_env loads unicode builder h entry) sessions

  unfoldable pub serve : Request → Sessions → Sessions
  unfolding create_call delete_call
  serve (create id) sessions = (create_call settings builder id sessions).0
  serve (delete id) sessions = (delete_call id sessions).0
  serve (on_session id h) sessions = at_session id h sessions (find id sessions)

  unfoldable pub serve_all : List Request → Sessions → Sessions
  unfolding serve
  serve_all [] sessions = sessions
  serve_all (r ∷ rs) sessions = serve_all rs (serve r sessions)
