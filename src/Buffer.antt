-- ===== src/Buffer.antt =====
-- backend/src/voice_runtime/conversation_buffer.py: the sliding window of completed turns, and the
-- chat messages made from it (routing/context.py passes them on).
pub mod Limits
pub mod Updates
pub mod Messages
pub mod Written
use event_driven_ai_voice.Prelude.{
  ℕ, Bool, List, Option, Text, [], codes, if◌then◌else◌, is_empty, leb, length, ltb, none, some,
  ◌&&◌, ◌++◌, ◌+◌, ◌-◌, ◌==◌, ◌∷◌,
}
use event_driven_ai_voice.Types.{Message, user, assistant}

pub record TurnEntry : Type 0 where
  pub seq : ℕ
  pub user_text : Text
  pub agent_text : Text

-- `TurnEntry(seq=seq)`
abbrev pub blank_entry : ℕ → TurnEntry
blank_entry seq = record { seq = seq; user_text = []; agent_text = [] }

pub record ConversationBuffer : Type 0 where
  pub max_turns : ℕ
  pub max_chars : ℕ
  pub entries : List TurnEntry

unfoldable pub new : ℕ → ℕ → ConversationBuffer
new max_turns max_chars = record { max_turns = max_turns; max_chars = max_chars; entries = [] }

abbrev pub entry_chars : TurnEntry → ℕ
entry_chars e = length e.user_text + length e.agent_text

-- `sum(self._entry_chars(e) for e in entries)`
unfoldable pub total_chars : List TurnEntry → ℕ
total_chars [] = 0
total_chars (e ∷ es) = entry_chars e + total_chars es

-- The loop of `_prune_oldest`, with its running `total`.
unfoldable pub prune_from : ℕ → ℕ → List TurnEntry → List TurnEntry
prune_from max_chars total [] = []
prune_from max_chars total (e ∷ es) =
    let rest = prune_from max_chars (total - entry_chars e) es in
    if ltb max_chars total then rest else e ∷ es

unfoldable pub prune_oldest : ConversationBuffer → ConversationBuffer
unfolding prune_from total_chars
prune_oldest b = record b { entries = prune_from b.max_chars (total_chars b.entries) b.entries }

-- The loop of `append`: oldest entries go until one more fits; `none` is the `IndexError` of
-- `pop(0)` on an empty list.
unfoldable pub make_room : ℕ → List TurnEntry → Option (List TurnEntry)
make_room max_turns [] = if leb max_turns 0 then none else some []
make_room max_turns (e ∷ es) =
    let rest = make_room max_turns es in
    if leb max_turns (length (e ∷ es)) then rest else some (e ∷ es)

-- What `append` leaves: the buffer with the entry, or an emptied one and the `IndexError`.
pub data Appended : Type 0 where
  appended : ConversationBuffer → Appended
  index_error : ConversationBuffer → Appended

unfoldable pub append : TurnEntry → ConversationBuffer → Appended
unfolding make_room
append entry b = elim (make_room b.max_turns b.entries) [
  | none ↦ index_error (record b { entries = [] })
  | some kept ↦ appended (record b { entries = kept ++ entry ∷ [] })
]

-- `entries[-1].user_text = text`, on a list that is not empty.
unfoldable pub set_last_user : Text → List TurnEntry → List TurnEntry
set_last_user text [] = []
set_last_user text (e ∷ []) = record e { user_text = text } ∷ []
set_last_user text (e ∷ f ∷ es) = e ∷ set_last_user text (f ∷ es)

unfoldable pub update_last_user_text : Text → ConversationBuffer → ConversationBuffer
unfolding set_last_user prune_oldest
update_last_user_text text b =
    if is_empty b.entries
    then b
    else prune_oldest (record b { entries = set_last_user text b.entries })

-- The search of `update_agent_text` from the newest entry back; `none` where no entry has the seq.
unfoldable pub set_agent : ℕ → Text → List TurnEntry → Option (List TurnEntry)
set_agent seq text [] = none
set_agent seq text (e ∷ es) = elim (set_agent seq text es) [
  | some es' ↦ some (e ∷ es')
  | none ↦ if e.seq == seq then some (record e { agent_text = text } ∷ es) else none
]

unfoldable pub update_agent_text : ℕ → Text → ConversationBuffer → ConversationBuffer
unfolding set_agent prune_oldest
update_agent_text seq text b = elim (set_agent seq text b.entries) [
  | none ↦ b
  | some es ↦ prune_oldest (record b { entries = es })
]

-- `text or default`
abbrev pub or_default : Text → Text → Text
or_default [] default = default
or_default (c ∷ cs) default = c ∷ cs

abbrev pub is_blank : TurnEntry → Bool
is_blank e = is_empty e.user_text && is_empty e.agent_text

unfoldable pub entry_messages : TurnEntry → List Message
entry_messages e =
    record { role = user; content = or_default e.user_text (codes "(audio)") }
    ∷ record { role = assistant; content = or_default e.agent_text (codes "(no response)") }
    ∷ []

unfoldable pub messages_of : List TurnEntry → List Message
unfolding entry_messages
messages_of [] = []
messages_of (e ∷ es) = if is_blank e then messages_of es else entry_messages e ++ messages_of es

unfoldable pub format_messages : ConversationBuffer → List Message
unfolding messages_of
format_messages b = messages_of b.entries
