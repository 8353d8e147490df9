-- ===== src/Buffer/Written.antt =====
-- What `update_agent_text` (conversation_buffer.py) writes, and to which entry.
use event_driven_ai_voice.Prelude.{
  Bool, Bool-cases, List, Text, [], arith, false, inl, inr, is_empty, none, refl, some, true, ◌++◌,
  ◌==◌, ◌||◌, ◌∷◌, ◌≡◌, ◌⊎◌, ℕ, ap,
}
use event_driven_ai_voice.Buffer.{ConversationBuffer, TurnEntry, set_agent, update_agent_text}
use event_driven_ai_voice.Buffer.Limits.{IsLongestFit, prune_oldest_lem}

-- Whether a turn has an entry.
unfoldable pub has_entry : ℕ → List TurnEntry → Bool
has_entry seq [] = false
has_entry seq (e ∷ es) = e.seq == seq || has_entry seq es

-- The newest entry of a turn, among the others.
pub record IsNewest (seq : ℕ) (front : List TurnEntry) (e : TurnEntry) (back es : List TurnEntry)
    : Type 0 where
  pub whole : es ≡ front ++ e ∷ back
  pub turn : e.seq ≡ seq
  pub newer : has_entry seq back ≡ false

-- A conversation after the agent's text of a turn: as it was, where there is no text or the turn's
-- entry is gone, and else the longest fit of the one in which the turn's newest entry has the text.
pub data IsWritten (seq : ℕ) (text : Text) (b b' : ConversationBuffer) : Type 0 where
  no_text : is_empty text ≡ true → b' ≡ b → IsWritten seq text b b'
  no_entry :
      is_empty text ≡ false → has_entry seq b.entries ≡ false → b' ≡ b → IsWritten seq text b b'
  written :
      (front back : List TurnEntry) (e : TurnEntry)
      → is_empty text ≡ false
      → IsNewest seq front e back b.entries
      → IsLongestFit b.max_chars (front ++ record e { agent_text = text } ∷ back) b'.entries
      → b'.max_turns ≡ b.max_turns
      → b'.max_chars ≡ b.max_chars
      → IsWritten seq text b b'

-- What the search finds.
pub record IsFound (seq : ℕ) (text : Text) (es : List TurnEntry) : Type 0 where
  pub front : List TurnEntry
  pub back : List TurnEntry
  pub entry : TurnEntry
  pub newest : IsNewest seq front entry back es
  pub found : set_agent seq text es ≡ some (front ++ record entry { agent_text = text } ∷ back)

set_agent_cases :
    (seq : ℕ) (text : Text) (es : List TurnEntry)
    → ((has_entry seq es ≡ false) × (set_agent seq text es ≡ none)) ⊎ IsFound seq text es
unfolding set_agent has_entry
set_agent_cases seq text [] = inl (refl, refl)
set_agent_cases seq text (e ∷ es) = elim (set_agent_cases seq text es) [
  | inr h ↦ inr (record {
    front = e ∷ h.front;
    back = h.back;
    entry = h.entry;
    newest = record {
      whole = ap (◌∷◌ e) h.newest.whole;
      turn = h.newest.turn;
      newer = h.newest.newer;
    };
    found = rw (h.found, set_agent) refl;
  })
  | inl (none_newer, miss) ↦ elim (Bool-cases (e.seq == seq)) [
    | inl same ↦ inr (record {
      front = [];
      back = es;
      entry = e;
      newest = record { whole = refl; turn = ground arith; newer = none_newer };
      found = rw (miss, same) refl;
    })
    | inr other ↦ inl (ground arith, rw (miss, other) refl)
  ]
]

-- The text of a turn is written to its newest entry.
pub update_agent-IsWritten :
    (seq : ℕ) (text : Text) (b : ConversationBuffer)
    → is_empty text ≡ false
    → IsWritten seq text b (update_agent_text seq text b)
unfolding update_agent_text
update_agent-IsWritten seq text b full = elim (set_agent_cases seq text b.entries) [
  | inl (nowhere, miss) ↦ rw (miss, update_agent_text) (no_entry full nowhere refl)
  | inr h ↦
      let es = h.front ++ record (h.entry) { agent_text = text } ∷ h.back in
      let (fit, turns, chars) = prune_oldest_lem (record b { entries = es }) in
      rw (h.found, update_agent_text) (written h.front h.back h.entry full h.newest fit turns chars)
]
