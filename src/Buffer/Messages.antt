-- ===== src/Buffer/Messages.antt =====
-- The dialogue that `format_messages` (conversation_buffer.py) hands to the prompts.
use event_driven_ai_voice.Prelude.{
  ℕ, Bool-cases, List, Text, [], arith, false, if◌then◌else◌, inl, inr, is_empty, length, refl, suc,
  ◌*◌, ◌++◌, ◌∙◌, ◌∷◌, ◌≡◌,
}
use mathlib.Core.List.{append-nil}
use event_driven_ai_voice.Buffer.{
  TurnEntry, ConversationBuffer, blank_entry, format_messages, is_blank, messages_of, or_default,
}
use event_driven_ai_voice.Types.{Message, assistant, user}

-- A user's message and the assistant's answer in turn, none of them empty.
data IsDialogue : List Message → Type 0 where
  over : IsDialogue []
  exchange :
      {u a : Message} {rest : List Message}
      → u.role ≡ user
      → a.role ≡ assistant
      → is_empty u.content ≡ false
      → is_empty a.content ≡ false
      → IsDialogue rest
      → IsDialogue (u ∷ a ∷ rest)

spoken : List TurnEntry → ℕ
spoken [] = 0
spoken (e ∷ es) = if is_blank e then spoken es else suc (spoken es)

or_default_full : (s : Text) (c : ℕ) (cs : Text) → is_empty (or_default s (c ∷ cs)) ≡ false
or_default_full [] c cs = refl
or_default_full (d ∷ s) c cs = refl

messages_of-IsDialogue : (es : List TurnEntry) → IsDialogue (messages_of es)
unfolding messages_of
messages_of-IsDialogue [] = over
messages_of-IsDialogue (e ∷ es) = elim (Bool-cases (is_blank e)) [
  | inl blank ↦ rw blank (messages_of-IsDialogue es)
  | inr full ↦ rw full (
      exchange refl refl (or_default_full e.user_text _ _) (or_default_full e.agent_text _ _)
        (messages_of-IsDialogue es))
]

length-messages_of : (es : List TurnEntry) → length (messages_of es) ≡ 2 * spoken es
unfolding messages_of spoken
length-messages_of [] = omega arith
length-messages_of (e ∷ es) = ground (arith, length-messages_of es)

messages_of-append :
    (es fs : List TurnEntry) → messages_of (es ++ fs) ≡ messages_of es ++ messages_of fs
unfolding messages_of
messages_of-append [] fs = refl
messages_of-append (e ∷ es) fs = ground (arith, messages_of-append es fs)

-- The history is a dialogue: a user's and an assistant's message by turns, none empty, two for
-- each entry that has a text on either side.
format_messages_lem :
    (b : ConversationBuffer)
    → IsDialogue (format_messages b) × (length (format_messages b) ≡ 2 * spoken b.entries)
unfolding format_messages
format_messages_lem b = (messages_of-IsDialogue b.entries, length-messages_of b.entries)

-- A blank entry at the end, as the turn under way has it, adds no message.
messages_of-blank :
    (seq : ℕ) (es : List TurnEntry) → messages_of (es ++ blank_entry seq ∷ []) ≡ messages_of es
unfolding messages_of
messages_of-blank seq es = messages_of-append es (blank_entry seq ∷ []) ∙ append-nil _
