-- ===== src/Buffer/Updates.antt =====
-- What the updates of conversation_buffer.py change, and the bounds over a whole call.
use event_driven_ai_voice.Prelude.{
  ℕ, List, Option-cases, Text, [], ap, arith, drop, inl, inr, length, refl, some, suc, zero, ◌++◌,
  ◌+◌, ◌∷◌, ◌≡◌, ◌≤◌, Bool-cases, is_empty, ◌-◌,
}
use event_driven_ai_voice.Buffer.Limits.{append_lem, IsLongestFit-length, prune_oldest_lem}
use event_driven_ai_voice.Buffer.{
  TurnEntry, ConversationBuffer, append, appended, blank_entry, prune_oldest, set_agent,
  set_last_user, total_chars, update_agent_text, update_last_user_text,
}

pub record IsWithin (b : ConversationBuffer) : Type 0 where
  pub turns : length b.entries ≤ b.max_turns
  pub chars : total_chars b.entries ≤ b.max_chars

total_chars-append :
    (es fs : List TurnEntry) → total_chars (es ++ fs) ≡ total_chars es + total_chars fs
unfolding total_chars
total_chars-append [] fs = omega arith
total_chars-append (e ∷ es) fs = omega (arith, total_chars-append es fs)

total_chars-drop : (n : ℕ) (es : List TurnEntry) → total_chars (drop n es) ≤ total_chars es
unfolding total_chars
total_chars-drop zero es = omega arith
total_chars-drop (suc n) [] = omega arith
total_chars-drop (suc n) (e ∷ es) = omega (arith, total_chars-drop n es)

length-set_last_user :
    (text : Text) (es : List TurnEntry) → length (set_last_user text es) ≡ length es
unfolding set_last_user
length-set_last_user text [] = refl
length-set_last_user text (e ∷ []) = refl
length-set_last_user text (e ∷ f ∷ es) = ap suc (length-set_last_user text (f ∷ es))

length-set_agent :
    (seq : ℕ) (text : Text) (es : List TurnEntry) {es' : List TurnEntry}
    → set_agent seq text es ≡ some es'
    → length es' ≡ length es
unfolding set_agent
length-set_agent seq text [] h = cc
length-set_agent seq text (e ∷ es) {es'} h = elim (Option-cases (set_agent seq text es)) [
  | inl miss ↦ ground arith
  | inr (fs, hit) ↦ ground (arith, length-set_agent seq text es {es' = fs} hit)
]

prune_oldest-IsWithin :
    (b : ConversationBuffer) → length b.entries ≤ b.max_turns → IsWithin (prune_oldest b)
prune_oldest-IsWithin b h =
    let (fit, turns, chars) = prune_oldest_lem b in
    record { turns = omega (arith, IsLongestFit-length fit); chars = omega (arith, fit.fits) }

pub append-IsWithin :
    (seq : ℕ) (b b' : ConversationBuffer)
    → IsWithin b
    → append (blank_entry seq) b ≡ appended b'
    → IsWithin b'
unfolding total_chars
append-IsWithin seq b b' h e = elim (append_lem (blank_entry seq) b) [
  | inl (_, kept, fits) ↦
      let n = length b.entries + 1 - b.max_turns in
      let same : record b { entries = drop n b.entries ++ blank_entry seq ∷ [] } ≡ b' = cc in
      rw (← same) (record {
        turns = fits;
        chars = omega (
          arith,
          total_chars-append (drop n b.entries) (blank_entry seq ∷ []),
          total_chars-drop n b.entries,
        );
      })
  | inr (_, failed) ↦ cc
]

pub update_last-IsWithin :
    (text : Text) (b : ConversationBuffer) → IsWithin b → IsWithin (update_last_user_text text b)
unfolding update_last_user_text
update_last-IsWithin text b h = elim (Bool-cases (is_empty b.entries)) [
  | inl none_yet ↦ rw (none_yet, update_last_user_text) h
  | inr some_entry ↦
      rw (some_entry, update_last_user_text)
        (prune_oldest-IsWithin _ (omega (arith, length-set_last_user text b.entries)))
]

pub update_agent-IsWithin :
    (seq : ℕ) (text : Text) (b : ConversationBuffer)
    → IsWithin b
    → IsWithin (update_agent_text seq text b)
unfolding update_agent_text
update_agent-IsWithin seq text b h = elim (Option-cases (set_agent seq text b.entries)) [
  | inl miss ↦ rw (miss, update_agent_text) h
  | inr (es, hit) ↦
      rw (hit, update_agent_text)
        (prune_oldest-IsWithin _ (omega (arith, length-set_agent seq text b.entries hit)))
]

-- A buffer within both limits, of turns and of characters, stays within both when a blank entry is
-- appended without an error, when its last user text is set, and when an agent text is set,
-- whatever the texts are.
buffer-IsWithin :
    (seq : ℕ) (text : Text) (b b' : ConversationBuffer)
    → IsWithin b
    → append (blank_entry seq) b ≡ appended b'
    → IsWithin b'
      × IsWithin (update_last_user_text text b)
      × IsWithin (update_agent_text seq text b)
buffer-IsWithin seq text b b' h e = (
  append-IsWithin seq b b' h e,
  update_last-IsWithin text b h,
  update_agent-IsWithin seq text b h,
)
