-- ===== src/Buffer/Limits.antt =====
-- The bounds that the conversation buffer (conversation_buffer.py) keeps.
use event_driven_ai_voice.Prelude.{
  ℕ, List, [], ap, arith, dec_le, dec_lt, drop, inl, inr, length, length-append, length-drop, none,
  refl, some, suc, ◌++◌, ◌+◌, ◌-◌, ◌<◌, ◌∷◌, ◌≡◌, ◌≤◌, ◌⊎◌, Bool-cases, ltb, ◌∙◌,
}
use event_driven_ai_voice.Buffer.{
  TurnEntry, ConversationBuffer, append, appended, index_error, make_room, prune_from, total_chars,
  entry_chars, prune_oldest,
}

-- The loop of `append` ends with what fits beside one more entry, the newest ones.
make_room_lem :
    (max_turns : ℕ) (es : List TurnEntry)
    → 0 < max_turns
    → make_room max_turns es ≡ some (drop (length es + 1 - max_turns) es)
unfolding make_room
make_room_lem max_turns [] h = elim (dec_le max_turns 1) [
  | yes p ↦ let e : 1 - max_turns ≡ 0 = omega arith in rw e (ground arith)
  | no p ↦ let e : 1 - max_turns ≡ 0 = omega arith in rw e (ground arith)
]
make_room_lem max_turns (e ∷ es) h = elim (dec_le max_turns (length es + 1)) [
  | yes p ↦
      let n : suc (length es) + 1 - max_turns ≡ suc (length es + 1 - max_turns) = omega arith in
      rw n (ground (arith, make_room_lem max_turns es h))
  | no p ↦ let n : suc (length es) + 1 - max_turns ≡ 0 = omega arith in rw n (ground arith)
]

make_room-zero : (es : List TurnEntry) → make_room 0 es ≡ none
unfolding make_room
make_room-zero [] = refl
make_room-zero (e ∷ es) = ground (arith, make_room-zero es)

-- An append succeeds exactly when the window has room for a turn at all, and then the window ends
-- with the new entry, before which the newest entries are kept, at most `max_turns` in all.
pub append_lem :
    (entry : TurnEntry) (b : ConversationBuffer)
    → ((0 < b.max_turns)
        × (append entry b
            ≡ appended (record b {
              entries = drop (length b.entries + 1 - b.max_turns) b.entries ++ entry ∷ [];
            }))
        × (length (drop (length b.entries + 1 - b.max_turns) b.entries ++ entry ∷ [])
            ≤ b.max_turns))
      ⊎ ((b.max_turns ≡ 0) × (append entry b ≡ index_error (record b { entries = [] })))
unfolding append
append_lem entry b = elim (dec_lt 0 b.max_turns) [
  | yes p ↦ inl (
    p,
    rw (make_room_lem b.max_turns b.entries p, append),
    omega (
      arith,
      length-append {0} (drop (length b.entries + 1 - b.max_turns) b.entries) (entry ∷ []),
      length-drop {0} (length b.entries + 1 - b.max_turns) b.entries,
    ),
  )
  | no p ↦
      let z : b.max_turns ≡ 0 = omega arith in
      let full = ap (λ (n : ℕ). make_room n b.entries) z ∙ make_room-zero b.entries in
      inr (z, rw (full, append))
]

-- The longest end of a list that a budget of characters allows.
pub record IsLongestFit (budget : ℕ) (es fit : List TurnEntry) : Type 0 where
  pub dropped : List TurnEntry
  pub is_end : es ≡ dropped ++ fit
  pub fits : total_chars fit ≤ budget
  pub longest :
      (front other : List TurnEntry)
      → es ≡ front ++ other
      → total_chars other ≤ budget
      → length other ≤ length fit

-- A list over the budget has the longest fit of its rest.
fit_of_rest :
    (budget : ℕ) (e : TurnEntry) (es fit : List TurnEntry)
    → budget < total_chars (e ∷ es)
    → IsLongestFit budget es fit
    → IsLongestFit budget (e ∷ es) fit
unfolding total_chars
fit_of_rest budget e es fit big h = record {
  dropped = e ∷ h.dropped;
  is_end = ap (◌∷◌ e) h.is_end;
  fits = h.fits;
  longest = go;
}
  where
    go :
        (front other : List TurnEntry)
        → e ∷ es ≡ front ++ other
        → total_chars other ≤ budget
        → length other ≤ length fit
    go [] other whole fits = absurd (omega (arith, ap total_chars whole))
    go (x ∷ front) other whole fits = h.longest front other (cc) fits

fit_of_all :
    (budget : ℕ) (es : List TurnEntry) → total_chars es ≤ budget → IsLongestFit budget es es
fit_of_all budget es h = record {
  dropped = [];
  is_end = refl;
  fits = h;
  longest = λ front other whole fits. omega (arith, ap length whole, length-append {0} front other);
}

prune_from_lem :
    (budget : ℕ) (es : List TurnEntry)
    → IsLongestFit budget es (prune_from budget (total_chars es) es)
unfolding prune_from total_chars
prune_from_lem budget [] = fit_of_all budget [] (omega arith)
prune_from_lem budget (e ∷ es) =
    let rest : entry_chars e + total_chars es - entry_chars e ≡ total_chars es = omega arith in
    rw rest (elim (Bool-cases (ltb budget (entry_chars e + total_chars es))) [
      | inl big ↦ rw big (fit_of_rest budget e es _ (ground arith) (prune_from_lem budget es))
      | inr small ↦ rw small (fit_of_all budget (e ∷ es) (ground arith))
    ])

-- Pruning keeps the longest run of newest entries that the character budget allows, and drops
-- nothing else; the limits stay.
pub prune_oldest_lem :
    (b : ConversationBuffer)
    → IsLongestFit b.max_chars b.entries (prune_oldest b).entries
      × ((prune_oldest b).max_turns ≡ b.max_turns)
      × ((prune_oldest b).max_chars ≡ b.max_chars)
unfolding prune_oldest
prune_oldest_lem b = (prune_from_lem b.max_chars b.entries, refl, refl)

pub IsLongestFit-length :
    {budget : ℕ} {es fit : List TurnEntry} → IsLongestFit budget es fit → length fit ≤ length es
IsLongestFit-length {es} {fit} h =
    omega (arith, ap length h.is_end, length-append {0} h.dropped fit)
