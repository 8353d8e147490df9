-- ===== src/Bridge/Transcript.antt =====
-- `_clean_transcript` of backend/src/voice_runtime/realtime_event_bridge.py, and the regular
-- expression that it uses. The class of word characters, which `\b` asks for, is an argument: it is
-- a table of the Unicode database.
pub mod Clean
pub mod Leaks
use event_driven_ai_voice.Prelude.{
  ℕ, Bool, Option, Text, [], codes, false, if◌then◌else◌, is_some, is_space, leb, none, not, some,
  strip, strip_left, true, ◌&&◌, ◌+◌, ◌==◌, ◌||◌, ◌∷◌,
}

-- The letter that a character counts as when case is ignored: the dotted and the dotless i and the
-- long s are an i and an s.
unfoldable pub fold_case : ℕ → ℕ
fold_case c =
    if leb b'A' c && leb c b'Z'
    then c + 32
    else if c == 0x130 || c == 0x131
    then b'i'
    else if c == 0x17f
    then b's'
    else c

-- What follows a literal in small letters, where a text starts with it in whatever case.
unfoldable pub after_literal : Text → Text → Option Text
unfolding fold_case
after_literal [] s = some s
after_literal (p ∷ ps) [] = none
after_literal (p ∷ ps) (c ∷ s) = if fold_case c == p then after_literal ps s else none

-- An optional character.
unfoldable pub skip_optional : ℕ → Text → Text
unfolding fold_case
skip_optional p [] = []
skip_optional p (c ∷ s) = if fold_case c == p then s else c ∷ s

-- `route_to_specialist`
unfoldable pub mention_at : Text → Bool
unfolding after_literal
mention_at s = is_some (after_literal (codes "route_to_specialist") s)

-- `[.\s]route_to_specialist`
unfoldable pub separated_mention : Text → Bool
unfolding mention_at is_space
separated_mention [] = false
separated_mention (c ∷ s) = (c == b'.' || is_space c) && mention_at s

-- `\s*\(?functions?[.\s]route_to_specialist`
unfoldable pub call_at : Text → Bool
unfolding after_literal skip_optional separated_mention strip_left
call_at s = elim (after_literal (codes "function") (skip_optional b'(' (strip_left s))) [
  | none ↦ false
  | some rest ↦ separated_mention (skip_optional b's' rest)
]

-- `\b` after a word character.
unfoldable pub ends_word : (ℕ → Bool) → Text → Bool
ends_word is_word [] = true
ends_word is_word (c ∷ s) = not (is_word c)

-- `\(\s*functions\b`
unfoldable pub open_call_at : (ℕ → Bool) → Text → Bool
unfolding after_literal ends_word strip_left
open_call_at is_word [] = false
open_call_at is_word (c ∷ s) =
    c == b'(' && elim (after_literal (codes "functions") (strip_left s)) [
      | none ↦ false
      | some rest ↦ ends_word is_word rest
    ]

-- A match of `_LEAKED_FUNC_RE` at the start of a text; every alternative goes on to the end.
unfoldable pub leak_at : (ℕ → Bool) → Text → Bool
unfolding mention_at call_at open_call_at
leak_at is_word s = call_at s || mention_at s || open_call_at is_word s

-- `_LEAKED_FUNC_RE.sub("", text)`: the text up to the first match.
unfoldable pub cut : (ℕ → Bool) → Text → Text
unfolding leak_at
cut is_word [] = []
cut is_word (c ∷ s) = if leak_at is_word (c ∷ s) then [] else c ∷ cut is_word s

unfoldable pub clean_transcript : (ℕ → Bool) → Text → Text
unfolding cut strip
clean_transcript is_word text = strip (cut is_word text)
