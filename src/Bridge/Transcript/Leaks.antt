-- ===== src/Bridge/Transcript/Leaks.antt =====
-- `_LEAKED_FUNC_RE` of realtime_event_bridge.py as a relation, alternative by alternative, and the
-- matcher that decides it.
use mathlib.Core.Path.{subst}
use event_driven_ai_voice.Prelude.{
  Bool, Bool-cases, Text, [], arith, codes, false, inl, inr, is_space, refl, some, strip_left, true,
  ◌==◌, ◌||◌, ◌∷◌, ◌≡◌, ◌⊎◌, ℕ, Option-cases, ap, is_some, ◌↔◌, ◌&&◌, ◌∙◌,
}
use event_driven_ai_voice.Bridge.Transcript.{
  after_literal, ends_word, fold_case, skip_optional, call_at, leak_at, mention_at, open_call_at,
  separated_mention,
}

-- A literal in small letters, in whatever case, and what follows it.
pub data Reads : Text → Text → Text → Type 0 where
  read : {s : Text} → Reads [] s s
  letter :
      {p c : ℕ} {ps s rest : Text} → fold_case c ≡ p → Reads ps s rest → Reads (p ∷ ps) (c ∷ s) rest

-- `\s*`
pub data Spaces : Text → Text → Type 0 where
  no_space : {s : Text} → Spaces s s
  space : {c : ℕ} {s rest : Text} → is_space c ≡ true → Spaces s rest → Spaces (c ∷ s) rest

-- An optional character.
pub data Optional (p : ℕ) : Text → Text → Type 0 where
  absent : {s : Text} → Optional p s s
  present : {c : ℕ} {s : Text} → fold_case c ≡ p → Optional p (c ∷ s) s

-- `[.\s]`
abbrev pub separates : ℕ → Bool
separates c = c == b'.' || is_space c

-- A match of one of the three alternatives at the start of a text.
pub data IsLeak (is_word : ℕ → Bool) : Text → Type 0 where
  function_call :
      {s s₁ s₂ s₃ s₄ rest : Text} {c : ℕ}
      → Spaces s s₁
      → Optional b'(' s₁ s₂
      → Reads (codes "function") s₂ s₃
      → Optional b's' s₃ (c ∷ s₄)
      → separates c ≡ true
      → Reads (codes "route_to_specialist") s₄ rest
      → IsLeak is_word s
  bare_name : {s rest : Text} → Reads (codes "route_to_specialist") s rest → IsLeak is_word s
  open_call :
      {s s₁ rest : Text}
      → Spaces s s₁
      → Reads (codes "functions") s₁ rest
      → ends_word is_word rest ≡ true
      → IsLeak is_word (b'(' ∷ s)

Reads-after_literal : {p s rest : Text} → Reads p s rest → after_literal p s ≡ some rest
unfolding after_literal
Reads-after_literal read = refl
Reads-after_literal (letter {p} {c} {ps} {s} {rest} same h) =
    let later = Reads-after_literal h in ground (arith)

after_literal-Reads : (p s rest : Text) → after_literal p s ≡ some rest → Reads p s rest
unfolding after_literal
after_literal-Reads [] s rest h = let e : s ≡ rest = cc in rw e read
after_literal-Reads (p ∷ ps) [] rest h = cc
after_literal-Reads (p ∷ ps) (c ∷ s) rest h = elim (Bool-cases (fold_case c == p)) [
  | inl same ↦ letter (ground arith) (after_literal-Reads ps s rest (ground arith))
  | inr other ↦ ground arith
]

strip_left-Spaces : (s : Text) → Spaces s (strip_left s)
unfolding strip_left
strip_left-Spaces [] = no_space
strip_left-Spaces (c ∷ s) = elim (Bool-cases (is_space c)) [
  | inl blank ↦ rw (blank, strip_left) (space blank (strip_left-Spaces s))
  | inr other ↦ rw (other, strip_left) no_space
]

skip-Optional : (p : ℕ) (s : Text) → Optional p s (skip_optional p s)
unfolding skip_optional
skip-Optional p [] = absent
skip-Optional p (c ∷ s) = elim (Bool-cases (fold_case c == p)) [
  | inl same ↦ rw same (present (ground arith))
  | inr other ↦ rw other absent
]

-- Spaces in front of a character that is none.
Spaces-strip_left :
    {s rest : Text} {c : ℕ} → Spaces s (c ∷ rest) → is_space c ≡ false → strip_left s ≡ c ∷ rest
unfolding strip_left
Spaces-strip_left no_space h = rw (h, strip_left) refl
Spaces-strip_left (space blank sp) h = rw (blank, strip_left) (Spaces-strip_left sp h)

-- The letters and the parenthesis of the expression are no spaces.
visible : (c : ℕ) → (fold_case c ≡ b'f') ⊎ (fold_case c ≡ b'(') → is_space c ≡ false
unfolding fold_case is_space
visible c (inl h) = ground arith
visible c (inr h) = ground arith

-- A separator is no letter of the expression.
separates-plain : (c : ℕ) → separates c ≡ true → (fold_case c == b's') ≡ false
unfolding fold_case is_space
separates-plain c h = ground arith

plural_skipped :
    {s s' : Text} {c : ℕ}
    → Optional b's' s (c ∷ s')
    → separates c ≡ true
    → skip_optional b's' s ≡ c ∷ s'
unfolding skip_optional
plural_skipped {c} absent h = rw (separates-plain c h, skip_optional) refl
plural_skipped (present {c} same) h = ground (arith, same)

bracket_skipped :
    {s s₁ s₂ s₃ : Text}
    → Spaces s s₁
    → Optional b'(' s₁ s₂
    → Reads (codes "function") s₂ s₃
    → skip_optional b'(' (strip_left s) ≡ s₂
unfolding skip_optional
bracket_skipped sp absent (letter {c} same h) =
    rw (Spaces-strip_left sp (visible c (inl same))) (ground arith)
bracket_skipped sp (present {c} same) h =
    rw (Spaces-strip_left sp (visible c (inr same))) (ground arith)

Reads-mention_at :
    {s rest : Text} → Reads (codes "route_to_specialist") s rest → mention_at s ≡ true
unfolding mention_at
Reads-mention_at h = ap is_some (Reads-after_literal h)

separated_true :
    (c : ℕ) (s : Text) → separates c ≡ true → mention_at s ≡ true → separated_mention (c ∷ s) ≡ true
unfolding separated_mention
separated_true c s sep name = ap (λ b. b && mention_at s) sep ∙ name

call_true :
    (s : Text) {s₂ s₃ s₄ : Text} {c : ℕ}
    → skip_optional b'(' (strip_left s) ≡ s₂
    → after_literal (codes "function") s₂ ≡ some s₃
    → skip_optional b's' s₃ ≡ c ∷ s₄
    → separated_mention (c ∷ s₄) ≡ true
    → call_at s ≡ true
unfolding call_at
call_true s e₁ e₂ e₃ e₄ = rw (e₁, e₂, e₃, call_at) e₄

IsLeak-leak_at : (is_word : ℕ → Bool) {s : Text} → IsLeak is_word s → leak_at is_word s ≡ true
unfolding leak_at open_call_at
IsLeak-leak_at is_word {s} (function_call {s₄ = t} {c = c} sp bracket fn plural sep name) =
    let e =
      call_true s (bracket_skipped sp bracket fn) (Reads-after_literal fn)
        (plural_skipped plural sep) (separated_true c t sep (Reads-mention_at name)) in
    ap (λ b. b || mention_at s || open_call_at is_word s) e
IsLeak-leak_at is_word (bare_name name) = let e = Reads-mention_at name in ground arith
IsLeak-leak_at is_word (open_call sp (letter {c} same h) ends) =
    let e₁ = Spaces-strip_left sp (visible c (inl same)) in
    let e₂ = Reads-after_literal (letter {c = c} same h) in ground arith

mention_at-Reads :
    (s : Text) → mention_at s ≡ true → (rest : Text) × Reads (codes "route_to_specialist") s rest
unfolding mention_at
mention_at-Reads s h = elim (Option-cases (after_literal (codes "route_to_specialist") s)) [
  | inl miss ↦ cc
  | inr (rest, found) ↦ (rest, after_literal-Reads (codes "route_to_specialist") s rest found)
]

both : (a b : Bool) → (a && b) ≡ true → (a ≡ true) × (b ≡ true)
both true b h = (refl, h)
both false b h = cc

separated :
    (t : Text)
    → separated_mention t ≡ true
    → (c : ℕ) × (s : Text) × (t ≡ c ∷ s)
      × (separates c ≡ true)
      × (rest : Text) × Reads (codes "route_to_specialist") s rest
unfolding separated_mention
separated [] h = cc
separated (c ∷ t) h =
    let (sep, named) = both (separates c) (mention_at t) h in
    let (rest, name) = mention_at-Reads t named in (c, t, refl, sep, rest, name)

call_at-IsLeak : (is_word : ℕ → Bool) (s : Text) → call_at s ≡ true → IsLeak is_word s
unfolding call_at
call_at-IsLeak is_word s h =
    let s₂ = skip_optional b'(' (strip_left s) in
    elim (Option-cases (after_literal (codes "function") s₂)) [
      | inl miss ↦ ground arith
      | inr (s₃, found) ↦
          let (c, s₄, e, sep, rest, name) = separated (skip_optional b's' s₃) (ground arith) in
          function_call (strip_left-Spaces s) (skip-Optional b'(' (strip_left s))
            (after_literal-Reads (codes "function") s₂ s₃ found)
            (subst (Optional b's' s₃) e (skip-Optional b's' s₃)) sep name
    ]

open_call_at-IsLeak :
    (is_word : ℕ → Bool) (s : Text) → open_call_at is_word s ≡ true → IsLeak is_word s
unfolding open_call_at
open_call_at-IsLeak is_word [] h = cc
open_call_at-IsLeak is_word (c ∷ s) h =
    elim (Option-cases (after_literal (codes "functions") (strip_left s))) [
      | inl miss ↦ ground arith
      | inr (rest, found) ↦
          let first : b'(' ≡ c = ground arith in
          subst (λ (c : ℕ). IsLeak is_word (c ∷ s)) first
            (open_call (strip_left-Spaces s)
              (after_literal-Reads (codes "functions") (strip_left s) rest found) (ground arith))
    ]

-- The matcher finds exactly the matches of the expression.
pub leak_at_iff : (is_word : ℕ → Bool) (s : Text) → (leak_at is_word s ≡ true) ↔ IsLeak is_word s
unfolding leak_at
leak_at_iff is_word s = (
  λ h. elim (Bool-cases (call_at s)) [
    | inl call ↦ call_at-IsLeak is_word s call
    | inr no_call ↦ elim (Bool-cases (mention_at s)) [
      | inl name ↦ bare_name (mention_at-Reads s name).1
      | inr no_name ↦ open_call_at-IsLeak is_word s (ground arith)
    ]
  ],
  IsLeak-leak_at is_word,
)
