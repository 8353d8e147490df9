-- ===== src/Bridge/Transcript/Clean.antt =====
-- What `_clean_transcript` (realtime_event_bridge.py) keeps of a transcript.
use event_driven_ai_voice.Bridge.Transcript.Leaks.{IsLeak, leak_at_iff}
use event_driven_ai_voice.Prelude.{
  length, suc, ◌<◌, Bool, Bool-cases, Text, [], ap, arith, codes, false, inl, inr, is_some, refl,
  strip, strip_left, true, ◌++◌, ◌∷◌, ◌≡◌, ◌||◌, is_space, sym, ℕ, ◌∙◌, ◌⊎◌,
}
use mathlib.Core.List.{reverse-reverse, reverse-append, reverse}
use event_driven_ai_voice.Bridge.Transcript.{
  after_literal, mention_at, clean_transcript, cut, leak_at,
}

-- The function's name anywhere in a text, whatever the case.
unfoldable pub mentions : Text → Bool
mentions [] = false
mentions (c ∷ s) = mention_at (c ∷ s) || mentions s

after_literal-append :
    (p s t : Text) → is_some (after_literal p s) ≡ true → is_some (after_literal p (s ++ t)) ≡ true
unfolding after_literal
after_literal-append [] s t h = refl
after_literal-append (a ∷ p) [] t h = cc
after_literal-append (a ∷ p) (c ∷ s) t h = ground (arith, after_literal-append p s t)

mention_at-append : (s t : Text) → mention_at s ≡ true → mention_at (s ++ t) ≡ true
unfolding mention_at
mention_at-append s t h = after_literal-append (codes "route_to_specialist") s t h

mentions-append_left : (s t : Text) → mentions s ≡ true → mentions (s ++ t) ≡ true
unfolding mentions
mentions-append_left [] t h = cc
mentions-append_left (c ∷ s) t h =
    ground (arith, mention_at-append (c ∷ s) t, mentions-append_left s t)

mentions-append_right : (s t : Text) → mentions t ≡ true → mentions (s ++ t) ≡ true
unfolding mentions
mentions-append_right [] t h = h
mentions-append_right (c ∷ s) t h = ground (arith, mentions-append_right s t h)

strip_left_end : (s : Text) → (front : Text) × (s ≡ front ++ strip_left s)
unfolding strip_left
strip_left_end [] = ([], refl)
strip_left_end (c ∷ s) = elim (Bool-cases (is_space c)) [
  | inl space ↦ let (front, e) = strip_left_end s in (c ∷ front, ground (arith, ap (◌∷◌ c) e))
  | inr other ↦ ([], ground arith)
]

strip_infix : (s : Text) → (front : Text) × (end : Text) × (s ≡ front ++ (strip s ++ end))
unfolding strip
strip_infix s =
    let inner = strip_left s in
    let (front, e) = strip_left_end s in
    let (back, f) = strip_left_end (reverse inner) in
    (
      front,
      reverse back,
      e
          ∙ ap (λ t. front ++ t)
              (sym (reverse-reverse inner)
                ∙ ap reverse f
                ∙ reverse-append back (strip_left (reverse inner))),
    )

strip-mentions : (s : Text) → mentions s ≡ false → mentions (strip s) ≡ false
strip-mentions s h =
    let (front, end, e) = strip_infix s in
    elim (Bool-cases (mentions (strip s))) [
      | inl named ↦
          let whole = mentions-append_right front _ (mentions-append_left (strip s) end named) in
          let found : mentions s ≡ true = rw e whole in cc
      | inr clean ↦ clean
    ]

-- What is cut off: nothing, or a rest that starts with a match.
cut_rest :
    (is_word : ℕ → Bool) (s : Text)
    → (rest : Text) × (s ≡ cut is_word s ++ rest) × ((rest ≡ []) ⊎ (leak_at is_word rest ≡ true))
unfolding cut
cut_rest is_word [] = ([], refl, inl refl)
cut_rest is_word (c ∷ s) = elim (Bool-cases (leak_at is_word (c ∷ s))) [
  | inl leak ↦ rw leak (c ∷ s, refl, inr leak)
  | inr free ↦ let (rest, e, matched) = cut_rest is_word s in rw free (rest, ap (◌∷◌ c) e, matched)
]

mention_at-leak : (is_word : ℕ → Bool) (s : Text) → mention_at s ≡ true → leak_at is_word s ≡ true
unfolding leak_at
mention_at-leak is_word s h = ground arith

-- What is kept before a place without a match names the function nowhere there.
kept-mention_at :
    (is_word : ℕ → Bool) (c : ℕ) (s kept rest : Text)
    → s ≡ kept ++ rest
    → leak_at is_word (c ∷ s) ≡ false
    → mention_at (c ∷ kept) ≡ false
kept-mention_at is_word c s kept rest e free = elim (Bool-cases (mention_at (c ∷ kept))) [
  | inl named ↦
      let whole : mention_at (c ∷ s) ≡ true = rw e (mention_at-append (c ∷ kept) rest named) in
      let leak = mention_at-leak is_word (c ∷ s) whole in cc
  | inr clean ↦ clean
]

cut-mentions : (is_word : ℕ → Bool) (s : Text) → mentions (cut is_word s) ≡ false
unfolding cut mentions
cut-mentions is_word [] = refl
cut-mentions is_word (c ∷ s) = elim (Bool-cases (leak_at is_word (c ∷ s))) [
  | inl leak ↦ rw leak refl
  | inr free ↦
      let (rest, e, _) = cut_rest is_word s in
      rw (free, kept-mention_at is_word c s (cut is_word s) rest e free) (cut-mentions is_word s)
]

-- A split behind a place without a match, given the splits of the rest.
rest_first :
    (is_word : ℕ → Bool) (c : ℕ) (s front back : Text)
    → ((f : Text)
        → s ≡ f ++ back
        → length f < length (cut is_word s)
        → leak_at is_word back ≡ false)
    → c ∷ s ≡ front ++ back
    → length front < suc (length (cut is_word s))
    → leak_at is_word (c ∷ s) ≡ false
    → leak_at is_word back ≡ false
rest_first is_word c s [] back ih e h free = ap (leak_at is_word) (sym e) ∙ free
rest_first is_word c s (x ∷ front) back ih e h free = ih front (cc) (omega (arith, h))

-- No match starts before the end of what is kept.
cut-first :
    (is_word : ℕ → Bool) (s front back : Text)
    → s ≡ front ++ back
    → length front < length (cut is_word s)
    → leak_at is_word back ≡ false
unfolding cut
cut-first is_word [] front back e h = absurd (omega (arith, h))
cut-first is_word (c ∷ s) front back e h = elim (Bool-cases (leak_at is_word (c ∷ s))) [
  | inl leak ↦
      let none_kept : cut is_word (c ∷ s) ≡ [] = rw (leak, cut) refl in
      absurd (omega (arith, ap length none_kept, h))
  | inr free ↦
      let more : cut is_word (c ∷ s) ≡ c ∷ cut is_word s = rw (free, cut) refl in
      rest_first is_word c s front back (λ f split early. cut-first is_word s f back split early) e
        (omega (arith, ap length more, h)) free
]

-- What stands before the first match of the expression, or the whole where there is none.
pub record IsBeforeLeak (is_word : ℕ → Bool) (text kept : Text) : Type 0 where
  pub rest : Text
  pub whole : text ≡ kept ++ rest
  pub ending : (rest ≡ []) ⊎ IsLeak is_word rest
  pub first :
      (front back : Text)
      → text ≡ front ++ back
      → length front < length kept
      → ¬ IsLeak is_word back

cut-IsBeforeLeak : (is_word : ℕ → Bool) (text : Text) → IsBeforeLeak is_word text (cut is_word text)
cut-IsBeforeLeak is_word text =
    let (rest, e, matched) = cut_rest is_word text in
    record {
      rest = rest;
      whole = e;
      ending = elim matched [
        | inl over ↦ inl over
        | inr leak ↦ inr ((leak_at_iff is_word rest).0 leak)
      ];
      first = λ front back split early leak.
          let free = cut-first is_word text front back split early in
          let found = (leak_at_iff is_word back).1 leak in cc;
    }

-- The transcript that is passed on is what stands before the first match of the expression's three
-- alternatives, or the whole where there is none, stripped; and it does not mention the function's name,
-- in whatever case.
pub clean_transcript_lem :
    (is_word : ℕ → Bool) (text : Text)
    → (kept : Text) × IsBeforeLeak is_word text kept
      × (clean_transcript is_word text ≡ strip kept)
      × (mentions (clean_transcript is_word text) ≡ false)
unfolding clean_transcript
clean_transcript_lem is_word text = (
  cut is_word text,
  cut-IsBeforeLeak is_word text,
  refl,
  strip-mentions (cut is_word text) (cut-mentions is_word text),
)
