-- ===== src/Specialist/Reply.antt =====
-- What a specialist tool (specialist_tools.py) answers, and the one form of the history.
use event_driven_ai_voice.Prelude.{
  Text, List, [], false, is_empty, none, some, strip, sym, ◌++◌, ◌∷◌, ◌≡◌, ◌⊎◌, codes, join, map,
  Bool-cases, ap, arith, inl, inr, refl, strip_left, true,
}
use event_driven_ai_voice.Types.{Message}
use event_driven_ai_voice.Router.{RouterPromptBuilder, build_response_create, history_line, newline}
use event_driven_ai_voice.Specialist.{
  TextModel, call_text_model, format_history_block, run_specialist, Department, create,
  customer_request, department_system_prompt, literal, replied, text_of,
}
use mathlib.Core.List.{append-nil, append_assoc}

-- The router's prompt and the specialist's prompts show the history in the same words: the
-- router's instructions are its system prompt followed by the specialists' history block.
build-format_history_block :
    (history : List Message) (b : RouterPromptBuilder)
    → (build_response_create history b).instructions
      ≡ b.system_instruction ++ format_history_block history
unfolding build_response_create format_history_block
build-format_history_block [] b = sym (append-nil b.system_instruction)
build-format_history_block (m ∷ ms) b =
    append_assoc b.system_instruction (codes "\n\nConversation history:\n")
      (join newline (map history_line (m ∷ ms)))

-- No reply with a text that is not blank arrives.
abbrev pub IsSilent : TextModel → Type 0
IsSilent (replied (some content)) = is_empty (strip content) ≡ true
IsSilent _ = Unit {0}

strip-empty : (content : Text) → is_empty content ≡ true → is_empty (strip content) ≡ true
unfolding strip strip_left
strip-empty [] h = refl
strip-empty (c ∷ s) h = cc

text_of_cases :
    (t : TextModel)
    → ((content : Text) × (t ≡ replied (some content))
        × (is_empty (strip content) ≡ false)
        × (text_of t ≡ some (strip content)))
      ⊎ (IsSilent t × (text_of t ≡ none))
unfolding text_of
text_of_cases (replied (some content)) = elim (Bool-cases (is_empty (strip content))) [
  | inl blank ↦ inr (blank, ground arith)
  | inr full ↦ elim (Bool-cases (is_empty content)) [
    | inl none_at_all ↦ let b = strip-empty content none_at_all in cc
    | inr some_text ↦ inl (content, refl, full, rw (some_text, full) refl)
  ]
]
text_of_cases _ = inr (tt, refl)

-- A specialist never fails. It answers with the model's text exactly when a reply with a text that
-- is not blank arrives, stripped, and else with a payload that has no tools, in which the realtime
-- model gets the same prompt, history and request as the text model was given.
pub run_specialist_lem :
    (model : Text → Text → TextModel) (department : Department) (summary : Text)
    (history : List Message)
    → let system_prompt = department_system_prompt department in
      let message = format_history_block history ++ customer_request summary in
      ((content : Text) × (model system_prompt message ≡ replied (some content))
        × (is_empty (strip content) ≡ false)
        × (run_specialist model department summary history ≡ literal (strip content)))
      ⊎ (IsSilent (model system_prompt message)
          × (run_specialist model department summary history
              ≡ create (record { instructions = system_prompt ++ message; tools = [] })))
unfolding run_specialist call_text_model
run_specialist_lem model department summary history =
    let system_prompt = department_system_prompt department in
    let message = format_history_block history ++ customer_request summary in
    elim (text_of_cases (model system_prompt message)) [
      | inl (content, arrived, full, read) ↦ inl (content, arrived, full, rw (read, run_specialist))
      | inr (quiet, failed) ↦ inr (
        quiet,
        rw (failed, run_specialist)
            (ap (λ t. create (record { instructions = t; tools = [] }))
              (append_assoc system_prompt (format_history_block history)
                (customer_request summary))),
      )
    ]
