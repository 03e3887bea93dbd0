-- ===== src/Redaction/Silence/Tests.antt =====
-- Two traces that are stored alike.
use qa_ai_native.Prelude.{ℕ, ◌≡◌, refl, String, List, [], ◌∷◌, arith, inr, if◌then◌else◌, str_eq}
use qa_ai_native.Redaction.{Message, request, user_prompt, one_text, kept, redact_messages}
use qa_ai_native.Redaction.Silence.{
  pair, none_left, alike_request, same_request, alike_prompt, redact_messages_silent,
}

-- Stand-ins for `len` and `str`.
abbrev len : String → ℕ
len s = if str_eq s "short" then 5 else 300

abbrev digits : ℕ → String
digits n = "300"

abbrev trace : String → List Message
trace doc = request (kept "system" ∷ user_prompt (one_text doc) ∷ []) ∷ []

redact_messages_silent_example :
    redact_messages len digits (trace "secret plan")
    ≡ redact_messages len digits (trace "other plan")
redact_messages_silent_example =
    redact_messages_silent len digits (trace "secret plan") (trace "other plan") (
      pair
        (alike_request
          (pair same_request (pair (alike_prompt (inr (refl, omega arith))) none_left)))
        none_left)
