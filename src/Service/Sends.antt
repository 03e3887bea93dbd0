-- ===== src/Service/Sends.antt =====
-- The calls that a command sends.
use mathlib.Core.List.{append_assoc, append-nil}
use qa_ai_native.Prelude.{◌≡◌, refl, sym, ap, ◌∙◌, Option, some, List, [], ◌++◌}
use qa_ai_native.Json.{Json, object, Fields}
use qa_ai_native.Retry.{Attempt, succeeded}
use qa_ai_native.Service.{Call, World, Outcome, done, Api, pure, and_then, and_then-eq}

-- From a world on, the command has sent these calls, without any sleep, and returns `a`.
pub record Sends {S A : Type 0} (calls : List Call) (a : A) (w : World S) (r : World S × Outcome A)
    : Type 0 where
  pub value : r.1 ≡ done a
  pub sent : r.0.sent ≡ w.sent ++ calls
  pub slept : r.0.slept ≡ w.slept

module _ {S : Type 0} where
  pub pure-Sends : {A : Type 0} (a : A) (w : World S) → Sends [] a w (pure a w)
  pure-Sends a w = record { value = refl; sent = sym (append-nil w.sent); slept = refl }

  pub Sends-then :
      {A B : Type 0} (first rest : List Call) (a : A) (b : B) (w : World S)
      (r : World S × Outcome A) (k : A → Api S B)
      → Sends first a w r
      → Sends rest b r.0 (k a r.0)
      → Sends (first ++ rest) b w (and_then r k)
  Sends-then first rest a b w r k s t = rw (and_then-eq r k a s.value) (record {
    value = t.value;
    sent = t.sent ∙ ap (λ l. l ++ rest) s.sent ∙ append_assoc w.sent first rest;
    slept = t.slept ∙ s.slept;
  })

  -- A command that ends with a value of its own sends no more.
  pub Sends-pure :
      {A B : Type 0} (calls : List Call) (a : A) (b : B) (w : World S) (r : World S × Outcome A)
      (k : A → Api S B)
      → Sends calls a w r
      → ((u : World S) → k a u ≡ pure b u)
      → Sends calls b w (and_then r k)
  Sends-pure calls a b w r k s end =
      rw (and_then-eq r k a s.value, end r.0)
        (record { value = refl; sent = s.sent; slept = s.slept })

module _ {S : Type 0} (send : Call → S → S × Attempt (Option Json)) where
  -- The service answers each call with a mapping, which its state does not change.
  abbrev pub Answers : (Call → Fields) → Type 0
  Answers reply = (call : Call) (s : S) → (send call s).1 ≡ succeeded (some (object (reply call)))
