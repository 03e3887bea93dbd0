-- ===== src/Pipeline/Kept.antt =====
-- The commands of a pipeline that keep what holds of the effects so far: a request to an agent adds,
-- after it is sent, only records of errors.
use qa_ai_native.Prelude.{
  String, Bool, true, false, Option, some, none, List, [], ◌∷◌, ◌++◌, if◌then◌else◌,
}
use qa_ai_native.Pipeline.{
  Effect, error_recorded, Run, and_then, ◌>>=◌, pure, get_artifacts_from_task,
  get_model_from_artifacts, get_text_content_from_artifacts, Answer, Task, Artifact, refused,
  returned, texts_of_artifacts, require, expect, expect_any, expect_one, received,
}

abbrev pub Keeps : {A : Type 0} → (List Effect → Type 0) → Run A → Type 0
Keeps Q m = (log : List Effect) → Q log → Q (m log).0

module _ {A B : Type 0} where
  pub after-Keeps :
      (Q : List Effect → Type 0) (r : List Effect × Option A) (k : A → Run B)
      → Q r.0
      → ((a : A) → Keeps Q (k a))
      → Q (and_then r k).0
  after-Keeps Q (log, none) k h next = h
  after-Keeps Q (log, some a) k h next = next a log h

  pub Keeps-then :
      (Q : List Effect → Type 0) (m : Run A) (k : A → Run B)
      → Keeps Q m
      → ((a : A) → Keeps Q (k a))
      → Keeps Q (m >>= k)
  Keeps-then Q m k first next log h = after-Keeps Q (m log) k (first log h) next

-- What holds still holds when an error is recorded.
module _ (Q : List Effect → Type 0)
    (recorded : (log : List Effect) → Q log → Q (log ++ error_recorded ∷ [])) where
  any-Keeps : {A : Type 0} (l : List A) → Keeps Q (expect_any l)
  any-Keeps [] log h = recorded log h
  any-Keeps (a ∷ l) log h = h

  one-Keeps : {A : Type 0} (l : List A) → Keeps Q (expect_one l)
  one-Keeps [] log h = recorded log h
  one-Keeps (a ∷ []) log h = h
  one-Keeps (a ∷ b ∷ l) log h = recorded log h

  pub expect-Keeps : {A : Type 0} (o : Option A) → Keeps Q (expect o)
  expect-Keeps none log h = recorded log h
  expect-Keeps (some a) log h = h

  require-Keeps : (b : Bool) → Keeps Q (require b)
  require-Keeps true log h = h
  require-Keeps false log h = recorded log h

  pub received-Keeps : (answer : Answer) → Keeps Q (received answer)
  received-Keeps refused log h = h
  received-Keeps (returned task) log h = h

  parsed-Keeps :
      {A : Type 0} (b : Bool) (o : Option A)
      → Keeps Q (if b then pure none else (do a ← expect o; pure (some a)))
  parsed-Keeps true o log h = h
  parsed-Keeps false o log h =
      Keeps-then Q (expect o) (λ a. pure (some a)) (expect-Keeps o) (λ a l k. k) log h

  pub model-Keeps :
      {A : Type 0} (is_error : String → Bool) (parse : String → Option A)
      (artifacts : List Artifact)
      → Keeps Q (get_model_from_artifacts is_error parse artifacts)
  unfolding get_model_from_artifacts get_text_content_from_artifacts
  model-Keeps is_error parse artifacts =
      Keeps-then Q (expect_any (texts_of_artifacts artifacts)) _
        (any-Keeps (texts_of_artifacts artifacts))
        (λ parts.
          Keeps-then Q (expect_one parts) _ (one-Keeps parts)
            (λ text. parsed-Keeps (is_error text) (parse text)))

  pub artifacts-Keeps : (found : Option Task) → Keeps Q (get_artifacts_from_task found)
  unfolding get_artifacts_from_task
  artifacts-Keeps found = Keeps-then Q (expect found) _ (expect-Keeps found) (λ task.
      Keeps-then Q (require task.is_completed) _ (require-Keeps task.is_completed)
        (λ done. any-Keeps task.artifacts))
