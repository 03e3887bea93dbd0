-- ===== src/Pipeline/Own.antt =====
-- The effects that a pipeline adds: a request to an agent writes to no test case, and the writes of
-- labels and comments only to known ones.
use qa_ai_native.Prelude.{
  String, ◌≡◌, Bool, true, Option, List, [], ◌∷◌, ◌++◌, All, All-append, Bool-cases, inl, inr,
}
use qa_ai_native.Dict.{elem}
use qa_ai_native.Pipeline.{
  Stage, Effect, task_sent, summary_updated, test_cases_created, labels_added, comment_added,
  document_fetched, error_recorded, incident_requested, test_plan_created, results_uploaded,
  report_generated, pure, emit, request_model, Classified, Feedback, get_artifacts_from_task,
  get_model_from_artifacts, send_task, Answer, expect, received,
}
use qa_ai_native.Pipeline.Kept.{
  Keeps, Keeps-then, received-Keeps, artifacts-Keeps, model-Keeps, expect-Keeps,
}
use qa_ai_native.Pipeline.Story.{Outside, write, write_labels, write_comments}

-- An effect that writes to a test case writes to one of these keys.
abbrev pub IsOwn : List String → Effect → Type 0
IsOwn known (labels_added key labels) = elem key known ≡ true
IsOwn known (comment_added key lines) = elem key known ≡ true
IsOwn known (task_sent stage) = Unit
IsOwn known (summary_updated stage) = Unit
IsOwn known test_cases_created = Unit
IsOwn known document_fetched = Unit
IsOwn known error_recorded = Unit
IsOwn known (incident_requested input files) = Unit
IsOwn known test_plan_created = Unit
IsOwn known (results_uploaded key results) = Unit
IsOwn known (report_generated results) = Unit

pub Keeps-emit : (P : Effect → Type 0) (e : Effect) → P e → Keeps (All P) (emit e)
Keeps-emit P e p log h = All-append P log (e ∷ []) h (p, tt)

module _ (known : List String) where
  error-Owns :
      (log : List Effect) → All (IsOwn known) log → All (IsOwn known) (log ++ error_recorded ∷ [])
  error-Owns log h = All-append (IsOwn known) log (error_recorded ∷ []) h (tt, tt)

  send-Keeps :
      (answers : Stage → Answer) (stage : Stage)
      → Keeps (All (IsOwn known)) (send_task answers stage)
  send-Keeps answers stage =
      Keeps-then (All (IsOwn known)) (emit (task_sent stage)) (λ done. received (answers stage))
        (Keeps-emit (IsOwn known) (task_sent stage) tt)
        (λ done. received-Keeps (All (IsOwn known)) error-Owns (answers stage))

  pub request-Keeps :
      {A : Type 0} (answers : Stage → Answer) (is_error : String → Bool) (parse : String → Option A)
      (stage : Stage)
      → Keeps (All (IsOwn known)) (request_model answers is_error parse stage)
  unfolding request_model
  request-Keeps answers is_error parse stage =
      Keeps-then (All (IsOwn known)) (send_task answers stage) _ (send-Keeps answers stage) (λ task.
        Keeps-then (All (IsOwn known)) (get_artifacts_from_task task) _
          (artifacts-Keeps (All (IsOwn known)) error-Owns task)
          (λ artifacts.
            Keeps-then (All (IsOwn known)) (get_model_from_artifacts is_error parse artifacts) _
              (model-Keeps (All (IsOwn known)) error-Owns is_error parse artifacts)
              (λ result.
                Keeps-then (All (IsOwn known)) (expect result) _
                  (expect-Keeps (All (IsOwn known)) error-Owns result)
                  (λ a.
                    Keeps-then (All (IsOwn known)) (emit (summary_updated stage)) (λ done. pure a)
                      (Keeps-emit (IsOwn known) (summary_updated stage) tt) (λ done log h. h)))))

  write-Keeps : (o : Outside) (e : Effect) → IsOwn known e → Keeps (All (IsOwn known)) (write o e)
  write-Keeps o e p log h = elim (Bool-cases (o.accepts e)) [
    | inl taken ↦ rw taken (Keeps-emit (IsOwn known) e p log h)
    | inr left ↦ rw left h
  ]

  -- The keys that are looked up may be fewer.
  abbrev pub Covers : List String → Type 0
  Covers keys = (k : String) → elem k keys ≡ true → elem k known ≡ true

  pub labels-Keeps :
      (keys : List String)
      → Covers keys
      → (o : Outside) (cs : List Classified) → Keeps (All (IsOwn known)) (write_labels o keys cs)
  unfolding write_labels
  labels-Keeps keys covered o [] log h = h
  labels-Keeps keys covered o (c ∷ cs) log h = elim (Bool-cases (elem c.issue_key keys)) [
    | inl mine ↦ rw mine (
        Keeps-then (All (IsOwn known)) (write o (labels_added c.issue_key c.labels)) _
          (write-Keeps o (labels_added c.issue_key c.labels) (covered c.issue_key mine))
          (λ done. labels-Keeps keys covered o cs) log h)
    | inr other ↦ rw other (labels-Keeps keys covered o cs log h)
  ]

  pub comments-Keeps :
      (keys : List String)
      → Covers keys
      → (o : Outside) (fs : List Feedback) → Keeps (All (IsOwn known)) (write_comments o keys fs)
  unfolding write_comments
  comments-Keeps keys covered o [] log h = h
  comments-Keeps keys covered o (f ∷ fs) log h = elim (Bool-cases (elem f.test_case_id keys)) [
    | inl mine ↦ rw mine (
        Keeps-then (All (IsOwn known)) (write o (comment_added f.test_case_id f.review_feedback)) _
          (write-Keeps o (comment_added f.test_case_id f.review_feedback)
            (covered f.test_case_id mine))
          (λ done. comments-Keeps keys covered o fs) log h)
    | inr other ↦ rw other (comments-Keeps keys covered o fs log h)
  ]
