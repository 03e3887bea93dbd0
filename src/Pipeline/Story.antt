-- ===== src/Pipeline/Story.antt =====
-- The stages of the pipeline of a story (orchestrator/main.py): the requests to the agents and the
-- writing to Feishu Project. `created` is what the creation there returns, and `accepts` tells which
-- other writes do not raise.
use qa_ai_native.Prelude.{
  ℕ, ◌+◌, String, Bool, Option, none, some, List, [], ◌∷◌, ◌++◌, if◌then◌else◌, str_eq, str_append,
}
use qa_ai_native.Dict.{elem}
use qa_ai_native.TestCases.{TestCase}
use qa_ai_native.Pipeline.{
  Stage, generation, classification, review, Answer, Classified, Feedback, Effect, labels_added,
  comment_added, test_cases_created, document_fetched, error_recorded, Run, ◌>>=◌, ◌>>◌, pure, emit,
  handle_exception, raise, request_model,
}

-- `zip(test_cases, keys, strict=False)`: the test cases get the keys from the front.
unfoldable pub assign_keys : String → List String → List TestCase → List TestCase
assign_keys story_id keys [] = []
assign_keys story_id [] (tc ∷ tcs) = tc ∷ tcs
assign_keys story_id (key ∷ keys) (tc ∷ tcs) =
    record tc { key = key; parent_issue_key = some story_id } ∷ assign_keys story_id keys tcs

unfoldable pub mock_keys : (ℕ → String) → String → ℕ → List TestCase → List TestCase
mock_keys show story_id i [] = []
mock_keys show story_id i (tc ∷ tcs) =
    record tc { key = str_append "MOCK-TC-" (show (i + 1)); parent_issue_key = some story_id }
    ∷ mock_keys show story_id (i + 1) tcs

-- A missing key is the empty text.
unfoldable pub get_known_test_case_keys : List TestCase → List String
get_known_test_case_keys [] = []
get_known_test_case_keys (tc ∷ tcs) =
    let rest = get_known_test_case_keys tcs in if str_eq tc.key "" then rest else tc.key ∷ rest

-- The configuration, and what the outside answers.
pub record Outside : Type 0 where
  pub is_configured : Bool
  pub answers : Stage → Answer
  pub created : List TestCase → Option (List String)
  pub accepts : Effect → Bool
  pub show : ℕ → String

-- A write to Feishu Project, which raises if it is not accepted.
abbrev pub write : Outside → Effect → Run (Unit {0})
write o e = if o.accepts e then emit e else raise

unfoldable pub write_test_cases_to_feishu_project :
    Outside → List TestCase → String → Run (List TestCase)
unfolding assign_keys mock_keys
write_test_cases_to_feishu_project o tcs story_id =
    if o.is_configured
    then elim (o.created tcs) [
      | none ↦ raise
      | some keys ↦ (do emit test_cases_created; pure (assign_keys story_id keys tcs))
    ]
    else pure (mock_keys o.show story_id 0 tcs)

unfoldable pub write_labels : Outside → List String → List Classified → Run (Unit {0})
write_labels o known [] = pure tt
write_labels o known (c ∷ cs) =
    if elem c.issue_key known
    then (do write o (labels_added c.issue_key c.labels); write_labels o known cs)
    else write_labels o known cs

unfoldable pub write_test_case_classifications_to_feishu_project :
    Outside → List Classified → List TestCase → Run (Unit {0})
unfolding write_labels get_known_test_case_keys
write_test_case_classifications_to_feishu_project o classified tcs =
    if o.is_configured then write_labels o (get_known_test_case_keys tcs) classified else pure tt

unfoldable pub write_comments : Outside → List String → List Feedback → Run (Unit {0})
write_comments o known [] = pure tt
write_comments o known (f ∷ fs) =
    if elem f.test_case_id known
    then (do write o (comment_added f.test_case_id f.review_feedback); write_comments o known fs)
    else write_comments o known fs

unfoldable pub write_test_case_review_feedbacks_to_feishu_project :
    Outside → List Feedback → List TestCase → Run (Unit {0})
unfolding write_comments get_known_test_case_keys
write_test_case_review_feedbacks_to_feishu_project o feedbacks tcs =
    if o.is_configured then write_comments o (get_known_test_case_keys tcs) feedbacks else pure tt

-- The exception of a stage is recorded, and the run ends.
abbrev pub recorded : List Effect × Option (Unit {0}) → List Effect
recorded (log, none) = log ++ error_recorded ∷ []
recorded (log, some done) = log

module _ (o : Outside) (is_error : String → Bool) (generated : String → Option (List TestCase))
    (classified : String → Option (List Classified))
    (reviewed : String → Option (List Feedback)) where
  unfoldable pub request_test_cases_generation : Run (List TestCase)
  unfolding request_model
  request_test_cases_generation = request_model o.answers is_error generated generation

  unfoldable pub request_test_cases_classification : Run (List Classified)
  unfolding request_model
  request_test_cases_classification = request_model o.answers is_error classified classification

  -- The document is fetched first, whose failure is recorded.
  unfoldable pub request_test_cases_review : Run (List Feedback)
  unfolding request_model
  request_test_cases_review = do
    (if o.accepts document_fetched then emit document_fetched else handle_exception)
    request_model o.answers is_error reviewed review

  -- The body of the `try`: the first part makes the test cases and their keys, the second one writes
  -- their classifications and reviews.
  unfoldable pub prepare : String → Run (List TestCase)
  unfolding request_test_cases_generation write_test_cases_to_feishu_project
  prepare story_id = do
    generated_cases ← request_test_cases_generation
    write_test_cases_to_feishu_project o generated_cases story_id

  unfoldable pub write_back : List TestCase → Run (Unit {0})
  unfolding request_test_cases_classification write_test_case_classifications_to_feishu_project
      request_test_cases_review write_test_case_review_feedbacks_to_feishu_project
  write_back tcs = do
    classes ← request_test_cases_classification
    write_test_case_classifications_to_feishu_project o classes tcs
    feedbacks ← request_test_cases_review
    write_test_case_review_feedbacks_to_feishu_project o feedbacks tcs

  unfoldable pub stages : String → Run (Unit {0})
  unfolding prepare write_back
  stages story_id = do tcs ← prepare story_id; write_back tcs

  unfoldable pub run_pipeline : String → List Effect → List Effect
  unfolding stages
  run_pipeline story_id log = recorded (stages story_id log)
