-- ===== src/Xray/Parse.antt =====
-- The test cases that the Xray client reads off an answer (common/services/xray_client.py):
-- `_fetch_test_cases_by_jql`, from the answer on. `none` is an exception: a key is missing, or a value
-- has not the type that it needs.
use qa_ai_native.Prelude.{String, Option, some, List, [], ◌∷◌}
use qa_ai_native.Json.{Json, string, array, object, nil, Fields, end, get, get_or, has_key, iterate}
use qa_ai_native.TestCases.{TestStep, TestCase}
use qa_ai_native.Xray.{field?}
use qa_ai_native.Zephyr.Parse.{◌>>=◌, text?, fields?, optional_text?, texts?}

unfoldable pub step_of : Json → Option TestStep
unfolding get has_key
step_of step = do
  action ← text? (← field? "action" step)
  result ← text? (← field? "result" step)
  test_data ← text? (← field? "data" step)
  some (record { action = action; expected_results = result; test_data = test_data ∷ [] })

unfoldable pub steps_of : List Json → Option (List TestStep)
unfolding step_of
steps_of [] = some []
steps_of (j ∷ rest) = do some ((← step_of j) ∷ (← steps_of rest))

unfoldable pub test_case_of : String → Json → Option TestCase
unfolding steps_of get get_or has_key
test_case_of preconditions_field_id j = do
  result ← fields? j
  jira_fields ← fields? (get_or (object end) "jira" result)
  steps ← steps_of (← iterate (get_or (array nil) "steps" result))
  key ← text? (← field? "issueId" j)
  summary ← text? (get_or (string "") "summary" jira_fields)
  preconditions ← optional_text? (get_or (string "") preconditions_field_id jira_fields)
  parent ← fields? (get_or (object end) "parent" jira_fields)
  parent_key ← optional_text? (get "key" parent)
  labels ← texts? (get_or (array nil) "labels" jira_fields)
  some (record {
    key = key;
    labels = labels;
    name = summary;
    summary = summary;
    comment = "";
    preconditions = preconditions;
    steps = steps;
    parent_issue_key = parent_key;
  })

unfoldable pub test_cases_of : String → List Json → Option (List TestCase)
unfolding test_case_of
test_cases_of id [] = some []
test_cases_of id (j ∷ rest) = do some ((← test_case_of id j) ∷ (← test_cases_of id rest))

unfoldable pub results_of : Fields → Option (List Json)
unfolding get_or
results_of response = do
  body ← fields? (get_or (object end) "data" response)
  tests ← fields? (get_or (object end) "getTests" body)
  iterate (get_or (array nil) "results" tests)
