-- ===== src/Xray/Queries.antt =====
-- The operations of the Xray client that look test cases, transitions and links up
-- (common/services/xray_client.py), and the creation of a test plan.
use qa_ai_native.Prelude.{
  String, true, Option, none, some, List, [], ◌∷◌, if◌then◌else◌, str_append, map, length, ◌==◌,
}
use qa_ai_native.Dict.{Dict, elem}
use qa_ai_native.Json.{
  Json, null, string, number, array, object, get, has_key, is_truthy, dict, items_of,
}
use qa_ai_native.Retry.{Attempt}
use qa_ai_native.Service.{
  http_get, http_post, Call, Api, value_error, unexpected, ◌>>=◌, ◌>>◌, pure, raise, guard,
  or_raise, as_list,
}
use qa_ai_native.TestCases.{TestCase, add_to_group}
use qa_ai_native.Webhook.{is_text}
use qa_ai_native.Xray.{
  Config, entry, jira_call, field?, execute, execute_json, execute_graphql_query,
}
use qa_ai_native.Xray.Parse.{results_of, test_cases_of}

abbrev pub or_empty : Option String → Json
or_empty none = string ""
or_empty (some s) = string s

abbrev pub comma_quoted : List String → String
comma_quoted [] = ""
comma_quoted (l ∷ []) = str_append "\"" (str_append l "\"")
comma_quoted (l ∷ m ∷ ls) =
    str_append "\"" (str_append l (str_append "\", " (comma_quoted (m ∷ ls))))

-- The loop over the labels of a test case.
unfoldable pub add_labels :
    List String → TestCase → List String → Dict (List TestCase) → Dict (List TestCase)
unfolding add_to_group
add_labels targets tc [] groups = groups
add_labels targets tc (label ∷ labels) groups =
    add_labels targets tc labels
      (if elem label targets then add_to_group label tc groups else groups)

-- The loop over the test cases.
unfoldable pub group_by_labels :
    List String → List TestCase → Dict (List TestCase) → Dict (List TestCase)
unfolding add_labels
group_by_labels targets [] groups = groups
group_by_labels targets (tc ∷ tcs) groups =
    group_by_labels targets tcs (add_labels targets tc tc.labels groups)

abbrev pub ready_jql : String → List String → String
ready_jql project_key targets =
    str_append "project = " (
      str_append project_key
        (str_append " AND labels in (" (str_append (comma_quoted targets) ")")))

module _ {S : Type 0} (send : Call → S → S × Attempt (Option Json)) (c : Config) where
  unfoldable pub fetch_test_cases_by_jql : String → Api S (List TestCase)
  unfolding execute_graphql_query results_of test_cases_of
  fetch_test_cases_by_jql jql = do
    response ←
        execute_graphql_query send c c.tests_query
          (object (dict (("jql", string jql) ∷ ("limit", number true "100") ∷ [])))
    results ← or_raise unexpected (results_of response)
    or_raise unexpected (test_cases_of c.preconditions_field_id results)

  unfoldable pub fetch_test_cases_by_jira_issue : String → Api S (List TestCase)
  unfolding fetch_test_cases_by_jql
  fetch_test_cases_by_jira_issue issue_key =
      fetch_test_cases_by_jql
        (str_append "'parent' = " (str_append issue_key " AND issuetype = 'Test'"))

  unfoldable pub fetch_test_case_by_key : String → Api S TestCase
  unfolding fetch_test_cases_by_jql
  fetch_test_case_by_key key = do
    results ← fetch_test_cases_by_jql (str_append "issue = " key)
    elim results [ [] ↦ raise value_error | tc ∷ rest ↦ pure tc ]

  unfoldable pub fetch_ready_for_execution_test_cases_by_labels :
      String → List String → Api S (Dict (List TestCase))
  unfolding fetch_test_cases_by_jql group_by_labels
  fetch_ready_for_execution_test_cases_by_labels project_key targets = do
    tcs ← fetch_test_cases_by_jql (ready_jql project_key targets)
    pure (group_by_labels targets tcs [])

  -- The identifier of the first transition to a status; `null` where there is none.
  unfoldable pub find_transition : String → List Json → Api S Json
  unfolding get has_key
  find_transition wanted [] = pure null
  find_transition wanted (t ∷ rest) = do
    target ← or_raise unexpected (field? "to" t)
    name ← or_raise unexpected (field? "name" target)
    (if is_text wanted name
        then or_raise unexpected (field? "id" t)
        else find_transition wanted rest)

  unfoldable pub change_test_case_status : String → String → Api S (Option Json)
  unfolding execute_json execute find_transition get has_key
  change_test_case_status key new_status_name = do
    let endpoint = str_append "issue/" (str_append key "/transitions")
    answer ← execute_json send (jira_call c http_get endpoint null)
    found ← or_raise unexpected (field? "transitions" answer)
    transitions ← as_list found
    id ← find_transition new_status_name transitions
    guard (is_truthy id) value_error
    execute send (jira_call c http_post endpoint (entry "transition" (entry "id" id)))

  -- The input of the mutation that creates a test plan.
  abbrev pub plan_input : String → String → Option String → List String → Json
  plan_input project_key name description test_case_keys = object (
      dict (
        (
          "jira",
          entry "fields" (
              object (
                dict (
                  ("project", entry "key" (string project_key))
                  ∷ ("summary", string name)
                  ∷ ("issuetype", entry "name" (string "Test Plan"))
                  ∷ ("description", or_empty description)
                  ∷ []))),
        )
        ∷ (if length test_case_keys == 0
            then []
            else ("testIssueIds", array (items_of (map string test_case_keys))) ∷ [])))

  unfoldable pub create_test_plan : String → String → Option String → List String → Api S Json
  unfolding execute_graphql_query get has_key
  create_test_plan project_key name description test_case_keys = do
    response ←
        execute_graphql_query send c c.plan_mutation
          (entry "testPlan" (plan_input project_key name description test_case_keys))
    body ← or_raise unexpected (field? "data" (object response))
    created ← or_raise unexpected (field? "createTestPlan" body)
    plan ← or_raise unexpected (field? "testPlan" created)
    fields ← or_raise unexpected (field? "jira" plan)
    or_raise unexpected (field? "key" fields)

  -- The links of an answer; one without the two keys has none.
  unfoldable pub links_of : Option Json → Api S (List Json)
  unfolding get has_key
  links_of none = pure []
  links_of (some (object fields)) =
      if has_key "fields" fields
      then elim (get "fields" fields) [
        | object inner ↦
            if has_key "issuelinks" inner then as_list (get "issuelinks" inner) else pure []
        | _ ↦ raise unexpected
      ]
      else pure []
  links_of (some j) = if is_truthy j then raise unexpected else pure []

  unfoldable pub fetch_linked_issues : String → Api S (List Json)
  unfolding execute links_of
  fetch_linked_issues key = do
    answer ←
        execute send
          (jira_call c http_get (str_append "issue/" (str_append key "?fields=issuelinks")) null)
    links_of answer
