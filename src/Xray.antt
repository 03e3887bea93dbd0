-- ===== src/Xray.antt =====
-- The client of Xray and Jira (common/services/xray_client.py): its requests, and the operations
-- that write test cases. The service is a parameter, as for Zephyr; `none` is an
-- answer with status 204, and the reading of a JSON body is part of the call.
pub mod Parse
pub mod Executions
pub mod Files
pub mod Labels
pub mod Creation
pub mod Queries
mod Tests
use qa_ai_native.Prelude.{
  ℕ, String, Bool, true, false, not, Option, none, some, List, [], ◌∷◌, ◌++◌, if◌then◌else◌,
  str_append, str_eq, map, length, ◌==◌,
}
use qa_ai_native.Dict.{Dict, elem}
use qa_ai_native.Json.{
  Json, null, string, number, array, object, nil, Fields, end, get, get_or, has_key, is_truthy,
  dict, items_of, list_of, texts_of, iterate,
}
use qa_ai_native.Retry.{Attempt}
use qa_ai_native.Service.{
  http_get, http_post, http_put, Method, Call, World, Api, value_error, unexpected, Outcome, done,
  ◌>>=◌, ◌>>◌, pure, raise, guard, or_raise, as_fields, as_text, as_optional_text,
}
use qa_ai_native.TestCases.{TestStep, TestCase, add_to_group}
use qa_ai_native.Webhook.{is_text, to_text}
use qa_ai_native.Zephyr.{outcome_of}
use qa_ai_native.Zephyr.Parse.{texts?}

-- What the configuration sets, and the texts of the GraphQL queries.
pub record Config : Type 0 where
  pub base_url : String
  pub jira_base_url : String
  pub preconditions_field_id : String
  pub tests_query : String
  pub plan_mutation : String
  pub steps_mutation : String

abbrev pub entry : String → Json → Json
entry k j = object (dict ((k, j) ∷ []))

abbrev pub jira_call : Config → Method → String → Json → Call
jira_call c method endpoint content = record {
  method = method;
  url = str_append c.jira_base_url (str_append "/rest/api/3/" endpoint);
  content = content;
}

abbrev pub xray_call : Config → String → Json → Call
xray_call c endpoint content = record {
  method = http_post;
  url = str_append c.base_url (str_append "/api/v2/" endpoint);
  content = content;
}

abbrev pub graphql_call : Config → String → Json → Call
graphql_call c query variables =
    xray_call c "graphql" (object (dict (("query", string query) ∷ ("variables", variables) ∷ [])))

-- `value["key"]`
abbrev pub field? : String → Json → Option Json
field? k (object fields) = if has_key k fields then some (get k fields) else none
field? k j = none

abbrev pub issue_payload : String → TestCase → Json
issue_payload project_key tc = entry "fields" (
    object (
      dict (
        ("summary", string tc.name)
        ∷ ("description", string tc.summary)
        ∷ ("issuetype", entry "name" (string "Test"))
        ∷ ("project", entry "key" (string project_key))
        ∷ [])))

abbrev pub step_payload : TestStep → Json
step_payload step = object (
    dict (
      ("action", string step.action)
      ∷ ("data", string "")
      ∷ ("result", string step.expected_results)
      ∷ []))

abbrev pub link_call : Config → String → Json → Call
link_call c user_story_id key = jira_call c http_post "issueLink" (
    object (
      dict (
        ("type", entry "name" (string "Relates"))
        ∷ ("inwardIssue", entry "key" key)
        ∷ ("outwardIssue", entry "key" (string user_story_id))
        ∷ [])))

abbrev pub bulk_call : Config → String → List TestCase → Call
bulk_call c project_key tcs =
    jira_call c http_post "issue/bulk"
      (entry "issueUpdates" (array (items_of (map (issue_payload project_key) tcs))))

abbrev pub steps_call : Config → Json → List TestStep → Call
steps_call c issue_id steps = graphql_call c c.steps_mutation (
    object
      (dict (("issueId", issue_id) ∷ ("steps", array (items_of (map step_payload steps))) ∷ [])))

-- `[issue["key"] for issue in created_issues]`
unfoldable pub keys_of : List Json → Option (List Json)
unfolding get has_key
keys_of [] = some []
keys_of (issue ∷ issues) = elim (field? "key" issue) [
  | none ↦ none
  | some key ↦ elim (keys_of issues) [ none ↦ none | some keys ↦ some (key ∷ keys) ]
]

module _ {S : Type 0} (send : Call → S → S × Attempt (Option Json)) where
  -- One request, without a retry; `None` for status 204.
  unfoldable pub execute : Call → Api S (Option Json)
  execute call w =
      let (service, reply) = send call w.service in
      (record { service = service; sent = w.sent ++ call ∷ []; slept = w.slept }, outcome_of reply)

  -- Reading a key of `None` is an exception.
  unfoldable pub execute_json : Call → Api S Json
  unfolding execute
  execute_json call = do body ← execute call; or_raise unexpected body

  module _ (c : Config) where
    -- The answer to a GraphQL call, which may name errors.
    unfoldable pub execute_graphql : Call → Api S Fields
    unfolding execute_json has_key
    execute_graphql call = do
      answer ← execute_json call
      fields ← as_fields answer
      guard (not (has_key "errors" fields)) unexpected
      pure fields

    unfoldable pub execute_graphql_query : String → Json → Api S Fields
    unfolding execute_graphql
    execute_graphql_query query variables = execute_graphql (graphql_call c query variables)

    unfoldable pub add_test_case_review_comment : String → String → Api S (Option Json)
    unfolding execute
    add_test_case_review_comment key comment = execute (
        jira_call c http_post (str_append "issue/" (str_append key "/comment")) (
          entry "body" (
            object (
              dict (
                ("type", string "doc")
                ∷ ("version", number true "1")
                ∷ (
                  "content",
                  array (
                      items_of (
                        object (
                          dict (
                            ("type", string "paragraph")
                            ∷ (
                              "content",
                              array (
                                  items_of (
                                    object (
                                      dict
                                        (("type", string "text") ∷ ("text", string comment) ∷ []))
                                    ∷ [])),
                            )
                            ∷ []))
                        ∷ [])),
                )
                ∷ [])))))

    unfoldable pub add_labels_to_test_case : String → List String → Api S (Option Json)
    unfolding execute
    add_labels_to_test_case key labels = execute (
        jira_call c http_put (str_append "issue/" key) (
          entry "update"
            (entry "labels" (array (items_of (map (λ l. entry "add" (string l)) labels))))))

    unfoldable pub add_steps_to_test_case : Json → List TestStep → Api S Fields
    unfolding execute_graphql
    add_steps_to_test_case issue_id steps = execute_graphql (steps_call c issue_id steps)

    -- The loop that adds the steps: an issue without a test case of its place is an `IndexError`.
    unfoldable pub add_all_steps : List Json → List TestCase → Api S (Unit {0})
    unfolding add_steps_to_test_case get has_key
    add_all_steps [] tcs = pure tt
    add_all_steps (issue ∷ issues) [] = raise unexpected
    add_all_steps (issue ∷ issues) (tc ∷ tcs) = do
      answer ←
          (if length tc.steps == 0 then pure end else (do
            id ← or_raise unexpected (field? "id" issue)
            add_steps_to_test_case id tc.steps))
      add_all_steps issues tcs

    unfoldable pub link_all : String → List Json → Api S (Unit {0})
    unfolding execute
    link_all user_story_id [] = pure tt
    link_all user_story_id (key ∷ keys) = do
      answer ← execute (link_call c user_story_id key)
      link_all user_story_id keys

    unfoldable pub create_test_cases : List TestCase → String → String → Api S (List Json)
    unfolding execute_json keys_of add_all_steps link_all get has_key
    create_test_cases tcs project_key user_story_id = do
      answer ← execute_json (bulk_call c project_key tcs)
      found ← or_raise unexpected (field? "issues" answer)
      issues ← or_raise unexpected (iterate found)
      keys ← or_raise unexpected (keys_of issues)
      stepped ← add_all_steps issues tcs
      linked ← link_all user_story_id keys
      pure keys
