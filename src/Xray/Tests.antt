-- ===== src/Xray/Tests.antt =====
-- Runs of the Xray client against small services.
use qa_ai_native.Prelude.{◌≡◌, refl, Option, some, none, List, [], ◌∷◌, ◌++◌, map, arith}
use qa_ai_native.Dict.{Dict}
use qa_ai_native.Json.{Json, string, array, object, Fields, get, has_key, dict, items_of, texts}
use qa_ai_native.Retry.{Attempt, succeeded}
use qa_ai_native.Service.{Call, World, done, unexpected, failed}
use qa_ai_native.Service.Sends.{Sends}
use qa_ai_native.TestCases.{TestCase, TestStep, passed}
use qa_ai_native.Xray.{
  Config, bulk_call, link_call, execute_graphql_query, execute_graphql, execute_json, execute,
  create_test_cases,
}
use qa_ai_native.Xray.Creation.{Issue, step_calls, create_issues-Sends}
use qa_ai_native.Xray.Executions.{Result, create_test_execution}
use qa_ai_native.Xray.Files.{create_test_execution-Imported}
use qa_ai_native.Reserve.{join}
use qa_ai_native.Xray.Labels.{wanted_jql}
use qa_ai_native.Xray.Parse.{test_cases_of, test_case_of, results_of}
use qa_ai_native.Xray.Queries.{fetch_test_cases_by_jql, ready_jql}

abbrev config : Config
config = record {
  base_url = "x";
  jira_base_url = "j";
  preconditions_field_id = "p";
  tests_query = "q";
  plan_mutation = "m";
  steps_mutation = "s";
}

abbrev start : World (Unit {0})
start = record { service = tt; sent = []; slept = [] }

-- One answer for every call: created issues, and the results of a query.
abbrev found : Fields
found = dict (
    (
      "jira",
      object (
          dict (
            ("summary", string "n")
            ∷ ("labels", array (items_of (texts ("ui" ∷ "slow" ∷ []))))
            ∷ [])),
    )
    ∷ ("issueId", string "10")
    ∷ [])

abbrev answer : Fields
answer = dict (
    (
      "issues",
      array (items_of (object (dict (("id", string "1") ∷ ("key", string "P-1") ∷ [])) ∷ [])),
    )
    ∷ (
      "data",
      object (
          dict (
            ("getTests", object (dict (("results", array (items_of (object found ∷ []))) ∷ [])))
            ∷ [])),
    )
    ∷ [])

abbrev serve : Call → Unit {0} → Unit {0} × Attempt (Option Json)
serve call s = (tt, succeeded (some (object answer)))

abbrev tc : TestCase
tc = record {
  key = "10";
  labels = "ui" ∷ "slow" ∷ [];
  name = "n";
  summary = "n";
  comment = "";
  preconditions = some "";
  steps = [];
  parent_issue_key = none;
}

found_cases :
    (fetch_test_cases_by_jql serve config (ready_jql "P" ("ui" ∷ [])) start).1 ≡ done (tc ∷ [])
unfolding fetch_test_cases_by_jql execute_graphql_query execute_graphql execute_json execute
    results_of test_cases_of test_case_of
found_cases = refl

jql_text : wanted_jql "P" ("ui" ∷ "api" ∷ []) ≡ "project = P AND labels in (\"ui\", \"api\")"
unfolding join
jql_text = refl

abbrev step : TestStep
step = record { action = "open"; expected_results = "seen"; test_data = [] }

abbrev two : List TestCase
two = record tc { steps = step ∷ [] } ∷ tc ∷ []

abbrev issue : Issue
issue = record { id = string "1"; key = string "P-1" }

create_issues-Sends_example :
    Sends
      (bulk_call config "P" two ∷ step_calls config (issue ∷ []) two
        ++ map (link_call config "P-9") (string "P-1" ∷ []))
      (string "P-1" ∷ [])
      start
      (create_test_cases serve config two "P" "P-9" start)
unfolding has_key get
create_issues-Sends_example =
    create_issues-Sends serve config (λ call. answer) (λ call s. refl) (λ call. refl) two "P" "P-9"
      (issue ∷ []) start refl refl (omega arith)

abbrev result : Result
result = record {
  execution = record {
    step_results = [];
    test_case_key = "P-1";
    status = passed;
    general_error_message = "";
    start_timestamp = "";
    end_timestamp = "";
    incident = none;
  };
  artifacts = record { name = "log"; raw = "r"; media_type = "text/plain" } ∷ [];
}

create_test_execution-Imported_example :
    create_test_execution (λ s. none) (λ t. "") serve config (result ∷ []) "P" "T" none start
    ≡ (start, failed unexpected)
create_test_execution-Imported_example =
    create_test_execution-Imported (λ s. none) (λ t. "") serve config (result ∷ []) "P" "T" none
      start
