-- ===== src/Pipeline/Tests/Execution.antt =====
-- A small execution of the tests of a project.
use qa_ai_native.Prelude.{String, ◌≡◌, refl, true, false, some, none, List, [], ◌∷◌}
use qa_ai_native.Dict.{insert}
use qa_ai_native.TestCases.{TestCase, ExecutionStatus, passed, failed, group_test_cases_by_labels}
use qa_ai_native.Zephyr.Executions.{Incident}
use qa_ai_native.Pipeline.{
  returned, Task, Executed, IncidentCreationInput, incident_requested, test_plan_created,
  results_uploaded, report_generated,
}
use qa_ai_native.Pipeline.Execution.{Backend, completed, execute_tests, with_incident}
use qa_ai_native.Pipeline.Reporting.{IsReported, execute_tests-IsReported}

abbrev tc : String → TestCase
tc key = record {
  key = key;
  labels = "auto" ∷ "ui" ∷ [];
  name = "n";
  summary = "";
  comment = "";
  preconditions = none;
  steps = [];
  parent_issue_key = none;
}

abbrev executed : String → ExecutionStatus → Executed
executed key status = record {
  result = record {
    execution = record {
      step_results = [];
      test_case_key = key;
      status = status;
      general_error_message = "";
      start_timestamp = "";
      end_timestamp = "";
      incident = none;
    };
    artifacts = [];
  };
  system_description = some "chrome";
  test_case = some (tc key);
}

abbrev incident : Incident
incident = record { incident_id = none; incident_key = some "BUG-1"; duplicates = [] }

abbrev task : Task
task = record {
  is_completed = true;
  artifacts =
      record {
        name = "result";
        parts = record { text = some "model"; raw = none; media_type = ""; filename = "" } ∷ [];
      }
      ∷ [];
}

abbrev backend : Backend
backend = record {
  automated_label = "auto";
  priority_field = "p";
  fetched = some (("auto", tc "T-1" ∷ tc "T-2" ∷ []) ∷ []);
  executed = λ groups. some (executed "T-1" passed ∷ executed "T-2" failed ∷ []);
  incident_answer = λ input. returned (some task);
  is_error = λ s. false;
  incident_model = λ s. some incident;
  plan = some "R-1";
  uploads = λ rs. true;
  reports = λ rs. true;
}

abbrev input : IncidentCreationInput
input = record {
  test_case = tc "T-2";
  test_execution_result = "";
  test_step_results = [];
  system_description = "chrome";
  issue_priority_field_id = "p";
}

abbrev reported : List Executed
reported = executed "T-1" passed ∷ with_incident (some incident) (executed "T-2" failed) ∷ []

whole_execution : execute_tests backend [] ≡ (
  incident_requested input []
      ∷ test_plan_created
      ∷ results_uploaded "R-1" reported
      ∷ report_generated reported
      ∷ [],
  some (completed 2),
)
unfolding execute_tests insert
whole_execution = refl

execute_tests-IsReported_example :
    IsReported backend "R-1"
      (executed "T-1" passed ∷ executed "T-2" failed ∷ [])
      (execute_tests backend [])
unfolding group_test_cases_by_labels insert
execute_tests-IsReported_example =
    execute_tests-IsReported backend "R-1" (("auto", tc "T-1" ∷ tc "T-2" ∷ []) ∷ []) [] (tc "T-1")
      (tc "T-2" ∷ []) ("ui", tc "T-1" ∷ tc "T-2" ∷ []) (executed "T-1" passed)
      (executed "T-2" failed ∷ []) refl refl refl refl refl (λ rs. refl) (λ rs. refl)
