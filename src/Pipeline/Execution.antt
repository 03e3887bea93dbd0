-- ===== src/Pipeline/Execution.antt =====
-- The execution of the automated tests of a project (orchestrator/main.py): `execute_tests` with the
-- requests to create incidents and the report. Incidents that are requested at the same time are
-- listed in the order of the results, each with what follows its request. The execution itself
-- (Selection, Pool) and what the clients answer are inputs.
use qa_ai_native.Prelude.{
  ℕ, String, Bool, true, false, Option, none, some, List, [], ◌∷◌, ◌++◌, if◌then◌else◌, length,
}
use qa_ai_native.Dict.{Dict, lookup}
use qa_ai_native.TestCases.{
  TestCase, ExecutionStatus, passed, failed, error, group_test_cases_by_labels,
}
use qa_ai_native.Zephyr.Executions.{Incident}
use qa_ai_native.Xray.Executions.{FileArtifact}
use qa_ai_native.Pipeline.{
  Answer, Executed, IncidentCreationInput, Effect, error_recorded, incident_requested,
  test_plan_created, results_uploaded, report_generated, Run, ◌>>=◌, ◌>>◌, pure, emit,
  handle_exception, raise, received, get_artifacts_from_task, get_model_from_artifacts,
}

-- The configuration, and what the outside answers.
pub record Backend : Type 0 where
  pub automated_label : String
  pub priority_field : String
  -- the test cases ready for execution, under the label for automation
  pub fetched : Option (Dict (List TestCase))
  -- `_request_all_test_cases_execution`
  pub executed : Dict (List TestCase) → Option (List Executed)
  -- what the agent answers to a request, and how a text parses
  pub incident_answer : IncidentCreationInput → Answer
  pub is_error : String → Bool
  pub incident_model : String → Option Incident
  -- the key of the created test plan, and whether the upload and the report succeed
  pub plan : Option String
  pub uploads : List Executed → Bool
  pub reports : List Executed → Bool

pub data Response : Type 0 where
  no_test_cases no_label : Response
  completed : ℕ → Response

abbrev pub needs_incident : ExecutionStatus → Bool
needs_incident passed = false
needs_incident failed = true
needs_incident error = true

-- A result without its test case or the description of the system makes the input's validation fail.
unfoldable pub incident_input : Backend → Executed → Option IncidentCreationInput
incident_input b e = elim e.test_case [
  | none ↦ none
  | some tc ↦ elim e.system_description [
    | none ↦ none
    | some description ↦ some (record {
      test_case = tc;
      test_execution_result = e.result.execution.general_error_message;
      test_step_results = e.result.execution.step_results;
      system_description = description;
      issue_priority_field_id = b.priority_field;
    })
  ]
]

-- What follows the sending of the request.
abbrev pub read_incident : Backend → Answer → Run (Option Incident)
read_incident b answer = do
  task ← received answer
  artifacts ← get_artifacts_from_task task
  get_model_from_artifacts b.is_error b.incident_model artifacts

-- `none` if the agent reports an error.
unfoldable pub request_incident_creation :
    Backend → IncidentCreationInput → List FileArtifact → Run (Option Incident)
unfolding get_artifacts_from_task get_model_from_artifacts
request_incident_creation b input files = do
  emit (incident_requested input files)
  read_incident b (b.incident_answer input)

abbrev pub with_incident : Option Incident → Executed → Executed
with_incident incident e =
    let execution = e.result.execution in
    record e { result = record e.result { execution = record execution { incident = incident } } }

-- An exception is recorded, and leaves the result as it is.
abbrev pub settled : Executed → List Effect × Option (Option Incident) → List Effect × Executed
settled e (log, none) = (log ++ error_recorded ∷ [], e)
settled e (log, some incident) = (log, with_incident incident e)

unfoldable pub create_incident_for_result :
    Backend → Executed → List Effect → List Effect × Executed
unfolding incident_input request_incident_creation
create_incident_for_result b e log = settled e (elim (incident_input b e) [
  | none ↦ (log, none)
  | some input ↦ request_incident_creation b input e.result.artifacts log
])

unfoldable pub request_incident_creation_for_failed_tests :
    Backend → List Executed → List Effect → List Effect × List Executed
unfolding create_incident_for_result
request_incident_creation_for_failed_tests b [] log = (log, [])
request_incident_creation_for_failed_tests b (e ∷ es) log =
    let (log', e') =
      if needs_incident e.result.execution.status
      then create_incident_for_result b e log
      else (log, e) in
    let (log'', es') = request_incident_creation_for_failed_tests b es log' in (log'', e' ∷ es')

unfoldable pub generate_test_report : Backend → List Executed → Run (Unit {0})
generate_test_report b results = elim b.plan [
  | none ↦ raise
  | some key ↦ (do
    emit test_plan_created
    (if b.uploads results then emit (results_uploaded key results) else raise)
    (if b.reports results then emit (report_generated results) else raise))
]

-- An exception of the report is recorded.
abbrev pub reported : ℕ → List Effect × Option (Unit {0}) → List Effect × Option Response
reported n (log, none) = handle_exception log
reported n (log, some done) = (log, some (completed n))

-- The results are reported if there are any.
abbrev pub finish : Backend → List Effect × List Executed → List Effect × Option Response
finish b (log, []) = (log, some (completed 0))
finish b (log, e ∷ es) = reported (length (e ∷ es)) (generate_test_report b (e ∷ es) log)

-- An exception of the execution is not recorded.
abbrev pub run_results : Backend → Option (List Executed) → Run Response
run_results b none log = (log, none)
run_results b (some results) log =
    finish b (request_incident_creation_for_failed_tests b results log)

abbrev pub run_groups : Backend → Dict (List TestCase) → Run Response
run_groups b [] = pure no_label
run_groups b (g ∷ gs) = run_results b (b.executed (g ∷ gs))

abbrev pub run_test_cases : Backend → Option (List TestCase) → Run Response
run_test_cases b none = pure no_test_cases
run_test_cases b (some []) = pure no_test_cases
run_test_cases b (some (tc ∷ tcs)) =
    run_groups b (group_test_cases_by_labels b.automated_label (tc ∷ tcs))

abbrev pub run_fetched : Backend → Option (Dict (List TestCase)) → Run Response
run_fetched b none = handle_exception
run_fetched b (some groups) = run_test_cases b (lookup b.automated_label groups)

unfoldable pub execute_tests : Backend → Run Response
unfolding request_incident_creation_for_failed_tests generate_test_report group_test_cases_by_labels
execute_tests b = run_fetched b b.fetched
