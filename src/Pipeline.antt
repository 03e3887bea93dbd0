-- ===== src/Pipeline.antt =====
-- The pipeline of a user story (orchestrator/main.py): `_run_pipeline` with the requests to the agents,
-- the reading of their artifacts and the writing to Feishu Project. What an agent answers, what the
-- client of Feishu Project answers and how a text parses are inputs; the effects are listed in order.
-- The texts of the summaries are left out.
pub mod Story
pub mod Execution
pub mod Incidents
pub mod Reporting
mod Tests
pub mod Keys
pub mod Kept
pub mod Own
pub mod Writes
use qa_ai_native.Prelude.{
  ℕ, zero, suc, ◌+◌, String, Bool, true, false, not, Option, none, some, List, [], ◌∷◌, ◌++◌,
  if◌then◌else◌, str_eq,
}
use qa_ai_native.Dict.{elem}
use qa_ai_native.TestCases.{TestCase}
use qa_ai_native.Zephyr.Executions.{StepResult}
use qa_ai_native.Xray.Executions.{FileArtifact, Result}

-- A part has a text, bytes, or neither.
pub record Part : Type 0 where
  pub text : Option String
  pub raw : Option String
  pub media_type : String
  pub filename : String

pub record Artifact : Type 0 where
  pub name : String
  pub parts : List Part

pub record Task : Type 0 where
  pub is_completed : Bool
  pub artifacts : List Artifact

pub data Stage : Type 0 where
  generation classification review : Stage

-- What sending a task to an agent comes to; `refused` is an exception.
pub data Answer : Type 0 where
  refused : Answer
  returned : Option Task → Answer

pub record Classified : Type 0 where
  pub issue_key : String
  pub labels : List String

pub record Feedback : Type 0 where
  pub test_case_id : String
  pub review_feedback : List String

-- A `TestExecutionResult`: what is reported of it, its files, and the rest.
pub record Executed : Type 0 where
  pub result : Result
  pub system_description : Option String
  pub test_case : Option TestCase

pub record IncidentCreationInput : Type 0 where
  pub test_case : TestCase
  pub test_execution_result : String
  pub test_step_results : List StepResult
  pub system_description : String
  pub issue_priority_field_id : String

pub data Effect : Type 0 where
  task_sent summary_updated : Stage → Effect
  test_cases_created : Effect
  labels_added : String → List String → Effect
  comment_added : String → List String → Effect
  document_fetched : Effect
  error_recorded : Effect
  -- with the files that the message has as parts
  incident_requested : IncidentCreationInput → List FileArtifact → Effect
  test_plan_created : Effect
  results_uploaded : String → List Executed → Effect
  report_generated : List Executed → Effect

-- A step appends to the effects, and returns a value or raises.
abbrev pub Run : Type 0 → Type 0
Run A = List Effect → List Effect × Option A

module _ {A B : Type 0} where
  abbrev pub and_then : List Effect × Option A → (A → Run B) → List Effect × Option B
  and_then (log, none) k = (log, none)
  and_then (log, some a) k = k a log

  infixl 5 ◌>>=◌ ◌>>◌
  abbrev pub ◌>>=◌ : Run A → (A → Run B) → Run B
  m >>= k = λ log. and_then (m log) k

  abbrev pub ◌>>◌ : Run A → Run B → Run B
  m >> n = m >>= λ _. n

abbrev pub pure : {A : Type 0} → A → Run A
pure a log = (log, some a)

abbrev pub emit : Effect → Run (Unit {0})
emit e log = (log ++ e ∷ [], some tt)

-- `_handle_exception`
abbrev pub handle_exception : {A : Type 0} → Run A
handle_exception log = (log ++ error_recorded ∷ [], none)

-- An exception without a record of it.
abbrev pub raise : {A : Type 0} → Run A
raise log = (log, none)

abbrev pub require : Bool → Run (Unit {0})
require true = pure tt
require false = handle_exception

-- The texts of the parts that have one.
abbrev pub texts_of_parts : List Part → List String
texts_of_parts [] = []
texts_of_parts (p ∷ ps) = elim p.text [
  | none ↦ texts_of_parts ps
  | some s ↦ if str_eq s "" then texts_of_parts ps else s ∷ texts_of_parts ps
]

abbrev pub texts_of_artifacts : List Artifact → List String
texts_of_artifacts [] = []
texts_of_artifacts (a ∷ as') = texts_of_parts a.parts ++ texts_of_artifacts as'

-- A list that must have elements, one that must have exactly one, and a value that must be there.
abbrev pub expect_any : {A : Type 0} → List A → Run (List A)
expect_any [] = handle_exception
expect_any (a ∷ l) = pure (a ∷ l)

abbrev pub expect_one : {A : Type 0} → List A → Run A
expect_one [] = handle_exception
expect_one (a ∷ []) = pure a
expect_one (a ∷ b ∷ l) = handle_exception

abbrev pub expect : {A : Type 0} → Option A → Run A
expect none = handle_exception
expect (some a) = pure a

unfoldable pub get_text_content_from_artifacts : List Artifact → Run (List String)
get_text_content_from_artifacts artifacts = expect_any (texts_of_artifacts artifacts)

-- The file parts.
abbrev pub files_of_parts : List Part → List FileArtifact
files_of_parts [] = []
files_of_parts (p ∷ ps) = elim p.raw [
  | none ↦ files_of_parts ps
  | some raw ↦
      record { name = p.filename; raw = raw; media_type = p.media_type } ∷ files_of_parts ps
]

-- Those of the artifacts that are not for bookkeeping.
unfoldable pub get_file_contents_from_artifacts : List String → List Artifact → List FileArtifact
get_file_contents_from_artifacts bookkeeping [] = []
get_file_contents_from_artifacts bookkeeping (a ∷ artifacts) =
    let rest = get_file_contents_from_artifacts bookkeeping artifacts in
    if elem a.name bookkeeping then rest else files_of_parts a.parts ++ rest

unfoldable pub get_artifacts_from_task : Option Task → Run (List Artifact)
get_artifacts_from_task found = do
  task ← expect found
  require task.is_completed
  expect_any task.artifacts

-- The parsed model, `none` for the error that an agent reports in place of it.
unfoldable pub get_model_from_artifacts :
    {A : Type 0} → (String → Bool) → (String → Option A) → List Artifact → Run (Option A)
unfolding get_text_content_from_artifacts
get_model_from_artifacts is_error parse artifacts = do
  parts ← get_text_content_from_artifacts artifacts
  text ← expect_one parts
  (if is_error text then pure none else (do a ← expect (parse text); pure (some a)))

abbrev pub received : Answer → Run (Option Task)
received refused = raise
received (returned task) = pure task

abbrev pub send_task : (Stage → Answer) → Stage → Run (Option Task)
send_task answers stage = do emit (task_sent stage); received (answers stage)

-- A request to an agent, up to its model: `_request_test_cases_generation` and, for their last part,
-- the requests of the other stages. An error that the agent reports is an exception too.
unfoldable pub request_model :
    {A : Type 0} → (Stage → Answer) → (String → Bool) → (String → Option A) → Stage → Run A
unfolding get_artifacts_from_task get_model_from_artifacts
request_model answers is_error parse stage = do
  task ← send_task answers stage
  artifacts ← get_artifacts_from_task task
  result ← get_model_from_artifacts is_error parse artifacts
  a ← expect result
  emit (summary_updated stage)
  pure a
