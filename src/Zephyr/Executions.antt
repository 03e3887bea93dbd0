-- ===== src/Zephyr/Executions.antt =====
-- The executions that the Zephyr client reports (common/services/zephyr_client.py):
-- `create_test_execution`. `timestamp` is `_parse_timestamp`, whose text is `none` for one that it
-- cannot read.
use qa_ai_native.Prelude.{
  ℕ, zero, suc, ◌-◌, String, Bool, true, false, Option, none, some, List, [], ◌∷◌, ◌++◌,
  if◌then◌else◌, str_append, str_eq, map, length,
}
use qa_ai_native.Json.{
  Json, string, array, object, nil, get, get_or, is_truthy, dict, items_of, iterate,
}
use qa_ai_native.Retry.{Attempt}
use qa_ai_native.Service.{http_post, Call, unexpected, Api, ◌>>=◌, pure, or_raise, as_fields}
use qa_ai_native.TestCases.{ExecutionStatus, passed, failed, error}
use qa_ai_native.Webhook.{to_text}
use qa_ai_native.Zephyr.{Config, request, request_json}
use qa_ai_native.Zephyr.Cases.{url_of}
use qa_ai_native.Zephyr.Search.{steps_call}

pub record StepResult : Type 0 where
  pub success : Bool
  pub error_message : String
  pub actual_results : String
  pub execution_end_timestamp : Option String

pub record Duplicate : Type 0 where
  pub issue_id : String
  pub issue_key : String

-- An incident; its id is a number.
pub record Incident : Type 0 where
  pub incident_id : Option Json
  pub incident_key : Option String
  pub duplicates : List Duplicate

pub record Execution : Type 0 where
  pub step_results : List StepResult
  pub test_case_key : String
  pub status : ExecutionStatus
  pub general_error_message : String
  pub start_timestamp : String
  pub end_timestamp : String
  pub incident : Option Incident

-- An entry of the payload that is left out where a text is missing or empty.
abbrev pub optional_entry : String → Option String → List (String × Json)
optional_entry k none = []
optional_entry k (some s) = if str_eq s "" then [] else (k, string s) ∷ []

unfoldable pub step_entry : (String → Option String) → StepResult → Json
step_entry timestamp r = object (
    dict (
      ("statusName", string (if r.success then "Pass" else "Fail"))
      ∷ (
        "actualResult",
        string (if str_eq r.error_message "" then r.actual_results else r.error_message),
      )
      ∷ (elim r.execution_end_timestamp [
        | none ↦ []
        | some t ↦ if str_eq t "" then [] else optional_entry "actualEndDate" (timestamp t)
      ])))

abbrev pub not_executed : Json
not_executed = object (
    dict (
      ("statusName", string "Not Executed")
      ∷ ("actualResult", string "This step was not executed because a previous step failed.")
      ∷ []))

abbrev pub repeated : ℕ → Json → List Json
repeated zero j = []
repeated (suc n) j = j ∷ repeated n j

-- The results of the steps, filled up to the steps that the test case has.
unfoldable pub script_results : (String → Option String) → ℕ → List StepResult → List Json
unfolding step_entry
script_results timestamp total results =
    map (step_entry timestamp) results ++ repeated (total - length results) not_executed

abbrev pub is_passed : ExecutionStatus → Bool
is_passed passed = true
is_passed failed = false
is_passed error = false

-- `", ".join(...)`
abbrev pub comma_separated : List String → String
comma_separated [] = ""
comma_separated (s ∷ []) = s
comma_separated (s ∷ t ∷ l) = str_append s (str_append ", " (comma_separated (t ∷ l)))

abbrev pub keys_of : List Duplicate → List String
keys_of [] = []
keys_of (d ∷ ds) = d.issue_key ∷ keys_of ds

-- What an incident adds to the comment.
unfoldable pub incident_comment : Option Incident → String
incident_comment none = ""
incident_comment (some incident) =
    str_append
      (elim incident.incident_key [
        | none ↦ ""
        | some key ↦ if str_eq key "" then "" else str_append "<br>Incident created: " key
      ])
      (elim incident.duplicates [
        | [] ↦ ""
        | d ∷ ds ↦
            str_append "\n\nPotential duplicates found: "
              (comma_separated (d.issue_key ∷ keys_of ds))
      ])

unfoldable pub comment_of : Execution → String
unfolding incident_comment
comment_of e =
    str_append (if is_passed e.status then "" else e.general_error_message)
      (incident_comment e.incident)

-- The issues that an execution is linked to: the incident, and the duplicates that have an id.
abbrev pub ids_of : List Duplicate → List Json
ids_of [] = []
ids_of (d ∷ ds) = if str_eq d.issue_id "" then ids_of ds else string d.issue_id ∷ ids_of ds

unfoldable pub issues_of : Option Incident → List Json
issues_of none = []
issues_of (some incident) =
    (elim incident.incident_id [ none ↦ [] | some id ↦ if is_truthy id then id ∷ [] else [] ])
    ++ ids_of incident.duplicates

abbrev pub link_call : Config → (Json → String) → Json → Json → Call
link_call c show execution_id issue = record {
  method = http_post;
  url =
      url_of c
        (str_append "/testexecutions/" (str_append (to_text show execution_id) "/links/issues"));
  content = object (dict (("issueId", issue) ∷ []));
}

module _ {S : Type 0} (send : Call → S → S × Attempt (Option Json)) (c : Config) where
  unfoldable pub link_issues : (Json → String) → Json → List Json → Api S (Unit {0})
  unfolding request
  link_issues show execution_id [] = pure tt
  link_issues show execution_id (issue ∷ issues) = do
    answer ← request send c (link_call c show execution_id issue)
    link_issues show execution_id issues

  -- `len(step_data.get("values", []))`, where a value without a length is an exception.
  unfoldable pub total_steps : String → Api S ℕ
  unfolding request_json get_or
  total_steps key = do
    answer ← request_json send c (steps_call c key)
    step_data ← as_fields answer
    values ← or_raise unexpected (iterate (get_or (array nil) "values" step_data))
    pure (length values)

module _ (c : Config) (timestamp : String → Option String) (project_key cycle_key : String)
    (version_id : Option String) where
  unfoldable pub execution_payload : ℕ → Execution → Json
  unfolding script_results comment_of
  execution_payload total e = object (
      dict (
        (("projectKey", string project_key)
          ∷ ("testCaseKey", string e.test_case_key)
          ∷ ("testCycleKey", string cycle_key)
          ∷ ("statusName", string (if is_passed e.status then "Pass" else "Fail"))
          ∷ ("comment", string (comment_of e))
          ∷ ("testScriptResults", array (items_of (script_results timestamp total e.step_results)))
          ∷ [])
        ++ optional_entry "actualStartDate" (timestamp e.start_timestamp)
        ++ optional_entry "actualEndDate" (timestamp e.end_timestamp)
        ++ optional_entry "versionId" version_id))

  abbrev pub execution_call : ℕ → Execution → Call
  execution_call total e = record {
    method = http_post;
    url = url_of c "/testexecutions";
    content = execution_payload total e;
  }

  module _ {S : Type 0} (send : Call → S → S × Attempt (Option Json)) (show : Json → String) where
    -- One round of the loop over the results.
    unfoldable pub create_execution : Execution → Api S (Unit {0})
    unfolding total_steps request_json link_issues issues_of get
    create_execution e = do
      total ← total_steps send c e.test_case_key
      created ← request_json send c (execution_call total e)
      fields ← as_fields created
      let execution_id = get "id" fields
      (if is_truthy execution_id
          then link_issues send c show execution_id (issues_of e.incident)
          else pure tt)

    unfoldable pub create_test_execution : List Execution → Api S (Unit {0})
    unfolding create_execution
    create_test_execution [] = pure tt
    create_test_execution (e ∷ es) = do done ← create_execution e; create_test_execution es
