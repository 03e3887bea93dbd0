-- ===== src/Xray/Executions.antt =====
-- The import of executions into Xray (common/services/xray_client.py): `create_test_execution`.
-- `instant` is `parse_timestamp` of common/utils.py, `none` for a text that is no time, and `iso`
-- writes an instant.
use qa_ai_native.Prelude.{
  ℕ, String, Option, none, some, List, [], ◌∷◌, ◌++◌, if◌then◌else◌, str_append, str_eq, map, ltb,
}
use qa_ai_native.Dict.{truthy}
use qa_ai_native.Json.{Json, string, array, object, dict, items_of, or_null}
use qa_ai_native.Retry.{Attempt}
use qa_ai_native.Service.{Call, Api, unexpected, ◌>>=◌, or_raise}
use qa_ai_native.TestCases.{ExecutionStatus, passed, failed, error}
use qa_ai_native.Xray.{Config, entry, xray_call, execute}
use qa_ai_native.Zephyr.Executions.{StepResult, Incident, Execution, comma_separated, keys_of}

-- A file of an execution, and what Python finds under the name of an attribute.
pub record FileArtifact : Type 0 where
  pub name : String
  pub raw : String
  pub media_type : String

abbrev pub attribute : String → FileArtifact → Option String
attribute k f =
    if str_eq k "name"
    then some f.name
    else if str_eq k "raw"
    then some f.raw
    else if str_eq k "media_type"
    then some f.media_type
    else none

pub record Result : Type 0 where
  pub execution : Execution
  pub artifacts : List FileArtifact

-- The entry of a file; `none` is an `AttributeError`.
unfoldable pub evidence_of : FileArtifact → Option Json
evidence_of f = elim (attribute "name" f) [
  | none ↦ none
  | some name ↦ elim (attribute "bytes" f) [
    | none ↦ none
    | some bytes ↦ elim (attribute "mimeType" f) [
      | none ↦ none
      | some mime_type ↦ some (
          object (
            dict (
              ("filename", string name)
              ∷ ("data", string bytes)
              ∷ ("contentType", string mime_type)
              ∷ [])))
    ]
  ]
]

unfoldable pub evidences_of : List FileArtifact → Option (List Json)
unfolding evidence_of
evidences_of [] = some []
evidences_of (f ∷ fs) = elim (evidence_of f) [
  | none ↦ none
  | some e ↦ elim (evidences_of fs) [ none ↦ none | some es ↦ some (e ∷ es) ]
]

abbrev pub step_entry : StepResult → Json
step_entry r = object (
    dict (
      ("status", string (if r.success then "PASS" else "FAIL"))
      ∷ ("comment", string (if r.success then "" else r.error_message))
      ∷ ("actualResults", string r.actual_results)
      ∷ []))

abbrev pub status_name : ExecutionStatus → String
status_name passed = "PASSED"
status_name failed = "FAILED"
status_name error = "ERROR"

unfoldable pub incident_text : Option Incident → String
incident_text none = ""
incident_text (some incident) =
    str_append
      (elim incident.incident_key [
        | none ↦ ""
        | some key ↦ if str_eq key "" then "" else str_append "\n\nIncident created: " key
      ])
      (elim incident.duplicates [
        | [] ↦ ""
        | d ∷ ds ↦
            str_append "\n\nPotential duplicates found: "
              (comma_separated (d.issue_key ∷ keys_of ds))
      ])

-- The comment, which a test that passed has not.
abbrev pub comment_entry : Execution → List (String × Json)
comment_entry e = elim e.status [
  | passed ↦ []
  | failed ↦
      ("comment", string (str_append e.general_error_message (incident_text e.incident))) ∷ []
  | error ↦ ("comment", string (str_append e.general_error_message (incident_text e.incident))) ∷ []
]

-- `min` and `max` of the instants, if there are any.
abbrev pub earliest : List ℕ → Option ℕ
earliest [] = none
earliest (t ∷ ts) = elim (earliest ts) [ none ↦ some t | some u ↦ some (if ltb u t then u else t) ]

abbrev pub latest : List ℕ → Option ℕ
latest [] = none
latest (t ∷ ts) = elim (latest ts) [ none ↦ some t | some u ↦ some (if ltb t u then u else t) ]

module _ (instant : String → Option ℕ) (iso : ℕ → String) where
  -- The instants that can be read.
  abbrev pub instants : List String → List ℕ
  instants [] = []
  instants (s ∷ l) = elim (instant s) [ none ↦ instants l | some t ↦ t ∷ instants l ]

  abbrev pub time_entry : String → Option ℕ → List (String × Json)
  time_entry k none = []
  time_entry k (some t) = (k, string (iso t)) ∷ []

  abbrev pub info : String → String → Option String → List Result → Json
  info project_key test_plan_key version_id results = object (
      dict (
        ((
          "summary",
          string (str_append "Execution of automated tests for Test Plan " test_plan_key),
        )
          ∷ ("project", entry "key" (string project_key))
          ∷ ("testPlanKey", string test_plan_key)
          ∷ [])
        ++ time_entry "startDate"
            (earliest (instants (map (λ r. r.execution.start_timestamp) results)))
        ++ time_entry "finishDate"
            (latest (instants (map (λ r. r.execution.end_timestamp) results)))
        ++ (if truthy version_id then ("version", or_null version_id) ∷ [] else [])))

  abbrev pub test_entry : Result → List Json → Json
  test_entry r evidences =
      let e = r.execution in
      object (
        dict (
          (("testKey", string e.test_case_key)
            ∷ ("status", string (status_name e.status))
            ∷ ("steps", array (items_of (map step_entry e.step_results)))
            ∷ ("evidences", array (items_of evidences))
            ∷ [])
          ++ time_entry "start" (instant e.start_timestamp)
          ++ time_entry "finish" (instant e.end_timestamp)
          ++ comment_entry e))

  -- The loop over the results; `none` is an exception.
  unfoldable pub tests_of : List Result → Option (List Json)
  unfolding evidences_of incident_text
  tests_of [] = some []
  tests_of (r ∷ rs) = elim (evidences_of r.artifacts) [
    | none ↦ none
    | some evidences ↦ elim (tests_of rs) [
      | none ↦ none
      | some tests ↦ some (test_entry r evidences ∷ tests)
    ]
  ]

  unfoldable pub create_test_execution :
      {S : Type 0}
      → (Call → S → S × Attempt (Option Json))
      → Config
      → List Result
      → String
      → String
      → Option String
      → Api S (Option Json)
  unfolding execute tests_of
  create_test_execution send c results project_key test_plan_key version_id = do
    tests ← or_raise unexpected (tests_of results)
    execute send (
        xray_call c "import/execution" (
          object (
            dict (
              ("info", info project_key test_plan_key version_id results)
              ∷ ("tests", array (items_of tests))
              ∷ []))))
