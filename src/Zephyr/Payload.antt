-- ===== src/Zephyr/Payload.antt =====
-- What the report of an execution tells, and the issues that it is to be linked to.
use mathlib.Core.Path.{subst}
use qa_ai_native.Prelude.{
  ℕ, zero, suc, ◌-◌, String, ◌≡◌, refl, ap, not, Option, none, some, List, [], ◌∷◌, ◌++◌,
  if◌then◌else◌, map, filter, length, str_eq, Bool-cases, inl, inr, arith,
}
use qa_ai_native.Json.{Json, string, array, object, Fields, get, is_truthy, items_of}
use qa_ai_native.TestCases.{ExecutionStatus, passed, failed, error}
use qa_ai_native.Zephyr.{Config}
use qa_ai_native.Zephyr.Executions.{
  StepResult, Duplicate, Incident, Execution, step_entry, not_executed, repeated, script_results,
  issues_of, ids_of, is_passed, execution_payload,
}

-- The issues to link: the incident if it has an id, and each duplicate that has one.
abbrev pub wanted_links : Option Incident → List Json
wanted_links none = []
wanted_links (some i) =
    elim i.incident_id [ none ↦ [] | some id ↦ filter is_truthy (id ∷ []) ]
    ++ map (λ d. string d.issue_id) (filter (λ d. not (str_eq d.issue_id "")) i.duplicates)

ids_of-filter :
    (ds : List Duplicate)
    → ids_of ds ≡ map (λ d. string d.issue_id) (filter (λ d. not (str_eq d.issue_id "")) ds)
ids_of-filter [] = refl
ids_of-filter (d ∷ ds) = elim (Bool-cases (str_eq d.issue_id "")) [
  | inl e ↦ rw e (ids_of-filter ds)
  | inr e ↦ rw e (ap (λ l. string d.issue_id ∷ l) (ids_of-filter ds))
]

pub issues_of-wanted : (o : Option Incident) → issues_of o ≡ wanted_links o
unfolding issues_of
issues_of-wanted none = refl
issues_of-wanted (some i) =
    ap (λ l. elim i.incident_id [ none ↦ [] | some id ↦ if is_truthy id then id ∷ [] else [] ] ++ l)
      (ids_of-filter i.duplicates)

-- The entries tell the results of the steps one after the other, and that the other steps of the test
-- case, of which there are `total` in all, were not executed.
abbrev pub TellsSteps : ℕ → List StepResult → List Json → Type 0
TellsSteps total (r ∷ rs) [] = ⊥
TellsSteps total (r ∷ rs) (j ∷ js) =
    (fields : Fields) × (j ≡ object fields)
    × (get "statusName" fields ≡ string (if r.success then "Pass" else "Fail"))
    × (get "actualResult" fields
        ≡ string (if str_eq r.error_message "" then r.actual_results else r.error_message))
    × TellsSteps (total - 1) rs js
TellsSteps zero [] [] = Unit
TellsSteps zero [] (j ∷ js) = ⊥
TellsSteps (suc total) [] [] = ⊥
TellsSteps (suc total) [] (j ∷ js) =
    (fields : Fields) × (j ≡ object fields)
    × (get "statusName" fields ≡ string "Not Executed")
    × TellsSteps total [] js

abbrev pub outcome_name : ExecutionStatus → String
outcome_name passed = "Pass"
outcome_name failed = "Fail"
outcome_name error = "Fail"

-- The body of the call that creates an execution.
abbrev pub TellsExecution : String → String → ℕ → Execution → Json → Type 0
TellsExecution project_key cycle_key total e j =
    (fields : Fields) × (results : List Json) × (j ≡ object fields)
    × (get "projectKey" fields ≡ string project_key)
    × (get "testCaseKey" fields ≡ string e.test_case_key)
    × (get "testCycleKey" fields ≡ string cycle_key)
    × (get "statusName" fields ≡ string (outcome_name e.status))
    × (get "testScriptResults" fields ≡ array (items_of results))
    × TellsSteps total e.step_results results

repeated-TellsSteps : (n : ℕ) → TellsSteps n [] (repeated n not_executed)
unfolding get
repeated-TellsSteps zero = tt
repeated-TellsSteps (suc n) = (_, refl, refl, repeated-TellsSteps n)

minus_zero : (n : ℕ) → n ≡ n - 0
minus_zero n = omega arith

minus_suc : (n m : ℕ) → n - 1 - m ≡ n - suc m
minus_suc n m = omega arith

script_results-TellsSteps :
    (timestamp : String → Option String) (total : ℕ) (rs : List StepResult)
    → TellsSteps total rs (script_results timestamp total rs)
unfolding script_results step_entry get
script_results-TellsSteps timestamp total [] =
    subst (λ n. TellsSteps total [] (repeated n not_executed)) (minus_zero total)
      (repeated-TellsSteps total)
script_results-TellsSteps timestamp total (r ∷ rs) = (
  _,
  refl,
  refl,
  refl,
  subst (λ n. TellsSteps (total - 1) rs (map (step_entry timestamp) rs ++ repeated n not_executed))
      (minus_suc total (length rs)) (script_results-TellsSteps timestamp (total - 1) rs),
)

pub execution-TellsExecution :
    (c : Config) (timestamp : String → Option String) (project_key cycle_key : String)
    (version_id : Option String) (total : ℕ) (e : Execution)
    → TellsExecution project_key cycle_key total e
        (execution_payload c timestamp project_key cycle_key version_id total e)
unfolding execution_payload get
execution-TellsExecution c timestamp project_key cycle_key version_id total e = (
  _,
  script_results timestamp total e.step_results,
  refl,
  refl,
  refl,
  refl,
  named e.status,
  refl,
  script_results-TellsSteps timestamp total e.step_results,
)
  where
    named :
        (s : ExecutionStatus)
        → string (if is_passed s then "Pass" else "Fail") ≡ string (outcome_name s)
    named passed = refl
    named failed = refl
    named error = refl
