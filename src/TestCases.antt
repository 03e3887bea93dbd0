-- ===== src/TestCases.antt =====
-- Test cases and execution results (common/models.py), and their grouping by label
-- (orchestrator/main.py). Of a result the step results, files and incident are left out; a fetched
-- test case has a key.
pub mod Groups
use qa_ai_native.Prelude.{String, List, [], ◌∷◌, ◌++◌, Option, none, some, if◌then◌else◌, str_eq}
use qa_ai_native.Dict.{Dict, lookup, insert}

pub record TestStep : Type 0 where
  pub action : String
  pub expected_results : String
  pub test_data : List String

pub record TestCase : Type 0 where
  pub key : String
  pub labels : List String
  pub name : String
  pub summary : String
  pub comment : String
  pub preconditions : Option String
  pub steps : List TestStep
  pub parent_issue_key : Option String

pub data ExecutionStatus : Type 0 where
  passed failed error : ExecutionStatus

pub record TestResult : Type 0 where
  pub test_case_key : String
  pub test_case_name : String
  pub status : ExecutionStatus
  pub general_error_message : String
  pub start_timestamp : String
  pub end_timestamp : String
  pub system_description : Option String
  pub test_case : TestCase

-- `grouped[label].append(tc)` on a defaultdict.
unfoldable pub add_to_group : String → TestCase → Dict (List TestCase) → Dict (List TestCase)
add_to_group label tc groups =
    insert label (elim (lookup label groups) [ none ↦ tc ∷ [] | some tcs ↦ tcs ++ tc ∷ [] ]) groups

-- The inner loop, over the labels of one test case.
unfoldable pub group_labels :
    String → TestCase → List String → Dict (List TestCase) → Dict (List TestCase)
unfolding add_to_group
group_labels automated tc [] groups = groups
group_labels automated tc (label ∷ labels) groups =
    group_labels automated tc labels
      (if str_eq label automated then groups else add_to_group label tc groups)

-- The outer loop, over the test cases.
unfoldable pub group_all : String → List TestCase → Dict (List TestCase) → Dict (List TestCase)
unfolding group_labels
group_all automated [] groups = groups
group_all automated (tc ∷ tcs) groups =
    group_all automated tcs (group_labels automated tc tc.labels groups)

unfoldable pub group_test_cases_by_labels : String → List TestCase → Dict (List TestCase)
unfolding group_all
group_test_cases_by_labels automated tcs = group_all automated tcs []
