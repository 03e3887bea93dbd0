-- ===== src/TestCases/Groups/Tests.antt =====
-- Groups of concrete test cases.
use qa_ai_native.Prelude.{◌≡◌, String, none, List, [], ◌∷◌, arith, eq_iff}
use qa_ai_native.TestCases.{TestCase, group_test_cases_by_labels}
use qa_ai_native.TestCases.Groups.{group_of, all_tagged, group-tagged}

abbrev test : String → List String → TestCase
test key labels = record {
  key = key;
  labels = labels;
  name = "log in";
  summary = "";
  comment = "";
  preconditions = none;
  steps = [];
  parent_issue_key = none;
}

abbrev tests : List TestCase
tests = test "T-1" ("automated" ∷ "UI" ∷ []) ∷ test "T-2" ("API" ∷ "UI" ∷ []) ∷ []

group-tagged_example :
    group_of "UI" (group_test_cases_by_labels "automated" tests) ≡ all_tagged "UI" tests
group-tagged_example =
    group-tagged "automated" "UI" tests (λ same. ground (arith, same, eq_iff "UI" "automated"))
