-- ===== src/Pipeline/Tests.antt =====
-- A small run of the pipeline.
mod Execution
use qa_ai_native.Prelude.{
  String, ◌≡◌, refl, Bool, true, false, Option, some, none, List, [], ◌∷◌, ◌++◌, All,
}
use qa_ai_native.TestCases.{TestCase}
use qa_ai_native.Meego.{given_ids}
use qa_ai_native.Pipeline.{
  generation, classification, review, returned, Task, Classified, Feedback, task_sent,
  summary_updated, test_cases_created, labels_added, comment_added, document_fetched,
}
use qa_ai_native.Pipeline.Story.{Outside, assign_keys, run_pipeline, request_test_cases_generation}
use qa_ai_native.Pipeline.Keys.{assign_keys-shifts}
use qa_ai_native.Pipeline.Own.{IsOwn}
use qa_ai_native.Pipeline.Writes.{run_pipeline-IsOwn}

abbrev tc : TestCase
tc = record {
  key = "";
  labels = [];
  name = "n";
  summary = "";
  comment = "";
  preconditions = none;
  steps = [];
  parent_issue_key = none;
}

assign_keys-shifts_example :
    assign_keys "S" (given_ids ("1" ∷ "" ∷ "3" ∷ [])) (tc ∷ tc ∷ tc ∷ [])
    ≡ assign_keys "S" ("1" ∷ []) (tc ∷ [])
      ++ record tc { key = "3"; parent_issue_key = some "S" }
        ∷ assign_keys "S" (given_ids []) (tc ∷ [])
assign_keys-shifts_example =
    assign_keys-shifts "S" "3" ("1" ∷ []) [] (tc ∷ []) (tc ∷ []) tc refl (refl, tt) refl

abbrev task : Task
task = record {
  is_completed = true;
  artifacts =
      record {
        name = "result";
        parts = record { text = some "model"; raw = none; media_type = ""; filename = "" } ∷ [];
      }
      ∷ [];
}

abbrev outside : Outside
outside = record {
  is_configured = true;
  answers = λ stage. returned (some task);
  created = λ tcs. some ("1" ∷ []);
  accepts = λ e. true;
  show = λ n. "0";
}

abbrev generated : String → Option (List TestCase)
generated s = some (tc ∷ [])

abbrev classified : String → Option (List Classified)
classified s = some (
    record { issue_key = "1"; labels = "ui" ∷ [] }
    ∷ record { issue_key = "2"; labels = "api" ∷ [] }
    ∷ [])

abbrev reviewed : String → Option (List Feedback)
reviewed s = some (record { test_case_id = "1"; review_feedback = "fine" ∷ [] } ∷ [])

abbrev is_error : String → Bool
is_error s = false

whole_run :
    run_pipeline outside is_error generated classified reviewed "S" []
    ≡ task_sent generation
      ∷ summary_updated generation
      ∷ test_cases_created
      ∷ task_sent classification
      ∷ summary_updated classification
      ∷ labels_added "1" ("ui" ∷ [])
      ∷ document_fetched
      ∷ task_sent review
      ∷ summary_updated review
      ∷ comment_added "1" ("fine" ∷ [])
      ∷ []
unfolding run_pipeline
whole_run = refl

run_pipeline-IsOwn_example :
    All (IsOwn ("1" ∷ [])) (run_pipeline outside is_error generated classified reviewed "S" [])
unfolding request_test_cases_generation
run_pipeline-IsOwn_example = run_pipeline-IsOwn outside is_error generated classified reviewed "S"

-- No work item is created, and the agents name a key of their own.
abbrev nothing_created : Outside
nothing_created = record outside { created = λ tcs. some [] }

foreign_key_written :
    run_pipeline nothing_created is_error
      (λ s. some (record tc { key = "FOREIGN-1" } ∷ []))
      (λ s. some (record { issue_key = "FOREIGN-1"; labels = "ui" ∷ [] } ∷ []))
      reviewed
      "S"
      []
    ≡ task_sent generation
      ∷ summary_updated generation
      ∷ test_cases_created
      ∷ task_sent classification
      ∷ summary_updated classification
      ∷ labels_added "FOREIGN-1" ("ui" ∷ [])
      ∷ document_fetched
      ∷ task_sent review
      ∷ summary_updated review
      ∷ []
unfolding run_pipeline
foreign_key_written = refl
