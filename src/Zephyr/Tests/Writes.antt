-- ===== src/Zephyr/Tests/Writes.antt =====
-- Writes of the Zephyr client to small services.
use qa_ai_native.Prelude.{
  String, ◌≡◌, refl, true, false, ◌||◌, Option, some, none, List, [], ◌∷◌, if◌then◌else◌, str_eq,
  arith, All,
}
use qa_ai_native.Dict.{Dict, elem, lookup, insert, lookup-insert}
use qa_ai_native.Json.{
  Json, null, number, string, array, object, nil, Fields, get_or, dict, items_of, texts,
}
use qa_ai_native.Registry.{or_default}
use qa_ai_native.Retry.{Attempt, succeeded}
use qa_ai_native.Service.{http_get, http_put, Call, World, done}
use qa_ai_native.TestCases.{failed}
use qa_ai_native.Zephyr.Cases.{get_test_case_url, add_labels_to_test_case, create_test_cases}
use qa_ai_native.Zephyr.Updates.{Store, Updates}
use qa_ai_native.Zephyr.Edits.{add_labels-Updates}
use qa_ai_native.Zephyr.Executions.{Execution, create_test_execution}
use qa_ai_native.Zephyr.Payload.{TellsExecution}
use qa_ai_native.Zephyr.Reports.{created_call, all_calls, create_test_execution-Sends}
use qa_ai_native.Zephyr.Creates.{all_calls as creation_calls, create_test_cases-Sends}
use qa_ai_native.Service.Sends.{Sends}
use qa_ai_native.Zephyr.Tests.{config, start, test_case}

-- A service that keeps a value under each address.
abbrev keep : Call → Dict Json → Dict Json × Attempt (Option Json)
keep call s = elim call.method [
  | http_get ↦ (s, succeeded (some (or_default null (lookup call.url s))))
  | http_put ↦ (insert call.url call.content s, succeeded none)
  | _ ↦ (s, succeeded none)
]

keep-lookup :
    (url u : String) (j : Json) (s : Dict Json)
    → or_default null (lookup u (insert url j s))
      ≡ (if str_eq url u then j else or_default null (lookup u s))
keep-lookup url u j s = ground (arith, lookup-insert url u j s)

abbrev kept : Store keep
kept = record {
  stored = λ s url. or_default null (lookup url s);
  put = λ s url j. insert url j s;
  reads = λ url s. refl;
  writes = λ url j s. refl;
  stored-put = keep-lookup;
}

abbrev custom : Fields
custom = dict (("Review", string "old") ∷ [])

abbrev full : Fields
full =
    dict (("labels", array (items_of (texts ("ui" ∷ [])))) ∷ ("customFields", object custom) ∷ [])

abbrev shelf : World (Dict Json)
shelf = start (("z/testcases/T-1", object full) ∷ [])

abbrev text_of : Json → String
text_of j = "?"

add_labels-Updates_example :
    ((add_labels_to_test_case keep config (λ l. l) "T-1" ("ui" ∷ "new" ∷ []) shelf).1 ≡ done none)
    × ((new : List String) × ((x : String)
          → elem x new ≡ (elem x ("ui" ∷ []) || elem x ("ui" ∷ "new" ∷ [])))
        × Updates keep config kept
            (omega arith)
            "z/testcases/T-1"
            "labels"
            (array (items_of (texts new)))
            full
            shelf.service
            (add_labels_to_test_case keep config
              (λ l. l)
              "T-1"
              ("ui" ∷ "new" ∷ [])
              shelf).0.service)
unfolding get_test_case_url get_or
add_labels-Updates_example =
    add_labels-Updates keep config kept (omega arith) (λ l. l) (λ x l. refl) "T-1" ("ui" ∷ [])
      ("ui" ∷ "new" ∷ []) full shelf refl refl

-- A service that gives each created thing the same identifier.
abbrev receipt : Fields
receipt = dict (("id", number true "7") ∷ ("key", string "T-7") ∷ ("values", array nil) ∷ [])

abbrev accept : Call → Unit {0} → Unit {0} × Attempt (Option Json)
accept call s = (tt, succeeded (some (object receipt)))

abbrev execution : Execution
execution = record {
  step_results =
      record {
        success = false;
        error_message = "no";
        actual_results = "";
        execution_end_timestamp = none;
      }
      ∷ [];
  test_case_key = "T-1";
  status = failed;
  general_error_message = "no";
  start_timestamp = "";
  end_timestamp = "";
  incident = some (record {
    incident_id = some (number true "9");
    incident_key = some "P-9";
    duplicates = record { issue_id = "8"; issue_key = "P-8" } ∷ [];
  });
}

create_test_execution-Sends_example :
    Sends
      (all_calls config
        (λ t. none)
        "P"
        "C-1"
        none
        text_of
        (λ call. receipt)
        (λ key. [])
        (execution ∷ []))
      tt
      (start tt)
      (create_test_execution config
        (λ t. none)
        "P"
        "C-1"
        none
        accept
        text_of
        (execution ∷ [])
        (start tt))
    × All
        (λ e.
          TellsExecution "P" "C-1" 0 e
            (created_call config
              (λ t. none)
              "P"
              "C-1"
              none
              text_of
              (λ call. receipt)
              (λ key. [])
              e).content)
        (execution ∷ [])
unfolding get_or
create_test_execution-Sends_example =
    create_test_execution-Sends config (λ t. none) "P" "C-1" none text_of (λ call. receipt)
      (λ key. []) accept (λ call s. refl) (omega arith) (λ key. refl) (execution ∷ []) (start tt)

create_test_cases-Sends_example :
    Sends
      (creation_calls config text_of "P" "12" (number true "12") (λ call. receipt) (test_case ∷ []))
      (string "T-7" ∷ [])
      (start tt)
      (create_test_cases accept config text_of
        (λ s. some (number true "12"))
        "P"
        "12"
        (test_case ∷ [])
        (start tt))
unfolding get_or
create_test_cases-Sends_example =
    create_test_cases-Sends config text_of "P" "12" (number true "12") (λ call. receipt) accept
      (λ call s. refl) (omega arith) (λ s. some (number true "12")) refl (test_case ∷ []) (start tt)
