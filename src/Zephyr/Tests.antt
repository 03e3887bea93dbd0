-- ===== src/Zephyr/Tests.antt =====
-- Runs of the Zephyr client against small services.
mod Writes
use qa_ai_native.Prelude.{
  ℕ, ◌+◌, ◌*◌, ◌^◌, ◌<◌, ◌==◌, String, ◌≡◌, ◌≢◌, refl, ap, Bool, true, false, ◌||◌, Option, some,
  none, List, [], ◌∷◌, ◌++◌, if◌then◌else◌, str_eq, arith, All,
}
use qa_ai_native.Dict.{Dict, elem, lookup, insert, lookup-insert}
use qa_ai_native.Json.{
  Json, null, bool, number, string, array, object, Items, nil, Fields, end, get, get_or, dict,
  items_of, texts, is_truthy, has_key, set_field,
}
use qa_ai_native.Registry.{or_default}
use qa_ai_native.Retry.{Attempt, succeeded, transport_error}
use qa_ai_native.Service.{http_get, http_post, http_put, Call, World, done}
use qa_ai_native.TestCases.{TestCase, TestStep, failed}
use qa_ai_native.TestCases.Groups.{group_of}
use qa_ai_native.Zephyr.{Config, request, rounds, request_json}
use qa_ai_native.Zephyr.Bounds.{IsRepeated, request-IsBounded, delays, sum}
use qa_ai_native.Zephyr.Cases.{
  step_payload, test_case_entries, get_test_case_url, add_labels_to_test_case,
  add_test_case_review_comment, joined_comments, create_test_cases,
}
use qa_ai_native.Zephyr.Parse.{test_case_of}
use qa_ai_native.Zephyr.RoundTrip.{IsPlain, test_case_of-created}
use qa_ai_native.Zephyr.Search.{
  fetch_ready_for_execution_test_cases_by_labels, get_test_case_status_id_by_name, fetch_pages,
  search_params, find_status, add_page, add_values, parse_tc_json, steps_call, add_by_labels,
}
use qa_ai_native.Zephyr.Pages.{fetch_ready-ends}
use qa_ai_native.Zephyr.Matches.{Entry, IsEntry, matching}
use qa_ai_native.Zephyr.Found.{fetch_ready-matching}
use qa_ai_native.Zephyr.Updates.{Store, Updates}
use qa_ai_native.Zephyr.Edits.{add_labels-Updates, add_comment-Updates}
use qa_ai_native.Zephyr.Executions.{Execution, create_test_execution}
use qa_ai_native.Zephyr.Reports.{all_calls, create_test_execution-Sends}
use qa_ai_native.Zephyr.Creates.{all_calls as creation_calls, create_test_cases-Sends}

abbrev pub config : Config
config = record {
  base_url = "z";
  max_retries = 3;
  base_delay = 2;
  retryable_codes = 503 ∷ [];
  custom_fields_name = "customFields";
  comments_field_name = "Review";
}

abbrev pub start : {S : Type 0} → S → World S
start s = record { service = s; sent = []; slept = [] }

-- A service that does not take the first call.
abbrev late : Call → ℕ → ℕ × Attempt (Option Json)
late call n = (n + 1, if n == 0 then transport_error else succeeded none)

abbrev ping : Call
ping = record { method = http_get; url = "z/ping"; content = null }

late_slept : (request late config ping (start 0)).0.slept ≡ 2 ∷ []
unfolding request rounds
late_slept = refl

request-IsBounded_example :
    (n : ℕ) × (n < 3)
    × IsRepeated late config ping n 0 (start 0) (request late config ping (start 0)).0
    × (sum (delays 2 n 0) + 2 ≡ 2 * 2 ^ n)
request-IsBounded_example = request-IsBounded late config ping (start 0) (omega arith)

abbrev step : TestStep
step = record { action = "open"; expected_results = "a\nb"; test_data = "x" ∷ "y<br" ∷ [] }

abbrev pub test_case : TestCase
test_case = record {
  key = "";
  labels = [];
  name = "n";
  summary = "s";
  comment = "c";
  preconditions = none;
  steps = step ∷ [];
  parent_issue_key = none;
}

step-IsPlain : IsPlain step
step-IsPlain = record {
  expected = refl;
  nonempty = λ p. cc;
  unbroken = (refl, (refl, tt));
  one_line = (refl, (refl, tt));
}

test_case_of-created_example :
    test_case_of none
      (dict (
        ("key", string "T-1")
        ∷ ("labels", array (items_of (texts ("ui" ∷ []))))
        ∷ test_case_entries "P" test_case))
      (object (dict (("values", array (items_of (step_payload step ∷ []))) ∷ [])))
    ≡ some (record test_case {
      key = "T-1";
      labels = "ui" ∷ [];
      comment = "";
      parent_issue_key = none;
    })
test_case_of-created_example =
    test_case_of-created none "P" "T-1" ("ui" ∷ []) test_case (step-IsPlain, tt)

-- The statuses, and a page with one test case.
abbrev tc_status : Fields
tc_status = dict (("id", number true "5") ∷ [])

abbrev tc_labels : Items
tc_labels = items_of (texts ("ui" ∷ []))

abbrev tc : Fields
tc = dict (("key", string "T-1") ∷ ("status", object tc_status) ∷ ("labels", array tc_labels) ∷ [])

abbrev page : Fields
page = dict (
    ("maxResults", number true "100")
    ∷ ("values", array (items_of (object tc ∷ [])))
    ∷ ("isLast", bool true)
    ∷ [])

abbrev statuses : Fields
statuses = dict (
    (
      "values",
      array (
          items_of
            (object (dict (("id", number true "5") ∷ ("name", string "Approved") ∷ [])) ∷ [])),
    )
    ∷ [])

abbrev answer_of : String → Fields
answer_of url =
    if str_eq url "z/testcases"
    then page
    else if str_eq url "z/statuses?maxResults=100&statusType=TEST_CASE"
    then statuses
    else end

abbrev serve : Call → Unit {0} → Unit {0} × Attempt (Option Json)
serve call s = (tt, succeeded (some (object (answer_of call.url))))

abbrev same : String → String
same s = s

abbrev parsed : TestCase
parsed = record {
  key = "T-1";
  labels = "ui" ∷ [];
  name = "";
  summary = "";
  comment = "";
  preconditions = none;
  steps = [];
  parent_issue_key = none;
}

abbrev entry : Entry
entry = record {
  fields = tc;
  status = tc_status;
  labels = tc_labels;
  key = "T-1";
  steps = object end;
  parsed = parsed;
}

entry-IsEntry : IsEntry serve config entry
unfolding test_case_of get get_or get_test_case_url
entry-IsEntry = record {
  has_status = refl;
  has_labels = refl;
  has_key = refl;
  answers = λ s. refl;
  reads = refl;
}

found_status :
    (get_test_case_status_id_by_name serve config same "Approved"
      (search_params "P" (number true "100"))
      (start tt)).1
    ≡ done (number true "5")
unfolding get_test_case_status_id_by_name request_json request rounds find_status
found_status = refl

fetch_ready-matching_example :
    (groups : Dict (List TestCase)) × ((fetch_ready_for_execution_test_cases_by_labels serve config
        same 1 "P"
        ("ui" ∷ [])
        (number true "100")
        (start tt)).1
      ≡ done (some groups))
    × ((label : String)
        → group_of label groups ≡ matching (number true "5") ("ui" ∷ []) label (entry ∷ []))
unfolding has_key get_or
fetch_ready-matching_example =
    fetch_ready-matching serve config (omega arith) same "P" ("ui" ∷ []) (number true "100") page
      (entry ∷ []) (number true "5") 0 (start tt) (λ s. refl) refl refl refl (entry-IsEntry, tt)
      found_status

found_cases :
    (fetch_ready_for_execution_test_cases_by_labels serve config same 1 "P"
      ("ui" ∷ [])
      (number true "100")
      (start tt)).1
    ≡ done (some (("ui", parsed ∷ []) ∷ []))
unfolding fetch_ready_for_execution_test_cases_by_labels get_test_case_status_id_by_name
    request_json request rounds find_status fetch_pages add_page add_values parse_tc_json
    test_case_of insert
found_cases = refl

fetch_ready-ends_example : is_truthy (get_or (bool true) "isLast" page) ≡ true
fetch_ready-ends_example =
    fetch_ready-ends serve config same "P" ("ui" ∷ []) (number true "100") page (omega arith)
      (λ s. refl) 1 (("ui", parsed ∷ []) ∷ []) (start tt) found_cases
