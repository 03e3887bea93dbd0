-- ===== src/Zephyr/Search.antt =====
-- The operations of the Zephyr client that look test cases up (common/services/zephyr_client.py).
-- `lower` is Python's `str.lower`. The loop over the pages runs on fuel.
use qa_ai_native.Prelude.{
  ℕ, zero, suc, String, Bool, true, false, not, ◌&&◌, Option, none, some, List, [], ◌∷◌,
  if◌then◌else◌, str_append, str_eq, any,
}
use qa_ai_native.Dict.{Dict}
use qa_ai_native.Json.{
  Json, null, bool, number, string, array, object, nil, Fields, end, get, get_or, has_key,
  set_field, is_truthy, dict, list_of,
}
use qa_ai_native.Retry.{Attempt}
use qa_ai_native.Service.{
  http_get, Call, value_error, unexpected, Api, ◌>>=◌, ◌>>◌, pure, guard, or_raise, as_fields,
  as_text, as_list,
}
use qa_ai_native.TestCases.{TestCase, add_to_group}
use qa_ai_native.Webhook.{is_text}
use qa_ai_native.Zephyr.{Config, request_json}
use qa_ai_native.Zephyr.Cases.{url_of, get_test_case_url, get_test_case_data, update_test_case}
use qa_ai_native.Zephyr.Parse.{test_case_of}

-- Equality of identifiers, which are numbers or texts.
abbrev pub same_id : Json → Json → Bool
same_id (number a s) (number b t) = str_eq s t
same_id (string s) (string t) = str_eq s t
same_id null null = true
same_id i j = false

abbrev pub steps_call : Config → String → Call
steps_call c key = record {
  method = http_get;
  url = str_append (get_test_case_url c key) "/teststeps?maxResults=1000";
  content = null;
}

abbrev pub search_call : Config → Json → Call
search_call c params = record { method = http_get; url = url_of c "/testcases"; content = params }

abbrev pub search_params : String → Json → Json
search_params project_key max_results = object (
    dict (
      ("projectKey", string project_key)
      ∷ ("maxResults", max_results)
      ∷ ("startAt", number false "0")
      ∷ []))

-- The labels of a test case are a list.
abbrev pub list? : Json → Option (List Json)
list? (array items) = some (list_of items)
list? j = none

module _ {S : Type 0} (send : Call → S → S × Attempt (Option Json)) (c : Config) where
  unfoldable pub parse_tc_json : Option String → Fields → Api S TestCase
  unfolding request_json test_case_of get get_test_case_url
  parse_tc_json issue_key tc = do
    key ← as_text (get "key" tc)
    steps ← request_json send c (steps_call c key)
    or_raise unexpected (test_case_of issue_key tc steps)

  unfoldable pub fetch_test_case_by_key : String → Api S TestCase
  unfolding parse_tc_json get_test_case_data get_test_case_url
  fetch_test_case_by_key key = do
    body ← get_test_case_data send c (get_test_case_url c key)
    tc ← as_fields body
    parse_tc_json none tc

  -- The first status of that name that is not archived; `null` where there is none.
  unfoldable pub find_status : (String → String) → String → List Json → Api S Json
  unfolding get get_or
  find_status lower wanted [] = pure null
  find_status lower wanted (j ∷ rest) = do
    status ← as_fields j
    name ← as_text (get_or (string "") "name" status)
    (if str_eq (lower name) (lower wanted) && not (is_truthy (get "archived" status))
        then pure (get "id" status)
        else find_status lower wanted rest)

  unfoldable pub get_test_case_status_id_by_name : (String → String) → String → Json → Api S Json
  unfolding request_json find_status get_or
  get_test_case_status_id_by_name lower wanted params = do
    answer ← request_json send c (record {
      method = http_get;
      url = url_of c "/statuses?maxResults=100&statusType=TEST_CASE";
      content = params;
    })
    fields ← as_fields answer
    statuses ← as_list (get_or (array nil) "values" fields)
    id ← find_status lower wanted statuses
    guard (is_truthy id) value_error
    pure id

  unfoldable pub change_test_case_status :
      (String → String) → String → String → String → Api S (Option Json)
  unfolding get_test_case_status_id_by_name get_test_case_url get_test_case_data set_field
      update_test_case
  change_test_case_status lower project_key key new_status_name = do
    id ←
        get_test_case_status_id_by_name lower new_status_name
          (search_params project_key (number true "1000"))
    let url = get_test_case_url c key
    body ← get_test_case_data send c url
    fields ← as_fields body
    update_test_case send c url
        (object (set_field "status" (object (dict (("id", id) ∷ []))) fields))

  -- The loop over the wanted labels, for one test case.
  unfoldable pub add_by_labels :
      List String → List Json → Fields → Dict (List TestCase) → Api S (Dict (List TestCase))
  unfolding parse_tc_json add_to_group
  add_by_labels [] labels tc groups = pure groups
  add_by_labels (label ∷ targets) labels tc groups =
      if any (is_text label) labels
      then (do
        parsed ← parse_tc_json none tc
        add_by_labels targets labels tc (add_to_group label parsed groups))
      else add_by_labels targets labels tc groups

  -- The loop over the test cases of a page.
  unfoldable pub add_values :
      Json → List String → List Json → Dict (List TestCase) → Api S (Dict (List TestCase))
  unfolding add_by_labels get get_or
  add_values status_id targets [] groups = pure groups
  add_values status_id targets (j ∷ rest) groups = do
    tc ← as_fields j
    status ← as_fields (get_or (object end) "status" tc)
    groups' ←
        (if same_id (get "id" status) status_id
          then (do
            labels ← or_raise unexpected (list? (get_or (array nil) "labels" tc))
            add_by_labels targets labels tc groups)
          else pure groups)
    add_values status_id targets rest groups'

  -- The groups with what a page adds.
  unfoldable pub add_page :
      Json → List String → Fields → Dict (List TestCase) → Api S (Dict (List TestCase))
  unfolding add_values has_key get_or
  add_page status_id targets page groups = do
    guard (has_key "maxResults" page) unexpected
    values ← as_list (get_or (array nil) "values" page)
    add_values status_id targets values groups

  -- The loop over the pages, with the number of rounds left; `none` when they do not do. The offset
  -- that the loop counts up is not read again: each round sends the same parameters.
  unfoldable pub fetch_pages :
      ℕ → Json → List String → Json → Dict (List TestCase) → Api S (Option (Dict (List TestCase)))
  unfolding request_json add_page get_or
  fetch_pages zero status_id targets params groups = pure none
  fetch_pages (suc fuel) status_id targets params groups = do
    answer ← request_json send c (search_call c params)
    page ← as_fields answer
    groups' ← add_page status_id targets page groups
    (if is_truthy (get_or (bool true) "isLast" page)
        then pure (some groups')
        else fetch_pages fuel status_id targets params groups')

  unfoldable pub fetch_ready_for_execution_test_cases_by_labels :
      (String → String) → ℕ → String → List String → Json → Api S (Option (Dict (List TestCase)))
  unfolding get_test_case_status_id_by_name fetch_pages
  fetch_ready_for_execution_test_cases_by_labels lower fuel project_key targets max_results = do
    let params = search_params project_key max_results
    status_id ← get_test_case_status_id_by_name lower "Approved" params
    fetch_pages fuel status_id targets params []
