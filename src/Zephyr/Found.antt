-- ===== src/Zephyr/Found.antt =====
-- What a search that ends in its first page returns.
use qa_ai_native.Prelude.{
  ℕ, suc, ◌<◌, String, ◌≡◌, refl, true, Option, some, List, [], All, if◌then◌else◌,
}
use qa_ai_native.Dict.{Dict}
use qa_ai_native.Json.{
  Json, bool, object, array, nil, items_of, Fields, get_or, has_key, is_truthy, list_of-items_of,
}
use qa_ai_native.Retry.{Attempt, succeeded}
use qa_ai_native.Service.{Call, World, done, Api, pure, and_then-eq}
use qa_ai_native.TestCases.{TestCase}
use qa_ai_native.TestCases.Groups.{group_of}
use qa_ai_native.Zephyr.{Config}
use qa_ai_native.Zephyr.Pages.{after, request_json-succeeded}
use qa_ai_native.Zephyr.Search.{
  search_call, search_params, fetch_pages, add_page, add_values, get_test_case_status_id_by_name,
  fetch_ready_for_execution_test_cases_by_labels,
}
use qa_ai_native.Zephyr.Matches.{Entry, IsEntry, fields_of, matching, add_values-Extends}

module _ {S : Type 0} (send : Call → S → S × Attempt (Option Json)) (c : Config)
    (positive : 0 < c.max_retries) where
  fetch_pages-matching :
      (params : Json) (targets : List String) (page : Fields) (es : List Entry) (status_id : Json)
      (fuel : ℕ) (w : World S)
      → (send (search_call c params) w.service).1 ≡ succeeded (some (object page))
      → has_key "maxResults" page ≡ true
      → get_or (array nil) "values" page ≡ array (items_of (fields_of es))
      → is_truthy (get_or (bool true) "isLast" page) ≡ true
      → All (IsEntry send c) es
      → (groups : Dict (List TestCase)) × ((fetch_pages send c
            (suc fuel)
            status_id
            targets
            params
            []
            w).1
          ≡ done (some groups))
        × ((label : String) → group_of label groups ≡ matching status_id targets label es)
  unfolding fetch_pages add_page
  fetch_pages-matching params targets page es status_id fuel w answer has_max has_values last v =
      let u = after send c (search_call c params) w in
      let added = add_values send c status_id targets (fields_of es) [] u in
      let (groups, d, g) = add_values-Extends send c positive status_id targets es v [] u in
      let k : Dict (List TestCase) → Api S (Option (Dict (List TestCase))) = λ groups'.
        if is_truthy (get_or (bool true) "isLast" page)
        then pure (some groups')
        else fetch_pages send c fuel status_id targets params groups' in
      rw
        (
          request_json-succeeded send c (search_call c params) (object page) w positive answer,
          has_max,
          has_values,
          list_of-items_of (fields_of es),
          and_then-eq added k groups d,
          last,
        )
        (groups, refl, g)

  -- If the answer to the search is one page of well-formed test cases that says that it is the last,
  -- and the status "Approved" has an identifier, then the search returns, and the group of each label has
  -- the parsed test cases of the page in that status that carry the label, in the order of the page,
  -- each once for each time that the label is asked for.
  pub fetch_ready-matching :
      (lower : String → String) (project_key : String) (targets : List String) (max_results : Json)
      (page : Fields) (es : List Entry) (status_id : Json) (fuel : ℕ) (w : World S)
      → ((s : S)
          → (send (search_call c (search_params project_key max_results)) s).1
            ≡ succeeded (some (object page)))
      → has_key "maxResults" page ≡ true
      → get_or (array nil) "values" page ≡ array (items_of (fields_of es))
      → is_truthy (get_or (bool true) "isLast" page) ≡ true
      → All (IsEntry send c) es
      → (get_test_case_status_id_by_name send c lower "Approved"
          (search_params project_key max_results)
          w).1
        ≡ done status_id
      → (groups : Dict (List TestCase)) × ((fetch_ready_for_execution_test_cases_by_labels send c
            lower
            (suc fuel)
            project_key
            targets
            max_results
            w).1
          ≡ done (some groups))
        × ((label : String) → group_of label groups ≡ matching status_id targets label es)
  unfolding fetch_ready_for_execution_test_cases_by_labels
  fetch_ready-matching lower project_key targets max_results page es status_id fuel w every has_max
        has_values last v found =
      let params = search_params project_key max_results in
      let first = get_test_case_status_id_by_name send c lower "Approved" params w in
      rw
        (and_then-eq first (λ id. fetch_pages send c (suc fuel) id targets params []) status_id
          found)
        (fetch_pages-matching params targets page es status_id fuel first.0 (every first.0.service)
          has_max has_values last v)
