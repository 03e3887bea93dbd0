-- ===== src/Zephyr/Pages.antt =====
-- When the search for test cases in Zephyr ends.
use qa_ai_native.Prelude.{
  ℕ, zero, suc, ◌<◌, String, ◌≡◌, refl, true, Option, some, List, [], ◌∷◌, ◌++◌, ◌-◌, arith,
  Bool-cases, inl, inr, if◌then◌else◌,
}
use mathlib.Core.Path.{subst}
use qa_ai_native.Dict.{Dict}
use qa_ai_native.Json.{Json, bool, object, Fields, get_or, is_truthy}
use qa_ai_native.Retry.{Attempt, succeeded}
use qa_ai_native.Service.{Call, World, done, pure, and_then, and_then-done}
use qa_ai_native.TestCases.{TestCase}
use qa_ai_native.Zephyr.{Config, rounds, request, request_json}
use qa_ai_native.Zephyr.Search.{
  search_call, search_params, fetch_pages, add_page, get_test_case_status_id_by_name,
  fetch_ready_for_execution_test_cases_by_labels,
}

module _ {S : Type 0} (send : Call → S → S × Attempt (Option Json)) (c : Config) where
  abbrev pub after : Call → World S → World S
  after call w = record {
    service = (send call w.service).0;
    sent = w.sent ++ call ∷ [];
    slept = w.slept;
  }

  -- A call that succeeds is sent once.
  pub request-succeeded :
      (call : Call) (body : Option Json) (w : World S)
      → 0 < c.max_retries
      → (send call w.service).1 ≡ succeeded body
      → request send c call w ≡ (after call w, done body)
  unfolding request rounds
  request-succeeded call body w positive h =
      let last : suc (c.max_retries - 1) ≡ c.max_retries = omega (arith, positive) in
      subst (λ k. rounds send c k 0 call w ≡ (after call w, done body)) last (rw h refl)

  pub request_json-succeeded :
      (call : Call) (j : Json) (w : World S)
      → 0 < c.max_retries
      → (send call w.service).1 ≡ succeeded (some j)
      → request_json send c call w ≡ (after call w, done j)
  unfolding request_json
  request_json-succeeded call j w positive h =
      rw (request-succeeded call (some j) w positive h) refl

  pub fetch_pages-ends :
      (params : Json) (page : Fields) (targets : List String) (status_id : Json)
      → 0 < c.max_retries
      → ((s : S) → (send (search_call c params) s).1 ≡ succeeded (some (object page)))
      → (fuel : ℕ) (groups found : Dict (List TestCase)) (w : World S)
      → (fetch_pages send c fuel status_id targets params groups w).1 ≡ done (some found)
      → is_truthy (get_or (bool true) "isLast" page) ≡ true
  unfolding fetch_pages
  fetch_pages-ends params page targets status_id positive every zero groups found w h = cc
  fetch_pages-ends params page targets status_id positive every (suc fuel) groups found w h =
      let added = add_page send c status_id targets page groups (after (search_call c params) w) in
      let last = is_truthy (get_or (bool true) "isLast" page) in
      let h1 : (and_then added (λ g.
        if last then pure (some g) else fetch_pages send c fuel status_id targets params g)).1
          ≡ done (some found) =
        rw
          (request_json-succeeded (search_call c params) (object page) w positive (every w.service))
          at h in
      let (groups', e, h2) =
        and_then-done added
          (λ g. if last then pure (some g) else fetch_pages send c fuel status_id targets params g)
          (some found) h1 in
      elim (Bool-cases last) [
        | inl stop ↦ stop
        | inr more ↦
            fetch_pages-ends params page targets status_id positive every fuel groups' found added.0
              (rw more at h2)
      ]

  -- The loop over the pages sends the same parameters in each round. So while the service answers
  -- them with the same page, the search returns only if that page says that it is the last one:
  -- a search whose first page is not the last never comes back, whatever number of rounds it has.
  pub fetch_ready-ends :
      (lower : String → String) (project_key : String) (targets : List String) (max_results : Json)
      (page : Fields)
      → 0 < c.max_retries
      → ((s : S)
          → (send (search_call c (search_params project_key max_results)) s).1
            ≡ succeeded (some (object page)))
      → (fuel : ℕ) (found : Dict (List TestCase)) (w : World S)
      → (fetch_ready_for_execution_test_cases_by_labels send c lower fuel project_key targets
          max_results w).1
        ≡ done (some found)
      → is_truthy (get_or (bool true) "isLast" page) ≡ true
  unfolding fetch_ready_for_execution_test_cases_by_labels
  fetch_ready-ends lower project_key targets max_results page positive every fuel found w h =
      let params = search_params project_key max_results in
      let first = get_test_case_status_id_by_name send c lower "Approved" params w in
      let (status_id, e, h1) =
        and_then-done first (λ id. fetch_pages send c fuel id targets params []) (some found) h in
      fetch_pages-ends params page targets status_id positive every fuel [] found first.0 h1
