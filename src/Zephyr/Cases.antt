-- ===== src/Zephyr/Cases.antt =====
-- The operations of the Zephyr client that write test cases, test cycles and links. `show` is
-- Python's `str()` of a value that is no text, `int` reads a number, and `order` is the order in
-- which a set of labels is listed.
use qa_ai_native.Prelude.{
  String, Option, none, List, [], ◌∷◌, if◌then◌else◌, str_append, map, length, ◌++◌, ◌==◌,
}
use qa_ai_native.Dict.{elem, truthy}
use qa_ai_native.Json.{
  Json, null, string, array, object, end, get, get_or, has_key, set_field, is_truthy, texts,
  texts_of, items_of, dict, or_null,
}
use qa_ai_native.Retry.{Attempt}
use qa_ai_native.Service.{
  http_get, http_post, http_put, Call, value_error, runtime_error, unexpected, Api, ◌>>=◌, ◌>>◌,
  pure, raise, guard, or_raise, as_fields, as_list,
}
use qa_ai_native.TestCases.{TestStep, TestCase}
use qa_ai_native.Webhook.{to_text}
use qa_ai_native.Zephyr.{Config, request, request_json}
use qa_ai_native.Zephyr.Text.{escape_lines, drop_lines, join_br}

-- `self.base_url + path + key`, and a suffix.
abbrev pub url_of : Config → String → String
url_of c path = str_append c.base_url path

unfoldable pub get_test_case_url : Config → String → String
get_test_case_url c key = url_of c (str_append "/testcases/" key)

-- `existing_labels.update(labels)`, with the elements in the order of their first addition.
unfoldable pub add_all : List String → List String → List String
add_all labels [] = labels
add_all labels (l ∷ more) = add_all (if elem l labels then labels else l ∷ labels) more

-- One item of the payload that carries the steps.
abbrev pub step_payload : TestStep → Json
step_payload step = object (
    dict (
      (
        "inline",
        object (
            dict (
              ("description", string step.action)
              ∷ ("expectedResult", string (escape_lines step.expected_results))
              ∷ ("testData", string (drop_lines (join_br step.test_data)))
              ∷ [])),
      )
      ∷ []))

unfoldable pub steps_payload : List TestStep → Json
steps_payload steps = object (
    dict (("mode", string "OVERWRITE") ∷ ("items", array (items_of (map step_payload steps))) ∷ []))

abbrev pub test_case_entries : String → TestCase → List (String × Json)
test_case_entries project_key tc =
    ("projectKey", string project_key)
    ∷ ("name", string tc.name)
    ∷ ("objective", string tc.summary)
    ∷ ("precondition", or_null tc.preconditions)
    ∷ []

-- The comment field after the comment is added.
abbrev pub joined_comments : (Json → String) → Json → String → String
joined_comments show existing comment =
    let added = escape_lines comment in
    if is_truthy existing
    then str_append (to_text show existing) (str_append "<br>" added)
    else added

module _ {S : Type 0} (send : Call → S → S × Attempt (Option Json)) (c : Config) where
  unfoldable pub get_test_case_data : String → Api S Json
  unfolding request_json
  get_test_case_data url =
      request_json send c (record { method = http_get; url = url; content = null })

  -- `_update_test_case`: what the service answers is not looked at.
  unfoldable pub update_test_case : String → Json → Api S (Option Json)
  unfolding request
  update_test_case url body =
      request send c (record { method = http_put; url = url; content = body })

  unfoldable pub add_test_case_review_comment :
      (Json → String) → String → String → Api S (Option Json)
  unfolding get_test_case_url get_test_case_data update_test_case get_or has_key set_field get
  add_test_case_review_comment show key comment = do
    let url = get_test_case_url c key
    body ← get_test_case_data url
    fields ← as_fields body
    let custom = get_or (object end) c.custom_fields_name fields
    guard (is_truthy custom) runtime_error
    custom_fields ← as_fields custom
    guard (has_key c.comments_field_name custom_fields) runtime_error
    let text = joined_comments show (get c.comments_field_name custom_fields) comment
    update_test_case url (
        object (
          set_field c.custom_fields_name
            (object (set_field c.comments_field_name (string text) custom_fields)) fields))

  unfoldable pub add_labels_to_test_case :
      (List String → List String) → String → List String → Api S (Option Json)
  unfolding get_test_case_url get_test_case_data update_test_case get_or add_all set_field
  add_labels_to_test_case order key labels = do
    let url = get_test_case_url c key
    body ← get_test_case_data url
    fields ← as_fields body
    existing ← as_list (get_or (array (items_of [])) "labels" fields)
    old ← or_raise unexpected (texts_of existing)
    update_test_case url (
        object (
          set_field "labels" (array (items_of (texts (order (add_all (add_all [] old) labels)))))
            fields))

  -- The steps of a created test case, if it has any, and its link to the user story.
  unfoldable pub fill_test_case :
      (String → Option Json) → String → TestCase → String → Api S (Option Json)
  unfolding request steps_payload
  fill_test_case int user_story_id tc url = do
    answer ←
        (if length tc.steps == 0
          then pure none
          else request send c (record {
            method = http_post;
            url = str_append url "/teststeps";
            content = steps_payload tc.steps;
          }))
    issue ← or_raise value_error (int user_story_id)
    request send c (record {
      method = http_post;
      url = str_append url "/links/issues";
      content = object (dict (("issueId", issue) ∷ []));
    })

  -- One round of the loop of `create_test_cases`: the key that the service answers.
  unfoldable pub create_test_case :
      (Json → String) → (String → Option Json) → String → String → TestCase → Api S Json
  unfolding request_json fill_test_case get_or get_test_case_url
  create_test_case show int project_key user_story_id tc = do
    created ← request_json send c (record {
      method = http_post;
      url = url_of c "/testcases";
      content = object (dict (test_case_entries project_key tc));
    })
    fields ← as_fields created
    let key = get_or (string "") "key" fields
    answer ←
        (if is_truthy key
          then fill_test_case int user_story_id tc (get_test_case_url c (to_text show key))
          else pure none)
    pure key

  unfoldable pub create_test_cases :
      (Json → String) → (String → Option Json) → String → String → List TestCase → Api S (List Json)
  unfolding create_test_case
  create_test_cases show int project_key user_story_id [] = pure []
  create_test_cases show int project_key user_story_id (tc ∷ tcs) = do
    key ← create_test_case show int project_key user_story_id tc
    keys ← create_test_cases show int project_key user_story_id tcs
    pure (if is_truthy key then key ∷ keys else keys)

  unfoldable pub create_test_plan : String → String → Option String → Api S Json
  unfolding request_json get
  create_test_plan project_key name description = do
    let required =
        ("projectKey", string project_key)
        ∷ ("name", string name)
        ∷ ("statusName", string "Not executed")
        ∷ []
    created ← request_json send c (record {
      method = http_post;
      url = url_of c "/testcycles";
      content = object (
          dict (
            if truthy description
            then required ++ ("description", or_null description) ∷ []
            else required));
    })
    fields ← as_fields created
    if is_truthy (get "key" fields) then pure (get "key" fields) else raise runtime_error

  unfoldable pub link_issue_to_test_case : String → Json → String → Api S (Option Json)
  unfolding request get_test_case_url
  link_issue_to_test_case key issue_id link_type = request send c (record {
    method = http_post;
    url = str_append (get_test_case_url c key) "/links/issues";
    content = object (dict (("issueId", issue_id) ∷ ("type", string link_type) ∷ []));
  })

  unfoldable pub fetch_linked_issues : String → Api S (List Json)
  unfolding request_json get_or get_test_case_url
  fetch_linked_issues key = do
    found ← request_json send c (record {
      method = http_get;
      url = str_append (get_test_case_url c key) "/links";
      content = null;
    })
    fields ← as_fields found
    as_list (get_or (array (items_of [])) "issues" fields)
