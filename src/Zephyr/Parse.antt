-- ===== src/Zephyr/Parse.antt =====
-- The test case that the Zephyr client reads off an answer (common/services/zephyr_client.py):
-- `_parse_tc_json`, from the two answers of the service on. `none` is an exception: a value has not
-- the type that it needs.
use qa_ai_native.Prelude.{String, Option, none, some, List, [], ◌∷◌, if◌then◌else◌}
use qa_ai_native.Json.{
  Json, null, string, array, object, nil, Fields, end, get, get_or, is_truthy, iterate, texts_of,
  list_of,
}
use qa_ai_native.TestCases.{TestStep, TestCase}
use qa_ai_native.Zephyr.Text.{unescape_lines, split_br}

infixl 5 ◌>>=◌
abbrev pub ◌>>=◌ : {A B : Type 0} → Option A → (A → Option B) → Option B
none >>= f = none
some a >>= f = f a

abbrev pub text? : Json → Option String
text? (string s) = some s
text? j = none

abbrev pub fields? : Json → Option Fields
fields? (object fields) = some fields
fields? j = none

-- A text or `None`.
abbrev pub optional_text? : Json → Option (Option String)
optional_text? null = some none
optional_text? (string s) = some (some s)
optional_text? j = none

-- A field of a model that is a list of texts.
abbrev pub texts? : Json → Option (List String)
texts? (array items) = texts_of (list_of items)
texts? j = none

-- `(value or "")`
abbrev pub or_empty : Json → Json
or_empty j = if is_truthy j then j else string ""

unfoldable pub step_of : Json → Option TestStep
unfolding get get_or unescape_lines split_br
step_of j = do
  step ← fields? j
  inline ← fields? (get_or (object end) "inline" step)
  action ← text? (get_or (string "") "description" inline)
  expected ← text? (get_or (string "") "expectedResult" inline)
  test_data ← text? (or_empty (get "testData" inline))
  some (record {
    action = action;
    expected_results = unescape_lines expected;
    test_data = split_br test_data;
  })

unfoldable pub steps_of : List Json → Option (List TestStep)
unfolding step_of
steps_of [] = some []
steps_of (j ∷ rest) = do some ((← step_of j) ∷ (← steps_of rest))

unfoldable pub test_case_of : Option String → Fields → Json → Option TestCase
unfolding steps_of get get_or
test_case_of issue_key tc answer = do
  step_data ← fields? answer
  values ← iterate (get_or (array nil) "values" step_data)
  steps ← steps_of values
  key ← text? (get "key" tc)
  name ← text? (get_or (string "") "name" tc)
  summary ← text? (get_or (string "") "objective" tc)
  preconditions ← optional_text? (get "precondition" tc)
  labels ← texts? (get_or (array nil) "labels" tc)
  some (record {
    key = key;
    labels = labels;
    name = name;
    summary = summary;
    comment = "";
    preconditions = preconditions;
    steps = steps;
    parent_issue_key = issue_key;
  })
