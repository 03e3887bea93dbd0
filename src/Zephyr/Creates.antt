-- ===== src/Zephyr/Creates.antt =====
-- The test cases that are created through the Zephyr client.
use qa_ai_native.Prelude.{
  ◌<◌, ◌==◌, String, ◌≡◌, refl, Option, some, List, [], ◌∷◌, ◌++◌, if◌then◌else◌, length,
  str_append, Bool-cases, inl, inr,
}
use qa_ai_native.Json.{Json, string, object, Fields, get_or, is_truthy, dict}
use qa_ai_native.Retry.{Attempt}
use qa_ai_native.Service.{http_post, Call, World}
use qa_ai_native.TestCases.{TestCase}
use qa_ai_native.Webhook.{to_text}
use qa_ai_native.Zephyr.{Config, request, request_json}
use qa_ai_native.Zephyr.Cases.{
  url_of, get_test_case_url, test_case_entries, steps_payload, fill_test_case, create_test_case,
  create_test_cases,
}
use qa_ai_native.Service.Sends.{Sends, pure-Sends, Sends-pure, Sends-then, Answers}
use qa_ai_native.Zephyr.Sends.{request-Sends, request_json-Sends}

module _ (c : Config) (show : Json → String) (project_key user_story_id : String) (issue : Json)
    (reply : Call → Fields) where
  abbrev pub creation : TestCase → Call
  creation tc = record {
    method = http_post;
    url = url_of c "/testcases";
    content = object (dict (test_case_entries project_key tc));
  }

  -- The key that the service gives a test case.
  abbrev pub key_of : TestCase → Json
  key_of tc = get_or (string "") "key" (reply (creation tc))

  abbrev pub url_for : TestCase → String
  url_for tc = get_test_case_url c (to_text show (key_of tc))

  abbrev pub steps_addition : TestCase → String → Call
  steps_addition tc url = record {
    method = http_post;
    url = str_append url "/teststeps";
    content = steps_payload tc.steps;
  }

  abbrev pub story_link : String → Call
  story_link url = record {
    method = http_post;
    url = str_append url "/links/issues";
    content = object (dict (("issueId", issue) ∷ []));
  }

  -- The calls that fill a created test case, and all calls for it.
  abbrev pub filling : TestCase → String → List Call
  filling tc url =
      (if length tc.steps == 0 then [] else steps_addition tc url ∷ []) ++ story_link url ∷ []

  abbrev pub calls_for : TestCase → List Call
  calls_for tc = creation tc ∷ (if is_truthy (key_of tc) then filling tc (url_for tc) else [])

  abbrev pub all_calls : List TestCase → List Call
  all_calls [] = []
  all_calls (tc ∷ tcs) = calls_for tc ++ all_calls tcs

  abbrev pub keys_of : List TestCase → List Json
  keys_of [] = []
  keys_of (tc ∷ tcs) = if is_truthy (key_of tc) then key_of tc ∷ keys_of tcs else keys_of tcs

  module _ {S : Type 0} (send : Call → S → S × Attempt (Option Json)) (answers : Answers send reply)
      (positive : 0 < c.max_retries) (int : String → Option Json)
      (numeric : int user_story_id ≡ some issue) where
    fill_test_case-Sends :
        (tc : TestCase) (url : String) (w : World S)
        → Sends
            (filling tc url)
            (some (object (reply (story_link url))))
            w
            (fill_test_case send c int user_story_id tc url w)
    unfolding fill_test_case
    fill_test_case-Sends tc url w = elim (Bool-cases (length tc.steps == 0)) [
      | inl none_left ↦
          rw (none_left, numeric) (request-Sends send c reply answers positive (story_link url) w)
      | inr some_left ↦ rw (some_left) (
          Sends-then (steps_addition tc url ∷ []) (story_link url ∷ [])
            (some (object (reply (steps_addition tc url)))) _ w
            (request send c (steps_addition tc url) w) _
            (request-Sends send c reply answers positive (steps_addition tc url) w)
            (rw numeric (request-Sends send c reply answers positive (story_link url) _)))
    ]

    create_test_case-Sends :
        (tc : TestCase) (w : World S)
        → Sends
            (calls_for tc)
            (key_of tc)
            w
            (create_test_case send c show int project_key user_story_id tc w)
    unfolding create_test_case
    create_test_case-Sends tc w =
        Sends-then (creation tc ∷ []) _ (object (reply (creation tc))) (key_of tc) w
          (request_json send c (creation tc) w) _
          (request_json-Sends send c reply answers positive (creation tc) w)
          (elim (Bool-cases (is_truthy (key_of tc))) [
            | inl keyed ↦ rw keyed (
                Sends-pure (filling tc (url_for tc))
                  (some (object (reply (story_link (url_for tc))))) (key_of tc) _
                  (fill_test_case send c int user_story_id tc (url_for tc) _) _
                  (fill_test_case-Sends tc (url_for tc) _) (λ u. refl))
            | inr keyless ↦ rw keyless (pure-Sends (key_of tc) _)
          ])

    -- If the service answers each call and the identifier of the user story is a number, then the
    -- creation succeeds without a retry and returns the keys that the service gave, in the order of
    -- the test cases, and it sends exactly these calls: for each test case its creation, and, if it
    -- got a key, the addition of its steps, where it has any, and the link to the user story.
    pub create_test_cases-Sends :
        (tcs : List TestCase) (w : World S)
        → Sends
            (all_calls tcs)
            (keys_of tcs)
            w
            (create_test_cases send c show int project_key user_story_id tcs w)
    unfolding create_test_cases
    create_test_cases-Sends [] w = pure-Sends [] w
    create_test_cases-Sends (tc ∷ tcs) w =
        let one = create_test_case send c show int project_key user_story_id tc w in
        let rest = create_test_cases send c show int project_key user_story_id tcs one.0 in
        Sends-then (calls_for tc) (all_calls tcs) (key_of tc) (keys_of (tc ∷ tcs)) w one _
          (create_test_case-Sends tc w)
          (Sends-pure (all_calls tcs) (keys_of tcs) (keys_of (tc ∷ tcs)) one.0 rest _
            (create_test_cases-Sends tcs one.0) (λ u. refl))
