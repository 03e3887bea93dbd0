-- ===== src/Meego.antt =====
-- The client of Feishu Project (common/services/meego_client.py). The client keeps a token, so its
-- state stands beside that of the service; `clock` is `time.monotonic()`, in seconds. `show` is
-- Python's `str()` of a value that is no text, and `seconds` reads a number.
pub mod Writes
use qa_ai_native.Prelude.{
  ℕ, suc, ◌+◌, String, Bool, true, false, not, ◌&&◌, Option, none, some, List, [], ◌∷◌,
  if◌then◌else◌, str_append, str_eq, ltb,
}
use qa_ai_native.Dict.{Dict, lookup}
use qa_ai_native.Json.{
  Json, null, bool, number, string, array, object, Fields, end, get, get_or, has_key, dict,
  items_of, texts,
}
use qa_ai_native.Retry.{Attempt}
use qa_ai_native.Service.{
  http_post, http_put, Method, Call, World, Api, value_error, runtime_error, unexpected, done,
  ◌>>=◌, ◌>>◌, pure, guard, or_raise, as_fields, as_text,
}
use qa_ai_native.TestCases.{TestCase, TestStep}
use qa_ai_native.Webhook.{to_text}
use qa_ai_native.Xray.{field?, execute_json}
use qa_ai_native.Zephyr.Executions.{comma_separated}

-- What the configuration sets; the default project key is the argument of the constructor, if it
-- has one.
pub record Config : Type 0 where
  pub base_url : String
  pub plugin_id : String
  pub plugin_secret : String
  pub default_project_key : String

-- The client with the service behind it. An empty token is `None`.
pub record Session (S : Type 0) : Type 0 where
  pub outside : S
  pub token : String
  pub expires_at : ℕ

-- The numbered lines of the steps.
unfoldable pub steps_from : (ℕ → String) → ℕ → List TestStep → List String
steps_from show i [] = []
steps_from show i (step ∷ steps) =
    str_append (show i) (
      str_append ". " (
        str_append step.action (elim step.test_data [
          | [] ↦ ""
          | d ∷ ds ↦ str_append "\n   Data: " (comma_separated (d ∷ ds))
        ])))
    ∷ steps_from show (i + 1) steps

unfoldable pub expected_of : List TestStep → List String
expected_of [] = []
expected_of (step ∷ steps) =
    let rest = expected_of steps in
    if str_eq step.expected_results "" then rest else step.expected_results ∷ rest

-- `"\n".join(lines)`
unfoldable pub join_lines : List String → String
join_lines [] = ""
join_lines (s ∷ []) = s
join_lines (s ∷ t ∷ l) = str_append s (str_append "\n" (join_lines (t ∷ l)))

abbrev pub field_entry : String → Json → Json
field_entry k v = object (dict (("field_key", string k) ∷ ("field_value", v) ∷ []))

abbrev pub or_empty : Option String → String
or_empty none = ""
or_empty (some s) = s

unfoldable pub creation_payload : (ℕ → String) → TestCase → Json
unfolding steps_from expected_of join_lines
creation_payload show tc = object (
    dict (
      ("work_item_type_key", string "test_cases")
      ∷ (
        "fields",
        array (
            items_of (
              field_entry "name" (string tc.name)
              ∷ field_entry "description" (string (or_empty tc.preconditions))
              ∷ field_entry "field_023f96" (string (join_lines (steps_from show 1 tc.steps)))
              ∷ field_entry "field_2c7371" (string (join_lines (expected_of tc.steps)))
              ∷ [])),
      )
      ∷ []))

abbrev pub is_zero : Json → Bool
is_zero (number nonzero text) = not nonzero
is_zero (bool b) = not b
is_zero j = false

-- The identifiers that were given.
unfoldable pub given_ids : List String → List String
given_ids [] = []
given_ids (id ∷ ids) = let rest = given_ids ids in if str_eq id "" then rest else id ∷ rest

abbrev pub post_call : Config → String → Json → Call
post_call c path payload = record {
  method = http_post;
  url = str_append c.base_url path;
  content = payload;
}

module _ {S : Type 0} (send : Call → S → S × Attempt (Option Json)) (clock : S → ℕ) (c : Config)
    (show : Json → String) (seconds : Json → Option ℕ) where
  -- A call of the service within the session.
  abbrev pub send_within : Call → Session S → Session S × Attempt (Option Json)
  send_within call s =
      let (outside, reply) = send call s.outside in (record s { outside = outside }, reply)

  -- A token that does not expire within a minute is used again.
  abbrev pub is_fresh : Session S → Bool
  is_fresh s = not (str_eq s.token "") && ltb (clock s.outside + 60) s.expires_at

  abbrev pub keep_token : String → ℕ → Api (Session S) (Unit {0})
  keep_token token ttl w =
      let s = w.service in
      (
        record w { service = record s { token = token; expires_at = clock s.outside + ttl } },
        done tt,
      )

  unfoldable pub refresh_token : Api (Session S) (Unit {0})
  unfolding execute_json get get_or has_key
  refresh_token = do
    guard (not (str_eq c.plugin_id "") && not (str_eq c.plugin_secret "")) value_error
    answer ← execute_json send_within (
        post_call c "/open_api/authing/plugin_token" (
          object (
            dict (
              ("plugin_id", string c.plugin_id)
              ∷ ("plugin_secret", string c.plugin_secret)
              ∷ ("type", number true "1")
              ∷ []))))
    body ← or_raise unexpected (field? "data" answer)
    token ← or_raise unexpected (field? "token" body)
    text ← as_text token
    fields ← as_fields body
    ttl ← or_raise unexpected (seconds (get_or (number true "7200") "expire_time" fields))
    keep_token text ttl

  unfoldable pub get_token : Api (Session S) (Unit {0})
  unfolding refresh_token
  get_token w = if is_fresh w.service then (w, done tt) else refresh_token w

  -- `_post`, and `_patch` with the other method: the headers need a token first.
  unfoldable pub post : Call → Api (Session S) Fields
  unfolding get_token execute_json get_or
  post call = do
    token ← get_token
    answer ← execute_json send_within call
    fields ← as_fields answer
    guard (is_zero (get_or (number false "0") "code" fields)) runtime_error
    pure fields

  abbrev pub creation_call : (ℕ → String) → String → TestCase → Call
  creation_call decimal project_key tc =
      post_call c (str_append "/open_api/" (str_append project_key "/work_item/create"))
        (creation_payload decimal tc)

  -- The identifier of a created work item, as a text.
  unfoldable pub create_test_case : (ℕ → String) → String → TestCase → Api (Session S) String
  unfolding post get_or
  create_test_case decimal project_key tc = do
    answer ← post (creation_call decimal project_key tc)
    body ← as_fields (get_or (object end) "data" answer)
    pure (to_text show (get_or (string "") "work_item_id" body))

  unfoldable pub create_all : (ℕ → String) → String → List TestCase → Api (Session S) (List String)
  unfolding create_test_case
  create_all decimal project_key [] = pure []
  create_all decimal project_key (tc ∷ tcs) = do
    id ← create_test_case decimal project_key tc
    ids ← create_all decimal project_key tcs
    pure (id ∷ ids)

  -- The work items without an identifier are skipped.
  unfoldable pub create_test_cases :
      (ℕ → String) → String → List TestCase → Api (Session S) (List String)
  unfolding create_all given_ids
  create_test_cases decimal project_key tcs = do
    ids ← create_all decimal project_key tcs
    pure (given_ids ids)
