-- ===== src/Xray/Creation.antt =====
-- The test cases that are created through the Xray client.
use qa_ai_native.Prelude.{
  ◌≤◌, ◌==◌, String, ◌≡◌, refl, true, false, Option, some, List, [], ◌∷◌, ◌++◌, if◌then◌else◌,
  length, map, Bool-cases, inl, inr, arith,
}
use qa_ai_native.Json.{Json, object, array, Fields, get, has_key, dict, items_of, list_of-items_of}
use qa_ai_native.Retry.{Attempt}
use qa_ai_native.Service.{Call, World}
use qa_ai_native.Service.Sends.{Sends, pure-Sends, Sends-pure, Sends-then, Answers}
use qa_ai_native.TestCases.{TestCase}
use qa_ai_native.Xray.{
  Config, bulk_call, steps_call, link_call, execute, execute_json, execute_graphql, keys_of,
  add_steps_to_test_case, add_all_steps, link_all, create_test_cases,
}

-- A created issue, as the service answers it.
pub record Issue : Type 0 where
  pub id : Json
  pub key : Json

abbrev pub issue_json : Issue → Json
issue_json i = object (dict (("id", i.id) ∷ ("key", i.key) ∷ []))

abbrev pub key_list : List Issue → List Json
key_list [] = []
key_list (i ∷ is) = i.key ∷ key_list is

-- The calls that add the steps: the issues are matched with the test cases by their place.
abbrev pub step_calls : Config → List Issue → List TestCase → List Call
step_calls c [] tcs = []
step_calls c (i ∷ is) [] = []
step_calls c (i ∷ is) (tc ∷ tcs) =
    (if length tc.steps == 0 then [] else steps_call c i.id tc.steps ∷ []) ++ step_calls c is tcs

keys_of-issues : (is : List Issue) → keys_of (map issue_json is) ≡ some (key_list is)
unfolding keys_of has_key get
keys_of-issues [] = refl
keys_of-issues (i ∷ is) = rw (keys_of-issues is) refl

module _ {S : Type 0} (send : Call → S → S × Attempt (Option Json)) (c : Config)
    (reply : Call → Fields) (answers : Answers send reply) where
  execute-Sends :
      (call : Call) (w : World S)
      → Sends (call ∷ []) (some (object (reply call))) w (execute send call w)
  unfolding execute
  execute-Sends call w =
      rw (answers call w.service) (record { value = refl; sent = refl; slept = refl })

  execute_json-Sends :
      (call : Call) (w : World S)
      → Sends (call ∷ []) (object (reply call)) w (execute_json send call w)
  unfolding execute_json
  execute_json-Sends call w =
      Sends-pure (call ∷ []) (some (object (reply call))) (object (reply call)) w
        (execute send call w) _ (execute-Sends call w) (λ u. refl)

  link_all-Sends :
      (story : String) (keys : List Json) (w : World S)
      → Sends (map (link_call c story) keys) tt w (link_all send c story keys w)
  unfolding link_all
  link_all-Sends story [] w = pure-Sends tt w
  link_all-Sends story (key ∷ keys) w =
      Sends-then (link_call c story key ∷ []) (map (link_call c story) keys)
        (some (object (reply (link_call c story key)))) tt w
        (execute send (link_call c story key) w) _ (execute-Sends (link_call c story key) w)
        (link_all-Sends story keys _)

  module _ (fine : (call : Call) → has_key "errors" (reply call) ≡ false) where
    add_steps-Sends :
        (call : Call) (w : World S)
        → Sends (call ∷ []) (reply call) w (execute_graphql send c call w)
    unfolding execute_graphql
    add_steps-Sends call w =
        Sends-pure (call ∷ []) (object (reply call)) (reply call) w (execute_json send call w) _
          (execute_json-Sends call w) (λ u. rw (fine call) refl)

    add_all_steps-Sends :
        (is : List Issue) (tcs : List TestCase) (w : World S)
        → length is ≤ length tcs
        → Sends (step_calls c is tcs) tt w (add_all_steps send c (map issue_json is) tcs w)
    unfolding add_all_steps add_steps_to_test_case has_key get
    add_all_steps-Sends [] tcs w le = pure-Sends tt w
    add_all_steps-Sends (i ∷ is) [] w le = absurd (ground (arith, le))
    add_all_steps-Sends (i ∷ is) (tc ∷ tcs) w le =
        let rest : (u : World S)
            → Sends (step_calls c is tcs) tt u (add_all_steps send c (map issue_json is) tcs u) =
          λ u. add_all_steps-Sends is tcs u (omega (arith, le)) in
        let call = steps_call c i.id tc.steps in
        elim (Bool-cases (length tc.steps == 0)) [
          | inl h ↦ rw h (rest w)
          | inr h ↦ rw h (
              Sends-then (call ∷ []) (step_calls c is tcs) (reply call) tt w
                (execute_graphql send c call w) _ (add_steps-Sends call w) (rest _))
        ]

    -- If the service answers each call without an error, and the bulk request with at most as many
    -- issues as there are test cases, then the creation returns the keys of the issues, in their
    -- order, and sends exactly these calls: the bulk request, the steps of each test case that has
    -- any, to the issue at its place, and a link of each issue to the user story.
    pub create_issues-Sends :
        (tcs : List TestCase) (project_key story : String) (is : List Issue) (w : World S)
        → has_key "issues" (reply (bulk_call c project_key tcs)) ≡ true
        → get "issues" (reply (bulk_call c project_key tcs)) ≡ array (items_of (map issue_json is))
        → length is ≤ length tcs
        → Sends
            (bulk_call c project_key tcs ∷ step_calls c is tcs
              ++ map (link_call c story) (key_list is))
            (key_list is)
            w
            (create_test_cases send c tcs project_key story w)
    unfolding create_test_cases
    create_issues-Sends tcs project_key story is w has found le =
        let call = bulk_call c project_key tcs in
        let links = map (link_call c story) (key_list is) in
        Sends-then (call ∷ []) (step_calls c is tcs ++ links) (object (reply call)) (key_list is) w
          (execute_json send call w) _ (execute_json-Sends call w)
          (rw (has, found, list_of-items_of (map issue_json is), keys_of-issues is)
            (Sends-then (step_calls c is tcs) links tt (key_list is) _
              (add_all_steps send c (map issue_json is) tcs _) _ (add_all_steps-Sends is tcs _ le)
              (Sends-pure links tt (key_list is) _ (link_all send c story (key_list is) _) _
                (link_all-Sends story (key_list is) _) (λ u. refl))))
