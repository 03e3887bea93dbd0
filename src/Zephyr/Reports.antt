-- ===== src/Zephyr/Reports.antt =====
-- What the Zephyr client reports of executions, and which issues it links them to.
use qa_ai_native.Prelude.{
  ◌<◌, String, ◌≡◌, sym, All, Option, some, List, [], ◌∷◌, ◌++◌, if◌then◌else◌, map, length,
  Bool-cases, inl, inr,
}
use qa_ai_native.Json.{
  Json, object, array, nil, Fields, get, get_or, is_truthy, items_of, list_of-items_of,
}
use qa_ai_native.Retry.{Attempt}
use qa_ai_native.Service.{Call, World}
use qa_ai_native.Zephyr.{Config, request, request_json}
use qa_ai_native.Zephyr.Search.{steps_call}
use qa_ai_native.Zephyr.Executions.{
  Execution, issues_of, execution_call, link_call, link_issues, total_steps, create_execution,
  create_test_execution,
}
use qa_ai_native.Zephyr.Payload.{
  wanted_links, issues_of-wanted, TellsExecution, execution-TellsExecution,
}
use qa_ai_native.Service.Sends.{Sends, pure-Sends, Sends-then, Answers}
use qa_ai_native.Zephyr.Sends.{request-Sends, request_json-Sends}

module _ (c : Config) (timestamp : String → Option String) (project_key cycle_key : String)
    (version_id : Option String) (show : Json → String) (reply : Call → Fields)
    (steps : String → List Json) where
  -- The call that creates an execution, for the steps that its test case has.
  abbrev pub created_call : Execution → Call
  created_call e =
      execution_call c timestamp project_key cycle_key version_id (length (steps e.test_case_key)) e

  -- The calls for one execution: its steps are read, it is created, and if it has an identifier it is
  -- linked to its incident and the duplicates.
  abbrev pub calls_of : Execution → List Call
  calls_of e =
      let created = created_call e in
      let execution_id = get "id" (reply created) in
      steps_call c e.test_case_key
      ∷ created
      ∷ (if is_truthy execution_id
          then map (link_call c show execution_id) (wanted_links e.incident)
          else [])

  abbrev pub all_calls : List Execution → List Call
  all_calls [] = []
  all_calls (e ∷ es) = calls_of e ++ all_calls es

  module _ {S : Type 0} (send : Call → S → S × Attempt (Option Json)) (answers : Answers send reply)
      (positive : 0 < c.max_retries)
      (has_steps : (key : String)
        → get_or (array nil) "values" (reply (steps_call c key))
          ≡ array (items_of (steps key))) where
    link_issues-Sends :
        (execution_id : Json) (issues : List Json) (w : World S)
        → Sends
            (map (link_call c show execution_id) issues)
            tt
            w
            (link_issues send c show execution_id issues w)
    unfolding link_issues
    link_issues-Sends execution_id [] w = pure-Sends tt w
    link_issues-Sends execution_id (issue ∷ issues) w =
        let call = link_call c show execution_id issue in
        Sends-then (call ∷ []) (map (link_call c show execution_id) issues)
          (some (object (reply call))) tt w (request send c call w)
          (λ answer. link_issues send c show execution_id issues)
          (request-Sends send c reply answers positive call w)
          (link_issues-Sends execution_id issues _)

    total_steps-Sends :
        (key : String) (w : World S)
        → Sends (steps_call c key ∷ []) (length (steps key)) w (total_steps send c key w)
    unfolding total_steps
    total_steps-Sends key w =
        let call = steps_call c key in
        Sends-then (call ∷ []) [] (object (reply call)) (length (steps key)) w
          (request_json send c call w) _ (request_json-Sends send c reply answers positive call w)
          (rw (has_steps key, list_of-items_of (steps key)) (pure-Sends (length (steps key)) _))

    create_execution-Sends :
        (e : Execution) (w : World S)
        → Sends
            (calls_of e)
            tt
            w
            (create_execution c timestamp project_key cycle_key version_id send show e w)
    unfolding create_execution
    create_execution-Sends e w =
        let total = length (steps e.test_case_key) in
        let call = execution_call c timestamp project_key cycle_key version_id total e in
        let read = total_steps send c e.test_case_key w in
        Sends-then (steps_call c e.test_case_key ∷ []) _ total tt w read _
          (total_steps-Sends e.test_case_key w)
          (Sends-then (call ∷ []) _ (object (reply call)) tt read.0
            (request_json send c call read.0) _
            (request_json-Sends send c reply answers positive call read.0)
            (elim (Bool-cases (is_truthy (get "id" (reply call)))) [
              | inl h ↦
                  rw (h, sym (issues_of-wanted e.incident))
                    (link_issues-Sends (get "id" (reply call)) (issues_of e.incident) _)
              | inr h ↦ rw h (pure-Sends tt _)
            ]))

    all_calls-Sends :
        (es : List Execution) (w : World S)
        → Sends
            (all_calls es)
            tt
            w
            (create_test_execution c timestamp project_key cycle_key version_id send show es w)
    unfolding create_test_execution
    all_calls-Sends [] w = pure-Sends tt w
    all_calls-Sends (e ∷ es) w =
        let one = create_execution c timestamp project_key cycle_key version_id send show e w in
        Sends-then (calls_of e) (all_calls es) tt tt w one
          (λ done. create_test_execution c timestamp project_key cycle_key version_id send show es)
          (create_execution-Sends e w) (all_calls-Sends es one.0)

    executions-TellsExecution :
        (es : List Execution)
        → All
            (λ e.
              TellsExecution project_key cycle_key
                (length (steps e.test_case_key))
                e
                (created_call e).content)
            es
    executions-TellsExecution [] = tt
    executions-TellsExecution (e ∷ es) = (
      execution-TellsExecution c timestamp project_key cycle_key version_id
          (length (steps e.test_case_key)) e,
      executions-TellsExecution es,
    )

    -- If the service answers each call, with a list of the steps of each test case, then the report of
    -- executions succeeds without a retry and sends exactly these calls, in this order: for each
    -- execution the reading of its steps, the execution, and, if the answer to that has an identifier,
    -- a link to the incident, if that has one, and to each of its duplicates with one. The execution
    -- names the project, the test case, the cycle and whether the test passed; it tells for each step
    -- result whether it passed and the error, or else what was found, and that each further step of
    -- the test case was not executed.
    pub create_test_execution-Sends :
        (es : List Execution) (w : World S)
        → Sends
            (all_calls es)
            tt
            w
            (create_test_execution c timestamp project_key cycle_key version_id send show es w)
          × All
              (λ e.
                TellsExecution project_key cycle_key
                  (length (steps e.test_case_key))
                  e
                  (created_call e).content)
              es
    create_test_execution-Sends es w = (all_calls-Sends es w, executions-TellsExecution es)
