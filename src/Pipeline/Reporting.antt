-- ===== src/Pipeline/Reporting.antt =====
-- The report of the execution of a project's tests.
use qa_ai_native.Prelude.{
  suc, ◌≡◌, refl, sym, ap, ◌∙◌, true, Option, some, List, [], ◌∷◌, ◌++◌, length, String, arith,
}
use mathlib.Core.Path.{subst}
use mathlib.Core.List.{append_assoc}
use qa_ai_native.Dict.{Dict, lookup}
use qa_ai_native.TestCases.{TestCase, group_test_cases_by_labels}
use qa_ai_native.Pipeline.{Executed, Effect, test_plan_created, results_uploaded, report_generated}
use qa_ai_native.Pipeline.Execution.{
  Backend, Response, completed, finish, generate_test_report,
  request_incident_creation_for_failed_tests, execute_tests, run_test_cases, run_groups,
  run_fetched, run_results,
}
use qa_ai_native.Pipeline.Incidents.{requests, wanted, AreSettled, incidents-requested}

length-AreSettled : (es es' : List Executed) → AreSettled es es' → length es' ≡ length es
length-AreSettled _ _ AreSettled.none_left = refl
length-AreSettled _ _ (AreSettled.kept e es es' h) = ap suc (length-AreSettled es es' h)
length-AreSettled _ _ (AreSettled.marked e i es es' n h) = ap suc (length-AreSettled es es' h)

-- The effects of a report.
abbrev pub report_effects : String → List Executed → List Effect
report_effects key es = test_plan_created ∷ results_uploaded key es ∷ report_generated es ∷ []

-- What a run adds: first effects with the wanted requests, then the report of the settled results.
pub record IsReported (b : Backend) (key : String) (es : List Executed)
    (r : List Effect × Option Response) : Type 0 where
  pub before : List Effect
  pub results : List Executed
  pub sent : requests before ≡ wanted b es
  pub are_settled : AreSettled es results
  pub effects : r.0 ≡ before ++ report_effects key results
  pub response : r.1 ≡ some (completed (length es))

module _ (b : Backend) (key : String) where
  report-effects :
      (log : List Effect) (es : List Executed)
      → b.plan ≡ some key
      → b.uploads es ≡ true
      → b.reports es ≡ true
      → generate_test_report b es log ≡ (log ++ report_effects key es, some tt)
  unfolding generate_test_report
  report-effects log es p u r =
      rw (p, u, r)
        (ap (λ l. (l, some tt))
          (append_assoc (log ++ test_plan_created ∷ []) (results_uploaded key es ∷ [])
              (report_generated es ∷ [])
            ∙ append_assoc log (test_plan_created ∷ [])
                (results_uploaded key es ∷ report_generated es ∷ [])))

  finish-IsReported :
      (e : Executed) (es : List Executed) (p : List Effect × List Executed)
      → requests p.0 ≡ wanted b (e ∷ es)
      → AreSettled (e ∷ es) p.1
      → b.plan ≡ some key
      → ((rs : List Executed) → b.uploads rs ≡ true)
      → ((rs : List Executed) → b.reports rs ≡ true)
      → IsReported b key (e ∷ es) (finish b p)
  finish-IsReported e es (log, []) s a p u r =
      absurd (omega (arith, length-AreSettled (e ∷ es) [] a))
  finish-IsReported e es (log, d ∷ ds) s a p u r =
      rw (report-effects log (d ∷ ds) p (u (d ∷ ds)) (r (d ∷ ds))) (record {
        before = log;
        results = d ∷ ds;
        sent = s;
        are_settled = a;
        effects = refl;
        response = ap (λ n. some (completed n)) (length-AreSettled (e ∷ es) (d ∷ ds) a);
      })

-- If the test cases are fetched, some of them have a label to group them by, their execution gives
-- results, a test plan is created, and the upload and the report succeed, then the run reports each
-- result: whatever the agents answer, it sends a request to create an incident for each failed or
-- broken result with complete data and for no other, then it uploads all results to the plan and
-- generates the report of them, in which nothing has changed but the incidents of failed and broken
-- ones, and it answers with their number.
pub execute_tests-IsReported :
    (b : Backend) (key : String) (groups groups' : Dict (List TestCase)) (tc : TestCase)
    (tcs : List TestCase) (g : String × List TestCase) (e : Executed) (es : List Executed)
    → b.fetched ≡ some groups
    → lookup b.automated_label groups ≡ some (tc ∷ tcs)
    → group_test_cases_by_labels b.automated_label (tc ∷ tcs) ≡ g ∷ groups'
    → b.executed (g ∷ groups') ≡ some (e ∷ es)
    → b.plan ≡ some key
    → ((rs : List Executed) → b.uploads rs ≡ true)
    → ((rs : List Executed) → b.reports rs ≡ true)
    → IsReported b key (e ∷ es) (execute_tests b [])
unfolding execute_tests
execute_tests-IsReported b key groups groups' tc tcs g e es fetched found grouped ran p u r =
    let (sent, are_settled) = incidents-requested b (e ∷ es) [] in
    let settled = request_incident_creation_for_failed_tests b (e ∷ es) [] in
    let run : execute_tests b [] ≡ finish b settled =
      ap (λ o. run_fetched b o []) fetched
      ∙ ap (λ o. run_test_cases b o []) found
      ∙ ap (λ d. run_groups b d []) grouped
      ∙ ap (λ o. run_results b o []) ran in
    subst (IsReported b key (e ∷ es)) (sym run)
      (finish-IsReported b key e es settled sent are_settled p u r)
