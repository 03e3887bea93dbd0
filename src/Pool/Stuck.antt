-- ===== src/Pool/Stuck.antt =====
-- When the last worker stops before the queue is empty, `queue.join()` never returns.
use Prim.Native.String.{◌++◌ as str_append}
use mathlib.Core.Path.{subst}
use qa_ai_native.Prelude.{
  ◌==◌, ◌≤◌, ◌≡◌, ◌≢◌, refl, sym, ap, ◌∙◌, String, false, some, List, [], ◌∷◌, arith, str_eq,
  eq_iff, Bool-cases, Option-cases, inl, inr, if◌then◌else◌,
}
use qa_ai_native.Dict.{lookup, lookup-insert}
use qa_ai_native.TestCases.{TestCase}
use qa_ai_native.Pool.{
  Worker, executing, stopped, Pool, Response, send_failed, Event, goes_on, ends, registry_call,
  go_on, end_run, handle_failure, finish, step, steps, is_joined, execute_single_test,
}

module _ {Card : Type 0} (name : Card → String) (now : String) where
  -- Every worker of the pool has stopped.
  abbrev pub AllStopped : Pool Card → Type 0
  AllStopped p = (a : String) (w : Worker) → lookup a p.workers ≡ some w → w ≡ stopped

  go_on_stopped : (a : String) (p : Pool Card) → AllStopped p → go_on a p ≡ p
  unfolding go_on
  go_on_stopped a p h = elim (Option-cases (lookup a p.workers)) [
    | inl e ↦ ground (arith, e)
    | inr (w, e) ↦ ground (arith, e, h a w e)
  ]

  end_run_stopped :
      (a : String) (x : Response) (p : Pool Card) → AllStopped p → end_run name now a x p ≡ p
  unfolding end_run
  end_run_stopped a x p h = elim (Option-cases (lookup a p.workers)) [
    | inl e ↦ ground (arith, e)
    | inr (w, e) ↦ ground (arith, e, h a w e)
  ]

  -- The workers and the counter of a stopped pool never change again.
  step_stopped :
      (e : Event Card) (p : Pool Card)
      → AllStopped p
      → ((step name now e p).workers ≡ p.workers) × ((step name now e p).unfinished ≡ p.unfinished)
  unfolding step
  step_stopped (goes_on a) p h =
      let e = go_on_stopped a p h in (ap Pool.workers e, ap Pool.unfinished e)
  step_stopped (ends a x) p h =
      let e = end_run_stopped a x p h in (ap Pool.workers e, ap Pool.unfinished e)
  step_stopped (registry_call c) p h = (refl, refl)

  pub steps_stopped :
      (es : List (Event Card)) (p : Pool Card)
      → AllStopped p
      → (steps name now es p).unfinished ≡ p.unfinished
  steps_stopped [] p h = refl
  steps_stopped (e ∷ es) p h =
      let (same, left) = step_stopped e p h in
      steps_stopped es (step name now e p) (λ a w q. h a w (rw same at q)) ∙ left

  handle_failure_effect :
      (a : String) (tc : TestCase) (message : String) (p : Pool Card)
      → 2 ≤ p.unfinished
      → 1 ≤ (handle_failure name now a tc message p).unfinished
  unfolding handle_failure
  handle_failure_effect a tc message p h = ground arith

  handle_failure_workers :
      (a : String) (tc : TestCase) (message : String) (p : Pool Card) (b : String)
      → lookup b (handle_failure name now a tc message p).workers
        ≡ (if str_eq a b then some stopped else lookup b p.workers)
  unfolding handle_failure
  handle_failure_workers a tc message p b = ground (arith, lookup-insert a b stopped p.workers)

  handle_failure-AllStopped :
      (a : String) (tc : TestCase) (message : String) (p : Pool Card)
      → ((b : String) (w : Worker) → b ≢ a → lookup b p.workers ≡ some w → w ≡ stopped)
      → AllStopped (handle_failure name now a tc message p)
  handle_failure-AllStopped a tc message p others b w q =
      let q' : (if str_eq a b then some stopped else lookup b p.workers) ≡ some w =
        sym (handle_failure_workers a tc message p b) ∙ q in
      elim (Bool-cases (str_eq a b)) [
        | inl e ↦ ground (arith, e, q')
        | inr e ↦ others b w (λ same. ground (arith, e, eq_iff a b, same)) (ground (arith, e, q'))
      ]

  -- The text of the exception that a failed sending ends in.
  abbrev send_error : TestCase → String → String
  send_error tc message =
      str_append "Failed to execute test case " (str_append tc.key (str_append ". Error: " message))

  -- A run that raises is handled as a failure of the worker.
  end_run_raised :
      (a : String) (tc : TestCase) (message : String) (p : Pool Card)
      → lookup a p.workers ≡ some (executing tc)
      → end_run name now a (send_failed message) p
        ≡ handle_failure name now a tc (send_error tc message) p
  unfolding end_run finish execute_single_test
  end_run_raised a tc message p running = ground (arith, running)

  -- If the run of a test raises on the only worker that has not stopped, while another test is
  -- unfinished, then whatever happens afterwards the queue is never joined: the group hangs.
  pub pool-hangs :
      (a : String) (tc : TestCase) (message : String) (p : Pool Card) (es : List (Event Card))
      → lookup a p.workers ≡ some (executing tc)
      → ((b : String) (w : Worker) → b ≢ a → lookup b p.workers ≡ some w → w ≡ stopped)
      → 2 ≤ p.unfinished
      → is_joined (steps name now (ends a (send_failed message) ∷ es) p) ≡ false
  unfolding step
  pool-hangs a tc message p es running others many =
      let text : String = send_error tc message in
      let p1 : Pool Card = handle_failure name now a tc text p in
      let stuck : ((steps name now es p1).unfinished == 0) ≡ false = ground (
        arith,
        steps_stopped es p1 (handle_failure-AllStopped a tc text p others),
        handle_failure_effect a tc text p many,
      ) in
      subst (λ q. is_joined (steps name now es q) ≡ false)
        (sym (end_run_raised a tc message p running)) stuck
