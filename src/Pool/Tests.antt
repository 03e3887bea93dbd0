-- ===== src/Pool/Tests.antt =====
-- A pool of one worker.
use qa_ai_native.Prelude.{◌↔◌, true, ◌≡◌, refl, String, false, none, some, [], ◌∷◌, arith, eq_iff}
use qa_ai_native.Registry.{empty_registry}
use qa_ai_native.Registry.Invariant.{registering, perform_all}
use qa_ai_native.TestCases.{TestCase}
use qa_ai_native.Pool.{
  start_workers, looping, Pool, executing, ends, goes_on, send_failed, is_joined, steps,
}
use qa_ai_native.Pool.Account.{IsAccounted, running, steps-IsAccounted}
use qa_ai_native.Pool.Stuck.{pool-hangs}

abbrev test : String → TestCase
test key = record {
  key = key;
  labels = "UI" ∷ [];
  name = "log in";
  summary = "";
  comment = "";
  preconditions = none;
  steps = [];
  parent_issue_key = none;
}

-- One of two tests is running, the other is queued.
abbrev pool : Pool String
pool = record {
  queue = some (test "T-2") ∷ [];
  unfinished = 2;
  results = [];
  workers = ("w", executing (test "T-1")) ∷ [];
  agents = ("w", "a") ∷ [];
  pool_agent_ids = "a" ∷ [];
  registry = perform_all (registering "a" "Coder" ∷ []) empty_registry;
  recovery_queue = [];
}

pool-hangs_example :
    is_joined (steps (λ c. c) "now" (ends "w" (send_failed "timeout") ∷ goes_on "w" ∷ []) pool)
    ≡ false
pool-hangs_example =
    pool-hangs (λ c. c) "now" "w" (test "T-1") "timeout" pool (goes_on "w" ∷ []) refl
      (λ b w ne found. ground (arith, ne, found, eq_iff "w" b)) (omega arith)

steps-IsAccounted_example :
    let p = steps (λ c. c) "now" (ends "w" (send_failed "timeout") ∷ goes_on "w" ∷ []) pool in
    IsAccounted p × ((is_joined p ≡ true) ↔ ((p.queue ≡ []) × (running p.workers ≡ 0)))
steps-IsAccounted_example =
    steps-IsAccounted (λ c. c) "now" (ends "w" (send_failed "timeout") ∷ goes_on "w" ∷ []) pool refl

-- An agent that is given twice gets two workers.
two_workers : start_workers 0 ("a" ∷ "a" ∷ []) ≡ ("", looping) ∷ ("|", looping) ∷ []
two_workers = refl
