-- ===== src/Pool.antt =====
-- The worker pool that executes a group of tests (orchestrator/main.py): `_agent_worker` and
-- `_execute_test_group`. Between two awaits a worker runs alone, so an execution is a sequence of
-- events: a worker goes on, an agent's run of a test ends, or another task changes the registry.
pub mod Stuck
pub mod Account
mod Tests
use Prim.Native.String.{◌++◌ as str_append}
use qa_ai_native.Prelude.{
  ℕ, zero, suc, ◌+◌, ◌-◌, String, Bool, true, false, not, Option, none, some, List, [], ◌∷◌, ◌++◌,
  ◌==◌, map, if◌then◌else◌, str_eq, any, filter, length,
}
use qa_ai_native.Dict.{Dict, lookup, insert, truthy}
use qa_ai_native.Registry.{
  AgentStatus, available, busy, broken, is_broken, BrokenReason, task_stuck, Registry, get_status,
  get_name, has_agent, update_status, or_default,
}
use qa_ai_native.Registry.Invariant.{Call, perform}
use qa_ai_native.TestCases.{TestCase, TestResult, error}

-- Where a worker is: at the head of its loop, waiting in `queue.get()`, executing a test, or done.
pub data Worker : Type 0 where
  looping waiting : Worker
  executing : TestCase → Worker
  stopped : Worker

-- The queue of a group holds tests and, at the end, a `None` for each worker. `unfinished` is the
-- counter that `queue.join()` waits on. A worker has a name of its own, since an agent that is given twice
-- gets two workers; `agents` has the agent of each.
pub record Pool (Card : Type 0) : Type 0 where
  pub queue : List (Option TestCase)
  pub unfinished : ℕ
  pub results : List TestResult
  pub workers : Dict Worker
  pub agents : Dict String
  pub pool_agent_ids : List String
  pub registry : Registry Card
  pub recovery_queue : List String

-- What the agent and the results extractor answer for one test.
pub data Response : Type 0 where
  -- sending the task raised, with the text of the exception
  send_failed : String → Response
  no_artifacts : Response
  -- the artifacts could not be read, with the text of the exception
  unreadable : String → Response
  -- the extractor raised or found nothing
  extraction_failed : String → Response
  extracted : TestResult → Response

abbrev or_text : String → String → String
or_text text default = if str_eq text "" then default else text

-- What one run of a test comes to.
pub data Outcome : Type 0 where
  returned : Option TestResult → Outcome
  -- with the detail of the exception, which stands for its text
  raised : String → Outcome

-- `_execute_single_test`, for an agent's name and the times before and after the run.
unfoldable pub execute_single_test : String → String → String → TestCase → Response → Outcome
execute_single_test agent_name start end tc (send_failed e) =
    raised
      (str_append "Failed to execute test case " (str_append tc.key (str_append ". Error: " e)))
execute_single_test agent_name start end tc no_artifacts =
    raised (str_append "No test case execution results received from agent " agent_name)
execute_single_test agent_name start end tc (unreadable e) = raised e
execute_single_test agent_name start end tc (extraction_failed e) = returned (
    some (record {
      test_case_key = tc.key;
      test_case_name = tc.name;
      status = error;
      general_error_message = str_append "Failed to extract test results: " e;
      start_timestamp = start;
      end_timestamp = end;
      system_description =
          some (
            str_append "Agent: "
              (str_append agent_name ", Environment: Standard Test Environment"));
      test_case = tc;
    }))
execute_single_test agent_name start end tc (extracted r) = returned (
    some (record r {
      test_case_key = tc.key;
      start_timestamp = or_text r.start_timestamp start;
      end_timestamp = or_text r.end_timestamp end;
      system_description =
          if truthy r.system_description
          then r.system_description
          else some (
              str_append "Agent: "
                (str_append agent_name ", Environment: Standard Test Environment"));
      test_case = tc;
    }))

-- The name of a worker: its place among the workers, in strokes.
abbrev pub worker_name : ℕ → String
worker_name zero = ""
worker_name (suc n) = str_append "|" (worker_name n)

-- A worker for each agent, numbered from `n`.
abbrev pub start_workers : ℕ → List String → Dict Worker
start_workers n [] = []
start_workers n (a ∷ ids) = (worker_name n, looping) ∷ start_workers (suc n) ids

abbrev pub assign_agents : ℕ → List String → Dict String
assign_agents n [] = []
assign_agents n (a ∷ ids) = (worker_name n, a) ∷ assign_agents (suc n) ids

-- An event of a worker, by its name, or of another task.
pub data Event (Card : Type 0) : Type 0 where
  goes_on : String → Event Card
  ends : String → Response → Event Card
  registry_call : Call Card → Event Card

module _ {Card : Type 0} where
  abbrev pub set_worker : String → Worker → Pool Card → Pool Card
  set_worker worker w p = record p { workers = insert worker w p.workers }

  abbrev pub agent_of : String → Pool Card → String
  agent_of worker p = or_default "" (lookup worker p.agents)

  -- `queue.put_nowait(item)`
  unfoldable pub put_nowait : Option TestCase → Pool Card → Pool Card
  put_nowait item p = record p { queue = p.queue ++ item ∷ []; unfinished = p.unfinished + 1 }

  -- `queue.task_done()`
  unfoldable pub task_done : Pool Card → Pool Card
  task_done p = record p { unfinished = p.unfinished - 1 }

  -- `item = await queue.get()` and the test of the stop signal.
  unfoldable pub take_item : String → Pool Card → Pool Card
  unfolding task_done
  take_item worker p = elim p.queue [
    | [] ↦ set_worker worker waiting p
    | none ∷ rest ↦ set_worker worker stopped (task_done (record p { queue = rest }))
    | some tc ∷ rest ↦ set_worker worker (executing tc) (record p { queue = rest })
  ]

  -- The head of the worker's loop: a BUSY agent is asked again after a pause.
  unfoldable pub loop_head : String → AgentStatus → Pool Card → Pool Card
  unfolding take_item
  loop_head worker broken p = set_worker worker stopped p
  loop_head worker busy p = p
  loop_head worker available p = take_item worker p

  unfoldable pub go_on : String → Pool Card → Pool Card
  unfolding loop_head
  go_on worker p = elim (lookup worker p.workers) [
    | none ↦ p
    | some looping ↦ loop_head worker (get_status (agent_of worker p) p.registry) p
    | some waiting ↦ take_item worker p
    | some (executing tc) ↦ p
    | some stopped ↦ p
  ]

  -- Whether another agent of the pool is not BROKEN.
  unfoldable pub any_agents_alive : String → Pool Card → Bool
  any_agents_alive agent_id p =
      any (λ id. if str_eq id agent_id then false else not (is_broken (get_status id p.registry)))
        p.pool_agent_ids

  unfoldable pub failed_result :
      (Card → String) → String → TestCase → String → String → Registry Card → TestResult
  failed_result name agent_id tc now message r =
      let agent_name = get_name name agent_id r in
      record {
        test_case_key = tc.key;
        test_case_name = tc.name;
        status = error;
        general_error_message =
            str_append "All agents failed. Last error from "
              (str_append agent_name (str_append ": " message));
        start_timestamp = now;
        end_timestamp = now;
        system_description =
            some (str_append "Agent: " (str_append agent_name " (Failed - No Retry Available)"));
        test_case = tc;
      }

  module _ (name : Card → String) (now : String) where
    -- The exception handler of the worker.
    unfoldable pub handle_failure : String → TestCase → String → Pool Card → Pool Card
    unfolding task_done put_nowait any_agents_alive failed_result
    handle_failure worker tc message p =
        let agent_id = agent_of worker p in
        let p' : Pool Card = record p {
          registry = update_status agent_id broken (some task_stuck) none p.registry;
          recovery_queue = p.recovery_queue ++ agent_id ∷ [];
        } in
        let p'' : Pool Card =
          if any_agents_alive agent_id p' then put_nowait (some tc) p' else record p' {
            results = p'.results ++ failed_result name agent_id tc now message p'.registry ∷ [];
          } in
        set_worker worker stopped (task_done p'')

    -- The run of a test ends.
    unfoldable pub finish : String → TestCase → Outcome → Pool Card → Pool Card
    unfolding task_done handle_failure
    finish worker tc (returned none) p = set_worker worker looping (task_done p)
    finish worker tc (returned (some result)) p =
        set_worker worker looping (task_done (record p { results = p.results ++ result ∷ [] }))
    finish worker tc (raised message) p = handle_failure worker tc message p

    unfoldable pub end_run : String → Response → Pool Card → Pool Card
    unfolding finish execute_single_test
    end_run worker response p = elim (lookup worker p.workers) [
      | none ↦ p
      | some w ↦ elim w [
        | executing tc ↦
            finish worker tc
              (execute_single_test (get_name name (agent_of worker p) p.registry) now now tc
                response)
              p
        | looping ↦ p
        | waiting ↦ p
        | stopped ↦ p
      ]
    ]

    unfoldable pub step : Event Card → Pool Card → Pool Card
    unfolding go_on end_run
    step (goes_on worker) p = go_on worker p
    step (ends worker response) p = end_run worker response p
    step (registry_call c) p = record p { registry = perform c p.registry }

    abbrev pub steps : List (Event Card) → Pool Card → Pool Card
    steps [] p = p
    steps (e ∷ es) p = steps es (step e p)

  -- The agents of the group that are registered.
  unfoldable pub valid_ids : List String → Registry Card → List String
  valid_ids agent_ids r = filter (λ a. has_agent a r) agent_ids

  -- The queue and the workers as `_execute_test_group` sets them up; `none` when it returns no
  -- results because no agent is left.
  unfoldable pub start_group : List TestCase → List String → Registry Card → Option (Pool Card)
  unfolding valid_ids
  start_group tests agent_ids r = elim (valid_ids agent_ids r) [
    | [] ↦ none
    | a ∷ ids ↦ some (record {
      queue = map some tests;
      unfinished = length tests;
      results = [];
      workers = start_workers 0 (a ∷ ids);
      agents = assign_agents 0 (a ∷ ids);
      pool_agent_ids = a ∷ ids;
      registry = r;
      recovery_queue = [];
    })
  ]

  -- `await queue.join()` returns.
  abbrev pub is_joined : Pool Card → Bool
  is_joined p = p.unfinished == 0

  -- The stop signals: one `None` for each worker.
  unfoldable pub signal_stop : List String → Pool Card → Pool Card
  unfolding put_nowait
  signal_stop [] p = p
  signal_stop (a ∷ ids) p = signal_stop ids (put_nowait none p)
