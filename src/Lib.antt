-- ===== src/Lib.antt =====
-- Verification library of the QuAIA orchestrator: a service that hands testing tasks to agents
-- which it discovers, and keeps what happened for a dashboard.
--
-- The parts and their files:
--   Registry    `AgentRegistry` (orchestrator/models.py): six dicts by agent ID, here a record; one
--               function for each method, generic in the agent card of the A2A library.
--   Reserve     `_get_agents_info`, `_select_agent`, `reserve_agent_waiting_if_needed`
--               (orchestrator/main.py): the only place where an agent's slot is taken.
--   Ring        `collections.deque(maxlen=n)` as a list, oldest element first.
--   History     `TaskRecord`, `TaskHistory` (orchestrator/models.py): the deque and the dict hold the
--               same record objects, so records live on a heap. History/Errors: `ErrorHistory`.
--   Hub         `_Subscriber`, `StreamingHub` (orchestrator/streaming_hub.py) and the events of
--               common/streaming.py: the buffers share the event dicts, which live on a heap.
--   Guard       `_RequirementReviewGuard` (orchestrator/main.py): dedup window and rate cap.
--   Webhook     `_extract_requirement_review_ref`, `trigger_requirement_review` (orchestrator/main.py):
--               the endpoint before the guard, over JSON values.
--   StreamToken `_mint_stream_token`, `_validate_stream_token`, `dashboard_stream_auth`
--               (orchestrator/main.py).
--   LogBuffer   `MemoryLogHandler`, `_NoiseFilter` (orchestrator/memory_log_handler.py).
--   LogCapture  `AgentLogCaptureHandler` (common/agent_log_capture.py).
--   Dispatch    `_send_task_to_agent_with_message`, `_handle_stream_chunk`, `_finalize_task`
--               (orchestrator/main.py): the calls on the other parts, in order.
--   Redaction   `redact_messages` (common/trace_redaction.py).
--   Recovery    `_retry_cancellation_task`, `_health_check_agents` (orchestrator/main.py).
--   Discovery   `_process_url_discovery`, `_discover_agents`,
--               `_discover_agents_with_startup_retry` (orchestrator/main.py).
--   Dashboard   the counts of `get_summary` (orchestrator/dashboard_service.py).
--   Retry       `_run_agent_with_retry` (orchestrator/main.py).
--   TestCases   the records of common/models.py, `_group_test_cases_by_labels`.
--   Selection   `_select_all_suitable_agent_ids`,
--               `_select_execution_agents_for_each_test_label`,
--               `_request_all_test_cases_execution` (orchestrator/main.py).
--   Pool        `_execute_test_group`, `_agent_worker`, `_execute_single_test` (orchestrator/main.py):
--               a state and a step function over events.
--   Zephyr      `ZephyrClient` (common/services/zephyr_client.py): Cases the writes, Parse and Search
--               the reads, Executions the reports, Text the rewriting of texts.
--   Xray        `XrayClient` (common/services/xray_client.py): Parse and Queries the reads, Executions
--               the import of executions.
--   Meego       `MeegoClient` (common/services/meego_client.py): the token, the creation; Writes the rest.
--   Pipeline    reading of an agent's artifacts (orchestrator/main.py); Story `_run_pipeline` with its
--               requests and writes; Execution `execute_tests` with the incidents and the report.
--   Jobs        `_pipeline_consumer` (orchestrator/main.py): a state and a step function over events.
--   Generation  the agent that generates test cases (agents/test_case_generation/main.py): Sections the
--               chunks of a requirement document, Generation the batches of the calls of the model.
--   IncidentAgent  the agent that reports incidents (agents/incident_creation/main.py).
--   Service     what a client sends to an outside service and what comes back; commands in do blocks.
--   Json        JSON values, and what Python does with them.
--   Prelude, Dict   names passed on, lists and Booleans; a Python dict as an association list.
--
-- How the code is read. A coroutine runs alone between two awaits, and a method that holds a lock
-- all along is one function of the state. What other tasks do at an await is an input: a list of
-- calls of the registry's methods or of reservations, or the order of the events of the pool or of
-- a discovery. The answer of a language model, of an agent and of the clock is an input too. An
-- operation that raises returns `none` or a constructor of its own. The registry's agent cards are
-- a type parameter, with what the code reads of a card as functions. `StreamingHub.publish_*` is
-- one step, though the code awaits between two subscribers.
--
-- Bounds. Loops are structural recursion on lists. The waiting loop of a reservation runs over a list
-- of passes, one for each time round before the deadline, so its length stands for the time limit,
-- and the empty list is the timeout. So is the end of the list of chunks that a dispatch receives.
-- The retries run on the number of rounds left, which starts at the configured maximum. Sizes
-- (slots, ring sizes, limits) are parameters.
--
-- An outside service is a state with a function from a call to the next state and an answer. The
-- search of Zephyr for test cases runs on fuel, since its loop need not end.
--
-- Not modelled: HTTP routing and the A2A transport, the prompts, the other clients, the other agents,
-- the model servers, the login and the user interface: entry points, texts, or calls of libraries.
pub mod Prelude
pub mod Dict
pub mod Registry
pub mod Reserve
pub mod Ring
pub mod History
pub mod Hub
pub mod Guard
pub mod TestCases
pub mod Pool
pub mod StreamToken
pub mod LogBuffer
pub mod LogCapture
pub mod Recovery
pub mod Retry
pub mod Webhook
pub mod Dispatch
pub mod Redaction
pub mod Discovery
pub mod Dashboard
pub mod Selection
pub mod Json
pub mod Service
pub mod Zephyr
pub mod Xray
pub mod Pipeline
pub mod Meego
pub mod Generation
pub mod IncidentAgent
pub mod Jobs
