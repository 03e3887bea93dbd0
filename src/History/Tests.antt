-- ===== src/History/Tests.antt =====
-- Task and error histories at concrete runs.
use qa_ai_native.Prelude.{ℕ, ◌≡◌, refl, String, none, some, List, [], ◌∷◌, reverse, arith}
use qa_ai_native.Ring.{ring_append}
use qa_ai_native.History.{
  running, completed, TaskRecord, TaskHistory, new_history, get_all, get_by_id,
}
use qa_ai_native.History.Store.{find_id}
use qa_ai_native.History.Runs.{Call, adding, updating, perform_all, all_on_list, history-refines}
use qa_ai_native.History.Errors.{ErrorRecord}

-- The usage is a number here.
abbrev task : String → TaskRecord ℕ
task id = record {
  task_id = id;
  agent_id = "a";
  agent_name = "Coder";
  description = "run";
  status = running;
  start_time = 1;
  end_time = none;
  error_message = none;
  agent_logs = none;
  current_activity = none;
  token_usage = none;
  result_summary = none;
  trace_json = none;
}

abbrev calls : List (Call ℕ)
calls =
    adding (task "t1")
    ∷ adding (task "t2")
    ∷ updating "t1" completed (some 5) none
    ∷ adding (task "t3")
    ∷ updating "t2" completed (some 6) none
    ∷ []

history-refines_example :
    (h : TaskHistory ℕ) × (perform_all calls (new_history 2) ≡ some h)
    × (get_all h ≡ reverse (all_on_list 2 calls []))
    × ((k : String) → get_by_id k h ≡ find_id k (all_on_list 2 calls []))
unfolding ring_append
history-refines_example =
    history-refines 2 calls (omega arith) (refl, (refl, (tt, (refl, (tt, tt)))))

abbrev an_error : String → ErrorRecord
an_error id = record {
  error_id = id;
  timestamp = 1;
  task_id = none;
  agent_id = none;
  message = "failed";
  traceback_snippet = none;
  module_name = none;
}

abbrev errors : List ErrorRecord
errors = an_error "e1" ∷ an_error "e2" ∷ []
