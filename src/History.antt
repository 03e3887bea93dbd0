-- ===== src/History.antt =====
-- Task and error history (orchestrator/models.py): `TaskStatus`, `TaskRecord`, `TaskHistory`,
-- `ErrorRecord` and `ErrorHistory`. The ring buffer of a `TaskHistory` and its dict hold the same
-- record objects, and updates go through the dict: so records live on a heap, and the buffer and
-- the dict hold addresses. Times are numbers (microseconds); the token usage is a JSON object of
-- the agents, a parameter of the record.
pub mod Store
pub mod Errors
pub mod Newest
pub mod Runs
pub mod Adding
pub mod Refinement
mod Tests
use qa_ai_native.Prelude.{
  ℕ, ◌+◌, ◌-◌, String, Bool, true, false, not, Option, none, some, List, [], ◌∷◌, ◌++◌, map,
  reverse, if◌then◌else◌, ◌==◌, str_eq, length, head?, drop, find,
}
use qa_ai_native.Dict.{Dict, lookup, insert, erase, truthy}
use qa_ai_native.Ring.{ring_append}

pub data TaskStatus : Type 0 where
  pending running completed failed cancelled : TaskStatus

pub record TaskRecord (Usage : Type 0) : Type 0 where
  pub task_id : String
  pub agent_id : String
  pub agent_name : String
  pub description : String
  pub status : TaskStatus
  pub start_time : ℕ
  pub end_time : Option ℕ
  pub error_message : Option String
  pub agent_logs : Option (List String)
  pub current_activity : Option String
  pub token_usage : Option Usage
  pub result_summary : Option String
  pub trace_json : Option String

-- The first operand of Python's `or`-like update `if x: field = x`.
abbrev pub keep_or {ℓ} : {A : Type ℓ} → Option A → Option A → Option A
keep_or old none = old
keep_or old (some a) = some a

-- `if text: field = text`
abbrev pub keep_or_text : Option String → Option String → Option String
keep_or_text old text = if truthy text then text else old

module _ {Usage : Type 0} where
  -- What the updating methods do to the record that they find.
  abbrev pub with_update :
      TaskStatus → Option ℕ → Option String → TaskRecord Usage → TaskRecord Usage
  with_update status end_time error t = record t {
    status = status;
    end_time = keep_or t.end_time end_time;
    error_message = keep_or_text t.error_message error;
  }

  abbrev pub with_logs : List String → TaskRecord Usage → TaskRecord Usage
  with_logs logs t = record t { agent_logs = some logs }

  abbrev pub with_usage : Usage → TaskRecord Usage → TaskRecord Usage
  with_usage usage t = record t { token_usage = some usage }

  abbrev pub with_trace : String → TaskRecord Usage → TaskRecord Usage
  with_trace trace t = record t { trace_json = some trace }

  abbrev pub with_result_summary : String → TaskRecord Usage → TaskRecord Usage
  with_result_summary summary t = record t { result_summary = some summary }

  abbrev pub with_activity : Option String → TaskRecord Usage → TaskRecord Usage
  with_activity text t = record t { current_activity = text }

  abbrev pub with_log_batch : List String → TaskRecord Usage → TaskRecord Usage
  with_log_batch lines t = record t {
    agent_logs = some (elim t.agent_logs [ none ↦ lines | some logs ↦ logs ++ lines ]);
  }

-- The cells from `next` on are free; what they hold is never read.
pub record TaskHistory (Usage : Type 0) : Type 0 where
  pub max_size : ℕ
  pub tasks : List ℕ
  pub tasks_by_id : Dict ℕ
  pub heap : ℕ → TaskRecord Usage
  pub next : ℕ

abbrev pub write_at {ℓ} : {A : Type ℓ} → ℕ → A → (ℕ → A) → ℕ → A
write_at a x heap b = if b == a then x else heap b

module _ {Usage : Type 0} where
  abbrev pub blank : TaskRecord Usage
  blank = record {
    task_id = "";
    agent_id = "";
    agent_name = "";
    description = "";
    status = pending;
    start_time = 0;
    end_time = none;
    error_message = none;
    agent_logs = none;
    current_activity = none;
    token_usage = none;
    result_summary = none;
    trace_json = none;
  }

  unfoldable pub new_history : ℕ → TaskHistory Usage
  new_history max_size = record {
    max_size = max_size;
    tasks = [];
    tasks_by_id = [];
    heap = λ a. blank;
    next = 0;
  }

  -- The record object is allocated, put at the right end, and entered in a dict.
  unfoldable pub enter : TaskRecord Usage → Dict ℕ → TaskHistory Usage → TaskHistory Usage
  enter task by_id h = record h {
    tasks = ring_append h.max_size h.next h.tasks;
    tasks_by_id = insert task.task_id h.next by_id;
    heap = write_at h.next task h.heap;
    next = h.next + 1;
  }

  -- `none` is the IndexError of `self._tasks[0]` on an empty buffer of capacity 0.
  unfoldable pub add : TaskRecord Usage → TaskHistory Usage → Option (TaskHistory Usage)
  unfolding enter
  add task h =
      if length h.tasks == h.max_size
      then (elim (head? h.tasks) [
        | none ↦ none
        | some evicted ↦
            some (enter task (erase (TaskRecord.task_id (h.heap evicted)) h.tasks_by_id) h)
      ])
      else some (enter task h.tasks_by_id h)

  -- `if task_id in self._tasks_by_id: …`: the record is changed in place.
  unfoldable pub edit :
      (TaskRecord Usage → TaskRecord Usage) → String → TaskHistory Usage → TaskHistory Usage
  edit f task_id h = elim (lookup task_id h.tasks_by_id) [
    | none ↦ h
    | some a ↦ record h { heap = write_at a (f (h.heap a)) h.heap }
  ]

  abbrev pub update :
      String → TaskStatus → Option ℕ → Option String → TaskHistory Usage → TaskHistory Usage
  update task_id status end_time error = edit (with_update status end_time error) task_id

  abbrev pub update_logs : String → List String → TaskHistory Usage → TaskHistory Usage
  update_logs task_id logs = edit (with_logs logs) task_id

  abbrev pub update_usage : String → Usage → TaskHistory Usage → TaskHistory Usage
  update_usage task_id usage = edit (with_usage usage) task_id

  abbrev pub update_trace : String → String → TaskHistory Usage → TaskHistory Usage
  update_trace task_id trace = edit (with_trace trace) task_id

  abbrev pub update_result_summary : String → String → TaskHistory Usage → TaskHistory Usage
  update_result_summary task_id summary = edit (with_result_summary summary) task_id

  abbrev pub set_current_activity : String → String → TaskHistory Usage → TaskHistory Usage
  set_current_activity task_id text = edit (with_activity (some text)) task_id

  abbrev pub clear_current_activity : String → TaskHistory Usage → TaskHistory Usage
  clear_current_activity task_id = edit (with_activity none) task_id

  abbrev pub append_log_batch : String → List String → TaskHistory Usage → TaskHistory Usage
  append_log_batch task_id lines = edit (with_log_batch lines) task_id

  -- Newest first.
  unfoldable pub get_all : TaskHistory Usage → List (TaskRecord Usage)
  get_all h = reverse (map h.heap h.tasks)

  unfoldable pub get_by_id : String → TaskHistory Usage → Option (TaskRecord Usage)
  get_by_id task_id h = elim (lookup task_id h.tasks_by_id) [
    | none ↦ none
    | some a ↦ some (h.heap a)
  ]
