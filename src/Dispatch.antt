-- ===== src/Dispatch.antt =====
-- The dispatch of a task to a reserved agent (orchestrator/main.py):
-- `_send_task_to_agent_with_message`, `_handle_stream_chunk` and `_finalize_task`. What the agent
-- streams is an input; the calls that the coroutine makes on the task history, the registry, the hub
-- and the recovery queue are listed in order, so that they can be performed among those of other
-- tasks. The decoding of a part and the extraction of logs, usage and trace from the artifacts are
-- inputs too.
pub mod Effects
pub mod Endings
mod Tests
use qa_ai_native.Prelude.{
  ℕ, String, Bool, true, false, ◌&&◌, Option, none, some, List, [], ◌∷◌, ◌++◌, if◌then◌else◌,
  str_eq, is_some,
}
use qa_ai_native.Dict.{truthy}
use qa_ai_native.Registry.{available, broken, BrokenReason, offline, task_stuck, or_default}
use qa_ai_native.Registry.Invariant.{updating, setting_task}
use qa_ai_native.Registry.Invariant as Registry
use qa_ai_native.History.{TaskStatus, running, completed, failed, TaskRecord}
use qa_ai_native.History.Runs.{
  adding, updating_logs, updating_usage, updating_trace, setting_activity, clearing_activity,
  appending_logs,
}
use qa_ai_native.History.Runs as History
use qa_ai_native.Hub.{Event, agent_activity, log_batch, task_done}

-- A part of an artifact: plain text with its lines, or anything else.
pub data Part : Type 0 where
  plain_text : List String → Part
  other_part : Part

pub record Artifact : Type 0 where
  pub name : String
  pub artifact_id : String
  pub parts : List Part

pub data TaskState : Type 0 where
  state_completed state_failed state_rejected state_working state_other : TaskState

-- What the agent streams, and how the stream ends.
pub data Chunk : Type 0 where
  -- the agent's ID of the task, the state, and the text of its message
  status_update : String → TaskState → Option String → Chunk
  -- whether it is the last chunk
  artifact_update : Artifact → Bool → Chunk
  message : Chunk
  stream_ended : Chunk
  chunk_timeout : Chunk
  -- any other exception, with its text
  broke : String → Chunk

pub record LogStreamState : Type 0 where
  pub log_artifact_id : Option String
  pub lines : List String

-- What is extracted from a completed task.
pub record Saved (Usage : Type 0) : Type 0 where
  pub logs : List String
  pub usage : Option Usage
  pub trace : Option String

pub data Effect (Usage Card : Type 0) : Type 0 where
  on_history : History.Call Usage → Effect Usage Card
  on_registry : Registry.Call Card → Effect Usage Card
  published_global : Event → Effect Usage Card
  published_agent : String → Event → Effect Usage Card
  -- `cancellation_queue.put((agent_id, time.time()))`
  queued : String → Effect Usage Card

-- The completed task with its state and artifacts, an HTTPException with its code, or the exception
-- of the stream.
pub data Outcome : Type 0 where
  returned : TaskState → List Artifact → Outcome
  http_error : ℕ → Outcome
  reraised : String → Outcome

abbrev pub is_plain : Part → Bool
is_plain (plain_text lines) = true
is_plain other_part = false

abbrev pub all_plain : List Part → Bool
all_plain [] = true
all_plain (p ∷ ps) = is_plain p && all_plain ps

abbrev pub is_nonempty : List Part → Bool
is_nonempty [] = false
is_nonempty (p ∷ ps) = true

abbrev pub lines_of : List Part → List String
lines_of [] = []
lines_of (plain_text lines ∷ ps) = lines ++ lines_of ps
lines_of (other_part ∷ ps) = lines_of ps

unfoldable pub is_logs_chunk : String → Artifact → LogStreamState → Bool
is_logs_chunk logs_name artifact log =
    if str_eq artifact.name logs_name
    then true
    else if elim log.log_artifact_id [ none ↦ false | some a ↦ str_eq artifact.artifact_id a ]
    then true
    else is_nonempty artifact.parts && all_plain artifact.parts

abbrev pub build_logs_artifact : String → List String → Artifact
build_logs_artifact logs_name lines = record {
  name = logs_name;
  artifact_id = "";
  parts = plain_text lines ∷ [];
}

abbrev pub terminal : TaskState → Bool
terminal state_completed = true
terminal state_failed = true
terminal state_rejected = true
terminal _ = false

abbrev pub final_status : TaskState → TaskStatus
final_status state_completed = completed
final_status _ = failed

module _ {Usage Card : Type 0} where
  -- The effects of new log lines.
  abbrev pub log_effects : String → String → List String → List (Effect Usage Card)
  log_effects task_id agent_id [] = []
  log_effects task_id agent_id (l ∷ ls) =
      on_history (appending_logs task_id (l ∷ ls))
      ∷ published_agent agent_id (log_batch task_id (l ∷ ls))
      ∷ []

  unfoldable pub handle_stream_chunk :
      String
      → String
      → String
      → Artifact
      → Bool
      → List Artifact × LogStreamState
      → (List Artifact × LogStreamState) × List (Effect Usage Card)
  unfolding is_logs_chunk
  handle_stream_chunk logs_name task_id agent_id artifact last_chunk (collected, log) =
      if is_logs_chunk logs_name artifact log
      then (let new_lines = lines_of artifact.parts in
          let lines = log.lines ++ new_lines in
          let log' : LogStreamState = record {
            log_artifact_id = some (or_default artifact.artifact_id log.log_artifact_id);
            lines = lines;
          } in
          let collected' : List Artifact = elim lines [
            | [] ↦ collected
            | l ∷ ls ↦
                if last_chunk
                then collected ++ build_logs_artifact logs_name (l ∷ ls) ∷ []
                else collected
          ] in
          ((collected', log'), log_effects task_id agent_id new_lines))
      else ((collected ++ artifact ∷ [], log), [])

  -- `_finalize_task`
  unfoldable pub finalize_task :
      String → String → TaskStatus → ℕ → Option String → List (Effect Usage Card)
  finalize_task task_id agent_id status now error =
      let e = task_done task_id agent_id status error in
      on_history (History.updating task_id status (some now) error)
      ∷ on_history (clearing_activity task_id)
      ∷ published_global e
      ∷ published_agent agent_id e
      ∷ []

  abbrev pub save_usage : String → Option Usage → List (Effect Usage Card)
  save_usage task_id none = []
  save_usage task_id (some usage) = on_history (updating_usage task_id usage) ∷ []

  abbrev pub save_trace : String → Option String → List (Effect Usage Card)
  save_trace task_id none = []
  save_trace task_id (some trace) = on_history (updating_trace task_id trace) ∷ []

  abbrev pub save_logs : String → List String → List (Effect Usage Card)
  save_logs task_id [] = []
  save_logs task_id (l ∷ ls) = on_history (updating_logs task_id (l ∷ ls)) ∷ []

  -- The three `_save_agent_*_from_task`.
  abbrev pub save_from_task : String → Saved Usage → List (Effect Usage Card)
  save_from_task task_id saved =
      save_logs task_id saved.logs
      ++ (save_usage task_id saved.usage ++ save_trace task_id saved.trace)

  -- The slot is released, and the running tasks are forgotten.
  abbrev pub release : String → List (Effect Usage Card)
  release agent_id =
      on_registry (updating agent_id available none none)
      ∷ on_registry (setting_task agent_id none)
      ∷ []

  -- The agent is marked BROKEN and handed to the recovery.
  abbrev pub break : String → BrokenReason → Option String → List (Effect Usage Card)
  break agent_id reason stuck =
      on_registry (updating agent_id broken (some reason) stuck)
      ∷ on_registry (setting_task agent_id none)
      ∷ queued agent_id
      ∷ []

  abbrev pub activity_effects : String → String → Option String → List (Effect Usage Card)
  activity_effects task_id agent_id text =
      if truthy text
      then on_history (setting_activity task_id (or_default "" text))
        ∷ published_global (agent_activity task_id agent_id (or_default "" text))
        ∷ []
      else []

  abbrev pub after :
      List (Effect Usage Card)
      → List (Effect Usage Card) × Outcome
      → List (Effect Usage Card) × Outcome
  after effects (rest, outcome) = (effects ++ rest, outcome)

  module _ (logs_name task_id agent_id : String) (now : ℕ) (saved : Saved Usage) where
    -- A completed task, in the two places where the code meets one.
    unfoldable pub complete :
        TaskState → Option String → List Artifact → List (Effect Usage Card) × Outcome
    unfolding finalize_task
    complete state error collected = (
      finalize_task task_id agent_id (final_status state) now error
          ++ (save_from_task task_id saved ++ release agent_id),
      returned state collected,
    )

    -- The agent's stream ends: the last status decides.
    abbrev pub end_of_stream : Option TaskState → List Artifact → List (Effect Usage Card) × Outcome
    end_of_stream last_state collected =
        if elim last_state [ none ↦ false | some state ↦ terminal state ]
        then complete (or_default state_other last_state) none collected
        else (
          finalize_task task_id agent_id failed now (some "Iterator finished before completion")
              ++ release agent_id,
          http_error 500,
        )

    -- The loop over the stream. At the end of the list the time for the whole task is over.
    unfoldable pub receive :
        List Chunk
        → Option String
        → Option TaskState
        → List Artifact × LogStreamState
        → List (Effect Usage Card) × Outcome
    unfolding complete handle_stream_chunk finalize_task
    receive [] last_id last_state acc = (
      finalize_task task_id agent_id failed now (some "Timeout waiting for completion")
          ++ break agent_id task_stuck none,
      http_error 408,
    )
    receive (stream_ended ∷ chunks) last_id last_state acc = end_of_stream last_state acc.0
    receive (chunk_timeout ∷ chunks) last_id last_state acc = (
      finalize_task task_id agent_id failed now (some "Task timed out")
          ++ break agent_id task_stuck last_id,
      http_error 408,
    )
    receive (broke e ∷ chunks) last_id last_state acc = (
      finalize_task task_id agent_id failed now (some e) ++ break agent_id offline none,
      reraised e,
    )
    receive (message ∷ chunks) last_id last_state acc = receive chunks last_id last_state acc
    receive (artifact_update artifact last_chunk ∷ chunks) last_id last_state acc =
        let (acc', effects) =
          handle_stream_chunk logs_name task_id agent_id artifact last_chunk acc in
        after effects (receive chunks last_id last_state acc')
    receive (status_update id state_working text ∷ chunks) last_id last_state acc =
        after (activity_effects task_id agent_id text)
          (receive chunks (some id) (some state_working) acc)
    receive (status_update id state_other text ∷ chunks) last_id last_state acc =
        receive chunks (some id) (some state_other) acc
    receive (status_update id state_completed text ∷ chunks) last_id last_state acc =
        complete state_completed none acc.0
    receive (status_update id state_failed text ∷ chunks) last_id last_state acc =
        complete state_failed text acc.0
    receive (status_update id state_rejected text ∷ chunks) last_id last_state acc =
        complete state_rejected text acc.0

    -- From the reservation on.
    unfoldable pub send_task_to_agent :
        ℕ → String → String → List Chunk → List (Effect Usage Card) × Outcome
    unfolding receive
    send_task_to_agent started agent_name description chunks =
        after
          (on_history (
              adding (record {
                task_id = task_id;
                agent_id = agent_id;
                agent_name = agent_name;
                description = description;
                status = running;
                start_time = started;
                end_time = none;
                error_message = none;
                agent_logs = none;
                current_activity = none;
                token_usage = none;
                result_summary = none;
                trace_json = none;
              }))
            ∷ on_registry (setting_task agent_id (some task_id))
            ∷ [])
          (receive chunks none none ([], record { log_artifact_id = none; lines = [] }))
