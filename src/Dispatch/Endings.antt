-- ===== src/Dispatch/Endings.antt =====
-- How a dispatch ends: which chunk of the stream decides, and what follows from it.
use mathlib.Core.Path.{subst}
use qa_ai_native.Prelude.{
  ℕ, ◌≡◌, refl, sym, ap, ◌∙◌, String, Bool, true, false, Option, none, some, List, [], ◌∷◌, ◌++◌,
  filter, find, if◌then◌else◌,
}
use qa_ai_native.Registry.{offline, task_stuck}
use qa_ai_native.Registry.Invariant.{setting_task}
use qa_ai_native.History.{TaskStatus, completed, failed}
use qa_ai_native.History.Runs as History
use qa_ai_native.Hub.{task_done}
use qa_ai_native.Dispatch.{
  Artifact, TaskState, state_completed, state_failed, state_rejected, state_working, state_other,
  Chunk, status_update, artifact_update, message, stream_ended, chunk_timeout, broke,
  LogStreamState, Saved, Effect, on_history, on_registry, published_global, published_agent,
  Outcome, returned, http_error, reraised, handle_stream_chunk, finalize_task, save_from_task,
  release, break, complete, activity_effects, receive, send_task_to_agent, after,
}
use qa_ai_native.Dispatch.Effects.{
  filter-append, is_settling, handle_stream_chunk-settling, save-settling, activity-settling,
}

-- A chunk that decides how the dispatch ends: a status that is completed, failed or rejected, the end
-- of the stream, a timeout or an exception.
abbrev pub is_decisive : Chunk → Bool
is_decisive (status_update id state_completed text) = true
is_decisive (status_update id state_failed text) = true
is_decisive (status_update id state_rejected text) = true
is_decisive (status_update id state_working text) = false
is_decisive (status_update id state_other text) = false
is_decisive (artifact_update artifact last_chunk) = false
is_decisive message = false
is_decisive stream_ended = true
is_decisive chunk_timeout = true
is_decisive (broke e) = true

abbrev pub noted : Chunk → Option String → Option String
noted (status_update id state text) last = some id
noted (artifact_update artifact last_chunk) last = last
noted message last = last
noted stream_ended last = last
noted chunk_timeout last = last
noted (broke e) last = last

-- The agent's ID of the task in the last status before the chunk that decides.
abbrev pub last_id : Option String → List Chunk → Option String
last_id last [] = last
last_id last (c ∷ cs) = if is_decisive c then last else last_id (noted c last) cs

-- The dispatch returns a task in this state.
abbrev pub Returns : TaskState → Outcome → Type 0
Returns state outcome = (artifacts : List Artifact) × (outcome ≡ returned state artifacts)

module _ {Usage : Type 0} (Card : Type 0) (task_id agent_id : String) (now : ℕ) where
  -- The record's final update, and the final event for everybody and for the agent's viewers.
  abbrev pub reports : TaskStatus → Option String → List (Effect Usage Card)
  reports status error =
      on_history (History.updating task_id status (some now) error)
      ∷ published_global (task_done task_id agent_id status error)
      ∷ published_agent agent_id (task_done task_id agent_id status error)
      ∷ []

  -- What the chunk that decides makes of the outcome and the settling effects; `none` is the end of
  -- the time for the whole task. The other option is the agent's last ID of the task.
  abbrev pub Ends : Option Chunk → Option String → Outcome → List (Effect Usage Card) → Type 0
  Ends none last outcome es =
      (outcome ≡ http_error 408)
      × (es
          ≡ reports failed (some "Timeout waiting for completion")
            ++ break agent_id task_stuck none)
  Ends (some chunk_timeout) last outcome es =
      (outcome ≡ http_error 408)
      × (es ≡ reports failed (some "Task timed out") ++ break agent_id task_stuck last)
  Ends (some (broke e)) last outcome es =
      (outcome ≡ reraised e) × (es ≡ reports failed (some e) ++ break agent_id offline none)
  Ends (some stream_ended) last outcome es =
      (outcome ≡ http_error 500)
      × (es ≡ reports failed (some "Iterator finished before completion") ++ release agent_id)
  Ends (some (status_update id state_completed text)) last outcome es =
      Returns state_completed outcome × (es ≡ reports completed none ++ release agent_id)
  Ends (some (status_update id state_failed text)) last outcome es =
      Returns state_failed outcome × (es ≡ reports failed text ++ release agent_id)
  Ends (some (status_update id state_rejected text)) last outcome es =
      Returns state_rejected outcome × (es ≡ reports failed text ++ release agent_id)
  Ends (some (status_update id state_working text)) last outcome es = ⊥
  Ends (some (status_update id state_other text)) last outcome es = ⊥
  Ends (some (artifact_update artifact last_chunk)) last outcome es = ⊥
  Ends (some message) last outcome es = ⊥

  -- What settles nothing may stand before.
  after-Ends :
      (decided : Option Chunk) (last : Option String) (effects : List (Effect Usage Card))
      (rest : List (Effect Usage Card) × Outcome)
      → filter is_settling effects ≡ []
      → Ends decided last rest.1 (filter is_settling rest.0)
      → let (es, outcome) = after effects rest in Ends decided last outcome (filter is_settling es)
  after-Ends decided last effects rest quiet h =
      subst (Ends decided last rest.1)
        (sym (
          filter-append is_settling effects rest.0
          ∙ ap (λ l. l ++ filter is_settling rest.0) quiet))
        h

module _ {Usage : Type 0} (Card : Type 0) (logs_name task_id agent_id : String) (now : ℕ)
    (saved : Saved Usage) where
  -- A completed task settles with the reports of its status, and releases the agent.
  saved-settling :
      (status : TaskStatus) (error : Option String)
      → filter is_settling (
          finalize_task task_id agent_id status now error
          ++ (save_from_task {Card = Card} task_id saved ++ release agent_id))
        ≡ reports {Usage = Usage} Card task_id agent_id now status error ++ release agent_id
  unfolding finalize_task
  saved-settling status error =
      ap (λ l. reports Card task_id agent_id now status error ++ l)
        (filter-append is_settling (save_from_task task_id saved) (release agent_id)
          ∙ ap (λ l. l ++ release agent_id) (save-settling task_id saved))

  -- No status that ends a task is passed over.
  abbrev IsOpen : Option TaskState → Type 0
  IsOpen none = Unit
  IsOpen (some state_working) = Unit
  IsOpen (some state_other) = Unit
  IsOpen (some state_completed) = ⊥
  IsOpen (some state_failed) = ⊥
  IsOpen (some state_rejected) = ⊥

  receive-Ends :
      (chunks : List Chunk) (last : Option String) (last_state : Option TaskState)
      (acc : List Artifact × LogStreamState)
      → IsOpen last_state
      → let (es, outcome) =
          receive {Card = Card} logs_name task_id agent_id now saved chunks last last_state acc in
        Ends Card task_id agent_id now
          (find is_decisive chunks)
          (last_id last chunks)
          outcome
          (filter is_settling es)
  unfolding receive complete finalize_task
  receive-Ends [] last last_state acc open_state = (refl, refl)
  receive-Ends (stream_ended ∷ chunks) last none acc open_state = (refl, refl)
  receive-Ends (stream_ended ∷ chunks) last (some state_working) acc open_state = (refl, refl)
  receive-Ends (stream_ended ∷ chunks) last (some state_other) acc open_state = (refl, refl)
  receive-Ends (stream_ended ∷ chunks) last (some state_completed) acc open_state =
      absurd open_state
  receive-Ends (stream_ended ∷ chunks) last (some state_failed) acc open_state = absurd open_state
  receive-Ends (stream_ended ∷ chunks) last (some state_rejected) acc open_state = absurd open_state
  receive-Ends (chunk_timeout ∷ chunks) last last_state acc open_state = (refl, refl)
  receive-Ends (broke e ∷ chunks) last last_state acc open_state = (refl, refl)
  receive-Ends (message ∷ chunks) last last_state acc open_state =
      receive-Ends chunks last last_state acc open_state
  receive-Ends (artifact_update artifact last_chunk ∷ chunks) last last_state acc open_state =
      let s =
        handle_stream_chunk {Usage = Usage} {Card = Card} logs_name task_id agent_id artifact
          last_chunk acc in
      after-Ends Card task_id agent_id now (find is_decisive chunks) (last_id last chunks) s.1
        (receive logs_name task_id agent_id now saved chunks last last_state s.0)
        (handle_stream_chunk-settling logs_name task_id agent_id artifact last_chunk acc)
        (receive-Ends chunks last last_state s.0 open_state)
  receive-Ends (status_update id state_working text ∷ chunks) last last_state acc open_state =
      after-Ends Card task_id agent_id now (find is_decisive chunks) (last_id (some id) chunks)
        (activity_effects task_id agent_id text)
        (receive logs_name task_id agent_id now saved chunks (some id) (some state_working) acc)
        (activity-settling task_id agent_id text)
        (receive-Ends chunks (some id) (some state_working) acc tt)
  receive-Ends (status_update id state_other text ∷ chunks) last last_state acc open_state =
      receive-Ends chunks (some id) (some state_other) acc tt
  receive-Ends (status_update id state_completed text ∷ chunks) last last_state acc open_state =
      ((acc.0, refl), saved-settling completed none)
  receive-Ends (status_update id state_failed text ∷ chunks) last last_state acc open_state =
      ((acc.0, refl), saved-settling failed text)
  receive-Ends (status_update id state_rejected text ∷ chunks) last last_state acc open_state =
      ((acc.0, refl), saved-settling failed text)

  -- Whatever the agent streams, a dispatch ends, and it settles the task exactly once: after the
  -- agent's entry of the running task, the record gets one final update, everybody and the agent's
  -- viewers one final event with the same status, and the agent's slot is released or the agent is
  -- marked BROKEN and handed to the recovery. The first chunk that decides says how. On a completed
  -- task it is COMPLETED, on a failed or rejected one FAILED with the agent's message, and the task
  -- is returned; on a stream that ends before, FAILED with HTTP 500; each time the slot is released.
  -- On a timeout of a chunk it is FAILED with HTTP 408 and the agent BROKEN as stuck, with the
  -- agent's ID of the task in the last status before, and without an ID when the time for the whole
  -- task is over. On any other exception it is FAILED, the agent is BROKEN as offline, and the
  -- exception is raised again.
  pub send_task-Ends :
      (started : ℕ) (agent_name description : String) (chunks : List Chunk)
      → let (es, outcome) =
          send_task_to_agent {Card = Card} logs_name task_id agent_id now saved started agent_name
            description chunks in
        (rest : List (Effect Usage Card)) × (filter is_settling es
          ≡ on_registry (setting_task agent_id (some task_id)) ∷ rest)
        × Ends Card task_id agent_id now
            (find is_decisive chunks)
            (last_id none chunks)
            outcome
            rest
  unfolding send_task_to_agent
  send_task-Ends started agent_name description chunks =
      (_, refl, receive-Ends chunks none none _ tt)
