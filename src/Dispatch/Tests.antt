-- ===== src/Dispatch/Tests.antt =====
-- A dispatch with a concrete stream.
use qa_ai_native.Prelude.{ℕ, ◌≡◌, refl, String, true, false, none, some, List, [], ◌∷◌, filter}
use qa_ai_native.Registry.Invariant.{setting_task}
use qa_ai_native.Dispatch.{
  Artifact, plain_text, other_part, Chunk, status_update, state_working, state_completed,
  artifact_update, chunk_timeout, Saved, Effect, on_registry, returned, receive,
  handle_stream_chunk, is_logs_chunk, complete, send_task_to_agent, build_logs_artifact,
}
use qa_ai_native.Dispatch.Effects.{is_settling}
use qa_ai_native.Dispatch.Endings.{Ends, send_task-Ends}

abbrev saved : Saved ℕ
saved = record { logs = "line" ∷ []; usage = some 7; trace = none }

abbrev result : Artifact
result = record { name = "result"; artifact_id = "1"; parts = other_part ∷ [] }

abbrev logs : Artifact
logs = record { name = "agent_logs"; artifact_id = "2"; parts = plain_text ("line" ∷ []) ∷ [] }

abbrev chunks : List Chunk
chunks =
    status_update "x" state_working (some "thinking")
    ∷ artifact_update logs true
    ∷ artifact_update result true
    ∷ status_update "x" state_completed none
    ∷ []

collected :
    (send_task_to_agent {Card = String} "agent_logs" "t" "a" 9 saved 1 "Coder" "run" chunks).1
    ≡ returned state_completed (build_logs_artifact "agent_logs" ("line" ∷ []) ∷ result ∷ [])
unfolding send_task_to_agent receive handle_stream_chunk is_logs_chunk complete
collected = refl

send_task-Ends_example :
    let (es, outcome) =
      send_task_to_agent {Card = String} "agent_logs" "t" "a" 9 saved 1 "Coder" "run"
        (status_update "x" state_working none ∷ artifact_update logs false ∷ chunk_timeout ∷ []) in
    (rest : List (Effect ℕ String)) × (filter is_settling es
      ≡ on_registry (setting_task "a" (some "t")) ∷ rest)
    × Ends String "t" "a" 9 (some chunk_timeout) (some "x") outcome rest
send_task-Ends_example =
    send_task-Ends String "agent_logs" "t" "a" 9 saved 1 "Coder" "run"
      (status_update "x" state_working none ∷ artifact_update logs false ∷ chunk_timeout ∷ [])
