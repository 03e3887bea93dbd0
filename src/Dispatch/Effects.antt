-- ===== src/Dispatch/Effects.antt =====
-- The effects of a dispatch that settle its task.
use qa_ai_native.Prelude.{
  ◌≡◌, refl, ap, ◌∙◌, String, Bool, true, false, Option, none, some, List, [], ◌∷◌, ◌++◌, filter,
  inl, inr, Bool-cases,
}
use qa_ai_native.Dict.{truthy}
use qa_ai_native.History.Runs as History
use qa_ai_native.Hub.{task_done}
use qa_ai_native.Dispatch.{
  Artifact, LogStreamState, Saved, Effect, on_history, on_registry, published_global,
  published_agent, queued, log_effects, lines_of, handle_stream_chunk, is_logs_chunk, save_usage,
  save_trace, save_logs, save_from_task, activity_effects,
}

module _ {ℓ} {A : Type ℓ} where
  pub filter-append :
      (p : A → Bool) (xs ys : List A) → filter p (xs ++ ys) ≡ filter p xs ++ filter p ys
  filter-append p [] ys = refl
  filter-append p (x ∷ xs) ys = elim (Bool-cases (p x)) [
    | inl e ↦ rw e (ap (λ l. x ∷ l) (filter-append p xs ys))
    | inr e ↦ rw e (filter-append p xs ys)
  ]

module _ {Usage Card : Type 0} where
  -- The effects that settle a task: those on the registry and the recovery queue, the final update
  -- of its record, and the final events.
  abbrev pub is_settling : Effect Usage Card → Bool
  is_settling (on_registry c) = true
  is_settling (queued a) = true
  is_settling (on_history (History.updating k s t e)) = true
  is_settling (on_history c) = false
  is_settling (published_global (task_done t a s e)) = true
  is_settling (published_global e) = false
  is_settling (published_agent b (task_done t a s e)) = true
  is_settling (published_agent b e) = false

  log_effects-settling :
      (task_id agent_id : String) (ls : List String)
      → filter is_settling (log_effects task_id agent_id ls) ≡ []
  log_effects-settling task_id agent_id [] = refl
  log_effects-settling task_id agent_id (l ∷ ls) = refl

  pub handle_stream_chunk-settling :
      (logs_name task_id agent_id : String) (artifact : Artifact) (last_chunk : Bool)
      (acc : List Artifact × LogStreamState)
      → filter is_settling
          (handle_stream_chunk logs_name task_id agent_id artifact last_chunk acc).1
        ≡ []
  unfolding handle_stream_chunk
  handle_stream_chunk-settling logs_name task_id agent_id artifact last_chunk (collected, log) =
      elim (Bool-cases (is_logs_chunk logs_name artifact log)) [
        | inl e ↦ rw e (log_effects-settling task_id agent_id (lines_of artifact.parts))
        | inr e ↦ rw e refl
      ]

  pub save-settling :
      (task_id : String) (saved : Saved Usage)
      → filter is_settling (save_from_task task_id saved) ≡ []
  save-settling task_id saved =
      filter-append is_settling (save_logs task_id saved.logs) _
      ∙ ap
          (λ l.
            l
            ++ filter is_settling
                (save_usage task_id saved.usage ++ save_trace task_id saved.trace))
          (logs saved.logs)
      ∙ filter-append is_settling (save_usage task_id saved.usage) _
      ∙ ap (λ l. l ++ filter is_settling (save_trace task_id saved.trace)) (usage saved.usage)
      ∙ trace saved.trace
    where
      logs : (ls : List String) → filter is_settling (save_logs task_id ls) ≡ []
      logs [] = refl
      logs (l ∷ ls) = refl

      usage : (u : Option Usage) → filter is_settling (save_usage task_id u) ≡ []
      usage none = refl
      usage (some u) = refl

      trace : (t : Option String) → filter is_settling (save_trace task_id t) ≡ []
      trace none = refl
      trace (some t) = refl

  pub activity-settling :
      (task_id agent_id : String) (text : Option String)
      → filter is_settling (activity_effects {Usage = Usage} {Card = Card} task_id agent_id text)
        ≡ []
  activity-settling task_id agent_id text = elim (Bool-cases (truthy text)) [
    | inl e ↦ rw e refl
    | inr e ↦ rw e refl
  ]
