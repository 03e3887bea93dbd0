-- ===== src/History/Newest.antt =====
-- Which records a `TaskHistory` shows after a run: the newest, whatever was updated.
use qa_ai_native.Prelude.{
  ℕ, ◌-◌, ◌<◌, ◌≡◌, refl, sym, ap, ◌∙◌, String, none, some, List, [], ◌∷◌, ◌++◌, map, reverse,
  arith, length, drop, length-map, map-drop, map-reverse,
}
use mathlib.Core.List.{map-append}
use qa_ai_native.Ring.{ring_append, ring_append_all, keep_last, ring_append_all-nil}
use qa_ai_native.History.{
  TaskRecord, TaskHistory, new_history, with_update, with_logs, with_usage, with_trace,
  with_result_summary, with_activity, with_log_batch, get_all,
}
use qa_ai_native.History.Store.{edit_list}
use qa_ai_native.History.Refinement.{KeepsId}
use qa_ai_native.History.Runs.{
  Call, adding, updating, updating_logs, updating_usage, updating_trace, summarising,
  setting_activity, clearing_activity, appending_logs, perform_all, all_on_list, HaveFreshIds,
  history-refines,
}

module _ {Usage : Type 0} where
  map-ring_append :
      (f : TaskRecord Usage → String) (n : ℕ) (x : TaskRecord Usage) (l : List (TaskRecord Usage))
      → map f (ring_append n x l) ≡ ring_append n (f x) (map f l)
  unfolding ring_append
  map-ring_append f n x l =
      map-drop f (length (l ++ x ∷ []) - n) (l ++ x ∷ [])
      ∙ ap (λ m. drop (m - n) (map f (l ++ x ∷ []))) (sym (length-map f (l ++ x ∷ [])))
      ∙ ap (keep_last n) (map-append f l (x ∷ []))

  ids : List (TaskRecord Usage) → List String
  ids = map TaskRecord.task_id

  ids-edit_list :
      (f : TaskRecord Usage → TaskRecord Usage) (k : String) (l : List (TaskRecord Usage))
      → KeepsId f
      → ids (edit_list f k l) ≡ ids l
  unfolding ids
  ids-edit_list f k [] keeps = refl
  ids-edit_list f k (t ∷ l) keeps = ground (arith, keeps t, ids-edit_list f k l keeps)

  -- The IDs of the records that a sequence of calls adds, oldest first.
  abbrev pub added_ids : List (Call Usage) → List String
  added_ids [] = []
  added_ids (adding task ∷ cs) = task.task_id ∷ added_ids cs
  added_ids (_ ∷ cs) = added_ids cs

  ids-all_on_list :
      (n : ℕ) (cs : List (Call Usage)) (l : List (TaskRecord Usage))
      → ids (all_on_list n cs l) ≡ ring_append_all n (added_ids cs) (ids l)
  ids-all_on_list n [] l = refl
  ids-all_on_list n (adding task ∷ cs) l =
      ids-all_on_list n cs (ring_append n task l)
      ∙ ap (ring_append_all n (added_ids cs))
          (unfold ids in map-ring_append TaskRecord.task_id n task l)
  ids-all_on_list n (updating k s t x ∷ cs) l =
      ids-all_on_list n cs (edit_list (with_update s t x) k l)
      ∙ ap (ring_append_all n (added_ids cs)) (ids-edit_list (with_update s t x) k l (λ r. refl))
  ids-all_on_list n (updating_logs k x ∷ cs) l =
      ids-all_on_list n cs (edit_list (with_logs x) k l)
      ∙ ap (ring_append_all n (added_ids cs)) (ids-edit_list (with_logs x) k l (λ r. refl))
  ids-all_on_list n (updating_usage k x ∷ cs) l =
      ids-all_on_list n cs (edit_list (with_usage x) k l)
      ∙ ap (ring_append_all n (added_ids cs)) (ids-edit_list (with_usage x) k l (λ r. refl))
  ids-all_on_list n (updating_trace k x ∷ cs) l =
      ids-all_on_list n cs (edit_list (with_trace x) k l)
      ∙ ap (ring_append_all n (added_ids cs)) (ids-edit_list (with_trace x) k l (λ r. refl))
  ids-all_on_list n (summarising k x ∷ cs) l =
      ids-all_on_list n cs (edit_list (with_result_summary x) k l)
      ∙ ap (ring_append_all n (added_ids cs))
          (ids-edit_list (with_result_summary x) k l (λ r. refl))
  ids-all_on_list n (setting_activity k x ∷ cs) l =
      ids-all_on_list n cs (edit_list (with_activity (some x)) k l)
      ∙ ap (ring_append_all n (added_ids cs))
          (ids-edit_list (with_activity (some x)) k l (λ r. refl))
  ids-all_on_list n (clearing_activity k ∷ cs) l =
      ids-all_on_list n cs (edit_list (with_activity none) k l)
      ∙ ap (ring_append_all n (added_ids cs)) (ids-edit_list (with_activity none) k l (λ r. refl))
  ids-all_on_list n (appending_logs k x ∷ cs) l =
      ids-all_on_list n cs (edit_list (with_log_batch x) k l)
      ∙ ap (ring_append_all n (added_ids cs)) (ids-edit_list (with_log_batch x) k l (λ r. refl))

  -- After any sequence of calls on a new history of positive capacity `n`, in which added IDs are
  -- fresh, the history shows exactly the last `n` added records, newest first, whatever was updated
  -- in between.
  pub history-newest :
      (n : ℕ) (cs : List (Call Usage))
      → 0 < n
      → HaveFreshIds n cs []
      → (h : TaskHistory Usage) × (perform_all cs (new_history n) ≡ some h)
        × (map TaskRecord.task_id (get_all h) ≡ reverse (keep_last n (added_ids cs)))
  unfolding ids
  history-newest n cs p q =
      let (h, e, all, _) = history-refines n cs p q in
      (
        h,
        e,
        ap (map TaskRecord.task_id) all
            ∙ map-reverse TaskRecord.task_id (all_on_list n cs [])
            ∙ ap reverse (ids-all_on_list n cs [] ∙ ring_append_all-nil n (added_ids cs)),
      )
