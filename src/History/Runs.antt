-- ===== src/History/Runs.antt =====
-- Whole runs of a `TaskHistory`: any sequence of its updating methods does what it says on a plain
-- bounded list of records, and the buffer holds the newest records.
use qa_ai_native.Prelude.{
  ℕ, ◌<◌, ◌≡◌, refl, ap, ◌∙◌, String, Option, none, some, List, [], ◌∷◌, reverse, arith,
}
use qa_ai_native.Dict.{lookup}
use qa_ai_native.Ring.{ring_append}
use qa_ai_native.History.{
  TaskStatus, TaskRecord, TaskHistory, new_history, add, edit, update, update_logs, update_usage,
  update_trace, update_result_summary, set_current_activity, clear_current_activity,
  append_log_batch, with_update, with_logs, with_usage, with_trace, with_result_summary,
  with_activity, with_log_batch, get_all, get_by_id,
}
use qa_ai_native.History.Store.{IsValid, view, edit_list, find_id}
use qa_ai_native.History.Adding.{add-Adds}
use qa_ai_native.History.Refinement.{KeepsId, view-edit, edit-IsValid, get_by_id-find}

-- A call of a method that changes the history.
pub data Call (Usage : Type 0) : Type 0 where
  adding : TaskRecord Usage → Call Usage
  updating : String → TaskStatus → Option ℕ → Option String → Call Usage
  updating_logs : String → List String → Call Usage
  updating_usage : String → Usage → Call Usage
  updating_trace : String → String → Call Usage
  summarising : String → String → Call Usage
  setting_activity : String → String → Call Usage
  clearing_activity : String → Call Usage
  appending_logs : String → List String → Call Usage

module _ {Usage : Type 0} where
  abbrev pub perform : Call Usage → TaskHistory Usage → Option (TaskHistory Usage)
  perform (adding task) h = add task h
  perform (updating k status end_time error) h = some (update k status end_time error h)
  perform (updating_logs k logs) h = some (update_logs k logs h)
  perform (updating_usage k usage) h = some (update_usage k usage h)
  perform (updating_trace k trace) h = some (update_trace k trace h)
  perform (summarising k summary) h = some (update_result_summary k summary h)
  perform (setting_activity k text) h = some (set_current_activity k text h)
  perform (clearing_activity k) h = some (clear_current_activity k h)
  perform (appending_logs k lines) h = some (append_log_batch k lines h)

  abbrev pub perform_all : List (Call Usage) → TaskHistory Usage → Option (TaskHistory Usage)
  perform_all [] h = some h
  perform_all (c ∷ cs) h = elim (perform c h) [ none ↦ none | some h' ↦ perform_all cs h' ]

  -- The same call on a plain list of records, oldest first, that keeps the last `n`.
  abbrev pub on_list : ℕ → Call Usage → List (TaskRecord Usage) → List (TaskRecord Usage)
  on_list n (adding task) = ring_append n task
  on_list n (updating k status end_time error) = edit_list (with_update status end_time error) k
  on_list n (updating_logs k logs) = edit_list (with_logs logs) k
  on_list n (updating_usage k usage) = edit_list (with_usage usage) k
  on_list n (updating_trace k trace) = edit_list (with_trace trace) k
  on_list n (summarising k summary) = edit_list (with_result_summary summary) k
  on_list n (setting_activity k text) = edit_list (with_activity (some text)) k
  on_list n (clearing_activity k) = edit_list (with_activity none) k
  on_list n (appending_logs k lines) = edit_list (with_log_batch lines) k

  abbrev pub all_on_list : ℕ → List (Call Usage) → List (TaskRecord Usage) → List (TaskRecord Usage)
  all_on_list n [] l = l
  all_on_list n (c ∷ cs) l = all_on_list n cs (on_list n c l)

  -- The ID of an added record is not that of a record in the buffer: IDs are fresh UUIDs.
  abbrev pub HasFreshId : Call Usage → List (TaskRecord Usage) → Type 0
  HasFreshId (adding task) l = find_id task.task_id l ≡ none
  HasFreshId _ l = Unit

  abbrev pub HaveFreshIds : ℕ → List (Call Usage) → List (TaskRecord Usage) → Type 0
  HaveFreshIds n [] l = Unit
  HaveFreshIds n (c ∷ cs) l = HasFreshId c l × HaveFreshIds n cs (on_list n c l)

  -- A history that stands for a list of records under a capacity.
  abbrev pub Holds : ℕ → TaskHistory Usage → List (TaskRecord Usage) → Type 0
  Holds n h l = IsValid h × (h.max_size ≡ n) × (view h ≡ l)

  abbrev StepsTo : ℕ → Option (TaskHistory Usage) → List (TaskRecord Usage) → Type 0
  StepsTo n o l = (h' : TaskHistory Usage) × (o ≡ some h') × Holds n h' l

  max_size-edit :
      (f : TaskRecord Usage → TaskRecord Usage) (k : String) (h : TaskHistory Usage)
      → (edit f k h).max_size ≡ h.max_size
  unfolding edit
  max_size-edit f k h = ground arith

  edit-StepsTo :
      (f : TaskRecord Usage → TaskRecord Usage) (k : String) (n : ℕ) (h : TaskHistory Usage)
      (l : List (TaskRecord Usage))
      → KeepsId f
      → Holds n h l
      → StepsTo n (some (edit f k h)) (edit_list f k l)
  edit-StepsTo f k n h l keeps (v, e, shown) = (
    edit f k h,
    refl,
    (
      edit-IsValid f k h keeps v,
      max_size-edit f k h ∙ e,
      view-edit f k h v ∙ ap (edit_list f k) shown,
    ),
  )

  lookup_of_get_by_id :
      (k : String) (h : TaskHistory Usage) → get_by_id k h ≡ none → lookup k h.tasks_by_id ≡ none
  unfolding get_by_id
  lookup_of_get_by_id k h e = ground arith

  perform-StepsTo :
      (n : ℕ) (c : Call Usage) (h : TaskHistory Usage) (l : List (TaskRecord Usage))
      → HasFreshId c l
      → Holds n h l
      → StepsTo n (perform c h) (on_list n c l)
  perform-StepsTo n (adding task) h l new (v, e, shown) =
      let Absent : lookup task.task_id h.tasks_by_id ≡ none =
        lookup_of_get_by_id task.task_id h
          (get_by_id-find task.task_id h v ∙ ap (find_id task.task_id) shown ∙ new) in
      let (h', added, v', shown', e') = add-Adds task h v Absent in
      (
        h',
        added,
        (
          v',
          e' ∙ e,
          shown' ∙ ap (λ m. ring_append m task (view h)) e ∙ ap (ring_append n task) shown,
        ),
      )
  perform-StepsTo n (updating k s t x) h l q i =
      edit-StepsTo (with_update s t x) k n h l (λ r. refl) i
  perform-StepsTo n (updating_logs k x) h l q i = edit-StepsTo (with_logs x) k n h l (λ r. refl) i
  perform-StepsTo n (updating_usage k x) h l q i = edit-StepsTo (with_usage x) k n h l (λ r. refl) i
  perform-StepsTo n (updating_trace k x) h l q i = edit-StepsTo (with_trace x) k n h l (λ r. refl) i
  perform-StepsTo n (summarising k x) h l q i =
      edit-StepsTo (with_result_summary x) k n h l (λ r. refl) i
  perform-StepsTo n (setting_activity k x) h l q i =
      edit-StepsTo (with_activity (some x)) k n h l (λ r. refl) i
  perform-StepsTo n (clearing_activity k) h l q i =
      edit-StepsTo (with_activity none) k n h l (λ r. refl) i
  perform-StepsTo n (appending_logs k x) h l q i =
      edit-StepsTo (with_log_batch x) k n h l (λ r. refl) i

  perform_all-StepsTo :
      (n : ℕ) (cs : List (Call Usage)) (h : TaskHistory Usage) (l : List (TaskRecord Usage))
      → HaveFreshIds n cs l
      → Holds n h l
      → StepsTo n (perform_all cs h) (all_on_list n cs l)
  perform_all-StepsTo n [] h l q i = (h, refl, i)
  perform_all-StepsTo n (c ∷ cs) h l (new, q) i =
      let (h', e, i') = perform-StepsTo n c h l new i in
      let (h'', e', i'') = perform_all-StepsTo n cs h' (on_list n c l) q i' in
      (h'', rw (e, perform_all) e', i'')

  new_history-Holds : (n : ℕ) → 0 < n → Holds n (new_history n) []
  unfolding new_history
  new_history-Holds n p = (
    record {
      roomy = p;
      bounded = omega arith;
      fresh = tt;
      distinct = tt;
      indexed = tt;
      sound = λ k a e. absurd (ground (arith, e));
    },
    refl,
    refl,
  )

  -- Any sequence of calls on a new history of positive capacity, in which added IDs are fresh, runs
  -- without an exception, and leaves the history with the records of a plain list that keeps the
  -- last `n`: `get_all` lists them newest first, and `get_by_id` finds the one with the ID.
  pub history-refines :
      (n : ℕ) (cs : List (Call Usage))
      → 0 < n
      → HaveFreshIds n cs []
      → (h : TaskHistory Usage) × (perform_all cs (new_history n) ≡ some h)
        × (get_all h ≡ reverse (all_on_list n cs []))
        × ((k : String) → get_by_id k h ≡ find_id k (all_on_list n cs []))
  unfolding get_all
  history-refines n cs p q =
      let (h, e, held) = perform_all-StepsTo n cs (new_history n) [] q (new_history-Holds n p) in
      let (v, _, shown) = held in
      (h, e, ap reverse shown, λ k. get_by_id-find k h v ∙ ap (find_id k) shown)
