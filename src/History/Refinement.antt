-- ===== src/History/Refinement.antt =====
-- `TaskHistory` implements a bounded list of records, oldest first: `add` appends and drops the
-- oldest, an update changes the record with the ID, and the lookup by ID finds it.
use qa_ai_native.Prelude.{
  ℕ, ◌≡◌, refl, sym, ap, ◌∙◌, String, true, none, some, List, [], ◌∷◌, map, arith, eq_iff,
  Option-cases, Bool-cases, inl, inr, All, ◌==◌, All-map,
}
use qa_ai_native.Dict.{Dict, lookup}
use qa_ai_native.History.{TaskRecord, TaskHistory, write_at, edit, get_by_id}
use qa_ai_native.History.Store.{
  IsValid, view, edit_list, find_id, map-write_at, map-edit_absent, listed, lookup_same,
}

module _ {Usage : Type 0} where
  -- A change that leaves the ID of a record alone, as every updating method does.
  abbrev pub KeepsId : (TaskRecord Usage → TaskRecord Usage) → Type 0
  KeepsId f = (t : TaskRecord Usage) → TaskRecord.task_id (f t) ≡ TaskRecord.task_id t

  pub view-edit :
      (f : TaskRecord Usage → TaskRecord Usage) (k : String) (h : TaskHistory Usage)
      → IsValid h
      → view (edit f k h) ≡ edit_list f k (view h)
  unfolding edit
  view-edit f k h v = elim (Option-cases (lookup k h.tasks_by_id)) [
    | inl e ↦ rw (e, edit) (sym (map-edit_absent f k h.heap h.tasks_by_id h.tasks e v.indexed))
    | inr (a, e) ↦
        rw (e, edit) (map-write_at f k a h.heap h.tasks_by_id h.tasks e (v.sound k a e).0 v.indexed)
  ]

  task_id-write_at :
      (a : ℕ) (x : TaskRecord Usage) (heap : ℕ → TaskRecord Usage) (b : ℕ)
      → TaskRecord.task_id x ≡ TaskRecord.task_id (heap a)
      → TaskRecord.task_id (write_at a x heap b) ≡ TaskRecord.task_id (heap b)
  task_id-write_at a x heap b e = elim (Bool-cases (b == a)) [
    | inl same ↦
        let p : b ≡ a = ground arith in
        ground (arith, ap heap p, ap (λ c. TaskRecord.task_id (heap c)) p)
    | inr other ↦ ground arith
  ]

  pub edit-IsValid :
      (f : TaskRecord Usage → TaskRecord Usage) (k : String) (h : TaskHistory Usage)
      → KeepsId f
      → IsValid h
      → IsValid (edit f k h)
  unfolding edit
  edit-IsValid f k h keeps v = elim (Option-cases (lookup k h.tasks_by_id)) [
    | inl e ↦ rw (e, edit) v
    | inr (a, e) ↦
        let same = λ (b : ℕ). task_id-write_at a (f (h.heap a)) h.heap b (keeps (h.heap a)) in
        rw (e, edit)
          (record {
            roomy = v.roomy;
            bounded = v.bounded;
            fresh = v.fresh;
            distinct = v.distinct;
            indexed =
                All-map _ _ h.tasks (λ b p. ap (λ i. lookup i h.tasks_by_id) (same b) ∙ p)
                  v.indexed;
            sound = λ j b p. (same b ∙ (v.sound j b p).0, (v.sound j b p).1);
          })
  ]

  find-listed :
      (k : String) (a : ℕ) (heap : ℕ → TaskRecord Usage) (by_id : Dict ℕ) (l : List ℕ)
      → lookup k by_id ≡ some a
      → TaskRecord.task_id (heap a) ≡ k
      → listed a l ≡ true
      → All (λ b. lookup (TaskRecord.task_id (heap b)) by_id ≡ some b) l
      → find_id k (map heap l) ≡ some (heap a)
  find-listed k a heap by_id [] h e m i = absurd (ground arith)
  find-listed k a heap by_id (b ∷ l) h e m (ib, il) = ground (
    arith,
    eq_iff (TaskRecord.task_id (heap b)) k,
    lookup_same (TaskRecord.task_id (heap b)) k by_id,
    find-listed k a heap by_id l h e,
    il,
  )

  find-absent :
      (k : String) (heap : ℕ → TaskRecord Usage) (by_id : Dict ℕ) (l : List ℕ)
      → lookup k by_id ≡ none
      → All (λ b. lookup (TaskRecord.task_id (heap b)) by_id ≡ some b) l
      → find_id k (map heap l) ≡ none
  find-absent k heap by_id [] h i = refl
  find-absent k heap by_id (b ∷ l) h (ib, il) =
      ground
        (arith, lookup_same (TaskRecord.task_id (heap b)) k by_id, find-absent k heap by_id l h il)

  -- The lookup through the dict finds what a search of the shown records finds.
  pub get_by_id-find :
      (k : String) (h : TaskHistory Usage) → IsValid h → get_by_id k h ≡ find_id k (view h)
  unfolding get_by_id
  get_by_id-find k h v = elim (Option-cases (lookup k h.tasks_by_id)) [
    | inl e ↦ rw (e, get_by_id) (sym (find-absent k h.heap h.tasks_by_id h.tasks e v.indexed))
    | inr (a, e) ↦
        rw (e, get_by_id)
          (sym (
            find-listed k a h.heap h.tasks_by_id h.tasks e (v.sound k a e).0 (v.sound k a e).1
              v.indexed))
  ]
