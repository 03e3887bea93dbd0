-- ===== src/History/Adding.antt =====
-- `TaskHistory.add`: a new record goes to the end of the buffer, the oldest leaves a full buffer and
-- its ID leaves the dict, and the invariant is kept.
use qa_ai_native.Prelude.{
  ℕ, ◌<◌, ◌≡◌, ◌≢◌, refl, sym, ap, ◌∙◌, String, true, false, none, some, List, [], ◌∷◌, ◌++◌, map,
  arith, str_eq, eq_iff, Bool-cases, inl, inr, All, length, tail, ◌==◌, length-append, All-append,
  All-map, length-map,
}
use mathlib.Core.List.{map-append}
use qa_ai_native.Dict.{Dict, lookup, insert, erase, lookup-insert, lookup-erase}
use qa_ai_native.Ring.{ring_append, ring_append_room, ring_append_full}
use qa_ai_native.History.{TaskRecord, TaskHistory, write_at, enter, add}
use qa_ai_native.History.Store.{
  IsValid, view, Distinct, listed, lookup_same, Absent-of_lt, Distinct-snoc, listed-append_left,
  listed-append_right, lt_of_listed, All-map₂, map-write_at_fresh,
}

module _ {Usage : Type 0} where
  -- What the buffer and the dict keep, before the new record is entered.
  record Kept (h : TaskHistory Usage) (rest : List ℕ) (by_id : Dict ℕ) : Type 0 where
    room : length rest < h.max_size
    fresh : All (λ a. a < h.next) rest
    distinct : Distinct rest
    indexed : All (λ a. lookup (TaskRecord.task_id (h.heap a)) by_id ≡ some a) rest
    sound :
        (k : String) (a : ℕ)
        → lookup k by_id ≡ some a
        → (TaskRecord.task_id (h.heap a) ≡ k) × (listed a rest ≡ true)

  module _ (task : TaskRecord Usage) (h : TaskHistory Usage) (by_id : Dict ℕ) where
    entered-indexed :
        (a : ℕ)
        → lookup task.task_id by_id ≡ none
        → a < h.next
        → lookup (TaskRecord.task_id (h.heap a)) by_id ≡ some a
        → lookup
            (TaskRecord.task_id (write_at h.next task h.heap a))
            (insert task.task_id h.next by_id)
          ≡ some a
    entered-indexed a new lt p = ground (
      arith,
      lookup-insert task.task_id (TaskRecord.task_id (h.heap a)) h.next by_id,
      lookup_same task.task_id (TaskRecord.task_id (h.heap a)) by_id,
    )

    entered_sound :
        (rest : List ℕ) (k : String) (a : ℕ)
        → Kept h rest by_id
        → lookup k (insert task.task_id h.next by_id) ≡ some a
        → (TaskRecord.task_id (write_at h.next task h.heap a) ≡ k)
          × (listed a (rest ++ h.next ∷ []) ≡ true)
    entered_sound rest k a kept p = elim (Bool-cases (str_eq task.task_id k)) [
      | inl own ↦
          let e : a ≡ h.next = ground (arith, own, lookup-insert task.task_id k h.next by_id) in
          rw e (
            ground (arith, (eq_iff task.task_id k).0 own),
            listed-append_right h.next rest (h.next ∷ []) (ground arith),
          )
      | inr other ↦
          let old : lookup k by_id ≡ some a =
            ground (arith, other, lookup-insert task.task_id k h.next by_id) in
          let (id, place) = kept.sound k a old in
          let lt : a < h.next = lt_of_listed h.next a rest kept.fresh place in
          (ground (arith, id, lt), listed-append_left a rest (h.next ∷ []) place)
    ]

  enter-IsValid :
      (task : TaskRecord Usage) (h : TaskHistory Usage) (rest : List ℕ) (by_id : Dict ℕ)
      → Kept h rest by_id
      → lookup task.task_id by_id ≡ none
      → ring_append h.max_size h.next h.tasks ≡ rest ++ h.next ∷ []
      → IsValid (enter task by_id h) × (view (enter task by_id h) ≡ map h.heap rest ++ task ∷ [])
  unfolding enter
  enter-IsValid task h rest by_id kept new appended = (
    record {
      roomy = omega (arith, kept.room);
      bounded = rw appended (omega (arith, kept.room, length-append rest (h.next ∷ [])));
      fresh = rw appended (
          All-append _ rest (h.next ∷ []) (All-map _ _ rest (λ a p. omega (arith, p)) kept.fresh)
            (omega arith, tt));
      distinct =
          rw appended
            (Distinct-snoc h.next rest (Absent-of_lt h.next rest kept.fresh) kept.distinct);
      indexed = rw appended (
          All-append _ rest (h.next ∷ [])
            (All-map₂ _ _ _ rest (λ a. entered-indexed task h by_id a new) kept.fresh kept.indexed)
            (
              ground (
                arith,
                lookup-insert task.task_id task.task_id h.next by_id,
                eq_iff task.task_id task.task_id,
              ),
              tt,
            ));
      sound = λ k a p. rw appended (entered_sound task h by_id rest k a kept p);
    },
    rw (enter, appended, map-append)
        (ap (λ l. l ++ write_at h.next task h.heap h.next ∷ [])
            (map-write_at_fresh h.next task h.heap rest kept.fresh)
          ∙ ap (λ t. map h.heap rest ++ t ∷ []) (ground arith)),
  )

  Kept-room :
      (h : TaskHistory Usage)
      → IsValid h
      → length h.tasks ≢ h.max_size
      → Kept h h.tasks h.tasks_by_id
  Kept-room h v ne = record {
    room = omega (arith, v.bounded, ne);
    fresh = v.fresh;
    distinct = v.distinct;
    indexed = v.indexed;
    sound = v.sound;
  }

  erase-indexed :
      (h : TaskHistory Usage) (e a : ℕ) (by_id : Dict ℕ)
      → lookup (TaskRecord.task_id (h.heap e)) by_id ≡ some e
      → e ≢ a
      → lookup (TaskRecord.task_id (h.heap a)) by_id ≡ some a
      → lookup (TaskRecord.task_id (h.heap a)) (erase (TaskRecord.task_id (h.heap e)) by_id)
        ≡ some a
  erase-indexed h e a by_id pe ne pa = ground (
    arith,
    lookup-erase (TaskRecord.task_id (h.heap e)) (TaskRecord.task_id (h.heap a)) by_id,
    lookup_same (TaskRecord.task_id (h.heap e)) (TaskRecord.task_id (h.heap a)) by_id,
  )

  Kept-full :
      (h : TaskHistory Usage) (e : ℕ) (rest : List ℕ)
      → IsValid h
      → h.tasks ≡ e ∷ rest
      → Kept h rest (erase (TaskRecord.task_id (h.heap e)) h.tasks_by_id)
  Kept-full h e rest v p =
      let fresh : All (λ a. a < h.next) (e ∷ rest) = rw p at v.fresh in
      let distinct : Distinct (e ∷ rest) = rw p at v.distinct in
      let indexed : All (λ a. lookup (TaskRecord.task_id (h.heap a)) h.tasks_by_id ≡ some a)
          (e ∷ rest) =
        rw p at v.indexed in
      record {
        room = omega (arith, v.bounded, ap length p);
        fresh = fresh.1;
        distinct = distinct.1;
        indexed =
            All-map₂ _ _ _ rest (λ a. erase-indexed h e a h.tasks_by_id indexed.0) distinct.0
              indexed.1;
        sound = λ k a q.
            let id_e = TaskRecord.task_id (h.heap e) in
            let old : lookup k h.tasks_by_id ≡ some a =
              ground (arith, q, lookup-erase id_e k h.tasks_by_id) in
            let (id, place) = v.sound k a old in
            let place' : listed a (e ∷ rest) ≡ true = rw p at place in
            let ne : str_eq id_e k ≡ false = ground (arith, q, lookup-erase id_e k h.tasks_by_id) in
            let apart : e ≢ a = λ same.
              ground (arith, ap (λ b. TaskRecord.task_id (h.heap b)) same, id, ne, eq_iff id_e k) in
            (id, ground (arith, place', apart));
      }

  -- `add` returns, and shows the new record after the others, without the oldest if it was full.
  abbrev pub Adds : TaskRecord Usage → TaskHistory Usage → Type 0
  Adds task h =
      (h' : TaskHistory Usage) × (add task h ≡ some h')
      × IsValid h'
      × (view h' ≡ ring_append h.max_size task (view h))
      × (h'.max_size ≡ h.max_size)

  max_size-enter :
      (task : TaskRecord Usage) (by_id : Dict ℕ) (h : TaskHistory Usage)
      → (enter task by_id h).max_size ≡ h.max_size
  unfolding enter
  max_size-enter task by_id h = refl

  add_full :
      (task : TaskRecord Usage) (h : TaskHistory Usage) (l : List ℕ)
      → IsValid h
      → lookup task.task_id h.tasks_by_id ≡ none
      → h.tasks ≡ l
      → length h.tasks ≡ h.max_size
      → Adds task h
  unfolding add
  add_full task h [] v new e full = absurd (omega (arith, v.roomy, ap length e))
  add_full task h (a ∷ rest) v new e full =
      let id_a = TaskRecord.task_id (h.heap a) in
      let by_id = erase id_a h.tasks_by_id in
      let (valid, shown) =
        enter-IsValid task h rest by_id (Kept-full h a rest v e)
          (ground (arith, lookup-erase id_a task.task_id h.tasks_by_id))
          (ring_append_full h.max_size h.next h.tasks v.roomy full
            ∙ ap (λ l. tail l ++ h.next ∷ []) e) in
      (
        enter task by_id h,
        ground (arith, e, full),
        valid,
        shown
            ∙ sym (
                ring_append_full h.max_size task (view h) v.roomy (length-map h.heap h.tasks ∙ full)
                ∙ ap (λ l. tail (map h.heap l) ++ task ∷ []) e),
        max_size-enter task by_id h,
      )

  pub add-Adds :
      (task : TaskRecord Usage) (h : TaskHistory Usage)
      → IsValid h
      → lookup task.task_id h.tasks_by_id ≡ none
      → Adds task h
  unfolding add
  add-Adds task h v new = elim (Bool-cases (length h.tasks == h.max_size)) [
    | inl full ↦ add_full task h h.tasks v new refl (ground (arith, full))
    | inr room ↦
        let ne : length h.tasks ≢ h.max_size = ground (arith, room) in
        let lt : length h.tasks < h.max_size = omega (arith, v.bounded, ne) in
        let (valid, shown) =
          enter-IsValid task h h.tasks h.tasks_by_id (Kept-room h v ne) new
            (ring_append_room h.max_size h.next h.tasks lt) in
        (
          enter task h.tasks_by_id h,
          ground (arith, room),
          valid,
          shown
              ∙ sym (
                  ring_append_room h.max_size task (view h)
                    (omega (arith, lt, length-map h.heap h.tasks))),
          max_size-enter task h.tasks_by_id h,
        )
  ]
