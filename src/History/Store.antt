-- ===== src/History/Store.antt =====
-- The invariant that ties the ring buffer of a `TaskHistory`, its dict and its heap together, and
-- what `add` and `edit` do to the records that the buffer shows.
use qa_ai_native.Prelude.{
  ℕ, ◌++◌, All-map, All-append, sym, ◌≤◌, ◌<◌, ◌≡◌, ◌≢◌, refl, ap, String, Bool, true, false,
  Option, none, some, List, [], ◌∷◌, map, arith, str_eq, eq_iff, All, if◌then◌else◌, length, ◌==◌,
  find,
}
use qa_ai_native.Dict.{Dict, lookup}
use qa_ai_native.History.{TaskRecord, TaskHistory, write_at}

-- No number stands twice in a list.
abbrev pub Absent : ℕ → List ℕ → Type 0
Absent a l = All (λ b. a ≢ b) l

abbrev pub Distinct : List ℕ → Type 0
Distinct [] = Unit
Distinct (a ∷ l) = Absent a l × Distinct l

abbrev pub listed : ℕ → List ℕ → Bool
listed a [] = false
listed a (b ∷ l) = if b == a then true else listed a l

pub Absent-of_lt : (n : ℕ) (l : List ℕ) → All (λ a. a < n) l → Absent n l
Absent-of_lt n l h = All-map _ _ l (λ a p. ground (arith, p)) h

pub Distinct-snoc : (n : ℕ) (l : List ℕ) → Absent n l → Distinct l → Distinct (l ++ n ∷ [])
Distinct-snoc n [] h d = (tt, tt)
Distinct-snoc n (a ∷ l) (ha, hl) (da, dl) =
    (All-append _ l (n ∷ []) da ((λ e. ha (sym e)), tt), Distinct-snoc n l hl dl)

pub listed-append_left : (a : ℕ) (l m : List ℕ) → listed a l ≡ true → listed a (l ++ m) ≡ true
listed-append_left a [] m h = absurd (ground arith)
listed-append_left a (b ∷ l) m h = ground (arith, listed-append_left a l m)

pub listed-append_right : (a : ℕ) (l m : List ℕ) → listed a m ≡ true → listed a (l ++ m) ≡ true
listed-append_right a [] m h = h
listed-append_right a (b ∷ l) m h = ground (arith, listed-append_right a l m h)

pub lt_of_listed : (n a : ℕ) (l : List ℕ) → All (λ b. b < n) l → listed a l ≡ true → a < n
lt_of_listed n a [] h m = absurd (ground arith)
lt_of_listed n a (b ∷ l) (hb, hl) m = ground (arith, hb, lt_of_listed n a l hl)

pub All-map₂ :
    (P Q R : ℕ → Type 0) (l : List ℕ) → ((a : ℕ) → P a → Q a → R a) → All P l → All Q l → All R l
All-map₂ P Q R [] f p q = tt
All-map₂ P Q R (a ∷ l) f (pa, pl) (qa, ql) = (f a pa qa, All-map₂ P Q R l f pl ql)

pub map-write_at_fresh :
    {A : Type 0} (n : ℕ) (x : A) (heap : ℕ → A) (l : List ℕ)
    → All (λ a. a < n) l
    → map (write_at n x heap) l ≡ map heap l
map-write_at_fresh n x heap [] h = refl
map-write_at_fresh n x heap (a ∷ l) (ha, hl) = ground (arith, ha, map-write_at_fresh n x heap l hl)

pub lookup_same :
    {V : Type 0} (j k : String) (d : Dict V) → str_eq j k ≡ true → lookup j d ≡ lookup k d
lookup_same j k d h = ap (λ i. lookup i d) ((eq_iff j k).0 h)

module _ {Usage : Type 0} where
  -- The dict takes the ID of every buffered record to that record, and holds nothing else.
  pub record IsValid (h : TaskHistory Usage) : Type 0 where
    pub roomy : 0 < h.max_size
    pub bounded : length h.tasks ≤ h.max_size
    pub fresh : All (λ a. a < h.next) h.tasks
    pub distinct : Distinct h.tasks
    pub indexed : All (λ a. lookup (TaskRecord.task_id (h.heap a)) h.tasks_by_id ≡ some a) h.tasks
    pub sound :
        (k : String) (a : ℕ)
        → lookup k h.tasks_by_id ≡ some a
        → (TaskRecord.task_id (h.heap a) ≡ k) × (listed a h.tasks ≡ true)

  -- The records that the buffer shows, oldest first.
  abbrev pub view : TaskHistory Usage → List (TaskRecord Usage)
  view h = map h.heap h.tasks

  -- What a change of the records with one ID makes of a list of records.
  abbrev pub edit_list :
      (TaskRecord Usage → TaskRecord Usage)
      → String
      → List (TaskRecord Usage)
      → List (TaskRecord Usage)
  edit_list f k = map (λ t. if str_eq (TaskRecord.task_id t) k then f t else t)

  abbrev pub find_id : String → List (TaskRecord Usage) → Option (TaskRecord Usage)
  find_id k = find (λ t. str_eq (TaskRecord.task_id t) k)

  -- A write to one cell shows in a list of distinct records with distinct IDs as an edit by ID.
  pub map-write_at :
      (f : TaskRecord Usage → TaskRecord Usage) (k : String) (a : ℕ) (heap : ℕ → TaskRecord Usage)
      (by_id : Dict ℕ) (l : List ℕ)
      → lookup k by_id ≡ some a
      → TaskRecord.task_id (heap a) ≡ k
      → All (λ b. lookup (TaskRecord.task_id (heap b)) by_id ≡ some b) l
      → map (write_at a (f (heap a)) heap) l ≡ edit_list f k (map heap l)
  map-write_at f k a heap by_id [] h e i = refl
  map-write_at f k a heap by_id (b ∷ l) h e (ib, il) = ground (
    arith,
    eq_iff (TaskRecord.task_id (heap b)) k,
    lookup_same (TaskRecord.task_id (heap b)) k by_id,
    map-write_at f k a heap by_id l h e il,
  )

  pub map-edit_absent :
      (f : TaskRecord Usage → TaskRecord Usage) (k : String) (heap : ℕ → TaskRecord Usage)
      (by_id : Dict ℕ) (l : List ℕ)
      → lookup k by_id ≡ none
      → All (λ b. lookup (TaskRecord.task_id (heap b)) by_id ≡ some b) l
      → edit_list f k (map heap l) ≡ map heap l
  map-edit_absent f k heap by_id [] h i = refl
  map-edit_absent f k heap by_id (b ∷ l) h (ib, il) = ground (
    arith,
    eq_iff (TaskRecord.task_id (heap b)) k,
    lookup_same (TaskRecord.task_id (heap b)) k by_id,
    map-edit_absent f k heap by_id l h il,
  )
