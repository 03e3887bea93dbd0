-- ===== src/Hub/Put.antt =====
-- `_put_locked`, `get` and `drain` keep a subscriber's buffer valid, and do on the list of buffered
-- events what `put_list` says.
use qa_ai_native.Prelude.{
  ℕ, ◌<◌, ◌≡◌, refl, sym, ap, ◌∙◌, String, true, Option, none, some, List, [], ◌∷◌, ◌++◌, map,
  arith, eq_iff, Option-cases, Bool-cases, inl, inr, All, length, tail, leb, length-append,
  All-append, All-map, length-map,
}
use mathlib.Core.List.{map-append}
use mathlib.Core.Path.{subst}
use qa_ai_native.Dict.{lookup}
use qa_ai_native.History.{write_at}
use qa_ai_native.History.Store.{
  Absent, Distinct, listed, Absent-of_lt, Distinct-snoc, listed-append_left, listed-append_right,
  lt_of_listed, All-map₂, map-write_at_fresh,
}
use qa_ai_native.Hub.{
  Event, gap, activity_key, Heap, allocate, Subscriber, discard_from_index, enter_index, overflow,
  append, buffered_activity, put, get,
}
use qa_ai_native.Hub.Buffer.{
  IsIndexed, IsValid, view, has_key, append_list, put_list, map-replace, any-listed, any-absent,
}
use qa_ai_native.Hub.Index.{has_key_sound, lookup-enter, popped, key-write_at}

-- The contents of one buffered object are replaced by an event of the same task.
coalesce-IsValid :
    (maxsize x : ℕ) (e : Event) (hp : Heap) (s : Subscriber)
    → activity_key e ≡ activity_key (hp.cells x)
    → IsValid maxsize hp s
    → IsValid maxsize (record hp { cells = write_at x e hp.cells }) s
coalesce-IsValid maxsize x e hp s same v =
    let key = λ (b : ℕ). key-write_at x e hp.cells b same in
    record {
      roomy = v.roomy;
      bounded = v.bounded;
      fresh = v.fresh;
      distinct = v.distinct;
      indexed = All-map _ _ s.items (λ b i t k. i t (sym (key b) ∙ k)) v.indexed;
      sound = λ t b q. (key b ∙ (v.sound t b q).0, (v.sound t b q).1);
    }

entered-IsIndexed :
    (a b : ℕ) (hp : Heap) (s : Subscriber)
    → buffered_activity hp a s ≡ none
    → IsIndexed hp s.activity_index b
    → IsIndexed hp (enter_index hp a s.activity_index) b
entered-IsIndexed a b hp s none_yet i t k = elim (Bool-cases (has_key t (hp.cells a))) [
  | inl own ↦ absurd (ground (arith, has_key_sound t (hp.cells a) own, none_yet, i t k))
  | inr other ↦ lookup-enter hp a s.activity_index t ∙ ground (arith, other, i t k)
]

entered_sound :
    (maxsize a b : ℕ) (t : String) (hp : Heap) (s : Subscriber)
    → IsValid maxsize hp s
    → lookup t (enter_index hp a s.activity_index) ≡ some b
    → (activity_key (hp.cells b) ≡ some t) × (listed b (s.items ++ a ∷ []) ≡ true)
entered_sound maxsize a b t hp s v q =
    let found = lookup-enter hp a s.activity_index t in
    elim (Bool-cases (has_key t (hp.cells a))) [
      | inl own ↦
          let p : b ≡ a = ground (arith, q, found, own) in
          (
            ap (λ c. activity_key (hp.cells c)) p ∙ has_key_sound t (hp.cells a) own,
            listed-append_right b s.items (a ∷ []) (ground (arith, p)),
          )
      | inr other ↦
          let (key, place) = v.sound t b (ground (arith, q, found, other)) in
          (key, listed-append_left b s.items (a ∷ []) place)
    ]

-- A fresh object whose task is not in the index goes to the end.
append-IsValid :
    (maxsize a : ℕ) (hp : Heap) (s : Subscriber)
    → IsValid maxsize hp s
    → a < hp.next
    → Absent a s.items
    → buffered_activity hp a s ≡ none
    → length s.items < maxsize
    → IsValid maxsize hp
        (record { items = s.items ++ a ∷ []; activity_index = enter_index hp a s.activity_index })
append-IsValid maxsize a hp s v lt new none_yet room = record {
  roomy = v.roomy;
  bounded = omega (arith, room, length-append s.items (a ∷ []));
  fresh = All-append _ s.items (a ∷ []) v.fresh (lt, tt);
  distinct = Distinct-snoc a s.items new v.distinct;
  indexed =
      All-append _ s.items (a ∷ [])
        (All-map _ _ s.items (λ b. entered-IsIndexed a b hp s none_yet) v.indexed)
        ((λ t k. lookup-enter hp a s.activity_index t ∙ ground (arith, k, eq_iff t t)), tt);
  sound = λ t b q. entered_sound maxsize a b t hp s v q;
}

cells-allocate :
    (seq b : ℕ) (hp : Heap)
    → b < hp.next
    → write_at hp.next (gap "queue_overflow" seq seq) hp.cells b ≡ hp.cells b
cells-allocate seq b hp lt = ground (arith, lt)

-- The oldest object makes room for the sentinel.
overflow-IsValid :
    (maxsize seq d : ℕ) (rest : List ℕ) (hp : Heap) (s : Subscriber)
    → IsValid maxsize hp s
    → s.items ≡ d ∷ rest
    → IsValid maxsize (allocate (gap "queue_overflow" seq seq) hp) (record {
      items = rest ++ hp.next ∷ [];
      activity_index = discard_from_index hp d s.activity_index;
    })
overflow-IsValid maxsize seq d rest hp s v e =
    let fresh : All (λ a. a < hp.next) (d ∷ rest) = rw e at v.fresh in
    let distinct : Distinct (d ∷ rest) = rw e at v.distinct in
    let left = popped hp maxsize d rest s v e in
    record {
      roomy = v.roomy;
      bounded = omega (arith, v.bounded, ap length e, length-append rest (hp.next ∷ []));
      fresh =
          All-append _ rest (hp.next ∷ []) (All-map _ _ rest (λ a p. omega (arith, p)) fresh.1)
            (omega arith, tt);
      distinct = Distinct-snoc hp.next rest (Absent-of_lt hp.next rest fresh.1) distinct.1;
      indexed =
          All-append _ rest (hp.next ∷ [])
            (All-map₂ _ _ _ rest
              (λ b lt i t k. i t (sym (ap activity_key (cells-allocate seq b hp lt)) ∙ k)) fresh.1
              left.indexed)
            ((λ t k. absurd (ground (arith, k))), tt);
      sound = λ t b q.
          let (key, place) = left.sound t b q in
          let lt = lt_of_listed hp.next b rest fresh.1 place in
          (
            ap activity_key (cells-allocate seq b hp lt) ∙ key,
            listed-append_left b rest (hp.next ∷ []) place,
          );
    }

-- What one `put` of a fresh object does: it succeeds, keeps the buffer valid, and shows as `put_list`.
abbrev pub Puts : ℕ → ℕ → ℕ → Heap → Subscriber → Option (Heap × Subscriber) → Type 0
Puts maxsize a seq hp s result =
    (hp' : Heap) × (s' : Subscriber) × (result ≡ some (hp', s'))
    × IsValid maxsize hp' s'
    × (view hp' s' ≡ put_list maxsize (hp.cells a) seq (view hp s))

overflow-view :
    (maxsize seq d : ℕ) (rest : List ℕ) (hp : Heap) (s : Subscriber)
    → IsValid maxsize hp s
    → s.items ≡ d ∷ rest
    → map (write_at hp.next (gap "queue_overflow" seq seq) hp.cells) (rest ++ hp.next ∷ [])
      ≡ tail (view hp s) ++ gap "queue_overflow" seq seq ∷ []
overflow-view maxsize seq d rest hp s v e =
    let fresh : All (λ a. a < hp.next) (d ∷ rest) = rw e at v.fresh in
    let cells' = write_at hp.next (gap "queue_overflow" seq seq) hp.cells in
    map-append cells' rest (hp.next ∷ [])
    ∙ ap (λ l. l ++ cells' hp.next ∷ []) (map-write_at_fresh hp.next _ hp.cells rest fresh.1)
    ∙ ap (λ x. map hp.cells rest ++ x ∷ [])
        (let w : cells' hp.next ≡ gap "queue_overflow" seq seq = ground arith in w)
    ∙ ap (λ l. tail (map hp.cells l) ++ gap "queue_overflow" seq seq ∷ []) (sym e)

-- Without a buffered event of the task the list is appended to.
put_list_append :
    (maxsize a seq : ℕ) (hp : Heap) (s : Subscriber)
    → IsValid maxsize hp s
    → buffered_activity hp a s ≡ none
    → put_list maxsize (hp.cells a) seq (view hp s)
      ≡ append_list maxsize (hp.cells a) seq (view hp s)
put_list_append maxsize a seq hp s v b = elim (Option-cases (activity_key (hp.cells a))) [
  | inl k ↦ ground (arith, k)
  | inr (t, k) ↦
      ground
        (arith, k, b, any-absent hp s.activity_index t s.items (ground (arith, k, b)) v.indexed)
]

append-Puts :
    (maxsize a seq : ℕ) (hp : Heap) (s : Subscriber) (l : List ℕ)
    → IsValid maxsize hp s
    → a < hp.next
    → Absent a s.items
    → buffered_activity hp a s ≡ none
    → s.items ≡ l
    → Puts maxsize a seq hp s (append maxsize a seq hp s)
unfolding append overflow
append-Puts maxsize a seq hp s l v lt new b e = elim (Bool-cases (leb maxsize (length s.items))) [
  | inr room ↦ (
    hp,
    record { items = s.items ++ a ∷ []; activity_index = enter_index hp a s.activity_index },
    ground (arith, room),
    append-IsValid maxsize a hp s v lt new b (ground (arith, room)),
    map-append hp.cells s.items (a ∷ [])
        ∙ sym (
            put_list_append maxsize a seq hp s v b
            ∙ ground (arith, room, length-map hp.cells s.items)),
  )
  | inl full ↦ filled l e full
]
  where
    filled :
        (l : List ℕ)
        → s.items ≡ l
        → leb maxsize (length s.items) ≡ true
        → Puts maxsize a seq hp s (append maxsize a seq hp s)
    filled [] e full = absurd (ground (arith, v.roomy, ap length e, full))
    filled (d ∷ rest) e full = (
      allocate (gap "queue_overflow" seq seq) hp,
      record {
        items = rest ++ hp.next ∷ [];
        activity_index = discard_from_index hp d s.activity_index;
      },
      ground (arith, full, e),
      overflow-IsValid maxsize seq d rest hp s v e,
      overflow-view maxsize seq d rest hp s v e
          ∙ sym (
              put_list_append maxsize a seq hp s v b
              ∙ ground (arith, full, length-map hp.cells s.items)),
    )

put-append :
    (maxsize a seq : ℕ) (hp : Heap) (s : Subscriber)
    → buffered_activity hp a s ≡ none
    → put maxsize a seq hp s ≡ append maxsize a seq hp s
unfolding put
put-append maxsize a seq hp s b = ground (arith, b)

-- Putting a fresh event object into a valid buffer of positive size always succeeds and keeps it
-- valid. On the list of buffered events: an activity event takes the place of the buffered one of
-- its task; any other event goes to the end, or into the loss of a full buffer, where the oldest
-- event leaves and a gap sentinel stands for the new one.
pub put-Puts :
    (maxsize a seq : ℕ) (hp : Heap) (s : Subscriber)
    → IsValid maxsize hp s
    → a < hp.next
    → Absent a s.items
    → Puts maxsize a seq hp s (put maxsize a seq hp s)
unfolding put
put-Puts maxsize a seq hp s v lt new = elim (Option-cases (activity_key (hp.cells a))) [
  | inl k ↦ unbuffered (ground (arith, k))
  | inr (t, k) ↦ elim (Option-cases (lookup t s.activity_index)) [
    | inl q ↦ unbuffered (ground (arith, k, q))
    | inr (x, q) ↦ (
      record hp { cells = write_at x (hp.cells a) hp.cells },
      s,
      ground (arith, k, q),
      coalesce-IsValid maxsize x (hp.cells a) hp s (k ∙ sym (v.sound t x q).0) v,
      map-replace hp s.activity_index t x (hp.cells a) s.items q (v.sound t x q).0 v.indexed
          ∙ ground (arith, k, any-listed hp t x s.items (v.sound t x q).0 (v.sound t x q).1),
    )
  ]
]
  where
    unbuffered : buffered_activity hp a s ≡ none → Puts maxsize a seq hp s (put maxsize a seq hp s)
    unbuffered b =
        subst (Puts maxsize a seq hp s) (sym (put-append maxsize a seq hp s b))
          (append-Puts maxsize a seq hp s s.items v lt new b refl)

-- What `get` gives: nothing on an empty buffer, else the oldest event and the buffer of the others.
abbrev pub Gets : ℕ → Heap → Subscriber → Option (ℕ × Subscriber) → Type 0
Gets maxsize hp s none = view hp s ≡ []
Gets maxsize hp s (some (a, s')) = (view hp s ≡ hp.cells a ∷ view hp s') × IsValid maxsize hp s'

get-Gets_from :
    (maxsize : ℕ) (hp : Heap) (s : Subscriber) (l : List ℕ)
    → IsValid maxsize hp s
    → s.items ≡ l
    → Gets maxsize hp s (get hp s)
unfolding get
get-Gets_from maxsize hp s [] v e =
    subst (Gets maxsize hp s) (sym (let g : get hp s ≡ none = ground (arith, e) in g))
      (ap (map hp.cells) e)
get-Gets_from maxsize hp s (d ∷ rest) v e =
    let fresh : All (λ a. a < hp.next) (d ∷ rest) = rw e at v.fresh in
    let distinct : Distinct (d ∷ rest) = rw e at v.distinct in
    let left = popped hp maxsize d rest s v e in
    let g : get hp s
        ≡ some (
          d,
          record { items = rest; activity_index = discard_from_index hp d s.activity_index },
        ) =
      ground (arith, e) in
    subst (Gets maxsize hp s) (sym g) (
      ap (map hp.cells) e,
      record {
        roomy = v.roomy;
        bounded = omega (arith, v.bounded, ap length e);
        fresh = fresh.1;
        distinct = distinct.1;
        indexed = left.indexed;
        sound = left.sound;
      },
    )

-- Taking from a valid buffer gives the oldest event shown and leaves a valid buffer that shows the
-- others in order; only a buffer that shows nothing makes the reader wait.
pub get-Gets :
    (maxsize : ℕ) (hp : Heap) (s : Subscriber) → IsValid maxsize hp s → Gets maxsize hp s (get hp s)
get-Gets maxsize hp s v = get-Gets_from maxsize hp s s.items v refl
