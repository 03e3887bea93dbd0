-- ===== src/Guard/Spec.antt =====
-- The guard decides every request as a full log of the accepted requests would, though it forgets
-- what is old.
use qa_ai_native.Prelude.{
  ℕ, ◌-◌, ◌*◌, ◌≤◌, ◌≡◌, refl, sym, ap, ◌∙◌, String, not, Option, none, some, List, [], ◌∷◌, ◌++◌,
  arith, if◌then◌else◌, ltb, leb, length, eq_iff, Bool-cases, Option-cases, inl, inr, All-append,
  All-map,
}
use qa_ai_native.Dict.{
  Dict, lookup, insert, lookup-insert, lookup-filter, UniqueKeys, insert-UniqueKeys,
  filter-UniqueKeys, contains,
}
use qa_ai_native.Guard.{DropReason, Limits, Guard, new_guard, trim, unexpired, evict, admit, check}
use qa_ai_native.Guard.Window.{
  Log, recent, seen, decide, note, Tracks, window_count-trim, window_count-All, trim-fresh,
  trim-IsAscending, trim-All, snoc-IsAscending, window_count-snoc,
}

module _ (limits : Limits) where
  open limits use {dedup_window as dedup, global_max, second}

  lookup-unexpired :
      (now : ℕ) (k : String) (d : Dict ℕ)
      → UniqueKeys d
      → lookup k (unexpired dedup now d) ≡ elim (lookup k d) [
        | none ↦ none
        | some w ↦ if not (ltb dedup (now - w)) then some w else none
      ]
  unfolding unexpired
  lookup-unexpired now k d u = lookup-filter k (λ e. not (ltb dedup (now - e.1))) d u

  evict-Tracks :
      (clock now : ℕ) (log : Log) (g : Guard)
      → clock ≤ now
      → Tracks limits clock log g
      → Tracks limits now log (evict limits now g)
  unfolding evict
  evict-Tracks clock now log g le t = record {
    unique = unfold unexpired in filter-UniqueKeys _ g.last_seen t.unique;
    ascending = trim-IsAscending (60 * second) now g.global_window t.ascending;
    past =
        trim-All _ (60 * second) now g.global_window
          (All-map _ _ g.global_window (λ u p. omega (arith, le, p)) t.past);
    counted = λ n h.
        t.counted n (omega (arith, le, h))
        ∙ sym (window_count-trim (60 * second) now n g.global_window h);
    remembered = λ n k h.
        t.remembered n k (omega (arith, le, h)) ∙ elim (Option-cases (lookup k g.last_seen)) [
          | inl e ↦ ground (arith, e, lookup-unexpired now k g.last_seen t.unique)
          | inr (w, e) ↦ ground (arith, e, h, lookup-unexpired now k g.last_seen t.unique)
        ];
  }

  -- The accepted request enters the window, the dict and the log.
  accepted-Tracks :
      (now : ℕ) (k : String) (log : Log) (g : Guard)
      → lookup k g.last_seen ≡ none
      → Tracks limits now log g
      → Tracks limits now ((k, now) ∷ log) (record {
        last_seen = insert k now g.last_seen;
        global_window = g.global_window ++ now ∷ [];
      })
  accepted-Tracks now k log g new t = record {
    unique = insert-UniqueKeys k now g.last_seen t.unique;
    ascending = snoc-IsAscending now g.global_window t.past t.ascending;
    past = All-append _ g.global_window (now ∷ []) t.past (omega arith, tt);
    counted =
        λ n h. omega (arith, t.counted n h, window_count-snoc (60 * second) n now g.global_window);
    remembered = λ n j h. ground (
      arith,
      t.remembered n j h,
      eq_iff k j,
      new,
      lookup-insert k j now g.last_seen,
      ap (λ i. lookup i g.last_seen),
    );
  }

  -- Both tests read the log off the state.
  admit-Tracks :
      (now : ℕ) (k : String) (log : Log) (g : Guard)
      → length g.global_window ≡ recent (60 * second) now log
      → contains k g.last_seen ≡ seen dedup now k log
      → Tracks limits now log g
      → let (g', answer) = admit limits k now g in
        (answer ≡ decide limits k now log) × Tracks limits now (note k now answer log) g'
  unfolding admit
  admit-Tracks now k log g cap dup t = elim (Bool-cases (leb global_max (length g.global_window))) [
    | inl full ↦ rw (full, admit) (ground (arith, cap, full), t)
    | inr room ↦ elim (Bool-cases (contains k g.last_seen)) [
      | inl known ↦ rw (room, known, admit) (ground (arith, cap, room, dup, known), t)
      | inr new ↦
          rw (room, new, admit)
            (
              ground (arith, cap, room, dup, new),
              accepted-Tracks now k log g (ground (arith, new)) t,
            )
    ]
  ]

  evict-length :
      (clock now : ℕ) (log : Log) (g : Guard)
      → clock ≤ now
      → Tracks limits clock log g
      → length (evict limits now g).global_window ≡ recent (60 * second) now log
  unfolding evict
  evict-length clock now log g le t = sym (
      t.counted now le
      ∙ sym (window_count-trim (60 * second) now now g.global_window (omega arith))
      ∙ window_count-All (60 * second) now (trim (60 * second) now g.global_window)
          (trim-fresh (60 * second) now g.global_window t.ascending))

  evict-contains :
      (clock now : ℕ) (k : String) (log : Log) (g : Guard)
      → clock ≤ now
      → Tracks limits clock log g
      → contains k (evict limits now g).last_seen ≡ seen dedup now k log
  unfolding evict
  evict-contains clock now k log g le t = elim (Option-cases (lookup k g.last_seen)) [
    | inl e ↦ ground (arith, e, t.remembered now k le, lookup-unexpired now k g.last_seen t.unique)
    | inr (w, e) ↦
        ground (arith, e, t.remembered now k le, lookup-unexpired now k g.last_seen t.unique)
  ]

  -- Where the clock does not go back: the answer is the one that the full log gives, and the state
  -- goes on tracking the log.
  check-Tracks :
      (clock now : ℕ) (k : String) (log : Log) (g : Guard)
      → clock ≤ now
      → Tracks limits clock log g
      → let (g', answer) = check limits k now g in
        (answer ≡ decide limits k now log) × Tracks limits now (note k now answer log) g'
  unfolding check
  check-Tracks clock now k log g le t =
      admit-Tracks now k log (evict limits now g) (evict-length clock now log g le t)
        (evict-contains clock now k log g le t) (evict-Tracks clock now log g le t)

  -- The answers to a sequence of requests, and those of the full log.
  abbrev pub answers : List (String × ℕ) → Guard → List (Option DropReason)
  answers [] g = []
  answers ((k, now) ∷ requests) g =
      let (g', answer) = check limits k now g in answer ∷ answers requests g'

  abbrev pub decisions : List (String × ℕ) → Log → List (Option DropReason)
  decisions [] log = []
  decisions ((k, now) ∷ requests) log =
      let answer = decide limits k now log in answer ∷ decisions requests (note k now answer log)

  -- The clock does not go back between the requests.
  abbrev pub IsMonotonic : ℕ → List (String × ℕ) → Type 0
  IsMonotonic clock [] = Unit
  IsMonotonic clock ((k, now) ∷ requests) = (clock ≤ now) × IsMonotonic now requests

  answers-decisions :
      (clock : ℕ) (requests : List (String × ℕ)) (log : Log) (g : Guard)
      → IsMonotonic clock requests
      → Tracks limits clock log g
      → answers requests g ≡ decisions requests log
  answers-decisions clock [] log g m t = refl
  answers-decisions clock ((k, now) ∷ requests) log g (le, m) t =
      let (same, t') = check-Tracks clock now k log g le t in
      let rest =
        answers-decisions now requests (note k now (check limits k now g).1 log)
          (check limits k now g).0 m t' in
      ap (λ l. (check limits k now g).1 ∷ l) rest
      ∙ ap (λ a. a ∷ decisions requests (note k now a log)) same

  new_guard-Tracks : (clock : ℕ) → Tracks limits clock [] new_guard
  unfolding new_guard
  new_guard-Tracks clock = record {
    unique = tt;
    ascending = tt;
    past = tt;
    counted = λ n h. refl;
    remembered = λ n k h. refl;
  }

  -- A new guard answers every sequence of requests, on a clock that does not go back, as a full log
  -- of the accepted requests would: rate-limited when the maximum was accepted within the last 60
  -- seconds, else a duplicate when the work item was accepted within the dedup window, else
  -- accepted.
  pub guard-refines-log :
      (requests : List (String × ℕ))
      → IsMonotonic 0 requests
      → answers requests new_guard ≡ decisions requests []
  guard-refines-log requests m = answers-decisions 0 requests [] new_guard m (new_guard-Tracks 0)
