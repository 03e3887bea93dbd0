-- ===== src/Jobs/Order.antt =====
-- The jobs run in order, and not too many at a time.
use mathlib.Core.Path.{subst}
use mathlib.Core.List.{append-nil, append_assoc}
use qa_ai_native.Prelude.{
  ℕ, zero, suc, ◌+◌, ◌<◌, ◌≤◌, ◌≡◌, refl, sym, ap, ◌∙◌, Bool, true, false, Bool-cases, Option-cases,
  inl, inr, Option, none, some, List, [], ◌∷◌, ◌++◌, length, length-append, ltb, arith, ◌⊎◌,
  if◌then◌else◌,
}
use qa_ai_native.Jobs.{
  State, Event, enqueued, taken, acquired, ended, new_state, take_job, start_job, remove_at,
  task_done, end_job, step, then_run, run_events,
}

number-cases : (n : ℕ) → (n ≡ 0) ⊎ ((m : ℕ) × (n ≡ suc m))
number-cases zero = inl refl
number-cases (suc n) = inr (n, refl)

ltb-zero : (n : ℕ) → 0 < n → ltb 0 n ≡ true
ltb-zero n h = ground (arith, h)

module _ {J : Type 0} where
  -- At most `max` jobs run; the count is that of the jobs that have not ended; and the enqueued jobs
  -- are the started, the waiting and the queued ones, in this order.
  pub record IsSound (max : ℕ) (all : List J) (s : State J) : Type 0 where
    pub bounded : length s.running ≤ max
    pub counted : s.unfinished ≡ length s.queue + length s.waiting + length s.running
    pub in_order : s.started ++ (s.waiting ++ s.queue) ≡ all

  -- Of an event that can happen.
  abbrev pub After : (State J → Type 0) → Option (State J) → Type 0
  After P none = Unit
  After P (some s) = P s

  abbrev pub enqueued_by : Event J → List J
  enqueued_by (enqueued j) = j ∷ []
  enqueued_by taken = []
  enqueued_by acquired = []
  enqueued_by (ended n raised) = []

  abbrev pub all_enqueued : List (Event J) → List J
  all_enqueued [] = []
  all_enqueued (e ∷ es) = enqueued_by e ++ all_enqueued es

  take-IsSound :
      (max : ℕ) (all queue : List J) (s : State J)
      → s.queue ≡ queue
      → IsSound max all s
      → After (IsSound max all) (take_job queue s)
  take-IsSound max all [] s e v = tt
  take-IsSound max all (j ∷ queue) s e v = record {
    bounded = v.bounded;
    counted = ground (arith, v.counted, e, length-append s.waiting (j ∷ []));
    in_order =
        ap (λ l. s.started ++ l)
          (append_assoc s.waiting (j ∷ []) queue ∙ ap (λ q. s.waiting ++ q) (sym e))
        ∙ v.in_order;
  }

  start-IsSound :
      (max : ℕ) (all waiting : List J) (s : State J)
      → s.waiting ≡ waiting
      → length s.running < max
      → IsSound max all s
      → After (IsSound max all) (start_job waiting s)
  start-IsSound max all [] s e room v = tt
  start-IsSound max all (j ∷ waiting) s e room v = record {
    bounded = omega (arith, room, length-append s.running (j ∷ []));
    counted = ground (arith, v.counted, e, length-append s.running (j ∷ []));
    in_order =
        append_assoc s.started (j ∷ []) (waiting ++ s.queue)
        ∙ ap (λ w. s.started ++ (w ++ s.queue)) (sym e)
        ∙ v.in_order;
  }

  -- A job that ends leaves one running job less.
  length-remove_at :
      (n : ℕ) (l rest : List J) → remove_at n l ≡ some rest → length l ≡ suc (length rest)
  length-remove_at n [] rest e = ground (arith, e)
  length-remove_at zero (j ∷ l) rest e = ground (arith, e)
  length-remove_at (suc n) (j ∷ l) rest e = elim (Option-cases (remove_at n l)) [
    | inl h ↦ ground (arith, e, h)
    | inr (r, h) ↦ ground (arith, e, h, length-remove_at n l r h)
  ]

  done-IsSound :
      (max n : ℕ) (all : List J) (s : State J)
      → n ≡ suc (length s.queue + length s.waiting + length s.running)
      → length s.running ≤ max
      → s.started ++ (s.waiting ++ s.queue) ≡ all
      → After (IsSound max all) (task_done n s)
  done-IsSound max zero all s c b o = tt
  done-IsSound max (suc n) all s c b o = record {
    bounded = b;
    counted = omega (arith, c);
    in_order = o;
  }

  end-IsSound :
      (max : ℕ) (all : List J) (raised : Bool) (o : Option (List J)) (s : State J)
      → ((rest : List J) → o ≡ some rest → length s.running ≡ suc (length rest))
      → IsSound max all s
      → After (IsSound max all) (end_job raised o s)
  end-IsSound max all raised none s shorter v = tt
  end-IsSound max all raised (some running) s shorter v =
      done-IsSound max s.unfinished all _ (omega (arith, v.counted, shorter running refl))
        (omega (arith, v.bounded, shorter running refl)) v.in_order

  step-IsSound :
      (max : ℕ) (all : List J) (e : Event J) (s : State J)
      → IsSound max all s
      → After (IsSound max (all ++ enqueued_by e)) (step max e s)
  unfolding step
  step-IsSound max all (enqueued j) s v = record {
    bounded = v.bounded;
    counted = omega (arith, v.counted, length-append s.queue (j ∷ []));
    in_order =
        ap (λ l. s.started ++ l) (sym (append_assoc s.waiting s.queue (j ∷ [])))
        ∙ sym (append_assoc s.started (s.waiting ++ s.queue) (j ∷ []))
        ∙ ap (λ l. l ++ j ∷ []) v.in_order;
  }
  step-IsSound max all taken s v = rw (append-nil all) (take-IsSound max all s.queue s refl v)
  step-IsSound max all acquired s v = elim (Bool-cases (ltb (length s.running) max)) [
    | inl room ↦
        rw (append-nil all, room) (start-IsSound max all s.waiting s refl (ground (arith, room)) v)
    | inr full ↦ rw full tt
  ]
  step-IsSound max all (ended n raised) s v = rw (append-nil all) (
      end-IsSound max all raised (remove_at n s.running) s
        (λ rest e. length-remove_at n s.running rest e) v)

  After-then :
      (P Q : State J → Type 0) (f : State J → Option (State J)) (o : Option (State J))
      → ((s : State J) → P s → After Q (f s))
      → After P o
      → After Q (then_run f o)
  After-then P Q f none next h = tt
  After-then P Q f (some s) next h = next s h

  run-IsSound :
      (max : ℕ) (es : List (Event J)) (all : List J) (s : State J)
      → IsSound max all s
      → After (IsSound max (all ++ all_enqueued es)) (run_events max es s)
  unfolding run_events
  run-IsSound max [] all s v = rw (append-nil all) v
  run-IsSound max (e ∷ es) all s v = rw (sym (append_assoc all (enqueued_by e) (all_enqueued es))) (
      After-then (IsSound max (all ++ enqueued_by e)) _ (run_events max es) (step max e s)
        (run-IsSound max es (all ++ enqueued_by e)) (step-IsSound max all e s v))

  -- Some event other than a new job can happen.
  abbrev pub CanStep : ℕ → State J → Type 0
  CanStep max s = (e : Event J) × (s' : State J) × (enqueued_by e ≡ []) × (step max e s ≡ some s')

  list-cases : (l : List J) → (l ≡ []) ⊎ ((j : J) × (rest : List J) × (l ≡ j ∷ rest))
  list-cases [] = inl refl
  list-cases (j ∷ l) = inr (j, l, refl)

  ends-CanStep :
      (max : ℕ) (all : List J) (s : State J) (j : J) (rest : List J)
      → s.running ≡ j ∷ rest
      → IsSound max all s
      → CanStep max s
  unfolding step
  ends-CanStep max all s j rest e v = elim (number-cases s.unfinished) [
    | inl z ↦ absurd (ground (arith, v.counted, z, e))
    | inr (n, h) ↦ (
      ended 0 false,
      record s { running = rest; unfinished = n },
      refl,
      ap (λ l. end_job false (remove_at 0 l) s) e
          ∙ ap (λ u. task_done u (record s { running = rest })) h,
    )
  ]

  sound-CanStep :
      (max : ℕ) (all : List J) (s : State J)
      → 0 < max
      → IsSound max all s
      → (s.unfinished ≡ 0) ⊎ CanStep max s
  unfolding step
  sound-CanStep max all s positive v = elim (list-cases s.running) [
    | inr (j, rest, e) ↦ inr (ends-CanStep max all s j rest e v)
    | inl idle ↦ elim (list-cases s.waiting) [
      | inr (j, rest, e) ↦ inr (
        acquired,
        record s { waiting = rest; running = s.running ++ j ∷ []; started = s.started ++ j ∷ [] },
        refl,
        ap (λ l. if ltb (length l) max then start_job s.waiting s else none) idle
            ∙ ap (λ b. if b then start_job s.waiting s else none) (ltb-zero max positive)
            ∙ ap (λ l. start_job l s) e,
      )
      | inl none_waits ↦ elim (list-cases s.queue) [
        | inr (j, rest, e) ↦ inr (
          taken,
          record s { queue = rest; waiting = s.waiting ++ j ∷ [] },
          refl,
          ap (λ l. take_job l s) e,
        )
        | inl empty ↦ inl (ground (arith, v.counted, idle, none_waits, empty))
      ]
    ]
  ]

  After-eq :
      (P : State J → Type 0) (o : Option (State J)) (s : State J) → o ≡ some s → After P o → P s
  After-eq P o s e h = subst (After P) e h

  new-IsSound : (max : ℕ) → IsSound max [] (new_state {J = J})
  new-IsSound max = record { bounded = omega arith; counted = refl; in_order = refl }

  -- From the start, after any events that can happen, however the jobs end: at most `max` jobs run, the
  -- queue's count is that of the jobs that have not ended, and the jobs start in the order in which they
  -- were enqueued, each once, those not started being on the way in that order. With a positive `max`,
  -- either all enqueued jobs have ended or an event that is no new job can happen.
  pub jobs-in_order :
      (max : ℕ) (es : List (Event J)) (s : State J)
      → 0 < max
      → run_events max es new_state ≡ some s
      → IsSound max (all_enqueued es) s × ((s.unfinished ≡ 0) ⊎ CanStep max s)
  jobs-in_order max es s positive ran =
      let v : IsSound max (all_enqueued es) s =
        After-eq (IsSound max (all_enqueued es)) (run_events max es new_state) s ran
          (run-IsSound max es [] new_state (new-IsSound max)) in
      (v, sound-CanStep max (all_enqueued es) s positive v)
