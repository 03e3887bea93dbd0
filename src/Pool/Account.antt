-- ===== src/Pool/Account.antt =====
-- The counter that `queue.join()` waits on counts the items in the queue and the running tests.
use qa_ai_native.Prelude.{
  ℕ, ◌+◌, ◌-◌, ◌≡◌, refl, ap, String, Bool, true, false, Option, none, some, List, [], ◌∷◌, arith,
  str_eq, if◌then◌else◌, count, length, length-append, Bool-cases, ◌↔◌, inl, inr,
}
use qa_ai_native.Dict.{Dict, lookup, insert}
use qa_ai_native.Registry.{AgentStatus, available, busy, broken, get_status, get_name}
use qa_ai_native.TestCases.{TestCase}
use qa_ai_native.Pool.{
  Worker, looping, waiting, executing, stopped, Pool, Outcome, returned, raised, Event, Response,
  is_joined, agent_of, goes_on, ends, registry_call, take_item, loop_head, go_on, handle_failure,
  put_nowait, task_done, finish, end_run, execute_single_test, step, steps,
}

abbrev pub is_executing : Worker → Bool
is_executing (executing tc) = true
is_executing _ = false

-- How many workers execute a test.
abbrev pub running : Dict Worker → ℕ
running = count (λ e. is_executing e.1)

-- 1 for a worker that executes a test.
abbrev runs : Option Worker → ℕ
runs none = 0
runs (some w) = if is_executing w then 1 else 0

running-insert :
    (k : String) (w : Worker) (d : Dict Worker)
    → running (insert k w d) + runs (lookup k d) ≡ running d + runs (some w)
unfolding insert
running-insert k w [] = omega arith
running-insert k w ((j, u) ∷ d) = elim (Bool-cases (str_eq j k)) [
  | inl e ↦ rw e (omega arith)
  | inr e ↦ rw e (omega (arith, running-insert k w d))
]

module _ {Card : Type 0} where
  abbrev pub IsAccounted : Pool Card → Type 0
  IsAccounted p = p.unfinished ≡ length p.queue + running p.workers

  take_item-IsAccounted :
      (a : String) (p : Pool Card)
      → runs (lookup a p.workers) ≡ 0
      → IsAccounted p
      → IsAccounted (take_item a p)
  unfolding take_item task_done
  take_item-IsAccounted a p idle h = taken p.queue refl
    where
      taken :
          (q : List (Option TestCase))
          → p.queue ≡ q
          → IsAccounted (elim q [
            | [] ↦ record p { workers = insert a waiting p.workers }
            | none ∷ rest ↦ record p {
              queue = rest;
              unfinished = p.unfinished - 1;
              workers = insert a stopped p.workers;
            }
            | some tc ∷ rest ↦ record p {
              queue = rest;
              workers = insert a (executing tc) p.workers;
            }
          ])
      taken [] e = omega (arith, h, idle, running-insert a waiting p.workers)
      taken (none ∷ rest) e =
          omega (arith, h, idle, ap length e, running-insert a stopped p.workers)
      taken (some tc ∷ rest) e =
          omega (arith, h, idle, ap length e, running-insert a (executing tc) p.workers)

  go_on-IsAccounted : (a : String) (p : Pool Card) → IsAccounted p → IsAccounted (go_on a p)
  unfolding go_on loop_head
  go_on-IsAccounted a p h = at (lookup a p.workers) refl
    where
      head : (s : AgentStatus) → runs (lookup a p.workers) ≡ 0 → IsAccounted (loop_head a s p)
      head broken idle = omega (arith, h, idle, running-insert a stopped p.workers)
      head busy idle = h
      head available idle = take_item-IsAccounted a p idle h

      at :
          (o : Option Worker)
          → lookup a p.workers ≡ o
          → IsAccounted (elim o [
            | none ↦ p
            | some looping ↦ loop_head a (get_status (agent_of a p) p.registry) p
            | some waiting ↦ take_item a p
            | some (executing tc) ↦ p
            | some stopped ↦ p
          ])
      at none e = h
      at (some looping) e = head (get_status (agent_of a p) p.registry) (ap runs e)
      at (some waiting) e = take_item-IsAccounted a p (ap runs e) h
      at (some (executing tc)) e = h
      at (some stopped) e = h

module _ {Card : Type 0} (name : Card → String) (now : String) where
  handle_failure-IsAccounted :
      (a : String) (tc : TestCase) (message : String) (p : Pool Card)
      → runs (lookup a p.workers) ≡ 1
      → IsAccounted p
      → IsAccounted (handle_failure name now a tc message p)
  unfolding handle_failure task_done put_nowait
  handle_failure-IsAccounted a tc message p busy_one h =
      ground (
        arith,
        h,
        busy_one,
        running-insert a stopped p.workers,
        length-append p.queue (some tc ∷ []),
      )

  finish-IsAccounted :
      (a : String) (tc : TestCase) (o : Outcome) (p : Pool Card)
      → runs (lookup a p.workers) ≡ 1
      → IsAccounted p
      → IsAccounted (finish name now a tc o p)
  unfolding finish task_done
  finish-IsAccounted a tc (returned none) p one h =
      omega (arith, h, one, running-insert a looping p.workers)
  finish-IsAccounted a tc (returned (some result)) p one h =
      omega (arith, h, one, running-insert a looping p.workers)
  finish-IsAccounted a tc (raised message) p one h = handle_failure-IsAccounted a tc message p one h

  end_run-IsAccounted :
      (a : String) (x : Response) (p : Pool Card)
      → IsAccounted p
      → IsAccounted (end_run name now a x p)
  unfolding end_run
  end_run-IsAccounted a x p h = at (lookup a p.workers) refl
    where
      at :
          (o : Option Worker)
          → lookup a p.workers ≡ o
          → IsAccounted (elim o [
            | none ↦ p
            | some w ↦ elim w [
              | executing tc ↦
                  finish name now a tc
                    (execute_single_test (get_name name (agent_of a p) p.registry) now now tc x)
                    p
              | looping ↦ p
              | waiting ↦ p
              | stopped ↦ p
            ]
          ])
      at none e = h
      at (some looping) e = h
      at (some waiting) e = h
      at (some (executing tc)) e = finish-IsAccounted a tc _ p (ap runs e) h
      at (some stopped) e = h

  step-IsAccounted :
      (e : Event Card) (p : Pool Card) → IsAccounted p → IsAccounted (step name now e p)
  unfolding step
  step-IsAccounted (goes_on a) p h = go_on-IsAccounted a p h
  step-IsAccounted (ends a x) p h = end_run-IsAccounted a x p h
  step-IsAccounted (registry_call c) p h = h

  all_steps-IsAccounted :
      (es : List (Event Card)) (p : Pool Card) → IsAccounted p → IsAccounted (steps name now es p)
  all_steps-IsAccounted [] p h = h
  all_steps-IsAccounted (e ∷ es) p h =
      all_steps-IsAccounted es (step name now e p) (step-IsAccounted e p h)

  -- However the events of a group follow one another, the counter stays what it counts: the items in
  -- the queue and the tests that run. So `queue.join()` returns when and only when none is left.
  pub steps-IsAccounted :
      (es : List (Event Card)) (p : Pool Card)
      → IsAccounted p
      → IsAccounted (steps name now es p)
        × ((is_joined (steps name now es p) ≡ true)
            ↔ ((steps name now es p).queue ≡ []) × (running (steps name now es p).workers ≡ 0))
  steps-IsAccounted es p h =
      (all_steps-IsAccounted es p h, joined (steps name now es p) (all_steps-IsAccounted es p h))
    where
      empty : (l : List (Option TestCase)) → length l ≡ 0 → l ≡ []
      empty [] e = refl
      empty (x ∷ l) e = absurd (omega (arith, e))

      joined :
          (q : Pool Card)
          → IsAccounted q
          → (is_joined q ≡ true) ↔ ((q.queue ≡ []) × (running q.workers ≡ 0))
      joined q k = (
        λ j. (
          empty q.queue (omega (arith, (let z : q.unfinished ≡ 0 = ground (arith, j) in z), k)),
          omega (arith, (let z : q.unfinished ≡ 0 = ground (arith, j) in z), k),
        ),
        λ e. ground (arith, k, ap length e.0, e.1),
      )
