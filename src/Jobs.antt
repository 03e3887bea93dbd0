-- ===== src/Jobs.antt =====
-- The consumer of the pipeline's queue (orchestrator/main.py, `_pipeline_consumer`): a state and a
-- step function over events. A job is a parameter; that it ends, and how, is an event.
pub mod Order
mod Tests
use qa_ai_native.Prelude.{
  ℕ, zero, suc, ◌+◌, ◌-◌, Bool, true, false, Option, none, some, List, [], ◌∷◌, ◌++◌, length, ltb,
  if◌then◌else◌,
}

-- The queue with its count of unfinished jobs; the tasks that wait for the semaphore, longest first;
-- those that run; the jobs that were started, in order; the number of recorded errors.
pub record State (J : Type 0) : Type 0 where
  pub queue : List J
  pub unfinished : ℕ
  pub waiting : List J
  pub running : List J
  pub started : List J
  pub errors : ℕ

pub data Event (J : Type 0) : Type 0 where
  -- `_pipeline_queue.put` in an endpoint
  enqueued : J → Event J
  -- the consumer gets a job and creates its task
  taken : Event J
  -- a task gets the semaphore
  acquired : Event J
  -- the running job at a place ends, or raises
  ended : ℕ → Bool → Event J

module _ {J : Type 0} where
  abbrev pub new_state : State J
  new_state = record {
    queue = [];
    unfinished = 0;
    waiting = [];
    running = [];
    started = [];
    errors = 0;
  }

  abbrev pub take_job : List J → State J → Option (State J)
  take_job [] s = none
  take_job (j ∷ queue) s = some (record s { queue = queue; waiting = s.waiting ++ j ∷ [] })

  abbrev pub start_job : List J → State J → Option (State J)
  start_job [] s = none
  start_job (j ∷ waiting) s =
      some (record s {
        waiting = waiting;
        running = s.running ++ j ∷ [];
        started = s.started ++ j ∷ [];
      })

  abbrev pub remove_at : ℕ → List J → Option (List J)
  remove_at n [] = none
  remove_at zero (j ∷ l) = some l
  remove_at (suc n) (j ∷ l) = elim (remove_at n l) [ none ↦ none | some rest ↦ some (j ∷ rest) ]

  -- `task_done`, which raises a `ValueError` when it is called too often.
  abbrev pub task_done : ℕ → State J → Option (State J)
  task_done zero s = none
  task_done (suc n) s = some (record s { unfinished = n })

  abbrev pub end_job : Bool → Option (List J) → State J → Option (State J)
  end_job raised none s = none
  end_job raised (some running) s =
      task_done s.unfinished
        (record s { running = running; errors = if raised then s.errors + 1 else s.errors })

  -- The state after an event; `none` if it cannot happen.
  unfoldable pub step : ℕ → Event J → State J → Option (State J)
  step max (enqueued j) s =
      some (record s { queue = s.queue ++ j ∷ []; unfinished = s.unfinished + 1 })
  step max taken s = take_job s.queue s
  step max acquired s = if ltb (length s.running) max then start_job s.waiting s else none
  step max (ended n raised) s = end_job raised (remove_at n s.running) s

  abbrev pub then_run : (State J → Option (State J)) → Option (State J) → Option (State J)
  then_run f none = none
  then_run f (some s) = f s

  unfoldable pub run_events : ℕ → List (Event J) → State J → Option (State J)
  unfolding step
  run_events max [] s = some s
  run_events max (e ∷ es) s = then_run (run_events max es) (step max e s)
