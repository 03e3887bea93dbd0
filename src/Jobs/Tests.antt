-- ===== src/Jobs/Tests.antt =====
-- Three jobs, two at a time.
use qa_ai_native.Prelude.{◌≡◌, refl, ◌⊎◌, true, some, none, List, [], ◌∷◌, String, arith}
use qa_ai_native.Jobs.{State, Event, enqueued, taken, acquired, ended, new_state, step, run_events}
use qa_ai_native.Jobs.Order.{IsSound, CanStep, jobs-in_order}

abbrev events : List (Event String)
events =
    enqueued "a"
    ∷ enqueued "b"
    ∷ enqueued "c"
    ∷ taken
    ∷ taken
    ∷ taken
    ∷ acquired
    ∷ acquired
    ∷ ended 0 true
    ∷ acquired
    ∷ []

abbrev after_events : State String
after_events = record {
  queue = [];
  unfinished = 2;
  waiting = [];
  running = "b" ∷ "c" ∷ [];
  started = "a" ∷ "b" ∷ "c" ∷ [];
  errors = 1;
}

ran : run_events 2 events new_state ≡ some after_events
unfolding run_events
ran = refl

no_third : step 2 acquired (record after_events { waiting = "d" ∷ [] }) ≡ none
unfolding step
no_third = refl

jobs-in_order_example :
    IsSound 2 ("a" ∷ "b" ∷ "c" ∷ []) after_events
    × ((after_events.unfinished ≡ 0) ⊎ CanStep 2 after_events)
jobs-in_order_example = jobs-in_order 2 events after_events (omega arith) ran
