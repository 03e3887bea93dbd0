-- ===== src/Hub/Tests.antt =====
-- A subscriber's buffer at concrete events.
use qa_ai_native.Prelude.{[], ◌∷◌, arith, eq_iff}
use qa_ai_native.Hub.{agent_activity, log_batch, Heap, allocate, Subscriber, put, get}
use qa_ai_native.Hub.{Hub}
use qa_ai_native.Hub.Buffer.{IsValid}
use qa_ai_native.Hub.Put.{Puts, put-Puts, Gets, get-Gets}

abbrev empty_heap : Heap
empty_heap = record { cells = λ a. log_batch "" []; next = 0 }

-- An activity event is buffered; a batch of log lines is new.
abbrev heap : Heap
heap =
    allocate (log_batch "t1" ("line" ∷ []))
      (allocate (agent_activity "t1" "a" "thinking") empty_heap)

abbrev buffered : Subscriber
buffered = record { items = 0 ∷ []; activity_index = ("t1", 0) ∷ [] }

buffered-IsValid : IsValid 1 heap buffered
buffered-IsValid = record {
  roomy = omega arith;
  bounded = omega arith;
  fresh = (omega arith, tt);
  distinct = (tt, tt);
  indexed = ((λ t e. ground (arith, e, eq_iff "t1" t)), tt);
  sound = λ t a e. ground (arith, e, eq_iff "t1" t);
}

put-Puts_example : Puts 1 1 7 heap buffered (put 1 1 7 heap buffered)
put-Puts_example =
    put-Puts 1 1 7 heap buffered buffered-IsValid (omega arith) ((λ same. omega (arith, same)), tt)

get-Gets_example : Gets 1 heap buffered (get heap buffered)
get-Gets_example = get-Gets 1 heap buffered buffered-IsValid

abbrev hub : Hub
hub = record {
  heap = heap;
  global_subs = buffered ∷ [];
  agent_subs = ("a", buffered ∷ []) ∷ [];
  seq = 3;
}
