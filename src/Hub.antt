-- ===== src/Hub.antt =====
-- The streaming hub (orchestrator/streaming_hub.py) and the events that it carries
-- (common/streaming.py). An event is a dict object that the buffers of several subscribers and the
-- activity index of each share, and coalescing rewrites it in place: so events live on a heap and
-- buffers hold addresses. The waiting of `get` on the condition is a `none`.
pub mod Buffer
pub mod Index
pub mod Put
pub mod Subscriptions
mod Tests
use qa_ai_native.Prelude.{
  ℕ, zero, suc, ◌+◌, String, Bool, true, false, Option, none, some, List, [], ◌∷◌, ◌++◌, map,
  if◌then◌else◌, leb, ◌==◌, str_eq, length, is_some,
}
use qa_ai_native.Dict.{Dict, lookup, insert, erase}
use qa_ai_native.History.{TaskStatus, write_at}

pub data Event : Type 0 where
  -- task ID, agent ID, text
  agent_activity : String → String → String → Event
  -- task ID, lines
  log_batch : String → List String → Event
  -- task ID, agent ID, status, error message
  task_done : String → String → TaskStatus → Option String → Event
  -- reason, since, until
  gap : String → ℕ → ℕ → Event

-- `event.get("type") == "agent_activity" and event.get("task_id")`, with the ID.
abbrev pub activity_key : Event → Option String
activity_key (agent_activity task_id agent_id text) =
    if str_eq task_id "" then none else some task_id
activity_key _ = none

pub record Heap : Type 0 where
  pub cells : ℕ → Event
  pub next : ℕ

-- A new dict object.
abbrev pub allocate : Event → Heap → Heap
allocate e hp = record { cells = write_at hp.next e hp.cells; next = hp.next + 1 }

pub record Subscriber : Type 0 where
  pub items : List ℕ
  pub activity_index : Dict ℕ

abbrev pub new_subscriber : Subscriber
new_subscriber = record { items = []; activity_index = [] }

-- The entry of an event's task is deleted if it is this very object.
unfoldable pub discard_from_index : Heap → ℕ → Dict ℕ → Dict ℕ
discard_from_index hp a index = elim (activity_key (hp.cells a)) [
  | none ↦ index
  | some task_id ↦ elim (lookup task_id index) [
    | none ↦ index
    | some b ↦ if b == a then erase task_id index else index
  ]
]

-- The entry that a buffered activity event gets.
unfoldable pub enter_index : Heap → ℕ → Dict ℕ → Dict ℕ
enter_index hp a index = elim (activity_key (hp.cells a)) [
  | none ↦ index
  | some task_id ↦ insert task_id a index
]

-- The overflow branch of `_append`: the oldest event makes room for the gap sentinel, and the new
-- event is dropped too. `none` is the IndexError of a buffer of size 0.
unfoldable pub overflow : ℕ → Heap → Subscriber → Option (Heap × Subscriber)
unfolding discard_from_index
overflow seq hp s = elim s.items [
  | [] ↦ none
  | dropped ∷ rest ↦ some (
    allocate (gap "queue_overflow" seq seq) hp,
    record {
      items = rest ++ hp.next ∷ [];
      activity_index = discard_from_index hp dropped s.activity_index;
    },
  )
]

unfoldable pub append : ℕ → ℕ → ℕ → Heap → Subscriber → Option (Heap × Subscriber)
unfolding overflow enter_index
append maxsize a seq hp s =
    if leb maxsize (length s.items)
    then overflow seq hp s
    else some (
      hp,
      record { items = s.items ++ a ∷ []; activity_index = enter_index hp a s.activity_index },
    )

-- The buffered object with the same task, if there is one, takes the contents of the new event.
abbrev pub buffered_activity : Heap → ℕ → Subscriber → Option ℕ
buffered_activity hp a s = elim (activity_key (hp.cells a)) [
  | none ↦ none
  | some task_id ↦ lookup task_id s.activity_index
]

-- `_put_locked`
unfoldable pub put : ℕ → ℕ → ℕ → Heap → Subscriber → Option (Heap × Subscriber)
unfolding append
put maxsize a seq hp s = elim (buffered_activity hp a s) [
  | some existing ↦ some (record hp { cells = write_at existing (hp.cells a) hp.cells }, s)
  | none ↦ append maxsize a seq hp s
]

-- `get`: `none` while the buffer is empty.
unfoldable pub get : Heap → Subscriber → Option (ℕ × Subscriber)
unfolding discard_from_index
get hp s = elim s.items [
  | [] ↦ none
  | item ∷ rest ↦
      some (
        item,
        record { items = rest; activity_index = discard_from_index hp item s.activity_index },
      )
]

-- `drain`
unfoldable pub drain : Subscriber → Subscriber
drain s = record { items = []; activity_index = [] }

pub record Hub : Type 0 where
  pub heap : Heap
  pub global_subs : List Subscriber
  pub agent_subs : Dict (List Subscriber)
  pub seq : ℕ

-- The loop of a publication: every subscriber gets the same object.
unfoldable pub put_all : ℕ → ℕ → ℕ → Heap → List Subscriber → Option (Heap × List Subscriber)
unfolding put
put_all maxsize a seq hp [] = some (hp, [])
put_all maxsize a seq hp (s ∷ subs) = elim (put maxsize a seq hp s) [
  | none ↦ none
  | some (hp', s') ↦ elim (put_all maxsize a seq hp' subs) [
    | none ↦ none
    | some (hp'', subs') ↦ some (hp'', s' ∷ subs')
  ]
]

unfoldable pub publish_global : ℕ → Event → Hub → Option Hub
unfolding put_all
publish_global maxsize e hub =
    elim (put_all maxsize hub.heap.next hub.seq (allocate e hub.heap) hub.global_subs) [
      | none ↦ none
      | some (hp, subs) ↦ some (record hub { heap = hp; global_subs = subs; seq = hub.seq + 1 })
    ]

-- An agent without subscribers only takes a number.
unfoldable pub publish_agent : ℕ → String → Event → Hub → Option Hub
unfolding put_all
publish_agent maxsize agent_id e hub = elim (lookup agent_id hub.agent_subs) [
  | none ↦ some (record hub { heap = allocate e hub.heap; seq = hub.seq + 1 })
  | some subs ↦ elim (put_all maxsize hub.heap.next hub.seq (allocate e hub.heap) subs) [
    | none ↦ none
    | some (hp, subs') ↦ some (record hub {
      heap = hp;
      agent_subs = insert agent_id subs' hub.agent_subs;
      seq = hub.seq + 1;
    })
  ]
]

unfoldable pub shutdown : Hub → Hub
unfolding drain
shutdown hub = record hub {
  global_subs = map drain hub.global_subs;
  agent_subs = map (λ e. (e.0, map drain e.1)) hub.agent_subs;
}

-- `list.remove` of an object, by its place in the list.
abbrev pub remove_at {ℓ} : {A : Type ℓ} → ℕ → List A → List A
remove_at i [] = []
remove_at zero (x ∷ xs) = xs
remove_at (suc i) (x ∷ xs) = x ∷ remove_at i xs

-- The subscribers of an agent; a missing key has none.
abbrev pub subs_of : String → Hub → List Subscriber
subs_of agent_id hub = elim (lookup agent_id hub.agent_subs) [ none ↦ [] | some subs ↦ subs ]

-- `subscribe_global`, when its context is entered and when it is left.
unfoldable pub subscribe_global : Hub → Hub
subscribe_global hub = record hub { global_subs = hub.global_subs ++ new_subscriber ∷ [] }

unfoldable pub unsubscribe_global : ℕ → Hub → Hub
unsubscribe_global place hub = record hub { global_subs = remove_at place hub.global_subs }

-- `subscribe_agent`, in the same way. An agent without subscribers has no key.
unfoldable pub subscribe_agent : String → Hub → Hub
subscribe_agent agent_id hub = record hub {
  agent_subs = insert agent_id (subs_of agent_id hub ++ new_subscriber ∷ []) hub.agent_subs;
}

unfoldable pub unsubscribe_agent : String → ℕ → Hub → Hub
unsubscribe_agent agent_id place hub = elim (remove_at place (subs_of agent_id hub)) [
  | [] ↦ record hub { agent_subs = erase agent_id hub.agent_subs }
  | s ∷ subs ↦ record hub { agent_subs = insert agent_id (s ∷ subs) hub.agent_subs }
]
