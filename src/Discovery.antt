-- ===== src/Discovery.antt =====
-- Agent discovery (orchestrator/main.py): `_process_url_discovery`, `_discover_agents` and
-- `_discover_agents_with_startup_retry`. The fetched cards, the new agent IDs, the parsed
-- configuration and the order of what happens are inputs.
pub mod Unique
use Prim.Native.String.{◌++◌ as str_append}
use qa_ai_native.Prelude.{
  ℕ, zero, suc, ◌+◌, ◌-◌, String, Bool, false, Option, none, some, List, [], ◌∷◌, ◌++◌,
  if◌then◌else◌, length, ◌==◌, true, str_eq,
}
use qa_ai_native.Dict.{truthy, elem}
use qa_ai_native.Registry.{Registry, register, get_agent_id_by_url}
use qa_ai_native.Registry.Invariant.{Call, perform}

-- `range(start, end + 1)`, by the number of ports.
abbrev pub ports : ℕ → ℕ → List ℕ
ports start zero = []
ports start (suc n) = start ∷ ports (start + 1) n

module _ (digits : ℕ → String) where
  abbrev pub urls_of_host : String → List ℕ → List String
  urls_of_host base_url [] = []
  urls_of_host base_url (port ∷ ps) =
      str_append base_url (str_append ":" (digits port)) ∷ urls_of_host base_url ps

  -- `remote_agent_urls`
  unfoldable pub remote_agent_urls : List String → ℕ → ℕ → List String
  remote_agent_urls [] start_port end_port = []
  remote_agent_urls (base_url ∷ hosts) start_port end_port =
      urls_of_host base_url (ports start_port (end_port + 1 - start_port))
      ++ remote_agent_urls hosts start_port end_port

-- What a fetch gives: the card, if any, and the ID drawn for a new agent.
pub record Found (Card : Type 0) : Type 0 where
  pub card : Option Card
  pub new_agent_id : String

-- The URLs whose coroutine has not started and those whose card is being fetched; `raised` is the
-- IndexError of a card without interfaces, which `gather` passes on.
pub record State (Card : Type 0) : Type 0 where
  pub registry : Registry Card
  pub unstarted : List String
  pub fetching : List String
  pub raised : Bool

-- The coroutine of a URL starts, the fetch of its card ends, or another task calls the registry.
pub data Event (Card : Type 0) : Type 0 where
  starts : String → Event Card
  fetched : String → Found Card → Event Card
  registry_call : Call Card → Event Card

-- The list without the first such URL.
abbrev pub remove_url : String → List String → List String
remove_url url [] = []
remove_url url (u ∷ us) = let rest = remove_url url us in if str_eq u url then us else u ∷ rest

module _ {Card : Type 0} (first_url : Card → Option String) where
  -- `_process_url_discovery` up to the fetch: a known URL is skipped.
  unfoldable pub begin_url_discovery : String → State Card → State Card
  begin_url_discovery url s =
      let unstarted = remove_url url s.unstarted in
      if truthy (get_agent_id_by_url first_url url s.registry)
      then record s { unstarted = unstarted }
      else record s { unstarted = unstarted; fetching = url ∷ s.fetching }

  abbrev pub register_card : String → Card → Option String → State Card → State Card
  register_card new_agent_id card none s = record s { raised = true }
  register_card new_agent_id card (some card_url) s =
      if truthy (get_agent_id_by_url first_url card_url s.registry)
      then s
      else record s { registry = register new_agent_id card s.registry }

  -- `_process_url_discovery` from the fetched card on. There is no other task between the second look
  -- and the registration: the lock of the registry is never held at a suspension.
  unfoldable pub end_url_discovery : Found Card → State Card → State Card
  end_url_discovery found s = elim found.card [
    | none ↦ s
    | some card ↦ register_card found.new_agent_id card (first_url card) s
  ]

  -- An event of a URL that is not at that point changes nothing.
  unfoldable pub step : Event Card → State Card → State Card
  unfolding begin_url_discovery end_url_discovery
  step (starts url) s = if elem url s.unstarted then begin_url_discovery url s else s
  step (fetched url found) s =
      if elem url s.fetching
      then end_url_discovery found (record s { fetching = remove_url url s.fetching })
      else s
  step (registry_call c) s = record s { registry = perform c s.registry }

  abbrev pub steps : List (Event Card) → State Card → State Card
  steps [] s = s
  steps (e ∷ es) s = steps es (step e s)

  abbrev pub start : List String → Registry Card → State Card
  start urls r = record { registry = r; unstarted = urls; fetching = []; raised = false }

  -- `_discover_agents`, where `gather` runs the coroutines of all URLs at the same time: the events
  -- follow one another in any order.
  unfoldable pub discover_agents : List String → List (Event Card) → Registry Card → State Card
  unfolding step
  discover_agents urls events r = steps events (start urls r)

  -- The attempts at startup, with the events of each, until two attempts in a row leave the same
  -- number of agents; an exception ends them. The result has the number of attempts made.
  unfoldable pub discover_with_startup_retry :
      List String → List (List (Event Card)) → Option ℕ → Registry Card → Option (Registry Card × ℕ)
  unfolding discover_agents
  discover_with_startup_retry urls [] previous_count r = some (r, 0)
  discover_with_startup_retry urls (events ∷ attempts) previous_count r =
      let s = discover_agents urls events r in
      let count = length s.registry.cards in
      let rest = discover_with_startup_retry urls attempts (some count) s.registry in
      if s.raised
      then none
      else if elim previous_count [ none ↦ false | some n ↦ count == n ]
      then some (s.registry, 1)
      else elim rest [ none ↦ none | some (r', made) ↦ some (r', made + 1) ]
