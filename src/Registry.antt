-- ===== src/Registry.antt =====
-- The agent registry (orchestrator/models.py): `AgentStatus`, `BrokenReason` and `AgentRegistry`
-- with its six dicts. Each method runs under the registry's lock, so it is one function of the
-- state. An agent card is a type of the A2A library: the registry is generic in it, and takes what
-- it reads of a card (the name, the URL of the first interface) as functions.
pub mod Invariant
pub mod Queries
pub mod Slots
mod Tests
use qa_ai_native.Prelude.{
  ℕ, ◌+◌, ◌-◌, String, Bool, true, false, not, ◌&&◌, Option, none, some, List, [], ◌∷◌, ◌++◌,
  if◌then◌else◌, ltb, ◌==◌, str_eq, filter, last?,
}
use qa_ai_native.Dict.{Dict, lookup, contains, insert, erase, keys, truthy}

pub data AgentStatus : Type 0 where
  available busy broken : AgentStatus

pub data BrokenReason : Type 0 where
  offline task_stuck : BrokenReason

-- `status == AgentStatus.BROKEN`
abbrev pub is_broken : AgentStatus → Bool
is_broken broken = true
is_broken _ = false

pub record Registry (Card : Type 0) : Type 0 where
  pub cards : Dict Card
  pub statuses : Dict AgentStatus
  pub broken_reasons : Dict BrokenReason
  pub stuck_task_ids : Dict String
  pub current_tasks : Dict (List String)
  pub busy_slots : Dict ℕ

-- `d.get(k, default)`
abbrev pub or_default {ℓ} : {A : Type ℓ} → A → Option A → A
or_default d none = d
or_default d (some a) = a

module _ {Card : Type 0} where
  -- `AgentRegistry()`
  unfoldable pub empty_registry : Registry Card
  empty_registry = record {
    cards = [];
    statuses = [];
    broken_reasons = [];
    stuck_task_ids = [];
    current_tasks = [];
    busy_slots = [];
  }

  abbrev pub slots_of : String → Registry Card → ℕ
  slots_of agent_id r = or_default 0 (lookup agent_id r.busy_slots)

  unfoldable pub get_card : String → Registry Card → Option Card
  get_card agent_id r = lookup agent_id r.cards

  unfoldable pub get_name : (Card → String) → String → Registry Card → String
  get_name name agent_id r = elim (lookup agent_id r.cards) [ none ↦ "Unknown" | some c ↦ name c ]

  unfoldable pub register : String → Card → Registry Card → Registry Card
  register agent_id card r =
      if contains agent_id r.statuses
      then record r { cards = insert agent_id card r.cards }
      else record r {
        cards = insert agent_id card r.cards;
        statuses = insert agent_id available r.statuses;
        busy_slots = insert agent_id 0 r.busy_slots;
      }

  -- The BUSY branch of `update_status`: one more slot is taken.
  unfoldable pub mark_busy : String → Registry Card → Registry Card
  mark_busy agent_id r = record r {
    busy_slots = insert agent_id (slots_of agent_id r + 1) r.busy_slots;
    statuses = insert agent_id busy r.statuses;
  }

  -- The AVAILABLE branch: one slot fewer, and a clean AVAILABLE agent when none is left.
  unfoldable pub mark_available : String → Registry Card → Registry Card
  mark_available agent_id r =
      let slots = slots_of agent_id r - 1 in
      if slots == 0
      then record r {
        busy_slots = insert agent_id slots r.busy_slots;
        statuses = insert agent_id available r.statuses;
        broken_reasons = erase agent_id r.broken_reasons;
        stuck_task_ids = erase agent_id r.stuck_task_ids;
        current_tasks = erase agent_id r.current_tasks;
      }
      else record r { busy_slots = insert agent_id slots r.busy_slots }

  -- The BROKEN branch: the reason is kept if one is given, the task only beside a reason.
  unfoldable pub mark_broken :
      String → Option BrokenReason → Option String → Registry Card → Registry Card
  mark_broken agent_id none stuck r = record r { statuses = insert agent_id broken r.statuses }
  mark_broken agent_id (some reason) stuck r = record r {
    statuses = insert agent_id broken r.statuses;
    broken_reasons = insert agent_id reason r.broken_reasons;
    stuck_task_ids =
        if truthy stuck
        then insert agent_id (or_default "" stuck) r.stuck_task_ids
        else r.stuck_task_ids;
  }

  -- The three branches of `update_status` by the new status.
  mark : AgentStatus → String → Option BrokenReason → Option String → Registry Card → Registry Card
  mark busy agent_id reason stuck = mark_busy agent_id
  mark available agent_id reason stuck = mark_available agent_id
  mark broken agent_id reason stuck = mark_broken agent_id reason stuck

  -- An agent without a card is left alone.
  unfoldable pub update_status :
      String → AgentStatus → Option BrokenReason → Option String → Registry Card → Registry Card
  unfolding mark
  update_status agent_id status reason stuck r =
      if contains agent_id r.cards then mark status agent_id reason stuck r else r

  unfoldable pub set_current_task : String → Option String → Registry Card → Registry Card
  set_current_task agent_id task_id r =
      if truthy task_id
      then record r {
        current_tasks =
            insert agent_id
              (or_default [] (lookup agent_id r.current_tasks) ++ or_default "" task_id ∷ [])
              r.current_tasks;
      }
      else record r { current_tasks = erase agent_id r.current_tasks }

  unfoldable pub get_current_task : String → Registry Card → Option String
  get_current_task agent_id r = elim (lookup agent_id r.current_tasks) [
    | none ↦ none
    | some tasks ↦ last? tasks
  ]

  unfoldable pub get_current_tasks : String → Registry Card → List String
  get_current_tasks agent_id r = or_default [] (lookup agent_id r.current_tasks)

  unfoldable pub get_status : String → Registry Card → AgentStatus
  get_status agent_id r = or_default broken (lookup agent_id r.statuses)

  unfoldable pub get_broken_context : String → Registry Card → Option BrokenReason × Option String
  get_broken_context agent_id r =
      (lookup agent_id r.broken_reasons, lookup agent_id r.stuck_task_ids)

  unfoldable pub remove : String → Registry Card → Registry Card
  remove agent_id r = record {
    cards = erase agent_id r.cards;
    statuses = erase agent_id r.statuses;
    broken_reasons = erase agent_id r.broken_reasons;
    stuck_task_ids = erase agent_id r.stuck_task_ids;
    current_tasks = erase agent_id r.current_tasks;
    busy_slots = erase agent_id r.busy_slots;
  }

  unfoldable pub is_empty : Registry Card → Bool
  is_empty r = elim r.cards [ [] ↦ true | _ ∷ _ ↦ false ]

  unfoldable pub has_agent : String → Registry Card → Bool
  has_agent agent_id r = contains agent_id r.cards

  unfoldable pub get_valid_agents : Registry Card → List String
  get_valid_agents r = keys (filter (λ e. not (is_broken e.1) && contains e.0 r.cards) r.statuses)

  -- An agent that may take one more task, by the entry of its status.
  abbrev pub has_free_slot : ℕ → Registry Card → String × AgentStatus → Bool
  has_free_slot max_slots r e =
      not (is_broken e.1) && (contains e.0 r.cards && ltb (slots_of e.0 r) max_slots)

  unfoldable pub get_available_agents : ℕ → Registry Card → List String
  get_available_agents max_slots r = keys (filter (has_free_slot max_slots r) r.statuses)

  -- The loop of `get_agent_id_by_url` over the cards.
  unfoldable pub id_by_url : (Card → Option String) → String → Dict Card → Option String
  id_by_url first_url url [] = none
  id_by_url first_url url ((agent_id, card) ∷ d) =
      if elim (first_url card) [ none ↦ false | some u ↦ str_eq u url ]
      then some agent_id
      else id_by_url first_url url d

  unfoldable pub get_agent_id_by_url :
      (Card → Option String) → String → Registry Card → Option String
  unfolding id_by_url
  get_agent_id_by_url first_url url r = id_by_url first_url url r.cards

  -- The loop of `get_broken_agents` over the statuses.
  unfoldable pub broken_among :
      Registry Card → Dict AgentStatus → Dict (Option BrokenReason × Option String)
  unfolding get_broken_context
  broken_among r [] = []
  broken_among r ((agent_id, status) ∷ d) =
      let rest = broken_among r d in
      if is_broken status then (agent_id, get_broken_context agent_id r) ∷ rest else rest

  unfoldable pub get_broken_agents : Registry Card → Dict (Option BrokenReason × Option String)
  unfolding broken_among
  get_broken_agents r = broken_among r r.statuses
