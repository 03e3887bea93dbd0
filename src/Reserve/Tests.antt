-- ===== src/Reserve/Tests.antt =====
-- Reservations at a concrete registry.
use qa_ai_native.Prelude.{◌≡◌, refl, ℕ, String, none, some, List, [], ◌∷◌, arith}
use qa_ai_native.Dict.{insert, lookup-insert}
use qa_ai_native.Registry.{
  available, broken, offline, Registry, empty_registry, register, update_status, mark_broken,
  get_available_agents, get_card, is_empty,
}
use qa_ai_native.Registry.Invariant.{
  registering, updating, IsValid, perform_all, perform_all-empty-IsValid,
}
use qa_ai_native.Reserve.{
  called, reserving, Round, wait_timeout, selection_failed, join, get_agents_info, select_agent,
  recheck_and_take, reserve_round, wait_for_agent, reserve_agent_waiting_if_needed,
}
use qa_ai_native.Reserve.Bounds.{IsBounded, Granted, reserve_agent_sound}

-- A card is its name here.
abbrev agents : Registry String
agents = perform_all (registering "a" "Coder" ∷ []) empty_registry

abbrev name_of : String → String
name_of c = c

abbrev skills_of : String → List String
skills_of c = "testing" ∷ []

abbrev pass : Round String
pass = record {
  before_lock = called (updating "a" available none none) ∷ reserving "a" ∷ [];
  during_selection = updating "a" available none none ∷ [];
  answer = some "a";
}

-- The agent breaks while the model is asked.
abbrev breaking : Round String
breaking = record {
  before_lock = [];
  during_selection = updating "a" broken (some offline) none ∷ [];
  answer = some "a";
}

described :
    get_agents_info name_of skills_of ("a" ∷ []) agents ≡ "- Name: Coder, ID: a, Skills: testing\n"
unfolding get_agents_info join register empty_registry insert
described = refl

broken_in_between :
    (reserve_agent_waiting_if_needed name_of skills_of 1 (breaking ∷ []) agents).1 ≡ wait_timeout
unfolding reserve_agent_waiting_if_needed wait_for_agent reserve_round select_agent recheck_and_take
    get_agents_info join get_available_agents get_card is_empty register empty_registry insert
    update_status mark_broken
broken_in_between = refl

agents-IsBounded : IsBounded 1 agents
unfolding register empty_registry
agents-IsBounded a = ground (arith, lookup-insert {V = ℕ} "a" a 0 [])

agents-IsValid : IsValid agents
agents-IsValid = perform_all-empty-IsValid (registering "a" "Coder" ∷ [])

reserve_agent_sound_example :
    let (r', outcome) =
      reserve_agent_waiting_if_needed name_of skills_of 1 (breaking ∷ pass ∷ []) agents in
    IsValid r' × IsBounded 1 r' × Granted 1 r' outcome
reserve_agent_sound_example =
    reserve_agent_sound name_of skills_of 1 (breaking ∷ pass ∷ []) agents agents-IsValid
      agents-IsBounded ((tt, (tt, tt)), (((tt, (tt, tt)), (tt, tt)), tt))

-- The model's call raises.
abbrev failing : Round String
failing = record { before_lock = []; during_selection = []; answer = none }

exception_passed_on :
    (reserve_agent_waiting_if_needed name_of skills_of 1 (failing ∷ pass ∷ []) agents).1
    ≡ selection_failed
unfolding reserve_agent_waiting_if_needed get_agents_info join get_available_agents is_empty
    register empty_registry insert
exception_passed_on = refl
