-- ===== src/Registry/Tests.antt =====
-- Runs of the registry at concrete inputs.
use qa_ai_native.Prelude.{◌≡◌, refl, String, none, some, List, [], ◌∷◌}
use qa_ai_native.Dict.{insert}
use qa_ai_native.Registry.{
  busy, broken, offline, Registry, empty_registry, register, update_status, get_status, slots_of,
  get_available_agents, get_broken_agents, mark_busy, mark_broken,
}
use qa_ai_native.Registry.Invariant.{
  Call, registering, updating, IsValid, perform_all, perform_all-empty-IsValid,
}
use qa_ai_native.Registry.Slots.{reserve_times, release_times, release-reserve}

-- A card is its name here.
abbrev calls : List (Call String)
calls = registering "a" "Coder" ∷ registering "b" "Tester" ∷ []

abbrev agents : Registry String
agents = perform_all calls empty_registry

abbrev busy_agents : Registry String
busy_agents = perform_all (updating "a" busy none none ∷ updating "a" busy none none ∷ []) agents

agents-IsValid : IsValid agents
agents-IsValid = perform_all-empty-IsValid calls

busy_twice : slots_of "a" busy_agents ≡ 2
unfolding register update_status empty_registry insert mark_busy
busy_twice = refl

full_agent_hidden : get_available_agents 2 busy_agents ≡ "b" ∷ []
unfolding register update_status empty_registry get_available_agents insert mark_busy
full_agent_hidden = refl

broken_listed :
    get_broken_agents (update_status "b" broken (some offline) none agents)
    ≡ ("b", (some offline, none)) ∷ []
unfolding register update_status empty_registry get_broken_agents insert mark_broken
broken_listed = refl

perform_all-empty-IsValid_example : IsValid agents
perform_all-empty-IsValid_example =
    perform_all-empty-IsValid (registering "a" "Coder" ∷ registering "b" "Tester" ∷ [])

release-reserve_example :
    let r' = release_times 1 "a" (reserve_times 2 "a" agents) in
    (slots_of "a" r' ≡ 1) × (get_status "a" r' ≡ busy)
unfolding register empty_registry insert
release-reserve_example = release-reserve 1 1 "a" agents agents-IsValid refl
