-- ===== src/Selection/Jobs/Tests.antt =====
-- The agents of a concrete group.
use qa_ai_native.Prelude.{String, ◌≡◌, refl, some, none, List, [], ◌∷◌, All}
use qa_ai_native.Dict.{Dict, insert}
use qa_ai_native.Registry.{
  broken, offline, Registry, empty_registry, is_empty, register, has_agent, update_status,
  mark_broken, get_available_agents,
}
use qa_ai_native.Registry.Invariant.{
  IsValid, updating, registering, perform_all, perform_all-empty-IsValid,
}
use qa_ai_native.TestCases.{TestCase}
use qa_ai_native.Selection.{Asked, selected, request_all_test_cases_execution}
use qa_ai_native.Selection.Jobs.{IsStaffed, request_execution-IsStaffed}

abbrev agents : Registry String
agents = perform_all (registering "a" "Coder" ∷ []) empty_registry

-- The model names one agent that does not exist; the other one breaks while it is asked.
abbrev asked : String → Asked String
asked label = record {
  before = agents;
  meanwhile = updating "a" broken (some offline) none ∷ [];
  answer = selected ("a" ∷ "ghost" ∷ []);
}

abbrev groups : Dict (List TestCase)
groups = ("UI", []) ∷ []

abbrev agents-IsValid : (label : String) → IsValid agents
agents-IsValid label = perform_all-empty-IsValid (registering "a" "Coder" ∷ [])

broken_agent_chosen :
    request_all_test_cases_execution 2 agents asked groups
    ≡ record { label = "UI"; test_cases = []; agent_ids = "a" ∷ [] } ∷ []
unfolding request_all_test_cases_execution is_empty register empty_registry insert has_agent
    update_status mark_broken get_available_agents
broken_agent_chosen = refl

request_execution-IsStaffed_example :
    All (IsStaffed 2 asked) (request_all_test_cases_execution 2 agents asked groups)
request_execution-IsStaffed_example =
    request_execution-IsStaffed 2 asked agents-IsValid agents groups
