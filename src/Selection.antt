-- ===== src/Selection.antt =====
-- The choice of the agents that execute a group of tests (orchestrator/main.py):
-- `_select_all_suitable_agent_ids`, `_select_execution_agents_for_each_test_label` and
-- `_request_all_test_cases_execution`. The labels are asked for at the same time. For each one the
-- registry when its available agents are read, what other tasks do to it until the model answers, and
-- the answer are inputs.
pub mod Jobs
use qa_ai_native.Prelude.{
  ℕ, String, Bool, true, false, ◌&&◌, Option, none, some, List, [], ◌∷◌, if◌then◌else◌, filter, map,
}
use qa_ai_native.Dict.{Dict, lookup, insert, elem}
use qa_ai_native.Registry.{Registry, is_empty, has_agent, get_available_agents}
use qa_ai_native.Registry.Invariant.{Call, perform_all}
use qa_ai_native.TestCases.{TestCase}

-- What asking the model comes to.
pub data Answer : Type 0 where
  failed : Answer
  selected : List String → Answer

-- What the request for one label meets.
pub record Asked (Card : Type 0) : Type 0 where
  pub before : Registry Card
  pub meanwhile : List (Call Card)
  pub answer : Answer

-- A group of tests that is executed, with its agents.
pub record Job : Type 0 where
  pub label : String
  pub test_cases : List TestCase
  pub agent_ids : List String

module _ {Card : Type 0} (max_slots : ℕ) where
  -- The chosen agents that are registered after the answer, and were available before it.
  unfoldable pub select_all_suitable_agent_ids :
      Registry Card → Registry Card → List String → List String
  select_all_suitable_agent_ids before after ids =
      filter (λ a. has_agent a after && elem a (get_available_agents max_slots before)) ids

  abbrev pub agents_for : Asked Card → List String
  agents_for asked = elim asked.answer [
    | failed ↦ []
    | selected ids ↦
        select_all_suitable_agent_ids asked.before (perform_all asked.meanwhile asked.before) ids
  ]

  -- The loop over the labels and the results.
  unfoldable pub select_for_labels : (String → Asked Card) → List String → Dict (List String)
  unfolding select_all_suitable_agent_ids
  select_for_labels asked [] = []
  select_for_labels asked (label ∷ labels) =
      (label, agents_for (asked label)) ∷ select_for_labels asked labels

  -- `r` is the registry at the start.
  unfoldable pub select_execution_agents_for_each_test_label :
      Registry Card → (String → Asked Card) → List String → Dict (List String)
  unfolding select_for_labels
  select_execution_agents_for_each_test_label r asked labels =
      if is_empty r then map (λ label. (label, [])) labels else select_for_labels asked labels

-- The groups with agents, each with what the mapping has for its label.
unfoldable pub jobs_of : Dict (List TestCase) → Dict (List String) → List Job
jobs_of [] mapping = []
jobs_of ((label, tests) ∷ groups) mapping =
    let rest = jobs_of groups mapping in
    elim (lookup label mapping) [
      | none ↦ rest
      | some agent_ids ↦ elim agent_ids [
        | [] ↦ rest
        | a ∷ ids ↦ record { label = label; test_cases = tests; agent_ids = a ∷ ids } ∷ rest
      ]
    ]

abbrev pub labels_of : Dict (List TestCase) → List String
labels_of [] = []
labels_of ((label, tests) ∷ groups) = label ∷ labels_of groups

-- `_request_all_test_cases_execution`, up to the execution of the groups.
unfoldable pub request_all_test_cases_execution :
    {Card : Type 0} → ℕ → Registry Card → (String → Asked Card) → Dict (List TestCase) → List Job
unfolding jobs_of select_execution_agents_for_each_test_label
request_all_test_cases_execution max_slots r asked groups =
    jobs_of groups
      (select_execution_agents_for_each_test_label max_slots r asked (labels_of groups))
