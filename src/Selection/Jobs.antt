-- ===== src/Selection/Jobs.antt =====
-- Only agents that can work are given tests.
mod Tests
use mathlib.Core.Path.{subst}
use qa_ai_native.Prelude.{
  ℕ, ◌<◌, ◌≡◌, ◌≢◌, refl, ap, ◌∙◌, String, Bool, true, false, Option, none, some, List, [], ◌∷◌,
  arith, All, filter, eq_iff, Bool-cases, Option-cases, inl, inr, map, if◌then◌else◌, str_eq, ◌&&◌,
}
use qa_ai_native.Dict.{Dict, lookup, elem}
use qa_ai_native.Registry.{
  broken, Registry, is_empty, has_agent, get_status, slots_of, get_available_agents,
}
use qa_ai_native.Registry.Invariant.{IsValid, perform_all}
use qa_ai_native.Registry.Queries.{elem-get_available_agents}
use qa_ai_native.TestCases.{TestCase}
use qa_ai_native.Selection.{
  Answer, Asked, failed, selected, Job, select_all_suitable_agent_ids, agents_for,
  select_for_labels, select_execution_agents_for_each_test_label, jobs_of, labels_of,
  request_all_test_cases_execution,
}

module _ {Card : Type 0} (max_slots : ℕ) (asked : String → Asked Card) where
  -- An agent that was registered, not BROKEN and with a free slot when the agents for the label were
  -- read, and that is registered when the model has answered.
  abbrev pub CouldWork : String → String → Type 0
  CouldWork label a =
      let q = asked label in
      ((has_agent a q.before ≡ true)
        × (get_status a q.before ≢ broken)
        × (slots_of a q.before < max_slots))
      × (has_agent a (perform_all q.meanwhile q.before) ≡ true)

  -- The job has some agent, and all its agents could work for its label.
  abbrev pub IsStaffed : Job → Type 0
  IsStaffed job = (job.agent_ids ≢ []) × All (CouldWork job.label) job.agent_ids

module _ {Card : Type 0} (max_slots : ℕ) (asked : String → Asked Card)
    (v : (label : String) → IsValid (asked label).before) where
  suitable_ids-CouldWork :
      (label : String) (ids : List String)
      → let q = asked label in
        All
          (CouldWork max_slots asked label)
          (select_all_suitable_agent_ids max_slots q.before (perform_all q.meanwhile q.before) ids)
  unfolding select_all_suitable_agent_ids
  suitable_ids-CouldWork label [] = tt
  suitable_ids-CouldWork label (a ∷ ids) =
      let q = asked label in
      let after : Registry Card = perform_all q.meanwhile q.before in
      elim (Bool-cases (has_agent a after && elem a (get_available_agents max_slots q.before))) [
        | inl e ↦ rw e (
          (
            (elem-get_available_agents max_slots a q.before (v label)).0 (ground (arith, e)),
            ground (arith, e),
          ),
          suitable_ids-CouldWork label ids,
        )
        | inr e ↦ rw e (suitable_ids-CouldWork label ids)
      ]

  agents_for-CouldWork :
      (label : String) → All (CouldWork max_slots asked label) (agents_for max_slots (asked label))
  agents_for-CouldWork label = at (asked label).answer
    where
      at :
          (answer : Answer)
          → let q = asked label in
            All (CouldWork max_slots asked label) (elim answer as (λ _. List String) [
              | failed ↦ []
              | selected ids ↦
                  select_all_suitable_agent_ids max_slots q.before
                    (perform_all q.meanwhile q.before)
                    ids
            ])
      at failed = tt
      at (selected ids) = suitable_ids-CouldWork label ids

  -- The agents of a mapping could all work, each for its label.
  abbrev AllCouldWork : Dict (List String) → Type 0
  AllCouldWork mapping =
      (label : String) (ids : List String)
      → lookup label mapping ≡ some ids
      → All (CouldWork max_slots asked label) ids

  select_for_labels-AllCouldWork :
      (labels : List String) → AllCouldWork (select_for_labels max_slots asked labels)
  unfolding select_for_labels
  select_for_labels-AllCouldWork [] label ids h = absurd (ground (arith, h))
  select_for_labels-AllCouldWork (l ∷ labels) label ids h = elim (Bool-cases (str_eq l label)) [
    | inl e ↦
        let here : agents_for max_slots (asked l) ≡ ids = ground (arith, e, h) in
        subst (λ k. All (CouldWork max_slots asked k) ids) ((eq_iff l label).0 e)
          (subst (All (CouldWork max_slots asked l)) here (agents_for-CouldWork l))
    | inr e ↦ select_for_labels-AllCouldWork labels label ids (rw e at h)
  ]

  no_agents-AllCouldWork : (labels : List String) → AllCouldWork (map (λ label. (label, [])) labels)
  no_agents-AllCouldWork [] label ids h = absurd (ground (arith, h))
  no_agents-AllCouldWork (l ∷ labels) label ids h = elim (Bool-cases (str_eq l label)) [
    | inl e ↦
        let here : [] ≡ ids = ground (arith, e, h) in
        subst (All (CouldWork max_slots asked label)) here tt
    | inr e ↦ no_agents-AllCouldWork labels label ids (rw e at h)
  ]

  jobs_of-IsStaffed :
      (groups : Dict (List TestCase)) (mapping : Dict (List String))
      → AllCouldWork mapping
      → All (IsStaffed max_slots asked) (jobs_of groups mapping)
  unfolding jobs_of
  jobs_of-IsStaffed [] mapping h = tt
  jobs_of-IsStaffed ((label, tests) ∷ groups) mapping h =
      found (lookup label mapping) refl (jobs_of-IsStaffed groups mapping h)
    where
      found :
          (o : Option (List String))
          → lookup label mapping ≡ o
          → All (IsStaffed max_slots asked) (jobs_of groups mapping)
          → All (IsStaffed max_slots asked) (elim o [
            | none ↦ jobs_of groups mapping
            | some agent_ids ↦ elim agent_ids [
              | [] ↦ jobs_of groups mapping
              | a ∷ ids ↦
                  record { label = label; test_cases = tests; agent_ids = a ∷ ids }
                  ∷ jobs_of groups mapping
            ]
          ])
      found none e rest = rest
      found (some []) e rest = rest
      found (some (a ∷ ids)) e rest = (((λ same. ground (arith, same)), h label (a ∷ ids) e), rest)

  -- Whatever the model answers, also when it fails for some labels, and whatever other tasks do to the
  -- registry meanwhile: every group that is executed has some agent, and each of its agents was
  -- registered, not BROKEN and below its maximum of slots when the agents for the label were read,
  -- and is still registered when the model has answered. It may be BROKEN or full by then.
  pub request_execution-IsStaffed :
      (r : Registry Card) (groups : Dict (List TestCase))
      → All (IsStaffed max_slots asked) (request_all_test_cases_execution max_slots r asked groups)
  unfolding request_all_test_cases_execution select_execution_agents_for_each_test_label
  request_execution-IsStaffed r groups = elim (Bool-cases (is_empty r)) [
    | inl e ↦ rw e (jobs_of-IsStaffed groups _ (no_agents-AllCouldWork (labels_of groups)))
    | inr e ↦ rw e (jobs_of-IsStaffed groups _ (select_for_labels-AllCouldWork (labels_of groups)))
  ]
