-- ===== src/Registry/Queries.antt =====
-- What the registry's queries return, in terms of the entries of one agent.
use qa_ai_native.Prelude.{ℕ, ◌<◌, ◌≡◌, ◌≢◌, ◌↔◌, String, true, false, none, some, arith}
use qa_ai_native.Dict.{lookup, elem, elem-keys-filter}
use qa_ai_native.Registry.{
  broken, Registry, has_free_slot, slots_of, get_status, has_agent, get_available_agents,
}
use qa_ai_native.Registry.Invariant.{IsValid}

module _ {Card : Type 0} (max_slots : ℕ) (a : String) (r : Registry Card) (v : IsValid r) where
  listed :
      elem a (get_available_agents max_slots r)
      ≡ elim (lookup a r.statuses) [ none ↦ false | some s ↦ has_free_slot max_slots r (a, s) ]
  unfolding get_available_agents
  listed = elem-keys-filter a (has_free_slot max_slots r) r.statuses v.unique

  -- `get_available_agents` lists exactly the registered agents that are not BROKEN and have fewer
  -- slots taken than the maximum.
  pub elem-get_available_agents :
      (elem a (get_available_agents max_slots r) ≡ true)
      ↔ ((has_agent a r ≡ true) × (get_status a r ≢ broken) × (slots_of a r < max_slots))
  unfolding has_agent get_status
  elem-get_available_agents = (
    λ h. (ground (arith, listed), ground (arith, listed), ground (arith, listed)),
    λ h. ground (arith, listed, v.agrees a, h.0, h.1, h.2),
  )
