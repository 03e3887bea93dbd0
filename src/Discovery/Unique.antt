-- ===== src/Discovery/Unique.antt =====
-- No discovery registers an address twice.
mod Tests
use mathlib.Core.Path.{subst}
use qa_ai_native.Prelude.{
  ℕ, ◌+◌, ◌≤◌, ◌≡◌, ◌≢◌, refl, sym, ap, ◌∙◌, String, Bool, true, false, Option, none, some, List,
  [], ◌∷◌, arith, if◌then◌else◌, str_eq, eq_iff, count, Bool-cases, Option-cases, inl, inr, All,
}
use qa_ai_native.Dict.{Dict, lookup, insert, erase, elem, truthy, lookup-insert, lookup-erase}
use qa_ai_native.Registry.{
  AgentStatus, available, busy, broken, BrokenReason, Registry, register, id_by_url,
  get_agent_id_by_url, remove, update_status, mark_available, mark_busy, mark_broken,
  set_current_task,
}
use qa_ai_native.Registry.Invariant.{registering, updating, setting_task, removing}
use qa_ai_native.Discovery.{
  Found, State, Event, starts, fetched, registry_call, remove_url, begin_url_discovery,
  register_card, end_url_discovery, step, steps, start, discover_agents,
}

module _ {Card : Type 0} (first_url : Card → Option String) where
  -- A card's first address.
  abbrev pub is_at : String → Card → Bool
  is_at url card = elim (first_url card) [ none ↦ false | some u ↦ str_eq u url ]

  -- How many registered cards have the address.
  abbrev pub agents_at : String → Dict Card → ℕ
  agents_at url = count (λ e. is_at url e.1)

  -- Every address is registered at most once, and no agent has the empty ID.
  abbrev pub HasUniqueUrls : Registry Card → Type 0
  HasUniqueUrls r = ((url : String) → agents_at url r.cards ≤ 1) × (lookup "" r.cards ≡ none)

  -- The IDs drawn for new agents are not empty and not in use.
  abbrev pub IsFresh : Found Card → Registry Card → Type 0
  IsFresh found r = (found.new_agent_id ≢ "") × (lookup found.new_agent_id r.cards ≡ none)

  agents_at-insert :
      (url k : String) (card : Card) (d : Dict Card)
      → lookup k d ≡ none
      → agents_at url (insert k card d) ≡ agents_at url d + (if is_at url card then 1 else 0)
  unfolding insert
  agents_at-insert url k card [] new = omega arith
  agents_at-insert url k card ((j, c) ∷ d) new = elim (Bool-cases (str_eq j k)) [
    | inl e ↦ absurd (ground (arith, e, new))
    | inr e ↦
        rw e
          (let rest = agents_at-insert url k card d (ground (arith, e, new)) in omega (arith, rest))
  ]

  -- If no ID is found for an address, no card has it, since no ID is empty.
  agents_at_unknown :
      (url : String) (d : Dict Card)
      → lookup "" d ≡ none
      → truthy (id_by_url first_url url d) ≡ false
      → agents_at url d ≡ 0
  unfolding id_by_url
  agents_at_unknown url [] no_empty h = refl
  agents_at_unknown url ((k, card) ∷ d) no_empty h = elim (Bool-cases (is_at url card)) [
    | inl e ↦ absurd (ground (arith, e, h, no_empty))
    | inr e ↦ rw e (
        let rest = agents_at_unknown url d (ground (arith, no_empty)) (ground (arith, e, h)) in
        omega (arith, rest))
  ]

  register-HasUniqueUrls :
      (card : Card) (card_url k : String) (r : Registry Card)
      → first_url card ≡ some card_url
      → truthy (get_agent_id_by_url first_url card_url r) ≡ false
      → k ≢ ""
      → lookup k r.cards ≡ none
      → HasUniqueUrls r
      → HasUniqueUrls (register k card r)
  unfolding register get_agent_id_by_url
  register-HasUniqueUrls card card_url k r e unknown nonempty new (unique, no_empty) = (
    λ url.
        let added = agents_at-insert url k card r.cards new in
        let before = agents_at_unknown card_url r.cards no_empty unknown in
        ground
          (arith, added, before, e, unique url, eq_iff card_url url, ap (λ u. agents_at u r.cards)),
    ground (arith, lookup-insert k "" card r.cards, eq_iff k "", nonempty, no_empty),
  )

  -- A fetched card has an address.
  abbrev pub HasAddress : Found Card → Type 0
  HasAddress found =
      (card : Card) → found.card ≡ some card → (url : String) × (first_url card ≡ some url)

  -- What is expected of an event: a fetched card has an address and the drawn ID is fresh, and no other
  -- task registers agents.
  abbrev pub IsProper : Event Card → State Card → Type 0
  IsProper (starts url) s = Unit
  IsProper (fetched url found) s = HasAddress found × IsFresh found s.registry
  IsProper (registry_call (registering k card)) s = ⊥
  IsProper (registry_call (updating k status reason stuck)) s = Unit
  IsProper (registry_call (setting_task k task)) s = Unit
  IsProper (registry_call (removing k)) s = Unit

  abbrev pub AllProper : List (Event Card) → State Card → Type 0
  AllProper [] s = Unit
  AllProper (e ∷ es) s = IsProper e s × AllProper es (step first_url e s)

  abbrev pub IsUnique : State Card → Type 0
  IsUnique s = (s.raised ≡ false) × HasUniqueUrls s.registry

  end_url-IsUnique :
      (found : Found Card) (s : State Card)
      → HasAddress found
      → IsFresh found s.registry
      → IsUnique s
      → IsUnique (end_url_discovery first_url found s)
  unfolding end_url_discovery
  end_url-IsUnique found s address (nonempty, new) v = at found.card refl
    where
      registered :
          (card : Card) (o : Option String)
          → (url : String) × (o ≡ some url)
          → first_url card ≡ o
          → IsUnique (register_card first_url found.new_agent_id card o s)
      registered card none (url, e) here = absurd (ground (arith, e))
      registered card (some url) has here =
          elim (Bool-cases (truthy (get_agent_id_by_url first_url url s.registry))) [
            | inl known ↦ rw known v
            | inr other ↦ rw other (
              v.0,
              register-HasUniqueUrls card url found.new_agent_id s.registry here other nonempty new
                  v.1,
            )
          ]

      at :
          (o : Option Card)
          → found.card ≡ o
          → IsUnique (elim o [
            | none ↦ s
            | some card ↦ register_card first_url found.new_agent_id card (first_url card) s
          ])
      at none e = v
      at (some card) e = registered card (first_url card) (address card e) refl

  agents_at-erase : (url k : String) (d : Dict Card) → agents_at url (erase k d) ≤ agents_at url d
  unfolding erase
  agents_at-erase url k [] = omega arith
  agents_at-erase url k ((j, c) ∷ d) = ground (arith, agents_at-erase url k d)

  remove-HasUniqueUrls :
      (k : String) (r : Registry Card) → HasUniqueUrls r → HasUniqueUrls (remove k r)
  unfolding remove
  remove-HasUniqueUrls k r (unique, no_empty) = (
    λ url. omega (arith, unique url, agents_at-erase url k r.cards),
    ground (arith, no_empty, lookup-erase k "" r.cards),
  )

  update_status-cards :
      (k : String) (status : AgentStatus) (reason : Option BrokenReason) (stuck : Option String)
      (r : Registry Card)
      → (update_status k status reason stuck r).cards ≡ r.cards
  unfolding update_status mark_available mark_busy mark_broken
  update_status-cards k available reason stuck r = ground arith
  update_status-cards k busy reason stuck r = ground arith
  update_status-cards k broken none stuck r = ground arith
  update_status-cards k broken (some reason) stuck r = ground arith

  set_current_task-cards :
      (k : String) (task : Option String) (r : Registry Card)
      → (set_current_task k task r).cards ≡ r.cards
  unfolding set_current_task
  set_current_task-cards k none r = ground arith
  set_current_task-cards k (some task) r = ground arith

  same_cards-HasUniqueUrls :
      (r r' : Registry Card) → r'.cards ≡ r.cards → HasUniqueUrls r → HasUniqueUrls r'
  same_cards-HasUniqueUrls r r' e v =
      subst (λ d. ((url : String) → agents_at url d ≤ 1) × (lookup "" d ≡ none)) (sym e) v

  step-IsUnique :
      (e : Event Card) (s : State Card) → IsProper e s → IsUnique s → IsUnique (step first_url e s)
  unfolding step begin_url_discovery set_current_task
  step-IsUnique (starts url) s p v = elim (Bool-cases (elem url s.unstarted)) [
    | inr absent ↦ rw absent v
    | inl ready ↦ elim (Bool-cases (truthy (get_agent_id_by_url first_url url s.registry))) [
      | inl known ↦ rw (ready, known) v
      | inr new ↦ rw (ready, new) v
    ]
  ]
  step-IsUnique (fetched url found) s (address, fresh) v = elim (Bool-cases (elem url s.fetching)) [
    | inr absent ↦ rw absent v
    | inl now ↦
        rw now (
          end_url-IsUnique found (record s { fetching = remove_url url s.fetching }) address fresh
            v)
  ]
  step-IsUnique (registry_call (registering k card)) s p v = absurd p
  step-IsUnique (registry_call (updating k status reason stuck)) s p v = (
    v.0,
    same_cards-HasUniqueUrls s.registry (update_status k status reason stuck s.registry)
        (update_status-cards k status reason stuck s.registry) v.1,
  )
  step-IsUnique (registry_call (setting_task k task)) s p v = (
    v.0,
    same_cards-HasUniqueUrls s.registry (set_current_task k task s.registry)
        (set_current_task-cards k task s.registry) v.1,
  )
  step-IsUnique (registry_call (removing k)) s p v = (v.0, remove-HasUniqueUrls k s.registry v.1)

  steps-IsUnique :
      (es : List (Event Card)) (s : State Card)
      → AllProper es s
      → IsUnique s
      → IsUnique (steps first_url es s)
  steps-IsUnique [] s p v = v
  steps-IsUnique (e ∷ es) s (p, ps) v =
      steps-IsUnique es (step first_url e s) ps (step-IsUnique e s p v)

  -- The coroutines of the URLs and calls of other tasks may interleave in any way: where every fetched
  -- card has an address, the drawn IDs are fresh and no other task registers agents, a discovery
  -- raises nothing and keeps the registry free of two agents with one first address.
  pub discover_agents-HasUniqueUrls :
      (urls : List String) (events : List (Event Card)) (r : Registry Card)
      → AllProper events (start first_url urls r)
      → HasUniqueUrls r
      → let s = discover_agents first_url urls events r in
        (s.raised ≡ false) × HasUniqueUrls s.registry
  unfolding discover_agents
  discover_agents-HasUniqueUrls urls events r p v =
      steps-IsUnique events (start first_url urls r) p (refl, v)
