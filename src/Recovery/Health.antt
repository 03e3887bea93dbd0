-- ===== src/Recovery/Health.antt =====
-- The health check marks the idle agents that cannot be reached, and those only.
use mathlib.Core.Path.{subst}
use qa_ai_native.Prelude.{
  sym, ℕ, ◌+◌, ◌≡◌, refl, ap, ◌∙◌, String, Bool, true, false, not, ◌&&◌, Option, none, some, List,
  [], ◌∷◌, ◌++◌, arith, if◌then◌else◌, str_eq, eq_iff, is_some, any, count, Bool-cases,
  Option-cases, inl, inr,
}
use qa_ai_native.Dict.{Dict, lookup-insert}
use qa_ai_native.Registry.{
  AgentStatus, available, busy, broken, offline, Registry, get_status, slots_of, update_status,
  mark_broken,
}
use qa_ai_native.Registry.Invariant.{IsValid, update_status-IsValid}
use qa_ai_native.Recovery.{is_available, check_agent, check_all, health_check_agents}

-- How often an agent stands in the recovery queue.
abbrev pub queued : String → List (String × ℕ) → ℕ
queued a = count (λ item. str_eq item.0 a)

count-append :
    (a : String) (q : List (String × ℕ)) (k : String) (t : ℕ)
    → queued a (q ++ (k, t) ∷ []) ≡ queued a q + (if str_eq k a then 1 else 0)
count-append a [] k t = ground arith
count-append a (item ∷ q) k t = omega (arith, count-append a q k t)

-- Two checks one after another mark an agent if either would.
marked_twice :
    (idle_k same dead_k dead_rest : Bool) (s s1 s2 : AgentStatus) (n n1 n2 : ℕ)
    → (same ≡ true → idle_k ≡ is_available s)
    → s1 ≡ (if idle_k && (same && dead_k) then broken else s)
    → n1 ≡ n + (if idle_k && (same && dead_k) then 1 else 0)
    → s2 ≡ (if is_available s1 && dead_rest then broken else s1)
    → n2 ≡ n1 + (if is_available s1 && dead_rest then 1 else 0)
    → let test = is_available s && (if same && dead_k then true else dead_rest) in
      (s2 ≡ (if test then broken else s)) × (n2 ≡ n + (if test then 1 else 0))
marked_twice i false d rest s s1 s2 n n1 n2 a e1 c1 e2 c2 = ground (arith, e1, c1, e2, c2)
marked_twice i true false rest s s1 s2 n n1 n2 a e1 c1 e2 c2 = ground (arith, e1, c1, e2, c2)
marked_twice i true true rest available s1 s2 n n1 n2 a e1 c1 e2 c2 =
    ground (arith, a refl, e1, c1, e2, c2)
marked_twice i true true rest busy s1 s2 n n1 n2 a e1 c1 e2 c2 =
    ground (arith, a refl, e1, c1, e2, c2)
marked_twice i true true rest broken s1 s2 n n1 n2 a e1 c1 e2 c2 =
    ground (arith, a refl, e1, c1, e2, c2)

module _ {Card : Type 0} (first_url : Card → Option String) (reachable : String → Bool) where
  -- The check of a card would find its agent unreachable.
  abbrev pub is_dead : String → Card → Bool
  is_dead k card = is_some (first_url card) && not (reachable k)

  -- A card of the agent is dead.
  abbrev pub dead : String → Dict Card → Bool
  dead a cards = any (λ e. str_eq e.0 a && is_dead e.0 e.1) cards

  -- The effect on one agent: marked BROKEN and queued once if the test holds, else left alone.
  abbrev pub Marks :
      Bool → String → Registry Card × List (String × ℕ) → Registry Card × List (String × ℕ) → Type 0
  Marks test a s s' =
      (get_status a s'.0 ≡ (if test then broken else get_status a s.0))
      × (queued a s'.1 ≡ queued a s.1 + (if test then 1 else 0))
      × (slots_of a s'.0 ≡ slots_of a s.0)

  break-Marks :
      (now : ℕ) (a k : String) (r : Registry Card) (q : List (String × ℕ))
      → IsValid r
      → is_available (get_status k r) ≡ true
      → Marks
          (str_eq k a)
          a
          (r, q)
          (update_status k broken (some offline) none r, q ++ (k, now) ∷ [])
  unfolding update_status mark_broken get_status
  break-Marks now a k r q v idle =
      ground
        (arith, eq_iff k a, v.agrees k, count-append a q k now, lookup-insert k a broken r.statuses)

  check_agent-Marks :
      (now : ℕ) (a k : String) (card : Card) (r : Registry Card) (q : List (String × ℕ))
      → IsValid r
      → let s' = check_agent first_url (reachable k) now [] k card (r, q) in
        Marks (is_available (get_status k r) && (str_eq k a && is_dead k card)) a (r, q) s'
        × IsValid s'.0
  unfolding check_agent
  check_agent-Marks now a k card r q v = elim (Bool-cases (is_available (get_status k r))) [
    | inr taken ↦ rw taken ((refl, omega arith, refl), v)
    | inl idle ↦ elim (Option-cases (first_url card)) [
      | inl e ↦ rw (idle, e) (ground arith, v)
      | inr (url, e) ↦ elim (Bool-cases (reachable k)) [
        | inl up ↦ rw (idle, e, up) (ground arith, v)
        | inr down ↦
            let broke : check_agent first_url (reachable k) now [] k card (r, q)
                ≡ (update_status k broken (some offline) none r, q ++ (k, now) ∷ []) =
              rw (idle, e, down) (rw idle refl) in
            let dead_card : is_dead k card ≡ true = ground (arith, e, down) in
            subst
              (λ s'.
                Marks (is_available (get_status k r) && (str_eq k a && is_dead k card)) a (r, q) s'
                × IsValid s'.0)
              (sym broke)
              (
                ground (arith, break-Marks now a k r q v idle, idle, dead_card),
                update_status-IsValid k broken (some offline) none r v,
              )
      ]
    ]
  ]

  check_all-Marks :
      (now : ℕ) (a : String) (cards : Dict Card) (r : Registry Card) (q : List (String × ℕ))
      → IsValid r
      → Marks
          (is_available (get_status a r) && dead a cards)
          a
          (r, q)
          (check_all first_url reachable now cards (r, q))
  unfolding check_all
  check_all-Marks now a [] r q v = ground arith
  check_all-Marks now a ((k, card) ∷ cards) r q v =
      let (r1, q1) = check_agent first_url (reachable k) now [] k card (r, q) in
      let (marked, v1) = check_agent-Marks now a k card r q v in
      let rest = check_all-Marks now a cards r1 q1 v1 in
      let alike : str_eq k a ≡ true
          → is_available (get_status k r) ≡ is_available (get_status a r) =
        λ e. ap (λ j. is_available (get_status j r)) ((eq_iff k a).0 e) in
      let (status, times) =
        marked_twice (is_available (get_status k r)) (str_eq k a) (is_dead k card) (dead a cards) _
          _ _ _ _ _ alike marked.0 marked.1 rest.0 rest.1 in
      (status, times, rest.2 ∙ marked.2)

  -- For any agent, a health check on a valid registry, with no other task in between: an AVAILABLE
  -- agent whose card has an address that cannot be reached becomes BROKEN and is queued for
  -- recovery once; any other agent keeps its status and is not queued. Nobody's slots change.
  pub health_check-Marks :
      (now : ℕ) (a : String) (r : Registry Card) (q : List (String × ℕ))
      → IsValid r
      → Marks
          (is_available (get_status a r) && dead a r.cards)
          a
          (r, q)
          (health_check_agents first_url reachable now (r, q))
  unfolding health_check_agents
  health_check-Marks now a r q v = check_all-Marks now a r.cards r q v
