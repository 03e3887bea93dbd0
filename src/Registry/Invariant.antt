-- ===== src/Registry/Invariant.antt =====
-- The registry's invariant: the three dicts of a registered agent agree, and its status agrees with
-- the number of its occupied slots. Every method that changes state keeps it.
use qa_ai_native.Prelude.{
  ℕ, ◌+◌, ◌-◌, ◌<◌, ◌≡◌, String, Option, none, some, List, [], ◌∷◌, arith, eq_iff, Option-cases,
  inl, inr,
}
use qa_ai_native.Dict.{
  lookup, UniqueKeys, lookup-insert, lookup-erase, insert-UniqueKeys, erase-UniqueKeys,
}
use qa_ai_native.Registry.{
  AgentStatus, available, busy, broken, BrokenReason, Registry, empty_registry, register,
  update_status, mark, mark_busy, mark_available, mark_broken, set_current_task, remove, slots_of,
}

-- What the entries of one agent in `cards`, `statuses` and `busy_slots` may be: none at all, or an
-- AVAILABLE agent with no slot taken, a BUSY one with some slot taken, or a BROKEN one.
abbrev pub Agrees : {Card : Type 0} → Option Card → Option AgentStatus → Option ℕ → Type 0
Agrees none none none = Unit
Agrees (some c) (some available) (some n) = n ≡ 0
Agrees (some c) (some busy) (some n) = 0 < n
Agrees (some c) (some broken) (some n) = Unit
Agrees _ _ _ = ⊥

-- A call of a method that changes the registry.
pub data Call (Card : Type 0) : Type 0 where
  registering : String → Card → Call Card
  updating : String → AgentStatus → Option BrokenReason → Option String → Call Card
  setting_task : String → Option String → Call Card
  removing : String → Call Card

module _ {Card : Type 0} where
  pub record IsValid (r : Registry Card) : Type 0 where
    pub unique : UniqueKeys r.statuses
    pub agrees :
        (a : String) → Agrees (lookup a r.cards) (lookup a r.statuses) (lookup a r.busy_slots)

  pub empty_registry-IsValid : IsValid empty_registry
  unfolding empty_registry
  empty_registry-IsValid = record { unique = tt; agrees = λ a. tt }

  register-IsValid :
      (k : String) (card : Card) (r : Registry Card) → IsValid r → IsValid (register k card r)
  unfolding register
  register-IsValid k card r v = record {
    unique = ground (arith, insert-UniqueKeys k available r.statuses v.unique, v.unique);
    agrees = λ a. ground (
      arith,
      v.agrees a,
      v.agrees k,
      eq_iff k a,
      lookup-insert k a card r.cards,
      lookup-insert k a available r.statuses,
      lookup-insert k a 0 r.busy_slots,
    );
  }

  mark_busy-IsValid :
      (k : String) {c : Card} (r : Registry Card)
      → lookup k r.cards ≡ some c
      → IsValid r
      → IsValid (mark_busy k r)
  unfolding mark_busy
  mark_busy-IsValid k r h v = record {
    unique = insert-UniqueKeys k busy r.statuses v.unique;
    agrees = λ a. ground (
      arith,
      v.agrees a,
      eq_iff k a,
      lookup-insert k a busy r.statuses,
      lookup-insert k a (slots_of k r + 1) r.busy_slots,
    );
  }

  mark_available-IsValid :
      (k : String) {c : Card} (r : Registry Card)
      → lookup k r.cards ≡ some c
      → IsValid r
      → IsValid (mark_available k r)
  unfolding mark_available
  mark_available-IsValid k r h v = record {
    unique = ground (arith, v.unique, insert-UniqueKeys k available r.statuses v.unique);
    agrees = λ a. ground (
      arith,
      v.agrees a,
      v.agrees k,
      eq_iff k a,
      lookup-insert k a available r.statuses,
      lookup-insert k a (slots_of k r - 1) r.busy_slots,
    );
  }

  mark_broken-IsValid :
      (k : String) (reason : Option BrokenReason) (stuck : Option String) {c : Card}
      (r : Registry Card)
      → lookup k r.cards ≡ some c
      → IsValid r
      → IsValid (mark_broken k reason stuck r)
  unfolding mark_broken
  mark_broken-IsValid k none stuck r h v = record {
    unique = insert-UniqueKeys k broken r.statuses v.unique;
    agrees = λ a.
        ground (arith, v.agrees a, v.agrees k, eq_iff k a, lookup-insert k a broken r.statuses);
  }
  mark_broken-IsValid k (some reason) stuck r h v = record {
    unique = insert-UniqueKeys k broken r.statuses v.unique;
    agrees = λ a.
        ground (arith, v.agrees a, v.agrees k, eq_iff k a, lookup-insert k a broken r.statuses);
  }

  pub update_status-IsValid :
      (k : String) (status : AgentStatus) (reason : Option BrokenReason) (stuck : Option String)
      (r : Registry Card)
      → IsValid r
      → IsValid (update_status k status reason stuck r)
  unfolding update_status
  update_status-IsValid k status reason stuck r v = elim (Option-cases (lookup k r.cards)) [
    | inl unknown ↦ rw unknown v
    | inr (c, known) ↦ rw known (marked status known)
  ]
    where
      marked :
          {c : Card} (s : AgentStatus)
          → lookup k r.cards ≡ some c
          → IsValid (mark s k reason stuck r)
      marked available h = mark_available-IsValid k r h v
      marked busy h = mark_busy-IsValid k r h v
      marked broken h = mark_broken-IsValid k reason stuck r h v

  pub set_current_task-IsValid :
      (k : String) (task : Option String) (r : Registry Card)
      → IsValid r
      → IsValid (set_current_task k task r)
  unfolding set_current_task
  set_current_task-IsValid k task r v = record {
    unique = ground (arith, v.unique);
    agrees = λ a. ground (arith, v.agrees a);
  }

  remove-IsValid : (k : String) (r : Registry Card) → IsValid r → IsValid (remove k r)
  unfolding remove
  remove-IsValid k r v = record {
    unique = erase-UniqueKeys k r.statuses v.unique;
    agrees = λ a. ground (
      arith,
      v.agrees a,
      lookup-erase k a r.cards,
      lookup-erase k a r.statuses,
      lookup-erase k a r.busy_slots,
    );
  }

  abbrev pub perform : Call Card → Registry Card → Registry Card
  perform (registering k card) = register k card
  perform (updating k status reason stuck) = update_status k status reason stuck
  perform (setting_task k task) = set_current_task k task
  perform (removing k) = remove k

  abbrev pub perform_all : List (Call Card) → Registry Card → Registry Card
  perform_all [] r = r
  perform_all (c ∷ cs) r = perform_all cs (perform c r)

  perform-IsValid : (c : Call Card) (r : Registry Card) → IsValid r → IsValid (perform c r)
  perform-IsValid (registering k card) r v = register-IsValid k card r v
  perform-IsValid (updating k s reason stuck) r v = update_status-IsValid k s reason stuck r v
  perform-IsValid (setting_task k task) r v = set_current_task-IsValid k task r v
  perform-IsValid (removing k) r v = remove-IsValid k r v

  pub perform_all-IsValid :
      (cs : List (Call Card)) (r : Registry Card) → IsValid r → IsValid (perform_all cs r)
  perform_all-IsValid [] r v = v
  perform_all-IsValid (c ∷ cs) r v = perform_all-IsValid cs (perform c r) (perform-IsValid c r v)

  -- After any sequence of method calls on a new registry, no agent's status stands twice, an agent
  -- has a card exactly when it has a status and a slot count, an AVAILABLE agent has no slot taken
  -- and a BUSY agent has at least one.
  pub perform_all-empty-IsValid : (cs : List (Call Card)) → IsValid (perform_all cs empty_registry)
  perform_all-empty-IsValid cs = perform_all-IsValid cs empty_registry empty_registry-IsValid
