-- ===== src/Reserve/Bounds.antt =====
-- Reservations keep every agent within its slots, whatever else happens to the registry meanwhile.
use qa_ai_native.Prelude.{
  ℕ, ◌+◌, ◌-◌, ◌≤◌, ◌<◌, ◌≡◌, String, Option, none, some, List, [], ◌∷◌, arith, eq_iff,
  Option-cases, Bool-cases, inl, inr, All,
}
use qa_ai_native.Dict.{elem, lookup-insert, lookup-erase}
use qa_ai_native.Registry.{
  available, busy, broken, BrokenReason, Registry, is_empty, slots_of, register, update_status,
  mark_busy, mark_available, mark_broken, set_current_task, remove, get_card, get_status,
  get_available_agents,
}
use qa_ai_native.Registry.Invariant.{
  IsValid, Call, registering, updating, setting_task, removing, perform, perform_all,
  perform_all-IsValid, update_status-IsValid,
}
use qa_ai_native.Registry.Queries.{elem-get_available_agents}
use qa_ai_native.Reserve.{
  Meanwhile, called, reserving, Round, Choice, nobody, chosen, choice_failed, Pass, not_reserved,
  took, pass_failed, Outcome, reserved, no_agents, wait_timeout, selection_failed, go_on_meanwhile,
  take_chosen, select_agent, recheck_and_take, reserve_round, wait_for_agent,
  reserve_agent_waiting_if_needed,
}

-- A call that takes no slot. The only call that takes one is that of a reservation, under the lock.
abbrev pub TakesNoSlot : {Card : Type 0} → Call Card → Type 0
TakesNoSlot (registering k card) = Unit
TakesNoSlot (updating k busy reason stuck) = ⊥
TakesNoSlot (updating k _ reason stuck) = Unit
TakesNoSlot (setting_task k task) = Unit
TakesNoSlot (removing k) = Unit

-- Another task takes a slot only by a reservation of its own.
abbrev pub IsOrderly : {Card : Type 0} → Meanwhile Card → Type 0
IsOrderly (called c) = TakesNoSlot c
IsOrderly (reserving k) = Unit

-- And it makes none while this one holds the lock.
abbrev pub IsLocked : {Card : Type 0} → Round Card → Type 0
IsLocked round = All IsOrderly round.before_lock × All TakesNoSlot round.during_selection

module _ {Card : Type 0} where
  -- No agent holds more than `m` slots.
  abbrev pub IsBounded : ℕ → Registry Card → Type 0
  IsBounded m r = (a : String) → slots_of a r ≤ m

  register-slots :
      (a k : String) (card : Card) (r : Registry Card)
      → slots_of a (register k card r) ≤ slots_of a r
  unfolding register
  register-slots a k card r = ground (arith, lookup-insert k a 0 r.busy_slots)

  remove-slots : (a k : String) (r : Registry Card) → slots_of a (remove k r) ≤ slots_of a r
  unfolding remove
  remove-slots a k r = ground (arith, lookup-erase k a r.busy_slots)

  release-slots :
      (a k : String) (reason : Option BrokenReason) (stuck : Option String) (r : Registry Card)
      → slots_of a (update_status k available reason stuck r) ≤ slots_of a r
  unfolding update_status mark_available
  release-slots a k reason stuck r =
      ground (arith, eq_iff k a, lookup-insert k a (slots_of k r - 1) r.busy_slots)

  break-slots :
      (a k : String) (reason : Option BrokenReason) (stuck : Option String) (r : Registry Card)
      → slots_of a (update_status k broken reason stuck r) ≤ slots_of a r
  unfolding update_status mark_broken
  break-slots a k none stuck r = ground arith
  break-slots a k (some reason) stuck r = ground arith

  task-slots :
      (a k : String) (task : Option String) (r : Registry Card)
      → slots_of a (set_current_task k task r) ≤ slots_of a r
  unfolding set_current_task
  task-slots a k task r = ground arith

  perform-slots :
      (a : String) (c : Call Card) (r : Registry Card)
      → TakesNoSlot c
      → slots_of a (perform c r) ≤ slots_of a r
  perform-slots a (registering k card) r h = register-slots a k card r
  perform-slots a (updating k available reason stuck) r h = release-slots a k reason stuck r
  perform-slots a (updating k busy reason stuck) r h = absurd h
  perform-slots a (updating k broken reason stuck) r h = break-slots a k reason stuck r
  perform-slots a (setting_task k task) r h = task-slots a k task r
  perform-slots a (removing k) r h = remove-slots a k r

  perform_all-slots :
      (a : String) (cs : List (Call Card)) (r : Registry Card)
      → All TakesNoSlot cs
      → slots_of a (perform_all cs r) ≤ slots_of a r
  perform_all-slots a [] r h = omega arith
  perform_all-slots a (c ∷ cs) r h =
      omega (arith, perform_all-slots a cs (perform c r) h.1, perform-slots a c r h.0)

  -- One more slot for an agent that had a free one.
  take-slots :
      (m : ℕ) (k : String) (r : Registry Card)
      → slots_of k r < m
      → IsBounded m r
      → IsBounded m (update_status k busy none none r)
  unfolding update_status mark_busy
  take-slots m k r free b a =
      ground (arith, b a, eq_iff k a, lookup-insert k a (slots_of k r + 1) r.busy_slots)

  -- What holds of the registry all along.
  abbrev Fine : ℕ → Registry Card → Type 0
  Fine m r = IsValid r × IsBounded m r

  perform_all-Fine :
      (m : ℕ) (cs : List (Call Card)) (r : Registry Card)
      → All TakesNoSlot cs
      → Fine m r
      → Fine m (perform_all cs r)
  perform_all-Fine m cs r q f =
      (perform_all-IsValid cs r f.0, λ a. omega (arith, perform_all-slots a cs r q, f.1 a))

  recheck_and_take-Fine :
      (m : ℕ) (k : String) (r : Registry Card) → Fine m r → Fine m (recheck_and_take m k r).0
  unfolding recheck_and_take
  recheck_and_take-Fine m k r f = elim (Bool-cases (elem k (get_available_agents m r))) [
    | inl free ↦
        let (known, alive, room) = (elem-get_available_agents m k r f.0).0 free in
        elim (Option-cases (get_card k r)) [
          | inl e ↦ rw (free, e) f
          | inr (c, e) ↦
              rw (free, e) (update_status-IsValid k busy none none r f.0, take-slots m k r room f.1)
        ]
    | inr full ↦ rw full f
  ]

  -- What the caller has when it gets an agent: a BUSY agent with that card, within its slots.
  abbrev pub Granted : ℕ → Registry Card → Outcome Card → Type 0
  Granted m r (reserved k card) =
      (get_card k r ≡ some card) × (get_status k r ≡ busy) × (1 ≤ slots_of k r) × (slots_of k r ≤ m)
  Granted m r no_agents = Unit
  Granted m r wait_timeout = Unit
  Granted m r selection_failed = Unit

  abbrev Passed : ℕ → Registry Card → Pass Card → Type 0
  Passed m r not_reserved = Unit
  Passed m r (took k card) = Granted m r (reserved k card)
  Passed m r pass_failed = Unit

  abbrev Taken : ℕ → Registry Card → Option (String × Card) → Type 0
  Taken m r none = Unit
  Taken m r (some (k, card)) = Granted m r (reserved k card)

  busy-Granted :
      (m : ℕ) (k : String) (c : Card) (r : Registry Card)
      → get_card k r ≡ some c
      → slots_of k r < m
      → Granted m (update_status k busy none none r) (reserved k c)
  unfolding update_status mark_busy get_card get_status
  busy-Granted m k c r known room = ground (
    arith,
    eq_iff k k,
    lookup-insert k k busy r.statuses,
    lookup-insert k k (slots_of k r + 1) r.busy_slots,
  )

  recheck_and_take-Taken :
      (m : ℕ) (k : String) (r : Registry Card)
      → Fine m r
      → let (r', taken) = recheck_and_take m k r in Taken m r' taken
  unfolding recheck_and_take
  recheck_and_take-Taken m k r f = elim (Bool-cases (elem k (get_available_agents m r))) [
    | inl free ↦
        let (known, alive, room) = (elem-get_available_agents m k r f.0).0 free in
        elim (Option-cases (get_card k r)) [
          | inl e ↦ rw (free, e) tt
          | inr (c, e) ↦ rw (free, e) (busy-Granted m k c r e room)
        ]
    | inr full ↦ rw full tt
  ]

  meanwhile-Fine :
      (m : ℕ) (ms : List (Meanwhile Card)) (r : Registry Card)
      → All IsOrderly ms
      → Fine m r
      → Fine m (go_on_meanwhile m ms r)
  meanwhile-Fine m [] r o f = f
  meanwhile-Fine m (called c ∷ ms) r (o, os) f =
      meanwhile-Fine m ms (perform c r) os (perform_all-Fine m (c ∷ []) r (o, tt) f)
  meanwhile-Fine m (reserving k ∷ ms) r (o, os) f =
      meanwhile-Fine m ms (recheck_and_take m k r).0 os (recheck_and_take-Fine m k r f)

module _ {Card : Type 0} (name : Card → String) (skills : Card → List String) (m : ℕ) where
  abbrev PassedFine : Registry Card × Pass Card → Type 0
  PassedFine (r, pass) = Fine m r × Passed m r pass

  take_chosen-PassedFine :
      (choice : Choice) (r : Registry Card)
      → Fine m r
      → PassedFine (take_chosen name skills m choice r)
  take_chosen-PassedFine nobody r f = (f, tt)
  take_chosen-PassedFine choice_failed r f = (f, tt)
  take_chosen-PassedFine (chosen k) r f =
      passed (recheck_and_take m k r) (recheck_and_take-Fine m k r f)
        (recheck_and_take-Taken m k r f)
    where
      passed :
          (t : Registry Card × Option (String × Card))
          → Fine m t.0
          → Taken m t.0 t.1
          → PassedFine (t.0, elim t.1 [ none ↦ not_reserved | some (k, card) ↦ took k card ])
      passed (r', none) f' taken = (f', tt)
      passed (r', some (k, card)) f' taken = (f', taken)

  reserve_round_sound :
      (round : Round Card) (r : Registry Card)
      → All TakesNoSlot round.during_selection
      → Fine m r
      → PassedFine (reserve_round name skills m round r)
  unfolding reserve_round
  reserve_round_sound round r q f = at (get_available_agents m r)
    where
      at :
          (ids : List String)
          → PassedFine (elim ids as (λ _. Registry Card × Pass Card) [
            | [] ↦ (r, not_reserved)
            | id ∷ rest ↦
                take_chosen name skills m
                  (select_agent name skills (id ∷ rest) round.answer r)
                  (perform_all round.during_selection r)
          ])
      at [] = (f, tt)
      at (id ∷ rest) =
          take_chosen-PassedFine (select_agent name skills (id ∷ rest) round.answer r)
            (perform_all round.during_selection r) (perform_all-Fine m round.during_selection r q f)

  abbrev Sound : Registry Card × Outcome Card → Type 0
  Sound (r, outcome) = Fine m r × Granted m r outcome

  wait_for_agent-Sound :
      (rounds : List (Round Card)) (r : Registry Card)
      → All IsLocked rounds
      → Fine m r
      → Sound (wait_for_agent name skills m rounds r)
  unfolding wait_for_agent
  wait_for_agent-Sound [] r q f = (f, tt)
  wait_for_agent-Sound (round ∷ rounds) r (locked, rest) f =
      let r' = go_on_meanwhile m round.before_lock r in
      next (reserve_round name skills m round r')
        (reserve_round_sound round r' locked.1 (meanwhile-Fine m round.before_lock r locked.0 f))
        (λ r''. wait_for_agent-Sound rounds r'' rest)
    where
      next :
          (step : Registry Card × Pass Card)
          → PassedFine step
          → ((r' : Registry Card) → Fine m r' → Sound (wait_for_agent name skills m rounds r'))
          → Sound (elim step.1 [
            | not_reserved ↦ wait_for_agent name skills m rounds step.0
            | took agent_id card ↦ (step.0, reserved agent_id card)
            | pass_failed ↦ (step.0, selection_failed)
          ])
      next (r', not_reserved) h again = again r' h.0
      next (r', took k card) h again = h
      next (r', pass_failed) h again = h

  -- Whatever the LLM answers, also when its call raises, and whatever the other tasks do, as long as
  -- they take slots only by reservations of their own, and none while this one holds the selection
  -- lock: the registry stays valid and no agent ends with more slots than the maximum, and an agent
  -- that is handed out is registered with that card, BUSY, and holds from 1 up to the maximum number
  -- of slots.
  pub reserve_agent_sound :
      (rounds : List (Round Card)) (r : Registry Card)
      → IsValid r
      → IsBounded m r
      → All IsLocked rounds
      → let (r', outcome) = reserve_agent_waiting_if_needed name skills m rounds r in
        IsValid r' × IsBounded m r' × Granted m r' outcome
  unfolding reserve_agent_waiting_if_needed
  reserve_agent_sound rounds r v b q = elim (Bool-cases (is_empty r)) [
    | inl e ↦ rw e (v, b, tt)
    | inr e ↦ let h = wait_for_agent-Sound rounds r q (v, b) in rw e (h.0.0, h.0.1, h.1)
  ]
