-- ===== src/Registry/Slots.antt =====
-- What `update_status` does to the slots of an agent: reservation and release, and the frame.
use qa_ai_native.Prelude.{
  ℕ, zero, suc, ◌+◌, ◌-◌, ◌≡◌, ◌≢◌, String, Option, none, some, [], ◌∷◌, false, str_eq, arith,
  eq_iff, Option-cases, inl, inr, if◌then◌else◌, leb, ◌<◌, ◌==◌,
}
use qa_ai_native.Dict.{lookup, insert, lookup-insert, lookup-erase}
use qa_ai_native.Registry.{
  AgentStatus, available, busy, broken, BrokenReason, Registry, update_status, mark_busy,
  mark_available, mark_broken, slots_of, or_default, get_status, get_broken_context,
  get_current_tasks, set_current_task,
}
use qa_ai_native.Registry.Invariant.{IsValid}

module _ {Card : Type 0} where
  -- `n` tasks are given to an agent.
  abbrev pub reserve_times : ℕ → String → Registry Card → Registry Card
  reserve_times zero k r = r
  reserve_times (suc n) k r = update_status k busy none none (reserve_times n k r)

  -- `n` tasks of an agent end.
  abbrev pub release_times : ℕ → String → Registry Card → Registry Card
  release_times zero k r = r
  release_times (suc n) k r = update_status k available none none (release_times n k r)

  -- The entries of an agent that the accounting of slots reads.
  abbrev pub Has : String → Registry Card → Card → AgentStatus → ℕ → Type 0
  Has k r c s n =
      (lookup k r.cards ≡ some c)
      × (lookup k r.statuses ≡ some s)
      × (lookup k r.busy_slots ≡ some n)

  pub update_busy-Has :
      (k : String) (c : Card) (s : AgentStatus) (n : ℕ) (r : Registry Card)
      → Has k r c s n
      → Has k (update_status k busy none none r) c busy (n + 1)
  unfolding update_status mark_busy
  update_busy-Has k c s n r h = ground (
    arith,
    eq_iff k k,
    lookup-insert k k busy r.statuses,
    lookup-insert k k (slots_of k r + 1) r.busy_slots,
  )

  pub update_available-Has :
      (k : String) (c : Card) (s : AgentStatus) (n : ℕ) (r : Registry Card)
      → Has k r c s n
      → Has k (update_status k available none none r) c (if leb n 1 then available else s) (n - 1)
  unfolding update_status mark_available
  update_available-Has k c s n r h = ground (
    arith,
    eq_iff k k,
    lookup-insert k k available r.statuses,
    lookup-insert k k (slots_of k r - 1) r.busy_slots,
  )

  reserve_times-Has :
      (m : ℕ) (k : String) (c : Card) (s : AgentStatus) (n : ℕ) (r : Registry Card)
      → Has k r c s n
      → Has k (reserve_times m k r) c (if m == 0 then s else busy) (n + m)
  reserve_times-Has zero k c s n r h = ground arith
  reserve_times-Has (suc m) k c s n r h = ground (
    arith,
    update_busy-Has k c (if m == 0 then s else busy) (n + m) (reserve_times m k r),
    reserve_times-Has m k c s n r h,
  )

  release_times-Has :
      (m : ℕ) (k : String) (c : Card) (n : ℕ) (r : Registry Card)
      → Has k r c busy n
      → 0 < n
      → Has k (release_times m k r) c (if leb n m then available else busy) (n - m)
  release_times-Has zero k c n r h p = ground arith
  release_times-Has (suc m) k c n r h p = ground (
    arith,
    update_available-Has k c (if leb n m then available else busy) (n - m) (release_times m k r),
    release_times-Has m k c n r h p,
  )

  -- Slot accounting: when a registered agent that is AVAILABLE takes `n + 1` tasks and `m` of its
  -- tasks end, it holds `n + 1 - m` slots, and it is AVAILABLE again exactly when none is left,
  -- BUSY before.
  pub release-reserve :
      (n m : ℕ) (k : String) (r : Registry Card)
      → IsValid r
      → lookup k r.statuses ≡ some available
      → let r' = release_times m k (reserve_times (suc n) k r) in
        (slots_of k r' ≡ suc n - m)
        × (get_status k r' ≡ (if leb (suc n) m then available else busy))
  unfolding get_status
  release-reserve n m k r v h = elim (Option-cases (lookup k r.cards)) [
    | inl e ↦ ground (arith, v.agrees k)
    | inr (c, e) ↦
        let start : Has k r c available 0 = ground (arith, v.agrees k) in
        let held : Has k (reserve_times (suc n) k r) c busy (suc n) =
          ground (arith, reserve_times-Has (suc n) k c available 0 r start) in
        ground (arith, release_times-Has m k c (suc n) (reserve_times (suc n) k r) held)
  ]

  -- A change of one agent's status leaves every entry of every other agent as it was.
  pub update_status_frame :
      (k a : String) (status : AgentStatus) (reason : Option BrokenReason) (stuck : Option String)
      (r : Registry Card)
      → a ≢ k
      → let r' = update_status k status reason stuck r in
        (lookup a r'.cards ≡ lookup a r.cards)
        × (get_status a r' ≡ get_status a r)
        × (slots_of a r' ≡ slots_of a r)
        × (get_broken_context a r' ≡ get_broken_context a r)
        × (get_current_tasks a r' ≡ get_current_tasks a r)
  unfolding update_status mark_busy mark_available mark_broken get_status get_broken_context
      get_current_tasks
  update_status_frame k a busy reason stuck r ne = ground (
    arith,
    eq_iff k a,
    lookup-insert k a busy r.statuses,
    lookup-insert k a (slots_of k r + 1) r.busy_slots,
  )
  update_status_frame k a available reason stuck r ne = ground (
    arith,
    eq_iff k a,
    lookup-insert k a available r.statuses,
    lookup-insert k a (slots_of k r - 1) r.busy_slots,
    lookup-erase k a r.broken_reasons,
    lookup-erase k a r.stuck_task_ids,
    lookup-erase k a r.current_tasks,
  )
  update_status_frame k a broken none stuck r ne =
      ground (arith, eq_iff k a, lookup-insert k a broken r.statuses)
  update_status_frame k a broken (some reason) stuck r ne = ground (
    arith,
    eq_iff k a,
    lookup-insert k a broken r.statuses,
    lookup-insert k a reason r.broken_reasons,
    lookup-insert k a (or_default "" stuck) r.stuck_task_ids,
  )

  -- Two running tasks of an agent are both listed, and one call without a task ID, the one that the
  -- end of either task makes, forgets both.
  pub set_current_task-clears :
      (k t u : String) (r : Registry Card)
      → str_eq t "" ≡ false
      → str_eq u "" ≡ false
      → lookup k r.current_tasks ≡ none
      → let r' = set_current_task k (some u) (set_current_task k (some t) r) in
        (get_current_tasks k r' ≡ t ∷ u ∷ [])
        × (get_current_tasks k (set_current_task k none r') ≡ [])
  unfolding set_current_task get_current_tasks
  set_current_task-clears k t u r ht hu h = ground (
    arith,
    eq_iff k k,
    lookup-insert k k (t ∷ []) r.current_tasks,
    lookup-insert k k (t ∷ u ∷ []) (insert k (t ∷ []) r.current_tasks),
    lookup-erase k k (insert k (t ∷ u ∷ []) (insert k (t ∷ []) r.current_tasks)),
  )
