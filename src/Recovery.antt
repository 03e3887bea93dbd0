-- ===== src/Recovery.antt =====
-- Recovery of BROKEN agents and the health check (orchestrator/main.py): `_retry_cancellation_task`
-- and `_health_check_agents`. What the network answers (a task cancelled, a card fetched, an agent
-- reached), the clock, and the calls of other tasks during the awaits are inputs. Times are in any
-- unit of which `second` make a second.
pub mod Pass
pub mod Health
mod Tests
use qa_ai_native.Prelude.{
  ℕ, ◌-◌, ◌*◌, String, Bool, true, false, Option, none, some, List, [], ◌∷◌, ◌++◌, if◌then◌else◌,
  ltb,
}
use qa_ai_native.Dict.{Dict, truthy}
use qa_ai_native.Registry.{
  AgentStatus, available, busy, broken, BrokenReason, offline, task_stuck, Registry, get_card,
  get_status, get_broken_context, update_status,
}
use qa_ai_native.Registry.Invariant.{Call, perform_all}

-- What one attempt at a recovery comes to. `crashed` is the IndexError of a card without interfaces.
pub data Verdict : Type 0 where
  recovered waiting unreachable crashed : Verdict

-- `await _fetch_agent_card(agent_card.supported_interfaces[0].url)`
abbrev pub responding : Option String → Bool → Verdict
responding none responds = crashed
responding (some url) true = recovered
responding (some url) false = waiting

-- An agent that does not answer after a failed cancellation.
abbrev pub after_cancel : Verdict → Verdict
after_cancel waiting = unreachable
after_cancel v = v

unfoldable pub judge : Option BrokenReason → Option String → Option String → Bool → Bool → Verdict
judge (some task_stuck) stuck url cancelled responds =
    if truthy stuck
    then (if cancelled then recovered else after_cancel (responding url responds))
    else responding url responds
judge (some offline) stuck url cancelled responds = responding url responds
judge none stuck url cancelled responds = responding url responds

pub record Probe (Card : Type 0) : Type 0 where
  pub now : ℕ
  pub cancelled : Bool
  pub responds : Bool
  pub during : List (Call Card)
  pub during_sleep : List (Call Card)

module _ {Card : Type 0} where
  -- The end of a pass: what goes back to the queue, if anything does.
  unfoldable pub settle :
      Verdict → Probe Card → String → ℕ → Registry Card → Registry Card × Option (String × ℕ)
  settle recovered p agent_id timestamp r = (update_status agent_id available none none r, none)
  settle waiting p agent_id timestamp r = (perform_all p.during_sleep r, some (agent_id, timestamp))
  settle unreachable p agent_id timestamp r = (
    perform_all p.during_sleep (update_status agent_id broken (some offline) none r),
    some (agent_id, timestamp),
  )
  settle crashed p agent_id timestamp r = (r, none)

module _ {Card : Type 0} (first_url : Card → Option String) (second : ℕ) where
  -- One pass of the recovery loop over an item of the queue.
  unfoldable pub recovery_pass :
      Probe Card → String → ℕ → Registry Card → Registry Card × Option (String × ℕ)
  unfolding judge settle
  recovery_pass p agent_id timestamp r =
      if ltb (24 * 3600 * second) (p.now - timestamp)
      then (r, none)
      else elim (get_card agent_id r) [
        | none ↦ (r, none)
        | some card ↦
            let context = get_broken_context agent_id r in
            settle (judge context.0 context.1 (first_url card) p.cancelled p.responds) p agent_id
              timestamp (perform_all p.during r)
      ]

  -- The loop takes the first item of the queue, and an item that is not settled goes to the end.
  unfoldable pub recover_next :
      Probe Card → Registry Card × List (String × ℕ) → Registry Card × List (String × ℕ)
  unfolding recovery_pass
  recover_next p (r, []) = (r, [])
  recover_next p (r, (agent_id, timestamp) ∷ queue) =
      let (r', again) = recovery_pass p agent_id timestamp r in
      (r', queue ++ (elim again [ none ↦ [] | some item ↦ item ∷ [] ]))

-- `status != AgentStatus.AVAILABLE`, negated.
abbrev pub is_available : AgentStatus → Bool
is_available available = true
is_available _ = false

module _ {Card : Type 0} (first_url : Card → Option String) where
  -- `_check`: the state is the registry and what is put into the recovery queue; the calls are
  -- those of other tasks while the agent is probed.
  unfoldable pub check_agent :
      Bool
      → ℕ
      → List (Call Card)
      → String
      → Card
      → Registry Card × List (String × ℕ)
      → Registry Card × List (String × ℕ)
  check_agent reachable now during agent_id card (r, queue) =
      if is_available (get_status agent_id r)
      then elim (first_url card) [
        | none ↦ (r, queue)
        | some url ↦
            let r' = perform_all during r in
            if reachable
            then (r', queue)
            else (if is_available (get_status agent_id r')
                then (
                  update_status agent_id broken (some offline) none r',
                  queue ++ (agent_id, now) ∷ [],
                )
                else (r', queue))
      ]
      else (r, queue)

  -- The checks of the registered agents, one after another and without other tasks.
  unfoldable pub check_all :
      (String → Bool)
      → ℕ
      → Dict Card
      → Registry Card × List (String × ℕ)
      → Registry Card × List (String × ℕ)
  unfolding check_agent
  check_all reachable now [] s = s
  check_all reachable now ((agent_id, card) ∷ cards) s =
      check_all reachable now cards (check_agent (reachable agent_id) now [] agent_id card s)

  unfoldable pub health_check_agents :
      (String → Bool) → ℕ → Registry Card × List (String × ℕ) → Registry Card × List (String × ℕ)
  unfolding check_all
  health_check_agents reachable now (r, queue) = check_all reachable now r.cards (r, queue)
