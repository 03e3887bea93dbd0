-- ===== src/Dashboard.antt =====
-- The summary of the dashboard (orchestrator/dashboard_service.py): the counts of `get_summary`.
-- Token usage, costs and the clock are left out.
mod Tests
use qa_ai_native.Prelude.{
  ℕ, ◌+◌, ◌≤◌, ◌≡◌, refl, String, List, [], ◌∷◌, arith, length, count, if◌then◌else◌, Bool, true,
  false, length-map, length-reverse, ap, ◌∙◌, map,
}
use qa_ai_native.Dict.{Dict}
use qa_ai_native.Registry.{AgentStatus, available, busy, broken, Registry, get_status}
use qa_ai_native.History.{
  TaskStatus, pending, running, completed, failed, cancelled, TaskRecord, TaskHistory, get_all,
}
use qa_ai_native.History.Errors.{ErrorHistory, all_errors}

pub record AgentCounts : Type 0 where
  pub agents_available : ℕ
  pub agents_busy : ℕ
  pub agents_broken : ℕ

-- One more agent of a status.
abbrev pub count_agent : AgentStatus → AgentCounts → AgentCounts
count_agent available c = record c { agents_available = c.agents_available + 1 }
count_agent busy c = record c { agents_busy = c.agents_busy + 1 }
count_agent broken c = record c { agents_broken = c.agents_broken + 1 }

abbrev pub is_running : TaskStatus → Bool
is_running running = true
is_running _ = false

abbrev pub is_completed : TaskStatus → Bool
is_completed completed = true
is_completed _ = false

abbrev pub is_failed : TaskStatus → Bool
is_failed failed = true
is_failed _ = false

pub record Summary : Type 0 where
  pub agents_total : ℕ
  pub agents : AgentCounts
  pub tasks_running : ℕ
  pub tasks_completed : ℕ
  pub tasks_failed : ℕ
  pub tasks_total : ℕ
  pub errors_total : ℕ

module _ {Card : Type 0} where
  -- The loop over the cards.
  unfoldable pub count_agents : Registry Card → Dict Card → AgentCounts → AgentCounts
  count_agents r [] c = c
  count_agents r ((agent_id, card) ∷ cards) c =
      count_agents r cards (count_agent (get_status agent_id r) c)

module _ {Card Usage : Type 0} where
  unfoldable pub get_summary : Registry Card → TaskHistory Usage → ErrorHistory → Summary
  unfolding count_agents
  get_summary r tasks errors =
      let all_tasks : List (TaskRecord Usage) = get_all tasks in
      record {
        agents_total = length r.cards;
        agents =
            count_agents r r.cards
              (record { agents_available = 0; agents_busy = 0; agents_broken = 0 });
        tasks_running = count (λ t. is_running (TaskRecord.status t)) all_tasks;
        tasks_completed = count (λ t. is_completed (TaskRecord.status t)) all_tasks;
        tasks_failed = count (λ t. is_failed (TaskRecord.status t)) all_tasks;
        tasks_total = length all_tasks;
        errors_total = length (all_errors errors);
      }

-- The sum of the three counts.
abbrev pub sum : AgentCounts → ℕ
sum c = c.agents_available + c.agents_busy + c.agents_broken

sum-count_agent : (s : AgentStatus) (c : AgentCounts) → sum (count_agent s c) ≡ sum c + 1
sum-count_agent available c = omega arith
sum-count_agent busy c = omega arith
sum-count_agent broken c = omega arith

sum-count_agents :
    {Card : Type 0} (r : Registry Card) (cards : Dict Card) (c : AgentCounts)
    → sum (count_agents r cards c) ≡ sum c + length cards
unfolding count_agents
sum-count_agents r [] c = omega arith
sum-count_agents r ((k, card) ∷ cards) c = omega (
  arith,
  sum-count_agents r cards (count_agent (get_status k r) c),
  sum-count_agent (get_status k r) c,
)

counts-length :
    {Usage : Type 0} (l : List (TaskRecord Usage))
    → count (λ t. is_running (TaskRecord.status t)) l
        + count (λ t. is_completed (TaskRecord.status t)) l
        + count (λ t. is_failed (TaskRecord.status t)) l
      ≤ length l
counts-length [] = omega arith
counts-length (t ∷ l) = one (TaskRecord.status t) (counts-length l)
  where
    one :
        (s : TaskStatus)
        → count (λ u. is_running (TaskRecord.status u)) l
            + count (λ u. is_completed (TaskRecord.status u)) l
            + count (λ u. is_failed (TaskRecord.status u)) l
          ≤ length l
        → ((if is_running s then 1 else 0) + count (λ u. is_running (TaskRecord.status u)) l)
            + ((if is_completed s then 1 else 0)
                + count (λ u. is_completed (TaskRecord.status u)) l)
            + ((if is_failed s then 1 else 0) + count (λ u. is_failed (TaskRecord.status u)) l)
          ≤ length (t ∷ l)
    one pending h = omega (arith, h)
    one running h = omega (arith, h)
    one completed h = omega (arith, h)
    one failed h = omega (arith, h)
    one cancelled h = omega (arith, h)

-- The summary counts every agent under exactly one status, every buffered task once, and at most so
-- many tasks as running, completed or failed.
pub get_summary-totals :
    {Card Usage : Type 0} (r : Registry Card) (tasks : TaskHistory Usage) (errors : ErrorHistory)
    → let s = get_summary r tasks errors in
      (sum s.agents ≡ s.agents_total)
      × (s.tasks_total ≡ length tasks.tasks)
      × (s.tasks_running + s.tasks_completed + s.tasks_failed ≤ s.tasks_total)
unfolding get_summary get_all
get_summary-totals r tasks errors = (
  sum-count_agents r r.cards _ ∙ omega arith,
  length-reverse (map tasks.heap tasks.tasks) ∙ length-map tasks.heap tasks.tasks,
  counts-length (get_all tasks),
)
