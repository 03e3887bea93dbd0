-- ===== src/Reserve.antt =====
-- Agent selection and reservation (orchestrator/main.py): `_get_agents_info`, `_select_agent` and
-- `reserve_agent_waiting_if_needed`. The model's answer, and what the other tasks of the event loop
-- do to the registry while this one waits, are inputs. The selection lock keeps other reservations
-- out between the first query and the update, and nothing else: while this one sleeps or waits for
-- the lock, they take slots too.
pub mod Bounds
mod Tests
use Prim.Native.String.{◌++◌}
use qa_ai_native.Prelude.{
  ℕ, String, Bool, true, false, not, ◌&&◌, Option, none, some, List, [], ◌∷◌, if◌then◌else◌, str_eq,
}
use qa_ai_native.Dict.{lookup, elem}
use qa_ai_native.Registry.{Registry, busy, is_empty, get_available_agents, get_card, update_status}
use qa_ai_native.Registry.Invariant.{Call, perform, perform_all}

-- `"; ".join(parts)`
unfoldable pub join : String → List String → String
join separator [] = ""
join separator (s ∷ []) = s
join separator (s ∷ t ∷ rest) = s ++ (separator ++ join separator (t ∷ rest))

-- What another task does: a call, or the last part of its own reservation, which takes a slot of that
-- agent if it has a free one.
pub data Meanwhile (Card : Type 0) : Type 0 where
  called : Call Card → Meanwhile Card
  reserving : String → Meanwhile Card

-- What one pass of the waiting loop meets: what other tasks do before it gets the selection lock, that
-- is while it sleeps and waits for the lock; the calls that they make while the LLM is asked; and the
-- LLM's answer, `none` if the call raises.
pub record Round (Card : Type 0) : Type 0 where
  pub before_lock : List (Meanwhile Card)
  pub during_selection : List (Call Card)
  pub answer : Option String

pub data Choice : Type 0 where
  nobody : Choice
  chosen : String → Choice
  choice_failed : Choice

-- What a pass comes to: the next one, an agent, or an exception.
pub data Pass (Card : Type 0) : Type 0 where
  not_reserved : Pass Card
  took : String → Card → Pass Card
  pass_failed : Pass Card

pub data Outcome (Card : Type 0) : Type 0 where
  reserved : String → Card → Outcome Card
  -- HTTP 404, no agent is registered
  no_agents : Outcome Card
  -- HTTP 503, the waiting time is over
  wait_timeout : Outcome Card
  -- the exception of the call of the LLM
  selection_failed : Outcome Card

module _ {Card : Type 0} (max_slots : ℕ) where
  -- The second half of a pass: the chosen agent is looked up again, and taken.
  unfoldable pub recheck_and_take : String → Registry Card → Registry Card × Option (String × Card)
  recheck_and_take agent_id r =
      if elem agent_id (get_available_agents max_slots r)
      then (elim (get_card agent_id r) [
        | none ↦ (r, none)
        | some card ↦ (update_status agent_id busy none none r, some (agent_id, card))
      ])
      else (r, none)

  -- What the other tasks do, one after the other.
  abbrev pub go_on_meanwhile : List (Meanwhile Card) → Registry Card → Registry Card
  go_on_meanwhile [] r = r
  go_on_meanwhile (called c ∷ ms) r = go_on_meanwhile ms (perform c r)
  go_on_meanwhile (reserving k ∷ ms) r = go_on_meanwhile ms (recheck_and_take k r).0

module _ {Card : Type 0} (name : Card → String) (skills : Card → List String) where
  unfoldable pub get_agents_info : List String → Registry Card → String
  unfolding join
  get_agents_info [] r = ""
  get_agents_info (agent_id ∷ ids) r =
      let rest = get_agents_info ids r in
      elim (lookup agent_id r.cards) [
        | none ↦ rest
        | some card ↦
            ("- Name: "
              ++ (name card
                  ++ (", ID: "
                      ++ (agent_id ++ (", Skills: " ++ (join "; " (skills card) ++ "\n"))))))
            ++ rest
      ]

  -- `None` without asking the LLM if there is nobody to describe; else the LLM's answer if it is one
  -- of the available agents.
  unfoldable pub select_agent : List String → Option String → Registry Card → Choice
  unfolding get_agents_info
  select_agent available_ids answer r =
      if str_eq (get_agents_info available_ids r) "" then nobody else elim answer [
        | none ↦ choice_failed
        | some id ↦ if not (str_eq id "") && elem id available_ids then chosen id else nobody
      ]

  module _ (max_slots : ℕ) where
    abbrev pub take_chosen : Choice → Registry Card → Registry Card × Pass Card
    take_chosen nobody r = (r, not_reserved)
    take_chosen choice_failed r = (r, pass_failed)
    take_chosen (chosen agent_id) r =
        let (r', taken) = recheck_and_take max_slots agent_id r in
        (r', elim taken [ none ↦ not_reserved | some (k, card) ↦ took k card ])

    -- One pass under the selection lock.
    unfoldable pub reserve_round : Round Card → Registry Card → Registry Card × Pass Card
    unfolding select_agent recheck_and_take
    reserve_round round r = elim (get_available_agents max_slots r) [
      | [] ↦ (r, not_reserved)
      | id ∷ ids ↦
          take_chosen (select_agent (id ∷ ids) round.answer r)
            (perform_all round.during_selection r)
    ]

    -- The waiting loop. The list holds the passes that the waiting time allows.
    unfoldable pub wait_for_agent : List (Round Card) → Registry Card → Registry Card × Outcome Card
    unfolding reserve_round
    wait_for_agent [] r = (r, wait_timeout)
    wait_for_agent (round ∷ rounds) r =
        let (r', pass) = reserve_round round (go_on_meanwhile max_slots round.before_lock r) in
        let again = wait_for_agent rounds r' in
        elim pass [
          | not_reserved ↦ again
          | took agent_id card ↦ (r', reserved agent_id card)
          | pass_failed ↦ (r', selection_failed)
        ]

    unfoldable pub reserve_agent_waiting_if_needed :
        List (Round Card) → Registry Card → Registry Card × Outcome Card
    unfolding wait_for_agent
    reserve_agent_waiting_if_needed rounds r =
        if is_empty r then (r, no_agents) else wait_for_agent rounds r
