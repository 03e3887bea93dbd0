-- ===== src/Hub/Subscriptions.antt =====
-- Subscriptions come and go without a trace.
use qa_ai_native.Prelude.{
  ℕ, ◌≡◌, refl, ap, String, List, [], ◌∷◌, ◌++◌, length, arith, eq_iff, Bool-cases, str_eq, false,
  if◌then◌else◌, inl, inr,
}
use qa_ai_native.Dict.{lookup-insert, lookup-erase}
use qa_ai_native.Hub.{
  Hub, Subscriber, new_subscriber, remove_at, subs_of, subscribe_global, unsubscribe_global,
  subscribe_agent, unsubscribe_agent,
}

remove_last : {A : Type 0} (l : List A) (x : A) → remove_at (length l) (l ++ x ∷ []) ≡ l
remove_last [] x = refl
remove_last (y ∷ l) x = ap (λ m. y ∷ m) (remove_last l x)

-- The list of an agent after a subscription to it has come and gone.
subs_after :
    (agent_id : String) (subs : List Subscriber) (hub : Hub)
    → subs_of agent_id hub ≡ subs
    → remove_at (length subs) (subs_of agent_id (subscribe_agent agent_id hub)) ≡ subs
unfolding subscribe_agent
subs_after agent_id subs hub e =
    let stored =
      lookup-insert agent_id agent_id (subs_of agent_id hub ++ new_subscriber ∷ [])
        hub.agent_subs in
    let at : subs_of agent_id (subscribe_agent agent_id hub) ≡ subs ++ new_subscriber ∷ [] =
      ground (arith, stored, eq_iff agent_id agent_id, e) in
    rw at (remove_last subs new_subscriber)

unsubscribe_agent-subs :
    (agent_id a : String) (place : ℕ) (left : List Subscriber) (hub : Hub)
    → remove_at place (subs_of agent_id hub) ≡ left
    → subs_of a (unsubscribe_agent agent_id place hub)
      ≡ (if str_eq agent_id a then left else subs_of a hub)
unfolding unsubscribe_agent
unsubscribe_agent-subs agent_id a place [] hub e =
    ground (arith, e, lookup-erase agent_id a hub.agent_subs)
unsubscribe_agent-subs agent_id a place (s ∷ subs) hub e =
    ground (arith, e, lookup-insert agent_id a (s ∷ subs) hub.agent_subs)

subscribe_agent-others :
    (agent_id a : String) (hub : Hub)
    → str_eq agent_id a ≡ false
    → subs_of a (subscribe_agent agent_id hub) ≡ subs_of a hub
unfolding subscribe_agent
subscribe_agent-others agent_id a hub ne = ground (
  arith,
  ne,
  lookup-insert agent_id a (subs_of agent_id hub ++ new_subscriber ∷ []) hub.agent_subs,
)

-- A subscription that is entered and left, with no other in between, leaves the hub as it was: for
-- a global one the hub is the same, and for one to an agent every agent has the subscribers that it
-- had.
pub unsubscribe-subscribe :
    (agent_id a : String) (hub : Hub)
    → (unsubscribe_global (length hub.global_subs) (subscribe_global hub) ≡ hub)
      × (subs_of a (
            unsubscribe_agent agent_id
              (length (subs_of agent_id hub))
              (subscribe_agent agent_id hub))
          ≡ subs_of a hub)
unfolding subscribe_global unsubscribe_global
unsubscribe-subscribe agent_id a hub = (
  ap (λ subs. record hub { global_subs = subs }) (remove_last hub.global_subs new_subscriber),
  let left =
        unsubscribe_agent-subs agent_id a (length (subs_of agent_id hub)) (subs_of agent_id hub)
          (subscribe_agent agent_id hub) (subs_after agent_id _ hub refl) in
      elim (Bool-cases (str_eq agent_id a)) [
        | inl same ↦ ground (
          arith,
          left,
          same,
          eq_iff agent_id a,
          ap (λ k. subs_of k hub) ((eq_iff agent_id a).0 same),
        )
        | inr other ↦ ground (arith, left, other, subscribe_agent-others agent_id a hub other)
      ],
)
