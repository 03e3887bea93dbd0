-- ===== src/Discovery/Unique/Tests.antt =====
-- A discovery of two addresses of one agent, whose cards are fetched at the same time.
use qa_ai_native.Prelude.{
  ◌≡◌, refl, String, false, Option, some, none, List, [], ◌∷◌, arith, eq_iff,
}
use qa_ai_native.Dict.{insert}
use qa_ai_native.Registry.{
  empty_registry, register, get_agent_id_by_url, id_by_url, available, update_status,
  mark_available,
}
use qa_ai_native.Registry.Invariant.{updating}
use qa_ai_native.Discovery.{
  Found, Event, starts, fetched, registry_call, discover_agents, step, begin_url_discovery,
  end_url_discovery,
}
use qa_ai_native.Discovery.Unique.{HasUniqueUrls, discover_agents-HasUniqueUrls}

-- A card is its address here.
abbrev url_of : String → Option String
url_of card = some card

abbrev found : String → Found String
found id = record { card = some "http://a:1"; new_agent_id = id }

abbrev urls : List String
urls = "http://a:1" ∷ "http://b:1" ∷ []

abbrev events : List (Event String)
events =
    starts "http://a:1"
    ∷ starts "http://b:1"
    ∷ fetched "http://b:1" (found "x")
    ∷ registry_call (updating "x" available none none)
    ∷ fetched "http://a:1" (found "y")
    ∷ []

registered_once :
    (discover_agents url_of urls events empty_registry).registry.cards ≡ ("x", "http://a:1") ∷ []
unfolding discover_agents register empty_registry insert get_agent_id_by_url id_by_url update_status
    mark_available
registered_once = refl

discover_agents-HasUniqueUrls_example :
    let s = discover_agents url_of urls events empty_registry in
    (s.raised ≡ false) × HasUniqueUrls url_of s.registry
unfolding step begin_url_discovery end_url_discovery register empty_registry insert
    get_agent_id_by_url id_by_url update_status mark_available
discover_agents-HasUniqueUrls_example =
    discover_agents-HasUniqueUrls url_of urls events empty_registry
      (
        tt,
        (
          tt,
          (
            ((λ card e. (card, refl)), ((λ same. ground (arith, same, eq_iff "x" "")), refl)),
            (
              tt,
              (
                ((λ card e. (card, refl)), ((λ same. ground (arith, same, eq_iff "y" "")), refl)),
                tt,
              ),
            ),
          ),
        ),
      )
      ((λ url. omega arith), refl)
