-- ===== src/Recovery/Tests.antt =====
-- Recovery at a concrete registry.
use qa_ai_native.Prelude.{
  ◌≡◌, refl, String, Bool, true, false, ◌&&◌, Option, none, some, [], ◌∷◌, arith, str_eq,
}
use qa_ai_native.Dict.{insert}
use qa_ai_native.Registry.{
  busy, broken, task_stuck, Registry, empty_registry, register, update_status, mark_busy,
  mark_broken, get_status, slots_of,
}
use qa_ai_native.Registry.Invariant.{registering, updating, perform_all, perform_all-empty-IsValid}
use qa_ai_native.Recovery.{Probe, recovery_pass, health_check_agents, is_available}
use qa_ai_native.Recovery.Pass.{recovery_pass-settles}
use qa_ai_native.Recovery.Health.{Marks, dead, health_check-Marks}

-- A card is its address here.
abbrev url_of : String → Option String
url_of card = some card

-- An agent with two running tasks, of which one got stuck.
abbrev stuck : Registry String
stuck =
    perform_all
      (registering "a" "http://a"
        ∷ updating "a" busy none none
        ∷ updating "a" busy none none
        ∷ updating "a" broken (some task_stuck) (some "t1")
        ∷ [])
      empty_registry

abbrev probe : Probe String
probe = record { now = 20; cancelled = false; responds = true; during = []; during_sleep = [] }

recovery_pass-settles_example :
    let (r', again) = recovery_pass url_of 1 probe "a" 10 stuck in
    (again ≡ none) × (slots_of "a" r' ≡ 1) × (get_status "a" r' ≡ broken)
unfolding empty_registry register update_status mark_busy mark_broken insert
recovery_pass-settles_example =
    recovery_pass-settles url_of 1 probe "a" 10 2 stuck "http://a" "http://a" "http://a"
      (omega arith) refl refl refl (refl, refl, refl)

abbrev idle : Registry String
idle = perform_all (registering "a" "http://a" ∷ registering "b" "http://b" ∷ []) empty_registry

abbrev is_b : String → Bool
is_b k = str_eq k "b"

health_check-Marks_example :
    Marks url_of is_b
      (is_available (get_status "a" idle) && dead url_of is_b "a" idle.cards)
      "a"
      (idle, [])
      (health_check_agents url_of is_b 7 (idle, []))
health_check-Marks_example =
    health_check-Marks url_of is_b 7 "a" idle []
      (perform_all-empty-IsValid (registering "a" "http://a" ∷ registering "b" "http://b" ∷ []))
