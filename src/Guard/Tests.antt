-- ===== src/Guard/Tests.antt =====
-- The guard at concrete requests.
use qa_ai_native.Prelude.{ℕ, ◌≡◌, refl, String, none, some, List, [], ◌∷◌, arith}
use qa_ai_native.Dict.{insert}
use qa_ai_native.Guard.{
  Limits, duplicate, rate_limited, new_guard, check, evict, admit, trim, unexpired,
}
use qa_ai_native.Guard.Spec.{answers, decisions, guard-refines-log}

abbrev limits : Limits
limits = record { dedup_window = 30; global_max = 2; second = 1 }

abbrev requests : List (String × ℕ)
requests = ("w1", 10) ∷ ("w1", 20) ∷ ("w1", 41) ∷ ("w2", 42) ∷ ("w2", 71) ∷ []

answered :
    answers limits requests new_guard ≡ none ∷ some duplicate ∷ none ∷ some rate_limited ∷ none ∷ []
unfolding check evict admit trim unexpired new_guard insert
answered = refl

guard-refines-log_example : answers limits requests new_guard ≡ decisions limits requests []
guard-refines-log_example =
    guard-refines-log limits requests
      (omega arith, (omega arith, (omega arith, (omega arith, (omega arith, tt)))))
