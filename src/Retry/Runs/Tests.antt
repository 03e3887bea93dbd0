-- ===== src/Retry/Runs/Tests.antt =====
-- Retries of a concrete call.
use qa_ai_native.Prelude.{ℕ, zero, suc, ◌<◌, ◌≡◌, true, refl, String, [], ◌∷◌, arith, inl}
use qa_ai_native.Retry.{Attempt, succeeded, http_error, run_agent_with_retry, ended, is_retryable}
use qa_ai_native.Retry.Runs.{backoff, retry-backoff}

-- The first call is throttled, the second succeeds.
abbrev outcomes : ℕ → Attempt String
outcomes zero = http_error 429
outcomes (suc n) = succeeded "ok"

retry-backoff_example :
    run_agent_with_retry (429 ∷ 503 ∷ []) 3 2 outcomes
    ≡ (ended (429 ∷ 503 ∷ []) (outcomes 1), backoff (429 ∷ 503 ∷ []) 3 2 outcomes 1 0)
retry-backoff_example =
    retry-backoff (429 ∷ 503 ∷ []) 3 2 outcomes 1 (omega arith) throttled (inl refl)
  where
    throttled : (i : ℕ) → i < 1 → is_retryable (429 ∷ 503 ∷ []) (outcomes i) ≡ true
    throttled zero h = refl
    throttled (suc i) h = absurd (omega (arith, h))
