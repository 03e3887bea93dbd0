-- ===== src/Retry.antt =====
-- Retries of calls to the language model (orchestrator/main.py): `_run_agent_with_retry`. What each
-- call comes to is an input.
pub mod Runs
use qa_ai_native.Prelude.{
  ℕ, zero, suc, ◌+◌, ◌-◌, ◌*◌, ◌^◌, Bool, true, false, List, [], ◌∷◌, ◌&&◌, if◌then◌else◌, ltb, any,
  ◌==◌,
}

-- The outcome of one call: a result, an HTTP error of the provider with its status code, an error of
-- the transport, or any other exception.
pub data Attempt {ℓ} (A : Type ℓ) : Type ℓ where
  succeeded : A → Attempt A
  http_error : ℕ → Attempt A
  transport_error : Attempt A
  other_error : Attempt A

-- How the function ends, with the delays that it slept. `exhausted` is the `None` of a loop without
-- any round.
pub data Ended {ℓ} (A : Type ℓ) : Type ℓ where
  returned : A → Ended A
  raised : Attempt A → Ended A
  exhausted : Ended A

module _ {ℓ} {A : Type ℓ} (retryable_codes : List ℕ) where
  -- `is_retryable`
  abbrev pub is_retryable : Attempt A → Bool
  is_retryable (succeeded a) = false
  is_retryable (http_error code) = any (λ c. c == code) retryable_codes
  is_retryable transport_error = true
  is_retryable other_error = false

  abbrev pub ended : Attempt A → Ended A
  ended (succeeded a) = returned a
  ended (http_error code) = raised (http_error code)
  ended transport_error = raised transport_error
  ended other_error = raised other_error

  module _ (max_retries base_delay : ℕ) (outcomes : ℕ → Attempt A) where
    -- The loop from a round on, with the number of rounds left.
    unfoldable pub attempts : ℕ → ℕ → Ended A × List ℕ
    attempts zero attempt = (exhausted, [])
    attempts (suc left) attempt =
        let (last, delays) = attempts left (attempt + 1) in
        if is_retryable (outcomes attempt) && ltb attempt (max_retries - 1)
        then (last, base_delay * 2 ^ attempt ∷ delays)
        else (ended (outcomes attempt), [])

    unfoldable pub run_agent_with_retry : Ended A × List ℕ
    unfolding attempts
    run_agent_with_retry = attempts max_retries 0
