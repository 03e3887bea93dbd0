-- ===== src/Retry/Runs.antt =====
-- When the retries stop, and what they have slept.
mod Tests
use qa_ai_native.Prelude.{
  ℕ, zero, suc, ◌+◌, ◌-◌, ◌*◌, ◌^◌, ◌<◌, ◌≡◌, refl, ap, true, false, List, [], ◌∷◌, arith, ◌⊎◌, inl,
  inr, ltb, ◌&&◌, ◌∙◌,
}
use qa_ai_native.Retry.{Attempt, Ended, is_retryable, ended, attempts, run_agent_with_retry}

module _ {ℓ} {A : Type ℓ} (codes : List ℕ) (max base : ℕ) (outcomes : ℕ → Attempt A) where
  -- The delays of the rounds from `attempt` on, doubling.
  abbrev pub backoff : ℕ → ℕ → List ℕ
  backoff zero attempt = []
  backoff (suc n) attempt = base * 2 ^ attempt ∷ backoff n (attempt + 1)

  attempts-backoff :
      (n left attempt : ℕ)
      → n < left
      → left + attempt ≡ max
      → ((i : ℕ) → i < n → is_retryable codes (outcomes (attempt + i)) ≡ true)
      → (is_retryable codes (outcomes (attempt + n)) ≡ false) ⊎ (attempt + n + 1 ≡ max)
      → attempts codes max base outcomes left attempt
        ≡ (ended codes (outcomes (attempt + n)), backoff n attempt)
  unfolding attempts
  attempts-backoff n zero attempt lt e before stop = absurd (omega (arith, lt))
  attempts-backoff zero (suc left) attempt lt e before stop =
      let here : attempt + 0 ≡ attempt = omega arith in
      let at : outcomes (attempt + 0) ≡ outcomes attempt = ap outcomes here in
      let last : (is_retryable codes (outcomes attempt) && ltb attempt (max - 1)) ≡ false =
        elim stop [
          | inl fatal ↦ ground (arith, fatal, ap (is_retryable codes) at)
          | inr limit ↦ ground (arith, limit)
        ] in
      rw last (
        ap (λ o. (ended codes o, []))
          (ap outcomes (let b : attempt ≡ attempt + 0 = omega arith in b)))
  attempts-backoff (suc n) (suc left) attempt lt e before stop =
      let shift : (i : ℕ) → attempt + suc i ≡ attempt + 1 + i = λ i. omega arith in
      let again : is_retryable codes (outcomes attempt) ≡ true =
        ap (λ m. is_retryable codes (outcomes m)) (let b : attempt ≡ attempt + 0 = omega arith in b)
        ∙ before 0 (omega arith) in
      let room : ltb attempt (max - 1) ≡ true = ground (arith, lt, e) in
      let rest =
        attempts-backoff n left (attempt + 1) (omega (arith, lt)) (omega (arith, e))
          (λ i h. rw (shift i) at (before (suc i) (omega (arith, h)))) (rw (shift n) at stop) in
      rw (again, room, shift n) (ap (λ s. (s.0, base * 2 ^ attempt ∷ s.1)) rest)

  -- If the first `n` calls end in an error worth a retry, and the next one does not or is the last
  -- of the allowed ones, then its outcome is that of the function, after sleeps that double from the
  -- base delay.
  pub retry-backoff :
      (n : ℕ)
      → n < max
      → ((i : ℕ) → i < n → is_retryable codes (outcomes i) ≡ true)
      → (is_retryable codes (outcomes n) ≡ false) ⊎ (n + 1 ≡ max)
      → run_agent_with_retry codes max base outcomes ≡ (ended codes (outcomes n), backoff n 0)
  unfolding run_agent_with_retry
  retry-backoff n lt before stop =
      let zero_plus : (i : ℕ) → 0 + i ≡ i = λ i. omega arith in
      rw (zero_plus n) at (
        attempts-backoff n max 0 lt (omega arith) (λ i h. rw (zero_plus i) (before i h))
          (rw (zero_plus n) stop))
