-- ===== src/Zephyr/Bounds.antt =====
-- How often the Zephyr client sends a call, and how long it sleeps.
use qa_ai_native.Prelude.{
  ℕ, zero, suc, ◌+◌, ◌-◌, ◌*◌, ◌^◌, ◌<◌, ◌≡◌, refl, sym, ◌∙◌, false, ◌&&◌, Option, List, [], ◌∷◌,
  ◌++◌, arith, inl, inr, Bool-cases, ltb,
}
use native.Mathlib.Nat.{two-pow-succ, mul-add}
use mathlib.Core.List.{append_assoc, append-nil}
use mathlib.Core.Path.{subst}
use qa_ai_native.Json.{Json}
use qa_ai_native.Retry.{Attempt, is_retryable}
use qa_ai_native.Service.{Call, World}
use qa_ai_native.Zephyr.{Config, rounds, request}

abbrev pub copies : ℕ → Call → List Call
copies zero call = []
copies (suc n) call = call ∷ copies n call

-- The delays of `n` rounds from `attempt` on, doubling.
abbrev pub delays : ℕ → ℕ → ℕ → List ℕ
delays base zero attempt = []
delays base (suc n) attempt = base * 2 ^ attempt ∷ delays base n (attempt + 1)

abbrev pub sum : List ℕ → ℕ
sum [] = 0
sum (n ∷ ns) = n + sum ns

sum-delays :
    (base n attempt : ℕ)
    → sum (delays base n attempt) + base * 2 ^ attempt ≡ base * 2 ^ (attempt + n)
sum-delays base zero attempt =
    let here : attempt + 0 ≡ attempt = omega arith in rw here (omega arith)
sum-delays base (suc n) attempt =
    let shift : attempt + suc n ≡ attempt + 1 + n = omega arith in
    let next : attempt + 1 ≡ suc attempt = omega arith in
    let double : base * 2 ^ (attempt + 1) ≡ base * 2 ^ attempt + base * 2 ^ attempt =
      rw (next, two-pow-succ attempt) (mul-add base (2 ^ attempt) (2 ^ attempt)) in
    let rest = sum-delays base n (attempt + 1) in rw shift (rw (← rest) (rw double (omega arith)))

module _ {S : Type 0} (send : Call → S → S × Attempt (Option Json)) (c : Config) where
  -- `n` delays lie between two worlds, and the call is sent once more than that.
  pub record IsRepeated (call : Call) (n attempt : ℕ) (w w' : World S) : Type 0 where
    pub sent : w'.sent ≡ w.sent ++ copies (suc n) call
    pub slept : w'.slept ≡ w.slept ++ delays c.base_delay n attempt

  IsRepeated-again :
      (call : Call) (n attempt : ℕ) (w w' : World S) (s : S)
      → IsRepeated call n
          (attempt + 1)
          (record {
            service = s;
            sent = w.sent ++ call ∷ [];
            slept = w.slept ++ c.base_delay * 2 ^ attempt ∷ [];
          })
          w'
      → IsRepeated call (suc n) attempt w w'
  IsRepeated-again call n attempt w w' s r = record {
    sent = r.sent ∙ append_assoc w.sent (call ∷ []) (copies (suc n) call);
    slept =
        r.slept
        ∙ append_assoc w.slept (c.base_delay * 2 ^ attempt ∷ [])
            (delays c.base_delay n (attempt + 1));
  }

  abbrev Repeats : Call → ℕ → ℕ → World S → Type 0
  Repeats call left attempt w =
      (n : ℕ) × (n < suc left)
      × IsRepeated call n attempt w (rounds send c (suc left) attempt call w).0

  rounds-Repeats :
      (call : Call) (left attempt : ℕ) (w : World S)
      → suc left + attempt ≡ c.max_retries
      → Repeats call left attempt w
  unfolding rounds
  rounds-Repeats call zero attempt w e =
      let stop : (is_retryable c.retryable_codes (send call w.service).1
            && ltb attempt (c.max_retries - 1))
          ≡ false =
        ground (arith, e) in
      rw stop (0, omega arith, record { sent = refl; slept = sym (append-nil w.slept) })
  rounds-Repeats call (suc left) attempt w e =
      elim (Bool-cases (
        is_retryable c.retryable_codes (send call w.service).1
        && ltb attempt (c.max_retries - 1))) [
          | inl more ↦ rw more (
              let (n, lt, r) = rounds-Repeats call left (attempt + 1) _ (omega (arith, e)) in
              (suc n, omega (arith, lt), IsRepeated-again call n attempt w _ _ r))
          | inr stop ↦
              rw stop (0, omega arith, record { sent = refl; slept = sym (append-nil w.slept) })
        ]

  -- Whatever the service answers, a request is sent at least once and at most `max_retries` times,
  -- with a sleep between two times, and the sleeps, which double, add up to less than the base delay
  -- times two to the number of the retries.
  pub request-IsBounded :
      (call : Call) (w : World S)
      → 0 < c.max_retries
      → (n : ℕ) × (n < c.max_retries)
        × IsRepeated call n 0 w (request send c call w).0
        × (sum (delays c.base_delay n 0) + c.base_delay ≡ c.base_delay * 2 ^ n)
  unfolding request
  request-IsBounded call w positive =
      let last : suc (c.max_retries - 1) ≡ c.max_retries = omega (arith, positive) in
      finish (c.max_retries - 1) last
        (rounds-Repeats call (c.max_retries - 1) 0 w (omega (arith, last)))
    where
      total : (n : ℕ) → sum (delays c.base_delay n 0) + c.base_delay ≡ c.base_delay * 2 ^ n
      total n =
          let zero_plus : 0 + n ≡ n = omega arith in
          let one : c.base_delay * 2 ^ 0 ≡ c.base_delay = omega arith in
          rw (zero_plus, one) at (sum-delays c.base_delay n 0)

      finish :
          (m : ℕ)
          → suc m ≡ c.max_retries
          → Repeats call m 0 w
          → (n : ℕ) × (n < c.max_retries)
            × IsRepeated call n 0 w (rounds send c c.max_retries 0 call w).0
            × (sum (delays c.base_delay n 0) + c.base_delay ≡ c.base_delay * 2 ^ n)
      finish m last (n, lt, r) = (
        n,
        omega (arith, lt, last),
        subst (λ k. IsRepeated call n 0 w (rounds send c k 0 call w).0) last r,
        total n,
      )
