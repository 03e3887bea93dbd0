-- ===== src/Recovery/Pass.antt =====
-- What a pass of the recovery loop does to an agent that answers.
use qa_ai_native.Prelude.{
  ℕ, ◌-◌, ◌*◌, ◌≤◌, ◌≡◌, refl, ap, String, Bool, true, false, Option, none, some, arith,
  if◌then◌else◌, leb, ltb,
}
use qa_ai_native.Dict.{lookup}
use qa_ai_native.Registry.{
  available, broken, BrokenReason, offline, task_stuck, Registry, get_card, get_status, slots_of,
  update_status, get_broken_context,
}
use qa_ai_native.Registry.Invariant.{perform_all}
use qa_ai_native.Registry.Slots.{Has, update_available-Has}
use qa_ai_native.Recovery.{Probe, recovered, judge, settle, recovery_pass}

judge_responding :
    (reason : Option BrokenReason) (stuck : Option String) (url : String)
    (cancelled responds : Bool)
    → responds ≡ true
    → judge reason stuck (some url) cancelled responds ≡ recovered
unfolding judge
judge_responding none stuck url cancelled responds up = ground arith
judge_responding (some offline) stuck url cancelled responds up = ground arith
judge_responding (some task_stuck) stuck url cancelled responds up = ground arith

module _ {Card : Type 0} (first_url : Card → Option String) (second : ℕ) where
  recovery_pass_responding :
      (p : Probe Card) (k : String) (timestamp : ℕ) (r : Registry Card) (card : Card) (url : String)
      → p.now - timestamp ≤ 24 * 3600 * second
      → lookup k r.cards ≡ some card
      → first_url card ≡ some url
      → p.responds ≡ true
      → recovery_pass first_url second p k timestamp r
        ≡ (update_status k available none none (perform_all p.during r), none)
  unfolding recovery_pass get_card settle
  recovery_pass_responding p k timestamp r card url early known address up =
      let (reason, stuck) = get_broken_context k r in
      let in_time : ltb (24 * 3600 * second) (p.now - timestamp) ≡ false = ground (arith, early) in
      rw (in_time, known, address)
        (ap (λ v. settle v p k timestamp (perform_all p.during r))
          (judge_responding reason stuck url p.cancelled p.responds up))

  -- Within 24 hours, a pass for a registered agent with an address that answers ends its recovery:
  -- it does not go back to the queue, and if the agent is registered and BROKEN with `n` slots taken
  -- when the answer comes, one slot is freed. It is AVAILABLE then if at most one was taken, and
  -- stays BROKEN if there were more.
  pub recovery_pass-settles :
      (p : Probe Card) (k : String) (timestamp n : ℕ) (r : Registry Card) (card card' : Card)
      (url : String)
      → p.now - timestamp ≤ 24 * 3600 * second
      → lookup k r.cards ≡ some card
      → first_url card ≡ some url
      → p.responds ≡ true
      → Has k (perform_all p.during r) card' broken n
      → let (r', again) = recovery_pass first_url second p k timestamp r in
        (again ≡ none)
        × (slots_of k r' ≡ n - 1)
        × (get_status k r' ≡ (if leb n 1 then available else broken))
  unfolding get_status
  recovery_pass-settles p k timestamp n r card card' url early known address up held =
      let e = recovery_pass_responding p k timestamp r card url early known address up in
      let done = update_available-Has k card' broken n (perform_all p.during r) held in
      rw e (refl, ground (arith, done), ground (arith, done))
