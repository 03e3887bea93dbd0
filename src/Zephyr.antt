-- ===== src/Zephyr.antt =====
-- The client of Zephyr Scale (common/services/zephyr_client.py): `_request` and the calls that the
-- operations share. The service is a parameter: a state and what it answers to each call, where
-- `none` is an answer without a JSON body.
pub mod Text
pub mod Cases
pub mod Parse
pub mod Search
pub mod Bounds
pub mod RoundTrip
pub mod Pages
pub mod Matches
pub mod Found
pub mod Updates
mod Tests
pub mod Creates
pub mod Sends
pub mod Payload
pub mod Reports
pub mod Edits
pub mod Executions
use qa_ai_native.Prelude.{
  ℕ, zero, suc, ◌+◌, ◌-◌, ◌*◌, ◌^◌, String, Bool, true, false, ◌&&◌, Option, none, some, List, [],
  ◌∷◌, ◌++◌, if◌then◌else◌, ltb, any, str_append,
}
use qa_ai_native.Json.{Json, null}
use qa_ai_native.Retry.{Attempt, succeeded, http_error, transport_error, other_error, is_retryable}
use qa_ai_native.Service.{
  Method, http_get, http_post, http_put, Call, Exception, http_status, transport, unexpected,
  Outcome, done, failed, World, Api, ◌>>=◌, ◌>>◌, pure, or_raise,
}

-- What the configuration sets.
pub record Config : Type 0 where
  pub base_url : String
  pub max_retries : ℕ
  pub base_delay : ℕ
  pub retryable_codes : List ℕ
  pub custom_fields_name : String
  pub comments_field_name : String

-- What a round ends with that is not repeated.
abbrev pub outcome_of : {A : Type 0} → Attempt A → Outcome A
outcome_of (succeeded a) = done a
outcome_of (http_error code) = failed (http_status code)
outcome_of transport_error = failed transport
outcome_of other_error = failed unexpected

module _ {S : Type 0} (send : Call → S → S × Attempt (Option Json)) (c : Config) where
  -- The loop of `_request` from a round on, with the number of rounds left. Without any round it
  -- returns `None`, which has no `json` method.
  unfoldable pub rounds : ℕ → ℕ → Call → Api S (Option Json)
  rounds zero attempt call w = (w, done none)
  rounds (suc left) attempt call w =
      let (service, reply) = send call w.service in
      let sent = w.sent ++ call ∷ [] in
      let delay = c.base_delay * 2 ^ attempt in
      let again =
        rounds left (attempt + 1) call
          (record { service = service; sent = sent; slept = w.slept ++ delay ∷ [] }) in
      if is_retryable c.retryable_codes reply && ltb attempt (c.max_retries - 1)
      then again
      else (record { service = service; sent = sent; slept = w.slept }, outcome_of reply)

  unfoldable pub request : Call → Api S (Option Json)
  unfolding rounds
  request call = rounds c.max_retries 0 call

  -- `self._request(...).json()`
  unfoldable pub request_json : Call → Api S Json
  unfolding request
  request_json call = do body ← request call; or_raise unexpected body
