-- ===== src/LogBuffer.antt =====
-- The log records that the dashboard shows (orchestrator/memory_log_handler.py): `LogEntry` and
-- `MemoryLogHandler`. The formatting of a record belongs to Python's `logging`: an entry is an
-- input. Limits and offsets are natural numbers.
pub mod Page
use text.Mathlib.Text.{starts_with}
use mathlib.Core.List.{reverse-append}
use qa_ai_native.Prelude.{
  ℕ, ◌+◌, ◌-◌, ◌≤◌, ◌≡◌, refl, sym, ap, ◌∙◌, String, Bool, true, false, not, Option, none, some,
  List, [], ◌∷◌, ◌++◌, reverse, arith, if◌then◌else◌, leb, str_eq, any, filter, take, drop, length,
  Bool-cases, inl, inr, length-reverse, length-drop, take-append-drop,
}
use qa_ai_native.Dict.{truthy}
use qa_ai_native.Registry.{or_default}
use qa_ai_native.Ring.{
  ring_append, ring_append_all, keep_last, reverse-keep_last, ring_append_all-nil,
}

pub record LogEntry : Type 0 where
  pub timestamp : String
  pub level : String
  pub logger_name : String
  pub message : String
  pub task_id : Option String
  pub agent_id : Option String
  pub error_type : Option String

-- `_NoiseFilter.filter`
unfoldable pub noise_filter : String → Bool
noise_filter name = not (
    any (λ p. starts_with p name)
      ("uvicorn.access" ∷ "httpx" ∷ "hpack" ∷ "h11" ∷ "httpcore" ∷ "anyio" ∷ []))

-- `emit`, behind the filter of the handler.
unfoldable pub emit : ℕ → LogEntry → List LogEntry → List LogEntry
unfolding noise_filter
emit max_size entry buffer =
    if noise_filter entry.logger_name then ring_append max_size entry buffer else buffer

-- `logs[start:end]`
abbrev pub slice {ℓ} : {A : Type ℓ} → ℕ → ℕ → List A → List A
slice start end l = drop start (take end l)

abbrev pub page {ℓ} : {A : Type ℓ} → ℕ → ℕ → List A → List A
page limit offset logs =
    let total_logs = length logs in
    if leb total_logs offset
    then []
    else reverse (slice (total_logs - offset - limit) (total_logs - offset) logs)

module _ (upper : String → String) where
  -- The filter by level, if one is given.
  abbrev pub by_level : Option String → List LogEntry → List LogEntry
  by_level level logs =
      if truthy level then filter (λ e. str_eq e.level (upper (or_default "" level))) logs else logs

  unfoldable pub get_logs : ℕ → ℕ → Option String → List LogEntry → List LogEntry
  get_logs limit offset level buffer = page limit offset (by_level level buffer)
