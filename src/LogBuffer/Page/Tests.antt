-- ===== src/LogBuffer/Page/Tests.antt =====
-- Pages of a concrete log.
use qa_ai_native.Prelude.{◌≡◌, refl, String, none, some, List, [], ◌∷◌, reverse, take, drop, map}
use qa_ai_native.Ring.{keep_last, ring_append}
use qa_ai_native.LogBuffer.{LogEntry, get_logs, by_level, emit, noise_filter}
use qa_ai_native.LogBuffer.Page.{emit_all, kept, get_logs-emit_all}

abbrev entry : String → String → String → LogEntry
entry level logger_name message = record {
  timestamp = "now";
  level = level;
  logger_name = logger_name;
  message = message;
  task_id = none;
  agent_id = none;
  error_type = none;
}

abbrev entries : List LogEntry
entries =
    entry "INFO" "main" "one"
    ∷ entry "ERROR" "main" "two"
    ∷ entry "ERROR" "httpx" "noise"
    ∷ entry "ERROR" "main" "three"
    ∷ []

second_page :
    map LogEntry.message (get_logs (λ s. s) 1 1 (some "ERROR") (emit_all 3 entries [])) ≡ "two" ∷ []
unfolding get_logs emit noise_filter ring_append
second_page = refl

get_logs-emit_all_example :
    get_logs (λ s. s) 1 1 (some "ERROR") (emit_all 3 entries [])
    ≡ take 1 (drop 1 (reverse (by_level (λ s. s) (some "ERROR") (keep_last 3 (kept entries)))))
get_logs-emit_all_example = get_logs-emit_all (λ s. s) 3 1 1 (some "ERROR") entries
