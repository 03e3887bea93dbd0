-- ===== src/LogCapture.antt =====
-- The log capture of one agent run (common/agent_log_capture.py): `AgentLogCaptureHandler`. The
-- lines are formatted by Python's `logging`; whether the current context is bound to this handler
-- is an input of `emit`.
pub mod Drain
use qa_ai_native.Prelude.{
  ℕ, ◌+◌, ◌-◌, ◌≤◌, ◌≡◌, refl, sym, ap, ◌∙◌, String, Bool, List, [], ◌∷◌, ◌++◌, arith,
  if◌then◌else◌, leb, drop, length, Bool-cases, inl, inr, length-append, length-drop,
}
use qa_ai_native.Ring.{ring_append, keep_last, ring_append-keep_last}

pub record LogCapture : Type 0 where
  pub max_records : ℕ
  pub buffer : List String
  pub drain_cursor : ℕ
  pub emitted_total : ℕ

unfoldable pub new_capture : ℕ → LogCapture
new_capture max_records = record {
  max_records = max_records;
  buffer = [];
  drain_cursor = 0;
  emitted_total = 0;
}

unfoldable pub emit : Bool → String → LogCapture → LogCapture
emit bound line c =
    if bound
    then record c {
      buffer = ring_append c.max_records line c.buffer;
      emitted_total = c.emitted_total + 1;
    }
    else c

abbrev pub min : ℕ → ℕ → ℕ
min a b = if leb a b then a else b

-- The comprehension lists the last `k` lines.
unfoldable pub drain : LogCapture → LogCapture × List String
drain c =
    let new_count = c.emitted_total - c.drain_cursor in
    let c' : LogCapture = record c { drain_cursor = c.emitted_total } in
    if leb new_count 0
    then (c', [])
    else (let buf_len = length c.buffer in
        let k = min new_count buf_len in (c', drop (buf_len - k) c.buffer))
