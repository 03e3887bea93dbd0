-- ===== src/History/Errors.antt =====
-- `ErrorRecord` and `ErrorHistory` (orchestrator/models.py): a ring buffer of errors.
use qa_ai_native.Prelude.{ℕ, suc, ◌≡◌, refl, ap, ◌∙◌, String, Option, List, [], ◌∷◌, reverse, take}
use qa_ai_native.Prelude.Int.{ℤ, pos, neg}
use qa_ai_native.Ring.{
  ring_append, ring_append_all, keep_last, ring_append_all-nil, slice_from, reverse-keep_last,
}

pub record ErrorRecord : Type 0 where
  pub error_id : String
  pub timestamp : ℕ
  pub message : String
  pub task_id : Option String
  pub agent_id : Option String
  pub module_name : Option String
  pub traceback_snippet : Option String

pub record ErrorHistory : Type 0 where
  pub max_size : ℕ
  pub errors : List ErrorRecord

unfoldable pub new_errors : ℕ → ErrorHistory
new_errors max_size = record { max_size = max_size; errors = [] }

unfoldable pub add_error : ErrorRecord → ErrorHistory → ErrorHistory
add_error error h = record h { errors = ring_append h.max_size error h.errors }

-- Newest first.
unfoldable pub all_errors : ErrorHistory → List ErrorRecord
all_errors h = reverse h.errors

-- `list(reversed(list(self._errors)[-limit:]))`
unfoldable pub recent_errors : ℤ → ErrorHistory → List ErrorRecord
recent_errors limit h = reverse (slice_from (neg limit) h.errors)

abbrev pub add_errors : List ErrorRecord → ErrorHistory → ErrorHistory
add_errors [] h = h
add_errors (e ∷ es) h = add_errors es (add_error e h)

add_errors-errors :
    (es : List ErrorRecord) (h : ErrorHistory)
    → (add_errors es h).errors ≡ ring_append_all h.max_size es h.errors
unfolding add_error
add_errors-errors [] h = refl
add_errors-errors (e ∷ es) h = add_errors-errors es (add_error e h)

-- A new history that has recorded any errors lists the last `max_size` of them, newest first; and
-- for a positive limit `get_recent` lists the first `limit` of that list. For the limit 0 it lists
-- all of them: the slice `[-0:]` cuts nothing.
pub recent-all :
    (n limit : ℕ) (es : List ErrorRecord)
    → let h = add_errors es (new_errors n) in
      (all_errors h ≡ reverse (keep_last n es))
      × (recent_errors (pos (suc limit)) h ≡ take (suc limit) (all_errors h))
      × (recent_errors (pos 0) h ≡ all_errors h)
unfolding new_errors all_errors recent_errors
recent-all n limit es = (
  ap reverse (add_errors-errors es (new_errors n) ∙ ring_append_all-nil n es),
  reverse-keep_last (suc limit) _,
  refl,
)
