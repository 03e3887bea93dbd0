-- ===== src/Guard.antt =====
-- `_RequirementReviewGuard` (orchestrator/main.py): the dedup window and the rate cap of the
-- unauthenticated review webhook. Times are readings of the monotonic clock, in any unit of which
-- `second` make a second.
pub mod Window
pub mod Spec
mod Tests
use qa_ai_native.Prelude.{
  ℕ, ◌+◌, ◌-◌, ◌*◌, String, Bool, Option, none, some, List, [], ◌∷◌, ◌++◌, if◌then◌else◌, ltb, leb,
  not, length, filter,
}
use qa_ai_native.Dict.{Dict, contains, insert}

pub data DropReason : Type 0 where
  duplicate rate_limited : DropReason

pub record Limits : Type 0 where
  pub dedup_window : ℕ
  pub global_max : ℕ
  pub second : ℕ

pub record Guard : Type 0 where
  pub last_seen : Dict ℕ
  pub global_window : List ℕ

unfoldable pub new_guard : Guard
new_guard = record { last_seen = []; global_window = [] }

-- `while window and now - window[0] > 60: window.popleft()`
unfoldable pub trim : ℕ → ℕ → List ℕ → List ℕ
trim minute now [] = []
trim minute now (t ∷ window) =
    let rest = trim minute now window in if ltb minute (now - t) then rest else t ∷ window

-- The entries that are not expired.
unfoldable pub unexpired : ℕ → ℕ → Dict ℕ → Dict ℕ
unexpired dedup now = filter (λ e. not (ltb dedup (now - e.1)))

-- The first half of `check`: what is too old leaves.
unfoldable pub evict : Limits → ℕ → Guard → Guard
unfolding trim unexpired
evict limits now g = record {
  last_seen = unexpired limits.dedup_window now g.last_seen;
  global_window = trim (60 * limits.second) now g.global_window;
}

-- The second half: the drop reasons, in the order of the code, or the request is recorded.
unfoldable pub admit : Limits → String → ℕ → Guard → Guard × Option DropReason
admit limits work_item_id now g =
    if leb limits.global_max (length g.global_window)
    then (g, some rate_limited)
    else (if contains work_item_id g.last_seen then (g, some duplicate) else (
      record {
        last_seen = insert work_item_id now g.last_seen;
        global_window = g.global_window ++ now ∷ [];
      },
      none,
    ))

unfoldable pub check : Limits → String → ℕ → Guard → Guard × Option DropReason
unfolding evict admit
check limits work_item_id now g = admit limits work_item_id now (evict limits now g)
