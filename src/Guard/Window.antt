-- ===== src/Guard/Window.antt =====
-- The full log of the accepted requests, what the guard's state keeps of it, and the trimmed window.
use qa_ai_native.Prelude.{
  ℕ, ◌+◌, ◌-◌, ◌*◌, ◌≤◌, ◌≡◌, refl, String, Bool, false, ◌&&◌, Option, none, some, List, [], ◌∷◌,
  ◌++◌, arith, if◌then◌else◌, ltb, leb, length, count, any, str_eq, Bool-cases, inl, inr, All,
  All-append, All-map,
}
use qa_ai_native.Dict.{lookup, UniqueKeys}
use qa_ai_native.Guard.{DropReason, duplicate, rate_limited, Limits, Guard, trim}

-- The accepted requests, newest first: work item and time.
abbrev pub Log : Type 0
Log = List (String × ℕ)

-- How many requests were accepted in the minute before `now`.
abbrev pub recent : ℕ → ℕ → Log → ℕ
recent minute now log = count (λ e. leb now (e.1 + minute)) log

-- Whether a request for the work item was accepted within the dedup window before `now`.
abbrev pub seen : ℕ → ℕ → String → Log → Bool
seen dedup now k log = any (λ e. str_eq e.0 k && leb now (e.1 + dedup)) log

abbrev pub decide : Limits → String → ℕ → Log → Option DropReason
decide limits k now log =
    if leb limits.global_max (recent (60 * limits.second) now log)
    then some rate_limited
    else (if seen limits.dedup_window now k log then some duplicate else none)

abbrev pub note : String → ℕ → Option DropReason → Log → Log
note k now none log = (k, now) ∷ log
note k now (some reason) log = log

abbrev pub IsAscending : List ℕ → Type 0
IsAscending [] = Unit
IsAscending (t ∷ l) = All (λ u. t ≤ u) l × IsAscending l

abbrev pub window_count : ℕ → ℕ → List ℕ → ℕ
window_count minute n window = count (λ t. leb n (t + minute)) window

abbrev pub entry_seen : ℕ → ℕ → Option ℕ → Bool
entry_seen dedup n none = false
entry_seen dedup n (some w) = leb n (w + dedup)

-- What the guard's state keeps of the log, from the time `clock` on.
pub record Tracks (limits : Limits) (clock : ℕ) (log : Log) (g : Guard) : Type 0 where
  pub unique : UniqueKeys g.last_seen
  pub ascending : IsAscending g.global_window
  pub past : All (λ t. t ≤ clock) g.global_window
  pub counted :
      (n : ℕ)
      → clock ≤ n
      → recent (60 * limits.second) n log ≡ window_count (60 * limits.second) n g.global_window
  pub remembered :
      (n : ℕ) (k : String)
      → clock ≤ n
      → seen limits.dedup_window n k log ≡ entry_seen limits.dedup_window n (lookup k g.last_seen)

pub window_count-trim :
    (minute now n : ℕ) (window : List ℕ)
    → now ≤ n
    → window_count minute n (trim minute now window) ≡ window_count minute n window
unfolding trim
window_count-trim minute now n [] le = refl
window_count-trim minute now n (t ∷ window) le =
    ground (arith, window_count-trim minute now n window le)

-- In an ascending window that starts within the minute every time is within it.
pub window_count-All :
    (minute now : ℕ) (window : List ℕ)
    → All (λ t. now ≤ t + minute) window
    → window_count minute now window ≡ length window
window_count-All minute now [] h = refl
window_count-All minute now (t ∷ window) (ht, hw) =
    ground (arith, ht, window_count-All minute now window hw)

pub trim-fresh :
    (minute now : ℕ) (window : List ℕ)
    → IsAscending window
    → All (λ t. now ≤ t + minute) (trim minute now window)
unfolding trim
trim-fresh minute now [] a = tt
trim-fresh minute now (t ∷ window) (at, aw) = elim (Bool-cases (ltb minute (now - t))) [
  | inl old ↦ rw (old, trim) (trim-fresh minute now window aw)
  | inr new ↦
      rw (new, trim)
        (let le : now ≤ t + minute = ground (arith, new) in
          (le, All-map _ _ window (λ u p. omega (arith, le, p)) at))
]

pub trim-IsAscending :
    (minute now : ℕ) (window : List ℕ) → IsAscending window → IsAscending (trim minute now window)
unfolding trim
trim-IsAscending minute now [] a = tt
trim-IsAscending minute now (t ∷ window) a =
    ground (arith, trim-IsAscending minute now window a.1, a)

pub trim-All :
    (P : ℕ → Type 0) (minute now : ℕ) (window : List ℕ)
    → All P window
    → All P (trim minute now window)
unfolding trim
trim-All P minute now [] h = tt
trim-All P minute now (t ∷ window) h = elim (Bool-cases (ltb minute (now - t))) [
  | inl old ↦ rw (old, trim) (trim-All P minute now window h.1)
  | inr new ↦ rw (new, trim) h
]

pub snoc-IsAscending :
    (now : ℕ) (l : List ℕ) → All (λ t. t ≤ now) l → IsAscending l → IsAscending (l ++ now ∷ [])
snoc-IsAscending now [] h a = (tt, tt)
snoc-IsAscending now (t ∷ l) h a =
    (All-append _ l (now ∷ []) a.0 (h.0, tt), snoc-IsAscending now l h.1 a.1)

pub window_count-snoc :
    (minute n now : ℕ) (l : List ℕ)
    → window_count minute n (l ++ now ∷ [])
      ≡ (if leb n (now + minute) then 1 else 0) + window_count minute n l
window_count-snoc minute n now [] = refl
window_count-snoc minute n now (t ∷ l) = omega (arith, window_count-snoc minute n now l)
