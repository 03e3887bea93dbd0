-- ===== src/StreamToken.antt =====
-- The tokens of the event streams (orchestrator/main.py): `_mint_stream_token`,
-- `_validate_stream_token` and `dashboard_stream_auth`. Times are numbers (microseconds); the random
-- token and each reading of the clock are inputs.
mod Tests
use qa_ai_native.Prelude.{
  ℕ, ◌+◌, ◌≤◌, ◌≡◌, refl, String, not, Option, none, some, List, [], ◌∷◌, arith, if◌then◌else◌, ltb,
  leb, str_eq, eq_iff, filter, Option-cases, inl, inr,
}
use qa_ai_native.Dict.{
  Dict, lookup, insert, UniqueKeys, lookup-insert, lookup-filter, insert-UniqueKeys,
  filter-UniqueKeys,
}

-- The user and the expiry of each token.
abbrev pub Store : Type 0
Store = Dict (String × ℕ)

-- One issuance: the drawn token, the user, and the two readings of the clock, before and under the
-- lock.
pub record Mint : Type 0 where
  pub token : String
  pub username : String
  pub issued : ℕ
  pub now : ℕ

-- `if exp <= now: del store[t]`
unfoldable pub drop_expired : ℕ → Store → Store
drop_expired now = filter (λ e. not (leb e.1.1 now))

unfoldable pub mint_stream_token : ℕ → Mint → Store → Store × String × ℕ
unfolding drop_expired
mint_stream_token ttl m store =
    let expires_at = m.issued + ttl in
    (insert m.token (m.username, expires_at) (drop_expired m.now store), m.token, expires_at)

unfoldable pub validate_stream_token : ℕ → String → Store → Option ℕ
validate_stream_token now token store = elim (lookup token store) [
  | none ↦ none
  | some (_, expires_at) ↦ if ltb now expires_at then some expires_at else none
]

pub data Access : Type 0 where
  until : ℕ → Access
  -- HTTP 401
  denied : Access

unfoldable pub dashboard_stream_auth : ℕ → String → Store → Access
unfolding validate_stream_token
dashboard_stream_auth now token store = elim (validate_stream_token now token store) [
  | none ↦ denied
  | some expires_at ↦ until expires_at
]

module _ (ttl : ℕ) where
  abbrev pub mint_all : List Mint → Store → Store
  mint_all [] store = store
  mint_all (m ∷ ms) store = mint_all ms (mint_stream_token ttl m store).0

  -- The expiry that the last issuance of a token gave, if it was issued at all.
  abbrev pub last_expiry : String → List Mint → Option ℕ → Option ℕ
  last_expiry k [] o = o
  last_expiry k (m ∷ ms) o =
      last_expiry k ms (if str_eq m.token k then some (m.issued + ttl) else o)

  -- Access until the expiry, if it lies ahead.
  abbrev pub access : ℕ → Option ℕ → Access
  access now none = denied
  access now (some x) = if ltb now x then until x else denied

  -- The clock does not go back between the issuances, up to a time.
  abbrev pub IsMonotonic : ℕ → List Mint → ℕ → Type 0
  IsMonotonic clock [] end = clock ≤ end
  IsMonotonic clock (m ∷ ms) end = (clock ≤ m.now) × IsMonotonic m.now ms end

  -- From a time on, the store answers as the issued expiries say.
  record Answers (clock : ℕ) (store : Store) (issued : String → Option ℕ) : Type 0 where
    unique : UniqueKeys store
    agrees :
        (now : ℕ) (k : String)
        → clock ≤ now
        → dashboard_stream_auth now k store ≡ access now (issued k)

  mint-Answers :
      (clock : ℕ) (m : Mint) (store : Store) (issued : String → Option ℕ)
      → clock ≤ m.now
      → Answers clock store issued
      → Answers m.now
          (mint_stream_token ttl m store).0
          (λ k. if str_eq m.token k then some (m.issued + ttl) else issued k)
  unfolding mint_stream_token dashboard_stream_auth
  mint-Answers clock m store issued le a = record {
    unique = insert-UniqueKeys m.token _ _ (filter-UniqueKeys _ store a.unique);
    agrees = λ now k h. elim (Option-cases (lookup k store)) [
      | inl e ↦ ground (
        arith,
        e,
        a.agrees now k (omega (arith, le, h)),
        lookup-insert m.token k (m.username, m.issued + ttl) (drop_expired m.now store),
        lookup-filter k (λ e. not (leb e.1.1 m.now)) store a.unique,
      )
      | inr ((u, x), e) ↦ ground (
        arith,
        e,
        h,
        a.agrees now k (omega (arith, le, h)),
        lookup-insert m.token k (m.username, m.issued + ttl) (drop_expired m.now store),
        lookup-filter k (λ e. not (leb e.1.1 m.now)) store a.unique,
      )
    ];
  }

  mint_all-Answers :
      (clock end : ℕ) (ms : List Mint) (store : Store) (issued : String → Option ℕ) (k : String)
      → IsMonotonic clock ms end
      → Answers clock store issued
      → dashboard_stream_auth end k (mint_all ms store) ≡ access end (last_expiry k ms (issued k))
  mint_all-Answers clock end [] store issued k le a = a.agrees end k le
  mint_all-Answers clock end (m ∷ ms) store issued k (le, later) a =
      mint_all-Answers m.now end ms (mint_stream_token ttl m store).0
        (λ j. if str_eq m.token j then some (m.issued + ttl) else issued j) k later
        (mint-Answers clock m store issued le a)

  -- After any issuances on a clock that does not go back, a token gives access exactly when it was
  -- issued and its last expiry lies ahead, and then until that expiry: the clean-up of expired
  -- tokens at each issuance never takes one that is still good.
  pub stream_auth-mints :
      (now : ℕ) (ms : List Mint) (k : String)
      → IsMonotonic 0 ms now
      → dashboard_stream_auth now k (mint_all ms []) ≡ access now (last_expiry k ms none)
  unfolding dashboard_stream_auth
  stream_auth-mints now ms k m =
      mint_all-Answers 0 now ms [] (λ j. none) k m (record { unique = tt; agrees = λ t j h. refl })
