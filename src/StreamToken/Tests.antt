-- ===== src/StreamToken/Tests.antt =====
-- Tokens at concrete times.
use qa_ai_native.Prelude.{◌≡◌, none, List, [], ◌∷◌, arith}
use qa_ai_native.StreamToken.{
  Mint, dashboard_stream_auth, mint_all, last_expiry, access, stream_auth-mints,
}

abbrev mints : List Mint
mints =
    record { token = "x"; username = "ann"; issued = 10; now = 11 }
    ∷ record { token = "y"; username = "bob"; issued = 12; now = 12 }
    ∷ []

stream_auth-mints_example :
    dashboard_stream_auth 14 "x" (mint_all 5 mints []) ≡ access 5 14 (last_expiry 5 "x" mints none)
stream_auth-mints_example =
    stream_auth-mints 5 14 mints "x" (omega arith, (omega arith, omega arith))
