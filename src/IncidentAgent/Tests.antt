-- ===== src/IncidentAgent/Tests.antt =====
-- The candidates and the files of an incident, at concrete ones.
use qa_ai_native.Prelude.{◌≡◌, refl, String, none, some, List, [], ◌∷◌, true, find}
use qa_ai_native.IncidentAgent.{
  DuplicateCandidate, candidates_of, unique_candidates, Files, save_artifacts,
}
use qa_ai_native.IncidentAgent.Candidates.{HasUniqueKeys, has_key, unique_candidates-first}

abbrev candidate : String → String → DuplicateCandidate
candidate key content = record { issue_id = none; key = key; content = content }

abbrev candidates : List DuplicateCandidate
candidates = candidate "A" "1" ∷ candidate "B" "2" ∷ candidate "A" "3" ∷ []

each_once : unique_candidates candidates ≡ candidate "A" "1" ∷ candidate "B" "2" ∷ []
unfolding unique_candidates
each_once = refl

unique_candidates-first_example :
    HasUniqueKeys (unique_candidates candidates)
    × (find (has_key "A") (unique_candidates candidates) ≡ some (candidate "A" "1"))
unique_candidates-first_example = unique_candidates-first "A" candidates

open_issues :
    candidates_of
      (λ s. some (record { key = s; status = some s }))
      ("Done" ∷ [])
      (some "Done" ∷ none ∷ some "New" ∷ [])
    ≡ record { key = "New"; status = some "New" } ∷ []
unfolding candidates_of
open_issues = refl

abbrev files : Files
files = record {
  local_folder = "/tmp";
  mcp_folder = "/mcp/";
  unique_id = λ n. "u";
  is_written = λ path. true;
}

saved_file :
    save_artifacts files 0
      (record { text = none; raw = some "x"; media_type = ""; filename = "" } ∷ [])
    ≡ (("/tmp/u_attachment", "x") ∷ [], "/mcp/u_attachment" ∷ [])
unfolding save_artifacts
saved_file = refl
