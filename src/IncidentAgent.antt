-- ===== src/IncidentAgent.antt =====
-- The agent that reports incidents (agents/incident_creation/main.py): the candidates for duplicates
-- and the files that it saves. The vector store, the parsing of its entries, the model and the file
-- system are inputs.
pub mod Candidates
mod Tests
use Prim.Native.Char.{Char, code}
use Prim.Native.String.{String, [], ◌∷◌}
use qa_ai_native.Prelude.{
  ℕ, suc, Bool, true, false, ◌&&◌, ◌==◌, not, List, Option, none, some, if◌then◌else◌, str_append,
  str_eq,
}
use qa_ai_native.Dict.{elem}
use qa_ai_native.Pipeline.{Part}

-- Of an issue, what the search reads.
pub record JiraIssue : Type 0 where
  pub key : String
  pub status : Option String

pub record DuplicateCandidate : Type 0 where
  pub issue_id : Option String
  pub key : String
  pub content : String

pub record DuplicateIssue : Type 0 where
  pub issue_id : String
  pub issue_key : String
  pub message : String

pub record DuplicateDetectionResult : Type 0 where
  pub duplicates : List DuplicateIssue
  pub message : String

-- Whether an issue has a status that ends it.
abbrev pub is_terminal : List String → Option String → Bool
is_terminal terminal none = false
is_terminal terminal (some status) = not (str_eq status "") && elem status terminal

-- The loop over the payloads of the hits, of which some are missing or empty and some are no issue.
unfoldable pub candidates_of :
    {P : Type 0} → (P → Option JiraIssue) → List String → List (Option P) → List JiraIssue
candidates_of parse terminal List.[] = List.[]
candidates_of parse terminal (List.◌∷◌ none hits) = candidates_of parse terminal hits
candidates_of parse terminal (List.◌∷◌ (some payload) hits) =
    let rest = candidates_of parse terminal hits in
    elim (parse payload) [
      | none ↦ rest
      | some issue ↦ if is_terminal terminal issue.status then rest else List.◌∷◌ issue rest
    ]

-- Without a vector store nothing is found; an exception of its search is passed on as `none`.
unfoldable pub search_duplicate_candidates_in_rag :
    {P : Type 0}
    → (P → Option JiraIssue)
    → List String
    → Option (String → Option (List (Option P)))
    → String
    → Option (List JiraIssue)
unfolding candidates_of
search_duplicate_candidates_in_rag parse terminal none description = some List.[]
search_duplicate_candidates_in_rag parse terminal (some search) description =
    elim (search description) [ none ↦ none | some hits ↦ some (candidates_of parse terminal hits) ]

-- The loop over the candidates, with the keys seen.
unfoldable pub unique_from : List String → List DuplicateCandidate → List DuplicateCandidate
unique_from seen List.[] = List.[]
unique_from seen (List.◌∷◌ c rest) =
    if elem c.key seen
    then unique_from seen rest
    else List.◌∷◌ c (unique_from (List.◌∷◌ c.key seen) rest)

unfoldable pub unique_candidates : List DuplicateCandidate → List DuplicateCandidate
unfolding unique_from
unique_candidates candidates = unique_from List.[] candidates

-- The model sees each candidate once; `none` is an exception of its call.
unfoldable pub check_all_duplicates :
    (List DuplicateCandidate → Option DuplicateDetectionResult)
    → List DuplicateCandidate
    → Option DuplicateDetectionResult
unfolding unique_candidates
check_all_duplicates detect List.[] =
    some (record { duplicates = List.[]; message = "No duplicate candidates were provided." })
check_all_duplicates detect (List.◌∷◌ c rest) = detect (unique_candidates (List.◌∷◌ c rest))

abbrev pub begins_with_slash : String → Bool
begins_with_slash [] = false
begins_with_slash (c ∷ s) = code c == b'/'

abbrev pub ends_with_slash : String → Bool
ends_with_slash [] = false
ends_with_slash (c ∷ []) = code c == b'/'
ends_with_slash (c ∷ d ∷ s) = ends_with_slash (d ∷ s)

-- `posixpath.join`
unfoldable pub join_path : String → String → String
join_path folder name =
    if begins_with_slash name
    then name
    else if str_eq folder ""
    then name
    else if ends_with_slash folder
    then str_append folder name
    else str_append folder (str_append "/" name)

-- The folders, the drawn identifiers, by their number, and which writes succeed.
pub record Files : Type 0 where
  pub local_folder : String
  pub mcp_folder : String
  pub unique_id : ℕ → String
  pub is_written : String → Bool

abbrev pub safe_filename : String → String → String
safe_filename unique filename =
    str_append unique (str_append "_" (if str_eq filename "" then "attachment" else filename))

-- The written files, and the paths that are returned for them; a file that is not written is left out.
unfoldable pub save_artifacts : Files → ℕ → List Part → List (String × String) × List String
unfolding join_path
save_artifacts f n List.[] = (List.[], List.[])
save_artifacts f n (List.◌∷◌ p parts) = elim p.raw [
  | none ↦ save_artifacts f n parts
  | some raw ↦
      let name = safe_filename (f.unique_id n) p.filename in
      let path = join_path f.local_folder name in
      let (written, saved) = save_artifacts f (suc n) parts in
      if f.is_written path
      then (List.◌∷◌ (path, raw) written, List.◌∷◌ (join_path f.mcp_folder name) saved)
      else (written, saved)
]
