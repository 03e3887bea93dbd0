-- ===== src/Xray/Files.antt =====
-- What the Xray client does with the files of an execution.
use qa_ai_native.Prelude.{
  ℕ, String, ◌≡◌, refl, Bool, true, false, Option, none, some, List, [], ◌∷◌, ◌++◌, length, ap, suc,
}
use qa_ai_native.Json.{Json, object, array, dict, items_of}
use qa_ai_native.Retry.{Attempt}
use qa_ai_native.Service.{Call, World, Outcome, failed, unexpected}
use qa_ai_native.Zephyr.Executions.{Execution}
use qa_ai_native.Xray.{Config, xray_call, execute}
use qa_ai_native.Xray.Executions.{
  FileArtifact, Result, evidence_of, evidences_of, test_entry, tests_of, info,
  create_test_execution,
}

abbrev pub has_files : List Result → Bool
has_files [] = false
has_files (r ∷ rs) = elim r.artifacts [ [] ↦ has_files rs | f ∷ fs ↦ true ]

module _ (instant : String → Option ℕ) (iso : ℕ → String) where
  tests_of-none :
      (rs : List Result) (e : Execution) (files : List FileArtifact)
      → tests_of instant iso rs ≡ none
      → tests_of instant iso (record { execution = e; artifacts = files } ∷ rs) ≡ none
  unfolding tests_of evidences_of evidence_of
  tests_of-none rs e [] h = rw h refl
  tests_of-none rs e (f ∷ fs) h = refl

  tests_of-file :
      (rs : List Result) (e : Execution) (f : FileArtifact) (fs : List FileArtifact)
      → tests_of instant iso (record { execution = e; artifacts = f ∷ fs } ∷ rs) ≡ none
  unfolding tests_of evidences_of evidence_of
  tests_of-file rs e f fs = refl

  -- The outcome of the import, by whether a result has a file.
  abbrev pub Imported :
      {S : Type 0}
      → Config
      → String
      → String
      → Option String
      → List Result
      → World S
      → World S × Outcome (Option Json)
      → Bool
      → Type 0
  Imported c project_key plan version_id results w r true = r ≡ (w, failed unexpected)
  Imported c project_key plan version_id results w r false =
      (tests : List Json) × (length tests ≡ length results)
      × (r.0.sent
          ≡ w.sent
            ++ xray_call c "import/execution" (
                object (
                  dict (
                    ("info", info instant iso project_key plan version_id results)
                    ∷ ("tests", array (items_of tests))
                    ∷ [])))
              ∷ [])

  Extracted : List Result → Bool → Type 0
  Extracted results true = tests_of instant iso results ≡ none
  Extracted results false =
      (tests : List Json) × (tests_of instant iso results ≡ some tests)
      × (length tests ≡ length results)

  extracted-plain :
      (e : Execution) (rs : List Result) (b : Bool)
      → Extracted rs b
      → Extracted (record { execution = e; artifacts = [] } ∷ rs) b
  unfolding Extracted tests_of evidences_of
  extracted-plain e rs true h = tests_of-none rs e [] h
  extracted-plain e rs false (tests, d, l) = (
    test_entry instant iso (record { execution = e; artifacts = [] }) [] ∷ tests,
    rw d refl,
    ap suc l,
  )

  extracted-next :
      (e : Execution) (files : List FileArtifact) (rs : List Result)
      → Extracted rs (has_files rs)
      → Extracted
          (record { execution = e; artifacts = files } ∷ rs)
          (has_files (record { execution = e; artifacts = files } ∷ rs))
  unfolding Extracted tests_of evidences_of
  extracted-next e (f ∷ fs) rs h = tests_of-file rs e f fs
  extracted-next e [] rs h = extracted-plain e rs (has_files rs) h

  extracted : (results : List Result) → Extracted results (has_files results)
  unfolding Extracted tests_of
  extracted [] = ([], refl, refl)
  extracted (r ∷ rs) = extracted-next r.execution r.artifacts rs (extracted rs)

  imported :
      {S : Type 0} (send : Call → S → S × Attempt (Option Json)) (c : Config)
      (results : List Result) (project_key plan : String) (version_id : Option String) (w : World S)
      (b : Bool)
      → Extracted results b
      → Imported c project_key plan version_id results w
          (create_test_execution instant iso send c results project_key plan version_id w)
          b
  unfolding create_test_execution execute Extracted
  imported send c results project_key plan version_id w true h = rw h refl
  imported send c results project_key plan version_id w false (tests, d, l) = (tests, l, rw d refl)

  -- If a result has a file, then the import raises and sends nothing, because the code reads the
  -- attributes `bytes` and `mimeType`, which a `FileArtifact` has not; otherwise it sends one
  -- request, with an entry for each result.
  pub create_test_execution-Imported :
      {S : Type 0} (send : Call → S → S × Attempt (Option Json)) (c : Config)
      (results : List Result) (project_key plan : String) (version_id : Option String) (w : World S)
      → Imported c project_key plan version_id results w
          (create_test_execution instant iso send c results project_key plan version_id w)
          (has_files results)
  create_test_execution-Imported send c results project_key plan version_id w =
      imported send c results project_key plan version_id w (has_files results) (extracted results)
