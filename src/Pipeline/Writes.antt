-- ===== src/Pipeline/Writes.antt =====
-- What a pipeline writes to is its own.
use qa_ai_native.Prelude.{
  String, ◌≡◌, refl, map, drop, length, arith, ◌++◌, Bool, true, false, Option, some, none, List,
  [], ◌∷◌, All, All-append, Bool-cases, inl, inr, if◌then◌else◌,
}
use qa_ai_native.Dict.{elem}
use qa_ai_native.TestCases.{TestCase}
use qa_ai_native.Pipeline.{
  Run, ◌>>=◌, ◌>>◌, pure, raise, generation, classification, review, Effect, test_cases_created,
  document_fetched, error_recorded, and_then, emit, request_model, Classified, Feedback,
  handle_exception,
}
use qa_ai_native.Pipeline.Story.{
  Outside, get_known_test_case_keys, write_test_cases_to_feishu_project,
  write_test_case_classifications_to_feishu_project,
  write_test_case_review_feedbacks_to_feishu_project, request_test_cases_generation,
  request_test_cases_classification, request_test_cases_review, prepare, write_back, stages,
  assign_keys, mock_keys, run_pipeline, recorded,
}
use qa_ai_native.Pipeline.Kept.{Keeps, Keeps-then}
use qa_ai_native.Pipeline.Own.{
  IsOwn, Keeps-emit, Covers, request-Keeps, labels-Keeps, comments-Keeps,
}

-- The keys that a run may write to: those of the work items that were created, and those that the
-- generation agent gave to the test cases that were left over when fewer were created.
abbrev pub keys_of_creation : Option (List String) → List TestCase → List String
keys_of_creation none tcs = []
keys_of_creation (some keys) tcs = keys ++ map TestCase.key (drop (length keys) tcs)

-- Without a configuration, or without generated test cases, there are none.
abbrev pub keys_of_run : Outside → Option (List TestCase) → List String
keys_of_run o none = []
keys_of_run o (some tcs) = if o.is_configured then keys_of_creation (o.created tcs) tcs else []

known-keys :
    (k : String) (tcs : List TestCase)
    → elem k (get_known_test_case_keys tcs) ≡ true
    → elem k (map TestCase.key tcs) ≡ true
unfolding get_known_test_case_keys
known-keys k [] h = h
known-keys k (tc ∷ tcs) h = ground (arith, h, known-keys k tcs)

-- A key that is known after the assignment is one of these.
assigned-keys :
    (story_id k : String) (keys : List String) (tcs : List TestCase)
    → elem k (get_known_test_case_keys (assign_keys story_id keys tcs)) ≡ true
    → elem k (keys ++ map TestCase.key (drop (length keys) tcs)) ≡ true
unfolding assign_keys get_known_test_case_keys
assigned-keys story_id k keys [] h = absurd (ground (arith, h))
assigned-keys story_id k [] (tc ∷ tcs) h = known-keys k (tc ∷ tcs) h
assigned-keys story_id k (key ∷ keys) (tc ∷ tcs) h =
    ground (arith, h, assigned-keys story_id k keys tcs)

recorded-All :
    (P : Effect → Type 0) (r : List Effect × Option (Unit {0}))
    → P error_recorded
    → All P r.0
    → All P (recorded r)
recorded-All P (log, none) p h = All-append P log (error_recorded ∷ []) h (p, tt)
recorded-All P (log, some done) p h = h

module _ (o : Outside) (is_error : String → Bool) (generated : String → Option (List TestCase))
    (classified : String → Option (List Classified))
    (reviewed : String → Option (List Feedback)) where
  generation-Keeps :
      (known : List String)
      → Keeps
          (All (IsOwn known))
          (request_test_cases_generation o is_error generated classified reviewed)
  unfolding request_test_cases_generation
  generation-Keeps known = request-Keeps known o.answers is_error generated generation

  -- What is looked up, if anything is written.
  abbrev MayWrite : List String → List TestCase → Type 0
  MayWrite known tcs = o.is_configured ≡ true → Covers known (get_known_test_case_keys tcs)

  classes-Keeps :
      (known : List String) (classes : List Classified) (tcs : List TestCase)
      → MayWrite known tcs
      → Keeps (All (IsOwn known)) (write_test_case_classifications_to_feishu_project o classes tcs)
  unfolding write_test_case_classifications_to_feishu_project
  classes-Keeps known classes tcs may log h = elim (Bool-cases o.is_configured) [
    | inr off ↦ rw off h
    | inl on ↦ rw on (labels-Keeps known (get_known_test_case_keys tcs) (may on) o classes log h)
  ]

  feedbacks-Keeps :
      (known : List String) (feedbacks : List Feedback) (tcs : List TestCase)
      → MayWrite known tcs
      → Keeps
          (All (IsOwn known))
          (write_test_case_review_feedbacks_to_feishu_project o feedbacks tcs)
  unfolding write_test_case_review_feedbacks_to_feishu_project
  feedbacks-Keeps known feedbacks tcs may log h = elim (Bool-cases o.is_configured) [
    | inr off ↦ rw off h
    | inl on ↦
        rw on (comments-Keeps known (get_known_test_case_keys tcs) (may on) o feedbacks log h)
  ]

  document-Keeps :
      (known : List String) (b : Bool)
      → Keeps (All (IsOwn known)) (if b then emit document_fetched else handle_exception)
  document-Keeps known true log h = Keeps-emit (IsOwn known) document_fetched tt log h
  document-Keeps known false log h = All-append (IsOwn known) log (error_recorded ∷ []) h (tt, tt)

  review-Keeps :
      (known : List String)
      → Keeps
          (All (IsOwn known))
          (request_test_cases_review o is_error generated classified reviewed)
  unfolding request_test_cases_review
  review-Keeps known =
      Keeps-then (All (IsOwn known)) _ (λ done. request_model o.answers is_error reviewed review)
        (document-Keeps known (o.accepts document_fetched))
        (λ done. request-Keeps known o.answers is_error reviewed review)

  write_back-Keeps :
      (known : List String) (tcs : List TestCase)
      → MayWrite known tcs
      → Keeps (All (IsOwn known)) (write_back o is_error generated classified reviewed tcs)
  unfolding write_back request_test_cases_classification
  write_back-Keeps known tcs may =
      let P = All (IsOwn known) in
      Keeps-then P (request_model o.answers is_error classified classification) _
        (request-Keeps known o.answers is_error classified classification)
        (λ classes.
          Keeps-then P (write_test_case_classifications_to_feishu_project o classes tcs) _
            (classes-Keeps known classes tcs may)
            (λ done.
              Keeps-then P (request_test_cases_review o is_error generated classified reviewed)
                (λ feedbacks. write_test_case_review_feedbacks_to_feishu_project o feedbacks tcs)
                (review-Keeps known) (λ feedbacks. feedbacks-Keeps known feedbacks tcs may)))

  -- The test cases with their keys are written back, once they are created.
  created-Keeps :
      (story_id : String) (tcs : List TestCase)
      → Keeps (All (IsOwn (keys_of_run o (some tcs)))) (
          write_test_cases_to_feishu_project o tcs story_id
          >>= write_back o is_error generated classified reviewed)
  unfolding write_test_cases_to_feishu_project
  created-Keeps story_id tcs = at o.is_configured refl (o.created tcs)
    where
      at :
          (configured : Bool)
          → o.is_configured ≡ configured
          → (created : Option (List String))
          → let known = if configured then keys_of_creation created tcs else [] in
            Keeps (All (IsOwn known)) (
              (if configured
                then elim created as (λ _. Run (List TestCase)) [
                  | none ↦ raise
                  | some keys ↦ (do emit test_cases_created; pure (assign_keys story_id keys tcs))
                ]
                else pure (mock_keys o.show story_id 0 tcs))
              >>= write_back o is_error generated classified reviewed)
      at false off created log h =
          write_back-Keeps [] (mock_keys o.show story_id 0 tcs)
            (λ on. absurd (ground (arith, on, off))) log h
      at true on none log h = h
      at true on (some keys) log h =
          let known = keys_of_creation (some keys) tcs in
          write_back-Keeps known (assign_keys story_id keys tcs)
            (λ configured k. assigned-keys story_id k keys tcs) (log ++ test_cases_created ∷ [])
            (Keeps-emit (IsOwn known) test_cases_created tt log h)

  generated-Keeps :
      (story_id : String) (g : List Effect × Option (List TestCase))
      → All (IsOwn (keys_of_run o g.1)) g.0
      → All
          (IsOwn (keys_of_run o g.1))
          (and_then
            (and_then g (λ tcs. write_test_cases_to_feishu_project o tcs story_id))
            (write_back o is_error generated classified reviewed)).0
  generated-Keeps story_id (log, none) h = h
  generated-Keeps story_id (log, some tcs) h = created-Keeps story_id tcs log h

  -- A run of the pipeline adds labels and comments only under the keys of the work items that it has
  -- created and, when fewer were created than test cases generated, under keys that the generation
  -- agent gave to the test cases left over. It adds none where Feishu Project is not configured or
  -- no test cases are generated. What the other agents answer adds no key.
  pub run_pipeline-IsOwn :
      (story_id : String)
      → let (log, found) =
          request_test_cases_generation o is_error generated classified reviewed [] in
        All
          (IsOwn (keys_of_run o found))
          (run_pipeline o is_error generated classified reviewed story_id [])
  unfolding run_pipeline stages prepare
  run_pipeline-IsOwn story_id =
      let g = request_test_cases_generation o is_error generated classified reviewed [] in
      let known = keys_of_run o g.1 in
      recorded-All (IsOwn known) (stages o is_error generated classified reviewed story_id []) tt
        (generated-Keeps story_id g (generation-Keeps known [] tt))
