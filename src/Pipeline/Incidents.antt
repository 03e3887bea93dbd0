-- ===== src/Pipeline/Incidents.antt =====
-- The requests to create incidents, and what becomes of the results.
use mathlib.Core.List.{append-nil, append_assoc}
use qa_ai_native.Prelude.{
  ◌≡◌, refl, sym, ap, ◌∙◌, Bool-cases, inl, inr, true, Option, none, some, List, [], ◌∷◌, ◌++◌,
  if◌then◌else◌,
}
use qa_ai_native.Xray.Executions.{FileArtifact}
use qa_ai_native.Zephyr.Executions.{Incident}
use qa_ai_native.Pipeline.{
  Answer, Executed, IncidentCreationInput, Effect, error_recorded, incident_requested, received,
  get_artifacts_from_task,
}
use qa_ai_native.Pipeline.Kept.{Keeps-then, received-Keeps, artifacts-Keeps, model-Keeps}
use qa_ai_native.Pipeline.Execution.{
  Backend, needs_incident, incident_input, read_incident, request_incident_creation, with_incident,
  settled, create_incident_for_result, request_incident_creation_for_failed_tests,
}

abbrev pub Requests : Type 0
Requests = List (IncidentCreationInput × List FileArtifact)

-- The requests among some effects.
abbrev pub requested : Effect → Requests
requested (incident_requested input files) = (input, files) ∷ []
requested e = []

abbrev pub requests : List Effect → Requests
requests [] = []
requests (e ∷ es) = requested e ++ requests es

-- The requests that some results ask for: one for each failed or broken one with complete data.
abbrev pub request_for : Backend → Executed → Requests
request_for b e = elim (incident_input b e) [
  | none ↦ []
  | some input ↦ (input, e.result.artifacts) ∷ []
]

abbrev pub request_of : Backend → Executed → Requests
request_of b e = if needs_incident e.result.execution.status then request_for b e else []

abbrev pub wanted : Backend → List Executed → Requests
wanted b [] = []
wanted b (e ∷ es) = request_of b e ++ wanted b es

-- The results after the requests: each is as before, or a failed or broken one has another incident.
pub data AreSettled : List Executed → List Executed → Type 0 where
  none_left : AreSettled [] []
  kept : (e : Executed) (es es' : List Executed) → AreSettled es es' → AreSettled (e ∷ es) (e ∷ es')
  marked :
      (e : Executed) (incident : Option Incident) (es es' : List Executed)
      → needs_incident e.result.execution.status ≡ true
      → AreSettled es es'
      → AreSettled (e ∷ es) (with_incident incident e ∷ es')

pub requests-append : (l m : List Effect) → requests (l ++ m) ≡ requests l ++ requests m
requests-append [] m = refl
requests-append (e ∷ l) m =
    ap (λ r. requested e ++ r) (requests-append l m)
    ∙ sym (append_assoc (requested e) (requests l) (requests m))

-- An effect at the end that is no request.
requests-snoc :
    (l : List Effect) (e : Effect) → requested e ≡ [] → requests (l ++ e ∷ []) ≡ requests l
requests-snoc l e h =
    requests-append l (e ∷ []) ∙ ap (λ r. requests l ++ (r ++ [])) h ∙ append-nil (requests l)

module _ (b : Backend) where
  read_incident-requests :
      (answer : Answer) (log : List Effect) → requests (read_incident b answer log).0 ≡ requests log
  read_incident-requests answer log =
      let Q : List Effect → Type 0 = λ l. requests l ≡ requests log in
      let recorded : (l : List Effect) → Q l → Q (l ++ error_recorded ∷ []) =
        λ l h. requests-snoc l error_recorded refl ∙ h in
      Keeps-then Q (received answer) _ (received-Keeps Q recorded answer)
        (λ task.
          Keeps-then Q (get_artifacts_from_task task) _ (artifacts-Keeps Q recorded task)
            (λ artifacts. model-Keeps Q recorded b.is_error b.incident_model artifacts))
        log refl

  request-requests :
      (input : IncidentCreationInput) (files : List FileArtifact) (log : List Effect)
      → requests (request_incident_creation b input files log).0
        ≡ requests log ++ (input, files) ∷ []
  unfolding request_incident_creation
  request-requests input files log =
      read_incident-requests (b.incident_answer input) (log ++ incident_requested input files ∷ [])
      ∙ requests-append log (incident_requested input files ∷ [])

  settled-requests :
      (e : Executed) (r : List Effect × Option (Option Incident))
      → requests (settled e r).0 ≡ requests r.0
  settled-requests e (log, none) = requests-snoc log error_recorded refl
  settled-requests e (log, some incident) = refl

  create-answered :
      (e : Executed) (log : List Effect) (o : Option IncidentCreationInput)
      → requests
          (settled e (elim o [
            | none ↦ (log, none)
            | some input ↦ request_incident_creation b input e.result.artifacts log
          ])).0
        ≡ requests log ++ elim o [ none ↦ [] | some input ↦ (input, e.result.artifacts) ∷ [] ]
  create-answered e log none = settled-requests e (log, none) ∙ sym (append-nil (requests log))
  create-answered e log (some input) =
      settled-requests e (request_incident_creation b input e.result.artifacts log)
      ∙ request-requests input e.result.artifacts log

  create-requests :
      (e : Executed) (log : List Effect)
      → requests (create_incident_for_result b e log).0 ≡ requests log ++ request_for b e
  unfolding create_incident_for_result
  create-requests e log = create-answered e log (incident_input b e)

  settled-AreSettled :
      (e : Executed) (r : List Effect × Option (Option Incident)) (es es' : List Executed)
      → needs_incident e.result.execution.status ≡ true
      → AreSettled es es'
      → AreSettled (e ∷ es) ((settled e r).1 ∷ es')
  settled-AreSettled e (log, none) es es' needs h = kept e es es' h
  settled-AreSettled e (log, some incident) es es' needs h = marked e incident es es' needs h

  -- Whatever the agents answer: a request to create an incident is sent for each result with the
  -- status failed or error that has its test case and a description, once, with its files and in the
  -- order of the results, and for no other; and of the results nothing changes but the incidents of
  -- those.
  pub incidents-requested :
      (es : List Executed) (log : List Effect)
      → (requests (request_incident_creation_for_failed_tests b es log).0
          ≡ requests log ++ wanted b es)
        × AreSettled es (request_incident_creation_for_failed_tests b es log).1
  unfolding request_incident_creation_for_failed_tests create_incident_for_result
  incidents-requested [] log = (sym (append-nil (requests log)), none_left)
  incidents-requested (e ∷ es) log = elim (Bool-cases (needs_incident e.result.execution.status)) [
    | inr off ↦
        let (sent, settled') = incidents-requested es log in rw off (sent, kept e es _ settled')
    | inl on ↦
        let created = create_incident_for_result b e log in
        let (sent, settled') = incidents-requested es created.0 in
        rw on (
          sent
              ∙ ap (λ r. r ++ wanted b es) (create-requests e log)
              ∙ append_assoc (requests log) (request_for b e) (wanted b es),
          settled-AreSettled e _ es _ on settled',
        )
  ]
