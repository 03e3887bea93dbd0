-- ===== src/Webhook/Log.antt =====
-- The webhook and its guard together: which references reach the pipeline.
use mathlib.Core.List.{append-nil, append_assoc, map-append}
use qa_ai_native.Prelude.{
  ℕ, ◌≡◌, refl, sym, ap, ◌∙◌, String, Option, none, some, List, [], ◌∷◌, ◌++◌, map, if◌then◌else◌,
  str_eq, Bool-cases, inl, inr,
}
use qa_ai_native.Guard.{DropReason, Limits, Guard, new_guard, check}
use qa_ai_native.Guard.Spec.{answers, decisions, IsMonotonic, guard-refines-log}
use qa_ai_native.Json.{Json, object}
use qa_ai_native.Webhook.{
  Ref, State, Reply, Request, not_json, parsed, extract_requirement_review_ref, handle_ref,
  trigger_requirement_review, accepted, dropped, raised,
}

module _ (show : Json → String) (limits : Limits) (default_key : String) where
  abbrev pub handle_all : List (ℕ × Request) → State → State
  handle_all [] s = s
  handle_all ((now, q) ∷ requests) s =
      handle_all requests (trigger_requirement_review show limits default_key now q s).0

  -- The work item of a complete reference.
  abbrev pub complete : Option Ref → Option String
  complete none = none
  complete (some ref) =
      if str_eq ref.work_item_id ""
      then none
      else if str_eq ref.feishu_doc ""
      then none
      else some ref.work_item_id

  -- The work item of a request that reaches the guard.
  abbrev pub work_item : Request → Option String
  work_item (parsed (object body)) = complete (extract_requirement_review_ref show default_key body)
  work_item q = none

  abbrev pub reaching : List (ℕ × Request) → List (String × ℕ)
  reaching [] = []
  reaching ((now, q) ∷ requests) =
      let rest = reaching requests in
      elim (work_item q) [ none ↦ rest | some id ↦ (id, now) ∷ rest ]

  -- The work items whose answer is no reason to drop them.
  abbrev pub let_through : List (String × ℕ) → List (Option DropReason) → List String
  let_through ((id, now) ∷ rs) (none ∷ answers) = id ∷ let_through rs answers
  let_through ((id, now) ∷ rs) (some reason ∷ answers) = let_through rs answers
  let_through _ _ = []

  abbrev queued_ids : State → List String
  queued_ids s = map Ref.work_item_id s.pipeline_queue

  -- What one request does to the guard and the queued work items, by the work item that reaches
  -- the guard.
  abbrev Effect : Option String → ℕ → State → State → Type 0
  Effect none now s s' = (s'.guard ≡ s.guard) × (queued_ids s' ≡ queued_ids s)
  Effect (some id) now s s' =
      (s'.guard ≡ (check limits id now s.guard).0)
      × (queued_ids s'
          ≡ queued_ids s
            ++ (elim (check limits id now s.guard).1 [ none ↦ id ∷ [] | some reason ↦ [] ]))

  handle_ref-Effect :
      (now : ℕ) (ref : Ref) (s : State)
      → Effect (complete (some ref)) now s (handle_ref limits now ref s).0
  unfolding handle_ref
  handle_ref-Effect now ref s = elim (Bool-cases (str_eq ref.work_item_id "")) [
    | inl no_id ↦ rw no_id (refl, refl)
    | inr id ↦ elim (Bool-cases (str_eq ref.feishu_doc "")) [
      | inl no_doc ↦ rw (id, no_doc) (refl, refl)
      | inr doc ↦ rw (id, doc) (checked (check limits ref.work_item_id now s.guard))
    ]
  ]
    where
      checked :
          (answer : Guard × Option DropReason)
          → let out : State × Reply = elim answer.1 [
            | some r ↦ (record s { guard = answer.0 }, dropped)
            | none ↦ (
              record { guard = answer.0; pipeline_queue = s.pipeline_queue ++ ref ∷ [] },
              accepted,
            )
          ] in
            let s' : State = out.0 in
            (s'.guard ≡ answer.0)
            × (queued_ids s'
                ≡ queued_ids s
                  ++ (elim answer.1 [ none ↦ ref.work_item_id ∷ [] | some reason ↦ [] ]))
      checked (g, some r) = (refl, sym (append-nil (queued_ids s)))
      checked (g, none) = (refl, map-append Ref.work_item_id s.pipeline_queue (ref ∷ []))

  trigger-Effect :
      (now : ℕ) (q : Request) (s : State)
      → Effect (work_item q) now s (trigger_requirement_review show limits default_key now q s).0
  unfolding trigger_requirement_review
  trigger-Effect now not_json s = (refl, refl)
  trigger-Effect now (parsed Json.null) s = (refl, refl)
  trigger-Effect now (parsed (Json.bool b)) s = (refl, refl)
  trigger-Effect now (parsed (Json.number b t)) s = (refl, refl)
  trigger-Effect now (parsed (Json.string t)) s = (refl, refl)
  trigger-Effect now (parsed (Json.array items)) s = (refl, refl)
  trigger-Effect now (parsed (object body)) s =
      extracted (extract_requirement_review_ref show default_key body)
    where
      extracted :
          (o : Option Ref)
          → let out : State × Reply = elim o [
            | none ↦ (s, raised)
            | some ref ↦ handle_ref limits now ref s
          ] in
            Effect (complete o) now s out.0
      extracted none = (refl, refl)
      extracted (some ref) = handle_ref-Effect now ref s

  -- One more request before the others.
  Effect-answers :
      (w : Option String) (now : ℕ) (rs : List (String × ℕ)) (s s1 : State) (queued : List String)
      → Effect w now s s1
      → queued ≡ queued_ids s1 ++ let_through rs (answers limits rs s1.guard)
      → let rs' : List (String × ℕ) = elim w [ none ↦ rs | some id ↦ (id, now) ∷ rs ] in
        queued ≡ queued_ids s ++ let_through rs' (answers limits rs' s.guard)
  Effect-answers none now rs s s1 queued (g, ids) rest =
      rest
      ∙ ap (λ l. l ++ let_through rs (answers limits rs s1.guard)) ids
      ∙ ap (λ h. queued_ids s ++ let_through rs (answers limits rs h)) g
  Effect-answers (some id) now rs s s1 queued (g, ids) rest =
      rest
      ∙ ap (λ l. l ++ let_through rs (answers limits rs s1.guard)) ids
      ∙ ap (λ h. (queued_ids s ++ taken answer) ++ let_through rs (answers limits rs h)) g
      ∙ append_assoc (queued_ids s) (taken answer) (let_through rs (answers limits rs g'))
      ∙ ap (λ l. queued_ids s ++ l) (first answer)
    where
      answer : Option DropReason
      answer = (check limits id now s.guard).1

      g' : Guard
      g' = (check limits id now s.guard).0

      taken : Option DropReason → List String
      taken none = id ∷ []
      taken (some reason) = []

      first :
          (a : Option DropReason)
          → taken a ++ let_through rs (answers limits rs g')
            ≡ let_through ((id, now) ∷ rs) (a ∷ answers limits rs g')
      first none = refl
      first (some reason) = refl

  handle_all-answers :
      (requests : List (ℕ × Request)) (s : State)
      → queued_ids (handle_all requests s)
        ≡ queued_ids s
          ++ let_through (reaching requests) (answers limits (reaching requests) s.guard)
  handle_all-answers [] s = sym (append-nil (queued_ids s))
  handle_all-answers ((now, q) ∷ requests) s =
      let s1 : State = (trigger_requirement_review show limits default_key now q s).0 in
      Effect-answers (work_item q) now (reaching requests) s s1 _ (trigger-Effect now q s)
        (handle_all-answers requests s1)

  -- After any webhook requests, on a clock that does not go back, the pipeline's queue holds exactly
  -- the work items, in order, of the complete requests that a full log of the accepted ones would
  -- let through: those within the rate cap of the last 60 seconds and outside the dedup window.
  pub webhook-refines-log :
      (requests : List (ℕ × Request))
      → IsMonotonic limits 0 (reaching requests)
      → let s : State = record { guard = new_guard; pipeline_queue = [] } in
        map Ref.work_item_id (handle_all requests s).pipeline_queue
        ≡ let_through (reaching requests) (decisions limits (reaching requests) [])
  webhook-refines-log requests m =
      handle_all-answers requests (record { guard = new_guard; pipeline_queue = [] })
      ∙ ap (let_through (reaching requests)) (guard-refines-log limits (reaching requests) m)
