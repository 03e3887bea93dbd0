-- ===== src/Webhook/Replies.antt =====
-- What the webhook replies, and what it enqueues.
use qa_ai_native.Prelude.{
  ℕ, ◌≡◌, ◌≢◌, Bool, refl, sym, ap, ◌∙◌, String, true, false, Option, none, some, [], ◌∷◌, ◌++◌,
  arith, str_eq, eq_iff, ◌⊎◌, inl, inr, Bool-cases, Option-cases,
}
use mathlib.Core.Path.{subst}
use qa_ai_native.Guard.{DropReason, Limits, Guard, check}
use qa_ai_native.Json.{Json, object, Fields, is_truthy, get}
use qa_ai_native.Webhook.{
  Ref, State, Request, not_json, parsed, Reply, accepted, dropped, raised, payload_of, ref_of,
  extract_requirement_review_ref, handle_ref, trigger_requirement_review,
}

module _ (show : Json → String) (limits : Limits) (default_key : String) where
  -- What a reply says of the state before and after.
  abbrev pub Replied : ℕ → State → State × Reply → Type 0
  Replied now s (s', accepted) =
      (ref : Ref) × (s'.pipeline_queue ≡ s.pipeline_queue ++ ref ∷ [])
      × (ref.work_item_id ≢ "")
      × (ref.feishu_doc ≢ "")
      × (check limits ref.work_item_id now s.guard ≡ (s'.guard, none))
  Replied now s (s', dropped) =
      (s'.pipeline_queue ≡ s.pipeline_queue)
      × ((s'.guard ≡ s.guard)
          ⊎ ((work_item_id : String) × (reason : DropReason) × (check limits work_item_id now
                  s.guard
                ≡ (s'.guard, some reason))))
  Replied now s (s', raised) = s' ≡ s

  handle_ref-Replied :
      (now : ℕ) (ref : Ref) (s : State) → Replied now s (handle_ref limits now ref s)
  unfolding handle_ref
  handle_ref-Replied now ref s = elim (Bool-cases (str_eq ref.work_item_id "")) [
    | inl no_id ↦ rw no_id (refl, inl refl)
    | inr id ↦ elim (Bool-cases (str_eq ref.feishu_doc "")) [
      | inl no_doc ↦ rw (id, no_doc) (refl, inl refl)
      | inr doc ↦ rw (id, doc) (checked id doc (check limits ref.work_item_id now s.guard) refl)
    ]
  ]
    where
      checked :
          str_eq ref.work_item_id "" ≡ false
          → str_eq ref.feishu_doc "" ≡ false
          → (answer : Guard × Option DropReason)
          → check limits ref.work_item_id now s.guard ≡ answer
          → Replied now s (elim answer.1 [
            | some r ↦ (record s { guard = answer.0 }, dropped)
            | none ↦ (
              record { guard = answer.0; pipeline_queue = s.pipeline_queue ++ ref ∷ [] },
              accepted,
            )
          ])
      checked id doc (g, some r) e = (refl, inr (ref.work_item_id, r, e))
      checked id doc (g, none) e = (
        ref,
        refl,
        (λ same. ground (arith, same, eq_iff ref.work_item_id "")),
        (λ same. ground (arith, same, eq_iff ref.feishu_doc "")),
        e,
      )

  trigger_ends :
      (now : ℕ) (body : Fields) (s : State) (extracted : Option Ref)
      → extract_requirement_review_ref show default_key body ≡ extracted
      → trigger_requirement_review show limits default_key now (parsed (object body)) s
        ≡ elim extracted [ none ↦ (s, raised) | some ref ↦ handle_ref limits now ref s ]
  unfolding trigger_requirement_review
  trigger_ends now body s extracted e =
      ap (λ o. elim o [ none ↦ (s, raised) | some ref ↦ handle_ref limits now ref s ]) e

  -- The handler replies 202 exactly when it enqueues one reference, with a work item and a document,
  -- that the guard accepts; on a 204 the queue stays as it was, and the guard is left alone or
  -- refuses; an exception leaves the state as it was.
  pub trigger-Replied :
      (now : ℕ) (request : Request) (s : State)
      → Replied now s (trigger_requirement_review show limits default_key now request s)
  unfolding trigger_requirement_review
  trigger-Replied now not_json s = (refl, inl refl)
  trigger-Replied now (parsed Json.null) s = (refl, inl refl)
  trigger-Replied now (parsed (Json.bool b)) s = (refl, inl refl)
  trigger-Replied now (parsed (Json.number b t)) s = (refl, inl refl)
  trigger-Replied now (parsed (Json.string t)) s = (refl, inl refl)
  trigger-Replied now (parsed (Json.array items)) s = (refl, inl refl)
  trigger-Replied now (parsed (object body)) s =
      elim (Option-cases (extract_requirement_review_ref show default_key body)) [
        | inl e ↦ subst (Replied now s) (sym (trigger_ends now body s none e)) refl
        | inr (ref, e) ↦
            subst (Replied now s) (sym (trigger_ends now body s (some ref) e))
              (handle_ref-Replied now ref s)
      ]

  -- A JSON object.
  abbrev pub is_object : Json → Bool
  is_object (object fields) = true
  is_object j = false

  ref_of_odd : (j : Json) → is_object j ≡ false → ref_of show default_key j ≡ none
  unfolding ref_of
  ref_of_odd (object fields) h = ground (arith, h)
  ref_of_odd Json.null h = refl
  ref_of_odd (Json.bool b) h = refl
  ref_of_odd (Json.number b t) h = refl
  ref_of_odd (Json.string t) h = refl
  ref_of_odd (Json.array items) h = refl

  -- A body whose `payload` is a truthy value but no object ends in an exception, which is a server
  -- error for the sender.
  pub trigger-raises :
      (now : ℕ) (body : Fields) (s : State)
      → is_truthy (get "payload" body) ≡ true
      → is_object (get "payload" body) ≡ false
      → trigger_requirement_review show limits default_key now (parsed (object body)) s
        ≡ (s, raised)
  unfolding extract_requirement_review_ref
  trigger-raises now body s truthy odd =
      let payload : payload_of body ≡ get "payload" body = ground (arith, truthy) in
      trigger_ends now body s none
        (ap (ref_of show default_key) payload ∙ ref_of_odd (get "payload" body) odd)
