-- ===== src/Webhook.antt =====
-- The requirements-review webhook (orchestrator/main.py): `_extract_requirement_review_ref` and
-- `trigger_requirement_review`. A body is the JSON value that the request parses to. Python's
-- `str()` of a value that is no text is a parameter.
pub mod Replies
pub mod Log
mod Tests
use qa_ai_native.Prelude.{
  ℕ, String, Bool, true, false, not, ◌&&◌, Option, none, some, List, [], ◌∷◌, ◌++◌, if◌then◌else◌,
  str_eq,
}
use qa_ai_native.Json.{Json, object, string, Items, nil, cons, array, Fields, is_truthy, get}
use qa_ai_native.Guard.{DropReason, Limits, Guard, check}

-- What the scan of the form fields comes to; `failed` is an exception.
pub data Scan : Type 0 where
  failed nothing : Scan
  found : String → Scan

-- The elements that `for x in value or []` runs over; a mapping, a text, a number or `True` gives
-- no elements with a `get`, so that the loop raises.
abbrev pub elements : Json → Option Items
elements (array items) = some items
elements j = if is_truthy j then none else some nil

-- The work item, the project key and the document.
pub record Ref : Type 0 where
  pub work_item_id : String
  pub project_key : Json
  pub feishu_doc : String

-- The guard and the queue of the pipeline.
pub record State : Type 0 where
  pub guard : Guard
  pub pipeline_queue : List Ref

pub data Request : Type 0 where
  not_json : Request
  parsed : Json → Request

pub data Reply : Type 0 where
  -- HTTP 202 and 204
  accepted dropped : Reply
  -- an exception leaves the handler: HTTP 500
  raised : Reply

abbrev pub or_json : Json → Json → Json
or_json a b = if is_truthy a then a else b

-- The handler from the extracted reference on.
unfoldable pub handle_ref : Limits → ℕ → Ref → State → State × Reply
handle_ref limits now ref s =
    if str_eq ref.work_item_id ""
    then (s, dropped)
    else if str_eq ref.feishu_doc ""
    then (s, dropped)
    else (let (guard, reason) = check limits ref.work_item_id now s.guard in
        elim reason [
          | some r ↦ (record s { guard = guard }, dropped)
          | none ↦
              (record { guard = guard; pipeline_queue = s.pipeline_queue ++ ref ∷ [] }, accepted)
        ])

abbrev pub is_text : String → Json → Bool
is_text t (string s) = str_eq s t
is_text t j = false

abbrev pub doc_of : Scan → Option String
doc_of failed = none
doc_of nothing = some ""
doc_of (found doc) = some doc

abbrev pub payload_of : Fields → Json
payload_of body = or_json (get "payload" body) (object body)

module _ (show : Json → String) where
  -- `str(value)`
  abbrev pub to_text : Json → String
  to_text (string s) = s
  to_text j = show j

  -- One form field: its link, if it is a filled field of this type.
  abbrev pub link_of : Fields → Scan
  link_of form_field =
      if is_text "link" (get "field_type_key" form_field)
        && is_truthy (get "field_value" form_field)
      then found (to_text (get "field_value" form_field))
      else nothing

  -- The inner loop, up to its `break`.
  unfoldable pub scan_form : Items → Scan
  unfolding get
  scan_form nil = nothing
  scan_form (cons (object form_field) rest) =
      let next = scan_form rest in
      elim (link_of form_field) [ found doc ↦ found doc | nothing ↦ next | failed ↦ failed ]
  scan_form (cons j rest) = failed

  -- The outer loop, which ends at the first document that is not empty.
  unfoldable pub scan_nodes : Items → Scan
  unfolding scan_form get
  scan_nodes nil = nothing
  scan_nodes (cons (object node) rest) =
      let next = scan_nodes rest in
      elim (elements (get "node_form" node)) [
        | none ↦ failed
        | some form ↦ elim (scan_form form) [
          | failed ↦ failed
          | nothing ↦ next
          | found doc ↦ if str_eq doc "" then next else found doc
        ]
      ]
  scan_nodes (cons j rest) = failed

  -- The reference in the payload; `none` is an exception.
  unfoldable pub ref_of : String → Json → Option Ref
  unfolding scan_nodes
  ref_of default_key (object payload) = elim (elements (get "nodes" payload)) [
    | none ↦ none
    | some nodes ↦ elim (doc_of (scan_nodes nodes)) [
      | none ↦ none
      | some doc ↦ some (record {
        work_item_id = to_text (or_json (get "id" payload) (string ""));
        project_key = or_json (get "project_simple_name" payload) (string default_key);
        feishu_doc = doc;
      })
    ]
  ]
  ref_of default_key j = none

  unfoldable pub extract_requirement_review_ref : String → Fields → Option Ref
  unfolding ref_of get
  extract_requirement_review_ref default_key body = ref_of default_key (payload_of body)

  unfoldable pub trigger_requirement_review : Limits → String → ℕ → Request → State → State × Reply
  unfolding handle_ref extract_requirement_review_ref
  trigger_requirement_review limits default_key now (parsed (object body)) s =
      elim (extract_requirement_review_ref default_key body) [
        | none ↦ (s, raised)
        | some ref ↦ handle_ref limits now ref s
      ]
  trigger_requirement_review limits default_key now not_json s = (s, dropped)
  trigger_requirement_review limits default_key now (parsed j) s = (s, dropped)
