-- ===== src/Webhook/Tests.antt =====
-- The webhook at concrete requests.
use qa_ai_native.Prelude.{ℕ, ◌≡◌, refl, String, true, List, [], ◌∷◌, map, arith}
use qa_ai_native.Dict.{insert}
use qa_ai_native.Guard.{Limits, new_guard, check, evict, admit, trim, unexpired}
use qa_ai_native.Guard.Spec.{decisions}
use qa_ai_native.Json.{Json, object, array, string, number, cons, nil, Fields, field, end, get}
use qa_ai_native.Webhook.{
  Ref, State, Request, not_json, parsed, accepted, scan_form, scan_nodes, ref_of,
  extract_requirement_review_ref, handle_ref, trigger_requirement_review,
}
use qa_ai_native.Webhook.Replies.{Replied, trigger-Replied}
use qa_ai_native.Webhook.Log.{handle_all, reaching, let_through, webhook-refines-log}

abbrev shown : Json → String
shown (number nonzero text) = text
shown j = "value"

abbrev limits : Limits
limits = record { dedup_window = 30; global_max = 2; second = 1 }

abbrev link_field : String → Fields
link_field doc = field "field_type_key" (string "link") (field "field_value" (string doc) end)

-- An event of the work item with one form field.
abbrev event : String → String → Request
event id doc =
    let node = object (field "node_form" (array (cons (object (link_field doc)) nil)) end) in
    parsed (
      object (
        field "payload"
          (object (field "id" (number true id) (field "nodes" (array (cons node nil)) end))) end))

abbrev start : State
start = record { guard = new_guard; pipeline_queue = [] }

accepted_event :
    (trigger_requirement_review shown limits "P" 5 (event "7" "http://doc") start).1 ≡ accepted
unfolding trigger_requirement_review extract_requirement_review_ref ref_of scan_nodes scan_form get
    handle_ref check evict admit trim unexpired new_guard insert
accepted_event = refl

trigger-Replied_example :
    Replied shown limits "P" 5 start
      (trigger_requirement_review shown limits "P" 5 (event "7" "http://doc") start)
trigger-Replied_example = trigger-Replied shown limits "P" 5 (event "7" "http://doc") start

abbrev text_payload : Fields
text_payload = field "payload" (string "status changed") end

abbrev requests : List (ℕ × Request)
requests =
    (5, event "7" "http://doc")
    ∷ (6, not_json)
    ∷ (9, event "7" "http://doc")
    ∷ (12, event "8" "http://doc")
    ∷ []

webhook-refines-log_example :
    map Ref.work_item_id (handle_all shown limits "P" requests start).pipeline_queue
    ≡ let_through shown limits "P"
        (reaching shown limits "P" requests)
        (decisions limits (reaching shown limits "P" requests) [])
unfolding extract_requirement_review_ref ref_of scan_nodes scan_form get
webhook-refines-log_example =
    webhook-refines-log shown limits "P" requests (omega arith, (omega arith, (omega arith, tt)))
