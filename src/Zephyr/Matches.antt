-- ===== src/Zephyr/Matches.antt =====
-- What the search for test cases in Zephyr finds.
use mathlib.Core.List.{append-nil, append_assoc}
use qa_ai_native.Prelude.{
  ◌<◌, String, ◌≡◌, refl, sym, ap, ◌∙◌, Bool, ◌&&◌, Option, none, some, List, [], ◌∷◌, ◌++◌, All,
  any, if◌then◌else◌, Bool-cases, inl, inr, str_eq,
}
use qa_ai_native.Dict.{Dict}
use qa_ai_native.Json.{Json, string, object, array, nil, end, Items, Fields, get, get_or, list_of}
use qa_ai_native.Retry.{Attempt, succeeded}
use qa_ai_native.Service.{
  Call, World, Outcome, done, Api, ◌>>=◌, and_then, and_then-eq, as_text, or_raise, unexpected,
}
use qa_ai_native.TestCases.{TestCase, add_to_group}
use qa_ai_native.TestCases.Groups.{group_of, tagged, group_of-add, one_more, none_more}
use qa_ai_native.Webhook.{is_text}
use qa_ai_native.Zephyr.{Config}
use qa_ai_native.Zephyr.Parse.{test_case_of}
use qa_ai_native.Zephyr.Pages.{request_json-succeeded}
use qa_ai_native.Zephyr.{request_json}
use qa_ai_native.Zephyr.Search.{steps_call, add_values, add_by_labels, parse_tc_json, same_id}

-- A test case of a page: what the service answers, its status and labels, and what it is parsed to.
pub record Entry : Type 0 where
  pub fields : Fields
  pub status : Fields
  pub labels : Items
  pub key : String
  pub steps : Json
  pub parsed : TestCase

-- Its fields have the status, the labels and the key, and the service always answers its steps with
-- a value that a test case is read off.
pub record IsEntry {S : Type 0} (send : Call → S → S × Attempt (Option Json)) (c : Config)
    (e : Entry) : Type 0 where
  pub has_status : get_or (object end) "status" e.fields ≡ object e.status
  pub has_labels : get_or (array nil) "labels" e.fields ≡ array e.labels
  pub has_key : get "key" e.fields ≡ string e.key
  pub answers : (s : S) → (send (steps_call c e.key) s).1 ≡ succeeded (some e.steps)
  pub reads : test_case_of none e.fields e.steps ≡ some e.parsed

abbrev pub fields_of : List Entry → List Json
fields_of [] = []
fields_of (e ∷ es) = object e.fields ∷ fields_of es

-- The test cases of that status with the label, in the order of the page, each once for each time
-- that the label is wanted.
abbrev pub matching : Json → List String → String → List Entry → List TestCase
matching status_id targets label [] = []
matching status_id targets label (e ∷ es) =
    (if same_id (get "id" e.status) status_id && any (is_text label) (list_of e.labels)
      then tagged label e.parsed targets
      else [])
    ++ matching status_id targets label es

module _ {S : Type 0} (send : Call → S → S × Attempt (Option Json)) (c : Config)
    (positive : 0 < c.max_retries) where
  steps_read-IsEntry :
      (e : Entry)
      → IsEntry send c e
      → (key : Json) → key ≡ string e.key
      → (w : World S)
      → (◌>>=◌ {S = S}
          (as_text key)
          (λ k.
            ◌>>=◌ {S = S}
              (request_json send c (steps_call c k))
              (λ steps. or_raise unexpected (test_case_of none e.fields steps)))
          w).1
        ≡ done e.parsed
  steps_read-IsEntry e v key k w =
      rw
        (
          k,
          request_json-succeeded send c (steps_call c e.key) e.steps w positive
              (v.answers w.service),
          v.reads,
        )
        refl

  parse_tc_json-IsEntry :
      (e : Entry)
      → IsEntry send c e
      → (w : World S) → (parse_tc_json send c none e.fields w).1 ≡ done e.parsed
  unfolding parse_tc_json
  parse_tc_json-IsEntry e v w = steps_read-IsEntry e v (get "key" e.fields) v.has_key w

  -- The groups that a command returns, each with what it has beyond a group before.
  abbrev pub Extends :
      (String → List TestCase)
      → Dict (List TestCase)
      → World S × Outcome (Dict (List TestCase))
      → Type 0
  Extends more groups r =
      (groups' : Dict (List TestCase)) × (r.1 ≡ done groups')
      × ((label : String) → group_of label groups' ≡ group_of label groups ++ more label)

  add_by_labels-Extends :
      (e : Entry)
      → IsEntry send c e
      → (targets : List String) (groups : Dict (List TestCase)) (w : World S)
      → Extends
          (λ label.
            if any (is_text label) (list_of e.labels) then tagged label e.parsed targets else [])
          groups
          (add_by_labels send c targets (list_of e.labels) e.fields groups w)
  unfolding add_by_labels
  add_by_labels-Extends e v [] groups w = (
    groups,
    refl,
    λ label. sym (elim (Bool-cases (any (is_text label) (list_of e.labels))) [
      | inl h ↦ rw h (append-nil (group_of label groups))
      | inr h ↦ rw h (append-nil (group_of label groups))
    ]),
  )
  add_by_labels-Extends e v (t ∷ targets) groups w =
      let has : String → Bool = λ label. any (is_text label) (list_of e.labels) in
      elim (Bool-cases (any (is_text t) (list_of e.labels))) [
        | inl h ↦
            let parsed = parse_tc_json send c none e.fields w in
            let (groups', d, g) =
              add_by_labels-Extends e v targets (add_to_group t e.parsed groups) parsed.0 in
            rw
              (
                h,
                and_then-eq parsed
                    (λ p.
                      add_by_labels send c targets (list_of e.labels) e.fields
                        (add_to_group t p groups))
                    e.parsed (parse_tc_json-IsEntry e v w),
              )
              (
                groups',
                d,
                λ label.
                    g label
                    ∙ ap (λ l. l ++ (if has label then tagged label e.parsed targets else []))
                        (group_of-add label t e.parsed groups)
                    ∙ append_assoc (group_of label groups)
                        (if str_eq t label then e.parsed ∷ [] else [])
                        (if has label then tagged label e.parsed targets else [])
                    ∙ ap (λ l. group_of label groups ++ l)
                        (one_more has t label (e.parsed ∷ []) (tagged label e.parsed targets) h),
              )
        | inr h ↦
            let (groups', d, g) = add_by_labels-Extends e v targets groups w in
            rw h (
              groups',
              d,
              λ label.
                  g label
                  ∙ ap (λ l. group_of label groups ++ l)
                      (none_more has t label (e.parsed ∷ []) (tagged label e.parsed targets) h),
            )
      ]

  Extends-then :
      (more rest : String → List TestCase) (groups : Dict (List TestCase))
      (r : World S × Outcome (Dict (List TestCase)))
      (k : Dict (List TestCase) → Api S (Dict (List TestCase)))
      → Extends more groups r
      → ((g : Dict (List TestCase)) (w : World S) → Extends rest g (k g w))
      → Extends (λ label. more label ++ rest label) groups (and_then r k)
  Extends-then more rest groups r k (g1, d1, e1) next =
      let (g2, d2, e2) = next g1 r.0 in
      rw (and_then-eq r k g1 d1) (
        g2,
        d2,
        λ label.
            e2 label
            ∙ ap (λ l. l ++ rest label) (e1 label)
            ∙ append_assoc (group_of label groups) (more label) (rest label),
      )

  pub add_values-Extends :
      (status_id : Json) (targets : List String) (es : List Entry)
      → All (IsEntry send c) es
      → (groups : Dict (List TestCase)) (w : World S)
      → Extends
          (λ label. matching status_id targets label es)
          groups
          (add_values send c status_id targets (fields_of es) groups w)
  unfolding add_values
  add_values-Extends status_id targets [] v groups w =
      (groups, refl, λ label. sym (append-nil (group_of label groups)))
  add_values-Extends status_id targets (e ∷ es) v groups w =
      let k : Dict (List TestCase) → Api S (Dict (List TestCase)) =
        λ g. add_values send c status_id targets (fields_of es) g in
      let rest : (g : Dict (List TestCase)) (u : World S)
          → Extends (λ label. matching status_id targets label es) g (k g u) =
        λ g u. add_values-Extends status_id targets es v.1 g u in
      elim (Bool-cases (same_id (get "id" e.status) status_id)) [
        | inl h ↦
            rw (v.0.has_status, h, v.0.has_labels)
              (Extends-then
                (λ label.
                  if any (is_text label) (list_of e.labels)
                  then tagged label e.parsed targets
                  else [])
                (λ label. matching status_id targets label es) groups
                (add_by_labels send c targets (list_of e.labels) e.fields groups w) k
                (add_by_labels-Extends e v.0 targets groups w) rest)
        | inr h ↦ rw (v.0.has_status, h) (rest groups w)
      ]
