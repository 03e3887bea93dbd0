-- ===== src/Zephyr/Edits.antt =====
-- The labels and the review comments that are written through the Zephyr client.
use qa_ai_native.Prelude.{
  ◌<◌, String, ◌≡◌, refl, ap, ◌∙◌, true, ◌||◌, Option, none, List, [], if◌then◌else◌, str_eq,
}
use qa_ai_native.Dict.{elem}
use qa_ai_native.Json.{
  Json, string, array, object, Fields, get, get_or, has_key, set_field, is_truthy, texts, items_of,
  list_of-items_of, texts_of-texts, get-set_field, end,
}
use qa_ai_native.Retry.{Attempt}
use qa_ai_native.Service.{Call, World, done}
use qa_ai_native.Zephyr.{Config}
use qa_ai_native.Zephyr.Cases.{
  get_test_case_url, add_all, add_labels_to_test_case, add_test_case_review_comment,
  joined_comments,
}
use qa_ai_native.Zephyr.Updates.{
  Store, Updates, read_then_write, written-Updates, get_test_case_data-Store,
  update_test_case-Store, elem-add_all,
}

module _ {S : Type 0} (send : Call → S → S × Attempt (Option Json)) (c : Config)
    (store : Store send) (positive : 0 < c.max_retries) where
  add_labels_run :
      (order : List String → List String) (key : String) (old labels : List String)
      (fields : Fields) (w : World S)
      → store.stored w.service (get_test_case_url c key) ≡ object fields
      → get_or (array (items_of [])) "labels" fields ≡ array (items_of (texts old))
      → add_labels_to_test_case send c order key labels w ≡ (
        read_then_write send c store positive
            (get_test_case_url c key)
            (object (
              set_field "labels"
                (array (items_of (texts (order (add_all (add_all [] old) labels)))))
                fields))
            w,
        done none,
      )
  unfolding add_labels_to_test_case
  add_labels_run order key old labels fields w has_fields has_labels =
      rw
        (
          get_test_case_data-Store send c store positive (get_test_case_url c key) w,
          has_fields,
          has_labels,
          list_of-items_of (texts old),
          texts_of-texts old,
        )
        (update_test_case-Store send c store positive _ _ _)

  comment_run :
      (show : Json → String) (key comment : String) (fields custom : Fields) (w : World S)
      → store.stored w.service (get_test_case_url c key) ≡ object fields
      → get_or (object end) c.custom_fields_name fields ≡ object custom
      → has_key c.comments_field_name custom ≡ true
      → is_truthy (object custom) ≡ true
      → add_test_case_review_comment send c show key comment w ≡ (
        read_then_write send c store positive
            (get_test_case_url c key)
            (object (
              set_field c.custom_fields_name
                (object (
                  set_field c.comments_field_name
                    (string (joined_comments show (get c.comments_field_name custom) comment))
                    custom))
                fields))
            w,
        done none,
      )
  unfolding add_test_case_review_comment
  comment_run show key comment fields custom w has_fields has_custom has_comments filled =
      rw
        (
          get_test_case_data-Store send c store positive (get_test_case_url c key) w,
          has_fields,
          has_custom,
          filled,
          has_comments,
        )
        (update_test_case-Store send c store positive _ _ _)

  -- If the service is a store in which a test case has a list of texts as its labels, then the
  -- request to add labels succeeds, afterwards the test case has exactly the labels that it had and
  -- the added ones, whatever the order is in which a set is listed, and no other field and no other
  -- test case has changed.
  pub add_labels-Updates :
      (order : List String → List String)
      → ((x : String) (l : List String) → elem x (order l) ≡ elem x l)
      → (key : String) (old labels : List String) (fields : Fields) (w : World S)
      → store.stored w.service (get_test_case_url c key) ≡ object fields
      → get_or (array (items_of [])) "labels" fields ≡ array (items_of (texts old))
      → ((add_labels_to_test_case send c order key labels w).1 ≡ done none)
        × ((new : List String) × ((x : String) → elem x new ≡ (elem x old || elem x labels))
            × Updates send c store positive
                (get_test_case_url c key)
                "labels"
                (array (items_of (texts new)))
                fields
                w.service
                (add_labels_to_test_case send c order key labels w).0.service)
  add_labels-Updates order keeps key old labels fields w has_fields has_labels =
      let new = order (add_all (add_all [] old) labels) in
      rw (add_labels_run order key old labels fields w has_fields has_labels) (
        refl,
        (
          new,
          (λ x.
              keeps x (add_all (add_all [] old) labels)
              ∙ elem-add_all x (add_all [] old) labels
              ∙ ap (λ b. b || elem x labels) (elem-add_all x [] old)),
          written-Updates send c store positive (get_test_case_url c key) "labels"
              (array (items_of (texts new))) fields w,
        ),
      )

  -- If the service is a store in which a test case has comments under the configured fields, then
  -- the request to add a review comment succeeds, and afterwards the field of the comments has what
  -- stood there and the comment after a `<br>`, or only the comment if it was empty, with each line
  -- end of the comment as a `<br>`; no other custom field, field or test case has changed.
  pub add_comment-Updates :
      (show : Json → String) (key comment : String) (fields custom : Fields) (w : World S)
      → store.stored w.service (get_test_case_url c key) ≡ object fields
      → get_or (object end) c.custom_fields_name fields ≡ object custom
      → has_key c.comments_field_name custom ≡ true
      → is_truthy (object custom) ≡ true
      → ((add_test_case_review_comment send c show key comment w).1 ≡ done none)
        × ((new : Fields) × ((k : String)
              → get k new ≡ (
                  if str_eq c.comments_field_name k
                  then string (joined_comments show (get c.comments_field_name custom) comment)
                  else get k custom))
            × Updates send c store positive
                (get_test_case_url c key)
                c.custom_fields_name
                (object new)
                fields
                w.service
                (add_test_case_review_comment send c show key comment w).0.service)
  add_comment-Updates show key comment fields custom w has_fields has_custom has_comments filled =
      let text = string (joined_comments show (get c.comments_field_name custom) comment) in
      let new = set_field c.comments_field_name text custom in
      rw (comment_run show key comment fields custom w has_fields has_custom has_comments filled) (
        refl,
        (
          new,
          (λ k. get-set_field c.comments_field_name k text custom),
          written-Updates send c store positive (get_test_case_url c key) c.custom_fields_name
              (object new) fields w,
        ),
      )
