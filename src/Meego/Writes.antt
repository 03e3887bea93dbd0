-- ===== src/Meego/Writes.antt =====
-- The other writes of the client of Feishu Project (common/services/meego_client.py). `lower` is
-- `str.lower`, and `replace` is `str.replace` of one text by another.
use qa_ai_native.Prelude.{
  ℕ, String, Option, none, some, true, List, [], ◌∷◌, if◌then◌else◌, str_append, str_eq,
}
use qa_ai_native.Dict.{Dict, lookup}
use qa_ai_native.Json.{Json, number, string, array, object, Fields, dict, items_of, texts}
use qa_ai_native.Retry.{Attempt}
use qa_ai_native.Service.{http_patch, Call, Api}
use qa_ai_native.Meego.{Config, Session, field_entry, post_call, post}

abbrev pub work_item : Config → String → String → String
work_item c key suffix =
    str_append "/open_api/"
      (str_append c.default_project_key (str_append "/work_item/" (str_append key suffix)))

abbrev pub status_options : Dict String
status_options =
    ("not_reviewed", "not_reviewed")
    ∷ ("review_passed", "review_passed")
    ∷ ("review_failed", "review_failed")
    ∷ ("systemended", "systemEnded")
    ∷ []

-- The first status whose name with spaces for `_` is the wanted one, and else that one.
abbrev pub by_spaced : (String → String) → String → String → Dict String → String
by_spaced spaced wanted default [] = default
by_spaced spaced wanted default ((k, v) ∷ d) =
    if str_eq (spaced k) wanted then v else by_spaced spaced wanted default d

unfoldable pub status_id : (String → String) → (String → String → String → String) → String → String
status_id lower replace name = elim (lookup (replace " " "_" (lower name)) status_options) [
  | some id ↦ id
  | none ↦ by_spaced (replace "_" " ") (lower name) name status_options
]

module _ {S : Type 0} (send : Call → S → S × Attempt (Option Json)) (clock : S → ℕ) (c : Config)
    (show : Json → String) (seconds : Json → Option ℕ) where
  unfoldable pub add_labels_to_test_case : String → List String → Api (Session S) Fields
  unfolding post
  add_labels_to_test_case key labels = post send clock c show seconds (record {
    method = http_patch;
    url = str_append c.base_url (work_item c key "");
    content = object (
        dict (
          (
            "fields",
            array (items_of (field_entry "field_65e1cc" (array (items_of (texts labels))) ∷ [])),
          )
          ∷ []));
  })

  unfoldable pub add_test_case_review_comment : String → String → Api (Session S) Fields
  unfolding post
  add_test_case_review_comment key comment = post send clock c show seconds (
      post_call c (work_item c key "/comment/create")
        (object (dict (("content", string comment) ∷ ("type", number true "1") ∷ []))))

  unfoldable pub add_work_item_comment : String → String → String → String → Api (Session S) Fields
  unfolding post
  add_work_item_comment project_key type_key id content = post send clock c show seconds (
      post_call c (str_append "/open_api/" (str_append project_key "/work_item/comment/create")) (
        object (
          dict (
            ("work_item_id", string id)
            ∷ ("work_item_type_key", string type_key)
            ∷ ("content", string content)
            ∷ []))))

  unfoldable pub change_test_case_status :
      (String → String)
      → (String → String → String → String)
      → String
      → String
      → String
      → Api (Session S) Fields
  unfolding post status_id
  change_test_case_status lower replace project_key key new_status =
      post send clock c show seconds (
        post_call c
          (str_append "/open_api/" (
            str_append project_key (str_append "/work_item/" (str_append key "/transition_state"))))
          (object
            (dict (("transition_status_id", string (status_id lower replace new_status)) ∷ []))))
