-- ===== src/Zephyr/RoundTrip.antt =====
-- What the Zephyr client writes is what it reads.
use qa_ai_native.Prelude.{
  String, Option, none, some, ◌≡◌, ◌≢◌, refl, ap, false, List, [], ◌∷◌, All, map, str_eq, eq_iff,
  Bool-cases, inl, inr, sym,
}
use qa_ai_native.Json.{
  string, array, object, get, get_or, dict, items_of, texts, or_null, list_of-items_of,
  texts_of-texts,
}
use qa_ai_native.TestCases.{TestStep, TestCase}
use qa_ai_native.Zephyr.Text.{has_br, has_newline, drop_lines, join_br, split_br}
use qa_ai_native.Zephyr.Text.Lines.{
  unescape_lines-escape_lines, split_br-join_br, drop_lines-join_br,
}
use qa_ai_native.Zephyr.Cases.{step_payload, test_case_entries}
use qa_ai_native.Zephyr.Parse.{step_of, steps_of, test_case_of, text?, or_empty, optional_text?}

-- A step with data, none of whose texts holds a `<br>`, and none of whose data ends a line.
pub record IsPlain (step : TestStep) : Type 0 where
  pub expected : has_br step.expected_results ≡ false
  pub nonempty : step.test_data ≢ []
  pub unbroken : All (λ t. has_br t ≡ false) step.test_data
  pub one_line : All (λ t. has_newline t ≡ false) step.test_data

data_of :
    (l : List String)
    → l ≢ []
    → All (λ t. has_br t ≡ false) l
    → All (λ t. has_newline t ≡ false) l
    → split_br (drop_lines (join_br l)) ≡ l
data_of [] h b n = absurd (h refl)
data_of (s ∷ l) h b n = rw (drop_lines-join_br (s ∷ l) n) (split_br-join_br s l b)

text?-or_empty : (s : String) → text? (or_empty (string s)) ≡ some s
text?-or_empty s = elim (Bool-cases (str_eq s "")) [
  | inl empty ↦ rw empty (ap some (sym ((eq_iff s "").0 empty)))
  | inr filled ↦ rw filled refl
]

optional_text?-or_null : (o : Option String) → optional_text? (or_null o) ≡ some o
optional_text?-or_null none = refl
optional_text?-or_null (some s) = refl

pub step_of-step_payload :
    (step : TestStep) → IsPlain step → step_of (step_payload step) ≡ some step
unfolding step_of get get_or
step_of-step_payload step p =
    rw
      (
        text?-or_empty (drop_lines (join_br step.test_data)),
        data_of step.test_data p.nonempty p.unbroken p.one_line,
        unescape_lines-escape_lines step.expected_results p.expected,
      )
      refl

steps_of-map :
    (steps : List TestStep) → All IsPlain steps → steps_of (map step_payload steps) ≡ some steps
unfolding steps_of
steps_of-map [] h = refl
steps_of-map (step ∷ steps) h = rw (step_of-step_payload step h.0, steps_of-map steps h.1) refl

-- If the service answers with what a test case was created with, under its key and labels, and with
-- the steps that were added, then the test case that the client reads has the name, the summary, the
-- preconditions and the steps that were written, provided that each step has data, that no expected
-- result and no data hold a `<br>`, and that no data has a line end.
pub test_case_of-created :
    (parent : Option String) (project_key key : String) (labels : List String) (tc : TestCase)
    → All IsPlain tc.steps
    → test_case_of parent
        (dict (
          ("key", string key)
          ∷ ("labels", array (items_of (texts labels)))
          ∷ test_case_entries project_key tc))
        (object (dict (("values", array (items_of (map step_payload tc.steps))) ∷ [])))
      ≡ some (record tc { key = key; labels = labels; comment = ""; parent_issue_key = parent })
unfolding test_case_of get get_or
test_case_of-created parent project_key key labels tc h =
    rw
      (
        list_of-items_of (map step_payload tc.steps),
        steps_of-map tc.steps h,
        optional_text?-or_null tc.preconditions,
        list_of-items_of (texts labels),
        texts_of-texts labels,
      )
      refl
