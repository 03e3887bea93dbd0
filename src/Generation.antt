-- ===== src/Generation.antt =====
-- The agent that generates test cases (agents/test_case_generation/main.py): the calls of the model
-- in batches. What a call answers is an input.
pub mod Sections
pub mod Merging
pub mod Batches
mod Tests
use qa_ai_native.Prelude.{
  ℕ, zero, suc, ◌+◌, ◌-◌, String, str_append, Option, none, some, List, [], ◌∷◌, ◌++◌, str_eq,
  if◌then◌else◌,
}
use qa_ai_native.TestCases.{TestCase}
use qa_ai_native.Generation.Sections.{
  Patterns, PrdType, ac_list, functional, narrative, AcceptanceCriteriaItem, classify_prd,
  chunk_by_sections,
}

pub record GeneratedTestCases : Type 0 where
  pub test_cases : List TestCase
  pub llm_comments : Option String

-- `RuntimeError`, with the number of the batch, or the test cases.
pub data Result : Type 0 where
  batch_failed : ℕ → Result
  -- the model's call to read the acceptance criteria raises
  not_extracted : Result
  generated : GeneratedTestCases → Result

module _ {A : Type 0} where
  abbrev pub cons_first : A → List (List A) → List (List A)
  cons_first x [] = (x ∷ []) ∷ []
  cons_first x (b ∷ bs) = (x ∷ b) ∷ bs

  -- The batches when the current one has room for `room` more.
  abbrev pub batched_from : ℕ → ℕ → List A → List (List A)
  batched_from size room [] = [] ∷ []
  batched_from size zero (x ∷ xs) = [] ∷ cons_first x (batched_from size (size - 1) xs)
  batched_from size (suc room) (x ∷ xs) = cons_first x (batched_from size room xs)

  -- `batched` of itertools, for a positive size; the configured one is at least 1.
  unfoldable pub batched : ℕ → List A → List (List A)
  batched size [] = []
  batched size (x ∷ xs) = cons_first x (batched_from size (size - 1) xs)

-- A call of the model for a batch, with the number of the batch; `none` is an exception.
abbrev pub Generator : Type 0
Generator = List AcceptanceCriteriaItem → ℕ → Option GeneratedTestCases

-- The answers of the batches, numbered from `i`. Each call is made, also after one that raises.
abbrev pub answers_of :
    Generator → ℕ → List (List AcceptanceCriteriaItem) → List (Option GeneratedTestCases)
answers_of run i [] = []
answers_of run i (batch ∷ batches) = run batch i ∷ answers_of run (i + 1) batches

-- `"\n".join(comments) or None`
abbrev pub join_lines : List String → String
join_lines [] = ""
join_lines (s ∷ []) = s
join_lines (s ∷ t ∷ l) = str_append s (str_append "\n" (join_lines (t ∷ l)))

abbrev pub or_none : String → Option String
or_none s = if str_eq s "" then none else some s

-- A comment that is missing or empty is left out.
abbrev pub comment_of : Option String → List String
comment_of none = []
comment_of (some s) = if str_eq s "" then [] else s ∷ []

-- The loop over the answers, with what it has collected.
unfoldable pub collect : ℕ → List TestCase → List String → List (Option GeneratedTestCases) → Result
collect i test_cases comments [] =
    generated (record { test_cases = test_cases; llm_comments = or_none (join_lines comments) })
collect i test_cases comments (none ∷ answers) = batch_failed (i + 1)
collect i test_cases comments (some g ∷ answers) =
    collect (i + 1) (test_cases ++ g.test_cases) (comments ++ comment_of g.llm_comments) answers

unfoldable pub generate_test_cases_from_acs : Generator → ℕ → List AcceptanceCriteriaItem → Result
unfolding batched collect
generate_test_cases_from_acs run batch_size items =
    collect 0 [] [] (answers_of run 0 (batched batch_size items))

-- The model reads the acceptance criteria off a document that is not divided by its sections, and
-- off its attachments; `none` is an exception on the way.
unfoldable pub generate_test_cases :
    Patterns
    → (ℕ → String)
    → ℕ
    → ℕ
    → ℕ
    → ℕ
    → Generator
    → (String → Option (List AcceptanceCriteriaItem))
    → String
    → Result
unfolding classify_prd chunk_by_sections generate_test_cases_from_acs
generate_test_cases p show threshold min_chars max_chars batch_size run extract content =
    elim (classify_prd p threshold content) [
      | functional ↦
          generate_test_cases_from_acs run batch_size
            (chunk_by_sections p show min_chars max_chars content)
      | ac_list ↦ elim (extract content) [
        | none ↦ not_extracted
        | some items ↦ generate_test_cases_from_acs run batch_size items
      ]
      | narrative ↦ elim (extract content) [
        | none ↦ not_extracted
        | some items ↦ generate_test_cases_from_acs run batch_size items
      ]
    ]
