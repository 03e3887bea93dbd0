-- ===== src/Generation/Tests.antt =====
-- The generation of test cases at concrete documents.
use qa_ai_native.Prelude.{ℕ, ◌≡◌, refl, String, none, some, List, [], ◌∷◌, arith, tail, All}
use qa_ai_native.Generation.Sections.{
  Section, Match, Patterns, ac_list, functional, AcceptanceCriteriaItem, classify_prd, strip,
  chunk_by_sections, merge_short_sections,
}
use qa_ai_native.Generation.{
  GeneratedTestCases, generated, batched, Generator, generate_test_cases_from_acs,
}
use qa_ai_native.Generation.Merging.{merge_short_sections-keeps, document_text, IsLong}
use qa_ai_native.Generation.Batches.{generate-covers, AreBatches, concat}

abbrev section : String → String → Section
section id content = record { section_id = id; title = id; content = content }

merged :
    merge_short_sections 3 (section "1.1" "a" ∷ section "1.2" "b" ∷ section "1.3" "long" ∷ [])
    ≡ record { section_id = "1.1"; title = "1.1"; content = "a\n\n### 1.2\nb" }
      ∷ section "1.3" "long"
      ∷ []
unfolding merge_short_sections
merged = refl

merge_short_sections-keeps_example :
    (document_text (merge_short_sections 3 (section "1.1" "a" ∷ section "1.2" "b" ∷ []))
      ≡ "a\n\n### 1.2\nb")
    × All (IsLong 3) (tail (merge_short_sections 3 (section "1.1" "a" ∷ section "1.2" "b" ∷ [])))
merge_short_sections-keeps_example =
    merge_short_sections-keeps 3 (section "1.1" "a" ∷ section "1.2" "b" ∷ [])

stripped : strip " a b\n" ≡ "a b"
unfolding strip
stripped = refl

-- The text "1.1 A\nx\n1.2 B\ny", whose titles are found at 0 and 8.
abbrev prd : String
prd = "1.1 A\nx\n1.2 B\ny"

abbrev titles : List Match
titles =
    record { start = 0; stop = 5; number = "1.1"; heading = "A" }
    ∷ record { start = 8; stop = 13; number = "1.2"; heading = "B" }
    ∷ []

abbrev patterns : Patterns
patterns = record {
  section_numbers = λ s. 2;
  split_headings = λ s. s ∷ [];
  replace_tags = λ s. s;
  leading_number = λ s. none;
  numbered_titles = λ s. titles;
}

classified : classify_prd patterns 2 prd ≡ functional
unfolding classify_prd
classified = refl

with_signal : classify_prd patterns 2 "The 验收标准 are" ≡ ac_list
unfolding classify_prd
with_signal = refl

abbrev chunk : String → String → AcceptanceCriteriaItem
chunk id text = record { id = id; text = text; attachment_info = ""; source_type = "section" }

chunks :
    chunk_by_sections patterns (λ n. "") 0 100 prd
    ≡ chunk "1.1" "A\n\nx" ∷ chunk "1.2" "B\n\ny" ∷ []
unfolding chunk_by_sections
chunks = refl

batches : batched {A = ℕ} 2 (1 ∷ 2 ∷ 3 ∷ 4 ∷ 5 ∷ []) ≡ (1 ∷ 2 ∷ []) ∷ (3 ∷ 4 ∷ []) ∷ (5 ∷ []) ∷ []
unfolding batched
batches = refl

-- Each batch is answered with its number of criteria as the comment.
abbrev answer : String → GeneratedTestCases
answer s = record { test_cases = []; llm_comments = some s }

abbrev run : Generator
run [] i = none
run (a ∷ []) i = some (answer "one")
run (a ∷ b ∷ l) i = some (answer "two")

abbrev items : List AcceptanceCriteriaItem
items = chunk "1" "a" ∷ chunk "2" "b" ∷ chunk "3" "c" ∷ []

generate-covers_example :
    AreBatches 2 (batched 2 items)
    × (concat (batched 2 items) ≡ items)
    × (generate_test_cases_from_acs run 2 items
        ≡ generated (record { test_cases = []; llm_comments = some "two\none" }))
unfolding batched
generate-covers_example =
    generate-covers run 2 items (answer "two" ∷ answer "one" ∷ []) (omega arith) (refl, (refl, tt))
