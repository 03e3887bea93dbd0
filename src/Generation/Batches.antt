-- ===== src/Generation/Batches.antt =====
-- The batches of the acceptance criteria, and the test cases that they come to.
use mathlib.Core.List.{append-nil, append_assoc}
use qa_ai_native.Prelude.{
  ℕ, zero, suc, ◌+◌, ◌-◌, ◌≤◌, ◌<◌, ◌≡◌, refl, sym, ap, ◌∙◌, String, Option, none, some, List, [],
  ◌∷◌, ◌++◌, length, map, arith,
}
use qa_ai_native.TestCases.{TestCase}
use qa_ai_native.Generation.Sections.{AcceptanceCriteriaItem}
use qa_ai_native.Generation.{
  GeneratedTestCases, batch_failed, generated, cons_first, batched_from, batched, Generator,
  answers_of, collect, comment_of, or_none, join_lines, generate_test_cases_from_acs,
}

module _ {A : Type 0} where
  abbrev pub concat : List (List A) → List A
  concat [] = []
  concat (b ∷ bs) = b ++ concat bs

  -- All batches but the last are full, and the last is not empty.
  abbrev pub AreBatches : ℕ → List (List A) → Type 0
  AreBatches size [] = Unit
  AreBatches size (b ∷ []) = (0 < length b) × (length b ≤ size)
  AreBatches size (b ∷ c ∷ bs) = (length b ≡ size) × AreBatches size (c ∷ bs)

  -- What is cut off a list while the current batch has room.
  data Fills (size room : ℕ) (xs : List A) : List (List A) → Type 0 where
    last : length xs ≤ room → Fills size room xs (xs ∷ [])
    full :
        (b c : List A) (bs : List (List A))
        → length b ≡ room
        → AreBatches size (c ∷ bs)
        → b ++ concat (c ∷ bs) ≡ xs
        → Fills size room xs (b ∷ c ∷ bs)

  cons-Fills :
      (size room : ℕ) (x : A) (xs : List A) (bs : List (List A))
      → Fills size room xs bs
      → Fills size (suc room) (x ∷ xs) (cons_first x bs)
  cons-Fills size room x xs bs (last h) = last (omega (arith, h))
  cons-Fills size room x xs bs (full b c cs h batches joined) =
      full (x ∷ b) c cs (ap suc h) batches (ap (λ l. x ∷ l) joined)

  Fills-batches :
      (size : ℕ) (x : A) (xs : List A) (bs : List (List A))
      → 0 < size
      → Fills size (size - 1) xs bs
      → AreBatches size (cons_first x bs) × (concat (cons_first x bs) ≡ x ∷ xs)
  Fills-batches size x xs bs positive (last h) =
      ((omega arith, omega (arith, h)), append-nil (x ∷ xs))
  Fills-batches size x xs bs positive (full b c cs h batches joined) =
      ((omega (arith, h), batches), ap (λ l. x ∷ l) joined)

  start-Fills :
      (size : ℕ) (x : A) (xs : List A) (bs : List (List A))
      → 0 < size
      → Fills size (size - 1) xs bs
      → Fills size zero (x ∷ xs) ([] ∷ cons_first x bs)
  start-Fills size x xs bs positive (last h) =
      full [] (x ∷ xs) [] refl (omega arith, omega (arith, h)) (append-nil (x ∷ xs))
  start-Fills size x xs bs positive (full b c cs h batches joined) =
      full [] (x ∷ b) (c ∷ cs) refl (omega (arith, h), batches) (ap (λ l. x ∷ l) joined)

  batched_from-Fills :
      (size : ℕ)
      → 0 < size
      → (room : ℕ) (xs : List A) → Fills size room xs (batched_from size room xs)
  batched_from-Fills size positive room [] = last (omega arith)
  batched_from-Fills size positive zero (x ∷ xs) =
      start-Fills size x xs (batched_from size (size - 1) xs) positive
        (batched_from-Fills size positive (size - 1) xs)
  batched_from-Fills size positive (suc room) (x ∷ xs) =
      cons-Fills size room x xs (batched_from size room xs)
        (batched_from-Fills size positive room xs)

  pub batched-AreBatches :
      (size : ℕ) (xs : List A)
      → 0 < size
      → AreBatches size (batched size xs) × (concat (batched size xs) ≡ xs)
  unfolding batched
  batched-AreBatches size [] positive = (tt, refl)
  batched-AreBatches size (x ∷ xs) positive =
      Fills-batches size x xs (batched_from size (size - 1) xs) positive
        (batched_from-Fills size positive (size - 1) xs)

-- The test cases and the comments of some answers.
abbrev pub all_test_cases : List GeneratedTestCases → List TestCase
all_test_cases [] = []
all_test_cases (g ∷ gs) = g.test_cases ++ all_test_cases gs

abbrev pub all_comments : List GeneratedTestCases → List String
all_comments [] = []
all_comments (g ∷ gs) = comment_of g.llm_comments ++ all_comments gs

-- The calls for some batches, numbered from `i`, answer these, each for its own batch.
abbrev pub Answered :
    Generator → ℕ → List (List AcceptanceCriteriaItem) → List GeneratedTestCases → Type 0
Answered run i [] [] = Unit
Answered run i [] (g ∷ gs) = ⊥
Answered run i (b ∷ bs) [] = ⊥
Answered run i (b ∷ bs) (g ∷ gs) = (run b i ≡ some g) × Answered run (i + 1) bs gs

answers_of-Answered :
    (run : Generator) (i : ℕ) (bs : List (List AcceptanceCriteriaItem))
    (gs : List GeneratedTestCases) (rest : List (List AcceptanceCriteriaItem))
    → Answered run i bs gs
    → answers_of run i (bs ++ rest) ≡ map some gs ++ answers_of run (i + length gs) rest
answers_of-Answered run i [] [] rest h = ap (λ n. answers_of run n rest) (omega arith)
answers_of-Answered run i [] (g ∷ gs) rest h = absurd h
answers_of-Answered run i (b ∷ bs) [] rest h = absurd h
answers_of-Answered run i (b ∷ bs) (g ∷ gs) rest (here, later) =
    ap (λ a. a ∷ answers_of run (i + 1) (bs ++ rest)) here
    ∙ ap (λ l. some g ∷ l) (answers_of-Answered run (i + 1) bs gs rest later)
    ∙ ap (λ n. some g ∷ map some gs ++ answers_of run n rest) (omega arith)

collect-answered :
    (i : ℕ) (tcs : List TestCase) (comments : List String) (gs : List GeneratedTestCases)
    → collect i tcs comments (map some gs)
      ≡ generated (record {
        test_cases = tcs ++ all_test_cases gs;
        llm_comments = or_none (join_lines (comments ++ all_comments gs));
      })
unfolding collect
collect-answered i tcs comments [] = rw (append-nil tcs, append-nil comments) refl
collect-answered i tcs comments (g ∷ gs) =
    rw
      (
        sym (append_assoc tcs g.test_cases (all_test_cases gs)),
        sym (append_assoc comments (comment_of g.llm_comments) (all_comments gs)),
      )
      (collect-answered (i + 1) (tcs ++ g.test_cases) (comments ++ comment_of g.llm_comments) gs)

collect-failed :
    (i : ℕ) (tcs : List TestCase) (comments : List String) (gs : List GeneratedTestCases)
    (rest : List (Option GeneratedTestCases))
    → collect i tcs comments (map some gs ++ none ∷ rest) ≡ batch_failed (i + length gs + 1)
unfolding collect
collect-failed i tcs comments [] rest = ap batch_failed (omega arith)
collect-failed i tcs comments (g ∷ gs) rest =
    collect-failed (i + 1) (tcs ++ g.test_cases) (comments ++ comment_of g.llm_comments) gs rest
    ∙ ap batch_failed (omega arith)

-- The acceptance criteria are cut into batches that, one after the other, have all of them in order:
-- each batch but the last is of the configured positive size, and the last is not empty. If the call
-- for each batch answers, then the result has the test cases of all answers in the order of the
-- batches, and their comments.
pub generate-covers :
    (run : Generator) (size : ℕ) (items : List AcceptanceCriteriaItem)
    (gs : List GeneratedTestCases)
    → 0 < size
    → Answered run 0 (batched size items) gs
    → AreBatches size (batched size items)
      × (concat (batched size items) ≡ items)
      × (generate_test_cases_from_acs run size items
          ≡ generated (record {
            test_cases = all_test_cases gs;
            llm_comments = or_none (join_lines (all_comments gs));
          }))
unfolding generate_test_cases_from_acs
generate-covers run size items gs positive answered =
    let (batches, joined) = batched-AreBatches size items positive in
    let e : answers_of run 0 (batched size items) ≡ map some gs =
      ap (answers_of run 0) (sym (append-nil (batched size items)))
      ∙ answers_of-Answered run 0 (batched size items) gs [] answered
      ∙ append-nil (map some gs) in
    (batches, joined, ap (collect 0 [] []) e ∙ collect-answered 0 [] [] gs)

-- If the calls for some first batches answer and the call for the next one raises, then the
-- generation fails with the number of that batch, whatever the calls for the others answer.
pub generate-fails :
    (run : Generator) (size : ℕ) (items : List AcceptanceCriteriaItem)
    (gs : List GeneratedTestCases) (before after : List (List AcceptanceCriteriaItem))
    (b : List AcceptanceCriteriaItem)
    → batched size items ≡ before ++ b ∷ after
    → Answered run 0 before gs
    → run b (length gs) ≡ none
    → generate_test_cases_from_acs run size items ≡ batch_failed (length gs + 1)
unfolding generate_test_cases_from_acs
generate-fails run size items gs before after b cut answered raised =
    let later : List (Option GeneratedTestCases) = answers_of run (length gs + 1) after in
    ap (λ bs. collect 0 [] [] (answers_of run 0 bs)) cut
    ∙ ap (collect 0 [] []) (answers_of-Answered run 0 before gs (b ∷ after) answered)
    ∙ ap (λ n. collect 0 [] [] (map some gs ++ answers_of run n (b ∷ after))) (omega arith)
    ∙ ap (λ o. collect 0 [] [] (map some gs ++ o ∷ later)) raised
    ∙ collect-failed 0 [] [] gs later
    ∙ ap batch_failed (omega arith)
