-- ===== src/Pipeline/Keys.antt =====
-- The keys that the test cases of a pipeline get.
use qa_ai_native.Prelude.{
  String, ◌≡◌, refl, ap, false, some, List, [], ◌∷◌, ◌++◌, All, length, arith, str_eq,
}
use qa_ai_native.TestCases.{TestCase}
use qa_ai_native.Meego.{given_ids}
use qa_ai_native.Pipeline.Story.{assign_keys}

-- If the first work items were created, the next one was not, and the one after it was, then the test
-- case that was not created gets the key of the one after it, and the keys of all later test cases
-- are taken from what is left: they are shifted by one place.
pub assign_keys-shifts :
    (story_id id : String) (ids rest : List String) (front more : List TestCase) (tc : TestCase)
    → length ids ≡ length front
    → All (λ i. str_eq i "" ≡ false) ids
    → str_eq id "" ≡ false
    → assign_keys story_id (given_ids (ids ++ "" ∷ id ∷ rest)) (front ++ tc ∷ more)
      ≡ assign_keys story_id ids front
        ++ record tc { key = id; parent_issue_key = some story_id }
          ∷ assign_keys story_id (given_ids rest) more
unfolding assign_keys given_ids
assign_keys-shifts story_id id [] rest [] more tc l h given = rw given refl
assign_keys-shifts story_id id [] rest (f ∷ front) more tc l h given = absurd (omega (arith, l))
assign_keys-shifts story_id id (i ∷ ids) rest [] more tc l h given = absurd (omega (arith, l))
assign_keys-shifts story_id id (i ∷ ids) rest (f ∷ front) more tc l h given = rw h.0 (
    ap (◌∷◌ (record f { key = i; parent_issue_key = some story_id }))
      (assign_keys-shifts story_id id ids rest front more tc (omega (arith, l)) h.1 given))
