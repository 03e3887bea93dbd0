-- ===== src/TestCases/Groups.antt =====
-- The groups that the test cases are sorted into.
mod Tests
use mathlib.Core.List.{append-nil, append_assoc}
use qa_ai_native.Prelude.{
  Bool, ◌≡◌, ◌≢◌, refl, sym, ap, ◌∙◌, String, true, false, Option, none, some, List, [], ◌∷◌, ◌++◌,
  arith, if◌then◌else◌, str_eq, eq_iff, Bool-cases, Option-cases, inl, inr,
}
use qa_ai_native.Dict.{Dict, lookup, insert, lookup-insert}
use qa_ai_native.Registry.{or_default}
use qa_ai_native.TestCases.{
  TestCase, add_to_group, group_labels, group_all, group_test_cases_by_labels,
}

-- The group of a label; a missing one is empty.
abbrev pub group_of : String → Dict (List TestCase) → List TestCase
group_of label groups = or_default [] (lookup label groups)

-- The test case once for each time it has the label.
abbrev pub tagged : String → TestCase → List String → List TestCase
tagged label tc [] = []
tagged label tc (l ∷ labels) = (if str_eq l label then tc ∷ [] else []) ++ tagged label tc labels

-- The test cases with a label, in order.
abbrev pub all_tagged : String → List TestCase → List TestCase
all_tagged label [] = []
all_tagged label (tc ∷ tcs) = tagged label tc tc.labels ++ all_tagged label tcs

pub group_of-add :
    (label l : String) (tc : TestCase) (groups : Dict (List TestCase))
    → group_of label (add_to_group l tc groups)
      ≡ group_of label groups ++ (if str_eq l label then tc ∷ [] else [])
unfolding add_to_group
group_of-add label l tc groups = elim (Bool-cases (str_eq l label)) [
  | inr e ↦ rw e (
      ap (or_default []) (
        let d : List TestCase = elim (lookup l groups) [
          | none ↦ tc ∷ []
          | some tcs ↦ tcs ++ tc ∷ []
        ] in
        let s : lookup label (insert l d groups) ≡ lookup label groups =
          ground (arith, e, lookup-insert l label d groups) in
        s)
      ∙ sym (append-nil (group_of label groups)))
  | inl e ↦ elim (Option-cases (lookup l groups)) [
    | inl q ↦ ground (
      arith,
      e,
      q,
      (eq_iff l label).0 e,
      ap (λ k. lookup k groups) ((eq_iff l label).0 e),
      lookup-insert l label (tc ∷ []) groups,
    )
    | inr (tcs, q) ↦ ground (
      arith,
      e,
      q,
      (eq_iff l label).0 e,
      ap (λ k. lookup k groups) ((eq_iff l label).0 e),
      lookup-insert l label (tcs ++ tc ∷ []) groups,
    )
  ]
]

-- One wanted label in front of the others, when the test case has it, and when it does not.
pub one_more :
    {A : Type 0} (has : String → Bool) (t label : String) (x y : List A)
    → has t ≡ true
    → (if str_eq t label then x else []) ++ (if has label then y else [])
      ≡ (if has label then (if str_eq t label then x else []) ++ y else [])
one_more has t label x y h = elim (Bool-cases (str_eq t label)) [
  | inl e ↦
      let also : has label ≡ true = ap has (sym ((eq_iff t label).0 e)) ∙ h in rw (e, also) refl
  | inr e ↦ rw e refl
]

pub none_more :
    {A : Type 0} (has : String → Bool) (t label : String) (x y : List A)
    → has t ≡ false
    → (if has label then y else [])
      ≡ (if has label then (if str_eq t label then x else []) ++ y else [])
none_more has t label x y h = elim (Bool-cases (str_eq t label)) [
  | inl e ↦
      let neither : has label ≡ false = ap has (sym ((eq_iff t label).0 e)) ∙ h in
      rw (e, neither) refl
  | inr e ↦ rw e refl
]

group_of-labels :
    (automated label : String) (tc : TestCase) (labels : List String)
    (groups : Dict (List TestCase))
    → str_eq label automated ≡ false
    → group_of label (group_labels automated tc labels groups)
      ≡ group_of label groups ++ tagged label tc labels
unfolding group_labels
group_of-labels automated label tc [] groups ne = sym (append-nil (group_of label groups))
group_of-labels automated label tc (l ∷ labels) groups ne = elim (Bool-cases (str_eq l automated)) [
  | inl e ↦
      let other : str_eq l label ≡ false =
        ground (arith, e, ne, eq_iff l automated, eq_iff l label, eq_iff label automated) in
      rw (e, other) (group_of-labels automated label tc labels groups ne)
  | inr e ↦ rw e (
      group_of-labels automated label tc labels (add_to_group l tc groups) ne
      ∙ ap (λ g. g ++ tagged label tc labels) (group_of-add label l tc groups)
      ∙ append_assoc (group_of label groups) (if str_eq l label then tc ∷ [] else [])
          (tagged label tc labels))
]

group_of-all :
    (automated label : String) (tcs : List TestCase) (groups : Dict (List TestCase))
    → str_eq label automated ≡ false
    → group_of label (group_all automated tcs groups)
      ≡ group_of label groups ++ all_tagged label tcs
unfolding group_all
group_of-all automated label [] groups ne = sym (append-nil (group_of label groups))
group_of-all automated label (tc ∷ tcs) groups ne =
    group_of-all automated label tcs (group_labels automated tc tc.labels groups) ne
    ∙ ap (λ g. g ++ all_tagged label tcs) (group_of-labels automated label tc tc.labels groups ne)
    ∙ append_assoc (group_of label groups) (tagged label tc tc.labels) (all_tagged label tcs)

-- The group of a label other than the one for automation has exactly the test cases with the label,
-- in order, once for each time they have it.
pub group-tagged :
    (automated label : String) (tcs : List TestCase)
    → label ≢ automated
    → group_of label (group_test_cases_by_labels automated tcs) ≡ all_tagged label tcs
unfolding group_test_cases_by_labels
group-tagged automated label tcs ne =
    group_of-all automated label tcs [] (elim (Bool-cases (str_eq label automated)) [
      | inl e ↦ absurd (ne ((eq_iff label automated).0 e))
      | inr e ↦ e
    ])
