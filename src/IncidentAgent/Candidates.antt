-- ===== src/IncidentAgent/Candidates.antt =====
-- The candidates for duplicates that the model sees.
use qa_ai_native.Prelude.{
  ◌≡◌, refl, Bool, true, false, Bool-cases, inl, inr, String, List, [], ◌∷◌, find, str_eq, arith,
  eq_iff,
}
use qa_ai_native.Dict.{elem}
use qa_ai_native.IncidentAgent.{DuplicateCandidate, unique_from, unique_candidates}

abbrev pub has_key : String → DuplicateCandidate → Bool
has_key k c = str_eq c.key k

abbrev pub keys_of : List DuplicateCandidate → List String
keys_of [] = []
keys_of (c ∷ cs) = c.key ∷ keys_of cs

abbrev pub HasUniqueKeys : List DuplicateCandidate → Type 0
HasUniqueKeys [] = Unit
HasUniqueKeys (c ∷ cs) = (elem c.key (keys_of cs) ≡ false) × HasUniqueKeys cs

unique_from-elem :
    (seen : List String) (k : String) (cs : List DuplicateCandidate)
    → elem k seen ≡ true
    → elem k (keys_of (unique_from seen cs)) ≡ false
unfolding unique_from
unique_from-elem seen k [] h = refl
unique_from-elem seen k (c ∷ cs) h =
    ground
      (arith, h, eq_iff c.key k, unique_from-elem seen k cs, unique_from-elem (c.key ∷ seen) k cs)

unique_from-find :
    (seen : List String) (k : String) (cs : List DuplicateCandidate)
    → elem k seen ≡ false
    → find (has_key k) (unique_from seen cs) ≡ find (has_key k) cs
unfolding unique_from
unique_from-find seen k [] h = refl
unique_from-find seen k (c ∷ cs) h =
    ground
      (arith, h, eq_iff c.key k, unique_from-find seen k cs, unique_from-find (c.key ∷ seen) k cs)

unique_from-HasUniqueKeys :
    (seen : List String) (cs : List DuplicateCandidate) → HasUniqueKeys (unique_from seen cs)
unfolding unique_from
unique_from-HasUniqueKeys seen [] = tt
unique_from-HasUniqueKeys seen (c ∷ cs) = elim (Bool-cases (elem c.key seen)) [
  | inl old ↦ rw old (unique_from-HasUniqueKeys seen cs)
  | inr new ↦ rw new (
    unique_from-elem (c.key ∷ seen) c.key cs (ground (arith, eq_iff c.key c.key)),
    unique_from-HasUniqueKeys (c.key ∷ seen) cs,
  )
]

-- The candidates that the model is asked about have no key twice, and for every key the first
-- candidate with it is the first one with it among all candidates; so no issue is left out.
pub unique_candidates-first :
    (k : String) (cs : List DuplicateCandidate)
    → HasUniqueKeys (unique_candidates cs)
      × (find (has_key k) (unique_candidates cs) ≡ find (has_key k) cs)
unfolding unique_candidates
unique_candidates-first k cs = (unique_from-HasUniqueKeys [] cs, unique_from-find [] k cs refl)
