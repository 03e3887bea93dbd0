-- ===== src/Dict.antt =====
-- A Python dict keyed by texts, as an association list in insertion order: a write to a present key
-- keeps its place, a new key goes to the end, and a deletion drops the key.
use qa_ai_native.Prelude.{
  String, ◌≡◌, refl, Bool, true, false, not, Option, none, some, List, [], ◌∷◌, arith, str_eq,
  eq_iff, filter, inl, inr, Bool-cases, ap, if◌then◌else◌, is_some,
}

abbrev pub Dict {ℓ} : Type ℓ → Type ℓ
Dict V = List (String × V)

-- The truth value of an optional text: `None` and `""` are false.
abbrev pub truthy : Option String → Bool
truthy none = false
truthy (some s) = not (str_eq s "")

-- `k in l`, for a list of texts.
abbrev pub elem : String → List String → Bool
elem k [] = false
elem k (j ∷ l) = if str_eq j k then true else elem k l

module _ {ℓ} {V : Type ℓ} where
  -- `d.get(k)`
  abbrev pub lookup : String → Dict V → Option V
  lookup k [] = none
  lookup k ((j, v) ∷ d) = if str_eq j k then some v else lookup k d

  -- `k in d`
  abbrev pub contains : String → Dict V → Bool
  contains k d = is_some (lookup k d)

  -- `d[k] = v`
  unfoldable pub insert : String → V → Dict V → Dict V
  insert k v [] = (k, v) ∷ []
  insert k v ((j, w) ∷ d) = if str_eq j k then (j, v) ∷ d else (j, w) ∷ insert k v d

  -- `d.pop(k, None)`
  unfoldable pub erase : String → Dict V → Dict V
  erase k [] = []
  erase k ((j, w) ∷ d) = if str_eq j k then erase k d else (j, w) ∷ erase k d

  -- No key stands twice.
  abbrev pub UniqueKeys : Dict V → Type ℓ
  UniqueKeys [] = Unit
  UniqueKeys ((k, v) ∷ d) = (lookup k d ≡ none) × UniqueKeys d

  abbrev pub keys : Dict V → List String
  keys [] = []
  keys ((k, v) ∷ d) = k ∷ keys d

  pub lookup-insert :
      (k j : String) (v : V) (d : Dict V)
      → lookup j (insert k v d) ≡ (if str_eq k j then some v else lookup j d)
  unfolding insert
  lookup-insert k j v [] = refl
  lookup-insert k j v ((i, w) ∷ d) =
      ground (arith, eq_iff k j, eq_iff i k, eq_iff i j, lookup-insert k j v d)

  pub lookup-erase :
      (k j : String) (d : Dict V) → lookup j (erase k d) ≡ (if str_eq k j then none else lookup j d)
  unfolding erase
  lookup-erase k j [] = ground arith
  lookup-erase k j ((i, w) ∷ d) =
      ground (arith, eq_iff k j, eq_iff i k, eq_iff i j, lookup-erase k j d)

  pub insert-UniqueKeys :
      (k : String) (v : V) (d : Dict V) → UniqueKeys d → UniqueKeys (insert k v d)
  unfolding insert
  insert-UniqueKeys k v [] u = (refl, tt)
  insert-UniqueKeys k v ((i, w) ∷ d) u =
      ground (arith, eq_iff i k, eq_iff k i, lookup-insert k i v d, insert-UniqueKeys k v d)

  pub erase-UniqueKeys : (k : String) (d : Dict V) → UniqueKeys d → UniqueKeys (erase k d)
  unfolding erase
  erase-UniqueKeys k [] u = tt
  erase-UniqueKeys k ((i, w) ∷ d) u = ground (arith, lookup-erase k i d, erase-UniqueKeys k d)

  -- No entry of `d` that passes a test has an Absent key.
  elem-keys-filter_absent :
      (k : String) (p : String × V → Bool) (d : Dict V)
      → lookup k d ≡ none
      → elem k (keys (filter p d)) ≡ false
  elem-keys-filter_absent k p [] h = refl
  elem-keys-filter_absent k p ((i, w) ∷ d) h =
      ground (arith, eq_iff i k, elem-keys-filter_absent k p d)

  -- Whether a key is among those whose entries pass a test is read off its own entry.
  pub elem-keys-filter :
      (k : String) (p : String × V → Bool) (d : Dict V)
      → UniqueKeys d
      → elem k (keys (filter p d)) ≡ elim (lookup k d) [ none ↦ false | some v ↦ p (k, v) ]
  elem-keys-filter k p [] u = refl
  elem-keys-filter k p ((i, w) ∷ d) u = elim (Bool-cases (str_eq i k)) [
    | inl here ↦
        let e : i ≡ k = (eq_iff i k).0 here in
        ground (
          arith,
          here,
          e,
          elem-keys-filter_absent k p d,
          u.0,
          ap (λ j. p (j, w)) e,
          ap (λ j. lookup j d) e,
          eq_iff k k,
        )
    | inr there ↦ ground (arith, elem-keys-filter k p d u.1)
  ]

  lookup-filter_absent :
      (k : String) (p : String × V → Bool) (d : Dict V)
      → lookup k d ≡ none
      → lookup k (filter p d) ≡ none
  lookup-filter_absent k p [] h = refl
  lookup-filter_absent k p ((i, w) ∷ d) h = ground (arith, lookup-filter_absent k p d)

  -- The entry of a key in what a test keeps.
  pub lookup-filter :
      (k : String) (p : String × V → Bool) (d : Dict V)
      → UniqueKeys d
      → lookup k (filter p d)
        ≡ elim (lookup k d) [ none ↦ none | some v ↦ if p (k, v) then some v else none ]
  lookup-filter k p [] u = refl
  lookup-filter k p ((i, w) ∷ d) u = elim (Bool-cases (str_eq i k)) [
    | inl here ↦
        let e : i ≡ k = (eq_iff i k).0 here in
        ground (
          arith,
          here,
          e,
          lookup-filter_absent k p d,
          u.0,
          ap (λ j. p (j, w)) e,
          ap (λ j. lookup j d) e,
          eq_iff k k,
        )
    | inr there ↦ ground (arith, lookup-filter k p d u.1)
  ]

  pub filter-UniqueKeys :
      (p : String × V → Bool) (d : Dict V) → UniqueKeys d → UniqueKeys (filter p d)
  filter-UniqueKeys p [] u = tt
  filter-UniqueKeys p ((i, w) ∷ d) u =
      ground (arith, lookup-filter_absent i p d u.0, filter-UniqueKeys p d u.1)
