-- ===== src/Hub/Buffer.antt =====
-- One subscriber's buffer: the activity index points at the buffered activity events, one for each
-- task, and putting and getting do what they say on the plain list of the buffered events.
use qa_ai_native.Prelude.{
  ℕ, ◌≤◌, ◌<◌, ◌≡◌, refl, ap, String, Bool, true, false, none, some, List, [], ◌∷◌, ◌++◌, map,
  arith, str_eq, eq_iff, Option-cases, Bool-cases, inl, inr, All, if◌then◌else◌, length, tail, leb,
  ◌==◌, any,
}
use qa_ai_native.Dict.{Dict, lookup}
use qa_ai_native.History.{write_at}
use qa_ai_native.History.Store.{Distinct, listed, lookup_same}
use qa_ai_native.Hub.{Event, gap, activity_key, Heap, Subscriber}

-- The entry of a buffered object in the index, if it is an activity event.
abbrev pub IsIndexed : Heap → Dict ℕ → ℕ → Type 0
IsIndexed hp index a = (t : String) → activity_key (hp.cells a) ≡ some t → lookup t index ≡ some a

pub record IsValid (maxsize : ℕ) (hp : Heap) (s : Subscriber) : Type 0 where
  pub roomy : 0 < maxsize
  pub bounded : length s.items ≤ maxsize
  pub fresh : All (λ a. a < hp.next) s.items
  pub distinct : Distinct s.items
  pub indexed : All (IsIndexed hp s.activity_index) s.items
  pub sound :
      (t : String) (a : ℕ)
      → lookup t s.activity_index ≡ some a
      → (activity_key (hp.cells a) ≡ some t) × (listed a s.items ≡ true)

-- The buffered events, oldest first.
abbrev pub view : Heap → Subscriber → List Event
view hp s = map hp.cells s.items

abbrev pub has_key : String → Event → Bool
has_key t e = elim (activity_key e) [ none ↦ false | some u ↦ str_eq u t ]

-- What `put` does to the plain list of events.
abbrev pub append_list : ℕ → Event → ℕ → List Event → List Event
append_list maxsize e seq l =
    if leb maxsize (length l) then tail l ++ gap "queue_overflow" seq seq ∷ [] else l ++ e ∷ []

abbrev pub replace_key : String → Event → List Event → List Event
replace_key t e = map (λ x. if has_key t x then e else x)

abbrev pub put_list : ℕ → Event → ℕ → List Event → List Event
put_list maxsize e seq l = elim (activity_key e) [
  | none ↦ append_list maxsize e seq l
  | some t ↦ if any (has_key t) l then replace_key t e l else append_list maxsize e seq l
]

-- A write to the object of one task shows as a replacement by that task.
pub map-replace :
    (hp : Heap) (index : Dict ℕ) (t : String) (x : ℕ) (e : Event) (l : List ℕ)
    → lookup t index ≡ some x
    → activity_key (hp.cells x) ≡ some t
    → All (IsIndexed hp index) l
    → map (write_at x e hp.cells) l ≡ replace_key t e (map hp.cells l)
map-replace hp index t x e [] h k i = refl
map-replace hp index t x e (b ∷ l) h k (ib, il) = elim (Option-cases (activity_key (hp.cells b))) [
  | inl kb ↦ ground (
    arith,
    kb,
    k,
    λ (p : b ≡ x). ap (λ c. activity_key (hp.cells c)) p,
    map-replace hp index t x e l h k il,
  )
  | inr (u, kb) ↦ ground (
    arith,
    kb,
    k,
    ib u kb,
    eq_iff u t,
    lookup_same u t index,
    λ (p : b ≡ x). ap (λ c. activity_key (hp.cells c)) p,
    map-replace hp index t x e l h k il,
  )
]

pub any-listed :
    (hp : Heap) (t : String) (x : ℕ) (l : List ℕ)
    → activity_key (hp.cells x) ≡ some t
    → listed x l ≡ true
    → any (has_key t) (map hp.cells l) ≡ true
any-listed hp t x [] k m = absurd (ground arith)
any-listed hp t x (b ∷ l) k m = elim (Bool-cases (b == x)) [
  | inl same ↦
      let p : b ≡ x = ground arith in
      ground (arith, ap hp.cells p, ap (λ c. activity_key (hp.cells c)) p, k, eq_iff t t)
  | inr other ↦ ground (arith, any-listed hp t x l k)
]

pub any-absent :
    (hp : Heap) (index : Dict ℕ) (t : String) (l : List ℕ)
    → lookup t index ≡ none
    → All (IsIndexed hp index) l
    → any (has_key t) (map hp.cells l) ≡ false
any-absent hp index t [] h i = refl
any-absent hp index t (b ∷ l) h (ib, il) = elim (Option-cases (activity_key (hp.cells b))) [
  | inl kb ↦ ground (arith, kb, any-absent hp index t l h il)
  | inr (u, kb) ↦ ground (arith, kb, ib u kb, any-absent hp index t l h il, lookup_same u t index)
]
