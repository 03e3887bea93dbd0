-- ===== src/Hub/Index.antt =====
-- The activity index of a subscriber's buffer when an object enters, leaves or is rewritten.
use qa_ai_native.Prelude.{
  ℕ, ◌≡◌, ◌≢◌, sym, ap, ◌∙◌, String, true, false, none, some, List, ◌∷◌, arith, eq_iff,
  Option-cases, Bool-cases, inl, inr, All, if◌then◌else◌, ◌==◌,
}
use qa_ai_native.Dict.{Dict, lookup, lookup-insert, lookup-erase}
use qa_ai_native.History.{write_at}
use qa_ai_native.History.Store.{Distinct, listed, All-map₂}
use qa_ai_native.Hub.{Event, activity_key, Heap, Subscriber, discard_from_index, enter_index}
use qa_ai_native.Hub.Buffer.{IsIndexed, IsValid, has_key}

pub has_key_sound : (t : String) (e : Event) → has_key t e ≡ true → activity_key e ≡ some t
has_key_sound t e h = elim (Option-cases (activity_key e)) [
  | inl k ↦ absurd (ground (arith, k, h))
  | inr (u, k) ↦ k ∙ ap some ((eq_iff u t).0 (ground (arith, k, h)))
]

pub lookup-discard :
    (hp : Heap) (d : ℕ) (index : Dict ℕ) (t : String)
    → IsIndexed hp index d
    → lookup t (discard_from_index hp d index)
      ≡ (if has_key t (hp.cells d) then none else lookup t index)
unfolding discard_from_index
lookup-discard hp d index t i = elim (Option-cases (activity_key (hp.cells d))) [
  | inl e ↦ ground (arith, e)
  | inr (u, e) ↦ ground (arith, e, i u e, lookup-erase u t index)
]

pub lookup-enter :
    (hp : Heap) (a : ℕ) (index : Dict ℕ) (t : String)
    → lookup t (enter_index hp a index)
      ≡ (if has_key t (hp.cells a) then some a else lookup t index)
unfolding enter_index
lookup-enter hp a index t = elim (Option-cases (activity_key (hp.cells a))) [
  | inl e ↦ ground (arith, e)
  | inr (u, e) ↦ ground (arith, e, lookup-insert u t a index)
]

-- What is left when the oldest object leaves the buffer.
pub record Popped (hp : Heap) (d : ℕ) (rest : List ℕ) (index : Dict ℕ) : Type 0 where
  pub indexed : All (IsIndexed hp index) rest
  pub sound :
      (t : String) (a : ℕ)
      → lookup t index ≡ some a
      → (activity_key (hp.cells a) ≡ some t) × (listed a rest ≡ true)

pub still-IsIndexed :
    (hp : Heap) (d : ℕ) (index : Dict ℕ) (b : ℕ)
    → IsIndexed hp index d
    → d ≢ b
    → IsIndexed hp index b
    → IsIndexed hp (discard_from_index hp d index) b
still-IsIndexed hp d index b id ne ib t kb = elim (Bool-cases (has_key t (hp.cells d))) [
  | inl own ↦ absurd (ne (ground (arith, id t (has_key_sound t (hp.cells d) own), ib t kb)))
  | inr other ↦ lookup-discard hp d index t id ∙ ground (arith, other, ib t kb)
]

pub popped :
    (hp : Heap) (maxsize d : ℕ) (rest : List ℕ) (s : Subscriber)
    → IsValid maxsize hp s
    → s.items ≡ d ∷ rest
    → Popped hp d rest (discard_from_index hp d s.activity_index)
popped hp maxsize d rest s v e =
    let indexed : All (IsIndexed hp s.activity_index) (d ∷ rest) = rw e at v.indexed in
    let distinct : Distinct (d ∷ rest) = rw e at v.distinct in
    record {
      indexed =
          All-map₂ _ _ _ rest (λ b ne. still-IsIndexed hp d s.activity_index b indexed.0 ne)
            distinct.0 indexed.1;
      sound = λ t a q.
          let found = lookup-discard hp d s.activity_index t indexed.0 in
          let old : lookup t s.activity_index ≡ some a = ground (arith, q, found) in
          let other : has_key t (hp.cells d) ≡ false = ground (arith, q, found) in
          let (key, place) = v.sound t a old in
          let place' : listed a (d ∷ rest) ≡ true = rw e at place in
          let apart : d ≢ a = λ same.
            ground (arith, ap (λ c. activity_key (hp.cells c)) same, key, other, eq_iff t t) in
          (key, ground (arith, place', apart));
    }

-- A write that keeps the activity key of its cell keeps every cell's.
pub key-write_at :
    (x : ℕ) (e : Event) (cells : ℕ → Event) (b : ℕ)
    → activity_key e ≡ activity_key (cells x)
    → activity_key (write_at x e cells b) ≡ activity_key (cells b)
key-write_at x e cells b same = elim (Bool-cases (b == x)) [
  | inl here ↦
      let p : b ≡ x = ground arith in
      ap activity_key (let w : write_at x e cells b ≡ e = ground (arith, here) in w)
      ∙ same
      ∙ ap (λ c. activity_key (cells c)) (sym p)
  | inr there ↦
      ap activity_key (let w : write_at x e cells b ≡ cells b = ground (arith, there) in w)
]
