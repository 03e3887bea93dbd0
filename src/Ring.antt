-- ===== src/Ring.antt =====
-- A bounded buffer: `collections.deque(maxlen=n)` with `append`, which drops from the left what does
-- not fit. The oldest element comes first.
use qa_ai_native.Prelude.{
  take, length-reverse, take-append, take-append-drop, take_of_length-le, ℕ, zero, suc, ◌+◌, ◌-◌,
  ◌≤◌, ◌<◌, ◌≡◌, refl, sym, ap, ◌∙◌, List, [], ◌∷◌, ◌++◌, arith, length, drop, tail, length-append,
  length-drop, drop-append,
}
use qa_ai_native.Prelude.Int.{ℤ, pos, negsuc}
use mathlib.Core.List.{append_assoc, append-nil, reverse, reverse-append}
use native.Mathlib.Decide.{dec_le}

module _ {ℓ} {A : Type ℓ} where
  -- The last `n` elements.
  abbrev pub keep_last : ℕ → List A → List A
  keep_last n l = drop (length l - n) l

  -- `d.append(x)`
  unfoldable pub ring_append : ℕ → A → List A → List A
  ring_append n x l = keep_last n (l ++ x ∷ [])

  abbrev pub ring_append_all : ℕ → List A → List A → List A
  ring_append_all n [] l = l
  ring_append_all n (x ∷ xs) l = ring_append_all n xs (ring_append n x l)

  pub length-keep_last-le : (n : ℕ) (l : List A) → length (keep_last n l) ≤ n
  length-keep_last-le n l = omega (arith, length-drop (length l - n) l)

  pub length-ring_append-le : (n : ℕ) (x : A) (l : List A) → length (ring_append n x l) ≤ n
  unfolding ring_append
  length-ring_append-le n x l = length-keep_last-le n (l ++ x ∷ [])

  pub ring_append_room :
      (n : ℕ) (x : A) (l : List A) → length l < n → ring_append n x l ≡ l ++ x ∷ []
  unfolding ring_append
  ring_append_room n x l h =
      let e : length (l ++ x ∷ []) - n ≡ 0 = omega (arith, length-append l (x ∷ [])) in
      ap (λ k. drop k (l ++ x ∷ [])) e

  pub ring_append_full :
      (n : ℕ) (x : A) (l : List A) → 0 < n → length l ≡ n → ring_append n x l ≡ tail l ++ x ∷ []
  unfolding ring_append
  ring_append_full n x [] p h = absurd (omega arith)
  ring_append_full n x (y ∷ l) p h =
      let e : length ((y ∷ l) ++ x ∷ []) - n ≡ 1 = omega (arith, length-append l (x ∷ [])) in
      ap (λ k. drop k ((y ∷ l) ++ x ∷ [])) e

  drop-nil : (n : ℕ) → drop {A = A} n [] ≡ []
  drop-nil zero = refl
  drop-nil (suc n) = refl

  drop-drop : (m n : ℕ) (l : List A) → drop m (drop n l) ≡ drop (n + m) l
  drop-drop m zero l = ap (λ k. drop k l) (omega arith)
  drop-drop m (suc n) [] = drop-nil m ∙ sym (drop-nil (suc n + m))
  drop-drop m (suc n) (x ∷ l) =
      let e : suc n + m ≡ suc (n + m) = omega arith in
      drop-drop m n l ∙ sym (ap (λ k. drop k (x ∷ l)) e)

  -- Appending to the last `n` of a list keeps the last `n` of the longer list.
  pub ring_append-keep_last :
      (n : ℕ) (x : A) (l : List A) → ring_append n x (keep_last n l) ≡ keep_last n (l ++ x ∷ [])
  unfolding ring_append
  ring_append-keep_last n x l =
      let k : ℕ = length l - n in
      let j : ℕ = length (drop k l ++ x ∷ []) - n in
      let e : k + j ≡ length (l ++ x ∷ []) - n =
        omega
          (arith, length-append (drop k l) (x ∷ []), length-append l (x ∷ []), length-drop k l) in
      ap (drop j) (sym (drop-append k l (x ∷ []) (omega arith)))
      ∙ drop-drop j k (l ++ x ∷ [])
      ∙ ap (λ i. drop i (l ++ x ∷ [])) e

  -- After any number of appends to an empty buffer it holds the last `n` elements, in order.
  pub ring_append_all-keep_last :
      (n : ℕ) (xs l : List A) → ring_append_all n xs (keep_last n l) ≡ keep_last n (l ++ xs)
  ring_append_all-keep_last n [] l = ap (keep_last n) (sym (append-nil l))
  ring_append_all-keep_last n (x ∷ xs) l =
      ap (ring_append_all n xs) (ring_append-keep_last n x l)
      ∙ ring_append_all-keep_last n xs (l ++ x ∷ [])
      ∙ ap (keep_last n) (append_assoc l (x ∷ []) xs)

  pub ring_append_all-nil : (n : ℕ) (xs : List A) → ring_append_all n xs [] ≡ keep_last n xs
  ring_append_all-nil n xs =
      ap (ring_append_all n xs) (sym (drop-nil (length {A = A} [] - n)))
      ∙ ring_append_all-keep_last n xs []

  -- Python's `l[k:]` for an index of either sign.
  abbrev pub slice_from : ℤ → List A → List A
  slice_from (pos k) l = drop k l
  slice_from (negsuc k) l = keep_last (suc k) l

  -- The last elements of a list, reversed, are the first of its reverse.
  pub reverse-keep_last : (n : ℕ) (l : List A) → reverse (keep_last n l) ≡ take n (reverse l)
  reverse-keep_last n l = elim (dec_le n (length l)) [
    | yes le ↦
        let k : ℕ = length l - n in
        let e : length (reverse (drop k l)) ≡ n =
          length-reverse (drop k l) ∙ omega (arith, length-drop k l) in
        sym (take_of_length-le n (reverse (drop k l)) (omega (arith, e)))
        ∙ sym (take-append n (reverse (drop k l)) (reverse (take k l)) (omega (arith, e)))
        ∙ ap (take n)
            (sym (reverse-append (take k l) (drop k l)) ∙ ap reverse (take-append-drop k l))
    | no gt ↦
        ap reverse (ap (λ k. drop k l) (let e : length l - n ≡ 0 = omega arith in e))
        ∙ sym (take_of_length-le n (reverse l) (omega (arith, length-reverse l)))
  ]
