-- ===== src/LogBuffer/Page.antt =====
-- The pages of the log buffer, against the full list of the entries.
mod Tests
use mathlib.Core.List.{reverse-append}
use qa_ai_native.Prelude.{
  ℕ, zero, suc, ◌+◌, ◌-◌, ◌≤◌, ◌≡◌, refl, sym, ap, ◌∙◌, String, Option, List, [], ◌∷◌, ◌++◌,
  reverse, arith, leb, filter, take, drop, length, Bool-cases, inl, inr, length-reverse,
  length-drop, length-append, take-append-drop, drop-append, drop_of_length-le,
}
use qa_ai_native.Ring.{
  ring_append, ring_append_all, keep_last, reverse-keep_last, ring_append_all-nil,
}
use qa_ai_native.LogBuffer.{LogEntry, noise_filter, emit, page, by_level, get_logs}

module _ {ℓ} {A : Type ℓ} where
  take-nil : (n : ℕ) → take {A = A} n [] ≡ []
  take-nil zero = refl
  take-nil (suc n) = refl

  length-take_of_le : (n : ℕ) (l : List A) → n ≤ length l → length (take n l) ≡ n
  length-take_of_le n l h = omega (
    arith,
    ap length (take-append-drop n l),
    length-append (take n l) (drop n l),
    length-drop n l,
  )

  -- Without its last `k` elements, from the end.
  reverse-take :
      (k : ℕ) (l : List A) → k ≤ length l → reverse (take (length l - k) l) ≡ drop k (reverse l)
  reverse-take k l h =
      let m : ℕ = length l - k in
      let last : List A = reverse (drop m l) in
      let e : length last ≡ k = omega (arith, length-reverse (drop m l), length-drop m l, h) in
      let whole : reverse l ≡ last ++ reverse (take m l) =
        ap reverse (sym (take-append-drop m l)) ∙ reverse-append (take m l) (drop m l) in
      let cut : drop k (last ++ reverse (take m l)) ≡ drop k last ++ reverse (take m l) =
        drop-append k last (reverse (take m l)) (omega (arith, e)) in
      let gone : drop k last ≡ [] = drop_of_length-le k last (omega (arith, e)) in
      sym (ap (drop k) whole ∙ cut ∙ ap (λ r. r ++ reverse (take m l)) gone)

  page-take :
      (limit offset : ℕ) (l : List A) → page limit offset l ≡ take limit (drop offset (reverse l))
  page-take limit offset l = elim (Bool-cases (leb (length l) offset)) [
    | inl past ↦
        let none_left : drop offset (reverse l) ≡ [] =
          drop_of_length-le offset (reverse l) (ground (arith, length-reverse l, past)) in
        rw past (sym (ap (take limit) none_left ∙ take-nil limit))
    | inr before ↦
        let m : ℕ = length l - offset in
        let e : length (take m l) ≡ m = length-take_of_le m l (omega arith) in
        let start : reverse (drop (m - limit) (take m l)) ≡ reverse (keep_last limit (take m l)) =
          ap (λ n. reverse (drop (n - limit) (take m l))) (sym e) in
        let tail_end = reverse-keep_last limit (take m l) in
        let skipped = ap (take limit) (reverse-take offset l (ground (arith, before))) in
        rw before (start ∙ tail_end ∙ skipped)
  ]

abbrev pub emit_all : ℕ → List LogEntry → List LogEntry → List LogEntry
emit_all n [] buffer = buffer
emit_all n (e ∷ es) buffer = emit_all n es (emit n e buffer)

-- The entries whose logger passes the noise filter.
abbrev pub kept : List LogEntry → List LogEntry
kept = filter (λ e. noise_filter e.logger_name)

emit_all-ring :
    (n : ℕ) (es buffer : List LogEntry) → emit_all n es buffer ≡ ring_append_all n (kept es) buffer
unfolding emit
emit_all-ring n [] buffer = refl
emit_all-ring n (e ∷ es) buffer = elim (Bool-cases (noise_filter e.logger_name)) [
  | inl p ↦ rw p (emit_all-ring n es (ring_append n e buffer))
  | inr p ↦ rw p (emit_all-ring n es buffer)
]

module _ (upper : String → String) where
  -- After any records, a page of the log is cut from the list, newest first, of the entries of the
  -- level among the last `max_size` that pass the noise filter: `offset` entries are skipped and at
  -- most `limit` given.
  pub get_logs-emit_all :
      (max_size limit offset : ℕ) (level : Option String) (es : List LogEntry)
      → get_logs upper limit offset level (emit_all max_size es [])
        ≡ take limit (drop offset (reverse (by_level upper level (keep_last max_size (kept es)))))
  unfolding get_logs
  get_logs-emit_all n limit offset level es =
      ap (λ b. page limit offset (by_level upper level b))
        (emit_all-ring n es [] ∙ ring_append_all-nil n (kept es))
      ∙ page-take limit offset (by_level upper level (keep_last n (kept es)))
