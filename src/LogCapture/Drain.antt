-- ===== src/LogCapture/Drain.antt =====
-- What the drains of a log capture give, against the plain list of the lines emitted since the
-- drain before.
mod Tests
use qa_ai_native.Prelude.{
  ℕ, zero, suc, ◌+◌, ◌-◌, ◌≤◌, ◌≡◌, refl, sym, ap, ◌∙◌, String, Bool, true, false, List, [], ◌∷◌,
  ◌++◌, arith, if◌then◌else◌, leb, drop, length, Bool-cases, inl, inr, length-append, length-drop,
  drop-append, drop_of_length-le,
}
use mathlib.Core.List.{append_assoc, append-nil}
use qa_ai_native.Ring.{ring_append, keep_last, ring_append-keep_last}
use qa_ai_native.LogCapture.{LogCapture, new_capture, emit, min, drain}

module _ {ℓ} {A : Type ℓ} where
  drop-drop : (a b : ℕ) (l : List A) → drop a (drop b l) ≡ drop (b + a) l
  drop-drop a zero l = ap (λ n. drop n l) (omega arith)
  drop-drop a (suc b) [] =
      drop_of_length-le a [] (omega arith) ∙ sym (drop_of_length-le (suc b + a) [] (omega arith))
  drop-drop a (suc b) (x ∷ l) =
      drop-drop a b l
      ∙ ap (λ n. drop n (x ∷ l)) (let e : suc (b + a) ≡ suc b + a = omega arith in e)

  drop_prefix : (old new : List A) → drop (length old) (old ++ new) ≡ new
  drop_prefix old new =
      drop-append (length old) old new (omega arith)
      ∙ ap (λ l. l ++ new) (drop_of_length-le (length old) old (omega arith))

  -- The last elements of the buffer, as many as are new, are the last new elements.
  drained :
      (n : ℕ) (old new : List A)
      → let b = keep_last n (old ++ new) in
        drop (length b - min (length new) (length b)) b ≡ keep_last n new
  drained n old new =
      let l : List A = old ++ new in
      let b : List A = keep_last n l in
      let skipped : ℕ = length b - min (length new) (length b) in
      let same : (length l - n) + skipped ≡ length old + (length new - n) =
        ground (arith, length-append old new, length-drop (length l - n) l) in
      drop-drop skipped (length l - n) l
      ∙ ap (λ m. drop m l) same
      ∙ sym (drop-drop (length new - n) (length old) l)
      ∙ ap (drop (length new - n)) (drop_prefix old new)

pub data Call : Type 0 where
  emitting : Bool → String → Call
  draining : Call

-- The lines that the drains among the calls give.
abbrev pub drains : List Call → LogCapture → List (List String)
drains [] c = []
drains (emitting bound line ∷ calls) c = drains calls (emit bound line c)
drains (draining ∷ calls) c = let (c', lines) = drain c in lines ∷ drains calls c'

-- The same from the lines that were captured since the last drain.
abbrev pub expected : ℕ → List Call → List String → List (List String)
expected n [] new = []
expected n (emitting bound line ∷ calls) new =
    expected n calls (if bound then new ++ line ∷ [] else new)
expected n (draining ∷ calls) new = keep_last n new ∷ expected n calls []

-- The buffer holds the last of the old and the new lines, and the counters tell how many are new.
record Tracks (n : ℕ) (old new : List String) (c : LogCapture) : Type 0 where
  size : c.max_records ≡ n
  held : c.buffer ≡ keep_last n (old ++ new)
  counted : c.emitted_total ≡ c.drain_cursor + length new

emit-Tracks :
    (n : ℕ) (line : String) (old new : List String) (c : LogCapture)
    → Tracks n old new c
    → Tracks n old (new ++ line ∷ []) (emit true line c)
unfolding emit
emit-Tracks n line old new c t = record {
  size = t.size;
  held =
      ap (λ m. ring_append m line c.buffer) t.size
      ∙ ap (ring_append n line) t.held
      ∙ ring_append-keep_last n line (old ++ new)
      ∙ ap (keep_last n) (append_assoc old new (line ∷ []));
  counted = omega (arith, t.counted, length-append new (line ∷ []));
}

drain-Tracks :
    (n : ℕ) (old new : List String) (c : LogCapture)
    → Tracks n old new c
    → let (c', lines) = drain c in (lines ≡ keep_last n new) × Tracks n (old ++ new) [] c'
unfolding drain
drain-Tracks n old new c t =
    let same : c.emitted_total - c.drain_cursor ≡ length new = omega (arith, t.counted) in
    elim (Bool-cases (leb (c.emitted_total - c.drain_cursor) 0)) [
      | inl none_new ↦
          rw none_new
            (sym (drop_of_length-le (length new - n) new (ground (arith, same, none_new))), rest)
      | inr some_new ↦ rw some_new (
        ap (λ m. drop (length c.buffer - min m (length c.buffer)) c.buffer) same
            ∙ ap (λ b. drop (length b - min (length new) (length b)) b) t.held
            ∙ drained n old new,
        rest,
      )
    ]
  where
    rest : Tracks n (old ++ new) [] (record c { drain_cursor = c.emitted_total })
    rest = record {
      size = t.size;
      held = t.held ∙ ap (keep_last n) (sym (append-nil (old ++ new)));
      counted = omega arith;
    }

drains-expected :
    (n : ℕ) (calls : List Call) (old new : List String) (c : LogCapture)
    → Tracks n old new c
    → drains calls c ≡ expected n calls new
unfolding emit
drains-expected n [] old new c t = refl
drains-expected n (emitting true line ∷ calls) old new c t =
    drains-expected n calls old (new ++ line ∷ []) (emit true line c)
      (emit-Tracks n line old new c t)
drains-expected n (emitting false line ∷ calls) old new c t = drains-expected n calls old new c t
drains-expected n (draining ∷ calls) old new c t =
    let (same, t') = drain-Tracks n old new c t in
    ap (λ l. l ∷ drains calls (drain c).0) same
    ∙ ap (λ rest. keep_last n new ∷ rest) (drains-expected n calls (old ++ new) [] (drain c).0 t')

-- Whatever is emitted and drained in any order: each drain gives the lines captured since the drain
-- before, in order and each once, or the last `max_records` of them when there are more.
pub drains-capture :
    (max_records : ℕ) (calls : List Call)
    → drains calls (new_capture max_records) ≡ expected max_records calls []
unfolding new_capture
drains-capture n calls =
    drains-expected n calls [] [] (new_capture n)
      (record { size = refl; held = sym (drop_of_length-le _ [] (omega arith)); counted = refl })
