-- ===== src/Generation/Merging.antt =====
-- The merging of short sections into the section before.
use text.Mathlib.TextLemmas.{append_assoc, length-append}
use qa_ai_native.Prelude.{
  ℕ, ◌≤◌, ◌≡◌, refl, sym, ap, ◌∙◌, ltb, inl, inr, Bool-cases, String, str_append, List, [], ◌∷◌,
  All, arith, tail,
}
use qa_ai_native.Generation.Sections.{
  Section, char_count, as_part, merge_into, merge_short_sections,
}

-- The text of the sections after the first, each with its title in front.
abbrev pub parts_text : List Section → String
parts_text [] = ""
parts_text (s ∷ rest) = str_append (as_part s) (parts_text rest)

-- The text of a document: the content of its first section, and the others with their titles.
abbrev pub document_text : List Section → String
document_text [] = ""
document_text (s ∷ rest) = str_append s.content (parts_text rest)

abbrev pub IsLong : ℕ → Section → Type 0
IsLong min_chars s = min_chars ≤ char_count s

append-four :
    (p t n content more : String)
    → str_append (str_append p (str_append t (str_append n content))) more
      ≡ str_append p (str_append t (str_append n (str_append content more)))
append-four p t n content more =
    append_assoc p (str_append t (str_append n content)) more
    ∙ ap (str_append p) (
        append_assoc t (str_append n content) more
        ∙ ap (str_append t) (append_assoc n content more))

as_part-append :
    (title content more rest : String)
    → str_append
        (str_append "\n\n### " (str_append title (str_append "\n" (str_append content more))))
        rest
      ≡ str_append
          (str_append "\n\n### " (str_append title (str_append "\n" content)))
          (str_append more rest)
as_part-append title content more rest =
    let part : String = str_append "\n\n### " (str_append title (str_append "\n" content)) in
    ap (λ s. str_append s rest) (sym (append-four "\n\n### " title "\n" content more))
    ∙ append_assoc part more rest

merge_into-parts :
    (min_chars : ℕ) (prev : Section) (rest : List Section)
    → parts_text (merge_into min_chars prev rest) ≡ str_append (as_part prev) (parts_text rest)
unfolding merge_into
merge_into-parts min_chars prev [] = refl
merge_into-parts min_chars prev (s ∷ rest) = elim (Bool-cases (ltb (char_count s) min_chars)) [
  | inl short ↦ rw short (
      merge_into-parts min_chars (record prev { content = str_append prev.content (as_part s) })
        rest
      ∙ as_part-append prev.title prev.content (as_part s) (parts_text rest))
  | inr long ↦ rw long (ap (str_append (as_part prev)) (merge_into-parts min_chars s rest))
]

merge_into-text :
    (min_chars : ℕ) (prev : Section) (rest : List Section)
    → document_text (merge_into min_chars prev rest) ≡ str_append prev.content (parts_text rest)
unfolding merge_into
merge_into-text min_chars prev [] = refl
merge_into-text min_chars prev (s ∷ rest) = elim (Bool-cases (ltb (char_count s) min_chars)) [
  | inl short ↦ rw short (
      merge_into-text min_chars (record prev { content = str_append prev.content (as_part s) }) rest
      ∙ append_assoc prev.content (as_part s) (parts_text rest))
  | inr long ↦ rw long (ap (str_append prev.content) (merge_into-parts min_chars s rest))
]

absorb-IsLong :
    (min_chars : ℕ) (prev s : Section)
    → IsLong min_chars prev
    → IsLong min_chars (record prev { content = str_append prev.content (as_part s) })
unfolding char_count
absorb-IsLong min_chars prev s h = omega (arith, h, length-append prev.content (as_part s))

merge_into-IsLong :
    (min_chars : ℕ) (prev : Section) (rest : List Section)
    → All (IsLong min_chars) (tail (merge_into min_chars prev rest))
      × (IsLong min_chars prev → All (IsLong min_chars) (merge_into min_chars prev rest))
unfolding merge_into
merge_into-IsLong min_chars prev [] = (tt, λ h. (h, tt))
merge_into-IsLong min_chars prev (s ∷ rest) = elim (Bool-cases (ltb (char_count s) min_chars)) [
  | inl short ↦ rw short (
      let absorbed : Section = record prev { content = str_append prev.content (as_part s) } in
      let (others, all) = merge_into-IsLong min_chars absorbed rest in
      (others, λ h. all (absorb-IsLong min_chars prev s h)))
  | inr long ↦ rw long (
      let (others, all) = merge_into-IsLong min_chars s rest in
      let long_all : All (IsLong min_chars) (merge_into min_chars s rest) =
        all (ground (arith, long)) in
      (long_all, λ h. (h, long_all)))
]

-- Merging the short sections keeps the text of the document, titles included, and leaves no short
-- section but the first.
pub merge_short_sections-keeps :
    (min_chars : ℕ) (sections : List Section)
    → (document_text (merge_short_sections min_chars sections) ≡ document_text sections)
      × All (IsLong min_chars) (tail (merge_short_sections min_chars sections))
unfolding merge_short_sections
merge_short_sections-keeps min_chars [] = (refl, tt)
merge_short_sections-keeps min_chars (s ∷ rest) =
    (merge_into-text min_chars s rest, (merge_into-IsLong min_chars s rest).0)
