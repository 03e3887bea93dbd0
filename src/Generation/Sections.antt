-- ===== src/Generation/Sections.antt =====
-- The chunks of a functional requirement document (agents/test_case_generation/main.py): `_Section`
-- and the functions on it. What the regular expressions find is an input.
use Prim.Native.Char.{Char, code}
use Prim.Native.String.{String, [], ◌∷◌, count}
use qa_ai_native.Prelude.{
  ℕ, zero, suc, ◌+◌, ◌-◌, Bool, true, false, ◌&&◌, ◌||◌, ◌==◌, leb, ltb, List, ◌++◌, Option, none,
  some, if◌then◌else◌, any, str_append,
}

pub record Section : Type 0 where
  pub section_id : String
  pub title : String
  pub content : String

-- A match of `_NUMBERED_TITLE_RE`: where it lies, and its two groups.
pub record Match : Type 0 where
  pub start : ℕ
  pub stop : ℕ
  pub number : String
  pub heading : String

-- What the module `re` computes: `_SECTION_NUMBER_RE.findall`, counted; `_HTML_HEADING_RE.split`;
-- `_HTML_TAG_RE.sub` with a space; the number that a title begins with; `_NUMBERED_TITLE_RE.finditer`.
pub record Patterns : Type 0 where
  pub section_numbers : String → ℕ
  pub split_headings : String → List String
  pub replace_tags : String → String
  pub leading_number : String → Option String
  pub numbered_titles : String → List Match

pub data PrdType : Type 0 where
  ac_list functional narrative : PrdType

pub record AcceptanceCriteriaItem : Type 0 where
  pub id : String
  pub text : String
  pub attachment_info : String
  pub source_type : String

unfoldable pub char_count : Section → ℕ
char_count s = count s.content

abbrev pub begins : String → String → Bool
begins [] t = true
begins (c ∷ s) [] = false
begins (c ∷ s) (d ∷ t) = (code c == code d) && begins s t

-- `signal in text`
unfoldable pub occurs : String → String → Bool
occurs s [] = begins s []
occurs s (d ∷ t) = begins s (d ∷ t) || occurs s t

abbrev pub ac_signals : List String
ac_signals =
    List.◌∷◌ "验收标准" (List.◌∷◌ "Acceptance Criteria" (List.◌∷◌ "acceptance criteria" List.[]))

unfoldable pub classify_prd : Patterns → ℕ → String → PrdType
unfolding occurs
classify_prd p threshold content =
    if any (λ signal. occurs signal content) ac_signals
    then ac_list
    else if leb threshold (p.section_numbers content)
    then functional
    else narrative

-- The white space of `str.strip`.
abbrev pub is_space : Char → Bool
is_space c =
    (leb 9 (code c) && leb (code c) 13)
    || (leb 28 (code c) && leb (code c) 32)
    || (code c == 133)
    || (code c == 160)
    || (code c == 5760)
    || (leb 8192 (code c) && leb (code c) 8202)
    || (code c == 8232)
    || (code c == 8233)
    || (code c == 8239)
    || (code c == 8287)
    || (code c == 12288)

abbrev pub is_empty : String → Bool
is_empty [] = true
is_empty (c ∷ s) = false

abbrev pub lstrip : String → String
lstrip [] = []
lstrip (c ∷ s) = let rest = lstrip s in if is_space c then rest else c ∷ s

abbrev pub rstrip : String → String
rstrip [] = []
rstrip (c ∷ s) = let rest = rstrip s in if is_space c && is_empty rest then [] else c ∷ rest

unfoldable pub strip : String → String
strip s = rstrip (lstrip s)

abbrev pub text_take : ℕ → String → String
text_take zero s = []
text_take (suc n) [] = []
text_take (suc n) (c ∷ s) = c ∷ text_take n s

abbrev pub text_drop : ℕ → String → String
text_drop zero s = s
text_drop (suc n) [] = []
text_drop (suc n) (c ∷ s) = text_drop n s

-- `text[start:stop]`
unfoldable pub text_slice : ℕ → ℕ → String → String
text_slice start stop s = text_take (stop - start) (text_drop start s)

unfoldable pub strip_html : Patterns → String → String
unfolding strip
strip_html p text = strip (p.replace_tags text)

-- The loop over the titles and bodies, from `n` sections on.
unfoldable pub sections_of_parts : Patterns → (ℕ → String) → ℕ → List String → List Section
unfolding strip_html
sections_of_parts p show n List.[] = List.[]
sections_of_parts p show n (List.◌∷◌ raw List.[]) = List.[]
sections_of_parts p show n (List.◌∷◌ raw (List.◌∷◌ body rest)) =
    let raw_title = strip_html p raw in
    List.◌∷◌
      (record {
        section_id = elim (p.leading_number raw_title) [
          | none ↦ str_append "sec-" (show (n + 1))
          | some number ↦ number
        ];
        title = raw_title;
        content = strip_html p body;
      })
      (sections_of_parts p show (n + 1) rest)

-- What stands before the first heading is left out.
unfoldable pub parse_sections_from_html : Patterns → (ℕ → String) → String → List Section
unfolding sections_of_parts
parse_sections_from_html p show html = elim (p.split_headings html) [
  | List.[] ↦ List.[]
  | List.◌∷◌ before parts ↦ sections_of_parts p show 0 parts
]

-- Where the section of a match ends: at the next match, or with the text.
abbrev pub end_of : String → List Match → ℕ
end_of text List.[] = count text
end_of text (List.◌∷◌ m ms) = m.start

unfoldable pub sections_of_matches : String → List Match → List Section
unfolding strip text_slice
sections_of_matches text List.[] = List.[]
sections_of_matches text (List.◌∷◌ m ms) =
    List.◌∷◌
      (record {
        section_id = m.number;
        title = strip m.heading;
        content = strip (text_slice m.stop (end_of text ms) text);
      })
      (sections_of_matches text ms)

unfoldable pub parse_sections_from_text : Patterns → String → List Section
unfolding sections_of_matches
parse_sections_from_text p text = sections_of_matches text (p.numbered_titles text)

-- The text that a merged section adds to the one before.
abbrev pub as_part : Section → String
as_part s = str_append "\n\n### " (str_append s.title (str_append "\n" s.content))

-- The loop of the merge, with the last merged section.
unfoldable pub merge_into : ℕ → Section → List Section → List Section
unfolding char_count
merge_into min_chars prev List.[] = List.◌∷◌ prev List.[]
merge_into min_chars prev (List.◌∷◌ s rest) =
    if ltb (char_count s) min_chars
    then merge_into min_chars (record prev { content = str_append prev.content (as_part s) }) rest
    else List.◌∷◌ prev (merge_into min_chars s rest)

unfoldable pub merge_short_sections : ℕ → List Section → List Section
unfolding merge_into
merge_short_sections min_chars List.[] = List.[]
merge_short_sections min_chars (List.◌∷◌ s rest) = merge_into min_chars s rest

-- The chunks of a section that is too long and has sub-headings.
abbrev pub preamble_of : Section → Match → List Section
preamble_of s m =
    let preamble = strip (text_slice 0 m.start s.content) in
    if is_empty preamble then List.[] else List.◌∷◌ (record s { content = preamble }) List.[]

abbrev pub split_section : Patterns → ℕ → Section → List Section
split_section p max_chars s =
    if leb (char_count s) max_chars
    then List.◌∷◌ s List.[]
    else elim (p.numbered_titles s.content) [
      | List.[] ↦ List.◌∷◌ s List.[]
      | List.◌∷◌ m ms ↦ preamble_of s m ++ sections_of_matches s.content (List.◌∷◌ m ms)
    ]

unfoldable pub split_long_sections : Patterns → ℕ → List Section → List Section
unfolding sections_of_matches char_count strip text_slice
split_long_sections p max_chars List.[] = List.[]
split_long_sections p max_chars (List.◌∷◌ s rest) =
    split_section p max_chars s ++ split_long_sections p max_chars rest

-- The chunks of the sections that have a content.
unfoldable pub items_of_sections : List Section → List AcceptanceCriteriaItem
unfolding strip
items_of_sections List.[] = List.[]
items_of_sections (List.◌∷◌ s rest) =
    let items = items_of_sections rest in
    if is_empty (strip s.content)
    then items
    else List.◌∷◌
        (record {
          id = s.section_id;
          text = str_append s.title (str_append "\n\n" s.content);
          attachment_info = "";
          source_type = "section";
        })
        items

-- The plain text is read where the headings give no section.
unfoldable pub parse_sections : Patterns → (ℕ → String) → String → List Section
unfolding parse_sections_from_html parse_sections_from_text
parse_sections p show content = elim (parse_sections_from_html p show content) [
  | List.[] ↦ parse_sections_from_text p content
  | List.◌∷◌ s rest ↦ List.◌∷◌ s rest
]

unfoldable pub chunk_by_sections :
    Patterns → (ℕ → String) → ℕ → ℕ → String → List AcceptanceCriteriaItem
unfolding parse_sections merge_short_sections split_long_sections items_of_sections
chunk_by_sections p show min_chars max_chars content = items_of_sections (
    split_long_sections p max_chars
      (merge_short_sections min_chars (parse_sections p show content)))
