-- ===== src/Zephyr/Text/Lines.antt =====
-- The rewriting of a text for Zephyr is undone when it is read.
use Prim.Native.Char.{Char, code}
use Prim.Native.String.{String, [], ◌∷◌}
use qa_ai_native.Prelude.{
  ℕ, true, false, ◌&&◌, ◌==◌, List, str_append, ◌≡◌, refl, ap, arith, inl, inr, Bool-cases, All,
  ◌∙◌,
}
use text.Mathlib.TextEquality.{Char-path}
use text.Mathlib.TextLemmas.{nil-append, cons-append}
use qa_ai_native.Zephyr.Text.{
  newline, escape_lines, drop_lines, begins, br, unescape_from, unescape_lines, join_br, cons_first,
  split_from, split_br, has_br, has_newline,
}

-- Characters that neither open a `<br>` nor end a line.
abbrev IsInner : ℕ → Type 0
IsInner n = (n == b'<' ≡ false) × (n == newline ≡ false)

begins-escape_lines :
    (p : List ℕ) (s : String) → All IsInner p → begins p (escape_lines s) ≡ begins p s
unfolding escape_lines
begins-escape_lines List.[] s h = refl
begins-escape_lines (List.◌∷◌ n p) [] h = refl
begins-escape_lines (List.◌∷◌ n p) (c ∷ s) h = ground (arith, h, begins-escape_lines p s)

newline-path : (c : Char) → (code c == newline) ≡ true → c ≡ "\n"
newline-path c h = Char-path c "\n" (ground arith)

has_br-tail : (c : Char) (s : String) → has_br (c ∷ s) ≡ false → has_br s ≡ false
has_br-tail c s h = ground (arith, h)

has_br-here : (c : Char) (s : String) → has_br (c ∷ s) ≡ false → begins br (c ∷ s) ≡ false
has_br-here c s h = ground (arith, h)

-- A character that ends no line begins a `<br>` of the rewritten text only if it did before.
begins-br-escape_lines :
    (c : Char) (s : String) → begins br (c ∷ escape_lines s) ≡ begins br (c ∷ s)
begins-br-escape_lines c s =
    ap (λ b. (code c == b'<') && b)
      (begins-escape_lines (List.◌∷◌ b'b' (List.◌∷◌ b'r' (List.◌∷◌ b'>' List.[]))) s
        ((refl, refl), ((refl, refl), ((refl, refl), tt))))

unescape_from-escape_lines : (s : String) → has_br s ≡ false → unescape_from 0 (escape_lines s) ≡ s
unfolding unescape_from escape_lines
unescape_from-escape_lines [] h = refl
unescape_from-escape_lines (c ∷ s) h =
    let rest = unescape_from-escape_lines s (has_br-tail c s h) in
    elim (Bool-cases (code c == newline)) [
      | inl line ↦ rw (line, newline-path c line) (ap (◌∷◌ "\n") rest)
      | inr other ↦
          let shut : begins br (c ∷ escape_lines s) ≡ false =
            begins-br-escape_lines c s ∙ has_br-here c s h in
          rw (other, shut) (ap (◌∷◌ c) rest)
    ]

-- A text without `<br>` survives that its line ends become `<br>` and are read back.
pub unescape_lines-escape_lines :
    (s : String) → has_br s ≡ false → unescape_lines (escape_lines s) ≡ s
unfolding unescape_lines
unescape_lines-escape_lines s h = unescape_from-escape_lines s h

begins-append_br :
    (p : List ℕ) (s t : String)
    → All IsInner p
    → begins p (str_append s (str_append "<br>" t)) ≡ begins p s
begins-append_br List.[] s t h = refl
begins-append_br (List.◌∷◌ n p) [] t h = rw (nil-append, cons-append) (ground (arith, h))
begins-append_br (List.◌∷◌ n p) (c ∷ s) t h =
    rw cons-append (ap (λ b. (code c == n) && b) (begins-append_br p s t h.1))

split_from-append_br :
    (s t : String)
    → has_br s ≡ false
    → split_from 0 (str_append s (str_append "<br>" t)) ≡ List.◌∷◌ s (split_from 0 t)
unfolding split_from
split_from-append_br [] t h =
    rw (nil-append, cons-append, cons-append, cons-append, cons-append, nil-append) refl
split_from-append_br (c ∷ s) t h =
    let shut : begins br (c ∷ str_append s (str_append "<br>" t)) ≡ false =
      ap (λ b. (code c == b'<') && b)
        (begins-append_br (List.◌∷◌ b'b' (List.◌∷◌ b'r' (List.◌∷◌ b'>' List.[]))) s t
          ((refl, refl), ((refl, refl), ((refl, refl), tt))))
      ∙ has_br-here c s h in
    rw (cons-append, shut) (ap (cons_first c) (split_from-append_br s t (has_br-tail c s h)))

split_from-one : (s : String) → has_br s ≡ false → split_from 0 s ≡ List.◌∷◌ s List.[]
unfolding split_from
split_from-one [] h = refl
split_from-one (c ∷ s) h =
    rw (has_br-here c s h) (ap (cons_first c) (split_from-one s (has_br-tail c s h)))

-- The items without `<br>` that are joined are those that the text is split into.
pub split_br-join_br :
    (s : String) (l : List String)
    → All (λ t. has_br t ≡ false) (List.◌∷◌ s l)
    → split_br (join_br (List.◌∷◌ s l)) ≡ List.◌∷◌ s l
unfolding split_br join_br
split_br-join_br s List.[] h = split_from-one s h.0
split_br-join_br s (List.◌∷◌ t l) h =
    split_from-append_br s (join_br (List.◌∷◌ t l)) h.0 ∙ ap (List.◌∷◌ s) (split_br-join_br t l h.1)

drop_lines-none : (s : String) → has_newline s ≡ false → drop_lines s ≡ s
unfolding drop_lines
drop_lines-none [] h = refl
drop_lines-none (c ∷ s) h =
    let here : (code c == newline) ≡ false = ground (arith, h) in
    rw here (ap (◌∷◌ c) (drop_lines-none s (ground (arith, h))))

drop_lines-append :
    (s t : String) → drop_lines (str_append s t) ≡ str_append (drop_lines s) (drop_lines t)
unfolding drop_lines
drop_lines-append [] t = rw (nil-append, nil-append) refl
drop_lines-append (c ∷ s) t =
    let rest = drop_lines-append s t in
    elim (Bool-cases (code c == newline)) [
      | inl line ↦ rw (cons-append, line) rest
      | inr other ↦ rw (cons-append, other, cons-append) (ap (◌∷◌ c) rest)
    ]

-- Joined items lose no character when none of them ends a line.
pub drop_lines-join_br :
    (l : List String) → All (λ t. has_newline t ≡ false) l → drop_lines (join_br l) ≡ join_br l
unfolding join_br drop_lines
drop_lines-join_br List.[] h = refl
drop_lines-join_br (List.◌∷◌ s List.[]) h = drop_lines-none s h.0
drop_lines-join_br (List.◌∷◌ s (List.◌∷◌ t l)) h =
    rw
      (
        drop_lines-append s (str_append "<br>" (join_br (List.◌∷◌ t l))),
        drop_lines-append "<br>" (join_br (List.◌∷◌ t l)),
        drop_lines-join_br (List.◌∷◌ t l) h.1,
        drop_lines-none s h.0,
      )
      refl
