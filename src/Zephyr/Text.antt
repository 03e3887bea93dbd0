-- ===== src/Zephyr/Text.antt =====
-- The texts of the test steps in Zephyr (common/services/zephyr_client.py), where a line ends with
-- `<br>`: the calls of `str.replace`, `str.join` and `str.split`, character by character.
pub mod Lines
use Prim.Native.Char.{Char, code}
use Prim.Native.String.{String, [], ◌∷◌}
use qa_ai_native.Prelude.{
  ℕ, zero, suc, Bool, true, false, ◌&&◌, ◌==◌, if◌then◌else◌, List, str_append,
}

abbrev pub newline : ℕ
newline = b'\n'

-- `s.replace("\n", "<br>")`
unfoldable pub escape_lines : String → String
escape_lines [] = []
escape_lines (c ∷ s) =
    if code c == newline then "<" ∷ "b" ∷ "r" ∷ ">" ∷ escape_lines s else c ∷ escape_lines s

-- `s.replace("\n", "")`
unfoldable pub drop_lines : String → String
drop_lines [] = []
drop_lines (c ∷ s) = if code c == newline then drop_lines s else c ∷ drop_lines s

-- Whether a text begins with these characters.
abbrev pub begins : List ℕ → String → Bool
begins List.[] s = true
begins (List.◌∷◌ n p) [] = false
begins (List.◌∷◌ n p) (c ∷ s) = (code c == n) && begins p s

abbrev pub br : List ℕ
br = List.◌∷◌ b'<' (List.◌∷◌ b'b' (List.◌∷◌ b'r' (List.◌∷◌ b'>' List.[])))

-- `s.replace("<br>", "\n")`; the number is that of the characters of a replaced `<br>` to pass.
unfoldable pub unescape_from : ℕ → String → String
unescape_from skip [] = []
unescape_from (suc skip) (c ∷ s) = unescape_from skip s
unescape_from zero (c ∷ s) =
    if begins br (c ∷ s) then "\n" ∷ unescape_from 3 s else c ∷ unescape_from 0 s

unfoldable pub unescape_lines : String → String
unfolding unescape_from
unescape_lines s = unescape_from 0 s

-- `"<br>".join(items)`
unfoldable pub join_br : List String → String
join_br List.[] = ""
join_br (List.◌∷◌ s List.[]) = s
join_br (List.◌∷◌ s (List.◌∷◌ t l)) = str_append s (str_append "<br>" (join_br (List.◌∷◌ t l)))

-- The first item with a character in front.
abbrev pub cons_first : Char → List String → List String
cons_first c List.[] = List.◌∷◌ (c ∷ []) List.[]
cons_first c (List.◌∷◌ s l) = List.◌∷◌ (c ∷ s) l

-- `s.split("<br>")`
unfoldable pub split_from : ℕ → String → List String
split_from skip [] = List.◌∷◌ "" List.[]
split_from (suc skip) (c ∷ s) = split_from skip s
split_from zero (c ∷ s) =
    if begins br (c ∷ s) then List.◌∷◌ "" (split_from 3 s) else cons_first c (split_from 0 s)

unfoldable pub split_br : String → List String
unfolding split_from
split_br s = split_from 0 s

-- Whether `<br>` stands in a text, and whether a line ends in it.
abbrev pub has_br : String → Bool
has_br [] = false
has_br (c ∷ s) = if begins br (c ∷ s) then true else has_br s

abbrev pub has_newline : String → Bool
has_newline [] = false
has_newline (c ∷ s) = if code c == newline then true else has_newline s
