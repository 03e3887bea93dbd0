-- ===== src/Json.antt =====
-- The values that a JSON text parses to, and what Python does with them: a `dict` is `Fields`, a
-- `list` is `Items`.
use Prim.Native.String.{[] as empty, ◌∷◌ as char_cons}
use qa_ai_native.Prelude.{
  String, Bool, true, false, not, Option, none, some, List, [], ◌∷◌, if◌then◌else◌, str_eq, ◌≡◌,
  refl, ap, arith, eq_iff,
}

mutual
  pub data Json : Type 0 where
    null : Json
    bool : Bool → Json
    -- whether it is not zero, and its text
    number : Bool → String → Json
    string : String → Json
    array : Items → Json
    object : Fields → Json

  pub data Items : Type 0 where
    nil : Items
    cons : Json → Items → Items

  pub data Fields : Type 0 where
    end : Fields
    field : String → Json → Fields → Fields

-- Python's truth value.
abbrev pub is_truthy : Json → Bool
is_truthy null = false
is_truthy (bool b) = b
is_truthy (number nonzero text) = nonzero
is_truthy (string s) = not (str_eq s "")
is_truthy (array nil) = false
is_truthy (array (cons j rest)) = true
is_truthy (object end) = false
is_truthy (object (field k j rest)) = true

-- `d.get(k)`, where `None` stands for a missing key too.
unfoldable pub get : String → Fields → Json
get k end = null
get k (field j v rest) = let found = get k rest in if str_eq j k then v else found

-- `d.get(k, default)`
unfoldable pub get_or : Json → String → Fields → Json
get_or default k end = default
get_or default k (field j v rest) =
    let found = get_or default k rest in if str_eq j k then v else found

-- `k in d`
unfoldable pub has_key : String → Fields → Bool
has_key k end = false
has_key k (field j v rest) = let found = has_key k rest in if str_eq j k then true else found

-- `d[k] = v`
unfoldable pub set_field : String → Json → Fields → Fields
set_field k v end = field k v end
set_field k v (field j w rest) =
    let others = set_field k v rest in if str_eq j k then field j v rest else field j w others

-- A list of texts as JSON, and back, if it is one.
abbrev pub texts : List String → List Json
texts [] = []
texts (s ∷ l) = string s ∷ texts l

abbrev pub texts_of : List Json → Option (List String)
texts_of [] = some []
texts_of (string s ∷ rest) = elim (texts_of rest) [ none ↦ none | some l ↦ some (s ∷ l) ]
texts_of (j ∷ rest) = none

abbrev pub list_of : Items → List Json
list_of nil = []
list_of (cons j rest) = j ∷ list_of rest

abbrev pub items_of : List Json → Items
items_of [] = nil
items_of (j ∷ l) = cons j (items_of l)

abbrev pub dict : List (String × Json) → Fields
dict [] = end
dict ((k, j) ∷ d) = field k j (dict d)

pub list_of-items_of : (l : List Json) → list_of (items_of l) ≡ l
list_of-items_of [] = refl
list_of-items_of (j ∷ l) = ap (◌∷◌ j) (list_of-items_of l)

pub texts_of-texts : (l : List String) → texts_of (texts l) ≡ some l
texts_of-texts [] = refl
texts_of-texts (s ∷ l) = rw (texts_of-texts l) refl

abbrev pub keys_of : Fields → List Json
keys_of end = []
keys_of (field k j rest) = string k ∷ keys_of rest

abbrev pub characters : String → List Json
characters empty = []
characters (char_cons c s) = string (char_cons c empty) ∷ characters s

-- What `for x in value` runs over; `none` is a `TypeError`.
abbrev pub iterate : Json → Option (List Json)
iterate (array items) = some (list_of items)
iterate (object fields) = some (keys_of fields)
iterate (string s) = some (characters s)
iterate j = none

abbrev pub or_null : Option String → Json
or_null none = null
or_null (some s) = string s

pub get-set_field :
    (j k : String) (v : Json) (fields : Fields)
    → get k (set_field j v fields) ≡ (if str_eq j k then v else get k fields)
unfolding get set_field
get-set_field j k v end = refl
get-set_field j k v (field i w rest) =
    ground (arith, eq_iff i j, eq_iff i k, eq_iff j k, get-set_field j k v rest)
