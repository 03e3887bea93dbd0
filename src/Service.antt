-- ===== src/Service.antt =====
-- Calls of an outside service over HTTP (common/services/zephyr_client.py, xray_client.py): what a
-- client sends and what comes back. A client's operation is a command: it takes the world, that is
-- the state of the service with what the client has sent and slept so far, to the next world and a
-- value or an exception.
pub mod Sends
use qa_ai_native.Prelude.{ℕ, String, Bool, true, false, List, Option, none, some, ◌≡◌, refl, ap}
use qa_ai_native.Json.{Json, null, string, object, Fields, iterate}

pub data Method : Type 0 where
  http_get http_post http_put http_patch : Method

-- A request. `content` is its JSON body, of a GET its query parameters; the headers and the timeout
-- are the client's for every call.
pub record Call : Type 0 where
  pub method : Method
  pub url : String
  pub content : Json

pub data Exception : Type 0 where
  -- an HTTP status that is an error
  http_status : ℕ → Exception
  -- a timeout or a connection that fails
  transport : Exception
  -- a `ValueError` and a `RuntimeError` of the client itself
  value_error runtime_error : Exception
  -- any other: a key, an attribute or a type that the answer does not have, a text that is no JSON
  unexpected : Exception

pub data Outcome (A : Type 0) : Type 0 where
  done : A → Outcome A
  failed : Exception → Outcome A

pub record World (S : Type 0) : Type 0 where
  pub service : S
  -- oldest first
  pub sent : List Call
  pub slept : List ℕ

abbrev pub Api : Type 0 → Type 0 → Type 0
Api S A = World S → World S × Outcome A

module _ {S : Type 0} where
  abbrev pub pure : {A : Type 0} → A → Api S A
  pure a w = (w, done a)

  abbrev pub raise : {A : Type 0} → Exception → Api S A
  raise e w = (w, failed e)

  abbrev pub and_then : {A B : Type 0} → World S × Outcome A → (A → Api S B) → World S × Outcome B
  and_then (w, done a) k = k a w
  and_then (w, failed e) k = (w, failed e)

  infixl 5 ◌>>=◌ ◌>>◌
  abbrev pub ◌>>=◌ : {A B : Type 0} → Api S A → (A → Api S B) → Api S B
  m >>= k = λ w. and_then (m w) k

  abbrev pub ◌>>◌ : {A B : Type 0} → Api S A → Api S B → Api S B
  m >> n = m >>= λ _. n

  -- An exception unless a test holds.
  abbrev pub guard : Bool → Exception → Api S (Unit {0})
  guard true e = pure tt
  guard false e = raise e

  -- The value of an option, or an exception.
  abbrev pub or_raise : {A : Type 0} → Exception → Option A → Api S A
  or_raise e none = raise e
  or_raise e (some a) = pure a

  -- What Python reads off a JSON value: a mapping to look keys up in, a list to run over, a text.
  abbrev pub as_fields : Json → Api S Fields
  as_fields (object fields) = pure fields
  as_fields j = raise unexpected

  abbrev pub as_list : Json → Api S (List Json)
  as_list j = or_raise unexpected (iterate j)

  abbrev pub as_text : Json → Api S String
  as_text (string s) = pure s
  as_text j = raise unexpected

  -- A text or `None`.
  abbrev pub as_optional_text : Json → Api S (Option String)
  as_optional_text null = pure none
  as_optional_text (string s) = pure (some s)
  as_optional_text j = raise unexpected

module _ {S A B : Type 0} where
  -- A chain that ends in a value has one at each step.
  pub and_then-done :
      (r : World S × Outcome A) (k : A → Api S B) (b : B)
      → (and_then r k).1 ≡ done b
      → (a : A) × (r.1 ≡ done a) × ((k a r.0).1 ≡ done b)
  and_then-done (w, done a) k b h = (a, refl, h)
  and_then-done (w, failed e) k b h = cc

-- The value of a `done`, with another in its place.
abbrev pub value_or : {A : Type 0} → A → Outcome A → A
value_or a (done b) = b
value_or a (failed e) = a

pub done_inj : {A : Type 0} (a b : A) → Path (Outcome A) (done a) (done b) → a ≡ b
done_inj a b h = ap (value_or a) h

-- A chain goes on with the value of a step.
pub and_then-eq :
    {S A B : Type 0} (r : World S × Outcome A) (k : A → Api S B) (a : A)
    → r.1 ≡ done a
    → and_then r k ≡ k a r.0
and_then-eq (w, o) k a h = rw h refl
