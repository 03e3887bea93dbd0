-- ===== src/Zephyr/Updates.antt =====
-- What an update through the Zephyr client changes, if the service is a store of test cases.
use qa_ai_native.Prelude.{
  ◌<◌, String, ◌≡◌, refl, sym, ap, ◌∙◌, false, ◌||◌, Option, none, some, List, [], ◌∷◌,
  if◌then◌else◌, str_eq, eq_iff, eq_refl, arith, Bool-cases, inl, inr,
}
use mathlib.Core.Path.{subst}
use qa_ai_native.Dict.{elem}
use qa_ai_native.Json.{Json, null, object, Fields, get, set_field, get-set_field}
use qa_ai_native.Retry.{Attempt, succeeded}
use qa_ai_native.Service.{http_get, http_put, Call, World, done}
use qa_ai_native.Zephyr.{Config}
use qa_ai_native.Zephyr.Cases.{get_test_case_data, update_test_case, add_all}
use qa_ai_native.Zephyr.Pages.{after, request-succeeded, request_json-succeeded}

abbrev pub get_call : String → Call
get_call url = record { method = http_get; url = url; content = null }

abbrev pub put_call : String → Json → Call
put_call url j = record { method = http_put; url = url; content = j }

-- A service that keeps a value under each address: a read answers it, and a write replaces it.
pub record Store {S : Type 0} (send : Call → S → S × Attempt (Option Json)) : Type 0 where
  pub stored : S → String → Json
  pub put : S → String → Json → S
  pub reads : (url : String) (s : S) → send (get_call url) s ≡ (s, succeeded (some (stored s url)))
  pub writes :
      (url : String) (j : Json) (s : S) → send (put_call url j) s ≡ (put s url j, succeeded none)
  pub stored-put :
      (url u : String) (j : Json) (s : S)
      → stored (put s url j) u ≡ (if str_eq url u then j else stored s u)

pub elem-add_all :
    (x : String) (labels more : List String)
    → elem x (add_all labels more) ≡ (elem x labels || elem x more)
unfolding add_all
elem-add_all x labels [] = ground arith
elem-add_all x labels (l ∷ more) = elim (Bool-cases (str_eq l x)) [
  | inl e ↦
      let same : elem l labels ≡ elem x labels = ap (λ k. elem k labels) ((eq_iff l x).0 e) in
      ground (arith, e, same, elem-add_all x labels more, elem-add_all x (l ∷ labels) more)
  | inr e ↦ ground (arith, e, elem-add_all x labels more, elem-add_all x (l ∷ labels) more)
]

module _ {S : Type 0} (send : Call → S → S × Attempt (Option Json)) (c : Config)
    (store : Store send) (positive : 0 < c.max_retries) where
  -- Under an address the field of that name becomes `v`, and nothing else changes.
  pub record Updates (url name : String) (v : Json) (old : Fields) (s s' : S) : Type 0 where
    pub new : Fields
    pub here : store.stored s' url ≡ object new
    pub fields : (k : String) → get k new ≡ (if str_eq name k then v else get k old)
    pub elsewhere : (u : String) → str_eq url u ≡ false → store.stored s' u ≡ store.stored s u

  put-Updates :
      (url name : String) (v : Json) (old : Fields) (s : S)
      → Updates url name v old s (store.put s url (object (set_field name v old)))
  put-Updates url name v old s = record {
    new = set_field name v old;
    here = store.stored-put url url (object (set_field name v old)) s ∙ (rw (eq_refl url) refl);
    fields = λ k. get-set_field name k v old;
    elsewhere =
        λ u other. store.stored-put url u (object (set_field name v old)) s ∙ (rw other refl);
  }

  pub get_test_case_data-Store :
      (url : String) (w : World S)
      → (get_test_case_data send c url w)
        ≡ (after send c (get_call url) w, done (store.stored w.service url))
  unfolding get_test_case_data
  get_test_case_data-Store url w =
      request_json-succeeded send c (get_call url) (store.stored w.service url) w positive
        (ap (λ r. r.1) (store.reads url w.service))

  pub update_test_case-Store :
      (url : String) (j : Json) (w : World S)
      → (update_test_case send c url j w) ≡ (after send c (put_call url j) w, done none)
  unfolding update_test_case
  update_test_case-Store url j w =
      request-succeeded send c (put_call url j) none w positive
        (ap (λ r. r.1) (store.writes url j w.service))

  -- A read and a write of an address.
  abbrev pub read_then_write : String → Json → World S → World S
  read_then_write url j w = after send c (put_call url j) (after send c (get_call url) w)

  pub written-Updates :
      (url name : String) (v : Json) (old : Fields) (w : World S)
      → Updates url name v old w.service
          (read_then_write url (object (set_field name v old)) w).service
  written-Updates url name v old w =
      let j = object (set_field name v old) in
      let same : (read_then_write url j w).service ≡ store.put w.service url j =
        ap (λ s. (send (put_call url j) s).0) (ap (λ r. r.0) (store.reads url w.service))
        ∙ ap (λ r. r.0) (store.writes url j w.service) in
      subst (Updates url name v old w.service) (sym same) (put-Updates url name v old w.service)
