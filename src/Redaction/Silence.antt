-- ===== src/Redaction/Silence.antt =====
-- What is stored of a trace does not depend on the redacted texts.
mod Tests
use Prim.Native.String.{◌++◌ as str_append}
use qa_ai_native.Prelude.{
  ℕ, ◌<◌, ◌≡◌, false, refl, ap, ◌∙◌, String, List, [], ◌∷◌, map, arith, ◌⊎◌, inl, inr, leb,
}
use qa_ai_native.Dict.{Dict}
use qa_ai_native.Redaction.{
  Item, binary, text, Content, one_text, items, Value, text_value, Args, text_args, dict_args, Part,
  user_prompt, tool_return, tool_call, Message, request, response, redact_text,
  redact_user_content_item, redact_content, redact_value, redact_tool_args, redact_request_part,
  redact_response_part, redact_message, redact_messages,
}

-- Two lists whose elements are related one by one.
pub data Pairwise {A : Type 0} (R : A → A → Type 0) : List A → List A → Type 0 where
  none_left : Pairwise R [] []
  pair : {a b : A} {xs ys : List A} → R a b → Pairwise R xs ys → Pairwise R (a ∷ xs) (b ∷ ys)

map-Pairwise :
    {A : Type 0} (R : A → A → Type 0) (f : A → A) (xs ys : List A)
    → ((a b : A) → R a b → f a ≡ f b)
    → Pairwise R xs ys
    → map f xs ≡ map f ys
map-Pairwise R f _ _ h none_left = refl
map-Pairwise R f _ _ h (pair {a} {b} {xs} {ys} r p) =
    ap (λ x. x ∷ map f xs) (h a b r) ∙ ap (λ l. f b ∷ l) (map-Pairwise R f xs ys h p)

module _ (len : String → ℕ) where
  -- Texts that are equal, or too long to be kept and of one length.
  abbrev pub AlikeText : String → String → Type 0
  AlikeText s t = (s ≡ t) ⊎ ((len s ≡ len t) × (200 < len s))

  pub data AlikeItem : Item → Item → Type 0 where
    same_item : {i : Item} → AlikeItem i i
    any_bytes : {b c m : String} → len b ≡ len c → AlikeItem (binary b m) (binary c m)
    alike_text : {s t : String} → AlikeText s t → AlikeItem (text s) (text t)

  pub data AlikeEntry : String × Value → String × Value → Type 0 where
    same_entry : {e : String × Value} → AlikeEntry e e
    alike_value : {k s t : String} → AlikeText s t → AlikeEntry (k, text_value s) (k, text_value t)

  -- Parts of a request.
  pub data AlikeRequest : Part → Part → Type 0 where
    same_request : {p : Part} → AlikeRequest p p
    alike_prompt :
        {s t : String}
        → AlikeText s t
        → AlikeRequest (user_prompt (one_text s)) (user_prompt (one_text t))
    alike_items :
        {is js : List Item}
        → Pairwise AlikeItem is js
        → AlikeRequest (user_prompt (items is)) (user_prompt (items js))
    alike_return : {s t : String} → AlikeText s t → AlikeRequest (tool_return s) (tool_return t)

  -- Parts of a response.
  pub data AlikeResponse : Part → Part → Type 0 where
    same_response : {p : Part} → AlikeResponse p p
    alike_args :
        {n s t : String}
        → AlikeText s t
        → AlikeResponse (tool_call n (text_args s)) (tool_call n (text_args t))
    alike_dict :
        {n : String} {d e : Dict Value}
        → Pairwise AlikeEntry d e
        → AlikeResponse (tool_call n (dict_args d)) (tool_call n (dict_args e))

  pub data AlikeMessage : Message → Message → Type 0 where
    same_message : {m : Message} → AlikeMessage m m
    alike_request :
        {ps qs : List Part} → Pairwise AlikeRequest ps qs → AlikeMessage (request ps) (request qs)
    alike_response :
        {ps qs : List Part}
        → Pairwise AlikeResponse ps qs
        → AlikeMessage (response ps) (response qs)

module _ (len : String → ℕ) (digits : ℕ → String) where
  text_silent :
      (s t : String) → AlikeText len s t → redact_text len digits s ≡ redact_text len digits t
  unfolding redact_text
  text_silent s t (inl e) = ap (redact_text len digits) e
  text_silent s t (inr (e, long)) =
      let s_long : leb (len s) 200 ≡ false = ground (arith, long) in
      let t_long : leb (len t) 200 ≡ false = ground (arith, long, e) in
      rw (s_long, t_long) (ap (λ n. str_append "<redacted: " (str_append (digits n) " chars>")) e)

  item_silent :
      (i j : Item)
      → AlikeItem len i j
      → redact_user_content_item len digits i ≡ redact_user_content_item len digits j
  unfolding redact_user_content_item
  item_silent _ _ same_item = refl
  item_silent _ _ (any_bytes {b} {c} {m} e) =
      ap
        (λ n. text (
          str_append "<redacted: "
            (str_append (digits n) (str_append " bytes, " (str_append m ">")))))
        e
  item_silent _ _ (alike_text {s} {t} a) = ap text (text_silent s t a)

  redact_entry : String × Value → String × Value
  redact_entry e = (e.0, redact_value len digits e.1)

  entry_silent : (d e : String × Value) → AlikeEntry len d e → redact_entry d ≡ redact_entry e
  unfolding redact_entry
  entry_silent _ _ same_entry = refl
  entry_silent _ _ (alike_value {k} {s} {t} a) = ap (λ x. (k, text_value x)) (text_silent s t a)

  request_silent :
      (p q : Part)
      → AlikeRequest len p q
      → redact_request_part len digits p ≡ redact_request_part len digits q
  unfolding redact_request_part
  request_silent _ _ same_request = refl
  request_silent _ _ (alike_prompt {s} {t} a) =
      ap (λ x. user_prompt (one_text x)) (text_silent s t a)
  request_silent _ _ (alike_items {is} {js} p) =
      ap (λ x. user_prompt (items x))
        (map-Pairwise (AlikeItem len) (redact_user_content_item len digits) is js item_silent p)
  request_silent _ _ (alike_return {s} {t} a) = ap tool_return (text_silent s t a)

  response_silent :
      (p q : Part)
      → AlikeResponse len p q
      → redact_response_part len digits p ≡ redact_response_part len digits q
  unfolding redact_response_part redact_tool_args redact_entry
  response_silent _ _ same_response = refl
  response_silent _ _ (alike_args {n} {s} {t} a) =
      ap (λ x. tool_call n (text_args x)) (text_silent s t a)
  response_silent _ _ (alike_dict {n} {d} {e} p) =
      ap (λ x. tool_call n (dict_args x))
        (map-Pairwise (AlikeEntry len) redact_entry d e entry_silent p)

  message_silent :
      (m n : Message)
      → AlikeMessage len m n
      → redact_message len digits m ≡ redact_message len digits n
  unfolding redact_message
  message_silent _ _ same_message = refl
  message_silent _ _ (alike_request {ps} {qs} p) =
      ap request
        (map-Pairwise (AlikeRequest len) (redact_request_part len digits) ps qs request_silent p)
  message_silent _ _ (alike_response {ps} {qs} p) =
      ap response
        (map-Pairwise (AlikeResponse len) (redact_response_part len digits) ps qs response_silent p)

  -- Two histories that differ only in bytes of a user prompt, of one length, and in texts of more
  -- than 200 characters, of one length, in user prompts and tool returns of a request and in tool
  -- arguments of a response, are stored as the same trace.
  pub redact_messages_silent :
      (ms ns : List Message)
      → Pairwise (AlikeMessage len) ms ns
      → redact_messages len digits ms ≡ redact_messages len digits ns
  unfolding redact_messages
  redact_messages_silent ms ns p =
      map-Pairwise (AlikeMessage len) (redact_message len digits) ms ns message_silent p
