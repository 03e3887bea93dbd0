-- ===== src/Redaction.antt =====
-- The redaction of debug traces (common/trace_redaction.py). The messages are the model library's:
-- of a part the model has what the redaction reads, and `kept` stands for every part that it leaves
-- alone. Python's `len` of a text or of bytes and `str` of a number are parameters.
pub mod Silence
use Prim.Native.String.{◌++◌ as str_append}
use qa_ai_native.Prelude.{ℕ, String, List, map, if◌then◌else◌, leb}
use qa_ai_native.Dict.{Dict}

-- An item of a user prompt: bytes with a media type, a text, or anything else.
pub data Item : Type 0 where
  binary : String → String → Item
  text : String → Item
  other_item : String → Item

pub data Content : Type 0 where
  one_text : String → Content
  items : List Item → Content

-- The value of a tool's argument.
pub data Value : Type 0 where
  text_value other_value : String → Value

pub data Args : Type 0 where
  text_args : String → Args
  dict_args : Dict Value → Args
  other_args : String → Args

pub data Part : Type 0 where
  user_prompt : Content → Part
  -- a tool's return whose content is a text
  tool_return : String → Part
  tool_call : String → Args → Part
  kept : String → Part

pub data Message : Type 0 where
  request response : List Part → Message
  other_message : String → Message

module _ (len : String → ℕ) (digits : ℕ → String) where
  unfoldable pub redact_text : String → String
  redact_text value =
      if leb (len value) 200
      then value
      else str_append "<redacted: " (str_append (digits (len value)) " chars>")

  unfoldable pub redact_user_content_item : Item → Item
  unfolding redact_text
  redact_user_content_item (binary data_bytes media_type) = text (
      str_append "<redacted: "
        (str_append (digits (len data_bytes)) (str_append " bytes, " (str_append media_type ">"))))
  redact_user_content_item (text t) = text (redact_text t)
  redact_user_content_item (other_item i) = other_item i

  abbrev pub redact_content : Content → Content
  redact_content (one_text t) = one_text (redact_text t)
  redact_content (items is) = items (map redact_user_content_item is)

  abbrev pub redact_value : Value → Value
  redact_value (text_value t) = text_value (redact_text t)
  redact_value (other_value v) = other_value v

  unfoldable pub redact_tool_args : Args → Args
  redact_tool_args (text_args t) = text_args (redact_text t)
  redact_tool_args (dict_args d) = dict_args (map (λ e. (e.0, redact_value e.1)) d)
  redact_tool_args (other_args a) = other_args a

  -- The two branches over the parts of a message.
  unfoldable pub redact_request_part : Part → Part
  redact_request_part (user_prompt c) = user_prompt (redact_content c)
  redact_request_part (tool_return t) = tool_return (redact_text t)
  redact_request_part (tool_call name args) = tool_call name args
  redact_request_part (kept p) = kept p

  unfoldable pub redact_response_part : Part → Part
  unfolding redact_tool_args
  redact_response_part (tool_call name args) = tool_call name (redact_tool_args args)
  redact_response_part (user_prompt c) = user_prompt c
  redact_response_part (tool_return t) = tool_return t
  redact_response_part (kept p) = kept p

  unfoldable pub redact_message : Message → Message
  unfolding redact_request_part redact_response_part
  redact_message (request parts) = request (map redact_request_part parts)
  redact_message (response parts) = response (map redact_response_part parts)
  redact_message (other_message m) = other_message m

  unfoldable pub redact_messages : List Message → List Message
  unfolding redact_message
  redact_messages = map redact_message
